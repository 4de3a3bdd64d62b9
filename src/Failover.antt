-- ===== src/Failover.antt =====
-- roostos-engine/src/roostos_engine/cluster_sync.py: the loop in which a worker node follows its
-- controller, and takes its place when it is gone. What the controller answers in a round is an
-- argument.
pub mod Streaks
use Prim.Native.Nat.{ℕ, ◌+◌}
use Prim.Native.String.{String}
use text.Mathlib.Text.{◌==◌}
use mathlib.Core.Bool.{Bool, true, false, not, ◌&&◌, ◌||◌}
use mathlib.Core.Option.{Option, none, some}
use mathlib.Core.List.{List, [], ◌∷◌, ◌++◌}
use roostos.Prelude.Int.{ℤ, pos, leb_ℤ}
use roostos.Prelude.{leb, eqb, if◌then◌else◌}

-- `S` is the type of a configuration slice.
pub record ClusterSyncAgent (S : Type 0) : Type 0 where
  pub failover_priority : ℤ
  pub auto_failover : Bool
  pub failover_threshold : ℕ
  pub consecutive_heartbeat_failures : ℕ
  pub is_promoted_master : Bool
  pub running : Bool
  pub last_config_slice : Option S
  pub installs : List Bool  -- the calls of `install_updates`, by `security_only`, oldest first
  pub syncs : ℕ  -- the calls of `sync_from_controller`

-- What comes after the configuration slice: the states agree, or differ and the call returns or raises.
pub data Manifest : Type 0 where
  same : Manifest
  differs : Manifest
  differs_raises : Manifest

-- What comes after the heartbeat.
pub data Fetch (S : Type 0) : Type 0 where
  slice_raises : Fetch S
  fetched : Option S → Manifest → Fetch S

pub data Answers (S : Type 0) : Type 0 where
  heartbeat_raises : Answers S
  heartbeat : List String → Fetch S → Answers S

module _ {S : Type 0} where
  unfoldable pub execute_command : String → ClusterSyncAgent S → ClusterSyncAgent S
  execute_command cmd a =
      if cmd == "install_updates" || cmd == "install_security_updates"
      then record a { installs = a.installs ++ (cmd == "install_security_updates") ∷ [] }
      else a

  unfoldable pub execute_commands : List String → ClusterSyncAgent S → ClusterSyncAgent S
  execute_commands [] a = a
  execute_commands (cmd ∷ cmds) a = execute_commands cmds (execute_command cmd a)

  abbrev pub apply_config_slice : Option S → ClusterSyncAgent S → ClusterSyncAgent S
  apply_config_slice none a = a
  apply_config_slice (some s) a = record a { last_config_slice = some s }

  unfoldable pub promote_to_master : ClusterSyncAgent S → Bool × ClusterSyncAgent S
  promote_to_master a = (true, record a { is_promoted_master = true; running = false })

  unfoldable pub evaluate_and_trigger_failover : ClusterSyncAgent S → Bool × ClusterSyncAgent S
  evaluate_and_trigger_failover a =
      if a.is_promoted_master || leb_ℤ a.failover_priority (pos 0)
      then (false, a)
      else promote_to_master a

  -- the `except` branch
  unfoldable pub fail : ClusterSyncAgent S → ClusterSyncAgent S
  fail a =
      let b : ClusterSyncAgent S = record a {
        consecutive_heartbeat_failures = a.consecutive_heartbeat_failures + 1;
      } in
      if b.auto_failover && leb b.failover_threshold b.consecutive_heartbeat_failures
      then (evaluate_and_trigger_failover b).1
      else b

  abbrev pub sync_state : Manifest → ClusterSyncAgent S → ClusterSyncAgent S
  sync_state same a = a
  sync_state differs a = record a { syncs = a.syncs + 1 }
  sync_state differs_raises a = fail (record a { syncs = a.syncs + 1 })

  abbrev pub fetch_state : Fetch S → ClusterSyncAgent S → ClusterSyncAgent S
  fetch_state slice_raises a = fail a
  fetch_state (fetched slice manifest) a = sync_state manifest (apply_config_slice slice a)

  -- one round of the loop
  unfoldable pub sync_round : Answers S → ClusterSyncAgent S → ClusterSyncAgent S
  sync_round heartbeat_raises a = fail a
  sync_round (heartbeat commands fetch) a =
      fetch_state fetch
        (execute_commands commands (record a { consecutive_heartbeat_failures = 0 }))

  -- the rounds that a list of answers gives
  unfoldable pub sync_loop : List (Answers S) → ClusterSyncAgent S → ClusterSyncAgent S
  sync_loop [] a = a
  sync_loop (r ∷ rs) a = let rest = sync_loop rs (sync_round r a) in if a.running then rest else a

-- ===== src/Allowance.antt =====
-- roostos-engine/src/roostos_engine/daemon/allowance_tracker.py: bedtimes, daily allowances and
-- temporary bypasses, and the firewall commands that follow from them.
pub mod Usage
pub mod Blocking
pub mod Kernel
pub mod Extensions
pub mod Success
pub mod Synced
use Prim.Native.Nat.{ℕ, ◌+◌, ◌*◌}
use Prim.Native.String
use Prim.Native.String.{String}
use text.Mathlib.Text.{◌==◌}
use mathlib.Core.Bool.{Bool, true, false, not}
use mathlib.Core.Option.{Option, none, some}
use mathlib.Core.List.{List, [], ◌∷◌, ◌++◌, map}
use roostos.Prelude.{
  ltb, leb, eqb, has, add, minus, update, discard, keep, is_some, or_else, if◌then◌else◌,
}
use roostos.Prelude.Dict
use roostos.Prelude.Dict.{Dict}
use roostos.Prelude.Result.{Result, ok, err, ◌>>=◌}
use roostos.Prelude.Text.{lower}
use roostos.Mac.{normalize_mac}
use roostos.Models.{ScheduleConfig, RoostConfig}
use roostos.Schedule.{Datetime, day_of, is_schedule_active, resolve_schedule_targets}

pub record Bypass : Type 0 where
  pub mac : String
  pub expiry : Datetime

pub record Tracker : Type 0 where
  pub currently_blocked : List String
  pub allowance_usage : Dict ℕ
  pub temporary_bypasses : List Bypass
  pub nft_call_history : List (List String)
  pub last_allowance_date : ℕ
  pub expired : List String  -- the calls of `on_bypass_expired`, oldest first

-- What a check reads from elsewhere: the configuration, the routing commands of the firewall
-- manager, the addresses with a lease, and the clock.
pub record Inputs : Type 0 where
  pub config : RoostConfig
  pub routing : List (List String)
  pub active_macs : List String
  pub now : Datetime

-- `get_block_mac_cmd` and `get_unblock_mac_cmd` of firewall_manager.py, with the default set
unfoldable pub element : String → String
element mac = String.◌++◌ "{ " (String.◌++◌ (lower mac) " }")

unfoldable pub block_mac_cmd : String → List String
block_mac_cmd mac =
    "nft" ∷ "add" ∷ "element" ∷ "inet" ∷ "filter" ∷ "blocked_clients" ∷ element mac ∷ []

unfoldable pub unblock_mac_cmd : String → List String
unblock_mac_cmd mac =
    "nft" ∷ "delete" ∷ "element" ∷ "inet" ∷ "filter" ∷ "blocked_clients" ∷ element mac ∷ []

-- the record of a command; the process that runs it, and whether it failed, which no caller reads, are
-- left out
unfoldable pub execute_system_cmd : List String → Tracker → Tracker
execute_system_cmd args s = record s { nft_call_history = s.nft_call_history ++ args ∷ [] }

unfoldable pub setup_policy_routing : List (List String) → Tracker → Tracker
unfolding execute_system_cmd
setup_policy_routing [] s = s
setup_policy_routing (cmd ∷ cmds) s = setup_policy_routing cmds (execute_system_cmd cmd s)

-- 1. the bypasses that are still valid, and the addresses of the others, for which a callback is
-- called that is taken to return
unfoldable pub valid_bypasses : Datetime → List Bypass → List Bypass
valid_bypasses now bypasses = keep (λ b. ltb now b.expiry) bypasses

unfoldable pub expired_macs : Datetime → List Bypass → List String
expired_macs now bypasses = map (λ b. b.mac) (keep (λ b. not (ltb now b.expiry)) bypasses)

unfoldable pub bypassed : List Bypass → List String
bypassed bypasses = update [] (map (λ b. b.mac) bypasses)

-- 2. the targets of the schedules that are active
unfoldable pub check_schedule :
    RoostConfig → Datetime → ScheduleConfig → List String → Result (List String)
check_schedule config now sched blocked =
    if is_schedule_active sched now
    then (do targets ← resolve_schedule_targets sched config; ok (update blocked targets))
    else ok blocked

unfoldable pub check_schedules :
    RoostConfig → Datetime → List ScheduleConfig → List String → Result (List String)
check_schedules config now [] blocked = ok blocked
check_schedules config now (sched ∷ scheds) blocked = do
  blocked' ← check_schedule config now sched blocked
  check_schedules config now scheds blocked'

-- `d.get(mac, 0)`
unfoldable pub seconds : String → Dict ℕ → ℕ
seconds mac usage = or_else (Dict.get mac usage) 0

-- 3. a minute of use for a device with a lease; the device is blocked once its limit is reached
unfoldable pub charge : List String → String → Dict ℕ → Dict ℕ
unfolding seconds
charge active mac usage =
    if has mac active then Dict.put mac (seconds mac usage + 60) usage else usage

unfoldable pub charge_all :
    List String → ℕ → List String → Dict ℕ × List String → Dict ℕ × List String
unfolding charge
charge_all active limit [] (usage, blocked) = (usage, blocked)
charge_all active limit (mac ∷ macs) (usage, blocked) =
    let used = charge active mac usage in
    charge_all active limit macs
      (used, if leb limit (seconds mac used) then add mac blocked else blocked)

-- the loop over the schedules with a limit; what was charged stays so if a later call raises
unfoldable pub charge_schedules :
    RoostConfig
    → List String
    → List ScheduleConfig
    → Dict ℕ × List String
    → Dict ℕ × Result (List String)
charge_schedules config active [] (usage, blocked) = (usage, ok blocked)
charge_schedules config active (sched ∷ scheds) (usage, blocked) =
    elim (resolve_schedule_targets sched config) [
      | ok targets ↦
          charge_schedules config active scheds
            (charge_all active (or_else sched.daily_limit 0 * 60) targets (usage, blocked))
      | err e ↦ (usage, err e)
    ]

unfoldable pub limited : List ScheduleConfig → List ScheduleConfig
limited scheds = keep (λ sched. is_some sched.daily_limit) scheds

-- 5. the command for a device whose state changes, one round of either loop
unfoldable pub block_mac : String → Tracker → Tracker
unfolding execute_system_cmd
block_mac mac s =
    let t = execute_system_cmd (block_mac_cmd mac) s in
    record t { currently_blocked = add mac t.currently_blocked }

unfoldable pub unblock_mac : String → Tracker → Tracker
unfolding execute_system_cmd
unblock_mac mac s =
    let t = execute_system_cmd (unblock_mac_cmd mac) s in
    record t { currently_blocked = discard mac t.currently_blocked }

unfoldable pub block_all : List String → Tracker → Tracker
block_all [] s = s
block_all (mac ∷ macs) s = block_all macs (block_mac mac s)

unfoldable pub unblock_all : List String → Tracker → Tracker
unblock_all [] s = s
unblock_all (mac ∷ macs) s = unblock_all macs (unblock_mac mac s)

-- 4. and 5.: `final_blocked`, and the two loops
unfoldable pub enforce : List String → List String → Tracker → Tracker
enforce blocked bypasses s =
    let final = minus blocked bypasses in
    let to_block = minus final s.currently_blocked in
    let to_unblock = minus s.currently_blocked final in
    unblock_all to_unblock (block_all to_block s)

abbrev pub enforce_result :
    Result (List String) → List String → Tracker → Result (Unit {0}) × Tracker
enforce_result (ok blocked) bypasses s = (ok tt, enforce blocked bypasses s)
enforce_result (err e) bypasses s = (err e, s)

-- a new day clears the counters
unfoldable pub reset_usage : ℕ → Tracker → Tracker
reset_usage today s =
    if not (eqb s.last_allowance_date today)
    then record s { last_allowance_date = today; allowance_usage = [] }
    else s

-- the second half of the check, from the schedules on; `bypasses` is `active_bypasses`
abbrev pub check_allowances :
    Inputs → List String → Result (List String) → Tracker → Result (Unit {0}) × Tracker
check_allowances i bypasses (err e) s = (err e, s)
check_allowances i bypasses (ok blocked) s =
    let t = reset_usage (day_of i.now) s in
    let (usage, result) =
      charge_schedules i.config i.active_macs (limited i.config.schedules)
        (t.allowance_usage, blocked) in
    enforce_result result bypasses (record t { allowance_usage = usage })

unfoldable pub run_bypasses : Datetime → Tracker → Tracker
run_bypasses now s = record s {
  temporary_bypasses = valid_bypasses now s.temporary_bypasses;
  expired = s.expired ++ expired_macs now s.temporary_bypasses;
}

unfoldable pub run_scheduler_check : Inputs → Tracker → Result (Unit {0}) × Tracker
run_scheduler_check i s =
    let t = run_bypasses i.now (setup_policy_routing i.routing s) in
    check_allowances i (bypassed t.temporary_bypasses)
      (check_schedules i.config i.now i.config.schedules []) t

-- `except Exception: return False`
abbrev pub succeeded : Result (Unit {0}) × Tracker → Bool × Tracker
succeeded (ok _, s) = (true, s)
succeeded (err _, s) = (false, s)

abbrev pub others : String → List Bypass → List Bypass
others mac bypasses = keep (λ b. not (b.mac == mac)) bypasses

abbrev pub grant : Inputs → Datetime → Result String → ℕ → Tracker → Bool × Tracker
grant i granted_at (err e) duration s = (false, s)
grant i granted_at (ok mac) duration s =
    let granted : Bypass = record { mac = mac; expiry = granted_at + duration * 1000000 } in
    succeeded (
      run_scheduler_check i
        (record s { temporary_bypasses = others mac s.temporary_bypasses ++ granted ∷ [] }))

-- The clock is read for the expiry, and again (`i.now`) by the check.
unfoldable pub grant_time_extension : Inputs → Datetime → String → ℕ → Tracker → Bool × Tracker
grant_time_extension i granted_at mac duration s = grant i granted_at (normalize_mac mac) duration s

abbrev pub revoke : Inputs → Result String → Tracker → Bool × Tracker
revoke i (err e) s = (false, s)
revoke i (ok mac) s = succeeded (
    run_scheduler_check i (record s {
      temporary_bypasses = others mac s.temporary_bypasses;
      expired = s.expired ++ mac ∷ [];
    }))

unfoldable pub remove_time_extension : Inputs → String → Tracker → Bool × Tracker
remove_time_extension i mac s = revoke i (normalize_mac mac) s

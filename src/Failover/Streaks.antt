-- ===== src/Failover/Streaks.antt =====
-- When a worker node promotes itself.
use Prim.Native.Nat.{ℕ, zero, suc, ◌+◌, ◌-◌, ◌≤◌}
use Prim.Native.String.{String}
use text.Mathlib.Text.{◌==◌}
use mathlib.Core.Path.{◌≡◌, refl, ap, ap₂, ◌∙◌, sym}
use mathlib.Core.Logic.{inl, inr}
use mathlib.Core.Bool.{Bool, true, false, not, ◌&&◌, ◌||◌}
use mathlib.Core.Option.{Option, none, some}
use mathlib.Core.List.{List, [], ◌∷◌, ◌++◌}
use native.Mathlib.Omega.{arith}
use roostos.Prelude.Int.{ℤ, pos, leb_ℤ}
use roostos.Prelude.{leb, Bool-cases, if◌then◌else◌}
use roostos.Failover.{
  ClusterSyncAgent, same, differs, differs_raises, slice_raises, fetched, Answers, heartbeat_raises,
  heartbeat, execute_command, execute_commands, apply_config_slice, promote_to_master,
  evaluate_and_trigger_failover, fail, sync_round, sync_loop,
}

-- What the node hears of its controller in a round, true for a heartbeat that is answered and false
-- for an exception: a round can have both.
abbrev pub heard_of : {S : Type 0} → Answers S → List Bool
heard_of heartbeat_raises = false ∷ []
heard_of (heartbeat _ slice_raises) = true ∷ false ∷ []
heard_of (heartbeat _ (fetched _ differs_raises)) = true ∷ false ∷ []
heard_of (heartbeat _ (fetched _ _)) = true ∷ []

unfoldable pub heard : {S : Type 0} → List (Answers S) → List Bool
heard [] = []
heard (r ∷ rs) = heard_of r ++ heard rs

-- Whether a history begins with so many exceptions.
unfoldable pub starts : ℕ → List Bool → Bool
starts zero s = true
starts (suc n) [] = false
starts (suc n) (true ∷ s) = false
starts (suc n) (false ∷ s) = starts n s

-- Whether a history has so many exceptions in a row anywhere.
unfoldable pub has_streak : ℕ → List Bool → Bool
unfolding starts
has_streak t [] = starts t []
has_streak t (x ∷ s) = starts t (x ∷ s) || has_streak t s

-- Whether a counter that starts at `c` gets to `t`.
unfoldable reaches : ℕ → ℕ → List Bool → Bool
reaches t c [] = false
reaches t c (true ∷ s) = reaches t 0 s
reaches t c (false ∷ s) = leb t (c + 1) || reaches t (c + 1) s

starts-has_streak : (t : ℕ) (s : List Bool) → starts t s ≡ true → has_streak t s ≡ true
unfolding has_streak
starts-has_streak t [] h = h
starts-has_streak t (x ∷ s) h = ground arith

starts_mono : (m n : ℕ) (s : List Bool) → m ≤ n → starts n s ≡ true → starts m s ≡ true
unfolding starts
starts_mono zero n s p h = refl
starts_mono (suc m) zero s p h = absurd (omega arith)
starts_mono (suc m) (suc n) [] p h = h
starts_mono (suc m) (suc n) (true ∷ s) p h = h
starts_mono (suc m) (suc n) (false ∷ s) p h = starts_mono m n s (omega arith) h

starts-nil : (t : ℕ) → 1 ≤ t → starts t [] ≡ false
unfolding starts
starts-nil zero p = absurd (omega arith)
starts-nil (suc t) p = refl

starts-heard : (t : ℕ) (s : List Bool) → 1 ≤ t → starts t (true ∷ s) ≡ false
unfolding starts
starts-heard zero s p = absurd (omega arith)
starts-heard (suc t) s p = refl

starts-unheard :
    (t d : ℕ) (s : List Bool) → suc d ≤ t → starts t (false ∷ s) ≡ true → starts d s ≡ true
unfolding starts
starts-unheard zero d s p h = absurd (omega arith)
starts-unheard (suc t) d s p h = starts_mono d t s (omega arith) h

-- Two tests, where the one that is left out implies the other.
absorb : (a b c : Bool) → (b ≡ true → a ≡ true) → (a || c) ≡ (a || (b || c))
absorb true b c f = refl
absorb false true c f = absurd (ground (arith, f refl))
absorb false false c f = refl

reaches-starts :
    (t c d : ℕ) (s : List Bool)
    → t ≡ c + suc d
    → reaches t c s ≡ (starts (suc d) s || has_streak t s)
unfolding reaches has_streak starts
reaches-starts t c d [] e = sym (starts-nil t (omega arith))
reaches-starts t c d (true ∷ s) e =
    let whole : t ≡ suc (t - 1) = omega arith in
    let later : reaches t 0 s ≡ (starts (suc (t - 1)) s || has_streak t s) =
      reaches-starts t 0 (t - 1) s (omega arith) in
    let same_start : starts (suc (t - 1)) s ≡ starts t s = ap (λ n. starts n s) (sym whole) in
    later ∙ ground (arith, same_start, starts-has_streak t s, starts-heard t s (omega arith))
reaches-starts t c zero (false ∷ s) e = ground arith
reaches-starts t c (suc d) (false ∷ s) e =
    let later : reaches t (c + 1) s ≡ (starts (suc d) s || has_streak t s) =
      reaches-starts t (c + 1) d s (omega arith) in
    let below : leb t (c + 1) ≡ false = ground arith in
    ap₂ ◌||◌ below later
    ∙ absorb (starts (suc d) s) (starts t (false ∷ s)) (has_streak t s)
        (starts-unheard t (suc d) s (omega arith))

module _ {S : Type 0} where
  -- Whether the node may take the place of its controller.
  abbrev pub eligible : ClusterSyncAgent S → Bool
  eligible a = a.auto_failover && not (leb_ℤ a.failover_priority (pos 0))

  -- What of an agent stays the same until it promotes itself.
  record Settled (p : ℤ) (auto : Bool) (t : ℕ) (a : ClusterSyncAgent S) : Type 0 where
    priority : a.failover_priority ≡ p
    automatic : a.auto_failover ≡ auto
    threshold : a.failover_threshold ≡ t
    subordinate : a.is_promoted_master ≡ false
    going : a.running ≡ true

  execute_command-Settled :
      (cmd : String) (p : ℤ) (auto : Bool) (t : ℕ) (a : ClusterSyncAgent S)
      → Settled p auto t a
      → Settled p auto t (execute_command cmd a)
  unfolding execute_command
  execute_command-Settled cmd p auto t a v =
      elim (Bool-cases (cmd == "install_updates" || cmd == "install_security_updates")) [
        | inl e ↦ rw e (record {
          priority = v.priority;
          automatic = v.automatic;
          threshold = v.threshold;
          subordinate = v.subordinate;
          going = v.going;
        })
        | inr e ↦ rw e v
      ]

  execute_command-failures :
      (cmd : String) (a : ClusterSyncAgent S)
      → (execute_command cmd a).consecutive_heartbeat_failures ≡ a.consecutive_heartbeat_failures
  unfolding execute_command
  execute_command-failures cmd a =
      elim (Bool-cases (cmd == "install_updates" || cmd == "install_security_updates")) [
        | inl e ↦ rw e refl
        | inr e ↦ rw e refl
      ]

  -- The agent is settled, and has counted so many failures.
  record Counts (p : ℤ) (auto : Bool) (t c : ℕ) (a : ClusterSyncAgent S) : Type 0 where
    settled : Settled p auto t a
    counted : a.consecutive_heartbeat_failures ≡ c

  execute_commands-Counts :
      (cmds : List String) (p : ℤ) (auto : Bool) (t c : ℕ) (a : ClusterSyncAgent S)
      → Counts p auto t c a
      → Counts p auto t c (execute_commands cmds a)
  unfolding execute_commands
  execute_commands-Counts [] p auto t c a v = v
  execute_commands-Counts (cmd ∷ cmds) p auto t c a v =
      execute_commands-Counts cmds p auto t c _ (record {
        settled = execute_command-Settled cmd p auto t a v.settled;
        counted = execute_command-failures cmd a ∙ v.counted;
      })

  answered-Counts :
      (cmds : List String) (p : ℤ) (auto : Bool) (t c : ℕ) (a : ClusterSyncAgent S)
      → Counts p auto t c a
      → Counts p auto t 0 (execute_commands cmds (record a { consecutive_heartbeat_failures = 0 }))
  answered-Counts cmds p auto t c a v = execute_commands-Counts cmds p auto t 0 _ (record {
    settled = record {
      priority = v.settled.priority;
      automatic = v.settled.automatic;
      threshold = v.settled.threshold;
      subordinate = v.settled.subordinate;
      going = v.settled.going;
    };
    counted = refl;
  })

  slice-Counts :
      (slice : Option S) (p : ℤ) (auto : Bool) (t c : ℕ) (a : ClusterSyncAgent S)
      → Counts p auto t c a
      → Counts p auto t c (apply_config_slice slice a)
  slice-Counts none p auto t c a v = v
  slice-Counts (some s) p auto t c a v = record {
    settled = record {
      priority = v.settled.priority;
      automatic = v.settled.automatic;
      threshold = v.settled.threshold;
      subordinate = v.settled.subordinate;
      going = v.settled.going;
    };
    counted = v.counted;
  }

  sync-Counts :
      (p : ℤ) (auto : Bool) (t c : ℕ) (a : ClusterSyncAgent S)
      → Counts p auto t c a
      → Counts p auto t c (record a { syncs = a.syncs + 1 })
  sync-Counts p auto t c a v = record {
    settled = record {
      priority = v.settled.priority;
      automatic = v.settled.automatic;
      threshold = v.settled.threshold;
      subordinate = v.settled.subordinate;
      going = v.settled.going;
    };
    counted = v.counted;
  }

  stopped-stays :
      (rs : List (Answers S)) (a : ClusterSyncAgent S) → a.running ≡ false → sync_loop rs a ≡ a
  unfolding sync_loop
  stopped-stays [] a h = refl
  stopped-stays (r ∷ rs) a h = simp (h) refl

  fail-promotes :
      (p : ℤ) (auto : Bool) (t c : ℕ) (a : ClusterSyncAgent S)
      → Counts p auto t c a
      → (auto && leb t (c + 1)) ≡ true
      → leb_ℤ p (pos 0) ≡ false
      → ((fail a).is_promoted_master ≡ true) × ((fail a).running ≡ false)
  unfolding fail evaluate_and_trigger_failover promote_to_master
  fail-promotes p auto t c a v h k =
      simp
        (
          v.settled.automatic, v.settled.threshold, v.counted, v.settled.subordinate,
          v.settled.priority, h, k,
        )
        (refl, refl)

  -- the count that the `except` branch begins with
  abbrev missed : ClusterSyncAgent S → ClusterSyncAgent S
  missed a = record a { consecutive_heartbeat_failures = a.consecutive_heartbeat_failures + 1 }

  fail-stays :
      (p : ℤ) (auto : Bool) (t c : ℕ) (a : ClusterSyncAgent S)
      → Counts p auto t c a
      → ((auto && leb t (c + 1)) && not (leb_ℤ p (pos 0))) ≡ false
      → fail a ≡ missed a
  unfolding fail evaluate_and_trigger_failover promote_to_master
  fail-stays p auto t c a v h = elim (Bool-cases (auto && leb t (c + 1))) [
    | inl e ↦
        let none : leb_ℤ p (pos 0) ≡ true = ground (arith, e) in
        simp
          (
            v.settled.automatic, v.settled.threshold, v.counted, v.settled.priority, e, none,
            v.settled.subordinate,
          )
          refl
    | inr e ↦ simp (v.settled.automatic, v.settled.threshold, v.counted, e) refl
  ]

  missed-Counts :
      (p : ℤ) (auto : Bool) (t c : ℕ) (a : ClusterSyncAgent S)
      → Counts p auto t c a
      → Counts p auto t (c + 1) (missed a)
  missed-Counts p auto t c a v = record {
    settled = record {
      priority = v.settled.priority;
      automatic = v.settled.automatic;
      threshold = v.settled.threshold;
      subordinate = v.settled.subordinate;
      going = v.settled.going;
    };
    counted = ap (λ n. n + 1) v.counted;
  }

  -- What a claim about the rest of the rounds gives of the rounds from a failure on.
  after_fail :
      (rs : List (Answers S)) (p : ℤ) (auto : Bool) (t c : ℕ) (a : ClusterSyncAgent S)
      → ((b : ClusterSyncAgent S)
          → Counts p auto t (c + 1) b
          → (sync_loop rs b).is_promoted_master
            ≡ ((auto && not (leb_ℤ p (pos 0))) && reaches t (c + 1) (heard rs)))
      → Counts p auto t c a
      → (sync_loop rs (fail a)).is_promoted_master
        ≡ ((auto && not (leb_ℤ p (pos 0))) && reaches t c (false ∷ heard rs))
  unfolding reaches
  after_fail rs p auto t c a later v =
      elim (Bool-cases ((auto && leb t (c + 1)) && not (leb_ℤ p (pos 0)))) [
        | inl e ↦
            let (up, still) =
              fail-promotes p auto t c a v (ground (arith, e)) (ground (arith, e)) in
            ap (λ (b : ClusterSyncAgent S). b.is_promoted_master) (stopped-stays rs (fail a) still)
            ∙ up
            ∙ ground (arith, e)
        | inr e ↦
            ap (λ b. (sync_loop rs b).is_promoted_master) (fail-stays p auto t c a v e)
            ∙ later (missed a) (missed-Counts p auto t c a v)
            ∙ ground (arith, e)
      ]

  round-promotes :
      (r : Answers S) (rs : List (Answers S)) (p : ℤ) (auto : Bool) (t c : ℕ)
      (a : ClusterSyncAgent S)
      → ((d : ℕ) (b : ClusterSyncAgent S)
          → Counts p auto t d b
          → (sync_loop rs b).is_promoted_master
            ≡ ((auto && not (leb_ℤ p (pos 0))) && reaches t d (heard rs)))
      → Counts p auto t c a
      → (sync_loop rs (sync_round r a)).is_promoted_master
        ≡ ((auto && not (leb_ℤ p (pos 0))) && reaches t c (heard_of r ++ heard rs))
  unfolding sync_round reaches
  round-promotes heartbeat_raises rs p auto t c a later v =
      after_fail rs p auto t c a (later (c + 1)) v
  round-promotes (heartbeat cmds slice_raises) rs p auto t c a later v =
      after_fail rs p auto t 0 _ (later 1) (answered-Counts cmds p auto t c a v)
  round-promotes (heartbeat cmds (fetched slice same)) rs p auto t c a later v =
      later 0 _ (slice-Counts slice p auto t 0 _ (answered-Counts cmds p auto t c a v))
  round-promotes (heartbeat cmds (fetched slice differs)) rs p auto t c a later v = later 0 _ (
      sync-Counts p auto t 0 _
        (slice-Counts slice p auto t 0 _ (answered-Counts cmds p auto t c a v)))
  round-promotes (heartbeat cmds (fetched slice differs_raises)) rs p auto t c a later v =
      after_fail rs p auto t 0 _ (later 1) (
        sync-Counts p auto t 0 _
          (slice-Counts slice p auto t 0 _ (answered-Counts cmds p auto t c a v)))

  promotes :
      (rs : List (Answers S)) (p : ℤ) (auto : Bool) (t c : ℕ) (a : ClusterSyncAgent S)
      → Counts p auto t c a
      → (sync_loop rs a).is_promoted_master
        ≡ ((auto && not (leb_ℤ p (pos 0))) && reaches t c (heard rs))
  unfolding sync_loop heard reaches
  promotes [] p auto t c a v = v.settled.subordinate ∙ ground arith
  promotes (r ∷ rs) p auto t c a v =
      ap (λ b. (if b then sync_loop rs (sync_round r a) else a).is_promoted_master) v.settled.going
      ∙ round-promotes r rs p auto t c a (λ d b w. promotes rs p auto t d b w) v

  -- A running node that is no master yet and has counted no failure makes itself the master in the
  -- rounds that follow exactly if failover is automatic, its priority is above 0 and the failures in a
  -- row reach the threshold, which is 1 or more.
  pub sync_loop-promotes :
      (rs : List (Answers S)) (a : ClusterSyncAgent S)
      → a.is_promoted_master ≡ false
      → a.running ≡ true
      → a.consecutive_heartbeat_failures ≡ 0
      → 1 ≤ a.failover_threshold
      → (sync_loop rs a).is_promoted_master
        ≡ (eligible a && has_streak a.failover_threshold (heard rs))
  sync_loop-promotes rs a sub go zeroed above =
      let t = a.failover_threshold in
      let s = heard rs in
      let whole : suc (t - 1) ≡ t = omega arith in
      let one : starts (suc (t - 1)) s ≡ starts t s = ap (λ n. starts n s) whole in
      promotes rs a.failover_priority a.auto_failover t 0 a (record {
        settled = record {
          priority = refl;
          automatic = refl;
          threshold = refl;
          subordinate = sub;
          going = go;
        };
        counted = zeroed;
      })
      ∙ ground (arith, reaches-starts t 0 (t - 1) s (omega arith), one, starts-has_streak t s)

  -- A node that has made itself the master has left the loop: no later answer changes it.
  pub sync_loop-stops :
      (rs later : List (Answers S)) (a : ClusterSyncAgent S)
      → (sync_loop rs a).running ≡ false
      → sync_loop later (sync_loop rs a) ≡ sync_loop rs a
  sync_loop-stops rs later a h = stopped-stays later (sync_loop rs a) h

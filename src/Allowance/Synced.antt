-- ===== src/Allowance/Synced.antt =====
-- A check of the tracker keeps the firewall's set of blocked devices in step.
use Prim.Native.Nat.{ℕ}
use Prim.Native.String.{String}
use text.Mathlib.TextEquality.{eq_iff}
use mathlib.Core.Path.{◌≡◌, refl, ap, ◌∙◌, sym}
use mathlib.Core.Bool.{true}
use mathlib.Core.Logic.{inl, inr}
use mathlib.Core.Option.{Option, none, some}
use mathlib.Core.List.{List, [], ◌∷◌}
use native.Mathlib.Omega.{arith}
use roostos.Prelude.{eqb, any_elim, has, Bool-cases}
use roostos.Prelude.Result.{Result, ok, err}
use roostos.Prelude.Text.{lower}
use roostos.Mac.{normalize_mac}
use roostos.Mac.Canonical.{lower-normalize_mac}
use roostos.Models.{DeviceConfig, ScheduleTarget, ScheduleConfig, RoostConfig, truthy}
use roostos.Schedule.{Datetime, day_of}
use roostos.Schedule.Targets.{gave, names, names_by, schedule_names}
use roostos.Allowance.{
  Tracker, Inputs, run_bypasses, check_allowances, enforce_result, reset_usage, limited,
  charge_schedules, seconds, run_scheduler_check,
}
use roostos.Allowance.Usage.{over_limit, charge_schedules_lem}
use roostos.Allowance.Blocking.{scheduled, has-first_check}
use roostos.Allowance.Kernel.{
  Kernel, AllLower, AreIp, IsSynced, enforce-IsSynced, setup_policy_routing-IsSynced,
}

gave-ok : (r : Result String) (m : String) → gave r m ≡ true → r ≡ ok m
gave-ok (ok n) m h = ap ok ((eq_iff n m).0 h)
gave-ok (err x) m h = cc

lower-gave : (v m : String) → gave (normalize_mac v) m ≡ true → lower m ≡ m
lower-gave v m h = lower-normalize_mac v m (gave-ok (normalize_mac v) m h)

lower-names_by :
    (mac : Option String) (target : ScheduleTarget) (devices : List DeviceConfig) (m : String)
    → names_by mac target devices m ≡ true
    → lower m ≡ m
lower-names_by (some v) target devices m h = lower-gave v m h
lower-names_by none target devices m h =
    any_elim _ devices (λ dev e. lower-gave dev.mac m (ground arith)) h

-- A device that a schedule names has an address in small letters.
lower-schedule_names :
    (config : RoostConfig) (sched : ScheduleConfig) (m : String)
    → schedule_names config sched m ≡ true
    → lower m ≡ m
unfolding schedule_names names
lower-schedule_names config sched m h =
    any_elim _ sched.targets
      (λ target e. lower-names_by (truthy target.mac) target config.devices m e) h

lower-scheduled :
    (config : RoostConfig) (now : Datetime) (m : String) (scheds : List ScheduleConfig)
    → scheduled config now m scheds ≡ true
    → lower m ≡ m
lower-scheduled config now m scheds h =
    any_elim _ scheds (λ sched e. lower-schedule_names config sched m (ground arith)) h

lower-over_limit :
    (config : RoostConfig) (active : List String) (m : String) (scheds : List ScheduleConfig)
    (n : ℕ)
    → over_limit config active m scheds n ≡ true
    → lower m ≡ m
lower-over_limit config active m [] n h = cc
lower-over_limit config active m (sched ∷ scheds) n h =
    elim (Bool-cases (schedule_names config sched m)) [
      | inl e ↦ lower-schedule_names config sched m e
      | inr e ↦ lower-over_limit config active m scheds _ (rw e at h)
    ]

lower-charged :
    (i : Inputs) (t : Tracker) (blocked r : List String) (m : String)
    → AllLower blocked
    → (charge_schedules i.config i.active_macs
        (limited i.config.schedules)
        (t.allowance_usage, blocked)).1
      ≡ ok r
    → has m r ≡ true
    → lower m ≡ m
lower-charged i t blocked r m a e h =
    let scheds = limited i.config.schedules in
    let found =
      (charge_schedules_lem i.config i.active_macs m scheds t.allowance_usage blocked r e).1 in
    elim (Bool-cases (has m blocked)) [
      | inl k ↦ a.small m k
      | inr k ↦
          lower-over_limit i.config i.active_macs m scheds (seconds m t.allowance_usage)
            (ground (arith, found))
    ]

module _ (K : Kernel) (start : K.State) where
  enforce_result-IsSynced :
      (result : Result (List String)) (bypasses : List String) (s : Tracker)
      → ((r : List String) → result ≡ ok r → AllLower r)
      → IsSynced K start s
      → IsSynced K start (enforce_result result bypasses s).1
  enforce_result-IsSynced (ok r) bypasses s a v = enforce-IsSynced K start r bypasses s (a r refl) v
  enforce_result-IsSynced (err x) bypasses s a v = v

  reset_usage-IsSynced :
      (today : ℕ) (s : Tracker) → IsSynced K start s → IsSynced K start (reset_usage today s)
  unfolding reset_usage
  reset_usage-IsSynced today s v = elim (Bool-cases (eqb s.last_allowance_date today)) [
    | inl e ↦ rw e v
    | inr e ↦ rw e (record { lowered = v.lowered; same = v.same })
  ]

  check_allowances-IsSynced :
      (i : Inputs) (bypasses : List String) (result : Result (List String)) (s : Tracker)
      → ((r : List String) → result ≡ ok r → AllLower r)
      → IsSynced K start s
      → IsSynced K start (check_allowances i bypasses result s).1
  check_allowances-IsSynced i bypasses (err e) s a v = v
  check_allowances-IsSynced i bypasses (ok blocked) s a v =
      let t = reset_usage (day_of i.now) s in
      let w = reset_usage-IsSynced (day_of i.now) s v in
      let scheds = limited i.config.schedules in
      enforce_result-IsSynced _ bypasses _
        (λ r e. record { small = λ m h. lower-charged i t blocked r m (a blocked refl) e h })
        (record { lowered = w.lowered; same = w.same })

  -- On a kernel where every command succeeds, the firewall that has run the tracker's commands blocks
  -- exactly the devices that the tracker lists, also after a check that fails, provided it did before
  -- and the commands for the routing tables are commands of `ip`.
  pub run_scheduler_check-IsSynced :
      (i : Inputs) (s : Tracker)
      → AreIp i.routing
      → IsSynced K start s
      → IsSynced K start (run_scheduler_check i s).1
  unfolding run_scheduler_check run_bypasses
  run_scheduler_check-IsSynced i s a v =
      let t = setup_policy_routing-IsSynced K start i.routing s a v in
      check_allowances-IsSynced i _ _ _
        (λ r e. record {
          small = λ m h.
              lower-scheduled i.config i.now m i.config.schedules
                (sym (has-first_check m i r e) ∙ h);
        })
        (record { lowered = t.lowered; same = t.same })

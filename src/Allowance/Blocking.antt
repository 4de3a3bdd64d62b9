-- ===== src/Allowance/Blocking.antt =====
-- Which devices are blocked after a check of the tracker.
use Prim.Native.Nat.{ℕ}
use Prim.Native.String.{String}
use text.Mathlib.Text.{◌==◌}
use mathlib.Core.Path.{◌≡◌, refl, ap, ap₂, ◌∙◌}
use mathlib.Core.Logic.{inl, inr}
use mathlib.Core.Bool.{Bool, not, ◌&&◌, ◌||◌}
use mathlib.Core.List.{List, [], ◌∷◌, map}
use native.Mathlib.Omega.{arith}
use roostos.Prelude.{
  ltb, eqb, any, keep, has, minus, update, has-add, has-discard, has-minus, has-update,
  if◌then◌else◌, Bool-cases,
}
use roostos.Prelude.Dict.{Dict}
use roostos.Prelude.Result.{Result, ok, err, >>=-eq-ok}
use roostos.Models.{ScheduleConfig, RoostConfig}
use roostos.Schedule.{Datetime, day_of, is_schedule_active, resolve_schedule_targets}
use roostos.Schedule.Targets.{schedule_names, has-resolve_schedule_targets}
use roostos.Allowance.{
  block_mac, unblock_mac, enforce_result, check_allowances, Bypass, Tracker, Inputs,
  execute_system_cmd, setup_policy_routing, valid_bypasses, bypassed, check_schedule,
  check_schedules, seconds, limited, block_all, unblock_all, enforce, reset_usage, run_bypasses,
  run_scheduler_check,
}
use roostos.Allowance.Usage.{over_limit, charge_schedules_lem}

-- Whether an active schedule names a device.
abbrev pub scheduled : RoostConfig → Datetime → String → List ScheduleConfig → Bool
scheduled config now m scheds =
    any (λ sched. is_schedule_active sched now && schedule_names config sched m) scheds

-- Whether a device has a bypass that has not expired.
abbrev pub has_bypass : Datetime → String → List Bypass → Bool
has_bypass now m bypasses = any (λ b. ltb now b.expiry && b.mac == m) bypasses

pub enforce_result_ok :
    (result : Result (List String)) (bypasses : List String) (s : Tracker)
    → (enforce_result result bypasses s).0 ≡ ok tt
    → (r : List String) × (result ≡ ok r)
enforce_result_ok (ok r) bypasses s h = (r, refl)
enforce_result_ok (err e) bypasses s h = cc

module _ (m : String) where
  has-check_schedule :
      (config : RoostConfig) (now : Datetime) (sched : ScheduleConfig) (blocked r : List String)
      → check_schedule config now sched blocked ≡ ok r
      → has m r ≡ (has m blocked || (is_schedule_active sched now && schedule_names config sched m))
  unfolding check_schedule
  has-check_schedule config now sched blocked r h =
      elim (Bool-cases (is_schedule_active sched now)) [
        | inl e ↦
            let (targets, f, g) =
              >>=-eq-ok (resolve_schedule_targets sched config)
                (λ targets. ok (update blocked targets)) (rw e at h) in
            ground
              (arith, has-update m blocked targets, has-resolve_schedule_targets sched config m f)
        | inr e ↦ ground arith
      ]

  has-check_schedules :
      (config : RoostConfig) (now : Datetime) (scheds : List ScheduleConfig)
      (blocked r : List String)
      → check_schedules config now scheds blocked ≡ ok r
      → has m r ≡ (has m blocked || scheduled config now m scheds)
  unfolding check_schedules any
  has-check_schedules config now [] blocked r h = ground arith
  has-check_schedules config now (sched ∷ scheds) blocked r h =
      let (b, e, f) =
        >>=-eq-ok (check_schedule config now sched blocked) (check_schedules config now scheds) h in
      ground (
        arith,
        has-check_schedule config now sched blocked b e,
        has-check_schedules config now scheds b r f,
      )

  has-valid :
      (now : Datetime) (bypasses : List Bypass)
      → has m (map (λ b. b.mac) (valid_bypasses now bypasses)) ≡ has_bypass now m bypasses
  unfolding valid_bypasses keep has any
  has-valid now [] = refl
  has-valid now (b ∷ bypasses) = ground (arith, has-valid now bypasses)

  has-bypassed :
      (now : Datetime) (bypasses : List Bypass)
      → has m (bypassed (valid_bypasses now bypasses)) ≡ has_bypass now m bypasses
  unfolding bypassed has
  has-bypassed now bypasses =
      has-update m [] (map (λ b. b.mac) (valid_bypasses now bypasses)) ∙ has-valid now bypasses

  has-block_mac :
      (mac : String) (s : Tracker)
      → has m (block_mac mac s).currently_blocked ≡ (mac == m || has m s.currently_blocked)
  unfolding block_mac
  has-block_mac mac s = has-add mac m s.currently_blocked

  has-unblock_mac :
      (mac : String) (s : Tracker)
      → has m (unblock_mac mac s).currently_blocked ≡ (has m s.currently_blocked && not (mac == m))
  unfolding unblock_mac
  has-unblock_mac mac s = has-discard mac m s.currently_blocked

  has-block_all :
      (macs : List String) (s : Tracker)
      → has m (block_all macs s).currently_blocked ≡ (has m s.currently_blocked || has m macs)
  unfolding block_all has
  has-block_all [] s = ground arith
  has-block_all (mac ∷ macs) s =
      ground (arith, has-block_all macs (block_mac mac s), has-block_mac mac s)

  has-unblock_all :
      (macs : List String) (s : Tracker)
      → has m (unblock_all macs s).currently_blocked
        ≡ (has m s.currently_blocked && not (has m macs))
  unfolding unblock_all has
  has-unblock_all [] s = ground arith
  has-unblock_all (mac ∷ macs) s =
      ground (arith, has-unblock_all macs (unblock_mac mac s), has-unblock_mac mac s)

  -- After the two loops exactly the devices of `final_blocked` are blocked.
  has-enforce :
      (blocked bypasses : List String) (s : Tracker)
      → has m (enforce blocked bypasses s).currently_blocked
        ≡ (has m blocked && not (has m bypasses))
  unfolding enforce
  has-enforce blocked bypasses s =
      let final = minus blocked bypasses in
      let to_block = minus final s.currently_blocked in
      let to_unblock = minus s.currently_blocked final in
      ground (
        arith,
        has-unblock_all to_unblock (block_all to_block s),
        has-block_all to_block s,
        has-minus m final s.currently_blocked,
        has-minus m s.currently_blocked final,
        has-minus m blocked bypasses,
      )

  has-enforce_result :
      (result : Result (List String)) (bypasses : List String) (s : Tracker) (r : List String)
      → result ≡ ok r
      → has m (enforce_result result bypasses s).1.currently_blocked
        ≡ (has m r && not (has m bypasses))
  has-enforce_result result bypasses s r e = rw e (has-enforce r bypasses s)

  has-check_allowances :
      (i : Inputs) (bypasses blocked : List String) (s : Tracker)
      → (check_allowances i bypasses (ok blocked) s).0 ≡ ok tt
      → has m (check_allowances i bypasses (ok blocked) s).1.currently_blocked ≡ (
          (has m blocked
            || over_limit i.config i.active_macs m
                (limited i.config.schedules)
                (seconds m (reset_usage (day_of i.now) s).allowance_usage))
          && not (has m bypasses))
  has-check_allowances i bypasses blocked s h =
      let usage = (reset_usage (day_of i.now) s).allowance_usage in
      let scheds = limited i.config.schedules in
      let (r, e) = enforce_result_ok _ bypasses _ h in
      has-enforce_result _ bypasses _ r e
      ∙ ap (λ b. b && not (has m bypasses))
          (charge_schedules_lem i.config i.active_macs m scheds usage blocked r e).1

-- The state of the counters when the charges begin.
abbrev pub usage_today : Inputs → Tracker → Dict ℕ
usage_today i s = if eqb s.last_allowance_date (day_of i.now) then s.allowance_usage else []

setup_policy_routing_fields :
    (cmds : List (List String)) (s : Tracker)
    → ((setup_policy_routing cmds s).temporary_bypasses ≡ s.temporary_bypasses)
      × ((setup_policy_routing cmds s).allowance_usage ≡ s.allowance_usage)
      × ((setup_policy_routing cmds s).last_allowance_date ≡ s.last_allowance_date)
      × ((setup_policy_routing cmds s).currently_blocked ≡ s.currently_blocked)
unfolding setup_policy_routing
setup_policy_routing_fields [] s = (refl, refl, refl, refl)
setup_policy_routing_fields (cmd ∷ cmds) s =
    setup_policy_routing_fields cmds (unfold execute_system_cmd in execute_system_cmd cmd s)

pub check_allowances_ok :
    (i : Inputs) (bypasses : List String) (result : Result (List String)) (s : Tracker)
    → (check_allowances i bypasses result s).0 ≡ ok tt
    → (r : List String) × (result ≡ ok r)
check_allowances_ok i bypasses (ok r) s h = (r, refl)
check_allowances_ok i bypasses (err e) s h = cc

pub usage_at_check :
    (i : Inputs) (s : Tracker)
    → (reset_usage
        (day_of i.now)
        (run_bypasses i.now (setup_policy_routing i.routing s))).allowance_usage
      ≡ usage_today i s
unfolding reset_usage run_bypasses
usage_at_check i s = ground (
  arith,
  (setup_policy_routing_fields i.routing s).1,
  (setup_policy_routing_fields i.routing s).2,
)

bypassed_at_check :
    (i : Inputs) (s : Tracker) (m : String)
    → has m (bypassed (run_bypasses i.now (setup_policy_routing i.routing s)).temporary_bypasses)
      ≡ has_bypass i.now m s.temporary_bypasses
unfolding run_bypasses
bypassed_at_check i s m =
    rw ((setup_policy_routing_fields i.routing s).0) (has-bypassed m i.now s.temporary_bypasses)

pub has-first_check :
    (m : String) (i : Inputs) (blocked : List String)
    → check_schedules i.config i.now i.config.schedules [] ≡ ok blocked
    → has m blocked ≡ scheduled i.config i.now m i.config.schedules
unfolding has
has-first_check m i blocked e = has-check_schedules m i.config i.now i.config.schedules [] blocked e

-- After a check that succeeds a device is blocked exactly if an active schedule names it or its
-- minutes have reached a daily limit, and it has no bypass that is still valid.
pub run_scheduler_check-blocked :
    (i : Inputs) (s : Tracker) (m : String)
    → (run_scheduler_check i s).0 ≡ ok tt
    → has m (run_scheduler_check i s).1.currently_blocked ≡ (
        (scheduled i.config i.now m i.config.schedules
          || over_limit i.config i.active_macs m
              (limited i.config.schedules)
              (seconds m (usage_today i s)))
        && not (has_bypass i.now m s.temporary_bypasses))
unfolding run_scheduler_check
run_scheduler_check-blocked i s m h =
    let t = run_bypasses i.now (setup_policy_routing i.routing s) in
    let bypasses = bypassed t.temporary_bypasses in
    let (blocked, e) =
      check_allowances_ok i bypasses (check_schedules i.config i.now i.config.schedules []) t h in
    rw e (
      has-check_allowances m i bypasses blocked t (rw e at h)
      ∙ ap₂
          (λ b u.
            (b || over_limit i.config i.active_macs m (limited i.config.schedules) (seconds m u))
            && not (has m bypasses))
          (has-first_check m i blocked e) (usage_at_check i s)
      ∙ ap
          (λ b.
            (scheduled i.config i.now m i.config.schedules
              || over_limit i.config i.active_macs m (limited i.config.schedules)
                  (seconds m (usage_today i s)))
            && not b)
          (bypassed_at_check i s m))

-- ===== src/Allowance/Extensions.antt =====
-- What a check charges, and what a time extension does at once.
use Prim.Native.Nat.{ℕ, ◌+◌, ◌*◌, ◌<◌}
use Prim.Native.String.{String}
use text.Mathlib.TextEquality.{eq_iff}
use mathlib.Core.Path.{◌≡◌, refl, ap, ◌∙◌}
use mathlib.Core.Bool.{true, false}
use mathlib.Core.List.{List, [], ◌∷◌, ◌++◌}
use native.Mathlib.Omega.{arith}
use roostos.Prelude.{ltb, lt→ltb, any, has, if◌then◌else◌}
use roostos.Prelude.Result.{Result, ok, err}
use roostos.Mac.{normalize_mac}
use roostos.Models.{ScheduleConfig, RoostConfig}
use roostos.Schedule.{Datetime, day_of}
use roostos.Schedule.Targets.{schedule_names}
use roostos.Allowance.{
  Bypass, Tracker, Inputs, block_mac, unblock_mac, block_all, unblock_all, enforce, seconds,
  limited, enforce_result, check_allowances, check_schedules, bypassed, run_bypasses,
  setup_policy_routing, run_scheduler_check, grant_time_extension, reset_usage, others, grant,
  succeeded,
}
use roostos.Allowance.Usage.{fee, spent, charge_schedules_lem}
use roostos.Allowance.Blocking.{
  usage_today, enforce_result_ok, check_allowances_ok, usage_at_check, run_scheduler_check-blocked,
  has_bypass,
}

-- How many of the schedules name a device.
unfoldable pub naming : RoostConfig → String → List ScheduleConfig → ℕ
naming config m [] = 0
naming config m (sched ∷ scheds) =
    (if schedule_names config sched m then 1 else 0) + naming config m scheds

spent-naming :
    (config : RoostConfig) (active : List String) (m : String) (scheds : List ScheduleConfig)
    (n : ℕ)
    → spent config active m scheds n ≡ n + (if has m active then 60 * naming config m scheds else 0)
unfolding naming
spent-naming config active m [] n = ground arith
spent-naming config active m (sched ∷ scheds) n =
    ground (
      arith,
      spent-naming config active m scheds (n + fee active m (schedule_names config sched m)),
    )

block_all_usage :
    (macs : List String) (s : Tracker) → (block_all macs s).allowance_usage ≡ s.allowance_usage
unfolding block_all
block_all_usage [] s = refl
block_all_usage (mac ∷ macs) s = block_all_usage macs (block_mac mac s) ∙ (unfold block_mac in refl)

unblock_all_usage :
    (macs : List String) (s : Tracker) → (unblock_all macs s).allowance_usage ≡ s.allowance_usage
unfolding unblock_all
unblock_all_usage [] s = refl
unblock_all_usage (mac ∷ macs) s =
    unblock_all_usage macs (unblock_mac mac s) ∙ (unfold unblock_mac in refl)

enforce_usage :
    (result : Result (List String)) (bypasses : List String) (s : Tracker)
    → (enforce_result result bypasses s).1.allowance_usage ≡ s.allowance_usage
unfolding enforce
enforce_usage (ok blocked) bypasses s = unblock_all_usage _ _ ∙ block_all_usage _ s
enforce_usage (err e) bypasses s = refl

check_usage :
    (i : Inputs) (bypasses blocked : List String) (s : Tracker) (m : String)
    → (check_allowances i bypasses (ok blocked) s).0 ≡ ok tt
    → seconds m (check_allowances i bypasses (ok blocked) s).1.allowance_usage
      ≡ spent i.config i.active_macs m
          (limited i.config.schedules)
          (seconds m (reset_usage (day_of i.now) s).allowance_usage)
check_usage i bypasses blocked s m h =
    let usage = (reset_usage (day_of i.now) s).allowance_usage in
    let scheds = limited i.config.schedules in
    let (r, e) = enforce_result_ok _ bypasses _ h in
    ap (seconds m) (enforce_usage _ bypasses _)
    ∙ (charge_schedules_lem i.config i.active_macs m scheds usage blocked r e).0

-- A check that succeeds charges a device with a lease 60 seconds for every schedule with a daily
-- limit that names it, on top of what it has used today, and charges no other device. The lease is
-- enough: whether the device has sent or received anything is not asked.
pub run_scheduler_check-usage :
    (i : Inputs) (s : Tracker) (m : String)
    → (run_scheduler_check i s).0 ≡ ok tt
    → seconds m (run_scheduler_check i s).1.allowance_usage
      ≡ seconds m (usage_today i s)
        + (if has m i.active_macs then 60 * naming i.config m (limited i.config.schedules) else 0)
unfolding run_scheduler_check
run_scheduler_check-usage i s m h =
    let t = run_bypasses i.now (setup_policy_routing i.routing s) in
    let bypasses = bypassed t.temporary_bypasses in
    let (blocked, e) =
      check_allowances_ok i bypasses (check_schedules i.config i.now i.config.schedules []) t h in
    rw e (
      check_usage i bypasses blocked t m (rw e at h)
      ∙ ap (λ u. spent i.config i.active_macs m (limited i.config.schedules) (seconds m u))
          (usage_at_check i s)
      ∙ spent-naming i.config i.active_macs m (limited i.config.schedules)
          (seconds m (usage_today i s)))

has_bypass-append :
    (now : Datetime) (m : String) (bs : List Bypass) (b : Bypass)
    → ltb now b.expiry ≡ true
    → b.mac ≡ m
    → has_bypass now m (bs ++ b ∷ []) ≡ true
unfolding any
has_bypass-append now m [] b h e = ground (arith, eq_iff b.mac m)
has_bypass-append now m (c ∷ bs) b h e = ground (arith, has_bypass-append now m bs b h e)

succeeded_ok :
    (r : Result (Unit {0}) × Tracker)
    → (succeeded r).0 ≡ true
    → (r.0 ≡ ok tt) × ((succeeded r).1 ≡ r.1)
succeeded_ok (ok tt, s) h = (refl, refl)
succeeded_ok (err e, s) h = cc

grant_unblocks :
    (i : Inputs) (granted_at : Datetime) (m : String) (duration : ℕ) (s : Tracker)
    → i.now < granted_at + duration * 1000000
    → (grant i granted_at (ok m) duration s).0 ≡ true
    → has m (grant i granted_at (ok m) duration s).1.currently_blocked ≡ false
grant_unblocks i granted_at m duration s later h =
    let granted : Bypass = record { mac = m; expiry = granted_at + duration * 1000000 } in
    let g : Tracker = record s {
      temporary_bypasses = others m s.temporary_bypasses ++ granted ∷ [];
    } in
    let (done, same) = succeeded_ok (run_scheduler_check i g) h in
    ap (λ (t : Tracker). has m t.currently_blocked) same
    ∙ run_scheduler_check-blocked i g m done
    ∙ ground (
      arith,
      has_bypass-append i.now m (others m s.temporary_bypasses) granted (lt→ltb _ _ later) refl,
    )

-- An extension that is granted, and is still running at the check that it makes, leaves its device
-- unblocked, whatever schedules and limits say.
pub grant_time_extension-unblocks :
    (i : Inputs) (granted_at : Datetime) (mac m : String) (duration : ℕ) (s : Tracker)
    → normalize_mac mac ≡ ok m
    → i.now < granted_at + duration * 1000000
    → (grant_time_extension i granted_at mac duration s).0 ≡ true
    → has m (grant_time_extension i granted_at mac duration s).1.currently_blocked ≡ false
unfolding grant_time_extension
grant_time_extension-unblocks i granted_at mac m duration s e later h =
    rw e (grant_unblocks i granted_at m duration s later (rw e at h))

-- ===== src/Allowance/Success.antt =====
-- When a check of the tracker succeeds.
use Prim.Native.Nat.{ℕ}
use Prim.Native.String.{String}
use mathlib.Core.Path.{◌≡◌, refl}
use mathlib.Core.Logic.{inl, inr}
use mathlib.Core.Bool.{Bool, true, false}
use mathlib.Core.Option.{Option, none, some}
use mathlib.Core.List.{List, [], ◌∷◌}
use native.Mathlib.Omega.{arith}
use roostos.Prelude.{all, keep, add, update, Bool-cases}
use roostos.Prelude.Dict.{Dict}
use roostos.Prelude.Result.{Result, ok, err, ◌>>=◌}
use roostos.Mac.{normalize_mac}
use roostos.Models.{DeviceConfig, ScheduleTarget, ScheduleConfig, RoostConfig, truthy}
use roostos.Schedule.{
  Datetime, add_device, add_devices, by_tag, by_location, by_person, by_mac, add_target,
  add_targets, resolve_schedule_targets, is_schedule_active,
}
use roostos.Allowance.{
  Tracker, Inputs, check_schedule, check_schedules, charge_schedules, limited, enforce_result,
  run_scheduler_check,
}

-- The call returns a value.
abbrev Returns {ℓ} : {A : Type ℓ} → Result A → Type ℓ
Returns r = (a : _) × (r ≡ ok a)

err-not-ok {ℓ} : {A : Type ℓ} (e : String) (a : A) → err e ≡ ok a → ⊥
err-not-ok e a h = cc

Returns-bind {ℓ κ} :
    {A : Type ℓ} {B : Type κ} (r : Result A) (f : A → Result B)
    → Returns r
    → ((a : A) → Returns (f a))
    → Returns (r >>= f)
Returns-bind (ok a) f v h = h a
Returns-bind (err e) f (a, bad) h = absurd (err-not-ok e a bad)

-- Whether a text is a MAC address in one of the accepted spellings.
abbrev pub accepted : Result String → Bool
accepted (ok _) = true
accepted (err _) = false

Returns-accepted : (r : Result String) → accepted r ≡ true → Returns r
Returns-accepted (ok m) h = (m, refl)
Returns-accepted (err e) h = cc

abbrev pub target_accepted : Option String → Bool
target_accepted none = true
target_accepted (some v) = accepted (normalize_mac v)

-- Every device, and every target that is an address, has an address that is accepted.
pub record IsAddressed (config : RoostConfig) : Type 0 where
  pub of_devices : all (λ (d : DeviceConfig). accepted (normalize_mac d.mac)) config.devices ≡ true
  pub of_targets :
      all
        (λ (s : ScheduleConfig).
          all (λ (t : ScheduleTarget). target_accepted (truthy t.mac)) s.targets)
        config.schedules
      ≡ true

add_device-Returns :
    (p : DeviceConfig → Bool) (d : DeviceConfig) (macs : List String)
    → accepted (normalize_mac d.mac) ≡ true
    → Returns (add_device p d macs)
unfolding add_device
add_device-Returns p d macs h = elim (Bool-cases (p d)) [
  | inl e ↦ rw e (
      Returns-bind (normalize_mac d.mac) (λ m. ok (add m macs))
        (Returns-accepted (normalize_mac d.mac) h) (λ m. (add m macs, refl)))
  | inr e ↦ rw e (macs, refl)
]

add_devices-Returns :
    (p : DeviceConfig → Bool) (devices : List DeviceConfig) (macs : List String)
    → all (λ (d : DeviceConfig). accepted (normalize_mac d.mac)) devices ≡ true
    → Returns (add_devices p devices macs)
unfolding add_devices all
add_devices-Returns p [] macs h = (macs, refl)
add_devices-Returns p (d ∷ devices) macs h =
    Returns-bind (add_device p d macs) (λ m. add_devices p devices m)
      (add_device-Returns p d macs (ground arith))
      (λ m. add_devices-Returns p devices m (ground arith))

module _ (devices : List DeviceConfig)
    (addressed : all (λ (d : DeviceConfig). accepted (normalize_mac d.mac)) devices ≡ true) where
  by_tag-Returns : (o : Option String) (macs : List String) → Returns (by_tag o devices macs)
  by_tag-Returns none macs = (macs, refl)
  by_tag-Returns (some tag) macs = add_devices-Returns _ devices macs addressed

  by_location-Returns :
      (l o : Option String) (macs : List String) → Returns (by_location l o devices macs)
  by_location-Returns none o macs = by_tag-Returns o macs
  by_location-Returns (some loc) o macs = add_devices-Returns _ devices macs addressed

  by_person-Returns :
      (p l o : Option String) (macs : List String) → Returns (by_person p l o devices macs)
  by_person-Returns none l o macs = by_location-Returns l o macs
  by_person-Returns (some person) l o macs = add_devices-Returns _ devices macs addressed

  by_mac-Returns :
      (o : Option String) (t : ScheduleTarget) (macs : List String)
      → target_accepted o ≡ true
      → Returns (by_mac o t devices macs)
  by_mac-Returns none t macs h =
      by_person-Returns (truthy t.person) (truthy t.location) (truthy t.tag) macs
  by_mac-Returns (some v) t macs h =
      Returns-bind (normalize_mac v) (λ m. ok (add m macs)) (Returns-accepted (normalize_mac v) h)
        (λ m. (add m macs, refl))

  add_targets-Returns :
      (ts : List ScheduleTarget) (macs : List String)
      → all (λ (t : ScheduleTarget). target_accepted (truthy t.mac)) ts ≡ true
      → Returns (add_targets ts devices macs)
  unfolding add_targets all add_target
  add_targets-Returns [] macs h = (macs, refl)
  add_targets-Returns (t ∷ ts) macs h =
      Returns-bind (by_mac (truthy t.mac) t devices macs) (λ m. add_targets ts devices m)
        (by_mac-Returns (truthy t.mac) t macs (ground arith))
        (λ m. add_targets-Returns ts m (ground arith))

-- Every target of a schedule that is an address has one that is accepted.
abbrev pub schedule_accepted : ScheduleConfig → Bool
schedule_accepted s = all (λ (t : ScheduleTarget). target_accepted (truthy t.mac)) s.targets

module _ (config : RoostConfig)
    (addressed : all (λ (d : DeviceConfig). accepted (normalize_mac d.mac)) config.devices
      ≡ true) where
  resolve_schedule_targets-Returns :
      (s : ScheduleConfig)
      → schedule_accepted s ≡ true
      → Returns (resolve_schedule_targets s config)
  unfolding resolve_schedule_targets
  resolve_schedule_targets-Returns s h = add_targets-Returns config.devices addressed s.targets [] h

  check_schedule-Returns :
      (now : Datetime) (s : ScheduleConfig) (blocked : List String)
      → schedule_accepted s ≡ true
      → Returns (check_schedule config now s blocked)
  unfolding check_schedule
  check_schedule-Returns now s blocked h = elim (Bool-cases (is_schedule_active s now)) [
    | inl e ↦ rw e (
        Returns-bind (resolve_schedule_targets s config) (λ targets. ok (update blocked targets))
          (resolve_schedule_targets-Returns s h) (λ targets. (update blocked targets, refl)))
    | inr e ↦ rw e (blocked, refl)
  ]

  check_schedules-Returns :
      (now : Datetime) (ss : List ScheduleConfig) (blocked : List String)
      → all schedule_accepted ss ≡ true
      → Returns (check_schedules config now ss blocked)
  unfolding check_schedules all
  check_schedules-Returns now [] blocked h = (blocked, refl)
  check_schedules-Returns now (s ∷ ss) blocked h =
      Returns-bind (check_schedule config now s blocked) (λ b. check_schedules config now ss b)
        (check_schedule-Returns now s blocked (ground arith))
        (λ b. check_schedules-Returns now ss b (ground arith))

  charge_schedules-Returns :
      (active : List String) (ss : List ScheduleConfig) (state : Dict ℕ × List String)
      → all schedule_accepted ss ≡ true
      → Returns (charge_schedules config active ss state).1
  unfolding charge_schedules all
  charge_schedules-Returns active [] (usage, blocked) h = (blocked, refl)
  charge_schedules-Returns active (s ∷ ss) (usage, blocked) h =
      let (targets, e) = resolve_schedule_targets-Returns s (ground arith) in
      rw (charge_schedules, e) (charge_schedules-Returns active ss _ (ground arith))

  all-limited :
      (ss : List ScheduleConfig)
      → all schedule_accepted ss ≡ true
      → all schedule_accepted (limited ss) ≡ true
  unfolding limited keep all
  all-limited [] h = refl
  all-limited (s ∷ ss) h = ground (arith, all-limited ss)

enforce_result-ok :
    (r : Result (List String)) (bypasses : List String) (s : Tracker)
    → Returns r
    → (enforce_result r bypasses s).0 ≡ ok tt
enforce_result-ok (ok blocked) bypasses s v = refl
enforce_result-ok (err e) bypasses s (a, bad) = absurd (err-not-ok e a bad)

-- A check succeeds, in any state of the tracker, where every device and every target that is an
-- address has a MAC address in one of the accepted spellings.
pub run_scheduler_check-succeeds :
    (i : Inputs) (s : Tracker) → IsAddressed i.config → (run_scheduler_check i s).0 ≡ ok tt
unfolding run_scheduler_check
run_scheduler_check-succeeds i s v =
    let (blocked, e) =
      check_schedules-Returns i.config v.of_devices i.now i.config.schedules [] v.of_targets in
    rw e (
      enforce_result-ok _ _ _ (
        charge_schedules-Returns i.config v.of_devices i.active_macs (limited i.config.schedules) _
          (all-limited i.config v.of_devices i.config.schedules v.of_targets)))

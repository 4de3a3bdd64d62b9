-- ===== src/Schedule/Targets.antt =====
-- The devices that a schedule is resolved to.
use Prim.Native.String.{String}
use text.Mathlib.Text.{◌==◌}
use mathlib.Core.Path.{◌≡◌, refl}
use mathlib.Core.Logic.{inl, inr}
use mathlib.Core.Bool.{Bool, false, ◌&&◌, ◌||◌}
use mathlib.Core.Option.{Option, none, some}
use mathlib.Core.List.{List, [], ◌∷◌}
use native.Mathlib.Omega.{arith}
use roostos.Prelude.{has, add, has-add, any, Bool-cases}
use roostos.Prelude.Result.{Result, ok, err, ◌>>=◌, >>=-eq-ok}
use roostos.Mac.{normalize_mac}
use roostos.Models.{DeviceConfig, ScheduleTarget, ScheduleConfig, RoostConfig, truthy, is}
use roostos.Schedule.{
  add_device, add_devices, by_person, by_mac, add_target, add_targets, resolve_schedule_targets,
}

-- Whether a call returned this text.
abbrev pub gave : Result String → String → Bool
gave (ok s) m = s == m
gave (err _) m = false

-- Which of its selectors a target uses: a MAC before a person, before a location, before a tag.
abbrev pub covers_by : Option String → Option String → Option String → DeviceConfig → Bool
covers_by (some person) loc tag dev = is dev.owner person
covers_by none (some loc) tag dev = is dev.location loc
covers_by none none (some tag) dev = has tag dev.tags
covers_by none none none dev = false

abbrev pub names_by : Option String → ScheduleTarget → List DeviceConfig → String → Bool
names_by (some v) target devices m = gave (normalize_mac v) m
names_by none target devices m =
    any
      (λ dev.
        covers_by (truthy target.person) (truthy target.location) (truthy target.tag) dev
        && gave (normalize_mac dev.mac) m)
      devices

-- Whether a target stands for an address.
unfoldable pub names : ScheduleTarget → List DeviceConfig → String → Bool
names target devices m = names_by (truthy target.mac) target devices m

any-false : (devices : List DeviceConfig) → any (λ _. false) devices ≡ false
unfolding any
any-false [] = refl
any-false (d ∷ devices) = any-false devices

module _ (m : String) where
  has-add_result :
      (x : Result String) (macs : List String) {r : List String}
      → (x >>= λ n. ok (add n macs)) ≡ ok r
      → has m r ≡ (has m macs || gave x m)
  has-add_result (ok n) macs h = ground (arith, has-add n m macs)
  has-add_result (err e) macs h = cc

  has-add_device :
      (p : DeviceConfig → Bool) (dev : DeviceConfig) (macs : List String) {r : List String}
      → add_device p dev macs ≡ ok r
      → has m r ≡ (has m macs || (p dev && gave (normalize_mac dev.mac) m))
  unfolding add_device
  has-add_device p dev macs h = elim (Bool-cases (p dev)) [
    | inl e ↦ rw e (has-add_result (normalize_mac dev.mac) macs (rw e at h))
    | inr e ↦ ground arith
  ]

  has-add_devices :
      (p : DeviceConfig → Bool) (devices : List DeviceConfig) (macs : List String) {r : List String}
      → add_devices p devices macs ≡ ok r
      → has m r ≡ (has m macs || any (λ dev. p dev && gave (normalize_mac dev.mac) m) devices)
  unfolding add_devices any
  has-add_devices p [] macs h = ground arith
  has-add_devices p (dev ∷ devices) macs h =
      let (macs', e, f) = >>=-eq-ok (add_device p dev macs) (add_devices p devices) h in
      ground (arith, has-add_device p dev macs e, has-add_devices p devices macs' f)

  has-by_person :
      (person loc tag : Option String) (devices : List DeviceConfig) (macs : List String)
      {r : List String}
      → by_person person loc tag devices macs ≡ ok r
      → has m r ≡ (
          has m macs
          || any (λ dev. covers_by person loc tag dev && gave (normalize_mac dev.mac) m) devices)
  has-by_person (some person) loc tag devices macs h = has-add_devices _ devices macs h
  has-by_person none (some loc) tag devices macs h = has-add_devices _ devices macs h
  has-by_person none none (some tag) devices macs h = has-add_devices _ devices macs h
  has-by_person none none none devices macs h = ground (arith, any-false devices)

  has-by_mac :
      (mac : Option String) (target : ScheduleTarget) (devices : List DeviceConfig)
      (macs : List String) {r : List String}
      → by_mac mac target devices macs ≡ ok r
      → has m r ≡ (has m macs || names_by mac target devices m)
  has-by_mac (some v) target devices macs h = has-add_result (normalize_mac v) macs h
  has-by_mac none target devices macs h = has-by_person _ _ _ devices macs h

  has-add_target :
      (target : ScheduleTarget) (devices : List DeviceConfig) (macs : List String) {r : List String}
      → add_target target devices macs ≡ ok r
      → has m r ≡ (has m macs || names target devices m)
  unfolding add_target names
  has-add_target target devices macs h = has-by_mac _ target devices macs h

  has-add_targets :
      (targets : List ScheduleTarget) (devices : List DeviceConfig) (macs : List String)
      {r : List String}
      → add_targets targets devices macs ≡ ok r
      → has m r ≡ (has m macs || any (λ target. names target devices m) targets)
  unfolding add_targets any
  has-add_targets [] devices macs h = ground arith
  has-add_targets (target ∷ targets) devices macs h =
      let (macs', e, f) =
        >>=-eq-ok (add_target target devices macs) (add_targets targets devices) h in
      ground (arith, has-add_target target devices macs e, has-add_targets targets devices macs' f)

-- Whether one of a schedule's targets stands for an address.
unfoldable pub schedule_names : RoostConfig → ScheduleConfig → String → Bool
schedule_names config sched m = any (λ target. names target config.devices m) sched.targets

-- A resolved schedule holds exactly the addresses that one of its targets stands for: the one it
-- names, or else those of the devices of its person, or else those of the devices that stand at its
-- location itself, a building's rooms left out, or else those of the devices with its tag.
pub has-resolve_schedule_targets :
    (sched : ScheduleConfig) (config : RoostConfig) (m : String) {macs : List String}
    → resolve_schedule_targets sched config ≡ ok macs
    → has m macs ≡ schedule_names config sched m
unfolding resolve_schedule_targets has schedule_names
has-resolve_schedule_targets sched config m h = has-add_targets m sched.targets config.devices [] h

-- ===== src/Schedule/Distinct.antt =====
-- A resolved schedule is a set: no address stands in it twice, in one spelling or in two.
use Prim.Native.String.{String}
use text.Mathlib.Text.{◌==◌}
use text.Mathlib.TextEquality.{eq_iff}
use mathlib.Core.Path.{◌≡◌, subst}
use mathlib.Core.Logic.{inl, inr}
use mathlib.Core.Bool.{Bool, true}
use mathlib.Core.Option.{Option, none, some}
use mathlib.Core.List.{List, [], ◌∷◌}
use native.Mathlib.Omega.{arith}
use roostos.Prelude.{add, has, has-add, Bool-cases, Distinct, Distinct-nil, Distinct-add}
use roostos.Prelude.Result.{ok, ◌>>=◌, >>=-eq-ok}
use roostos.Mac.{normalize_mac}
use roostos.Mac.Canonical.{normalize_mac_idem}
use roostos.Models.{DeviceConfig, ScheduleTarget, ScheduleConfig, RoostConfig, truthy}
use roostos.Schedule.{
  add_device, add_devices, by_person, by_mac, add_target, add_targets, resolve_schedule_targets,
}

-- No address stands twice, and each is in the one spelling that its normalization leaves as it is.
pub record IsMacSet (macs : List String) : Type 0 where
  pub distinct : Distinct macs
  pub canonical : (m : String) → has m macs ≡ true → normalize_mac m ≡ ok m

IsMacSet-nil : IsMacSet []
unfolding has
IsMacSet-nil = record { distinct = Distinct-nil; canonical = λ m h. absurd cc }

IsMacSet-add :
    (v n : String) (macs : List String)
    → normalize_mac v ≡ ok n
    → IsMacSet macs
    → IsMacSet (add n macs)
IsMacSet-add v n macs h s = record {
  distinct = Distinct-add n macs s.distinct;
  canonical = λ m q. elim (Bool-cases (n == m)) [
    | inl e ↦
        let same = (eq_iff n m).0 e in
        subst (λ x. normalize_mac x ≡ ok x) same (normalize_mac_idem v n h)
    | inr e ↦ s.canonical m (ground (arith, q, has-add n m macs, eq_iff n m, eq_iff m n))
  ];
}

IsMacSet-add_result :
    (v : String) (macs r : List String)
    → (normalize_mac v >>= λ n. ok (add n macs)) ≡ ok r
    → IsMacSet macs
    → IsMacSet r
IsMacSet-add_result v macs r h s =
    let (n, e, f) = >>=-eq-ok (normalize_mac v) _ h in
    let same : add n macs ≡ r = cc in rw (← same) (IsMacSet-add v n macs e s)

IsMacSet-add_device :
    (p : DeviceConfig → Bool) (dev : DeviceConfig) (macs r : List String)
    → add_device p dev macs ≡ ok r
    → IsMacSet macs
    → IsMacSet r
unfolding add_device
IsMacSet-add_device p dev macs r h d = elim (Bool-cases (p dev)) [
  | inl e ↦ IsMacSet-add_result dev.mac macs r (rw e at h) d
  | inr e ↦ same (rw e at h)
]
  where
    same : ok macs ≡ ok r → IsMacSet r
    same k = let e : macs ≡ r = cc in rw (← e) d

IsMacSet-add_devices :
    (p : DeviceConfig → Bool) (devices : List DeviceConfig) (macs r : List String)
    → add_devices p devices macs ≡ ok r
    → IsMacSet macs
    → IsMacSet r
unfolding add_devices
IsMacSet-add_devices p [] macs r h d = let e : macs ≡ r = cc in rw (← e) d
IsMacSet-add_devices p (dev ∷ devices) macs r h d =
    let (macs', e, f) = >>=-eq-ok (add_device p dev macs) (add_devices p devices) h in
    IsMacSet-add_devices p devices macs' r f (IsMacSet-add_device p dev macs macs' e d)

IsMacSet-by_person :
    (person loc tag : Option String) (devices : List DeviceConfig) (macs r : List String)
    → by_person person loc tag devices macs ≡ ok r
    → IsMacSet macs
    → IsMacSet r
IsMacSet-by_person (some person) loc tag devices macs r h d =
    IsMacSet-add_devices _ devices macs r h d
IsMacSet-by_person none (some loc) tag devices macs r h d =
    IsMacSet-add_devices _ devices macs r h d
IsMacSet-by_person none none (some tag) devices macs r h d =
    IsMacSet-add_devices _ devices macs r h d
IsMacSet-by_person none none none devices macs r h d = let e : macs ≡ r = cc in rw (← e) d

IsMacSet-by_mac :
    (mac : Option String) (target : ScheduleTarget) (devices : List DeviceConfig)
    (macs r : List String)
    → by_mac mac target devices macs ≡ ok r
    → IsMacSet macs
    → IsMacSet r
IsMacSet-by_mac (some v) target devices macs r h d = IsMacSet-add_result v macs r h d
IsMacSet-by_mac none target devices macs r h d = IsMacSet-by_person _ _ _ devices macs r h d

IsMacSet-add_targets :
    (targets : List ScheduleTarget) (devices : List DeviceConfig) (macs r : List String)
    → add_targets targets devices macs ≡ ok r
    → IsMacSet macs
    → IsMacSet r
unfolding add_targets add_target
IsMacSet-add_targets [] devices macs r h d = let e : macs ≡ r = cc in rw (← e) d
IsMacSet-add_targets (target ∷ targets) devices macs r h d =
    let (macs', e, f) =
      >>=-eq-ok (by_mac (truthy target.mac) target devices macs) (add_targets targets devices) h in
    IsMacSet-add_targets targets devices macs' r f
      (IsMacSet-by_mac (truthy target.mac) target devices macs macs' e d)

-- A schedule that resolves gives each address once, however many targets stand for it and however
-- they spell it: no address stands twice, and normalization leaves each as it is, so that no two are
-- spellings of one.
pub resolve_schedule_targets-IsMacSet :
    (sched : ScheduleConfig) (config : RoostConfig) (macs : List String)
    → resolve_schedule_targets sched config ≡ ok macs
    → IsMacSet macs
unfolding resolve_schedule_targets
resolve_schedule_targets-IsMacSet sched config macs h =
    IsMacSet-add_targets sched.targets config.devices [] macs h IsMacSet-nil

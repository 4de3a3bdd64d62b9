-- ===== src/Schedule.antt =====
-- roostos-engine/src/roostos_engine/scheduler.py: when a schedule is in force, and on which devices.
pub mod Windows
pub mod Targets
pub mod Distinct
use Prim.Native.Nat.{ℕ, ◌+◌, ◌-◌, ◌*◌, ◌/◌, ◌%◌}
use Prim.Native.String.{String}
use text.Mathlib.Text.{◌==◌}
use mathlib.Core.Bool.{Bool, true, false, not, ◌&&◌, ◌||◌}
use mathlib.Core.Option.{Option, none, some}
use mathlib.Core.List.{List, [], ◌∷◌, map}
use roostos.Prelude.{eqb, has, add, if◌then◌else◌}
use roostos.Prelude.Result.{Result, ok, err, ◌>>=◌}
use roostos.Prelude.Int.{ℤ, pos, leb_ℤ, eqb_ℤ, int}
use roostos.Prelude.Text.{lower, split}
use roostos.Mac.{normalize_mac}
use roostos.Models.{DeviceConfig, ScheduleTarget, ScheduleConfig, RoostConfig, truthy, is}

-- A local `datetime`: the microseconds since the midnight that begins day 0 of `toordinal`.
abbrev pub Datetime : Type 0
Datetime = ℕ

abbrev pub minutes_of : Datetime → ℕ
minutes_of t = t / 60000000

abbrev pub hour : Datetime → ℕ
hour t = minutes_of t / 60 % 24

abbrev pub minute : Datetime → ℕ
minute t = minutes_of t % 60

-- `toordinal()`
abbrev pub day_of : Datetime → ℕ
day_of t = minutes_of t / 1440

-- `strftime("%A").lower()` of a day; day 1 is a Monday
unfoldable pub day_name : ℕ → String
day_name d = weekday (d % 7)
  where
    weekday : ℕ → String
    weekday n =
        if eqb n 1
        then "monday"
        else if eqb n 2
        then "tuesday"
        else if eqb n 3
        then "wednesday"
        else if eqb n 4
        then "thursday"
        else if eqb n 5
        then "friday"
        else if eqb n 6
        then "saturday"
        else "sunday"

-- `map(int, s.split(":"))` unpacked into two numbers; `none` is a `ValueError`
abbrev pub both : Option ℤ → Option ℤ → Option (ℤ × ℤ)
both (some h) (some m) = some (h, m)
both _ _ = none

abbrev pub pair : List String → Option (ℤ × ℤ)
pair (h ∷ m ∷ []) = both (int h) (int m)
pair _ = none

unfoldable pub parse_hm : String → Option (ℤ × ℤ)
parse_hm s = pair (split b':' s)

-- the order of Python tuples
unfoldable pub hm_le : ℤ × ℤ → ℤ × ℤ → Bool
hm_le (h, m) (k, n) = if eqb_ℤ h k then leb_ℤ m n else leb_ℤ h k

-- the two branches below the comparison of the ends of the window
unfoldable pub in_force : List String → ℤ × ℤ → ℤ × ℤ → Datetime → Bool
in_force days start_hm end_hm t =
    let now_hm : ℤ × ℤ = (pos (hour t), pos (minute t)) in
    let day_today = day_name (day_of t) in
    let day_yesterday = day_name (day_of (t - 86400000000)) in
    let is_overnight = not (hm_le start_hm end_hm) in
    if not is_overnight
    then (if has day_today days then hm_le start_hm now_hm && hm_le now_hm end_hm else false)
    else if hm_le now_hm end_hm
    then has day_yesterday days
    else if hm_le start_hm now_hm
    then has day_today days
    else false

abbrev in_force_parsed : List String → Option (ℤ × ℤ) → Option (ℤ × ℤ) → Datetime → Bool
in_force_parsed days (some s) (some e) t = in_force days s e t
in_force_parsed _ _ _ _ = false

abbrev between : List String → Option String → Option String → Datetime → Bool
between days (some s) (some e) t = in_force_parsed days (parse_hm s) (parse_hm e) t
between _ _ _ _ = false

unfoldable pub is_schedule_active : ScheduleConfig → Datetime → Bool
is_schedule_active sched t =
    between (map lower sched.days) (truthy sched.start_time) (truthy sched.end_time) t

-- `if p(dev): target_macs.add(normalize_mac(dev.mac))`
unfoldable pub add_device :
    (DeviceConfig → Bool) → DeviceConfig → List String → Result (List String)
add_device p dev macs = if p dev then (do m ← normalize_mac dev.mac; ok (add m macs)) else ok macs

-- the loop `for dev in config.devices` over it
unfoldable pub add_devices :
    (DeviceConfig → Bool) → List DeviceConfig → List String → Result (List String)
add_devices p [] macs = ok macs
add_devices p (dev ∷ devices) macs = do macs' ← add_device p dev macs; add_devices p devices macs'

-- one round of the loop over the targets: the `if`/`elif` chain
abbrev pub by_tag : Option String → List DeviceConfig → List String → Result (List String)
by_tag none devices macs = ok macs
by_tag (some tag) devices macs = add_devices (λ dev. has tag dev.tags) devices macs

abbrev pub by_location :
    Option String → Option String → List DeviceConfig → List String → Result (List String)
by_location none tag devices macs = by_tag tag devices macs
by_location (some loc) tag devices macs = add_devices (λ dev. is dev.location loc) devices macs

abbrev pub by_person :
    Option String
    → Option String
    → Option String
    → List DeviceConfig
    → List String
    → Result (List String)
by_person none loc tag devices macs = by_location loc tag devices macs
by_person (some person) loc tag devices macs = add_devices (λ dev. is dev.owner person) devices macs

abbrev pub by_mac :
    Option String → ScheduleTarget → List DeviceConfig → List String → Result (List String)
by_mac (some mac) target devices macs = do m ← normalize_mac mac; ok (add m macs)
by_mac none target devices macs =
    by_person (truthy target.person) (truthy target.location) (truthy target.tag) devices macs

unfoldable pub add_target : ScheduleTarget → List DeviceConfig → List String → Result (List String)
add_target target devices macs = by_mac (truthy target.mac) target devices macs

unfoldable pub add_targets :
    List ScheduleTarget → List DeviceConfig → List String → Result (List String)
add_targets [] devices macs = ok macs
add_targets (target ∷ targets) devices macs = do
  macs' ← add_target target devices macs
  add_targets targets devices macs'

unfoldable pub resolve_schedule_targets : ScheduleConfig → RoostConfig → Result (List String)
unfolding add_targets
resolve_schedule_targets sched config = add_targets sched.targets config.devices []

-- ===== src/Schedule/Windows.antt =====
-- `is_schedule_active` as windows on the line of minutes.
use Prim.Native.Nat.{ℕ, suc, ◌+◌, ◌-◌, ◌*◌, ◌%◌, ◌≤◌, ◌<◌}
use Prim.Native.String.{String}
use mathlib.Core.Path.{◌≡◌, sym, ap₂, ◌∙◌}
use mathlib.Core.Bool.{Bool, true, false, not, ◌&&◌, ◌||◌}
use mathlib.Core.Option.{some}
use mathlib.Core.List.{List, map}
use native.Mathlib.Omega.{arith}
use roostos.Prelude.{eqb, ltb, leb, has, if◌then◌else◌}
use roostos.Prelude.Int.{pos}
use roostos.Prelude.Text.{lower}
use roostos.Models.{ScheduleConfig, truthy}
use roostos.Schedule.{
  Datetime, minutes_of, hour, minute, day_of, day_name, parse_hm, hm_le, in_force,
  is_schedule_active,
}

-- The minutes of a day at which a window that opens on it closes: after midnight, if it ends before
-- it starts.
abbrev pub close_of : ℕ → ℕ → ℕ
close_of start end = if ltb end start then end + 1440 else end

-- Whether the full English name of a day of the week is listed.
unfoldable pub lists_day : List String → ℕ → Bool
lists_day days day =
    let n = day % 7 in
    eqb n 0 && has "sunday" days
    || (eqb n 1 && has "monday" days
        || (eqb n 2 && has "tuesday" days
            || (eqb n 3 && has "wednesday" days
                || (eqb n 4 && has "thursday" days
                    || (eqb n 5 && has "friday" days || eqb n 6 && has "saturday" days)))))

has-day_name : (days : List String) (day : ℕ) → has (day_name day) days ≡ lists_day days day
unfolding day_name lists_day
has-day_name days day = ground arith

-- The window that opens on a day, and whether it holds a minute.
unfoldable pub window_holds : List String → ℕ → ℕ → ℕ → ℕ → Bool
window_holds days start end day n =
    lists_day days day && (leb (day * 1440 + start) n && leb n (day * 1440 + close_of start end))

hm_le_minutes :
    (h m k n : ℕ)
    → m < 60
    → n < 60
    → hm_le (pos h, pos m) (pos k, pos n) ≡ leb (h * 60 + m) (k * 60 + n)
unfolding hm_le
hm_le_minutes h m k n p q = ground arith

day_before : (t : Datetime) → 1440 ≤ minutes_of t → day_of (t - 86400000000) ≡ day_of t - 1
day_before t h = omega arith

-- The tests of the code on minutes of the day, and the windows of two days, where `here` and
-- `before` tell whether those days are listed.
window_tests :
    (here before : Bool) (s e w d : ℕ)
    → s < 1440
    → e < 1440
    → w < 1440
    → (if not (not (leb s e))
        then (if here then leb s w && leb w e else false)
        else if leb w e
        then before
        else if leb s w
        then here
        else false)
      ≡ (here
            && (leb (suc d * 1440 + s) (suc d * 1440 + w)
                && leb (suc d * 1440 + w) (suc d * 1440 + close_of s e))
          || before
            && (leb (d * 1440 + s) (suc d * 1440 + w)
                && leb (suc d * 1440 + w) (d * 1440 + close_of s e)))
window_tests true true s e w d a b c = ground arith
window_tests true false s e w d a b c = ground arith
window_tests false true s e w d a b c = ground arith
window_tests false false s e w d a b c = ground arith

in_force-windows :
    (days : List String) (sh sm eh em : ℕ) (t : Datetime)
    → sh < 24
    → sm < 60
    → eh < 24
    → em < 60
    → 1440 ≤ minutes_of t
    → in_force days (pos sh, pos sm) (pos eh, pos em) t ≡ (
        window_holds days (sh * 60 + sm) (eh * 60 + em) (day_of t) (minutes_of t)
        || window_holds days (sh * 60 + sm) (eh * 60 + em) (day_of t - 1) (minutes_of t))
unfolding in_force window_holds
in_force-windows days sh sm eh em t a b c d e =
    let s = sh * 60 + sm in
    let f = eh * 60 + em in
    let d' = day_of t - 1 in
    let here = lists_day days (day_of t) in
    let before = lists_day days (day_of t - 1) in
    let windows : ℕ → ℕ → Bool = λ g n.
      (here && (leb (g * 1440 + s) n && leb n (g * 1440 + close_of s f))
        || before && (leb (d' * 1440 + s) n && leb n (d' * 1440 + close_of s f))) in
    let w = hour t * 60 + minute t in
    let today : day_of t ≡ suc (day_of t - 1) = omega arith in
    let now : minutes_of t ≡ suc (day_of t - 1) * 1440 + w = omega arith in
    rw
      (
        day_before t e,
        has-day_name days (day_of t),
        has-day_name days (day_of t - 1),
        hm_le_minutes sh sm eh em b d,
        hm_le_minutes sh sm (hour t) (minute t) b (omega arith),
        hm_le_minutes (hour t) (minute t) eh em (omega arith) d,
      )
      (window_tests here before s f w d' (omega arith) (omega arith) (omega arith)
        ∙ ap₂ windows (sym today) (sym now))

-- A schedule whose ends are times of day is active exactly in the windows that open on a day whose
-- full English name, such as Monday, is listed in some case: from its start to its end, or to its
-- end on the next day if it ends before it starts. A name that is cut, such as Mon, lists no day.
pub is_schedule_active-windows :
    (sched : ScheduleConfig) (from to : String) (sh sm eh em : ℕ) (t : Datetime)
    → truthy sched.start_time ≡ some from
    → truthy sched.end_time ≡ some to
    → parse_hm from ≡ some (pos sh, pos sm)
    → parse_hm to ≡ some (pos eh, pos em)
    → sh < 24
    → sm < 60
    → eh < 24
    → em < 60
    → 1440 ≤ minutes_of t
    → is_schedule_active sched t ≡ (
        window_holds (map lower sched.days) (sh * 60 + sm) (eh * 60 + em) (day_of t) (minutes_of t)
        || window_holds
            (map lower sched.days)
            (sh * 60 + sm)
            (eh * 60 + em)
            (day_of t - 1)
            (minutes_of t))
unfolding is_schedule_active
is_schedule_active-windows sched from to sh sm eh em t p q u v a b c d e =
    rw (p, q, u, v) (in_force-windows (map lower sched.days) sh sm eh em t a b c d e)

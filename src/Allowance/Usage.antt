-- ===== src/Allowance/Usage.antt =====
-- The loops over the schedules with a limit, as they look to one device.
use Prim.Native.Nat.{ℕ, ◌+◌, ◌*◌}
use Prim.Native.String.{String}
use text.Mathlib.TextEquality.{eq_iff}
use mathlib.Core.Path.{◌≡◌, refl, ap, ap₂, ◌∙◌}
use mathlib.Core.Logic.{inl, inr}
use mathlib.Core.Bool.{Bool, false, ◌&&◌, ◌||◌}
use mathlib.Core.List.{List, [], ◌∷◌}
use native.Mathlib.Omega.{arith}
use text.Mathlib.Text.{◌==◌}
use roostos.Prelude.{
  leb, has, add, has-add, or_else, if◌then◌else◌, Distinct, Distinct-tail, Distinct-head, or_assoc,
}
use roostos.Prelude.Dict.{Dict, get-put}
use roostos.Prelude.Result.{ok, err, Result-cases}
use roostos.Models.{ScheduleConfig, RoostConfig}
use roostos.Schedule.{resolve_schedule_targets}
use roostos.Schedule.Targets.{schedule_names, has-resolve_schedule_targets}
use roostos.Schedule.Distinct.{resolve_schedule_targets-IsMacSet}
use roostos.Allowance.{seconds, charge, charge_all, charge_schedules}

seconds-charge :
    (active : List String) (mac m : String) (usage : Dict ℕ)
    → seconds m (charge active mac usage)
      ≡ seconds m usage + (if mac == m && has m active then 60 else 0)
unfolding seconds charge
seconds-charge active mac m usage =
    ground (arith, eq_iff mac m, get-put mac m (seconds mac usage + 60) usage)

module _ (active : List String) (m : String) where
  -- the seconds that one schedule adds to the device
  abbrev pub fee : Bool → ℕ
  fee named = if named && has m active then 60 else 0

  seconds-charge_all :
      (limit : ℕ) (macs : List String) (usage : Dict ℕ) (blocked : List String)
      → Distinct macs
      → seconds m (charge_all active limit macs (usage, blocked)).0
        ≡ seconds m usage + fee (has m macs)
  unfolding charge_all has
  seconds-charge_all limit [] usage blocked d = omega arith
  seconds-charge_all limit (mac ∷ macs) usage blocked d =
      let used = charge active mac usage in
      let blocked' = if leb limit (seconds mac used) then add mac blocked else blocked in
      let d' = Distinct-tail mac macs d in
      ground (
        arith,
        seconds-charge active mac m usage,
        Distinct-head mac m macs d,
        seconds-charge_all limit macs used blocked' d',
      )

  has-charge_all :
      (limit : ℕ) (macs : List String) (usage : Dict ℕ) (blocked : List String)
      → Distinct macs
      → has m (charge_all active limit macs (usage, blocked)).1
        ≡ (has m blocked || (has m macs && leb limit (seconds m usage + fee (has m macs))))
  unfolding charge_all has
  has-charge_all limit [] usage blocked d = ground arith
  has-charge_all limit (mac ∷ macs) usage blocked d =
      let used = charge active mac usage in
      let blocked' = if leb limit (seconds mac used) then add mac blocked else blocked in
      let d' = Distinct-tail mac macs d in
      ground (
        arith,
        seconds-charge active mac m usage,
        Distinct-head mac m macs d,
        has-charge_all limit macs used blocked' d',
        has-add mac m blocked,
        eq_iff mac m,
      )

-- What the loop makes of the seconds of one device, and whether it finds a limit reached: a
-- device with a lease pays a minute to each schedule in turn that names it.
abbrev pub spent : RoostConfig → List String → String → List ScheduleConfig → ℕ → ℕ
spent config active m [] n = n
spent config active m (sched ∷ scheds) n =
    spent config active m scheds (n + fee active m (schedule_names config sched m))

abbrev pub over_limit : RoostConfig → List String → String → List ScheduleConfig → ℕ → Bool
over_limit config active m [] n = false
over_limit config active m (sched ∷ scheds) n =
    let n' = n + fee active m (schedule_names config sched m) in
    (schedule_names config sched m && leb (or_else sched.daily_limit 0 * 60) n')
    || over_limit config active m scheds n'

module _ (config : RoostConfig) (active : List String) (sched : ScheduleConfig)
    (scheds : List ScheduleConfig) (usage : Dict ℕ) (blocked : List String) where
  charge_resolved :
      (targets : List String)
      → resolve_schedule_targets sched config ≡ ok targets
      → charge_schedules config active (sched ∷ scheds) (usage, blocked)
        ≡ charge_schedules config active scheds
            (charge_all active (or_else sched.daily_limit 0 * 60) targets (usage, blocked))
  unfolding charge_schedules
  charge_resolved targets e = rw (e, charge_schedules) refl

  charge_unresolved :
      (x : String)
      → resolve_schedule_targets sched config ≡ err x
      → charge_schedules config active (sched ∷ scheds) (usage, blocked) ≡ (usage, err x)
  unfolding charge_schedules
  charge_unresolved x e = rw (e, charge_schedules) refl

pub charge_schedules_lem :
    (config : RoostConfig) (active : List String) (m : String) (scheds : List ScheduleConfig)
    (usage : Dict ℕ) (blocked : List String) (r : List String)
    → (charge_schedules config active scheds (usage, blocked)).1 ≡ ok r
    → (seconds m (charge_schedules config active scheds (usage, blocked)).0
        ≡ spent config active m scheds (seconds m usage))
      × (has m r ≡ (has m blocked || over_limit config active m scheds (seconds m usage)))
charge_schedules_lem config active m [] usage blocked r h =
    unfold charge_schedules in (refl, ground arith)
charge_schedules_lem config active m (sched ∷ scheds) usage blocked r h =
    elim (Result-cases (resolve_schedule_targets sched config)) [
      | inl (targets, e) ↦
          let step = charge_resolved config active sched scheds usage blocked targets e in
          let limit = or_else sched.daily_limit 0 * 60 in
          let (used, blocked') = charge_all active limit targets (usage, blocked) in
          let d = (resolve_schedule_targets-IsMacSet sched config targets e).distinct in
          let named = has-resolve_schedule_targets sched config m e in
          let (p, q) = charge_schedules_lem config active m scheds used blocked' r (rw step at h) in
          let paid : seconds m used
              ≡ seconds m usage + fee active m (schedule_names config sched m) =
            seconds-charge_all active m limit targets usage blocked d
            ∙ ap (λ b. seconds m usage + fee active m b) named in
          let seen =
            has-charge_all active m limit targets usage blocked d
            ∙ ap (λ b. has m blocked || (b && leb limit (seconds m usage + fee active m b)))
                named in
          let rest = over_limit config active m scheds in
          rw step (
            p ∙ ap (spent config active m scheds) paid,
            q ∙ ap₂ (λ b n. b || rest n) seen paid ∙ or_assoc (has m blocked) _ _,
          )
      | inr (x, e) ↦ cc (charge_unresolved config active sched scheds usage blocked x e)
    ]

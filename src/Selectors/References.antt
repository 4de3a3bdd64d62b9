-- ===== src/Selectors/References.antt =====
-- What a configuration that passes its check refers to, and where a location's devices are.

use Prim.Native.String.{String}
use text.Mathlib.Text.{◌==◌}
use text.Mathlib.TextEquality.{eq_iff}
use mathlib.Core.Path.{◌≡◌, refl, ap₂, ◌∙◌}
use mathlib.Core.Logic.{inl, inr}
use mathlib.Core.Bool.{Bool, true, false, ◌&&◌, ◌||◌}
use mathlib.Core.Option.{Option, none, some}
use mathlib.Core.List.{List, [], ◌∷◌, map}
use native.Mathlib.Omega.{arith}
use roostos.Prelude.{all, any, has, has-append, Bool-cases}
use roostos.Prelude.Result.{Result, ok, err, ◌>>=◌}
use roostos.Mac.{normalize_mac}
use roostos.Models.{
  PersonConfig, BuildingConfig, RoomConfig, DeviceConfig, ScheduleTarget, ScheduleConfig,
  NetworkGateway, UserConfig, RoostConfig, truthy,
}
use roostos.Selectors.{
  people_ids, building_ids, location_ids, gateway_ids, require, refers, registered, names_device,
  check_user, check_room, check_device, check_target, check_schedule, check_all,
  validate_cross_references,
}

-- Whether a check passes.
abbrev pub passes : Result (Unit {0}) → Bool
passes (ok _) = true
passes (err _) = false

passes-then : (r s : Result (Unit {0})) → passes (r >>= λ _. s) ≡ (passes r && passes s)
passes-then (ok _) s = refl
passes-then (err _) s = refl

passes-require : (b : Bool) → passes (require b) ≡ b
passes-require true = refl
passes-require false = refl

passes-check_all {ℓ} :
    {A : Type ℓ} (check : A → Result (Unit {0})) (good : A → Bool) (xs : List A)
    → ((x : A) → passes (check x) ≡ good x)
    → passes (check_all check xs) ≡ all good xs
unfolding check_all all
passes-check_all check good [] h = refl
passes-check_all check good (x ∷ xs) h =
    passes-then (check x) (check_all check xs) ∙ ap₂ ◌&&◌ (h x) (passes-check_all check good xs h)

-- Whether a reference, if one is given, leads to what a test finds.
abbrev pub leads : (String → Bool) → Option String → Bool
leads finds none = true
leads finds (some id) = id == "" || finds id

-- Whether a configuration has a person, a building, a location, that is a building or a room, or a
-- gateway of an ID.
unfoldable pub has_person : RoostConfig → String → Bool
has_person c id = any (λ (p : PersonConfig). p.id == id) c.people

unfoldable pub has_building : RoostConfig → String → Bool
has_building c id = any (λ (b : BuildingConfig). b.id == id) c.buildings

unfoldable pub has_location : RoostConfig → String → Bool
has_location c id =
    any (λ (b : BuildingConfig). b.id == id) c.buildings
    || any (λ (r : RoomConfig). r.id == id) c.rooms

unfoldable pub has_gateway : RoostConfig → String → Bool
has_gateway c id = any (λ (g : NetworkGateway). g.id == id) c.network.gateways

-- Whether the normalization of a text gave this address.
abbrev pub gave : Result String → String → Bool
gave (err e) mac = false
gave (ok m) mac = mac == m

unfoldable pub has_device : RoostConfig → String → Bool
has_device c text = any (λ (d : DeviceConfig). gave (normalize_mac text) d.mac) c.devices

-- The references of a device, and those of a schedule's target.
abbrev pub device_refers : RoostConfig → DeviceConfig → Bool
device_refers c d =
    leads (has_person c) d.owner
    && (leads (has_location c) d.location && leads (has_gateway c) d.gateway)

abbrev pub target_refers : RoostConfig → ScheduleTarget → Bool
target_refers c t =
    leads (has_person c) t.person
    && (leads (has_location c) t.location && leads (has_device c) t.mac)

has-map {ℓ} :
    {A : Type ℓ} (f : A → String) (id : String) (xs : List A)
    → has id (map f xs) ≡ any (λ x. f x == id) xs
unfolding has any
has-map f id [] = refl
has-map f id (x ∷ xs) = ground (arith, has-map f id xs, eq_iff (f x) id, eq_iff id (f x))

refers-leads :
    (ids : List String) (finds : String → Bool) (o : Option String)
    → ((id : String) → has id ids ≡ finds id)
    → refers ids (truthy o) ≡ leads finds o
refers-leads ids finds none h = refl
refers-leads ids finds (some id) h = elim (Bool-cases (id == "")) [
  | inl e ↦ rw e refl
  | inr e ↦ rw e (h id)
]

module _ (c : RoostConfig) where
  has-people_ids : (id : String) → has id (people_ids c) ≡ has_person c id
  unfolding people_ids has_person
  has-people_ids id = has-map (λ (p : PersonConfig). p.id) id c.people

  has-building_ids : (id : String) → has id (building_ids c) ≡ has_building c id
  unfolding building_ids has_building
  has-building_ids id = has-map (λ (b : BuildingConfig). b.id) id c.buildings

  has-location_ids : (id : String) → has id (location_ids c) ≡ has_location c id
  unfolding location_ids building_ids has_location
  has-location_ids id =
      has-append id (map (λ (b : BuildingConfig). b.id) c.buildings)
        (map (λ (r : RoomConfig). r.id) c.rooms)
      ∙ ap₂ ◌||◌ (has-map (λ (b : BuildingConfig). b.id) id c.buildings)
          (has-map (λ (r : RoomConfig). r.id) id c.rooms)

  has-gateway_ids : (id : String) → has id (gateway_ids c) ≡ has_gateway c id
  unfolding gateway_ids has_gateway
  has-gateway_ids id = has-map (λ (g : NetworkGateway). g.id) id c.network.gateways

any-never : (ds : List DeviceConfig) → false ≡ any (λ (d : DeviceConfig). false) ds
unfolding any
any-never [] = refl
any-never (d ∷ ds) = any-never ds

registered-gave :
    (c : RoostConfig) (r : Result String)
    → registered c r ≡ any (λ (d : DeviceConfig). gave r d.mac) c.devices
registered-gave c (err e) = any-never c.devices
registered-gave c (ok mac) = refl

names_device-leads :
    (c : RoostConfig) (o : Option String) → names_device c (truthy o) ≡ leads (has_device c) o
unfolding has_device
names_device-leads c none = refl
names_device-leads c (some text) = elim (Bool-cases (text == "")) [
  | inl e ↦ rw e refl
  | inr e ↦ rw e (registered-gave c (normalize_mac text))
]

passes-three :
    (a b d : Bool) → passes (require a >>= λ _. (require b >>= λ _. require d)) ≡ (a && (b && d))
passes-three true true true = refl
passes-three true true false = refl
passes-three true false d = refl
passes-three false b d = refl

-- A configuration passes its check exactly if every reference in it leads somewhere: those of users
-- to people, of rooms to buildings, of devices to people, to buildings or rooms and to gateways, and
-- of the schedules' targets to people, to buildings or rooms and to devices whose address is the
-- normalized one. A reference that is missing or empty leads nowhere and passes, but for a room's
-- building.
pub validate_cross_references-passes :
    (c : RoostConfig)
    → passes (validate_cross_references c) ≡ (
        all (λ (u : UserConfig). leads (has_person c) u.person) c.users
        && (all (λ (r : RoomConfig). has_building c r.building) c.rooms
            && (all (device_refers c) c.devices
                && all (λ (s : ScheduleConfig). all (target_refers c) s.targets) c.schedules)))
unfolding validate_cross_references check_user check_room check_device check_target check_schedule
validate_cross_references-passes c =
    let person : (o : Option String) → refers (people_ids c) (truthy o) ≡ leads (has_person c) o =
      λ o. refers-leads (people_ids c) (has_person c) o (has-people_ids c) in
    let location : (o : Option String)
        → refers (location_ids c) (truthy o) ≡ leads (has_location c) o =
      λ o. refers-leads (location_ids c) (has_location c) o (has-location_ids c) in
    let device : (d : DeviceConfig) → passes (check_device c d) ≡ device_refers c d = λ d.
      passes-three (refers (people_ids c) (truthy d.owner))
        (refers (location_ids c) (truthy d.location)) (refers (gateway_ids c) (truthy d.gateway))
      ∙ ap₂ ◌&&◌ (person d.owner) (
          ap₂ ◌&&◌ (location d.location)
            (refers-leads (gateway_ids c) (has_gateway c) d.gateway (has-gateway_ids c))) in
    let target : (t : ScheduleTarget) → passes (check_target c t) ≡ target_refers c t = λ t.
      passes-three (refers (people_ids c) (truthy t.person))
        (refers (location_ids c) (truthy t.location)) (names_device c (truthy t.mac))
      ∙ ap₂ ◌&&◌ (person t.person) (ap₂ ◌&&◌ (location t.location) (names_device-leads c t.mac)) in
    passes-then (check_all (check_user c) c.users) _
    ∙ ap₂ ◌&&◌ (passes-check_all (check_user c) _ c.users (λ u. passes-require _ ∙ person u.person))
        (passes-then (check_all (check_room c) c.rooms) _
          ∙ ap₂ ◌&&◌
              (passes-check_all (check_room c) _ c.rooms
                (λ r. passes-require _ ∙ has-building_ids c r.building))
              (passes-then (check_all (check_device c) c.devices) _
                ∙ ap₂ ◌&&◌ (passes-check_all (check_device c) (device_refers c) c.devices device) (
                    passes-check_all (check_schedule c) _ c.schedules
                      (λ s. passes-check_all (check_target c) (target_refers c) s.targets target))))

-- ===== src/Selectors.antt =====
-- The methods of RoostConfig in roostos-engine/src/roostos_engine/models/__init__.py: the check of
-- the references between sections, and the devices that a selector stands for.
pub mod References
use Prim.Native.String.{String}
use text.Mathlib.Text.{◌==◌}
use mathlib.Core.Bool.{Bool, true, false, not, ◌&&◌, ◌||◌}
use mathlib.Core.Option.{Option, none, some}
use mathlib.Core.List.{List, [], ◌∷◌, ◌++◌, map}
use roostos.Prelude.{any, keep, first, has, if◌then◌else◌}
use roostos.Prelude.Result.{Result, ok, err, ◌>>=◌}
use roostos.Mac.{normalize_mac}
use roostos.Models.{
  PersonConfig, BuildingConfig, RoomConfig, DeviceConfig, ScheduleTarget, ScheduleConfig,
  NetworkGateway, ZoneConfig, UserConfig, RoostConfig, truthy, is,
}

unfoldable pub people_ids : RoostConfig → List String
people_ids c = map (λ (p : PersonConfig). p.id) c.people

unfoldable pub building_ids : RoostConfig → List String
building_ids c = map (λ (b : BuildingConfig). b.id) c.buildings

unfoldable pub location_ids : RoostConfig → List String
location_ids c = building_ids c ++ map (λ (r : RoomConfig). r.id) c.rooms

unfoldable pub gateway_ids : RoostConfig → List String
gateway_ids c = map (λ (g : NetworkGateway). g.id) c.network.gateways

-- `if not test: raise ValueError`; the message, which names the section and the ID, is left out
abbrev pub require : Bool → Result (Unit {0})
require true = ok tt
require false = err "references a non-existent ID"

-- a reference that may be missing or empty
abbrev pub refers : List String → Option String → Bool
refers ids none = true
refers ids (some id) = has id ids

unfoldable pub check_user : RoostConfig → UserConfig → Result (Unit {0})
check_user c u = require (refers (people_ids c) (truthy u.person))

unfoldable pub check_room : RoostConfig → RoomConfig → Result (Unit {0})
check_room c r = require (has r.building (building_ids c))

unfoldable pub check_device : RoostConfig → DeviceConfig → Result (Unit {0})
check_device c d = require (refers (people_ids c) (truthy d.owner)) >>= λ _.
    (require (refers (location_ids c) (truthy d.location)) >>= λ _.
    require (refers (gateway_ids c) (truthy d.gateway)))

-- the `try` around the address of a target
abbrev pub registered : RoostConfig → Result String → Bool
registered c (err e) = false
registered c (ok mac) = any (λ (d : DeviceConfig). d.mac == mac) c.devices

abbrev pub names_device : RoostConfig → Option String → Bool
names_device c none = true
names_device c (some mac) = registered c (normalize_mac mac)

unfoldable pub check_target : RoostConfig → ScheduleTarget → Result (Unit {0})
check_target c t = require (refers (people_ids c) (truthy t.person)) >>= λ _.
    (require (refers (location_ids c) (truthy t.location)) >>= λ _.
    require (names_device c (truthy t.mac)))

-- a loop whose body may raise
unfoldable pub check_all {ℓ} : {A : Type ℓ} → (A → Result (Unit {0})) → List A → Result (Unit {0})
check_all check [] = ok tt
check_all check (x ∷ xs) = check x >>= λ _. check_all check xs

unfoldable pub check_schedule : RoostConfig → ScheduleConfig → Result (Unit {0})
check_schedule c s = check_all (check_target c) s.targets

unfoldable pub validate_cross_references : RoostConfig → Result (Unit {0})
validate_cross_references c = check_all (check_user c) c.users >>= λ _.
    (check_all (check_room c) c.rooms >>= λ _.
    (check_all (check_device c) c.devices >>= λ _. check_all (check_schedule c) c.schedules))

unfoldable pub get_building_rooms : RoostConfig → String → List String
get_building_rooms c building_id =
    map (λ (r : RoomConfig). r.id) (keep (λ (r : RoomConfig). r.building == building_id) c.rooms)

abbrev located_in : List String → Option String → Bool
located_in ids none = false
located_in ids (some id) = has id ids

-- the devices that pass a test
unfoldable pub macs_of : (DeviceConfig → Bool) → RoostConfig → List String
macs_of p c = map (λ (d : DeviceConfig). d.mac) (keep p c.devices)

unfoldable pub resolve_location_macs : RoostConfig → String → List String
resolve_location_macs c location_id =
    let target_locations =
      location_id
      ∷ (if has location_id (building_ids c) then get_building_rooms c location_id else []) in
    macs_of (λ (d : DeviceConfig). located_in target_locations d.location) c

unfoldable pub resolve_person_macs : RoostConfig → String → List String
resolve_person_macs c person_id = macs_of (λ (d : DeviceConfig). is d.owner person_id) c

unfoldable pub resolve_tag_macs : RoostConfig → String → List String
resolve_tag_macs c tag = macs_of (λ (d : DeviceConfig). has tag d.tags) c

abbrev zone_macs : RoostConfig → Option ZoneConfig → List String
zone_macs c none = []
zone_macs c (some z) = macs_of (λ (d : DeviceConfig). located_in z.interfaces d.location) c

abbrev by_zone : RoostConfig → Option String → Result (List String)
by_zone c none = ok []
by_zone c (some zone_id) =
    ok (zone_macs c (first (λ (z : ZoneConfig). z.id == zone_id) c.network.zones))

abbrev select_tag : RoostConfig → Option String → Option String → Result (List String)
select_tag c (some tag) zone_id = ok (resolve_tag_macs c tag)
select_tag c none zone_id = by_zone c zone_id

abbrev select_location :
    RoostConfig → Option String → Option String → Option String → Result (List String)
select_location c (some location) tag zone_id = ok (resolve_location_macs c location)
select_location c none tag zone_id = select_tag c tag zone_id

abbrev select_person :
    RoostConfig
    → Option String
    → Option String
    → Option String
    → Option String
    → Result (List String)
select_person c (some person) location tag zone_id = ok (resolve_person_macs c person)
select_person c none location tag zone_id = select_location c location tag zone_id

abbrev select_mac : RoostConfig → Option String → ScheduleTarget → Result (List String)
select_mac c (some mac) t = normalize_mac mac >>= λ m. ok (m ∷ [])
select_mac c none t =
    select_person c (truthy t.person) (truthy t.location) (truthy t.tag) (truthy t.zone)

unfoldable pub resolve_selector_macs : RoostConfig → ScheduleTarget → Result (List String)
resolve_selector_macs c t = select_mac c (truthy t.mac) t

-- ===== src/Tests/Network.antt =====
-- Tests of the configuration and of the firewall.
use Prim.Native.Nat.{◌+◌, ◌≤◌}
use Prim.Native.String.{String}
use mathlib.Core.Path.{◌≡◌, refl}
use mathlib.Core.Bool.{true, false, ◌&&◌}
use mathlib.Core.Option.{some}
use mathlib.Core.List.{[]}
use roostos.Prelude.{any, all, has, is_some}
use roostos.Prelude.Dict
use roostos.Firewall
use roostos.Firewall.{gateway_marks, get_wan_interface}
use roostos.Firewall.Ruleset.{ruleset_lines}
use roostos.Firewall.Marks.{gateway_marks-single}
use roostos.Firewall.Balance.{tally, opens, closes, ruleset_lines-unbalanced}
use roostos.Firewall.Forwarding.{policy_allows}
use roostos.Models.{UserConfig, RoomConfig, ScheduleConfig}
use roostos.Selectors.{validate_cross_references}
use roostos.Selectors.References.{
  passes, leads, has_person, has_building, device_refers, target_refers,
  validate_cross_references-passes,
}
use roostos.Tests.Household.{home}

vpn_mark : Dict.get "vpn" (gateway_marks home) ≡ some 100
unfolding gateway_marks Firewall.assign_marks Dict.get Dict.put
vpn_mark = refl

gateway_marks-single_example : (100 ≤ 100) × ◌≡◌ {A = String} "vpn" "vpn"
gateway_marks-single_example = gateway_marks-single home "vpn" "vpn" 100 vpn_mark vpn_mark

-- the guests are not let into the LAN

guests_kept_out : policy_allows home "wan0" [] "guest" "br-lan" ≡ false
unfolding roostos.Prelude.has Firewall.Ruleset.lan_ifs Firewall.Ruleset.guest_ifs
    roostos.Prelude.keep
guests_kept_out = refl

ruleset_lines-unbalanced_example :
    tally closes (ruleset_lines home true) ≡ tally opens (ruleset_lines home true) + 1
ruleset_lines-unbalanced_example = ruleset_lines-unbalanced home true

validate_cross_references-passes_example : passes (validate_cross_references home) ≡ (
    all (λ (u : UserConfig). leads (has_person home) u.person) home.users
    && (all (λ (r : RoomConfig). has_building home r.building) home.rooms
        && (all (device_refers home) home.devices
            && all (λ (s : ScheduleConfig). all (target_refers home) s.targets) home.schedules)))
validate_cross_references-passes_example = validate_cross_references-passes home

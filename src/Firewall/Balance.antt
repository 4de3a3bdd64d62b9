-- ===== src/Firewall/Balance.antt =====
-- The blocks that a ruleset opens and closes.
use Prim.Native.Nat.{ℕ, ◌+◌}
use Prim.Native.String.{String}
use text.Mathlib.Text.{◌==◌}
use mathlib.Core.Path.{◌≡◌, refl}
use mathlib.Core.Logic.{inl, inr}
use mathlib.Core.Bool.{Bool, true, false}
use mathlib.Core.Option.{Option, none, some}
use mathlib.Core.List.{List, [], ◌∷◌, ◌++◌, map}
use native.Mathlib.Omega.{arith}
use roostos.Prelude.{has, flat, Bool-cases, if◌then◌else◌}
use roostos.Prelude.Dict
use roostos.Prelude.Dict.{Dict}
use roostos.Prelude.Text.{last_is}
use roostos.Models.{
  ZoneConfig, InputRuleConfig, PortForwardConfig, DeviceConfig, NetworkBridge, NetworkVlan,
  NetworkGateway, RoostConfig, truthy,
}
use roostos.Firewall.{
  Line, raw, redirect, dns_dnat, masquerade, get_wan_interface, is_local_dns_active, gateway_marks,
}
use roostos.Firewall.Ruleset.{
  address, first_or, forwarders_of, ruleset_lines, header_lines, local_lines, all_local_ifs,
  rule_lines, forward_header, evasion_lines, policy_lines, nat_header, dns_lines, device_mark,
  mark_line, mark_lines, port_forward_lines, nat_postrouting, vpn_masquerades, footer_lines,
  zone_lines, zone_body, default_lines, dest_lines, to_zone, flat_lines, zone_map, lan_ifs,
  guest_ifs,
}

-- A fixed line opens a block by a last `{`; a line with data in it is a statement.
abbrev pub opens : Line → ℕ
opens (raw s) = if last_is 123 s then 1 else 0
opens _ = 0

-- A fixed line closes a block by a last `}`.
abbrev pub closes : Line → ℕ
closes (raw s) = if last_is 125 s then 1 else 0
closes _ = 0

-- How many of the lines count.
unfoldable pub tally : (Line → ℕ) → List Line → ℕ
tally p [] = 0
tally p (l ∷ ls) = p l + tally p ls

tally-append : (p : Line → ℕ) (xs ys : List Line) → tally p (xs ++ ys) ≡ tally p xs + tally p ys
unfolding tally
tally-append p [] ys = omega arith
tally-append p (x ∷ xs) ys = omega (arith, tally-append p xs ys)

-- Lines that neither open nor close a block.
record ArePlain (ls : List Line) : Type 0 where
  none_opens : tally opens ls ≡ 0
  none_closes : tally closes ls ≡ 0

ArePlain-append : (xs ys : List Line) → ArePlain xs → ArePlain ys → ArePlain (xs ++ ys)
ArePlain-append xs ys v w = record {
  none_opens = omega (arith, tally-append opens xs ys, v.none_opens, w.none_opens);
  none_closes = omega (arith, tally-append closes xs ys, v.none_closes, w.none_closes);
}

ArePlain-nil : ArePlain []
unfolding tally
ArePlain-nil = record { none_opens = refl; none_closes = refl }

ArePlain-cons :
    (l : Line) (ls : List Line) → opens l ≡ 0 → closes l ≡ 0 → ArePlain ls → ArePlain (l ∷ ls)
unfolding tally
ArePlain-cons l ls h k v = record {
  none_opens = omega (arith, h, v.none_opens);
  none_closes = omega (arith, k, v.none_closes);
}

ArePlain-flat {ℓ} :
    {A : Type ℓ} (f : A → List Line) (xs : List A)
    → ((x : A) → ArePlain (f x))
    → ArePlain (flat f xs)
unfolding flat
ArePlain-flat f [] h = ArePlain-nil
ArePlain-flat f (x ∷ xs) h = ArePlain-append (f x) _ (h x) (ArePlain-flat f xs h)

ArePlain-map {ℓ} :
    {A : Type ℓ} (f : A → Line) (xs : List A)
    → ((x : A) → opens (f x) ≡ 0)
    → ((x : A) → closes (f x) ≡ 0)
    → ArePlain (map f xs)
ArePlain-map f [] h k = ArePlain-nil
ArePlain-map f (x ∷ xs) h k = ArePlain-cons (f x) _ (h x) (k x) (ArePlain-map f xs h k)

local_lines-ArePlain : (i : String) → ArePlain (local_lines i)
unfolding local_lines has tally
local_lines-ArePlain i = record { none_opens = refl; none_closes = refl }

rule_lines-ArePlain : (r : InputRuleConfig) → ArePlain (rule_lines r)
unfolding rule_lines
rule_lines-ArePlain r = elim (Bool-cases r.enabled) [
  | inl e ↦ rw e (ArePlain-map _ _ (λ _. refl) (λ _. refl))
  | inr e ↦ rw e ArePlain-nil
]

evasion_lines-ArePlain : (config : RoostConfig) → ArePlain (evasion_lines config)
unfolding evasion_lines tally last_is
evasion_lines-ArePlain config = record { none_opens = ground arith; none_closes = ground arith }

default_lines-ArePlain :
    (wan : String) (locals : List String) (isolate : Bool) (i : String)
    → ArePlain (default_lines wan locals isolate i)
unfolding default_lines
default_lines-ArePlain wan locals true i = ArePlain-cons _ [] refl refl ArePlain-nil
default_lines-ArePlain wan locals false i =
    ArePlain-cons _ _ refl refl (ArePlain-map _ _ (λ _. refl) (λ _. refl))

to_zone-ArePlain : (is : List String) (z : Option ZoneConfig) → ArePlain (to_zone is z)
to_zone-ArePlain is none = ArePlain-nil
to_zone-ArePlain is (some z) =
    ArePlain-flat _ is (λ i. ArePlain-map _ z.interfaces (λ _. refl) (λ _. refl))

dest_lines-ArePlain :
    (wan : String) (zones : Dict ZoneConfig) (is : List String) (d : String)
    → ArePlain (dest_lines wan zones is d)
unfolding dest_lines
dest_lines-ArePlain wan zones is d = elim (Bool-cases (d == "wan")) [
  | inl e ↦ rw e (ArePlain-map _ is (λ _. refl) (λ _. refl))
  | inr e ↦ rw e (to_zone-ArePlain is (Dict.get d zones))
]

zone_body-ArePlain :
    (wan : String) (locals : List String) (zones : Dict ZoneConfig) (z : ZoneConfig)
    (ds : List String)
    → ArePlain (zone_body wan locals zones z ds)
zone_body-ArePlain wan locals zones z [] =
    ArePlain-flat _ z.interfaces (default_lines-ArePlain wan locals z.isolate)
zone_body-ArePlain wan locals zones z (d ∷ ds) =
    ArePlain-flat _ (d ∷ ds) (dest_lines-ArePlain wan zones z.interfaces)

zone_lines-ArePlain :
    (wan : String) (locals : List String) (zones : Dict ZoneConfig) (z : ZoneConfig)
    → ArePlain (zone_lines wan locals zones z)
unfolding zone_lines
zone_lines-ArePlain wan locals zones z = elim (Bool-cases (z.id == "wan")) [
  | inl e ↦ rw e ArePlain-nil
  | inr e ↦ rw e (zone_body-ArePlain wan locals zones z z.allow_zones)
]

flat_lines-ArePlain :
    (wan : String) (lans guests : List String) → ArePlain (flat_lines wan lans guests)
unfolding flat_lines
flat_lines-ArePlain wan lans guests =
    ArePlain-append _ []
      (ArePlain-append _ _
        (ArePlain-flat _ lans (λ lan.
          ArePlain-append _ []
            (ArePlain-cons _ _ refl refl (ArePlain-map _ guests (λ _. refl) (λ _. refl)))
            ArePlain-nil))
        (ArePlain-map _ guests (λ _. refl) (λ _. refl)))
      ArePlain-nil

policy_lines-ArePlain :
    (config : RoostConfig) (wan : String) (zones : List ZoneConfig)
    → ArePlain (policy_lines config wan zones)
policy_lines-ArePlain config wan [] = flat_lines-ArePlain wan (lan_ifs config) (guest_ifs config)
policy_lines-ArePlain config wan (z ∷ zones) =
    ArePlain-flat _ (z ∷ zones)
      (zone_lines-ArePlain wan (all_local_ifs config) (zone_map (z ∷ zones) []))

redirects-ArePlain : (x : String) → ArePlain (redirect x "tcp" ∷ redirect x "udp" ∷ [])
unfolding tally
redirects-ArePlain x = record { none_opens = refl; none_closes = refl }

dnats-ArePlain :
    (x a dns : String) → ArePlain (dns_dnat x a "tcp" dns ∷ dns_dnat x a "udp" dns ∷ [])
unfolding tally
dnats-ArePlain x a dns = record { none_opens = refl; none_closes = refl }

dns_lines-ArePlain : (config : RoostConfig) (active : Bool) → ArePlain (dns_lines config active)
unfolding dns_lines
dns_lines-ArePlain config true =
    ArePlain-append _ _
      (ArePlain-append _ _ (ArePlain-flat _ _ redirects-ArePlain)
        (ArePlain-flat _ _ redirects-ArePlain))
      (ArePlain-map _ _ (λ _. refl) (λ _. refl))
dns_lines-ArePlain config false =
    let dns : String = first_or (forwarders_of config.system.dns) "1.1.1.1" in
    ArePlain-append _ _
      (ArePlain-flat _ _ (λ (b : NetworkBridge). dnats-ArePlain b.name (address b.ip) dns))
      (ArePlain-flat _ _ (λ (v : NetworkVlan). dnats-ArePlain v.name (address v.ip) dns))

mark_lines-ArePlain :
    (marks : Dict ℕ) (devices : List DeviceConfig) → ArePlain (mark_lines marks devices)
unfolding mark_lines
mark_lines-ArePlain marks devices =
    ArePlain-flat _ devices (λ (d : DeviceConfig). each d (truthy d.gateway))
  where
    line : (mac : String) (m : Option ℕ) → ArePlain (mark_line mac m)
    line mac none = ArePlain-nil
    line mac (some n) = ArePlain-cons _ [] refl refl ArePlain-nil

    each : (d : DeviceConfig) (g : Option String) → ArePlain (device_mark marks d.mac g)
    each d none = ArePlain-nil
    each d (some g) = line d.mac (Dict.get g marks)

port_forward_lines-ArePlain :
    (wan : String) (pfs : List PortForwardConfig) → ArePlain (port_forward_lines wan pfs)
unfolding port_forward_lines
port_forward_lines-ArePlain wan pfs = ArePlain-map _ pfs (λ _. refl) (λ _. refl)

masquerades-ArePlain :
    (wan : String) (gws : List NetworkGateway) → ArePlain (masquerade wan ∷ vpn_masquerades gws)
unfolding vpn_masquerades
masquerades-ArePlain wan gws =
    ArePlain-cons _ _ refl refl (ArePlain-map _ _ (λ _. refl) (λ _. refl))

-- Lines that open and close so many blocks.
record Blocks (o c : ℕ) (ls : List Line) : Type 0 where
  opened : tally opens ls ≡ o
  closed : tally closes ls ≡ c

Blocks-plain : (o c : ℕ) (xs ys : List Line) → ArePlain xs → Blocks o c ys → Blocks o c (xs ++ ys)
Blocks-plain o c xs ys v w = record {
  opened = omega (arith, tally-append opens xs ys, v.none_opens, w.opened);
  closed = omega (arith, tally-append closes xs ys, v.none_closes, w.closed);
}

Blocks-append :
    (a b o c : ℕ) (xs ys : List Line)
    → Blocks a b xs
    → Blocks o c ys
    → Blocks (a + o) (b + c) (xs ++ ys)
Blocks-append a b o c xs ys v w = record {
  opened = omega (arith, tally-append opens xs ys, v.opened, w.opened);
  closed = omega (arith, tally-append closes xs ys, v.closed, w.closed);
}

header_lines-Blocks : (config : RoostConfig) → Blocks 8 7 (header_lines config)
unfolding header_lines tally last_is
header_lines-Blocks config = record { opened = refl; closed = refl }

forward_header-Blocks : (wan : String) → Blocks 1 1 (forward_header wan)
unfolding forward_header tally last_is
forward_header-Blocks wan = record { opened = refl; closed = refl }

nat_header-Blocks : Blocks 3 3 nat_header
unfolding nat_header tally last_is
nat_header-Blocks = record { opened = refl; closed = refl }

nat_postrouting-Blocks : Blocks 1 1 nat_postrouting
unfolding nat_postrouting tally last_is
nat_postrouting-Blocks = record { opened = refl; closed = refl }

footer_lines-Blocks : Blocks 2 4 footer_lines
unfolding footer_lines tally last_is
footer_lines-Blocks = record { opened = refl; closed = refl }

ruleset_lines-Blocks :
    (config : RoostConfig) (probe : Bool) → Blocks 15 16 (ruleset_lines config probe)
unfolding ruleset_lines
ruleset_lines-Blocks config probe =
    let wan = get_wan_interface config in
    Blocks-append 8 7 7 9 _ _ (header_lines-Blocks config) (
      Blocks-plain 7 9 _ _ (ArePlain-flat _ (all_local_ifs config) local_lines-ArePlain) (
        Blocks-plain 7 9 _ _ (ArePlain-flat _ config.firewall.rules rule_lines-ArePlain) (
          Blocks-append 1 1 6 8 _ _ (forward_header-Blocks wan) (
            Blocks-plain 6 8 _ _ (evasion_lines-ArePlain config) (
              Blocks-plain 6 8 _ _ (policy_lines-ArePlain config wan config.network.zones) (
                Blocks-append 3 3 3 5 _ _ nat_header-Blocks (
                  Blocks-plain 3 5 _ _
                    (dns_lines-ArePlain config (is_local_dns_active config probe))
                    (Blocks-plain 3 5 _ _
                      (mark_lines-ArePlain (gateway_marks config) config.devices)
                      (Blocks-plain 3 5 _ _
                        (port_forward_lines-ArePlain wan config.firewall.port_forwards)
                        (Blocks-append 1 1 2 4 _ _ nat_postrouting-Blocks (
                          Blocks-plain 2 4 _ _ (masquerades-ArePlain wan config.network.gateways)
                            footer_lines-Blocks)))))))))))

-- Every ruleset closes one block more than it opens, whatever the configuration.
pub ruleset_lines-unbalanced :
    (config : RoostConfig) (probe : Bool)
    → tally closes (ruleset_lines config probe) ≡ tally opens (ruleset_lines config probe) + 1
ruleset_lines-unbalanced config probe =
    let v = ruleset_lines-Blocks config probe in rw (v.opened, v.closed) refl

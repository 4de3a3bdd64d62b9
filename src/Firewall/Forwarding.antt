-- ===== src/Firewall/Forwarding.antt =====
-- Which interfaces a ruleset lets forward to which.
use Prim.Native.Nat.{ℕ}
use Prim.Native.String.{String}
use text.Mathlib.Text.{◌==◌}
use text.Mathlib.TextEquality.{eq_iff}
use mathlib.Core.Path.{◌≡◌, refl, ap₂, ◌∙◌}
use mathlib.Core.Logic.{inl, inr}
use mathlib.Core.Bool.{Bool, true, false, not, ◌&&◌, ◌||◌}
use mathlib.Core.Option.{Option, none, some}
use mathlib.Core.List.{List, [], ◌∷◌, ◌++◌, map}
use native.Mathlib.Omega.{arith}
use roostos.Prelude.{any, has, keep, flat, Bool-cases, if◌then◌else◌}
use roostos.Prelude.Dict
use roostos.Prelude.Dict.{Dict}
use roostos.Models.{
  ZoneConfig, InputRuleConfig, PortForwardConfig, DeviceConfig, NetworkBridge, NetworkVlan,
  NetworkGateway, RoostConfig, truthy,
}
use roostos.Firewall.{
  Line, forward, redirect, dns_dnat, masquerade, get_wan_interface, is_local_dns_active,
  gateway_marks,
}
use roostos.Firewall.Ruleset.{
  address, first_or, forwarders_of, ruleset_lines, header_lines, local_lines, all_local_ifs,
  rule_lines, forward_header, evasion_lines, policy_lines, nat_header, dns_lines, device_mark,
  mark_line, mark_lines, port_forward_lines, nat_postrouting, vpn_masquerades, footer_lines,
  zone_lines, zone_body, default_lines, dest_lines, to_zone, flat_lines, zone_map, lan_ifs,
  guest_ifs,
}

-- Whether a line accepts what goes from the one interface to the other.
abbrev pub is_forward : String → String → Line → Bool
is_forward i o (forward a b) = a == i && b == o
is_forward i o _ = false

unfoldable pub forwards : String → String → List Line → Bool
forwards i o [] = false
forwards i o (l ∷ ls) = is_forward i o l || forwards i o ls

module _ (i o : String) where
  forwards-append :
      (xs ys : List Line) → forwards i o (xs ++ ys) ≡ (forwards i o xs || forwards i o ys)
  unfolding forwards
  forwards-append [] ys = refl
  forwards-append (x ∷ xs) ys = ground (arith, forwards-append xs ys)

  forwards-to :
      (a : String) (os : List String) → forwards i o (map (forward a) os) ≡ (a == i && has o os)
  unfolding forwards has
  forwards-to a [] = ground arith
  forwards-to a (x ∷ os) = ground (arith, forwards-to a os)

  forwards-from :
      (b : String) (is : List String)
      → forwards i o (map (λ a. forward a b) is) ≡ (has i is && b == o)
  unfolding forwards has
  forwards-from b [] = ground arith
  forwards-from b (x ∷ is) = ground (arith, forwards-from b is)

  forwards-flat {ℓ} :
      {A : Type ℓ} (f : A → List Line) (xs : List A)
      → forwards i o (flat f xs) ≡ any (λ x. forwards i o (f x)) xs
  unfolding forwards flat any
  forwards-flat f [] = refl
  forwards-flat f (x ∷ xs) = ground (arith, forwards-append (f x) (flat f xs), forwards-flat f xs)

  forwards-none {ℓ} :
      {A : Type ℓ} (f : A → List Line) (xs : List A)
      → ((x : A) → forwards i o (f x) ≡ false)
      → forwards i o (flat f xs) ≡ false
  unfolding flat
  forwards-none f [] h = unfold forwards in refl
  forwards-none f (x ∷ xs) h =
      ground (arith, forwards-append (f x) (flat f xs), h x, forwards-none f xs h)

  forwards-map {ℓ} :
      {A : Type ℓ} (f : A → Line) (xs : List A)
      → ((x : A) → is_forward i o (f x) ≡ false)
      → forwards i o (map f xs) ≡ false
  unfolding forwards
  forwards-map f [] h = refl
  forwards-map f (x ∷ xs) h = ground (arith, h x, forwards-map f xs h)

  has-keep :
      (a : String) (xs : List String)
      → has o (keep (λ x. not (x == a)) xs) ≡ (has o xs && not (o == a))
  unfolding has keep
  has-keep a [] = refl
  has-keep a (x ∷ xs) = ground (arith, has-keep a xs, eq_iff x a, eq_iff x o, eq_iff o a)

-- What a source interface is allowed by a zone that lists no zones.
abbrev pub default_allows : String → List String → Bool → String → String → Bool
default_allows wan locals isolate i o = wan == o || (not isolate && (has o locals && not (o == i)))

abbrev pub zone_has : String → Option ZoneConfig → Bool
zone_has o none = false
zone_has o (some z) = has o z.interfaces

-- Whether an interface lies in one of the zones that are named.
unfoldable pub dests_have : String → Dict ZoneConfig → String → List String → Bool
dests_have wan zones o [] = false
dests_have wan zones o (d ∷ ds) =
    (if d == "wan" then wan == o else zone_has o (Dict.get d zones)) || dests_have wan zones o ds

abbrev pub body_allows :
    String → List String → Dict ZoneConfig → Bool → List String → String → String → Bool
body_allows wan locals zones isolate [] i o = default_allows wan locals isolate i o
body_allows wan locals zones isolate (d ∷ ds) i o = dests_have wan zones o (d ∷ ds)

-- What a zone allows the interfaces in it.
unfoldable pub zone_allows :
    String → List String → Dict ZoneConfig → String → String → ZoneConfig → Bool
zone_allows wan locals zones i o z =
    not (z.id == "wan")
    && (has i z.interfaces && body_allows wan locals zones z.isolate z.allow_zones i o)

-- The forwarding policy of a configuration, without the order and the text of its lines: with zones,
-- what one of them allows; with none, the LAN to the WAN and to the guests, and the guests to the WAN.
abbrev pub policy_allows : RoostConfig → String → List ZoneConfig → String → String → Bool
policy_allows config wan [] i o =
    (has i (lan_ifs config) && (wan == o || has o (guest_ifs config)))
    || (has i (guest_ifs config) && wan == o)
policy_allows config wan (z ∷ zones) i o =
    any (zone_allows wan (all_local_ifs config) (zone_map (z ∷ zones) []) i o) (z ∷ zones)

module _ (i o : String) where
  default_lines-each :
      (wan : String) (locals : List String) (isolate : Bool) (a : String)
      → forwards i o (default_lines wan locals isolate a)
        ≡ (a == i && default_allows wan locals isolate a o)
  unfolding default_lines forwards
  default_lines-each wan locals true a = ground arith
  default_lines-each wan locals false a =
      ground (arith, forwards-to i o a (keep (λ x. not (x == a)) locals), has-keep i o a locals)

  default_lines-flat :
      (wan : String) (locals : List String) (isolate : Bool) (is : List String)
      → forwards i o (flat (default_lines wan locals isolate) is)
        ≡ (has i is && default_allows wan locals isolate i o)
  unfolding flat has forwards
  default_lines-flat wan locals isolate [] = refl
  default_lines-flat wan locals isolate (a ∷ is) = ground (
    arith,
    forwards-append i o (default_lines wan locals isolate a)
        (flat (default_lines wan locals isolate) is),
    default_lines-each wan locals isolate a,
    default_lines-flat wan locals isolate is,
    eq_iff a i,
  )

  to_zone-forwards :
      (is : List String) (z : Option ZoneConfig)
      → forwards i o (to_zone is z) ≡ (has i is && zone_has o z)
  unfolding has forwards flat
  to_zone-forwards is none = ground arith
  to_zone-forwards [] (some z) = refl
  to_zone-forwards (a ∷ is) (some z) =
      unfold flat in
      ground (
        arith,
        forwards-append i o (map (forward a) z.interfaces)
            (flat (λ x. map (forward x) z.interfaces) is),
        forwards-to i o a z.interfaces,
        to_zone-forwards is (some z),
      )

  dest_lines-flat :
      (wan : String) (zones : Dict ZoneConfig) (is ds : List String)
      → forwards i o (flat (dest_lines wan zones is) ds) ≡ (has i is && dests_have wan zones o ds)
  unfolding flat dests_have forwards dest_lines
  dest_lines-flat wan zones is [] = ground arith
  dest_lines-flat wan zones is (d ∷ ds) =
      unfold dest_lines in
      ground (
        arith,
        forwards-append i o (dest_lines wan zones is d) (flat (dest_lines wan zones is) ds),
        forwards-from i o wan is,
        to_zone-forwards is (Dict.get d zones),
        dest_lines-flat wan zones is ds,
      )

  zone_lines-each :
      (wan : String) (locals : List String) (zones : Dict ZoneConfig) (z : ZoneConfig)
      → forwards i o (zone_lines wan locals zones z) ≡ zone_allows wan locals zones i o z
  unfolding zone_lines zone_allows
  zone_lines-each wan locals zones z = elim (Bool-cases (z.id == "wan")) [
    | inl e ↦ rw e (unfold forwards in refl)
    | inr e ↦ rw e (body z.allow_zones)
  ]
    where
      body :
          (ds : List String)
          → forwards i o (zone_body wan locals zones z ds)
            ≡ (has i z.interfaces && body_allows wan locals zones z.isolate ds i o)
      body [] = default_lines-flat wan locals z.isolate z.interfaces
      body (d ∷ ds) = dest_lines-flat wan zones z.interfaces (d ∷ ds)

  any-ap {ℓ} :
      {A : Type ℓ} (p q : A → Bool) (xs : List A) → ((x : A) → p x ≡ q x) → any p xs ≡ any q xs
  unfolding any
  any-ap p q [] h = refl
  any-ap p q (x ∷ xs) h = ap₂ ◌||◌ (h x) (any-ap p q xs h)

  lan_lines-flat :
      (wan : String) (guests lans : List String)
      → forwards i o (flat (λ lan. forward lan wan ∷ map (forward lan) guests ++ []) lans)
        ≡ (has i lans && (wan == o || has o guests))
  unfolding flat has forwards
  lan_lines-flat wan guests [] = refl
  lan_lines-flat wan guests (a ∷ lans) = ground (
    arith,
    forwards-append i o (forward a wan ∷ map (forward a) guests ++ [])
        (flat (λ lan. forward lan wan ∷ map (forward lan) guests ++ []) lans),
    forwards-append i o (map (forward a) guests) [],
    forwards-to i o a guests,
    lan_lines-flat wan guests lans,
    eq_iff a i,
  )

  forwards-append_nil : (xs : List Line) → forwards i o (xs ++ []) ≡ forwards i o xs
  forwards-append_nil xs = unfold forwards in ground (arith, forwards-append i o xs [])

  flat_lines-forwards :
      (wan : String) (lans guests : List String)
      → forwards i o (flat_lines wan lans guests)
        ≡ ((has i lans && (wan == o || has o guests)) || (has i guests && wan == o))
  unfolding flat_lines
  flat_lines-forwards wan lans guests =
      let ahead : List Line = flat (λ lan. forward lan wan ∷ map (forward lan) guests ++ []) lans in
      let behind : List Line = map (λ a. forward a wan) guests in
      forwards-append_nil (ahead ++ behind)
      ∙ forwards-append i o ahead behind
      ∙ ap₂ ◌||◌ (lan_lines-flat wan guests lans) (forwards-from i o wan guests)

  policy_lines-forwards :
      (config : RoostConfig) (wan : String) (zones : List ZoneConfig)
      → forwards i o (policy_lines config wan zones) ≡ policy_allows config wan zones i o
  policy_lines-forwards config wan [] = flat_lines-forwards wan (lan_ifs config) (guest_ifs config)
  policy_lines-forwards config wan (z ∷ zones) =
      forwards-flat i o (zone_lines wan (all_local_ifs config) (zone_map (z ∷ zones) []))
        (z ∷ zones)
      ∙ any-ap _ _ (z ∷ zones)
          (zone_lines-each wan (all_local_ifs config) (zone_map (z ∷ zones) []))

  local_lines-none : (x : String) → forwards i o (local_lines x) ≡ false
  unfolding local_lines forwards has
  local_lines-none x = refl

  rule_lines-none : (r : InputRuleConfig) → forwards i o (rule_lines r) ≡ false
  unfolding rule_lines
  rule_lines-none r = elim (Bool-cases r.enabled) [
    | inl e ↦ rw e (forwards-map i o _ _ (λ _. refl))
    | inr e ↦ rw e (unfold forwards in refl)
  ]

  evasion_lines-none : (config : RoostConfig) → forwards i o (evasion_lines config) ≡ false
  unfolding evasion_lines forwards
  evasion_lines-none config = ground arith

  device_mark-none :
      (marks : Dict ℕ) (d : DeviceConfig)
      → forwards i o (device_mark marks d.mac (truthy d.gateway)) ≡ false
  device_mark-none marks d = each (truthy d.gateway)
    where
      line : (m : Option ℕ) → forwards i o (mark_line d.mac m) ≡ false
      line none = unfold forwards in refl
      line (some n) = unfold forwards in refl

      each : (g : Option String) → forwards i o (device_mark marks d.mac g) ≡ false
      each none = unfold forwards in refl
      each (some g) = line (Dict.get g marks)

  ahead : (xs ys : List Line) → forwards i o xs ≡ false → forwards i o (xs ++ ys) ≡ forwards i o ys
  ahead xs ys h = ground (arith, forwards-append i o xs ys)

  behind : (xs ys : List Line) → forwards i o ys ≡ false → forwards i o (xs ++ ys) ≡ forwards i o xs
  behind xs ys h = ground (arith, forwards-append i o xs ys)

  both :
      (xs ys : List Line)
      → forwards i o xs ≡ false
      → forwards i o ys ≡ false
      → forwards i o (xs ++ ys) ≡ false
  both xs ys h k = ahead xs ys h ∙ k

  mark_lines-none :
      (marks : Dict ℕ) (devices : List DeviceConfig)
      → forwards i o (mark_lines marks devices) ≡ false
  unfolding mark_lines
  mark_lines-none marks devices = forwards-none i o _ devices (device_mark-none marks)

  port_forward_lines-none :
      (wan : String) (pfs : List PortForwardConfig)
      → forwards i o (port_forward_lines wan pfs) ≡ false
  unfolding port_forward_lines
  port_forward_lines-none wan pfs = forwards-map i o _ pfs (λ _. refl)

  masquerades-none :
      (wan : String) (gws : List NetworkGateway)
      → forwards i o (masquerade wan ∷ vpn_masquerades gws) ≡ false
  unfolding vpn_masquerades
  masquerades-none wan gws =
      unfold forwards in
      ground (
        arith,
        forwards-map i o (λ (gw : NetworkGateway). masquerade gw.interface)
            (keep (λ (gw : NetworkGateway). not (gw.id == "default")) gws) (λ _. refl),
      )

  redirects-none : (x : String) → forwards i o (redirect x "tcp" ∷ redirect x "udp" ∷ []) ≡ false
  unfolding forwards
  redirects-none x = refl

  dnats-none :
      (x a dns : String)
      → forwards i o (dns_dnat x a "tcp" dns ∷ dns_dnat x a "udp" dns ∷ []) ≡ false
  unfolding forwards
  dnats-none x a dns = refl

  dns_lines-none :
      (config : RoostConfig) (active : Bool) → forwards i o (dns_lines config active) ≡ false
  unfolding dns_lines
  dns_lines-none config true =
      both _ _
        (both _ _ (forwards-none i o _ _ redirects-none) (forwards-none i o _ _ redirects-none))
        (forwards-map i o _ _ (λ _. refl))
  dns_lines-none config false =
      both _ _
        (forwards-none i o _ _ (λ (b : NetworkBridge).
          dnats-none b.name (address b.ip) (first_or (forwarders_of config.system.dns) "1.1.1.1")))
        (forwards-none i o _ _ (λ (v : NetworkVlan).
          dnats-none v.name (address v.ip) (first_or (forwarders_of config.system.dns) "1.1.1.1")))

  header_lines-none : (config : RoostConfig) → forwards i o (header_lines config) ≡ false
  unfolding header_lines forwards
  header_lines-none config = refl

  forward_header-none : (wan : String) → forwards i o (forward_header wan) ≡ false
  unfolding forward_header forwards
  forward_header-none wan = refl

  nat_header-none : forwards i o nat_header ≡ false
  unfolding nat_header forwards
  nat_header-none = refl

  nat_postrouting-none : forwards i o nat_postrouting ≡ false
  unfolding nat_postrouting forwards
  nat_postrouting-none = refl

  footer_lines-none : forwards i o footer_lines ≡ false
  unfolding footer_lines forwards
  footer_lines-none = refl

  -- A ruleset has a line that accepts the packets of an interface to another exactly where the policy
  -- does, wherever the line stands, and whatever the rest of the configuration and the state of the
  -- local DNS server.
  pub ruleset_lines-forwards :
      (config : RoostConfig) (probe : Bool)
      → forwards i o (ruleset_lines config probe)
        ≡ policy_allows config (get_wan_interface config) config.network.zones i o
  unfolding ruleset_lines
  ruleset_lines-forwards config probe =
      let wan = get_wan_interface config in
      ahead (header_lines config) _ (header_lines-none config)
      ∙ ahead _ _ (forwards-none i o local_lines (all_local_ifs config) local_lines-none)
      ∙ ahead _ _ (forwards-none i o rule_lines config.firewall.rules rule_lines-none)
      ∙ ahead (forward_header wan) _ (forward_header-none wan)
      ∙ ahead _ _ (evasion_lines-none config)
      ∙ behind (policy_lines config wan config.network.zones) _ (
          both nat_header _ nat_header-none (
            both _ _ (dns_lines-none config (is_local_dns_active config probe)) (
              both _ _ (mark_lines-none (gateway_marks config) config.devices) (
                both _ _ (port_forward_lines-none wan config.firewall.port_forwards) (
                  both nat_postrouting _ nat_postrouting-none
                    (both _ _ (masquerades-none wan config.network.gateways) footer_lines-none))))))
      ∙ policy_lines-forwards config wan config.network.zones

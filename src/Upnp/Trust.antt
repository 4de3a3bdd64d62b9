-- ===== src/Upnp/Trust.antt =====
-- What an approval that is remembered grants.
use Prim.Native.Nat.{ℕ}
use Prim.Native.String.{String}
use text.Mathlib.Text.{◌==◌}
use text.Mathlib.TextEquality.{eq_iff}
use text.Mathlib.TextPositions.{eq_refl}
use mathlib.Core.Path.{◌≡◌, refl, ap, ◌∙◌, sym}
use mathlib.Core.Logic.{inl, inr}
use mathlib.Core.Bool.{Bool, true, false, ◌&&◌, ◌||◌}
use mathlib.Core.List.{List, [], ◌∷◌, ◌++◌, map}
use native.Mathlib.Omega.{arith}
use roostos.Prelude.{any, Bool-cases}
use roostos.Prelude.Result.{Result, ok, err, ◌>>=◌, >>=-eq-ok}
use roostos.Prelude.Text.{lower}
use roostos.Mac.{normalize_mac}
use roostos.Mac.Canonical.{normalize_mac_idem}
use roostos.Models.{UPnPAllowedPort, DeviceConfig}
use roostos.Upnp.{
  Gateway, allows_port, is_trusted, register_request, validate_port, validate_ports,
  validate_device, validate_devices, trust, remember_port, save_devices, approve_as,
  approve_request,
}

-- Whether a device has an address.
abbrev pub has_mac : String → DeviceConfig → Bool
has_mac mac d = d.mac == mac

-- Whether a device has the address and may open the port.
abbrev may_open : String → ℕ → String → DeviceConfig → Bool
may_open mac port protocol d =
    d.mac == mac && (d.upnp_trusted || any (allows_port port (lower protocol)) d.upnp_allowed_ports)

is_trusted-any :
    (mac : String) (port : ℕ) (protocol : String) (ds : List DeviceConfig)
    → is_trusted mac port protocol ds ≡ any (may_open mac port protocol) ds
unfolding is_trusted any
is_trusted-any mac port protocol [] = refl
is_trusted-any mac port protocol (d ∷ ds) = ground (arith, is_trusted-any mac port protocol ds)

-- The value of a call that returns.
port_or : UPnPAllowedPort → Result UPnPAllowedPort → UPnPAllowedPort
port_or d (ok p) = p
port_or d (err e) = d

err-not-ok : {A : Type 0} (e : String) (a : A) → err e ≡ ok a → ⊥
err-not-ok e a h = cc

validate_port-ok :
    (ap' p : UPnPAllowedPort)
    → validate_port ap' ≡ ok p
    → (p.port ≡ ap'.port) × (p.protocol ≡ lower ap'.protocol)
unfolding validate_port port_or
validate_port-ok q p h =
    elim (Bool-cases (lower q.protocol == "tcp" || lower q.protocol == "udp")) [
      | inl e ↦
          let same : record { port = q.port; protocol = lower q.protocol } ≡ p =
            ap (port_or p) (rw e at h) in
          (
            sym (ap (λ (x : UPnPAllowedPort). x.port) same),
            sym (ap (λ (x : UPnPAllowedPort). x.protocol) same),
          )
      | inr e ↦ absurd (err-not-ok _ p (rw e at h))
    ]

validate_ports-allow :
    (port : ℕ) (protocol : String) (aps ps : List UPnPAllowedPort)
    → validate_ports aps ≡ ok ps
    → any (allows_port port protocol) aps ≡ true
    → any (allows_port port (lower protocol)) ps ≡ true
unfolding validate_ports any
validate_ports-allow port protocol [] ps h t = cc
validate_ports-allow port protocol (q ∷ aps) ps h t =
    let (p, e, f) =
      >>=-eq-ok (validate_port q) (λ p. (validate_ports aps >>= λ ps. ok (p ∷ ps))) h in
    let (rest, k, l) = >>=-eq-ok (validate_ports aps) (λ ps. ok (p ∷ ps)) f in
    let (same_port, same_protocol) = validate_port-ok q p e in
    let whole : ps ≡ p ∷ rest = cc in
    let later = validate_ports-allow port protocol aps rest k in
    rw whole (elim (Bool-cases (allows_port port protocol q)) [
      | inl a ↦
          let named : q.protocol ≡ protocol = (eq_iff q.protocol protocol).0 (ground (arith, a)) in
          let lowered : (lower q.protocol == lower protocol) ≡ true =
            (eq_iff (lower q.protocol) (lower protocol)).1 (ap lower named) in
          let here : allows_port port (lower protocol) p ≡ true =
            rw (same_port, same_protocol) (ground (arith, a, lowered)) in
          ground (arith, here)
      | inr a ↦ ground (arith, a, later (ground (arith, a)))
    ])

device_or : DeviceConfig → Result DeviceConfig → DeviceConfig
device_or d (ok e) = e
device_or d (err _) = d

-- A device keeps its normalized address and its trust, and its ports in small letters.
validate_device-ok :
    (m : String) (d e : DeviceConfig)
    → validate_device d ≡ ok e
    → normalize_mac d.mac ≡ ok m
    → (ports : List UPnPAllowedPort) × (validate_ports d.upnp_allowed_ports ≡ ok ports)
      × (e ≡ record d { mac = m; upnp_allowed_ports = ports })
unfolding validate_device device_or
validate_device-ok m d e h k =
    let (n, a, b) =
      >>=-eq-ok (normalize_mac d.mac)
        (λ mac.
          (validate_ports d.upnp_allowed_ports >>= λ ports.
          ok (record d { mac = mac; upnp_allowed_ports = ports })))
        h in
    let (ports, c, f) =
      >>=-eq-ok (validate_ports d.upnp_allowed_ports)
        (λ ports. ok (record d { mac = n; upnp_allowed_ports = ports })) b in
    let same : n ≡ m = cc in
    (
      ports,
      c,
      sym (ap (device_or e) f) ∙ ap (λ x. record d { mac = x; upnp_allowed_ports = ports }) same,
    )

any-last :
    (port : ℕ) (protocol : String) (aps : List UPnPAllowedPort)
    → any (allows_port port protocol) (aps ++ record { port = port; protocol = protocol } ∷ [])
      ≡ true
unfolding any
any-last port protocol [] = ground (arith, eq_refl protocol)
any-last port protocol (p ∷ aps) = ground (arith, any-last port protocol aps)

module _ (m : String) (n : normalize_mac m ≡ ok m) (port : ℕ) where
  trust-may_open :
      (protocol : String) (d e : DeviceConfig)
      → has_mac m d ≡ true
      → validate_device (trust m d) ≡ ok e
      → may_open m port protocol e ≡ true
  unfolding trust
  trust-may_open protocol d e h v =
      let own : d.mac ≡ m = (eq_iff d.mac m).0 h in
      let (ports, c, f) =
        validate_device-ok m (record d { upnp_trusted = true }) e (rw h at v)
          (ap normalize_mac own ∙ n) in
      rw f (ground (arith, eq_refl m))

  remember_port-may_open :
      (protocol protocol' : String) (d e : DeviceConfig)
      → lower protocol' ≡ lower protocol
      → has_mac m d ≡ true
      → validate_device (remember_port m port protocol d) ≡ ok e
      → may_open m port protocol' e ≡ true
  unfolding remember_port
  remember_port-may_open protocol protocol' d e q h v =
      let own : d.mac ≡ m = (eq_iff d.mac m).0 h in
      let norm = ap normalize_mac own ∙ n in
      elim (Bool-cases (any (allows_port port protocol) d.upnp_allowed_ports)) [
        | inl a ↦
            let (ports, c, f) = validate_device-ok m d e (rw (h, a) at v) norm in
            let open' = validate_ports-allow port protocol d.upnp_allowed_ports ports c a in
            rw (f, q) (ground (arith, eq_refl m, open'))
        | inr a ↦
            let added : List UPnPAllowedPort =
              d.upnp_allowed_ports ++ record { port = port; protocol = protocol } ∷ [] in
            let (ports, c, f) =
              validate_device-ok m (record d { upnp_allowed_ports = added }) e (rw (h, a) at v)
                norm in
            let open' =
              validate_ports-allow port protocol added ports c
                (any-last port protocol d.upnp_allowed_ports) in
            rw (f, q) (ground (arith, eq_refl m, open'))
      ]

  validate_devices-any :
      (change : DeviceConfig → DeviceConfig) (protocol : String)
      → ((d e : DeviceConfig)
          → has_mac m d ≡ true
          → validate_device (change d) ≡ ok e
          → may_open m port protocol e ≡ true)
      → (ds es : List DeviceConfig) → any (has_mac m) ds ≡ true
      → validate_devices (map change ds) ≡ ok es
      → any (may_open m port protocol) es ≡ true
  unfolding validate_devices any
  validate_devices-any change protocol each [] es h v = cc
  validate_devices-any change protocol each (d ∷ ds) es h v =
      let (e, a, b) =
        >>=-eq-ok (validate_device (change d))
          (λ e. (validate_devices (map change ds) >>= λ es. ok (e ∷ es))) v in
      let (rest, k, l) = >>=-eq-ok (validate_devices (map change ds)) (λ es. ok (e ∷ es)) b in
      let whole : es ≡ e ∷ rest = cc in
      let later = validate_devices-any change protocol each ds rest in
      rw whole (elim (Bool-cases (has_mac m d)) [
        | inl o ↦ ground (arith, each d e o a)
        | inr o ↦ ground (arith, later (ground (arith, o)) k)
      ])

  save_devices-any :
      (r : Result (List DeviceConfig)) (protocol : String) (g : Gateway)
      → ((es : List DeviceConfig) → r ≡ ok es → any (may_open m port protocol) es ≡ true)
      → (save_devices r g).0 ≡ true
      → any (may_open m port protocol) (save_devices r g).1.devices ≡ true
  save_devices-any (err e) protocol g each h = cc
  save_devices-any (ok es) protocol g each h = each es refl

  approve_as-any :
      (protocol protocol' : String) (remember trust_device : Bool) (g : Gateway)
      → lower protocol' ≡ lower protocol
      → (remember || trust_device) ≡ true
      → any (has_mac m) g.devices ≡ true
      → (approve_as (ok m) port protocol remember trust_device g).0 ≡ true
      → any
          (may_open m port protocol')
          (approve_as (ok m) port protocol remember trust_device g).1.devices
        ≡ true
  approve_as-any protocol protocol' remember true g q r o h =
      save_devices-any (validate_devices (map (trust m) g.devices)) protocol' _
        (λ es v.
          validate_devices-any (trust m) protocol' (trust-may_open protocol') g.devices es o v)
        h
  approve_as-any protocol protocol' true false g q r o h =
      save_devices-any (validate_devices (map (remember_port m port protocol) g.devices)) protocol'
        _
        (λ es v.
          validate_devices-any (remember_port m port protocol) protocol'
            (λ d e. remember_port-may_open protocol protocol' d e q) g.devices es o v)
        h
  approve_as-any protocol protocol' false false g q r o h = cc

-- After an approval that succeeds and is remembered, for the port or for the whole device, a further
-- request of a configured device for the port and protocol is accepted at once, in whatever spelling
-- the address and the protocol are given.
pub approve_request-remembered :
    (mac mac' m ip : String) (port internal : ℕ) (protocol protocol' text' : String)
    (remember trust_device : Bool) (g : Gateway)
    → normalize_mac mac ≡ ok m
    → normalize_mac mac' ≡ ok m
    → lower protocol' ≡ lower protocol
    → (remember || trust_device) ≡ true
    → any (has_mac m) g.devices ≡ true
    → (approve_request mac port protocol remember trust_device g).0 ≡ true
    → (register_request mac' ip port internal protocol' text'
        (approve_request mac port protocol remember trust_device g).1).0
      ≡ true
unfolding approve_request register_request
approve_request-remembered mac mac' m ip port internal protocol protocol' text' remember
      trust_device g h k q r o a =
    let n = normalize_mac_idem mac m h in
    let allowed =
      approve_as-any m n port protocol protocol' remember trust_device g q r o (rw h at a) in
    rw (k, h)
      (rw
        (
          is_trusted-any m port protocol'
              (approve_as (ok m) port protocol remember trust_device g).1.devices,
          allowed,
        )
        refl)

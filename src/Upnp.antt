-- ===== src/Upnp.antt =====
-- roostos-engine/src/roostos_engine/daemon/upnp_handler.py, with the tables of state_db.py: requests
-- for a port, and what an administrator does with them. The database answers each statement, and the
-- devices that are saved are those that the next `get_config` gives.
pub mod Trust
pub mod Queue
use Prim.Native.Nat.{ℕ, ◌+◌}
use Prim.Native.String.{String}
use text.Mathlib.Text.{◌==◌}
use mathlib.Core.Bool.{Bool, true, false, not, ◌&&◌, ◌||◌}
use mathlib.Core.Option.{Option, none, some}
use mathlib.Core.List.{List, [], ◌∷◌, ◌++◌, map}
use roostos.Prelude.{any, keep, eqb, if◌then◌else◌}
use roostos.Prelude.Result.{Result, ok, err, ◌>>=◌}
use roostos.Prelude.Text.{lower}
use roostos.Mac.{normalize_mac}
use roostos.Models.{UPnPAllowedPort, DeviceConfig}

-- a row of active_leases, without its timestamp
pub record ActiveLease : Type 0 where
  pub mac : String
  pub ip : String
  pub hostname : Option String
  pub quarantined : Bool

-- a row of pending_upnp_requests, without its timestamp
pub record PendingUPnPRequest : Type 0 where
  pub id : ℕ
  pub mac : String
  pub internal_ip : String
  pub external_port : ℕ
  pub internal_port : ℕ
  pub protocol : String
  pub description : Option String

pub record StateDb : Type 0 where
  pub active_leases : List ActiveLease
  pub pending_upnp_requests : List PendingUPnPRequest
  pub last_id : ℕ

-- `INSERT … ON CONFLICT(mac) DO UPDATE`
unfoldable pub upsert : ActiveLease → List ActiveLease → List ActiveLease
upsert lease [] = lease ∷ []
upsert lease (l ∷ ls) =
    let rest = upsert lease ls in if l.mac == lease.mac then lease ∷ ls else l ∷ rest

unfoldable pub register_lease : String → String → Option String → Bool → StateDb → StateDb
register_lease mac ip hostname quarantined db = record db {
  active_leases =
      upsert (record { mac = lower mac; ip = ip; hostname = hostname; quarantined = quarantined })
        db.active_leases;
}

unfoldable pub release_lease : String → StateDb → StateDb
release_lease mac db = record db {
  active_leases = keep (λ (l : ActiveLease). not (l.mac == lower mac)) db.active_leases;
}

-- The id of the row, and the database with it.
unfoldable pub add_pending_upnp :
    String → String → ℕ → ℕ → String → Option String → StateDb → ℕ × StateDb
add_pending_upnp mac internal_ip ext_port int_port protocol description db = (
  db.last_id + 1,
  record db {
    pending_upnp_requests =
        db.pending_upnp_requests
        ++ record {
          id = db.last_id + 1;
          mac = lower mac;
          internal_ip = internal_ip;
          external_port = ext_port;
          internal_port = int_port;
          protocol = lower protocol;
          description = description;
        }
          ∷ [];
    last_id = db.last_id + 1;
  },
)

-- the condition of the DELETE
abbrev pub is_request : String → ℕ → String → PendingUPnPRequest → Bool
is_request mac port protocol r =
    r.mac == mac && (eqb r.external_port port && r.protocol == protocol)

unfoldable pub remove_pending_upnp : String → ℕ → String → StateDb → StateDb
remove_pending_upnp mac port protocol db = record db {
  pending_upnp_requests =
      keep (λ r. not (is_request (lower mac) port (lower protocol) r)) db.pending_upnp_requests;
}

-- The handler's surroundings: the configured devices, the database, and how often each callback ran.
pub record Gateway : Type 0 where
  pub devices : List DeviceConfig
  pub db : StateDb
  pub received : List (String × ℕ)  -- the address and port of `on_request_received`, oldest first
  pub updated : ℕ
  pub cleared : ℕ

abbrev pub allows_port : ℕ → String → UPnPAllowedPort → Bool
allows_port port protocol ap = eqb ap.port port && ap.protocol == protocol

-- the loop over the devices
unfoldable pub is_trusted : String → ℕ → String → List DeviceConfig → Bool
is_trusted mac port protocol [] = false
is_trusted mac port protocol (d ∷ ds) =
    if d.mac == mac
    then d.upnp_trusted
      || any (allows_port port (lower protocol)) d.upnp_allowed_ports
      || is_trusted mac port protocol ds
    else is_trusted mac port protocol ds

abbrev pub register_as : Result String → String → ℕ → ℕ → String → String → Gateway → Bool × Gateway
register_as (err e) internal_ip port internal_port protocol description g = (false, g)
register_as (ok mac) internal_ip port internal_port protocol description g =
    if is_trusted mac port protocol g.devices then (true, g) else (
      false,
      record g {
        db =
            (add_pending_upnp mac internal_ip port internal_port protocol (some description)
              g.db).1;
        received = g.received ++ (mac, port) ∷ [];
      },
    )

unfoldable pub register_request :
    String → String → ℕ → ℕ → String → String → Gateway → Bool × Gateway
register_request mac internal_ip port internal_port protocol description g =
    register_as (normalize_mac mac) internal_ip port internal_port protocol description g

-- `validate_protocol` of UPnPAllowedPort
unfoldable pub validate_port : UPnPAllowedPort → Result UPnPAllowedPort
validate_port ap =
    let protocol = lower ap.protocol in
    if protocol == "tcp" || protocol == "udp"
    then ok (record { port = ap.port; protocol = protocol })
    else err "UPnP protocol must be 'tcp' or 'udp'"

unfoldable pub validate_ports : List UPnPAllowedPort → Result (List UPnPAllowedPort)
validate_ports [] = ok []
validate_ports (ap ∷ aps) = validate_port ap >>= λ p. (validate_ports aps >>= λ ps. ok (p ∷ ps))

-- `DeviceConfig(**d_dump)`
unfoldable pub validate_device : DeviceConfig → Result DeviceConfig
validate_device d = normalize_mac d.mac >>= λ mac.
    (validate_ports d.upnp_allowed_ports >>= λ ports.
    ok (record d { mac = mac; upnp_allowed_ports = ports }))

unfoldable pub validate_devices : List DeviceConfig → Result (List DeviceConfig)
validate_devices [] = ok []
validate_devices (d ∷ ds) = validate_device d >>= λ e. (validate_devices ds >>= λ es. ok (e ∷ es))

unfoldable pub trust : String → DeviceConfig → DeviceConfig
trust mac d = if d.mac == mac then record d { upnp_trusted = true } else d

unfoldable pub remember_port : String → ℕ → String → DeviceConfig → DeviceConfig
remember_port mac port protocol d =
    if d.mac == mac
    then if any (allows_port port protocol) d.upnp_allowed_ports then d else record d {
      upnp_allowed_ports = d.upnp_allowed_ports ++ record { port = port; protocol = protocol } ∷ [];
    }
    else d

abbrev pub clear_queue : Gateway → Gateway
clear_queue g = record g { cleared = g.cleared + 1 }

-- `DevicesConfig(...)`, `save_devices` and the signals; a ValueError leaves what was done before it
abbrev pub save_devices : Result (List DeviceConfig) → Gateway → Bool × Gateway
save_devices (err e) g = (false, g)
save_devices (ok devices) g =
    (true, clear_queue (record g { devices = devices; updated = g.updated + 1 }))

abbrev pub approve_as : Result String → ℕ → String → Bool → Bool → Gateway → Bool × Gateway
approve_as (err e) port protocol remember trust_device g = (false, g)
approve_as (ok mac) port protocol remember trust_device g =
    let h : Gateway = record g { db = remove_pending_upnp mac port protocol g.db } in
    if trust_device
    then save_devices (validate_devices (map (trust mac) g.devices)) h
    else if remember
    then save_devices (validate_devices (map (remember_port mac port protocol) g.devices)) h
    else (true, clear_queue h)

unfoldable pub approve_request : String → ℕ → String → Bool → Bool → Gateway → Bool × Gateway
approve_request mac port protocol remember trust_device g =
    approve_as (normalize_mac mac) port protocol remember trust_device g

abbrev pub reject_as : Result String → ℕ → String → Gateway → Bool × Gateway
reject_as (err e) port protocol g = (false, g)
reject_as (ok mac) port protocol g =
    (true, clear_queue (record g { db = remove_pending_upnp mac port protocol g.db }))

unfoldable pub reject_request : String → ℕ → String → Gateway → Bool × Gateway
reject_request mac port protocol g = reject_as (normalize_mac mac) port protocol g

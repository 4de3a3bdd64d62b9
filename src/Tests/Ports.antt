-- ===== src/Tests/Ports.antt =====
-- Tests of the requests for ports.

use mathlib.Core.Path.{◌≡◌, refl}
use mathlib.Core.Bool.{Bool, true, false}
use mathlib.Core.Option.{some}
use mathlib.Core.List.{[], ◌∷◌}
use roostos.Prelude.{any}
use roostos.Prelude.Result.{ok}
use roostos.Prelude.Text
use roostos.Prelude.Text.{lower}
use roostos.Mac.{normalize_mac}
use roostos.Upnp
use roostos.Upnp.{Gateway, is_request, register_request, approve_request, reject_request}
use roostos.Upnp.Trust.{approve_request-remembered}
use roostos.Upnp.Queue.{register_request-rejected}
use roostos.Tests.Household.{tablet}

abbrev gateway : Gateway
gateway = record {
  devices = tablet ∷ [];
  db = record { active_leases = []; pending_upnp_requests = []; last_id = 0 };
  received = [];
  updated = 0;
  cleared = 0;
}

dotted : normalize_mac "AA.BB.CC.DD.EE.1" ≡ ok "aa:bb:cc:dd:ee:01"
unfolding normalize_mac Text.split Text.lower Text.replace roostos.Prelude.all Text.size Text.join
dotted = refl

dashed : normalize_mac "aa-bb-cc-dd-ee-01" ≡ ok "aa:bb:cc:dd:ee:01"
unfolding normalize_mac Text.split Text.lower Text.replace roostos.Prelude.all Text.size Text.join
dashed = refl

tcp_back : lower "tcp" ≡ lower "TCP"
unfolding lower
tcp_back = refl

tcp_lowered : lower "TCP" ≡ lower "tcp"
unfolding lower
tcp_lowered = refl

tablet_there : any (Upnp.Trust.has_mac "aa:bb:cc:dd:ee:01") (tablet ∷ []) ≡ true
unfolding roostos.Prelude.any
tablet_there = refl

approved : (approve_request "AA.BB.CC.DD.EE.1" 8080 "TCP" true false gateway).0 ≡ true
unfolding approve_request normalize_mac Text.split lower Text.replace roostos.Prelude.all Text.size
    Upnp.validate_devices Upnp.validate_device Upnp.remember_port Text.join any Upnp.validate_ports
    Upnp.validate_port
approved = refl

approve_request-remembered_example :
    (register_request "aa-bb-cc-dd-ee-01" "192.168.1.9" 8080 80 "tcp" "game"
      (approve_request "AA.BB.CC.DD.EE.1" 8080 "TCP" true false gateway).1).0
    ≡ true
approve_request-remembered_example =
    approve_request-remembered "AA.BB.CC.DD.EE.1" "aa-bb-cc-dd-ee-01" "aa:bb:cc:dd:ee:01"
      "192.168.1.9" 8080 80 "TCP" "tcp" "game" true false gateway dotted dashed tcp_back refl
      tablet_there approved

untrusted : Upnp.is_trusted "aa:bb:cc:dd:ee:01" 8080 "tcp" (tablet ∷ []) ≡ false
unfolding Upnp.is_trusted roostos.Prelude.any
untrusted = refl

empty_queue : any (is_request "aa:bb:cc:dd:ee:01" 8080 (lower "tcp")) [] ≡ false
unfolding roostos.Prelude.any
empty_queue = refl

abbrev waiting : Bool × Gateway
waiting = register_request "aa-bb-cc-dd-ee-01" "192.168.1.9" 8080 80 "tcp" "game" gateway

register_request-rejected_example :
    (waiting.0 ≡ false)
    × (waiting.1.db.pending_upnp_requests
        ≡ record {
          id = 1;
          mac = "aa:bb:cc:dd:ee:01";
          internal_ip = "192.168.1.9";
          external_port = 8080;
          internal_port = 80;
          protocol = "tcp";
          description = some "game";
        }
          ∷ [])
    × (waiting.1.received ≡ ("aa:bb:cc:dd:ee:01", 8080) ∷ [])
    × ((reject_request "AA.BB.CC.DD.EE.1" 8080 "TCP" waiting.1).1.db.pending_upnp_requests ≡ [])
unfolding lower
register_request-rejected_example =
    register_request-rejected "aa-bb-cc-dd-ee-01" "AA.BB.CC.DD.EE.1" "aa:bb:cc:dd:ee:01"
      "192.168.1.9" 8080 80 "tcp" "TCP" "game" gateway dashed dotted tcp_lowered untrusted
      empty_queue

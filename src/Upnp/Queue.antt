-- ===== src/Upnp/Queue.antt =====
-- The queue of requests that wait for an administrator.
use Prim.Native.Nat.{ℕ, ◌+◌}
use Prim.Native.String.{String}
use text.Mathlib.TextPositions.{eq_refl}
use mathlib.Core.Path.{◌≡◌, refl}
use mathlib.Core.Bool.{Bool, true, false, not}
use mathlib.Core.Option.{some}
use mathlib.Core.List.{List, [], ◌∷◌, ◌++◌}
use native.Mathlib.Omega.{arith}
use roostos.Prelude.{any, keep}
use roostos.Prelude.Result.{ok}
use roostos.Prelude.Text.{lower}
use roostos.Mac.{normalize_mac}
use roostos.Mac.Canonical.{lower-normalize_mac}
use roostos.Upnp.{
  PendingUPnPRequest, Gateway, is_request, add_pending_upnp, remove_pending_upnp, is_trusted,
  register_request, reject_request,
}

keep-none :
    (p : PendingUPnPRequest → Bool) (rs : List PendingUPnPRequest)
    → any p (keep (λ r. not (p r)) rs) ≡ false
unfolding any keep
keep-none p [] = refl
keep-none p (r ∷ rs) = ground (arith, keep-none p rs)

keep-all :
    (p : PendingUPnPRequest → Bool) (rs : List PendingUPnPRequest)
    → any p rs ≡ false
    → keep (λ r. not (p r)) rs ≡ rs
unfolding any keep
keep-all p [] h = refl
keep-all p (r ∷ rs) h = ground (arith, keep-all p rs)

keep-last :
    (p : PendingUPnPRequest → Bool) (rs : List PendingUPnPRequest) (r : PendingUPnPRequest)
    → any p rs ≡ false
    → p r ≡ true
    → keep (λ r. not (p r)) (rs ++ r ∷ []) ≡ rs
unfolding any keep
keep-last p [] r h e = ground arith
keep-last p (x ∷ rs) r h e = ground (arith, keep-last p rs r)

-- After a rejection no request of the device for the port and protocol waits, in whatever spelling
-- the address and the protocol were given.
pub reject_request-clears :
    (mac m : String) (port : ℕ) (protocol : String) (g : Gateway)
    → normalize_mac mac ≡ ok m
    → any
        (is_request m port (lower protocol))
        (reject_request mac port protocol g).1.db.pending_upnp_requests
      ≡ false
unfolding reject_request remove_pending_upnp
reject_request-clears mac m port protocol g h =
    rw (h, lower-normalize_mac mac m h)
      (keep-none (is_request m port (lower protocol)) g.db.pending_upnp_requests)

-- A request of a device that is not trusted with the port is told that it has to wait, and stands
-- last in the queue, with the normalized address, the protocol in small letters and the next number,
-- the callback is called for it, and a rejection of the same address, port and protocol, in whatever
-- spelling, makes a queue without such a request again what it was.
pub register_request-rejected :
    (mac mac' m ip : String) (port internal : ℕ) (protocol protocol' text' : String) (g : Gateway)
    → normalize_mac mac ≡ ok m
    → normalize_mac mac' ≡ ok m
    → lower protocol' ≡ lower protocol
    → is_trusted m port protocol g.devices ≡ false
    → any (is_request m port (lower protocol)) g.db.pending_upnp_requests ≡ false
    → let (accepted, after) = register_request mac ip port internal protocol text' g in
      (accepted ≡ false)
      × (after.db.pending_upnp_requests
          ≡ g.db.pending_upnp_requests
            ++ record {
              id = g.db.last_id + 1;
              mac = m;
              internal_ip = ip;
              external_port = port;
              internal_port = internal;
              protocol = lower protocol;
              description = some text';
            }
              ∷ [])
      × (after.received ≡ g.received ++ (m, port) ∷ [])
      × ((reject_request mac' port protocol' after).1.db.pending_upnp_requests
          ≡ g.db.pending_upnp_requests)
unfolding reject_request register_request remove_pending_upnp add_pending_upnp
register_request-rejected mac mac' m ip port internal protocol protocol' text' g h k q t none =
    rw (h, k, t, q, lower-normalize_mac mac m h)
      (
        refl,
        refl,
        refl,
        keep-last (is_request m port (lower protocol)) g.db.pending_upnp_requests _ none
            (ground (arith, eq_refl m, eq_refl (lower protocol))),
      )

-- ===== src/ConfigFiles/Loading.antt =====
-- What the reading of a directory makes of a network that was read before: gateways that are combined
-- stay, and a network without the older bridge is not migrated.

use text.Mathlib.Text.{◌==◌}
use text.Mathlib.TextPositions.{eq_refl}
use mathlib.Core.Path.{◌≡◌, refl, ap, ◌∙◌}
use mathlib.Core.Logic.{inl, inr}
use mathlib.Core.Bool.{Bool, true, false, ◌||◌}
use mathlib.Core.List.{List, [], ◌∷◌, map}
use native.Mathlib.Omega.{arith}
use roostos.Prelude.{any, all, Bool-cases, Option-cases}
use roostos.Models.{NetworkBridge, NetworkInterface, EdgeGatewayConfig, is}
use roostos.ConfigFiles.{
  NetworkConfig, combine, sync_edge_gateways, old_bridge, old_interface, new_bridge, new_interface,
  has_migration, migrate, network_of, or_list,
}

abbrev known_to : List EdgeGatewayConfig → EdgeGatewayConfig → Bool
known_to known gw = any (λ (g : EdgeGatewayConfig). g.id == gw.id) known

-- Gateways that are all known add nothing.
combine_known :
    (known gws : List EdgeGatewayConfig)
    → all (known_to known) gws ≡ true
    → combine known gws ≡ known
unfolding combine all
combine_known known [] h = refl
combine_known known (gw ∷ gws) h = elim (Bool-cases (known_to known gw)) [
  | inl e ↦ rw e (combine_known known gws (ground (arith, h)))
  | inr e ↦ absurd (ground (arith, h, e))
]

all_known_cons :
    (g : EdgeGatewayConfig) (known gws : List EdgeGatewayConfig)
    → all (known_to known) gws ≡ true
    → all (known_to (g ∷ known)) gws ≡ true
unfolding any all
all_known_cons g known [] h = refl
all_known_cons g known (gw ∷ gws) h = ground (arith, h, all_known_cons g known gws)

all_known : (known : List EdgeGatewayConfig) → all (known_to known) known ≡ true
unfolding any all
all_known [] = refl
all_known (g ∷ known) = ground (arith, eq_refl g.id, all_known_cons g known known (all_known known))

pub sync_edge_gateways_idem :
    (n : NetworkConfig) → sync_edge_gateways (sync_edge_gateways n) ≡ sync_edge_gateways n
unfolding sync_edge_gateways
sync_edge_gateways_idem n = elim (Option-cases n.network) [
  | inl e ↦ rw e refl
  | inr (s, e) ↦
      let c = combine n.edge_gateways s.edge_gateways in
      let same = combine_known c c (all_known c) in rw (e, same) refl
]

map-new_bridge : (bs : List NetworkBridge) → any old_bridge bs ≡ false → map new_bridge bs ≡ bs
unfolding any
map-new_bridge [] h = refl
map-new_bridge (b ∷ bs) h = elim (Bool-cases (old_bridge b)) [
  | inl e ↦ absurd (ground (arith, h, e))
  | inr e ↦ rw e (ap (◌∷◌ b) (map-new_bridge bs (ground (arith, h))))
]

map-new_interface :
    (is : List NetworkInterface) → any old_interface is ≡ false → map new_interface is ≡ is
unfolding any
map-new_interface [] h = refl
map-new_interface (i ∷ is) h = elim (Bool-cases (old_interface i)) [
  | inl e ↦ absurd (ground (arith, h, e))
  | inr e ↦ rw e (ap (◌∷◌ i) (map-new_interface is (ground (arith, h))))
]

pub migrate_none : (n : NetworkConfig) → has_migration n ≡ false → migrate n ≡ n
unfolding migrate has_migration
migrate_none n h = elim (Option-cases n.network) [
  | inl e ↦ rw e refl
  | inr (s, e) ↦
      let none_old : (any old_bridge s.bridges || any old_interface s.interfaces) ≡ false =
        rw e at h in
      let bridges = map-new_bridge s.bridges (ground (arith, none_old)) in
      let interfaces = map-new_interface s.interfaces (ground (arith, none_old)) in
      rw (e, bridges, interfaces) refl
]

-- What is combined and not to be migrated is loaded as it is.
pub network_of-sync :
    (n : NetworkConfig)
    → has_migration (sync_edge_gateways n) ≡ false
    → network_of (sync_edge_gateways n) ≡ sync_edge_gateways n
unfolding network_of
network_of-sync n h =
    ap sync_edge_gateways (migrate_none (sync_edge_gateways n) h) ∙ sync_edge_gateways_idem n

pub or_list_nil : {A : Type 0} (xs : List A) → or_list xs [] ≡ xs
or_list_nil [] = refl
or_list_nil (x ∷ xs) = refl

-- ===== src/ClusterService/Promotion.antt =====
-- Who is the controller after a promotion.
use Prim.Native.Nat.{ℕ}
use Prim.Native.String.{String}
use text.Mathlib.Text.{◌==◌}
use text.Mathlib.TextPositions.{eq_refl}
use mathlib.Core.Path.{◌≡◌, refl, sym, ap, subst, ◌∙◌}
use mathlib.Core.Logic.{inl, inr}
use mathlib.Core.Bool.{Bool, true, false, not, ◌||◌}
use mathlib.Core.Option.{Option, none, some}
use mathlib.Core.List.{List, [], ◌∷◌, ◌++◌, map}
use native.Mathlib.Omega.{arith}
use roostos.Prelude.{any, all, keep, ltb, Bool-cases, if◌then◌else◌}
use roostos.Prelude.Result.{Result, ok, ◌>>=◌, >>=-eq-ok, ok_injective}
use roostos.Models.{RoostConfig, ClusterSettingsConfig, SystemSettings}
use roostos.Nodes.{NodeRole, controller, value, NodeConfig}
use roostos.ClusterService.{
  ConfigRepository, IsRepository, checked, validated, has_role, set_of, add_role, discard_role,
  promoted, epoch_of, next_epoch, save_epoch, promote_node,
}

has_role-append :
    (r : NodeRole) (rs ss : List NodeRole)
    → has_role r (rs ++ ss) ≡ (has_role r rs || has_role r ss)
unfolding has_role any
has_role-append r [] ss = refl
has_role-append r (s ∷ rs) ss = ground (arith, has_role-append r rs ss)

has_role-add_role : (r : NodeRole) (rs : List NodeRole) → has_role r (add_role r rs) ≡ true
unfolding add_role has_role any
has_role-add_role r rs = elim (Bool-cases (has_role r rs)) [
  | inl e ↦ rw e e
  | inr e ↦ rw e (ground (arith, has_role-append r rs (r ∷ []), eq_refl (value r)))
]

has_role-discard_role : (r : NodeRole) (rs : List NodeRole) → has_role r (discard_role r rs) ≡ false
unfolding discard_role has_role any keep
has_role-discard_role r [] = refl
has_role-discard_role r (s ∷ rs) = ground (arith, has_role-discard_role r rs)

with_roles : (n m : NodeConfig) (rs : List NodeRole) → n.roles ≡ rs → checked n ≡ ok m → n ≡ m
with_roles n m [] e h = absurd (let q = rw e at h in cc)
with_roles n m (r ∷ rs) e h = let q = rw e at h in cc

pub validated-ok : (ns ms : List NodeConfig) → validated ns ≡ ok ms → ns ≡ ms
unfolding validated
validated-ok [] ms h = cc
validated-ok (n ∷ ns) ms h =
    let (m, first, rest) = >>=-eq-ok (checked n) _ h in
    let (qs, others, same) = >>=-eq-ok (validated ns) _ rest in
    let p = with_roles n m n.roles refl first in let q = validated-ok ns qs others in cc

-- The node of an id is a controller, and another is none.
abbrev pub sole : String → NodeConfig → Bool
sole node_id n =
    if n.id == node_id then has_role controller n.roles else not (has_role controller n.roles)

promoted-id :
    (node_id : String) (force : Bool) (n : NodeConfig) → (promoted node_id force n).id ≡ n.id
unfolding promoted
promoted-id node_id force n = refl

sole-promoted : (node_id : String) (n : NodeConfig) → sole node_id (promoted node_id false n) ≡ true
unfolding promoted
sole-promoted node_id n = elim (Bool-cases (n.id == node_id)) [
  | inl e ↦ rw e (has_role-add_role controller (set_of n.roles))
  | inr e ↦ rw e (ap not (has_role-discard_role controller (set_of n.roles)))
]

all-promoted :
    (node_id : String) (ns : List NodeConfig)
    → all (sole node_id) (map (promoted node_id false) ns) ≡ true
unfolding all
all-promoted node_id [] = refl
all-promoted node_id (n ∷ ns) = ground (arith, sole-promoted node_id n, all-promoted node_id ns)

ids-promoted :
    (node_id : String) (force : Bool) (ns : List NodeConfig)
    → map (λ (n : NodeConfig). n.id) (map (promoted node_id force) ns)
      ≡ map (λ (n : NodeConfig). n.id) ns
unfolding promoted
ids-promoted node_id force [] = refl
ids-promoted node_id force (n ∷ ns) = ap (◌∷◌ n.id) (ids-promoted node_id force ns)

next_epoch-later :
    (new_epoch : Option ℕ) (epoch : ℕ) → ltb epoch (next_epoch new_epoch epoch) ≡ true
unfolding next_epoch
next_epoch-later none epoch = ground arith
next_epoch-later (some n) epoch = ground arith

module _ {R : Type 0} (repo : ConfigRepository R) where
  -- How a promotion ends, with a later epoch: without a cluster nothing more is saved; with one, as
  -- the save of its settings ends, which are as they were but for the node and the epoch.
  abbrev pub Ends :
      SystemSettings → Option ClusterSettingsConfig → String → R → Result (ℕ × R) → Type 0
  Ends settings none node_id s rest = (epoch : ℕ) × (ltb 1 epoch ≡ true) × (rest ≡ ok (epoch, s))
  Ends settings (some cl) node_id s rest =
      (epoch : ℕ) × (ltb cl.epoch epoch ≡ true)
      × (rest ≡ (
          repo.save_settings
            (record settings {
              cluster = some (record cl { node_id = some node_id; epoch = epoch });
            })
            s
          >>= λ t. ok (epoch, t)))

  save_epoch-Ends :
      (settings : SystemSettings) (cluster : Option ClusterSettingsConfig) (node_id : String)
      (new_epoch : Option ℕ) (s : R)
      → Ends settings cluster node_id s (
          save_epoch repo cluster settings node_id (next_epoch new_epoch (epoch_of cluster)) s
          >>= λ t. ok (next_epoch new_epoch (epoch_of cluster), t))
  save_epoch-Ends settings none node_id new_epoch s =
      (next_epoch new_epoch 1, next_epoch-later new_epoch 1, refl)
  save_epoch-Ends settings (some cl) node_id new_epoch s =
      (next_epoch new_epoch cl.epoch, next_epoch-later new_epoch cl.epoch, refl)

module _ {R : Type 0} (repo : ConfigRepository R) (laws : IsRepository repo) where
  -- After a promotion without force that saved the nodes, the nodes have the ids that they had, in
  -- the order that they had, the promoted node is a controller if it is one of them, and no other
  -- node is one. With a cluster the promotion then saves the settings with the promoted node and an
  -- epoch that is later than the one before, and answers that epoch if they are saved; without a
  -- cluster it saves nothing more and answers an epoch after 1.
  pub promote_node-sole :
      (node_id : String) (new_epoch : Option ℕ) (r s : R) (rest : Result (ℕ × R)) (c : RoostConfig)
      → repo.get_config r ≡ ok c
      → promote_node repo node_id new_epoch false r ≡ ok (s, rest)
      → (d : RoostConfig) × (repo.get_config s ≡ ok d)
        × (map (λ (n : NodeConfig). n.id) d.nodes ≡ map (λ (n : NodeConfig). n.id) c.nodes)
        × (all (sole node_id) d.nodes ≡ true)
        × Ends repo c.system c.system.cluster node_id s rest
  unfolding promote_node
  promote_node-sole node_id new_epoch r s rest c g h =
      let called = rw g at h in
      let (ns, checks, saving) =
        >>=-eq-ok (validated (map (promoted node_id false) c.nodes)) _ called in
      let (t, saved, ends) = >>=-eq-ok (repo.save_nodes ns r) _ saving in
      let pair = ok_injective ends in
      let same = validated-ok (map (promoted node_id false) c.nodes) ns checks in
      (
        record c { nodes = ns },
        laws.saves ns r s c g (saved ∙ ap (λ p. ok p) (ap (λ p. p.0) pair)),
        ap (map (λ (n : NodeConfig). n.id)) (sym same) ∙ ids-promoted node_id false c.nodes,
        ap (all (sole node_id)) (sym same) ∙ all-promoted node_id c.nodes,
        subst (λ p. Ends repo c.system c.system.cluster node_id p.0 p.1) pair
            (save_epoch-Ends repo c.system c.system.cluster node_id new_epoch t),
      )

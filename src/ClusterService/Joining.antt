-- ===== src/ClusterService/Joining.antt =====
-- The join tokens of the service, and the node that a join enrols.
use Prim.Native.Nat.{ℕ, ◌<◌}
use Prim.Native.String.{String}
use text.Mathlib.Text.{◌==◌}
use text.Mathlib.TextEquality.{eq_iff}
use mathlib.Core.Path.{◌≡◌, refl, sym, ap, ◌∙◌}
use mathlib.Core.Logic.{inl, inr}
use mathlib.Core.Bool.{Bool, true, false, ◌&&◌, ◌||◌}
use mathlib.Core.Option.{Option, some}
use mathlib.Core.List.{List, [], ◌∷◌}
use native.Mathlib.Omega.{arith}
use roostos.Prelude.{first, lt→ltb, or_else, Bool-cases, if◌then◌else◌}
use roostos.Prelude.Dict
use roostos.Prelude.Dict.{get-put_self}
use roostos.Prelude.Result.{ok, >>=-eq-ok, Result-cases, ok_injective}
use roostos.Prelude.Text.{starts_with}
use roostos.Models.{RoostConfig}
use roostos.Nodes.{NodeConfig, edge_gateway}
use roostos.Cluster
use roostos.Cluster.{ClusterManager, JoinData, node_with, check_expiry}
use roostos.Auth.{Jwt, decode_access_token}
use roostos.ClusterService.{
  ConfigRepository, IsRepository, upsert, validated, save_node, has_role, linked, link_edge,
  is_admin, token_from, generate_join_token, validate_join_token, enrol, join_cluster,
}
use roostos.ClusterService.Promotion.{validated-ok}

module _ {J : Type 0} where
  true_either :
      (b : Bool) (x y : ClusterManager J)
      → (if◌then◌else◌ {A = Bool × ClusterManager J} b (true, x) (true, y)).0 ≡ true
  true_either true x y = refl
  true_either false x y = refl

  true_chain :
      (a b c : Bool) (x : ClusterManager J) (rest : Bool × ClusterManager J)
      → rest.0 ≡ true
      → (if◌then◌else◌ {A = Bool × ClusterManager J} a
          (true, x)
          (if b then (true, x) else if c then (true, x) else rest)).0
        ≡ true
  true_chain true b c x rest h = refl
  true_chain false true c x rest h = refl
  true_chain false false true x rest h = refl
  true_chain false false false x rest h = h

  accepts_held :
      (later : ℕ) (token : String) (m : ClusterManager J)
      → later < 9999999999
      → (Cluster.validate_join_token later token
          (record m { join_tokens = Dict.put token 9999999999 m.join_tokens })).0
        ≡ true
  unfolding Cluster.validate_join_token
  accepts_held later token m h =
      rw (get-put_self token 9999999999 m.join_tokens, lt→ltb later 9999999999 h)
        (true_either (m.mock && starts_with "roost-" token) _ _)

  validates_held :
      (jwt : Jwt) (answer : Option Bool) (later : ℕ) (token : String) (n : ClusterManager J)
      → (token == "") ≡ false
      → (Cluster.validate_join_token later token n).0 ≡ true
      → (validate_join_token jwt answer later token n).0 ≡ true
  unfolding validate_join_token
  validates_held jwt answer later token n e held = rw e (
      true_chain (n.mock && (starts_with "roost-" token || starts_with "mock-" token))
        (is_admin (decode_access_token jwt later token)) (or_else answer false) n
        (Cluster.validate_join_token later token n) held)

  -- A join token of the service is accepted at any moment before the ten thousand millionth second
  -- of the clock, however long ago it was made: the ten minutes that the manager gives it are
  -- written over.
  pub generate_join_token-lasting :
      (jwt : Jwt) (given : Option String) (answer : Option Bool) (now later : ℕ) (suffix : String)
      (m : ClusterManager J)
      → later < 9999999999
      → ((generate_join_token given now suffix m).0 == "") ≡ false
      → (let (token, n) = generate_join_token given now suffix m in
          (validate_join_token jwt answer later token n).0)
        ≡ true
  unfolding generate_join_token
  generate_join_token-lasting jwt given answer now later suffix m h e =
      let (token, n) = token_from given now suffix m in
      validates_held jwt answer later token
        (record n { join_tokens = Dict.put token 9999999999 n.join_tokens }) e
        (accepts_held later token n h)

-- A node that is put among others is found under its id, and the others stay.
node_with-upsert :
    (i : String) (n : NodeConfig) (ns : List NodeConfig)
    → node_with i (upsert n ns) ≡ (if n.id == i then some n else node_with i ns)
unfolding node_with upsert first
node_with-upsert i n [] = refl
node_with-upsert i n (m ∷ ns) = elim (Bool-cases (m.id == n.id)) [
  | inl e ↦ elim (Bool-cases (n.id == i)) [
    | inl q ↦ rw (e, q) refl
    | inr q ↦
        let r : (m.id == i) ≡ false = ap (λ x. x == i) ((eq_iff m.id n.id).0 e) ∙ q in
        rw (e, q, r) refl
  ]
  | inr e ↦ elim (Bool-cases (m.id == i)) [
    | inl r ↦
        let q : (n.id == i) ≡ false =
          ground (arith, e, r, eq_iff m.id i, eq_iff n.id i, eq_iff m.id n.id) in
        rw (e, r, q) refl
    | inr r ↦ rw (e, r) (node_with-upsert i n ns)
  ]
]

module _ {R : Type 0} (repo : ConfigRepository R) (laws : IsRepository repo) where
  -- the nodes after a save
  save_node-nodes :
      (n : NodeConfig) (r s : R) (c : RoostConfig)
      → repo.get_config r ≡ ok c
      → save_node repo n r ≡ ok s
      → repo.get_config s ≡ ok (record c { nodes = upsert n c.nodes })
  unfolding save_node
  save_node-nodes n r s c g h =
      let called = rw g at h in
      let (ns, checks, saving) = >>=-eq-ok (validated (upsert n c.nodes)) _ called in
      laws.saves ns r s c g saving
      ∙ ap (λ ms. ok (record c { nodes = ms })) (sym (validated-ok (upsert n c.nodes) ns checks))

  link_edge-nodes :
      (n : NodeConfig) (c d : RoostConfig) (r : R)
      → repo.get_config r ≡ ok d
      → (b : RoostConfig) × (repo.get_config (link_edge repo n c r) ≡ ok b) × (b.nodes ≡ d.nodes)
  unfolding link_edge
  link_edge-nodes n c d r g = elim (Bool-cases (has_role edge_gateway n.roles)) [
    | inr e ↦ rw e (d, g, refl)
    | inl e ↦
        rw e
          (elim (Result-cases (
            repo.save_network
              (record c.network { edge_gateways = linked n c.network.edge_gateways }) r)) [
                | inl (s, q) ↦ rw q (laws.leaves _ r s d g q)
                | inr (message, q) ↦ rw q (d, g, refl)
              ])
  ]

  enrol-joins :
      (join_data : JoinData) (r s : R) (n : NodeConfig) (c : RoostConfig)
      → repo.get_config r ≡ ok c
      → enrol repo join_data r ≡ ok (n, s)
      → (d : RoostConfig) × (repo.get_config s ≡ ok d)
        × ((i : String) → node_with i d.nodes ≡ (if n.id == i then some n else node_with i c.nodes))
  unfolding enrol
  enrol-joins join_data r s n c g h =
      let called = rw g at h in
      let (k, registers, saving) = >>=-eq-ok (Cluster.register_node join_data c.nodes) _ called in
      let (t, saved, ends) = >>=-eq-ok (save_node repo k r) _ saving in
      let pair = ok_injective ends in
      let (d, gets, same) =
        link_edge-nodes k c (record c { nodes = upsert k c.nodes }) t
          (save_node-nodes k r t c g saved) in
      let named : k ≡ n = ap (λ p. p.0) pair in
      (
        d,
        ap repo.get_config (sym (ap (λ p. p.1) pair)) ∙ gets,
        λ i.
            ap (node_with i) same
            ∙ node_with-upsert i k c.nodes
            ∙ ap (λ (x : NodeConfig). if x.id == i then some x else node_with i c.nodes) named,
      )

  -- A join that succeeds leaves a configuration in which the node that joined is found under its id,
  -- and every other node is as it was; this holds for a node that links an edge gateway too.
  pub join_cluster-joins :
      {J : Type 0} (jwt : Jwt) (answer : Option Bool) (now : ℕ) (token : String)
      (join_data : JoinData) (m : ClusterManager J) (r s : R) (n : NodeConfig) (c : RoostConfig)
      → repo.get_config r ≡ ok c
      → (join_cluster repo jwt answer now token join_data m r).1 ≡ ok (n, s)
      → (d : RoostConfig) × (repo.get_config s ≡ ok d)
        × ((i : String) → node_with i d.nodes ≡ (if n.id == i then some n else node_with i c.nodes))
  unfolding join_cluster
  join_cluster-joins jwt answer now token join_data m r s n c g h =
      elim (Bool-cases (validate_join_token jwt answer now token m).0) [
        | inr e ↦ absurd (let q = rw e at h in cc)
        | inl e ↦ enrol-joins join_data r s n c g (rw e at h)
      ]

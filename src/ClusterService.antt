-- ===== src/ClusterService.antt =====
-- roostos-web/src/roostos_web/services/cluster.py: the cluster's service in front of the manager and
-- of the repository. What the daemon answers over D-Bus is an argument, none where the call raises;
-- what the daemon is told is left out. The repository is any that has the operations below.
pub mod Promotion
pub mod Joining
pub mod Memory
use Prim.Native.Nat.{ℕ, ◌+◌}
use Prim.Native.String.{String}
use text.Mathlib.Text.{◌==◌}
use mathlib.Core.Path.{◌≡◌}
use mathlib.Core.Bool.{Bool, true, false, not, ◌&&◌, ◌||◌}
use mathlib.Core.Option.{Option, none, some}
use mathlib.Core.List.{List, [], ◌∷◌, ◌++◌, map}
use roostos.Prelude.{any, keep, first, ltb, or_else, if◌then◌else◌}
use roostos.Prelude.Dict
use roostos.Prelude.Result.{Result, ok, err, ◌>>=◌}
use roostos.Prelude.Text.{starts_with}
use roostos.Models.{
  ClusterSettingsConfig, SystemSettings, EdgeGatewayConfig, NetworkSettings, RoostConfig, truthy,
  is,
}
use roostos.Nodes.{NodeRole, controller, gateway_router, edge_gateway, value, NodeConfig}
use roostos.Cluster
use roostos.Cluster.{ClusterManager, HealthReport, JoinData}
use roostos.Auth.{Jwt, Claims, decode_access_token}

-- A repository: its configuration, and what becomes of it with each of the saves that are made here.
-- `save_settings` is save_system_config with the settings alone.
pub record ConfigRepository (R : Type 0) : Type 0 where
  pub get_config : R → Result RoostConfig
  pub save_nodes : List NodeConfig → R → Result R
  pub save_network : NetworkSettings → R → Result R
  pub save_settings : SystemSettings → R → Result R

-- What the service relies on of a repository: the nodes that are saved are the ones it answers next,
-- and a save of the network leaves them.
pub record IsRepository {R : Type 0} (repo : ConfigRepository R) : Type 0 where
  pub saves :
      (ns : List NodeConfig) (r s : R) (c : RoostConfig)
      → repo.get_config r ≡ ok c
      → repo.save_nodes ns r ≡ ok s
      → repo.get_config s ≡ ok (record c { nodes = ns })
  pub leaves :
      (settings : NetworkSettings) (r s : R) (c : RoostConfig)
      → repo.get_config r ≡ ok c
      → repo.save_network settings r ≡ ok s
      → (d : RoostConfig) × (repo.get_config s ≡ ok d) × (d.nodes ≡ c.nodes)

-- `existing_nodes[idx] = node_data`, or an append
unfoldable pub upsert : NodeConfig → List NodeConfig → List NodeConfig
upsert n [] = n ∷ []
upsert n (m ∷ nodes) = if m.id == n.id then n ∷ nodes else m ∷ upsert n nodes

-- the validator of a node's roles, run for each node that is saved
abbrev pub checked : NodeConfig → Result NodeConfig
checked n = elim n.roles [ [] ↦ err "Node must have at least one assigned role." | r ∷ rs ↦ ok n ]

unfoldable pub validated : List NodeConfig → Result (List NodeConfig)
validated [] = ok []
validated (n ∷ nodes) = checked n >>= λ m. (validated nodes >>= λ ms. ok (m ∷ ms))

abbrev pub same_role : NodeRole → NodeRole → Bool
same_role r s = value r == value s

unfoldable pub has_role : NodeRole → List NodeRole → Bool
has_role r rs = any (λ s. same_role s r) rs

-- `set(roles)`; a set of roles is a list of them in some order
unfoldable pub set_of : List NodeRole → List NodeRole
set_of [] = []
set_of (r ∷ rs) = let rest = set_of rs in if has_role r rest then rest else r ∷ rest

unfoldable pub add_role : NodeRole → List NodeRole → List NodeRole
add_role r rs = if has_role r rs then rs else rs ++ r ∷ []

unfoldable pub discard_role : NodeRole → List NodeRole → List NodeRole
discard_role r rs = keep (λ s. not (same_role s r)) rs

-- the loop of promote_node
unfoldable pub promoted : String → Bool → NodeConfig → NodeConfig
promoted node_id force n =
    let roles = set_of n.roles in
    record n {
      roles =
          if n.id == node_id
          then add_role controller roles
          else if not force
          then discard_role controller roles
          else roles;
    }

abbrev pub or_router : List NodeRole → List NodeRole
or_router [] = gateway_router ∷ []
or_router (r ∷ rs) = r ∷ rs

-- the loop of demote_node
unfoldable pub demoted : String → NodeConfig → NodeConfig
demoted node_id n =
    if n.id == node_id
    then record n { roles = or_router (discard_role controller (set_of n.roles)) }
    else n

abbrev pub epoch_of : Option ClusterSettingsConfig → ℕ
epoch_of none = 1
epoch_of (some c) = c.epoch

unfoldable pub next_epoch : Option ℕ → ℕ → ℕ
next_epoch none epoch = epoch + 1
next_epoch (some new_epoch) epoch = if ltb epoch new_epoch then new_epoch else epoch + 1

-- the link of an edge gateway, when a node of that role joins
abbrev pub address_of : Option String → Option EdgeGatewayConfig → String
address_of (some ip) existing = ip
address_of none none = "10.42.0.1"
address_of none (some g) = g.public_ip

abbrev pub is_link : NodeConfig → EdgeGatewayConfig → Bool
is_link n g = g.id == "edge-01" || g.id == n.id

unfoldable pub linked : NodeConfig → List EdgeGatewayConfig → List EdgeGatewayConfig
linked n gws =
    keep (λ (g : EdgeGatewayConfig). not (is_link n g)) gws
    ++ record {
      id = "edge-01";
      name = or_else (truthy (some n.name)) "VPS Edge Gateway";
      public_ip = address_of (truthy n.management_ip) (first (is_link n) gws);
      domain = none;
    }
      ∷ []

-- a save that raises is passed over
abbrev pub or_before : {R : Type 0} → Result R → R → R
or_before (err e) r = r
or_before (ok s) r = s

module _ {R : Type 0} (repo : ConfigRepository R) where
  unfoldable pub save_node : NodeConfig → R → Result R
  save_node n r =
      repo.get_config r >>= λ c. (validated (upsert n c.nodes) >>= λ nodes. repo.save_nodes nodes r)

  unfoldable pub remove_node : String → R → Result R
  remove_node node_id r = repo.get_config r >>= λ c.
      (validated (keep (λ (n : NodeConfig). not (n.id == node_id)) c.nodes) >>= λ nodes.
      repo.save_nodes nodes r)

  abbrev pub save_epoch : Option ClusterSettingsConfig → SystemSettings → String → ℕ → R → Result R
  save_epoch none settings node_id epoch r = ok r
  save_epoch (some c) settings node_id epoch r =
      repo.save_settings
        (record settings { cluster = some (record c { node_id = some node_id; epoch = epoch }) }) r

  -- the repository after the nodes are saved, and the epoch, where the settings can be saved too
  unfoldable pub promote_node : String → Option ℕ → Bool → R → Result (R × Result (ℕ × R))
  promote_node node_id new_epoch force r = repo.get_config r >>= λ c.
      let epoch = next_epoch new_epoch (epoch_of c.system.cluster) in
      (validated (map (promoted node_id force) c.nodes) >>= λ nodes.
      (repo.save_nodes nodes r >>= λ s.
      ok (s, save_epoch c.system.cluster c.system node_id epoch s >>= λ t. ok (epoch, t))))

  unfoldable pub demote_node : String → R → Result R
  demote_node node_id r = repo.get_config r >>= λ c.
      (validated (map (demoted node_id) c.nodes) >>= λ nodes. repo.save_nodes nodes r)

  unfoldable pub link_edge : NodeConfig → RoostConfig → R → R
  link_edge n c r =
      if has_role edge_gateway n.roles
      then or_before
          (repo.save_network (record c.network { edge_gateways = linked n c.network.edge_gateways })
            r)
          r
      else r

-- what follows the check of the token: the node that joins, and the repository
unfoldable pub enrol : {R : Type 0} → ConfigRepository R → JoinData → R → Result (NodeConfig × R)
enrol repo join_data r = repo.get_config r >>= λ c.
    (Cluster.register_node join_data c.nodes >>= λ n.
    (save_node repo n r >>= λ s. ok (n, link_edge repo n c s)))

abbrev pub is_admin : Option Claims → Bool
is_admin none = false
is_admin (some c) = is c.role "admin"

module _ {J : Type 0} where
  abbrev pub token_from : Option String → ℕ → String → ClusterManager J → String × ClusterManager J
  token_from (some token) now suffix m = (token, m)
  token_from none now suffix m = Cluster.generate_join_token now suffix 600 m

  -- the token that the daemon gave, or one of the manager's own
  unfoldable pub generate_join_token :
      Option String → ℕ → String → ClusterManager J → String × ClusterManager J
  generate_join_token answer now suffix m =
      let (token, n) = token_from answer now suffix m in
      (token, record n { join_tokens = Dict.put token 9999999999 n.join_tokens })

  unfoldable pub validate_join_token :
      Jwt → Option Bool → ℕ → String → ClusterManager J → Bool × ClusterManager J
  validate_join_token jwt answer now token m =
      if token == ""
      then (false, m)
      else if m.mock && (starts_with "roost-" token || starts_with "mock-" token)
      then (true, m)
      else if is_admin (decode_access_token jwt now token)
      then (true, m)
      else if or_else answer false
      then (true, m)
      else Cluster.validate_join_token now token m

  unfoldable pub record_heartbeat :
      String → String → HealthReport J → ClusterManager J → List String × ClusterManager J
  record_heartbeat now_iso node_id report m =
      Cluster.pop_node_commands node_id (Cluster.record_heartbeat now_iso node_id report m)

  unfoldable pub queue_node_command : String → String → ClusterManager J → ClusterManager J
  queue_node_command node_id command m = Cluster.queue_node_command node_id command m

  module _ {R : Type 0} (repo : ConfigRepository R) where
    -- the certificates of the answer are left out
    unfoldable pub join_cluster :
        Jwt
        → Option Bool
        → ℕ
        → String
        → JoinData
        → ClusterManager J
        → R
        → ClusterManager J × Result (NodeConfig × R)
    join_cluster jwt answer now token join_data m r =
        let (valid, n) = validate_join_token jwt answer now token m in
        (n, if valid then enrol repo join_data r else err "Invalid or expired cluster join token.")

-- ===== src/Tests/Service.antt =====
-- Tests of the replication of files and of the cluster's service.
use Prim.Native.Nat.{ℕ}
use Prim.Native.String.{String}
use text.Mathlib.Text.{◌==◌}
use mathlib.Core.Path.{◌≡◌, refl, sym, ap}
use mathlib.Core.Logic.{inl, inr}
use mathlib.Core.Bool.{true, false}
use mathlib.Core.Option.{none, some}
use mathlib.Core.List.{List, [], ◌∷◌, map}
use native.Mathlib.Omega.{arith}
use roostos.Prelude.Int.{pos}
use roostos.Prelude.{all, has, Bool-cases, if◌then◌else◌}
use roostos.Prelude.Dict
use roostos.Prelude.Result.{ok}
use roostos.Models.{RoostConfig, NetworkSettings}
use roostos.Nodes.{NodeConfig, controller, gateway_router, access_point}
use roostos.Cluster.{ClusterManager, JoinData, node_with}
use roostos.Replicator.{
  ClusterReplicator, config_files, read_file, read_text, generate_manifest, compare_manifest,
  export_bundle, apply_bundle,
}
use roostos.Replicator.Convergence.{nothing_fails, compare_manifest-apply_bundle}
use roostos.Repository.{InMemoryConfigRepository}
use roostos.ClusterService.{
  ConfigRepository, IsRepository, generate_join_token, validate_join_token, promote_node,
  join_cluster,
}
use roostos.ClusterService.Promotion.{Ends, sole, promote_node-sole}
use roostos.ClusterService.Memory.{memory, memory-IsRepository}
use roostos.ClusterService.Joining.{generate_join_token-lasting, join_cluster-joins}
use roostos.Auth.{Jwt}
use roostos.Tests.Files.{plain, nobody}

abbrev master : ClusterReplicator
master = record {
  mock = false;
  mock_files = [];
  files = ("system.yaml", "system: {}") ∷ ("nodes.yaml", "nodes: []") ∷ [];
}

abbrev replica : ClusterReplicator
replica = record { mock = false; mock_files = []; files = ("nodes.yaml", "old") ∷ [] }

master_plain :
    (name : String)
    → has name config_files ≡ true
    → read_file (Dict.get name master.files) ≡ Dict.get name master.files
unfolding Dict.get read_text
master_plain name h = elim (Bool-cases ("system.yaml" == name)) [
  | inl e ↦ rw e refl
  | inr e ↦ elim (Bool-cases ("nodes.yaml" == name)) [
    | inl q ↦ rw (e, q) refl
    | inr q ↦ rw (e, q) refl
  ]
]

compare_manifest-apply_bundle_example :
    (let (done, after) =
        apply_bundle nothing_fails (export_bundle 1 "node-01" master) true replica in
      (done ≡ true)
      × (compare_manifest
            (λ s. s)
            (generate_manifest (λ s. s) "2026-01-01" 1 "node-01" none master)
            after
          ≡ []))
compare_manifest-apply_bundle_example =
    compare_manifest-apply_bundle (λ s. s) "2026-01-01" "node-01" 1 none true master replica refl
      refl master_plain

abbrev router : NodeConfig
router = record {
  id = "node-01";
  name = "Router";
  roles = controller ∷ gateway_router ∷ [];
  management_ip = none;
  mac_address = none;
  location_id = none;
  interfaces = [];
  failover_priority = pos 10;
  capabilities = none;
}

abbrev attic : NodeConfig
attic = record router { id = "node-02"; name = "Attic"; roles = access_point ∷ [] }

abbrev two_nodes : InMemoryConfigRepository
two_nodes = record { config = record plain { nodes = router ∷ attic ∷ [] }; listeners = nobody }

-- A repository that keeps what it is told, settings alone too.
abbrev keeper : ConfigRepository RoostConfig
keeper = record {
  get_config = λ c. ok c;
  save_nodes = λ ns c. ok (record c { nodes = ns });
  save_network = λ s c. ok (record c { network = s });
  save_settings = λ s c. ok (record c { system = s });
}

keeper-saves :
    (ns : List NodeConfig) (r s c : RoostConfig)
    → keeper.get_config r ≡ ok c
    → keeper.save_nodes ns r ≡ ok s
    → keeper.get_config s ≡ ok (record c { nodes = ns })
keeper-saves ns r s c g h = let p : r ≡ c = cc in rw (← h, p) refl

keeper-leaves :
    (settings : NetworkSettings) (r s c : RoostConfig)
    → keeper.get_config r ≡ ok c
    → keeper.save_network settings r ≡ ok s
    → (d : RoostConfig) × (keeper.get_config s ≡ ok d) × (d.nodes ≡ c.nodes)
keeper-leaves settings r s c g h =
    let p : r ≡ c = cc in
    (record r { network = settings }, sym h, ap (λ (x : RoostConfig). x.nodes) p)

keeper-IsRepository : IsRepository keeper
keeper-IsRepository = record { saves = keeper-saves; leaves = keeper-leaves }

abbrev clustered : RoostConfig
clustered = record plain {
  nodes = router ∷ attic ∷ [];
  system = record plain.system {
    cluster = some (record { node_id = some "node-01"; controller_url = none; epoch = 4 });
  };
}

abbrev moved : RoostConfig
moved = record clustered {
  nodes =
      record router { roles = gateway_router ∷ [] }
      ∷ record attic { roles = access_point ∷ controller ∷ [] }
      ∷ [];
}

abbrev recorded : RoostConfig
recorded = record moved {
  system = record plain.system {
    cluster = some (record { node_id = some "node-02"; controller_url = none; epoch = 5 });
  };
}

promote_node-sole_example :
    (d : RoostConfig) × (keeper.get_config moved ≡ ok d)
    × (map (λ (n : NodeConfig). n.id) d.nodes ≡ "node-01" ∷ "node-02" ∷ [])
    × (all (sole "node-02") d.nodes ≡ true)
    × Ends keeper clustered.system clustered.system.cluster "node-02" moved (ok (5, recorded))
unfolding promote_node roostos.ClusterService.validated roostos.ClusterService.promoted
    roostos.ClusterService.discard_role roostos.Prelude.keep roostos.ClusterService.set_of
    roostos.ClusterService.has_role roostos.Prelude.any roostos.Nodes.value
    roostos.ClusterService.add_role roostos.ClusterService.next_epoch
promote_node-sole_example =
    promote_node-sole keeper keeper-IsRepository "node-02" none clustered moved (ok (5, recorded))
      clustered refl refl

abbrev no_jwt : Jwt
no_jwt = record { encode = λ c. ""; decode = λ now t. none }

abbrev new_manager : ClusterManager ℕ
new_manager = record { mock = false; node_heartbeats = []; join_tokens = []; pending_commands = [] }

generate_join_token-lasting_example :
    (let (token, n) = generate_join_token none 100 "ab12" new_manager in
      (validate_join_token no_jwt none 5000000000 token n).0)
    ≡ true
unfolding generate_join_token roostos.Cluster.generate_join_token roostos.Prelude.Text.concat
generate_join_token-lasting_example =
    generate_join_token-lasting no_jwt none none 100 5000000000 "ab12" new_manager (omega arith)
      refl

abbrev request : JoinData
request = record {
  node_id = some "node-03";
  id = none;
  name = some "Shed";
  roles = some ("access_point" ∷ []);
  management_ip = none;
  mac_address = none;
  location_id = none;
  capabilities = none;
  interfaces = none;
}

abbrev shed : NodeConfig
shed = record router {
  id = "node-03";
  name = "Shed";
  roles = access_point ∷ [];
  failover_priority = pos 0;
}

abbrev three_nodes : InMemoryConfigRepository
three_nodes = record {
  config = record plain { nodes = router ∷ attic ∷ shed ∷ [] };
  listeners = nobody;
}

join_cluster-joins_example :
    (d : RoostConfig) × (memory.get_config three_nodes ≡ ok d)
    × ((i : String)
        → node_with i d.nodes
          ≡ (if shed.id == i then some shed else node_with i (router ∷ attic ∷ [])))
unfolding memory roostos.Repository.get_memory join_cluster validate_join_token
    roostos.Auth.decode_access_token roostos.ClusterService.enrol roostos.Cluster.register_node
    roostos.Cluster.parse_roles roostos.ClusterService.save_node roostos.ClusterService.validated
    roostos.ClusterService.upsert roostos.Repository.save_memory roostos.Repository.store
    roostos.Nodes.role_of node_with roostos.ClusterService.link_edge roostos.Prelude.first
    roostos.ClusterService.has_role roostos.Prelude.any roostos.Nodes.value
    roostos.Repository.notify_change roostos.Repository.section_of roostos.Prelude.Text.starts_with
join_cluster-joins_example =
    join_cluster-joins memory memory-IsRepository no_jwt (some true) 100 "roost-ab12" request
      new_manager two_nodes three_nodes shed (record plain { nodes = router ∷ attic ∷ [] }) refl
      refl

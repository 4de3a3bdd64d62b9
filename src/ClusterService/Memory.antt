-- ===== src/ClusterService/Memory.antt =====
-- The repository in memory as the one of the cluster's service.
use mathlib.Core.Path.{◌≡◌, sym, ap, ◌∙◌}
use mathlib.Core.List.{List}
use roostos.Prelude.Result.{ok, err}
use roostos.Models.{RoostConfig, NetworkSettings}
use roostos.Nodes.{NodeConfig}
use roostos.Repository.{
  InMemoryConfigRepository, nodes, network, settings, save_memory, get_memory, store, notify_change,
  section_of,
}
use roostos.ClusterService.{ConfigRepository, IsRepository}

-- It takes neither settings alone nor a network without a file.
unfoldable pub memory : ConfigRepository InMemoryConfigRepository
memory = record {
  get_config = λ r. ok (get_memory r);
  save_nodes = λ ns r. save_memory (nodes (record { nodes = ns })) r;
  save_network = λ s r. save_memory (network (settings s)) r;
  save_settings = λ s r. err "'SystemSettings' object has no attribute 'system'";
}

after :
    (ns : List NodeConfig) (r s : InMemoryConfigRepository) (c : RoostConfig)
    → memory.get_config r ≡ ok c
    → memory.save_nodes ns r ≡ ok s
    → memory.get_config s ≡ ok (record c { nodes = ns })
unfolding memory save_memory get_memory store section_of
after ns r s c h e =
    let p : r.config ≡ c = cc in
    let q : record {
      config = record r.config { nodes = ns };
      listeners = notify_change "nodes" "save" r.listeners;
    }
        ≡ s =
      cc in
    ap (λ (x : InMemoryConfigRepository). ok x.config) (sym q)
    ∙ ap (λ (x : RoostConfig). ok (record x { nodes = ns })) p

refused :
    (s : NetworkSettings) (r t : InMemoryConfigRepository) (c : RoostConfig)
    → memory.get_config r ≡ ok c
    → memory.save_network s r ≡ ok t
    → (d : RoostConfig) × (memory.get_config t ≡ ok d) × (d.nodes ≡ c.nodes)
unfolding memory save_memory store
refused s r t c h e = absurd cc

pub memory-IsRepository : IsRepository memory
memory-IsRepository = record { saves = after; leaves = refused }

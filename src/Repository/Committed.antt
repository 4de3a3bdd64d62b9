-- ===== src/Repository/Committed.antt =====
-- The configuration after a commit against the one that was staged.
use Prim.Native.String.{String}
use mathlib.Core.Path.{◌≡◌}
use mathlib.Core.Bool.{true, false}
use mathlib.Core.Option.{Option, none, some}
use mathlib.Core.List.{List}
use roostos.Prelude.{is_some, or_else}
use roostos.Prelude.Dict
use roostos.Prelude.Dict.{Dict}
use roostos.Prelude.Result.{Result, ok, ◌>>=◌}
use roostos.Models.{RoostConfig, NetworkSettings}
use roostos.ConfigFiles.{
  NetworkConfig, SchedulesConfig, FirewallConfig, Yaml, Sections, content_of, legacy_of,
  empty_firewall, has_migration, assemble_with, schedules_of,
}
use roostos.ConfigFiles.Reading
use roostos.Repository.{set_network, network_set, set_nodes, set_system}
use roostos.Repository.Staged.{StagedModels, finish}

-- The schedules of a staged file are those of both its places.
abbrev pub InPlace : Option SchedulesConfig → Type 0
InPlace none = Unit {0}
InPlace (some p) = schedules_of p ≡ p.schedules

-- A staged firewall file has a firewall.
abbrev pub HasFirewall : Option FirewallConfig → Type 0
HasFirewall none = Unit {0}
HasFirewall (some p) = is_some p.firewall ≡ true

-- A staged network does not name the older bridge.
abbrev pub IsMigrated : Option NetworkConfig → Type 0
IsMigrated none = Unit {0}
IsMigrated (some n) = has_migration n ≡ false

-- the sections after a commit
abbrev merged : StagedModels → Sections → Sections
merged o p = record {
  system = or_else o.system p.system;
  network = or_else o.network p.network;
  nodes = or_else o.nodes p.nodes;
  devices = or_else o.devices p.devices;
  schedules = or_else o.schedules p.schedules;
  legacy = empty_firewall;
  firewall = or_else o.firewall p.firewall;
  plugins = or_else o.plugins p.plugins;
  providers = p.providers;
}

module _ (o : StagedModels) (p : Sections) (placed : InPlace o.schedules)
    (filled : HasFirewall o.firewall) (plain : p.legacy ≡ empty_firewall) where
  -- the staged network over the active configuration, and what follows it
  abbrev chain : NetworkSettings → Option NetworkConfig → Result RoostConfig
  chain old x =
      set_network x (set_nodes o.nodes (set_system o.system (assemble_with p old))) >>= λ c1.
      ok (finish o c1)

  abbrev chained : NetworkSettings → NetworkConfig → Option NetworkSettings → Result RoostConfig
  chained old n x =
      network_set n x (set_nodes o.nodes (set_system o.system (assemble_with p old))) >>= λ c1.
      ok (finish o c1)

module _ {Content : Type 0} (yaml : Yaml Content) where
  -- What a staged directory and an active one need for a commit to keep what the stage shows: the
  -- older places of port forwards and rules are not used, a staged network does not name the older
  -- bridge, a staged firewall file has a firewall, and the providers are not staged.
  pub record Settled (active staged : Dict String) (o : StagedModels) : Type 0 where
    pub active_legacy :
        legacy_of yaml (content_of yaml (Dict.get "schedules.yaml" active)) ≡ empty_firewall
    pub staged_legacy :
        legacy_of yaml (content_of yaml (Dict.get "schedules.yaml" staged)) ≡ empty_firewall
    pub no_providers : Dict.get "providers.yaml" staged ≡ none
    pub has_firewall : HasFirewall o.firewall
    pub is_migrated : IsMigrated o.network

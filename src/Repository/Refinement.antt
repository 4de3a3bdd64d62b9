-- ===== src/Repository/Refinement.antt =====
-- The staging repository against the repository in memory: the abstract configuration, whose sections
-- the saves replace.
use Prim.Native.String.{String}
use text.Mathlib.Text.{◌==◌}
use mathlib.Core.Path.{◌≡◌}
use mathlib.Core.Bool.{true, false}
use mathlib.Core.Option.{Option, none, some}
use mathlib.Core.List.{List, [], ◌∷◌}
use roostos.Prelude.{is_some}
use roostos.Prelude.Dict
use roostos.Prelude.Dict.{Dict}
use roostos.Prelude.Result.{Result, ok, ◌>>=◌}
use roostos.Models.{RoostConfig}
use roostos.ConfigFiles.{Yaml, network_schema, schedules_schema}
use roostos.Repository.{
  Save, system, nodes, devices, network, schedules, firewall, plugins, StagingConfigRepository,
  InMemoryConfigRepository, YamlConfigRepository, save_staged, save_memory, staged_model, set_nodes,
  set_system,
}
use roostos.Repository.Staged.{StagedModels, Reads, Written, finish}

-- Saves in a row; one that raises ends the row.
module _ {Content : Type 0} (yaml : Yaml Content) where
  unfoldable pub save_all : List Save → StagingConfigRepository → Result StagingConfigRepository
  save_all [] r = ok r
  save_all (call ∷ calls) r = save_staged yaml call r >>= λ s. save_all calls s

unfoldable pub remember_all : List Save → InMemoryConfigRepository → Result InMemoryConfigRepository
remember_all [] r = ok r
remember_all (call ∷ calls) r = save_memory call r >>= λ s. remember_all calls s

module _ {Content : Type 0} (yaml : Yaml Content) where
  -- A save of another section than the network, whose file is read as it was written; a firewall file
  -- has a firewall.
  abbrev pub Plain : Save → Type 0
  Plain (system d) = Written yaml yaml.system d
  Plain (nodes d) = Written yaml yaml.nodes d
  Plain (devices d) = Written yaml yaml.devices d
  Plain (network d) = ⊥
  Plain (schedules d) = Written yaml (schedules_schema yaml) d
  Plain (firewall d) = Written yaml yaml.firewall d × (is_some d.firewall ≡ true)
  Plain (plugins d) = Written yaml yaml.plugins d

  unfoldable pub AllPlain : List Save → Type 0
  AllPlain [] = Unit {0}
  AllPlain (call ∷ calls) = Plain call × AllPlain calls

-- the staged models after a save
abbrev staged_by : Save → StagedModels → StagedModels
staged_by (system d) o = record o { system = some d }
staged_by (nodes d) o = record o { nodes = some d }
staged_by (devices d) o = record o { devices = some d }
staged_by (network d) o = o
staged_by (schedules d) o = record o { schedules = some d }
staged_by (firewall d) o = record o { firewall = some d }
staged_by (plugins d) o = record o { plugins = some d }

module _ {Content : Type 0} (yaml : Yaml Content) (staged : Dict String) (o : StagedModels)
    (r : Reads yaml staged o) where
  -- The models of the other files than one that is put.
  record Others (name text : String) : Type 0 where
    system :
        (name == "system.yaml") ≡ false
        → staged_model yaml yaml.system (Dict.get "system.yaml" (Dict.put name text staged))
          ≡ ok o.system
    nodes :
        (name == "nodes.yaml") ≡ false
        → staged_model yaml yaml.nodes (Dict.get "nodes.yaml" (Dict.put name text staged))
          ≡ ok o.nodes
    network :
        (name == "network.yaml") ≡ false
        → staged_model yaml
            (network_schema yaml)
            (Dict.get "network.yaml" (Dict.put name text staged))
          ≡ ok o.network
    devices :
        (name == "devices.yaml") ≡ false
        → staged_model yaml yaml.devices (Dict.get "devices.yaml" (Dict.put name text staged))
          ≡ ok o.devices
    schedules :
        (name == "schedules.yaml") ≡ false
        → staged_model yaml
            (schedules_schema yaml)
            (Dict.get "schedules.yaml" (Dict.put name text staged))
          ≡ ok o.schedules
    firewall :
        (name == "firewall.yaml") ≡ false
        → staged_model yaml yaml.firewall (Dict.get "firewall.yaml" (Dict.put name text staged))
          ≡ ok o.firewall
    plugins :
        (name == "plugins.yaml") ≡ false
        → staged_model yaml yaml.plugins (Dict.get "plugins.yaml" (Dict.put name text staged))
          ≡ ok o.plugins

-- The configuration that the staged models make when no network is staged.
abbrev over : StagedModels → RoostConfig → RoostConfig
over o c = finish o (set_nodes o.nodes (set_system o.system c))

module _ {Content : Type 0} (yaml : Yaml Content) where
  -- What holds between the two repositories: the staged files are read, none is a network, and the
  -- configuration in memory is the one that they make of the active one.
  record Agrees (c : RoostConfig) (r : StagingConfigRepository) (m : InMemoryConfigRepository)
      : Type 0 where
    staged : Dict String
    o : StagedModels
    is_staged : r.staged ≡ some staged
    reads : Reads yaml staged o
    no_network : o.network ≡ none
    same : m.config ≡ over o c

  -- what a row of saves keeps
  Ends :
      RoostConfig
      → YamlConfigRepository
      → Result StagingConfigRepository
      → Result InMemoryConfigRepository
      → Type 0
  Ends c active left right =
      (s : StagingConfigRepository) × (n : InMemoryConfigRepository) × (left ≡ ok s)
      × (right ≡ ok n)
      × (s.active_repo ≡ active)
      × Agrees c s n

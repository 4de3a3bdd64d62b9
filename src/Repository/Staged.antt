-- ===== src/Repository/Staged.antt =====
-- What the staged files hold, and what they make of the active configuration.
use Prim.Native.String.{String}
use text.Mathlib.Text.{◌==◌}
use mathlib.Core.Path.{◌≡◌, refl}
use mathlib.Core.Logic.{inl, inr}
use mathlib.Core.Bool.{true, false}
use mathlib.Core.Option.{Option, none, some}
use roostos.Prelude.Dict
use roostos.Prelude.Dict.{Dict, get-put, get-put_self}
use roostos.Prelude.Result.{Result, ok, ◌>>=◌, Result-cases}
use roostos.Models.{RoostConfig}
use roostos.ConfigFiles.{
  SystemConfig, NodesConfigFile, NetworkConfig, DevicesConfig, SchedulesConfig, FirewallConfig,
  PluginsConfig, Schema, Yaml, network_schema, schedules_schema, untab,
}
use roostos.Prelude.Text.{ends_with}
use roostos.Repository.{
  is_yaml, set_system, set_nodes, set_network, set_devices, set_schedules, set_firewall,
  set_plugins, load_staged_yaml, staged_model, overlay,
}

-- The models of the staged files that are there.
pub record StagedModels : Type 0 where
  pub system : Option SystemConfig
  pub nodes : Option NodesConfigFile
  pub network : Option NetworkConfig
  pub devices : Option DevicesConfig
  pub schedules : Option SchedulesConfig
  pub firewall : Option FirewallConfig
  pub plugins : Option PluginsConfig

-- the sections after the network
abbrev pub finish : StagedModels → RoostConfig → RoostConfig
finish o c =
    set_plugins o.plugins
      (set_firewall o.firewall (set_schedules o.schedules (set_devices o.devices c)))

abbrev pub apply : StagedModels → RoostConfig → Result RoostConfig
apply o c =
    set_network o.network (set_nodes o.nodes (set_system o.system c)) >>= λ c1. ok (finish o c1)

abbrev pub no_models : StagedModels
no_models = record {
  system = none;
  nodes = none;
  network = none;
  devices = none;
  schedules = none;
  firewall = none;
  plugins = none;
}

module _ {Content : Type 0} (yaml : Yaml Content) where
  pub record Reads (staged : Dict String) (o : StagedModels) : Type 0 where
    pub system : staged_model yaml yaml.system (Dict.get "system.yaml" staged) ≡ ok o.system
    pub nodes : staged_model yaml yaml.nodes (Dict.get "nodes.yaml" staged) ≡ ok o.nodes
    pub network :
        staged_model yaml (network_schema yaml) (Dict.get "network.yaml" staged) ≡ ok o.network
    pub devices : staged_model yaml yaml.devices (Dict.get "devices.yaml" staged) ≡ ok o.devices
    pub schedules :
        staged_model yaml (schedules_schema yaml) (Dict.get "schedules.yaml" staged)
        ≡ ok o.schedules
    pub firewall : staged_model yaml yaml.firewall (Dict.get "firewall.yaml" staged) ≡ ok o.firewall
    pub plugins : staged_model yaml yaml.plugins (Dict.get "plugins.yaml" staged) ≡ ok o.plugins

  -- a stage without the seven files
  pub no_models-Reads :
      (staged : Dict String)
      → ((name : String) → is_yaml name ≡ true → Dict.get name staged ≡ none)
      → Reads staged no_models
  unfolding ends_with
  no_models-Reads staged h = record {
    system = rw (h "system.yaml" refl) refl;
    nodes = rw (h "nodes.yaml" refl) refl;
    network = rw (h "network.yaml" refl) refl;
    devices = rw (h "devices.yaml" refl) refl;
    schedules = rw (h "schedules.yaml" refl) refl;
    firewall = rw (h "firewall.yaml" refl) refl;
    plugins = rw (h "plugins.yaml" refl) refl;
  }

  pub overlay-Reads :
      (staged : Dict String) (o : StagedModels) (c : RoostConfig)
      → Reads staged o
      → overlay yaml staged c ≡ apply o c
  unfolding overlay
  overlay-Reads staged o c r =
      rw (r.system, r.nodes, r.network)
        (elim (Result-cases (set_network o.network (set_nodes o.nodes (set_system o.system c)))) [
          | inr (message, e) ↦ rw e refl
          | inl (c1, e) ↦ rw (e, r.devices, r.schedules, r.firewall, r.plugins) refl
        ])

  module _ {File : Type 0} (schema : Schema Content File) where
    -- What is relied on of YAML and pydantic for a model: its text has no tabulator, and gives back
    -- the content that the model is read from.
    pub record Written (x : File) : Type 0 where
      pub content : Content
      pub untabs : untab (schema.dump x) ≡ schema.dump x
      pub loads : yaml.safe_load (schema.dump x) ≡ ok content
      pub truthy : yaml.is_false content ≡ false
      pub validates : schema.model_validate content ≡ ok x

    pub staged_model-dump :
        (x : File) → Written x → staged_model yaml schema (some (schema.dump x)) ≡ ok (some x)
    unfolding load_staged_yaml
    staged_model-dump x w = rw (w.untabs, w.loads, w.truthy, w.validates) refl

    -- A file that is put is the model that was written, and the others stay.
    pub staged_model-put :
        (name : String) (x : File) (staged : Dict String)
        → Written x
        → staged_model yaml schema (Dict.get name (Dict.put name (schema.dump x) staged))
          ≡ ok (some x)
    staged_model-put name x staged w =
        rw (get-put_self name (schema.dump x) staged) (staged_model-dump x w)

    pub staged_model-other :
        (other name text : String) (staged : Dict String) {o : Option File}
        → (other == name) ≡ false
        → staged_model yaml schema (Dict.get name staged) ≡ ok o
        → staged_model yaml schema (Dict.get name (Dict.put other text staged)) ≡ ok o
    staged_model-other other name text staged e h = rw (get-put other name text staged, e) h

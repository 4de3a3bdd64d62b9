-- ===== src/ConfigFiles.antt =====
-- The configuration directory: load_config_directory and save_config_file of
-- roostos-engine/src/roostos_engine/models/__init__.py, and the models of the files in system.py,
-- node.py, network.py, devices.py, schedules.py, firewall.py, plugins.py and providers.py. A
-- directory is a dict from the names of its files to their texts; YAML, and the reading of the fields
-- of a model from the content of a file, are a parameter.
pub mod Loading
pub mod Reading
use Prim.Native.Char.{code}
use Prim.Native.String
use Prim.Native.String.{String}
use text.Mathlib.Text.{◌==◌}
use mathlib.Core.Bool.{Bool, true, false, not, ◌||◌}
use mathlib.Core.Option.{Option, none, some}
use mathlib.Core.List.{List, [], ◌∷◌, ◌++◌, map}
use roostos.Prelude.{any, eqb, or_else, if◌then◌else◌}
use roostos.Prelude.Dict
use roostos.Prelude.Dict.{Dict}
use roostos.Prelude.Result.{Result, ok, err, ◌>>=◌}
use roostos.Nodes.{NodeConfig}
use roostos.Models.{
  PersonConfig, BuildingConfig, RoomConfig, DeviceConfig, ScheduleConfig, NetworkInterface,
  NetworkBridge, NetworkSettings, WifiSettings, VpnConfig, EdgeGatewayConfig, PortForwardConfig,
  InputRuleConfig, FirewallSettings, UserConfig, SystemSettings, PluginConfig, ProvidersSettings,
  RoostConfig, is,
}
use roostos.Selectors.{validate_cross_references}

pub record SystemConfig : Type 0 where
  pub system : SystemSettings
  pub users : List UserConfig

pub record NodesConfigFile : Type 0 where
  pub nodes : List NodeConfig

pub record NetworkConfig : Type 0 where
  pub network : Option NetworkSettings
  pub wifi : Option WifiSettings
  pub vpns : List VpnConfig
  pub edge_gateways : List EdgeGatewayConfig

pub record DevicesConfig : Type 0 where
  pub people : List PersonConfig
  pub buildings : List BuildingConfig
  pub rooms : List RoomConfig
  pub devices : List DeviceConfig

-- `firewall` is the older place of the schedules
pub record SchedulesConfig : Type 0 where
  pub schedules : List ScheduleConfig
  pub firewall : Option (List ScheduleConfig)

pub record FirewallConfig : Type 0 where
  pub firewall : Option FirewallSettings

pub record PluginsConfig : Type 0 where
  pub plugins : List PluginConfig

pub record ProvidersConfigFile : Type 0 where
  pub providers : Option ProvidersSettings

-- How pydantic reads a model from the content of a file, and how the model is written as YAML.
pub record Schema (Content File : Type 0) : Type 0 where
  pub model_validate : Content → Result File
  pub dump : File → String

-- `a or b` of lists
abbrev pub or_list : {A : Type 0} → List A → List A → List A
or_list [] d = d
or_list (x ∷ xs) d = x ∷ xs

-- normalize_schedules and sync_firewall, on the fields as they were given: each of the two places
-- takes what the other has, where it has nothing
unfoldable pub sync_firewall : SchedulesConfig → SchedulesConfig
sync_firewall p = record {
  schedules = or_list p.schedules (or_else p.firewall []);
  firewall = some (or_else p.firewall p.schedules);
}

-- `yaml.safe_load`, whether its answer is false as a Python value, the empty dict, the models, and
-- the lists below `firewall` in the content of schedules.yaml, where they are there and are valid
pub record Yaml (Content : Type 0) : Type 0 where
  pub safe_load : String → Result Content
  pub is_false : Content → Bool
  pub empty : Content
  pub system : Schema Content SystemConfig
  pub nodes : Schema Content NodesConfigFile
  pub network : Schema Content NetworkConfig
  pub devices : Schema Content DevicesConfig
  pub schedules : Schema Content SchedulesConfig
  pub firewall : Schema Content FirewallConfig
  pub plugins : Schema Content PluginsConfig
  pub providers : Schema Content ProvidersConfigFile
  pub legacy_forwards : Content → Option (List PortForwardConfig)
  pub legacy_rules : Content → Option (List InputRuleConfig)

-- `text.replace("\t", "  ")`; 9 is the code of the tabulator
unfoldable pub untab : String → String
untab String.[] = String.[]
untab (String.◌∷◌ c s) =
    let rest = untab s in
    if eqb (code c) 9 then String.◌∷◌ " " (String.◌∷◌ " " rest) else String.◌∷◌ c rest

-- the gateways of both places, each id once
unfoldable pub combine : List EdgeGatewayConfig → List EdgeGatewayConfig → List EdgeGatewayConfig
combine known [] = known
combine known (gw ∷ gws) =
    combine
      (if any (λ (g : EdgeGatewayConfig). g.id == gw.id) known then known else known ++ gw ∷ []) gws

-- the validator of a NetworkConfig that runs last
unfoldable pub sync_edge_gateways : NetworkConfig → NetworkConfig
sync_edge_gateways n = elim n.network [
  | none ↦ n
  | some settings ↦
      let combined = combine n.edge_gateways settings.edge_gateways in
      record n {
        edge_gateways = combined;
        network = some (record settings { edge_gateways = combined });
      }
]

module _ {Content : Type 0} (yaml : Yaml Content) where
  -- `yaml.safe_load(text) or {}`
  abbrev pub or_empty : Content → Content
  or_empty c = if yaml.is_false c then yaml.empty else c

  -- what a file holds; one that is missing or broken holds nothing
  abbrev pub loaded : Result Content → Content
  loaded (err e) = yaml.empty
  loaded (ok c) = or_empty c

  unfoldable pub content_of : Option String → Content
  content_of none = yaml.empty
  content_of (some text) = loaded (yaml.safe_load (untab text))

  module _ {File : Type 0} (schema : Schema Content File) where
    -- a file that is not valid counts as empty
    abbrev pub or_default : Result File → Result File
    or_default (err e) = schema.model_validate yaml.empty
    or_default (ok parsed) = ok parsed

    unfoldable pub parse : Option String → Result File
    parse text = or_default (schema.model_validate (content_of text))

    -- save_config_file
    unfoldable pub save_config_file : String → File → Dict String → Dict String
    save_config_file name model files = Dict.put name (schema.dump model) files

  unfoldable pub network_schema : Schema Content NetworkConfig
  network_schema = record {
    model_validate = λ c. yaml.network.model_validate c >>= λ n. ok (sync_edge_gateways n);
    dump = yaml.network.dump;
  }

  unfoldable pub schedules_schema : Schema Content SchedulesConfig
  schedules_schema = record {
    model_validate = λ c. yaml.schedules.model_validate c >>= λ p. ok (sync_firewall p);
    dump = yaml.schedules.dump;
  }

-- the older name of the bridge
abbrev pub old_bridge : NetworkBridge → Bool
old_bridge b = b.name == "br-lan"

abbrev pub old_interface : NetworkInterface → Bool
old_interface i = is i.bridge_name "br-lan"

unfoldable pub has_migration : NetworkConfig → Bool
has_migration n = elim n.network [
  | none ↦ false
  | some s ↦ any old_bridge s.bridges || any old_interface s.interfaces
]

abbrev pub new_bridge : NetworkBridge → NetworkBridge
new_bridge b = if old_bridge b then record b { name = "br0" } else b

abbrev pub new_interface : NetworkInterface → NetworkInterface
new_interface i = if old_interface i then record i { bridge_name = some "br0" } else i

unfoldable pub migrate : NetworkConfig → NetworkConfig
migrate n = elim n.network [
  | none ↦ n
  | some s ↦ record n {
    network = some (record s {
      bridges = map new_bridge s.bridges;
      interfaces = map new_interface s.interfaces;
    });
  }
]

-- the network section, once its gateways are combined anew
unfoldable pub network_of : NetworkConfig → NetworkConfig
network_of n = sync_edge_gateways (migrate n)

-- `parsed.schedules`, or the list of the older place
unfoldable pub schedules_of : SchedulesConfig → List ScheduleConfig
schedules_of p = or_list p.schedules (or_else p.firewall [])

unfoldable pub empty_firewall : FirewallSettings
empty_firewall = record {
  port_forwards = [];
  rules = [];
  block_doh = false;
  block_vpns = false;
  block_quic = false;
  custom_doh_ips = [];
  custom_vpn_ips = [];
}

unfoldable pub merge_firewall : FirewallConfig → FirewallSettings → FirewallSettings
merge_firewall p f = elim p.firewall [
  | none ↦ f
  | some s ↦ record s {
    port_forwards = or_list s.port_forwards f.port_forwards;
    rules = or_list s.rules f.rules;
  }
]

-- What the files of a directory hold, once each is read.
pub record Sections : Type 0 where
  pub system : SystemConfig
  pub network : NetworkConfig
  pub nodes : NodesConfigFile
  pub devices : DevicesConfig
  pub schedules : SchedulesConfig
  pub legacy : FirewallSettings
  pub firewall : FirewallConfig
  pub plugins : PluginsConfig
  pub providers : ProvidersConfigFile

-- `RoostConfig.model_validate(raw_data)`
unfoldable pub assemble_with : Sections → NetworkSettings → RoostConfig
assemble_with p network = record {
  system = p.system.system;
  users = p.system.users;
  network = network;
  nodes = p.nodes.nodes;
  wifi = p.network.wifi;
  vpns = p.network.vpns;
  edge_gateways = p.network.edge_gateways;
  people = p.devices.people;
  buildings = p.devices.buildings;
  rooms = p.devices.rooms;
  devices = p.devices.devices;
  firewall = merge_firewall p.firewall p.legacy;
  schedules = schedules_of p.schedules;
  plugins = p.plugins.plugins;
  providers = p.providers.providers;
}

abbrev pub validated : RoostConfig → Result RoostConfig
validated c = validate_cross_references c >>= λ _. ok c

abbrev pub assemble_found : Sections → Option NetworkSettings → Result RoostConfig
assemble_found p none = err "network: Input should be a valid dictionary"
assemble_found p (some network) = validated (assemble_with p network)

unfoldable pub assemble : Sections → Result RoostConfig
assemble p = assemble_found p p.network.network

module _ {Content : Type 0} (yaml : Yaml Content) where
  unfoldable pub legacy_of : Content → FirewallSettings
  legacy_of c = record empty_firewall {
    port_forwards = or_else (yaml.legacy_forwards c) [];
    rules = or_else (yaml.legacy_rules c) [];
  }

  -- the rest of the loop, after the files of the system and of the network
  unfoldable pub load_rest : Dict String → SystemConfig → NetworkConfig → Result RoostConfig
  load_rest files system network = parse yaml yaml.nodes (Dict.get "nodes.yaml" files) >>= λ nodes.
      (parse yaml yaml.devices (Dict.get "devices.yaml" files) >>= λ devices.
      (parse yaml (schedules_schema yaml) (Dict.get "schedules.yaml" files) >>= λ schedules.
      (parse yaml yaml.firewall (Dict.get "firewall.yaml" files) >>= λ firewall.
      (parse yaml yaml.plugins (Dict.get "plugins.yaml" files) >>= λ plugins.
      (parse yaml yaml.providers (Dict.get "providers.yaml" files) >>= λ providers.
      assemble (record {
        system = system;
        network = network;
        nodes = nodes;
        devices = devices;
        schedules = schedules;
        legacy = legacy_of (content_of yaml (Dict.get "schedules.yaml" files));
        firewall = firewall;
        plugins = plugins;
        providers = providers;
      }))))))

  -- a network with the older bridge is written back with the new one
  unfoldable pub write_back : NetworkConfig → Dict String → Dict String
  write_back n files =
      if has_migration n
      then save_config_file yaml yaml.network "network.yaml" (migrate n) files
      else files

  abbrev pub load_network :
      Dict String → SystemConfig → Result NetworkConfig → Dict String × Result RoostConfig
  load_network files system (err e) = (files, err e)
  load_network files system (ok n) =
      let rest = write_back n files in (rest, load_rest rest system (network_of n))

  abbrev pub load_system : Dict String → Result SystemConfig → Dict String × Result RoostConfig
  load_system files (err e) = (files, err e)
  load_system files (ok system) =
      load_network files system (parse yaml (network_schema yaml) (Dict.get "network.yaml" files))

  -- the directory after the call, and the configuration
  unfoldable pub load_config_directory : Dict String → Dict String × Result RoostConfig
  load_config_directory files =
      load_system files (parse yaml yaml.system (Dict.get "system.yaml" files))

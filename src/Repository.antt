-- ===== src/Repository.antt =====
-- roostos-engine/src/roostos_engine/repository.py: the repositories of the configuration. A listener
-- is known by its name; what is told to listeners is a list of the events, in order. The directory
-- of the active files exists; that of the staged files may not.
pub mod Staged
pub mod Refinement
pub mod Commit
pub mod Committed
use Prim.Native.Nat.{ℕ}
use Prim.Native.String.{String}
use text.Mathlib.Text.{◌==◌}
use mathlib.Core.Bool.{Bool, true, false, not}
use mathlib.Core.Option.{Option, none, some}
use mathlib.Core.List.{List, [], ◌∷◌, ◌++◌, map}
use roostos.Prelude.{length, ltb, has, discard, keep, or_else, if◌then◌else◌}
use roostos.Prelude.Dict
use roostos.Prelude.Dict.{Dict}
use roostos.Prelude.Result.{Result, ok, err, ◌>>=◌}
use roostos.Prelude.Text.{ends_with}
use roostos.Models.{NetworkSettings, FirewallSettings, RoostConfig}
use roostos.ConfigFiles.{
  SystemConfig, NodesConfigFile, NetworkConfig, DevicesConfig, SchedulesConfig, FirewallConfig,
  PluginsConfig, Schema, Yaml, untab, or_empty, save_config_file, network_schema, schedules_schema,
  empty_firewall, load_config_directory,
}

pub record ConfigChangeEvent : Type 0 where
  pub section : String
  pub action : String

-- `_listeners`, and what they were told
pub record Listeners : Type 0 where
  pub names : List String
  pub told : List (String × ConfigChangeEvent)

unfoldable pub add_listener : String → Listeners → Listeners
add_listener l s = if has l s.names then s else record s { names = s.names ++ l ∷ [] }

-- a listener is in the list once, so that `remove` takes all of it
unfoldable pub remove_listener : String → Listeners → Listeners
remove_listener l s = record s { names = discard l s.names }

unfoldable pub notify_change : String → String → Listeners → Listeners
notify_change section action s = record s {
  told = s.told ++ map (λ (l : String). (l, record { section = section; action = action })) s.names;
}

-- The argument of save_network_config: the settings alone, or a whole file.
pub data NetworkData : Type 0 where
  settings : NetworkSettings → NetworkData
  file : NetworkConfig → NetworkData

-- A call of one of the save methods.
pub data Save : Type 0 where
  system : SystemConfig → Save
  nodes : NodesConfigFile → Save
  devices : DevicesConfig → Save
  network : NetworkData → Save
  schedules : SchedulesConfig → Save
  firewall : FirewallConfig → Save
  plugins : PluginsConfig → Save

module _ {Content : Type 0} (yaml : Yaml Content) where
  -- the settings in the file that is there, or in a new one
  abbrev pub with_settings : NetworkSettings → Result NetworkConfig → NetworkConfig
  with_settings s (err e) = record {
    network = some s;
    wifi = none;
    vpns = [];
    edge_gateways = s.edge_gateways;
  }
  with_settings s (ok existing) = record existing {
    network = some s;
    edge_gateways = s.edge_gateways;
  }

  -- the file that is there, read without the replacement of tabulators
  abbrev pub existing : Option String → Result NetworkConfig
  existing none = err "no file"
  existing (some text) =
      yaml.safe_load text >>= λ c. (network_schema yaml).model_validate (or_empty yaml c)

  unfoldable pub network_file : Option String → NetworkData → NetworkConfig
  network_file text (file n) = n
  network_file text (settings s) = with_settings s (existing text)

  -- the save methods of a directory; `text` is the network file that a save of settings keeps
  unfoldable pub save_file : Option String → Save → Dict String → Dict String
  save_file text (system d) files = save_config_file yaml yaml.system "system.yaml" d files
  save_file text (nodes d) files = save_config_file yaml yaml.nodes "nodes.yaml" d files
  save_file text (devices d) files = save_config_file yaml yaml.devices "devices.yaml" d files
  save_file text (network d) files =
      save_config_file yaml yaml.network "network.yaml" (network_file text d) files
  save_file text (schedules d) files =
      save_config_file yaml (schedules_schema yaml) "schedules.yaml" d files
  save_file text (firewall d) files = save_config_file yaml yaml.firewall "firewall.yaml" d files
  save_file text (plugins d) files = save_config_file yaml yaml.plugins "plugins.yaml" d files

unfoldable pub section_of : Save → String
section_of (system d) = "system"
section_of (nodes d) = "nodes"
section_of (devices d) = "devices"
section_of (network d) = "network"
section_of (schedules d) = "schedules"
section_of (firewall d) = "firewall"
section_of (plugins d) = "plugins"

pub record YamlConfigRepository : Type 0 where
  pub files : Dict String
  pub listeners : Listeners

module _ {Content : Type 0} (yaml : Yaml Content) where
  -- the save methods of a YAMLConfigRepository
  unfoldable pub save_active : Save → YamlConfigRepository → YamlConfigRepository
  save_active call r = record {
    files = save_file yaml (Dict.get "network.yaml" r.files) call r.files;
    listeners = notify_change (section_of call) "save" r.listeners;
  }

  unfoldable pub get_active : YamlConfigRepository → YamlConfigRepository × Result RoostConfig
  get_active r =
      let (files, config) = load_config_directory yaml r.files in
      (record r { files = files }, config)

pub record StagingConfigRepository : Type 0 where
  pub active_repo : YamlConfigRepository
  pub staged : Option (Dict String)
  pub listeners : Listeners

abbrev pub is_yaml : String → Bool
is_yaml name = ends_with ".yaml" name

-- the names of the staged YAML files
unfoldable pub staged_files : Dict String → List String
staged_files staged = keep is_yaml (Dict.keys staged)

unfoldable pub has_staged_changes : StagingConfigRepository → Bool
has_staged_changes r = elim r.staged [
  | none ↦ false
  | some staged ↦ ltb 0 (length (staged_files staged))
]

-- the loops over the staged files
unfoldable pub remove_files : List String → Dict String → Dict String
remove_files [] staged = staged
remove_files (name ∷ names) staged = remove_files names (Dict.pop name staged)

abbrev pub copy_file : String → Option String → Dict String → Dict String
copy_file name none active = active
copy_file name (some text) active = Dict.put name text active

unfoldable pub copy_files : List String → Dict String → Dict String → Dict String
copy_files [] staged active = active
copy_files (name ∷ names) staged active =
    copy_files names staged (copy_file name (Dict.get name staged) active)

unfoldable pub commit_staged_changes : StagingConfigRepository → StagingConfigRepository
commit_staged_changes r = elim r.staged [
  | none ↦ r
  | some staged ↦ record {
    active_repo = record {
      files = copy_files (staged_files staged) staged r.active_repo.files;
      listeners = notify_change "commit" "commit" r.active_repo.listeners;
    };
    staged = some (remove_files (staged_files staged) staged);
    listeners = notify_change "commit" "commit" r.listeners;
  }
]

unfoldable pub discard_staged_changes : StagingConfigRepository → StagingConfigRepository
discard_staged_changes r = elim r.staged [
  | none ↦ r
  | some staged ↦ record r { staged = some (remove_files (staged_files staged) staged) }
]

unfoldable pub add_staging_listener : String → StagingConfigRepository → StagingConfigRepository
add_staging_listener l r = record r {
  listeners = add_listener l r.listeners;
  active_repo = record r.active_repo { listeners = add_listener l r.active_repo.listeners };
}

-- An attribute that a staged file sets, or leaves.
abbrev pub set_by : {F A : Type 0} → Option F → (F → A) → A → A
set_by none f a = a
set_by (some p) f a = f p

abbrev pub settings_of : Option FirewallConfig → Option FirewallSettings
settings_of none = none
settings_of (some p) = p.firewall

-- the fields of a firewall section, one by one
abbrev pub set_system : Option SystemConfig → RoostConfig → RoostConfig
set_system o c = record c {
  system = set_by o (λ p. p.system) c.system;
  users = set_by o (λ p. p.users) c.users;
}

abbrev pub set_nodes : Option NodesConfigFile → RoostConfig → RoostConfig
set_nodes o c = record c { nodes = set_by o (λ p. p.nodes) c.nodes }

abbrev pub set_devices : Option DevicesConfig → RoostConfig → RoostConfig
set_devices o c = record c {
  people = set_by o (λ p. p.people) c.people;
  buildings = set_by o (λ p. p.buildings) c.buildings;
  rooms = set_by o (λ p. p.rooms) c.rooms;
  devices = set_by o (λ p. p.devices) c.devices;
}

abbrev pub set_schedules : Option SchedulesConfig → RoostConfig → RoostConfig
set_schedules o c = record c { schedules = set_by o (λ p. p.schedules) c.schedules }

abbrev pub set_firewall : Option FirewallConfig → RoostConfig → RoostConfig
set_firewall o c = record c { firewall = set_by (settings_of o) (λ s. s) c.firewall }

abbrev pub set_plugins : Option PluginsConfig → RoostConfig → RoostConfig
set_plugins o c = record c { plugins = set_by o (λ p. p.plugins) c.plugins }

-- A staged file without a network section leaves a configuration whose network is None; nothing can
-- read it, and it counts as an error.
abbrev pub network_set : NetworkConfig → Option NetworkSettings → RoostConfig → Result RoostConfig
network_set p none c = err "'NoneType' object has no attribute"
network_set p (some s) c =
    ok (record c { network = s; wifi = p.wifi; vpns = p.vpns; edge_gateways = p.edge_gateways })

abbrev pub set_network : Option NetworkConfig → RoostConfig → Result RoostConfig
set_network none c = ok c
set_network (some p) c = network_set p p.network c

-- the network file that a save of settings keeps: the staged one, or the active one
abbrev pub kept_file : Option String → Option String → Option String
kept_file none active = active
kept_file (some text) active = some text

module _ {Content : Type 0} (yaml : Yaml Content) where
  -- _load_staged_yaml: a file that is broken holds nothing
  abbrev pub staged_content : Result Content → Content
  staged_content (err e) = yaml.empty
  staged_content (ok c) = or_empty yaml c

  unfoldable pub load_staged_yaml : String → Content
  load_staged_yaml text = staged_content (yaml.safe_load (untab text))

  -- the model in a staged file, when the file is there
  abbrev pub staged_model :
      {File : Type 0} → Schema Content File → Option String → Result (Option File)
  staged_model schema none = ok none
  staged_model schema (some text) =
      schema.model_validate (load_staged_yaml text) >>= λ p. ok (some p)

  -- the chain of the staged files over the active configuration
  unfoldable pub overlay : Dict String → RoostConfig → Result RoostConfig
  overlay staged c = staged_model yaml.system (Dict.get "system.yaml" staged) >>= λ system.
      (staged_model yaml.nodes (Dict.get "nodes.yaml" staged) >>= λ nodes.
      (staged_model (network_schema yaml) (Dict.get "network.yaml" staged) >>= λ network.
      (set_network network (set_nodes nodes (set_system system c)) >>= λ c1.
      (staged_model yaml.devices (Dict.get "devices.yaml" staged) >>= λ devices.
      (staged_model (schedules_schema yaml) (Dict.get "schedules.yaml" staged) >>= λ schedules.
      (staged_model yaml.firewall (Dict.get "firewall.yaml" staged) >>= λ firewall.
      (staged_model yaml.plugins (Dict.get "plugins.yaml" staged) >>= λ plugins. ok (
        set_plugins plugins
          (set_firewall firewall (set_schedules schedules (set_devices devices c1)))))))))))

  abbrev pub overlay_found : Option (Dict String) → RoostConfig → Result RoostConfig
  overlay_found none c = ok c
  overlay_found (some staged) c = overlay staged c

  -- the repository after the call, and the configuration
  unfoldable pub get_config : StagingConfigRepository → StagingConfigRepository × Result RoostConfig
  get_config r =
      let (active, config) = get_active yaml r.active_repo in
      (record r { active_repo = active }, config >>= overlay_found r.staged)

  -- a save to the stage; the file cannot be opened where the directory is missing
  unfoldable pub save_staged : Save → StagingConfigRepository → Result StagingConfigRepository
  save_staged call r = elim r.staged [
    | none ↦ err "No such file or directory"
    | some staged ↦ ok (record r {
      staged = some (
          save_file yaml
            (kept_file (Dict.get "network.yaml" staged)
              (Dict.get "network.yaml" r.active_repo.files))
            call staged);
    })
  ]

-- InMemoryConfigRepository

pub record InMemoryConfigRepository : Type 0 where
  pub config : RoostConfig
  pub listeners : Listeners

-- `data.firewall`, or the attributes that a FirewallConfig without it does not have
abbrev pub memory_firewall : Option FirewallSettings → FirewallSettings
memory_firewall none = empty_firewall
memory_firewall (some s) = s

-- the network section stays None where the file has none; see network_set
abbrev pub memory_network :
    NetworkConfig → Option NetworkSettings → RoostConfig → Result RoostConfig
memory_network p none c = err "'NoneType' object has no attribute"
memory_network p (some s) c = ok (record c { network = s; wifi = p.wifi; vpns = p.vpns })

unfoldable pub store : Save → RoostConfig → Result RoostConfig
store (system d) c = ok (record c { system = d.system; users = d.users })
store (nodes d) c = ok (record c { nodes = d.nodes })
store (devices d) c =
    ok (record c {
      people = d.people;
      buildings = d.buildings;
      rooms = d.rooms;
      devices = d.devices;
    })
store (network (settings s)) c = err "'NetworkSettings' object has no attribute 'network'"
store (network (file n)) c = memory_network n n.network c
store (schedules d) c = ok (record c { schedules = d.schedules })
store (firewall d) c = ok (record c { firewall = memory_firewall d.firewall })
store (plugins d) c = ok (record c { plugins = d.plugins })

unfoldable pub save_memory : Save → InMemoryConfigRepository → Result InMemoryConfigRepository
save_memory call r = store call r.config >>= λ c.
    ok (record { config = c; listeners = notify_change (section_of call) "save" r.listeners })

unfoldable pub get_memory : InMemoryConfigRepository → RoostConfig
get_memory r = r.config

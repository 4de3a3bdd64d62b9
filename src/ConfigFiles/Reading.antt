-- ===== src/ConfigFiles/Reading.antt =====
-- What the files of a directory hold, section by section, when the directory is loaded.
use Prim.Native.String.{String}
use text.Mathlib.Text.{◌==◌}
use mathlib.Core.Path.{◌≡◌, refl, ◌∙◌}
use mathlib.Core.Logic.{inl, inr}
use mathlib.Core.Bool.{false}
use roostos.Prelude.{Bool-cases}
use roostos.Prelude.Dict
use roostos.Prelude.Dict.{Dict, get-put}
use roostos.Prelude.Result.{ok, >>=-eq-ok, Result-cases}
use roostos.Models.{RoostConfig}
use roostos.ConfigFiles.{
  SystemConfig, NetworkConfig, Yaml, Sections, parse, content_of, network_schema, schedules_schema,
  network_of, legacy_of, assemble, load_rest, write_back, load_config_directory, save_config_file,
  has_migration,
}

module _ {Content : Type 0} (yaml : Yaml Content) where
  -- The sections of a directory, where every file is read.
  pub record Reads (files : Dict String) (p : Sections) : Type 0 where
    pub raw : NetworkConfig
    pub system : parse yaml yaml.system (Dict.get "system.yaml" files) ≡ ok p.system
    pub network : parse yaml (network_schema yaml) (Dict.get "network.yaml" files) ≡ ok raw
    pub migrated : network_of raw ≡ p.network
    pub nodes : parse yaml yaml.nodes (Dict.get "nodes.yaml" files) ≡ ok p.nodes
    pub devices : parse yaml yaml.devices (Dict.get "devices.yaml" files) ≡ ok p.devices
    pub schedules :
        parse yaml (schedules_schema yaml) (Dict.get "schedules.yaml" files) ≡ ok p.schedules
    pub legacy : legacy_of yaml (content_of yaml (Dict.get "schedules.yaml" files)) ≡ p.legacy
    pub firewall : parse yaml yaml.firewall (Dict.get "firewall.yaml" files) ≡ ok p.firewall
    pub plugins : parse yaml yaml.plugins (Dict.get "plugins.yaml" files) ≡ ok p.plugins
    pub providers : parse yaml yaml.providers (Dict.get "providers.yaml" files) ≡ ok p.providers

  -- The network that is written back leaves the other files.
  get-write_back :
      (name : String) (n : NetworkConfig) (files : Dict String)
      → ("network.yaml" == name) ≡ false
      → Dict.get name (write_back yaml n files) ≡ Dict.get name files
  unfolding write_back save_config_file
  get-write_back name n files e = elim (Bool-cases (has_migration n)) [
    | inl h ↦ rw h (get-put "network.yaml" name _ files ∙ rw e refl)
    | inr h ↦ rw h refl
  ]

  load_rest-write_back :
      (files : Dict String) (n : NetworkConfig) (s : SystemConfig) (m : NetworkConfig)
      → load_rest yaml (write_back yaml n files) s m ≡ load_rest yaml files s m
  unfolding load_rest
  load_rest-write_back files n s m =
      rw
        (
          get-write_back "nodes.yaml" n files refl,
          get-write_back "devices.yaml" n files refl,
          get-write_back "schedules.yaml" n files refl,
          get-write_back "firewall.yaml" n files refl,
          get-write_back "plugins.yaml" n files refl,
          get-write_back "providers.yaml" n files refl,
        )
        refl

  -- A directory whose files are read gives what they hold together.
  pub load_config_directory-Reads :
      (files : Dict String) (p : Sections)
      → Reads files p
      → (load_config_directory yaml files).1 ≡ assemble p
  unfolding load_config_directory
  load_config_directory-Reads files p r =
      rw (r.system, r.network, load_rest-write_back files r.raw p.system (network_of r.raw))
        (unfold load_rest in
          rw
            (
              r.migrated, r.nodes, r.devices, r.schedules, r.firewall, r.plugins, r.providers,
              r.legacy,
            )
            refl)

  load_rest-ok :
      (files : Dict String) (s : SystemConfig) (n : NetworkConfig) (c : RoostConfig)
      → parse yaml yaml.system (Dict.get "system.yaml" files) ≡ ok s
      → parse yaml (network_schema yaml) (Dict.get "network.yaml" files) ≡ ok n
      → load_rest yaml files s (network_of n) ≡ ok c
      → (p : Sections) × Reads files p × (assemble p ≡ ok c)
  unfolding load_rest
  load_rest-ok files s n c es en h =
      let (nodes, e1, h1) = >>=-eq-ok (parse yaml yaml.nodes (Dict.get "nodes.yaml" files)) _ h in
      let (devices, e2, h2) =
        >>=-eq-ok (parse yaml yaml.devices (Dict.get "devices.yaml" files)) _ h1 in
      let (schedules, e3, h3) =
        >>=-eq-ok (parse yaml (schedules_schema yaml) (Dict.get "schedules.yaml" files)) _ h2 in
      let (firewall, e4, h4) =
        >>=-eq-ok (parse yaml yaml.firewall (Dict.get "firewall.yaml" files)) _ h3 in
      let (plugins, e5, h5) =
        >>=-eq-ok (parse yaml yaml.plugins (Dict.get "plugins.yaml" files)) _ h4 in
      let (providers, e6, h6) =
        >>=-eq-ok (parse yaml yaml.providers (Dict.get "providers.yaml" files)) _ h5 in
      (
        record {
          system = s;
          network = network_of n;
          nodes = nodes;
          devices = devices;
          schedules = schedules;
          legacy = legacy_of yaml (content_of yaml (Dict.get "schedules.yaml" files));
          firewall = firewall;
          plugins = plugins;
          providers = providers;
        },
        record {
          raw = n;
          system = es;
          network = en;
          migrated = refl;
          nodes = e1;
          devices = e2;
          schedules = e3;
          legacy = refl;
          firewall = e4;
          plugins = e5;
          providers = e6;
        },
        h6,
      )

  -- A directory that gives a configuration has its files read.
  pub load_config_directory-ok :
      (files : Dict String) (c : RoostConfig)
      → (load_config_directory yaml files).1 ≡ ok c
      → (p : Sections) × Reads files p × (assemble p ≡ ok c)
  unfolding load_config_directory
  load_config_directory-ok files c h =
      elim (Result-cases (parse yaml yaml.system (Dict.get "system.yaml" files))) [
        | inr (message, es) ↦ absurd (let q = rw es at h in cc)
        | inl (s, es) ↦
            elim (Result-cases (parse yaml (network_schema yaml) (Dict.get "network.yaml" files))) [
              | inr (message, en) ↦ absurd (let q = rw (es, en) at h in cc)
              | inl (n, en) ↦
                  let q = rw (es, en, load_rest-write_back files n s (network_of n)) at h in
                  load_rest-ok files s n c es en q
            ]
      ]

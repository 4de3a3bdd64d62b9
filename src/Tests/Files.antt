-- ===== src/Tests/Files.antt =====
-- Tests of the configuration directory and of the staged files.
use Prim.Native.String.{String}
use text.Mathlib.Text.{◌==◌}
use mathlib.Core.Path.{◌≡◌}
use mathlib.Core.Bool.{true, false}
use mathlib.Core.Option.{none, some}
use mathlib.Core.List.{List, [], ◌∷◌}
use roostos.Prelude.{if◌then◌else◌}
use roostos.Prelude.Result.{ok}
use roostos.Models.{RoostConfig, NetworkSettings}
use roostos.ConfigFiles.{
  SchedulesConfig, FirewallConfig, Yaml, empty_firewall, load_config_directory,
}
use roostos.Repository.{
  Listeners, YamlConfigRepository, StagingConfigRepository, Save, schedules, firewall,
  has_staged_changes, discard_staged_changes, get_config,
}
use roostos.Repository.Staged.{StagedModels, no_models}
use roostos.Repository.Commit.{get_config-discard}
use roostos.Tests.Household.{bedtime}

abbrev no_network : NetworkSettings
no_network = record {
  interfaces = [];
  bridges = [];
  vlans = [];
  zones = [];
  gateways = [];
  edge_gateways = [];
}

abbrev night_only : SchedulesConfig
night_only = record {
  schedules = (record bedtime { targets = [] }) ∷ [];
  firewall = some ((record bedtime { targets = [] }) ∷ []);
}

abbrev strict : FirewallConfig
strict = record { firewall = some (record empty_firewall { block_doh = true }) }

-- A YAML that knows one file of schedules and one of the firewall, and reads the others as empty.
abbrev toy : Yaml String
toy = record {
  safe_load = λ t. ok t;
  is_false = λ t. t == "";
  empty = "";
  system = record {
    model_validate = λ t. ok (record {
      system = record { hostname = "router"; dns = none; cluster = none };
      users = [];
    });
    dump = λ m. "system";
  };
  nodes = record { model_validate = λ t. ok (record { nodes = [] }); dump = λ m. "nodes" };
  network = record {
    model_validate =
        λ t. ok (record { network = some no_network; wifi = none; vpns = []; edge_gateways = [] });
    dump = λ m. "network";
  };
  devices = record {
    model_validate = λ t. ok (record { people = []; buildings = []; rooms = []; devices = [] });
    dump = λ m. "devices";
  };
  schedules = record {
    model_validate = λ t.
        if t == "night"
        then ok (record night_only { firewall = none })
        else ok (record { schedules = []; firewall = none });
    dump = λ m. "night";
  };
  firewall = record {
    model_validate =
        λ t. if t == "strict" then ok strict else ok (record { firewall = some empty_firewall });
    dump = λ m. "strict";
  };
  plugins = record { model_validate = λ t. ok (record { plugins = [] }); dump = λ m. "plugins" };
  providers = record {
    model_validate = λ t. ok (record { providers = none });
    dump = λ m. "providers";
  };
  legacy_forwards = λ t. none;
  legacy_rules = λ t. none;
}

abbrev pub nobody : Listeners
nobody = record { names = []; told = [] }

abbrev blank : YamlConfigRepository
blank = record { files = []; listeners = nobody }

abbrev pub plain : RoostConfig
plain = record {
  system = record { hostname = "router"; dns = none; cluster = none };
  users = [];
  network = no_network;
  nodes = [];
  wifi = none;
  vpns = [];
  edge_gateways = [];
  people = [];
  buildings = [];
  rooms = [];
  devices = [];
  firewall = empty_firewall;
  schedules = [];
  plugins = [];
  providers = none;
}

abbrev saves : List Save
saves = schedules night_only ∷ firewall strict ∷ []

abbrev staging : StagingConfigRepository
staging = record {
  active_repo = blank;
  staged = some (("schedules.yaml", "night") ∷ []);
  listeners = nobody;
}

get_config-discard_example :
    (has_staged_changes (discard_staged_changes staging) ≡ false)
    × ((discard_staged_changes staging).active_repo ≡ blank)
    × ((get_config toy (discard_staged_changes staging)).1 ≡ (load_config_directory toy []).1)
get_config-discard_example = get_config-discard toy staging

abbrev models : StagedModels
models = record no_models { schedules = some night_only }

-- ===== src/Tests/Household.antt =====
-- The data of the tests.
use Prim.Native.Nat.{◌+◌, ◌*◌}
use Prim.Native.String.{String}
use mathlib.Core.Bool.{true, false}
use mathlib.Core.Option.{none, some}
use mathlib.Core.List.{List, [], ◌∷◌}
use roostos.Models.{DeviceConfig, ScheduleConfig, RoostConfig}
use roostos.Schedule.{Datetime}
use roostos.Allowance.{Tracker, Inputs}

abbrev pub tablet : DeviceConfig
tablet = record {
  mac = "aa:bb:cc:dd:ee:01";
  name = "tablet";
  owner = some "kid";
  location = none;
  tags = "kids" ∷ [];
  static_ip = none;
  upnp_trusted = false;
  upnp_allowed_ports = [];
  gateway = none;
  max_download_kbps = none;
  max_upload_kbps = none;
}

abbrev pub laptop : DeviceConfig
laptop = record {
  mac = "AA-BB-CC-DD-EE-2";
  name = "laptop";
  owner = some "parent";
  location = none;
  tags = [];
  static_ip = none;
  upnp_trusted = false;
  upnp_allowed_ports = [];
  gateway = some "vpn";
  max_download_kbps = none;
  max_upload_kbps = none;
}

abbrev every_day : List String
every_day = "Monday" ∷ "Tuesday" ∷ "Wednesday" ∷ "Thursday" ∷ "Friday" ∷ "Saturday" ∷ "Sunday" ∷ []

abbrev pub bedtime : ScheduleConfig
bedtime = record {
  name = "bedtime";
  targets =
      record { tag = none; person = some "kid"; location = none; mac = none; zone = none } ∷ [];
  days = every_day;
  start_time = some "21:30";
  end_time = some "07:00";
  daily_limit = some 60;
  action = "block";
}

abbrev pub home : RoostConfig
home = record {
  system = record { hostname = "roost"; dns = none; cluster = none };
  users = [];
  network = record {
    interfaces = record { name = "wan0"; network = "wan"; bridge_name = none } ∷ [];
    bridges =
        record {
          name = "br-lan";
          ip = "192.168.1.1/24";
          isolate = false;
          dhcp_enabled = true;
          dhcp_pool_start = none;
          dhcp_pool_end = none;
        }
        ∷ [];
    vlans =
        record {
          name = "guest";
          id = 20;
          interface = "eth1";
          ip = "192.168.20.1/24";
          isolate = true;
          dhcp_enabled = true;
          dhcp_pool_start = none;
          dhcp_pool_end = none;
        }
        ∷ [];
    zones = [];
    gateways =
        record { id = "default"; name = "ISP"; interface = "wan0"; kind = "wan"; metric = 1 }
        ∷ record { id = "vpn"; name = "VPN"; interface = "wg0"; kind = "vpn"; metric = 2 }
        ∷ [];
    edge_gateways = [];
  };
  nodes = [];
  wifi = none;
  vpns = [];
  edge_gateways = [];
  people = record { id = "kid"; name = "Kid"; dns_profile = none } ∷ [];
  buildings = [];
  rooms = [];
  devices = tablet ∷ laptop ∷ [];
  firewall = record {
    port_forwards = [];
    rules = [];
    block_doh = true;
    block_vpns = false;
    block_quic = true;
    custom_doh_ips = [];
    custom_vpn_ips = [];
  };
  schedules = bedtime ∷ [];
  plugins = [];
  providers = none;
}

-- 22:00 on the day after the first
abbrev pub night : Datetime
night = (1440 + 22 * 60) * 60000000

abbrev pub at_night : Inputs
at_night = record {
  config = home;
  routing = ("ip" ∷ "rule" ∷ "show" ∷ []) ∷ [];
  active_macs = "aa:bb:cc:dd:ee:01" ∷ [];
  now = night;
}

abbrev pub fresh : Tracker
fresh = record {
  currently_blocked = [];
  allowance_usage = [];
  temporary_bypasses = [];
  nft_call_history = [];
  last_allowance_date = 0;
  expired = [];
}

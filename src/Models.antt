-- ===== src/Models.antt =====
-- The configuration: the models of roostos-engine/src/roostos_engine/models/, as far as the modules
-- here read them. Integers that count something are natural numbers.
use Prim.Native.Nat.{ℕ}
use Prim.Native.String.{String}
use text.Mathlib.Text.{◌==◌}
use mathlib.Core.Bool.{Bool, false}
use mathlib.Core.Option.{Option, none, some}
use mathlib.Core.List.{List}
use roostos.Nodes.{NodeConfig}
use roostos.Prelude.{if◌then◌else◌}

-- devices.py

pub record PersonConfig : Type 0 where
  pub id : String
  pub name : String
  pub dns_profile : Option String

pub record BuildingConfig : Type 0 where
  pub id : String
  pub name : String

pub record RoomConfig : Type 0 where
  pub id : String
  pub name : String
  pub building : String

pub record UPnPAllowedPort : Type 0 where
  pub port : ℕ
  pub protocol : String

pub record DeviceConfig : Type 0 where
  pub mac : String
  pub name : String
  pub owner : Option String
  pub location : Option String
  pub tags : List String
  pub static_ip : Option String
  pub upnp_trusted : Bool
  pub upnp_allowed_ports : List UPnPAllowedPort
  pub gateway : Option String
  pub max_download_kbps : Option ℕ
  pub max_upload_kbps : Option ℕ

-- schedules.py

pub record ScheduleTarget : Type 0 where
  pub tag : Option String
  pub person : Option String
  pub location : Option String
  pub mac : Option String
  pub zone : Option String

pub record ScheduleConfig : Type 0 where
  pub name : String
  pub targets : List ScheduleTarget
  pub days : List String
  pub start_time : Option String
  pub end_time : Option String
  pub daily_limit : Option ℕ
  pub action : String

-- network.py

pub record NetworkInterface : Type 0 where
  pub name : String
  pub network : String
  pub bridge_name : Option String

pub record NetworkBridge : Type 0 where
  pub name : String
  pub ip : String
  pub isolate : Bool
  pub dhcp_enabled : Bool
  pub dhcp_pool_start : Option String
  pub dhcp_pool_end : Option String

pub record NetworkVlan : Type 0 where
  pub name : String
  pub id : ℕ
  pub interface : String
  pub ip : String
  pub isolate : Bool
  pub dhcp_enabled : Bool
  pub dhcp_pool_start : Option String
  pub dhcp_pool_end : Option String

pub record NetworkGateway : Type 0 where
  pub id : String
  pub name : String
  pub interface : String
  pub kind : String
  pub metric : ℕ

pub record ZoneConfig : Type 0 where
  pub id : String
  pub name : String
  pub interfaces : List String
  pub isolate : Bool
  pub allow_zones : List String
  pub masquerade : Bool

pub record WifiAccessPoint : Type 0 where
  pub ssid : String
  pub passphrase : String
  pub security : String
  pub enabled : Bool

pub record WifiSettings : Type 0 where
  pub access_points : List WifiAccessPoint

pub record VpnConfig : Type 0 where
  pub id : String
  pub name : String
  pub kind : String
  pub role : String
  pub enabled : Bool

-- edge.py
pub record EdgeGatewayConfig : Type 0 where
  pub id : String
  pub name : String
  pub public_ip : String
  pub domain : Option String

pub record NetworkSettings : Type 0 where
  pub interfaces : List NetworkInterface
  pub bridges : List NetworkBridge
  pub vlans : List NetworkVlan
  pub zones : List ZoneConfig
  pub gateways : List NetworkGateway
  pub edge_gateways : List EdgeGatewayConfig

-- firewall.py

pub record PortForwardConfig : Type 0 where
  pub name : String
  pub protocol : String
  pub external_port : ℕ
  pub internal_ip : String
  pub internal_port : ℕ
  pub enabled : Bool

pub record InputRuleConfig : Type 0 where
  pub name : String
  pub interface : String
  pub protocol : String
  pub port : ℕ
  pub source : Option String
  pub action : String
  pub enabled : Bool

pub record FirewallSettings : Type 0 where
  pub port_forwards : List PortForwardConfig
  pub rules : List InputRuleConfig
  pub block_doh : Bool
  pub block_vpns : Bool
  pub block_quic : Bool
  pub custom_doh_ips : List String
  pub custom_vpn_ips : List String

-- system.py

pub record UserConfig : Type 0 where
  pub username : String
  pub role : String
  pub person : Option String
  pub ssh_keys : List String

pub record SystemDnsConfig : Type 0 where
  pub forwarders : List String
  pub ad_blocking_enabled : Bool

pub record ClusterSettingsConfig : Type 0 where
  pub node_id : Option String
  pub controller_url : Option String
  pub epoch : ℕ

pub record SystemSettings : Type 0 where
  pub hostname : String
  pub dns : Option SystemDnsConfig
  pub cluster : Option ClusterSettingsConfig

-- plugins.py

pub record PluginConfig : Type 0 where
  pub id : String
  pub enabled : Bool
  pub known_services : List String

-- providers.py
pub record ProvidersSettings : Type 0 where
  pub auth_provider : String
  pub config_repository : String
  pub auto_auth : Bool

-- `RoostConfig` of __init__.py, with the sections that are modelled
pub record RoostConfig : Type 0 where
  pub system : SystemSettings
  pub users : List UserConfig
  pub network : NetworkSettings
  pub nodes : List NodeConfig
  pub wifi : Option WifiSettings
  pub vpns : List VpnConfig
  pub edge_gateways : List EdgeGatewayConfig
  pub people : List PersonConfig
  pub buildings : List BuildingConfig
  pub rooms : List RoomConfig
  pub devices : List DeviceConfig
  pub firewall : FirewallSettings
  pub schedules : List ScheduleConfig
  pub plugins : List PluginConfig
  pub providers : Option ProvidersSettings

-- `if v:` on an optional text: neither `None` nor the empty text
abbrev pub truthy : Option String → Option String
truthy none = none
truthy (some s) = if s == "" then none else some s

-- `v == s` where `v` may be `None`
abbrev pub is : Option String → String → Bool
is none s = false
is (some t) s = t == s

-- ===== src/Nodes.antt =====
-- roostos-engine/src/roostos_engine/models/node.py: the nodes of a cluster and what they send.
use Prim.Native.Nat.{ℕ}
use Prim.Native.String.{String}
use text.Mathlib.Text.{◌==◌}
use mathlib.Core.Bool.{Bool}
use mathlib.Core.Option.{Option, none, some}
use mathlib.Core.List.{List}
use roostos.Prelude.Int.{ℤ}
use roostos.Prelude.{if◌then◌else◌}

pub data NodeRole : Type 0 where
  controller : NodeRole
  gateway_router : NodeRole
  access_point : NodeRole
  dns_resolver : NodeRole
  compute_node : NodeRole
  switch : NodeRole
  edge_gateway : NodeRole

-- `role.value`
unfoldable pub value : NodeRole → String
value controller = "controller"
value gateway_router = "gateway_router"
value access_point = "access_point"
value dns_resolver = "dns_resolver"
value compute_node = "compute_node"
value switch = "switch"
value edge_gateway = "edge_gateway"

-- `NodeRole(s)`, none where it raises
unfoldable pub role_of : String → Option NodeRole
role_of s =
    if s == "controller"
    then some controller
    else if s == "gateway_router"
    then some gateway_router
    else if s == "access_point"
    then some access_point
    else if s == "dns_resolver"
    then some dns_resolver
    else if s == "compute_node"
    then some compute_node
    else if s == "switch"
    then some switch
    else if s == "edge_gateway"
    then some edge_gateway
    else none

pub data InterfaceType : Type 0 where
  ethernet : InterfaceType
  wifi_radio : InterfaceType
  sfp : InterfaceType
  cellular : InterfaceType
  bridge : InterfaceType
  vlan : InterfaceType

pub data InterfaceMode : Type 0 where
  access : InterfaceMode
  trunk : InterfaceMode
  wan : InterfaceMode
  mesh : InterfaceMode
  unassigned : InterfaceMode

pub record WifiRadioSettings : Type 0 where
  pub band : Option String
  pub channel : Option ℕ
  pub channel_width : Option String
  pub tx_power_dbm : Option ℕ

pub record NodeInterface : Type 0 where
  pub name : String
  pub mac_address : Option String
  pub kind : InterfaceType
  pub network_id : Option String
  pub mode : InterfaceMode
  pub vlan_tag : Option ℕ
  pub bridge_name : Option String
  pub wifi_settings : Option WifiRadioSettings

pub record NodeCapabilities : Type 0 where
  pub has_wifi : Bool
  pub nic_count : ℕ
  pub cpu_arch : String
  pub cpu_cores : ℕ
  pub total_memory_mb : ℕ
  pub has_kvm : Bool

pub record NodeConfig : Type 0 where
  pub id : String
  pub name : String
  pub roles : List NodeRole
  pub management_ip : Option String
  pub mac_address : Option String
  pub location_id : Option String
  pub interfaces : List NodeInterface
  pub failover_priority : ℤ
  pub capabilities : Option NodeCapabilities

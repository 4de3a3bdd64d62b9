-- ===== src/Cluster.antt =====
-- roostos-engine/src/roostos_engine/cluster_manager.py: the controller's join tokens, heartbeats,
-- registrations and queues of commands. A time is a number of seconds; what the clock and the
-- random generator give is an argument.
pub mod Tokens
pub mod Commands
use Prim.Native.Nat.{ℕ, zero, suc, ◌+◌}
use Prim.Native.String
use Prim.Native.String.{String}
use text.Mathlib.Text.{◌==◌}
use mathlib.Core.Bool.{Bool, true, false, not, ◌&&◌, ◌||◌}
use mathlib.Core.Option.{Option, none, some}
use mathlib.Core.List.{List, [], ◌∷◌, ◌++◌, map}
use roostos.Prelude.Int.{pos}
use roostos.Prelude.{first, or_else, ltb, eqb, length, has, is_some, if◌then◌else◌}
use roostos.Prelude.Dict
use roostos.Prelude.Dict.{Dict}
use roostos.Prelude.Result.{Result, ok, err}
use roostos.Prelude.Text.{concat, starts_with}
use roostos.Models.{ClusterSettingsConfig, SystemSettings, truthy}
use roostos.Nodes.{
  NodeRole, gateway_router, value, role_of, NodeInterface, NodeCapabilities, NodeConfig,
}

-- `updates_status` of a heartbeat, each key where it is there
pub record UpdatesStatus : Type 0 where
  pub updates_available : Option ℕ
  pub security_updates_available : Option ℕ
  pub reboot_required : Option Bool
  pub packages : Option (List String)

-- `J` is the type of the values in a telemetry report.
pub record HealthReport (J : Type 0) : Type 0 where
  pub status : Option String
  pub telemetry : Option (Dict J)
  pub warnings : Option (List String)
  pub updates_status : Option UpdatesStatus

pub record Heartbeat (J : Type 0) : Type 0 where
  pub last_seen : String
  pub status : String
  pub telemetry : Dict J
  pub warnings : List String
  pub updates_status : Option UpdatesStatus

pub record ClusterManager (J : Type 0) : Type 0 where
  pub mock : Bool
  pub node_heartbeats : Dict (Heartbeat J)
  pub join_tokens : Dict ℕ
  pub pending_commands : Dict (List String)

pub record NodeSummary (J : Type 0) : Type 0 where
  pub id : String
  pub name : String
  pub roles : List String
  pub management_ip : Option String
  pub mac_address : Option String
  pub location_id : Option String
  pub interfaces_count : ℕ
  pub status : String
  pub last_seen : String
  pub telemetry : Dict J

pub record ClusterStatusSummary (J : Type 0) : Type 0 where
  pub role : String
  pub is_controller : Bool
  pub node_id : String
  pub node_name : String
  pub roles : List String
  pub controller_url : Option String
  pub connected_to_controller : Bool
  pub registered_nodes_count : ℕ
  pub nodes : List (NodeSummary J)

pub record UpdatesSummary : Type 0 where
  pub total_updates : ℕ
  pub total_security_updates : ℕ
  pub reboot_required_nodes : List String

-- The data of a join request, each key where it is there; a name or roles that are there and null,
-- which the call refuses, are left out.
pub record JoinData : Type 0 where
  pub node_id : Option String
  pub id : Option String
  pub name : Option String
  pub roles : Option (List String)
  pub management_ip : Option String
  pub mac_address : Option String
  pub location_id : Option String
  pub capabilities : Option NodeCapabilities
  pub interfaces : Option (List NodeInterface)

-- `next((n for n in nodes if n.id == node_id), None)`
unfoldable pub node_with : String → List NodeConfig → Option NodeConfig
node_with node_id nodes = first (λ (n : NodeConfig). n.id == node_id) nodes

abbrev pub cluster_of : SystemSettings → Option ClusterSettingsConfig
cluster_of settings = settings.cluster

abbrev own_id : Option ClusterSettingsConfig → String
own_id none = "node-01"
own_id (some c) = or_else (truthy c.node_id) "node-01"

abbrev url_of : Option ClusterSettingsConfig → Option String
url_of none = none
url_of (some c) = c.controller_url

abbrev roles_of : Option NodeConfig → List String
roles_of none = value gateway_router ∷ []
roles_of (some n) = map value n.roles

abbrev name_of : Option NodeConfig → String → String
name_of none hostname = hostname
name_of (some n) hostname = n.name

module _ {J : Type 0} where
  abbrev summary_with : NodeConfig → String → Option (Heartbeat J) → NodeSummary J
  summary_with n node_id none = record {
    id = n.id;
    name = n.name;
    roles = map value n.roles;
    management_ip = n.management_ip;
    mac_address = n.mac_address;
    location_id = n.location_id;
    interfaces_count = length n.interfaces;
    status = if n.id == node_id then "healthy" else "unknown";
    last_seen = "Unknown";
    telemetry = [];
  }
  summary_with n node_id (some hb) = record {
    id = n.id;
    name = n.name;
    roles = map value n.roles;
    management_ip = n.management_ip;
    mac_address = n.mac_address;
    location_id = n.location_id;
    interfaces_count = length n.interfaces;
    status = hb.status;
    last_seen = hb.last_seen;
    telemetry = hb.telemetry;
  }

  unfoldable pub summaries : String → List NodeConfig → ClusterManager J → List (NodeSummary J)
  summaries node_id nodes m =
      map (λ (n : NodeConfig). summary_with n node_id (Dict.get n.id m.node_heartbeats)) nodes

  unfoldable pub get_cluster_status :
      SystemSettings → List NodeConfig → ClusterManager J → ClusterStatusSummary J
  get_cluster_status settings nodes m =
      let node_id = own_id settings.cluster in
      let controller_url = url_of settings.cluster in
      let current_node = node_with node_id nodes in
      let active_roles = roles_of current_node in
      let is_controller = has "controller" active_roles in
      record {
        role =
            if is_controller
            then if ltb 1 (length nodes) then "controller" else "standalone"
            else "node";
        is_controller = is_controller;
        node_id = node_id;
        node_name = name_of current_node settings.hostname;
        roles = active_roles;
        controller_url = controller_url;
        connected_to_controller = is_controller || is_some (truthy controller_url);
        registered_nodes_count = length nodes;
        nodes = if is_controller then summaries node_id nodes m else [];
      }

  -- `suffix` is what `secrets.token_hex` gave; the new token and the manager
  unfoldable pub generate_join_token : ℕ → String → ℕ → ClusterManager J → String × ClusterManager J
  generate_join_token now suffix ttl_seconds m =
      let token = concat ("roost-" ∷ suffix ∷ []) in
      (token, record m { join_tokens = Dict.put token (now + ttl_seconds) m.join_tokens })

  abbrev pub check_expiry : ℕ → String → Option ℕ → ClusterManager J → Bool × ClusterManager J
  check_expiry now token none m = (false, m)
  check_expiry now token (some expiry) m =
      if not (eqb expiry 0) && ltb now expiry
      then (true, record m { join_tokens = Dict.pop token m.join_tokens })
      else (false, m)

  unfoldable pub validate_join_token : ℕ → String → ClusterManager J → Bool × ClusterManager J
  validate_join_token now token m =
      if m.mock && starts_with "roost-" token
      then (true, m)
      else check_expiry now token (Dict.get token m.join_tokens) m

  unfoldable pub record_heartbeat :
      String → String → HealthReport J → ClusterManager J → ClusterManager J
  record_heartbeat now_iso node_id report m = record m {
    node_heartbeats =
        Dict.put node_id
          (record {
            last_seen = now_iso;
            status = or_else report.status "healthy";
            telemetry = or_else report.telemetry [];
            warnings = or_else report.warnings [];
            updates_status = report.updates_status;
          })
          m.node_heartbeats;
  }

  unfoldable pub queue_node_command : String → String → ClusterManager J → ClusterManager J
  queue_node_command node_id command m = record m {
    pending_commands =
        Dict.put node_id (or_else (Dict.get node_id m.pending_commands) [] ++ command ∷ [])
          m.pending_commands;
  }

  unfoldable pub pop_node_commands : String → ClusterManager J → List String × ClusterManager J
  pop_node_commands node_id m = (
    or_else (Dict.get node_id m.pending_commands) [],
    record m { pending_commands = Dict.pop node_id m.pending_commands },
  )

-- the role of a name, and `gateway_router` for a name of none
unfoldable pub parse_roles : List String → List NodeRole
parse_roles [] = []
parse_roles (r ∷ rs) = or_else (role_of r) gateway_router ∷ parse_roles rs

abbrev pub capabilities_of : Option NodeCapabilities → Option NodeConfig → Option NodeCapabilities
capabilities_of (some c) existing = some c
capabilities_of none none = none
capabilities_of none (some n) = n.capabilities

-- `join_data.get("interfaces") or …`: an empty list counts as none
abbrev pub interfaces_of : Option (List NodeInterface) → Option NodeConfig → List NodeInterface
interfaces_of (some (i ∷ is)) existing = i ∷ is
interfaces_of _ none = []
interfaces_of _ (some n) = n.interfaces

abbrev pub id_of : JoinData → Option String
id_of join_data = elim (truthy join_data.node_id) [ none ↦ join_data.id | some i ↦ some i ]

-- `NodeConfig(...)`, whose validator refuses a node without roles
abbrev pub build_node : List NodeRole → String → JoinData → Option NodeConfig → Result NodeConfig
build_node [] node_id join_data existing = err "Node must have at least one assigned role."
build_node (r ∷ rs) node_id join_data existing = ok (record {
  id = node_id;
  name = or_else join_data.name node_id;
  roles = r ∷ rs;
  management_ip = join_data.management_ip;
  mac_address = join_data.mac_address;
  location_id = join_data.location_id;
  interfaces = interfaces_of join_data.interfaces existing;
  failover_priority = pos 0;
  capabilities = capabilities_of join_data.capabilities existing;
})

abbrev pub register_as : Option String → JoinData → List NodeConfig → Result NodeConfig
register_as none join_data nodes = err "id"
register_as (some node_id) join_data nodes =
    build_node (parse_roles (or_else join_data.roles ("gateway_router" ∷ []))) node_id join_data
      (node_with node_id nodes)

unfoldable pub register_node : JoinData → List NodeConfig → Result NodeConfig
register_node join_data nodes = register_as (id_of join_data) join_data nodes

abbrev status_of : {J : Type 0} → Option (Heartbeat J) → Option UpdatesStatus
status_of none = none
status_of (some hb) = hb.updates_status

abbrev pub available : Option UpdatesStatus → ℕ
available none = 0
available (some u) = or_else u.updates_available 0

abbrev pub security_available : Option UpdatesStatus → ℕ
security_available none = 0
security_available (some u) = or_else u.security_updates_available 0

abbrev pub must_reboot : Option UpdatesStatus → Bool
must_reboot none = false
must_reboot (some u) = or_else u.reboot_required false

-- the loop of `get_cluster_updates_summary`, with the totals so far
unfoldable pub add_updates :
    {J : Type 0} → List NodeConfig → ClusterManager J → UpdatesSummary → UpdatesSummary
add_updates [] m acc = acc
add_updates (n ∷ nodes) m acc =
    let up = status_of (Dict.get n.id m.node_heartbeats) in
    add_updates nodes m (record {
      total_updates = acc.total_updates + available up;
      total_security_updates = acc.total_security_updates + security_available up;
      reboot_required_nodes =
          if must_reboot up
          then acc.reboot_required_nodes ++ n.id ∷ []
          else acc.reboot_required_nodes;
    })

unfoldable pub get_cluster_updates_summary :
    {J : Type 0} → List NodeConfig → ClusterManager J → UpdatesSummary
get_cluster_updates_summary nodes m =
    add_updates nodes m
      (record { total_updates = 0; total_security_updates = 0; reboot_required_nodes = [] })

-- One call that changes the controller's state.
pub data Event (J : Type 0) : Type 0 where
  generate : ℕ → String → ℕ → Event J
  validate : ℕ → String → Event J
  heartbeat : String → String → HealthReport J → Event J
  queue : String → String → Event J
  pop : String → Event J

unfoldable pub step : {J : Type 0} → Event J → ClusterManager J → ClusterManager J
step (generate now suffix ttl) m = (generate_join_token now suffix ttl m).1
step (validate now token) m = (validate_join_token now token m).1
step (heartbeat now node_id report) m = record_heartbeat now node_id report m
step (queue node_id command) m = queue_node_command node_id command m
step (pop node_id) m = (pop_node_commands node_id m).1

unfoldable pub run : {J : Type 0} → List (Event J) → ClusterManager J → ClusterManager J
run [] m = m
run (e ∷ es) m = run es (step e m)

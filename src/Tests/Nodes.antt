-- ===== src/Tests/Nodes.antt =====
-- Tests of the controller and of its workers.
use Prim.Native.Nat.{ℕ, ◌+◌, ◌≤◌}
use mathlib.Core.Path.{◌≡◌, refl}
use mathlib.Core.Bool.{true, false, ◌&&◌}
use mathlib.Core.Option.{none, some}
use mathlib.Core.List.{List, [], ◌∷◌, ◌++◌}
use native.Mathlib.Omega.{arith}
use roostos.Prelude.Int.{pos}
use roostos.Prelude.Result.{ok}
use roostos.Nodes.{NodeConfig, NodeInterface, ethernet, trunk, gateway_router, controller}
use roostos.Cluster
use roostos.Cluster.{
  ClusterManager, JoinData, Event, generate, validate, queue, pop, run, register_node, node_with,
}
use roostos.Cluster.Tokens.{held, made, accepted, run-accepted}
use roostos.Cluster.Commands.{waiting, queued, delivered, run-delivered}
use roostos.Failover.{ClusterSyncAgent, Answers, heartbeat_raises, sync_loop}
use roostos.Failover.Streaks.{heard, has_streak, eligible, sync_loop-promotes}

abbrev new_manager : ClusterManager ℕ
new_manager = record { mock = false; node_heartbeats = []; join_tokens = []; pending_commands = [] }

abbrev calls : List (Event ℕ)
calls =
    generate 100 "ab12" 600
    ∷ validate 150 "roost-ab12"
    ∷ validate 160 "roost-ab12"
    ∷ queue "ap" "install_updates"
    ∷ queue "ap" "reboot"
    ∷ pop "ap"
    ∷ []

run-accepted_example :
    accepted "roost-ab12" calls new_manager + held "roost-ab12" (run calls new_manager)
    ≤ held "roost-ab12" new_manager + made "roost-ab12" calls
run-accepted_example = run-accepted "roost-ab12" calls new_manager refl

run-delivered_example :
    delivered "ap" calls new_manager ++ waiting "ap" (run calls new_manager)
    ≡ waiting "ap" new_manager ++ queued "ap" calls
run-delivered_example = run-delivered "ap" calls new_manager

abbrev uplink : NodeInterface
uplink = record {
  name = "eth0";
  mac_address = none;
  kind = ethernet;
  network_id = none;
  mode = trunk;
  vlan_tag = none;
  bridge_name = none;
  wifi_settings = none;
}

abbrev attic : NodeConfig
attic = record {
  id = "ap";
  name = "Attic";
  roles = gateway_router ∷ [];
  management_ip = none;
  mac_address = none;
  location_id = none;
  interfaces = uplink ∷ [];
  failover_priority = pos 5;
  capabilities = none;
}

abbrev again : JoinData
again = record {
  node_id = some "ap";
  id = none;
  name = some "Attic";
  roles = none;
  management_ip = none;
  mac_address = none;
  location_id = none;
  capabilities = none;
  interfaces = none;
}

abbrev rejoined : NodeConfig
rejoined = record attic { failover_priority = pos 0 }

attic_found : node_with "ap" (attic ∷ []) ≡ some attic
unfolding node_with roostos.Prelude.first
attic_found = refl

attic_joined : register_node again (attic ∷ []) ≡ ok rejoined
unfolding node_with roostos.Prelude.first register_node Cluster.parse_roles roostos.Nodes.role_of
attic_joined = refl

abbrev worker : ClusterSyncAgent ℕ
worker = record {
  failover_priority = pos 5;
  auto_failover = true;
  failover_threshold = 3;
  consecutive_heartbeat_failures = 0;
  is_promoted_master = false;
  running = true;
  last_config_slice = none;
  installs = [];
  syncs = 0;
}

abbrev silence : List (Answers ℕ)
silence = heartbeat_raises ∷ heartbeat_raises ∷ heartbeat_raises ∷ []

sync_loop-promotes_example :
    (sync_loop silence worker).is_promoted_master
    ≡ (eligible worker && has_streak 3 (heard silence))
sync_loop-promotes_example = sync_loop-promotes silence worker refl refl refl (omega arith)

silence_stops : (sync_loop silence worker).running ≡ false
unfolding sync_loop roostos.Failover.sync_round roostos.Failover.fail
    roostos.Failover.evaluate_and_trigger_failover roostos.Failover.promote_to_master
silence_stops = refl

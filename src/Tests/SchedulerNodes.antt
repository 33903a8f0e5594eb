-- ===== src/Tests/SchedulerNodes.antt =====
-- The selection of a node among three, of which two suit.
use persys_cloud.Prelude.{ok, ℕ, String, ◌≡◌, refl, true, [], ◌∷◌, sort_by, IsLeast, arith}
use persys_cloud.Text.{to_lower, trim_space, equal_fold, has_prefix, has_suffix, concat}
use persys_cloud.Scheduler.Models.{Node, node_value}
use persys_cloud.Scheduler.Services.{degraded, Scheduler, ◌>>=◌}
use persys_cloud.Scheduler.Mode.{is_writable, require_writable}
use persys_cloud.Scheduler.Etcd.{attempts, retried, retryable_get, retryable_etcd_list, or_degrade}
use persys_cloud.Scheduler.Storage.{workload_managed_volume_specs, contains_string}
use persys_cloud.Scheduler.Nodes.{
  matches_labels, canonical_workload_type, add_drivers, label_drivers, node_supports_workload_type,
  required_storage_drivers, supported_drivers, node_supports_storage_drivers,
  node_utilization_score,
}
use persys_cloud.Scheduler.Nodes.Select.{
  is_ready, enough_cpu, enough_memory, rejection, judged, judge, less_used, candidates,
  first_choice, choose_node, choose_listed, select_node_for_workload,
}
use persys_cloud.Scheduler.Nodes.Select.Success.{select_node_for_workload_succeeds}
use persys_cloud.Scheduler.Nodes.Select.Choice.{
  suits, select_node_for_workload-suits, choose_node-IsLeast,
}
use persys_cloud.Scheduler.Nodes.Control.Frozen.{NodesRefused, placement-NodesRefused}
use persys_cloud.Tests.World.{World, services, formats, naturals, scheduler}
use persys_cloud.Tests.SchedulerWorkloads.{web}

abbrev pub node : String → String → ℕ → Node ℕ
node id state free = record {
  node_id = id;
  ip_address = "10.0.0.1";
  status = state;
  total_cpu = 8;
  total_memory = 1024;
  available_cpu = free;
  available_memory = 1024;
  hypervisor = record { kind = ""; status = ""; version = "" };
  last_heartbeat = 90;
  status_reason = "";
  status_updated_by = "";
  status_updated_at = 0;
  labels = [];
  agent_port = 1;
  agent_grpc_port = 1;
  agent_endpoint = "";
  supported_workload_types = "docker-container" ∷ [];
  supported_storage_drivers = [];
  domain_name = "";
}

abbrev pub three_nodes : World
three_nodes = record {
  store =
      ("/nodes/n1", node_value (node "n1" "NotReady" 8))
      ∷ ("/nodes/n2", node_value (node "n2" "Ready" 2))
      ∷ ("/nodes/n3", node_value (node "n3" "active" 8))
      ∷ [];
  clock = 100;
  faults = [];
}

select_node_for_workload-suits_example : suits web (node "n3" "active" 8) ≡ true
unfolding ◌>>=◌ is_writable require_writable attempts retried retryable_get retryable_etcd_list
    or_degrade workload_managed_volume_specs contains_string matches_labels canonical_workload_type
    add_drivers label_drivers node_supports_workload_type required_storage_drivers supported_drivers
    node_supports_storage_drivers node_utilization_score is_ready enough_cpu enough_memory rejection
    judged judge candidates first_choice choose_node choose_listed select_node_for_workload services
    naturals equal_fold has_prefix has_suffix sort_by trim_space concat formats
select_node_for_workload-suits_example =
    select_node_for_workload-suits web (scheduler three_nodes)
      (record (scheduler three_nodes) { world = record three_nodes { clock = 102 } })
      (node "n3" "active" 8) "selected by lowest utilization score n" refl

choose_node-IsLeast_example :
    IsLeast less_used (node "n2" "Ready" 2 ∷ node "n3" "active" 8 ∷ []) (node "n3" "active" 8)
unfolding ◌>>=◌ node_utilization_score choose_node first_choice sort_by naturals concat
choose_node-IsLeast_example =
    choose_node-IsLeast (node "n2" "Ready" 2 ∷ node "n3" "active" 8 ∷ []) [] (scheduler three_nodes)
      (scheduler three_nodes) (node "n3" "active" 8) "selected by lowest utilization score n"
      (λ a b h. ground arith) (λ a b c h k. ground arith) refl

abbrev frozen_scheduler : Scheduler World ℕ
frozen_scheduler = record (scheduler three_nodes) { mode = degraded }

placement-NodesRefused_example : NodesRefused frozen_scheduler
unfolding is_writable
placement-NodesRefused_example = placement-NodesRefused frozen_scheduler refl

select_node_for_workload_succeeds_example :
    (r : Node ℕ × String) × ((select_node_for_workload web (scheduler three_nodes)).0 ≡ ok r)
unfolding services has_prefix has_suffix is_writable suits is_ready equal_fold to_lower
    matches_labels node_supports_workload_type canonical_workload_type trim_space
    node_supports_storage_drivers required_storage_drivers add_drivers workload_managed_volume_specs
    enough_cpu enough_memory naturals
select_node_for_workload_succeeds_example =
    select_node_for_workload_succeeds web (scheduler three_nodes)
      (("/nodes/n1", node_value (node "n1" "NotReady" 8))
        ∷ ("/nodes/n2", node_value (node "n2" "Ready" 2))
        ∷ [])
      [] "/nodes/n3" (node "n3" "active" 8) refl refl refl refl (refl, (refl, refl))

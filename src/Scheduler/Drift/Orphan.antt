-- ===== src/Scheduler/Drift/Orphan.antt =====
-- persys-scheduler/internal/scheduler/drift.go: a workload that an agent reports and that is not
-- expected on its node.
pub mod Safe
use persys_cloud.Prelude.{
  ℕ, String, Bool, true, false, not, ◌&&◌, ◌||◌, List, [], ◌∷◌, Option, none, some, Result, ok, err,
  if◌then◌else◌, Assoc, lookup, put, ◌==◌,
}
use persys_cloud.Text.{concat, trim_space, to_lower, equal_fold}
use persys_cloud.Scheduler.Models.{Node, Workload, str}
use persys_cloud.Scheduler.Services.{
  Formats, Services, Act, pure, fail, call, try, ignore, branch, ◌>>=◌, ◌>>◌,
}
use persys_cloud.Scheduler.Mode.{is_writable, control_plane_frozen}
use persys_cloud.Scheduler.Store.{save_workload, marked_storage, write_assignment}
use persys_cloud.Scheduler.Store.Reads.{get_workload_by_id}
use persys_cloud.Scheduler.Workloads.{update_workload_logs}
use persys_cloud.Scheduler.Nodes.Reads.{get_node_by_id}
use persys_cloud.Scheduler.Agent.Ports.{Platform}
use persys_cloud.Scheduler.Agent.{
  Agents, WorkloadReport, scheduler_status, grpc_address_for_node, get_workload_status_from_node,
  delete_workload_from_node, is_workload_status_not_found, is_node_unreachable_error,
}
use persys_cloud.Scheduler.Drift.{
  same_endpoint, is_workload_missing_error, is_node_likely_unavailable,
}

-- What is to be done about a workload that the scheduler knows: deleted on the node, for one of two
-- reasons; bound to the node, under an action and a reason; or left to an operator, with an error.
pub data Plan : Type 0 where
  delete_residual delete_duplicate : Plan
  adopt : String → String → Plan
  investigate : String → Plan

module _ {F : Type 0} where
  unfoldable pub wants_deletion : Workload F → Bool
  wants_deletion w = to_lower (trim_space w.desired_state) == "deleted"

  -- The workload on the node that reports it.
  unfoldable pub adopted : ℕ → String → String → String → String → Workload F → Workload F
  adopted now stamp node actual reason w = record w {
    node_id = node;
    assigned_node = node;
    status = actual;
    status_info = record w.status_info { actual_state = actual; last_updated = now };
    metadata = put "drift_reconciled_at" (str stamp) (
        put "drift_reason" (str reason) (
          put "previous_node" (str (trim_space w.node_id))
            (put "last_action" (str "DriftRemediatedOrphan") w.metadata)));
  }

  -- The action, its error, and the workloads known afterwards.
  abbrev done :
      String
      → Assoc (Workload F)
      → Result (Unit {0})
      → String × Result (Unit {0}) × Assoc (Workload F)
  done action all r = (action, r, all)

  abbrev rebound :
      String
      → Assoc (Workload F)
      → Result (Workload F)
      → String × Result (Unit {0}) × Assoc (Workload F)
  rebound action all (ok w) = (action, ok tt, put w.id w all)
  rebound action all (err e) = (action, err e, all)

module _ {W F : Type 0} ⦃T : Formats⦄ ⦃P : Platform⦄ ⦃V : Services W F⦄ ⦃A : Agents W F⦄ where
  -- The owner's answer about the workload.
  unfoldable pub owner_answered : Node F → Result (Option WorkloadReport) → Act W F Plan
  owner_answered owner (ok (some r)) = pure delete_duplicate
  owner_answered owner (ok none) =
      pure (adopt "reassign_to_reporting_node" "owner_missing_workload")
  owner_answered owner (err e) =
      let unclear =
        investigate
          (concat ("failed to validate ownership on node " ∷ owner.node_id ∷ ": " ∷ e ∷ [])) in
      if is_workload_status_not_found e
      then pure (adopt "reassign_to_reporting_node" "owner_missing_workload")
      else if is_node_unreachable_error e
      then (is_node_likely_unavailable owner >>= λ lost. pure (
          if lost
          then adopt "failover_reassign_to_reporting_node" "owner_unreachable_and_unavailable"
          else unclear))
      else pure unclear

  unfoldable pub owner_read : Node F → String → Result (Node F) → Act W F Plan
  unfolding owner_answered
  owner_read n id (err e) = pure (adopt "reassign_from_missing_owner" "assigned_node_missing")
  owner_read n id (ok owner) =
      if same_endpoint (grpc_address_for_node owner) (grpc_address_for_node n)
      then pure (adopt "rebind_assignment_to_rotated_node_id" "node_id_rotated_same_endpoint")
      else (try (get_workload_status_from_node owner id) >>= owner_answered owner)

  -- The plan for a workload that the scheduler knows.
  unfoldable pub plan_known : Node F → String → Workload F → Act W F Plan
  unfolding owner_read
  plan_known n id w =
      let owner = trim_space w.node_id in
      if wants_deletion w
      then pure delete_residual
      else if owner == "" || equal_fold owner n.node_id
      then pure (adopt "adopt_orphan_to_reporting_node" "missing_or_stale_assignment")
      else (try (get_node_by_id owner) >>= owner_read n id)

  delete_orphan_from_node : Node F → String → Act W F (Unit {0})
  delete_orphan_from_node n id = try (delete_workload_from_node n id) >>= ended
    where
      ended : Result (Unit {0}) → Act W F (Unit {0})
      ended (ok u) = pure tt
      ended (err e) = if is_workload_status_not_found e then pure tt else fail e

  -- The workload as it is saved, once it is.
  adopt_orphaned_workload : Node F → Workload F → WorkloadReport → String → Act W F (Workload F)
  adopt_orphaned_workload n w r reason = do
    now ← call V.now
    let bound = adopted now (T.format_time now) n.node_id (scheduler_status r.actual_state) reason w
    save_workload bound
    write_assignment w.id n.node_id (concat ("drift remediation: " ∷ reason ∷ []))
    ignore (
        update_workload_logs w.id (
          concat (
            "drift remediation: reassigned workload to node " ∷ n.node_id ∷ " (" ∷ reason ∷ ")"
            ∷ [])))
    pure (marked_storage bound)

  unfoldable pub carry_out :
      Node F
      → String
      → WorkloadReport
      → Workload F
      → Assoc (Workload F)
      → Plan
      → Act W F (String × Result (Unit {0}) × Assoc (Workload F))
  unfolding delete_orphan_from_node adopt_orphaned_workload
  carry_out n id r w all delete_residual = try (delete_orphan_from_node n id) >>= λ e.
      pure (done "delete_deleted_residual_on_agent" all e)
  carry_out n id r w all delete_duplicate = try (delete_orphan_from_node n id) >>= λ e.
      pure (done "delete_duplicate_on_reporting_node" all e)
  carry_out n id r w all (adopt action reason) =
      try (adopt_orphaned_workload n w r reason) >>= λ e. pure (rebound action all e)
  carry_out n id r w all (investigate e) = pure ("operator_investigation", err e, all)

  remedy_known :
      Node F
      → String
      → WorkloadReport
      → Assoc (Workload F)
      → Workload F
      → Act W F (String × Result (Unit {0}) × Assoc (Workload F))
  unfolding plan_known carry_out
  remedy_known n id r all w = plan_known n id w >>= carry_out n id r w all

  -- A workload that is not known is read again before it is deleted.
  read_again :
      Node F
      → String
      → WorkloadReport
      → Assoc (Workload F)
      → Result (Workload F)
      → Act W F (String × Result (Unit {0}) × Assoc (Workload F))
  unfolding remedy_known delete_orphan_from_node
  read_again n id r all (ok w) = remedy_known n id r (put id w all) w
  read_again n id r all (err e) =
      if is_workload_missing_error e
      then (try (delete_orphan_from_node n id) >>= λ gone.
          pure (done "delete_orphan_on_agent" all gone))
      else pure (
        "operator_investigation",
        err (concat ("failed to re-check unknown workload " ∷ id ∷ " before delete: " ∷ e ∷ [])),
        all,
      )

  remedy :
      Node F
      → String
      → WorkloadReport
      → Assoc (Workload F)
      → Option (Workload F)
      → Act W F (String × Result (Unit {0}) × Assoc (Workload F))
  unfolding read_again
  remedy n id r all (some w) = remedy_known n id r all w
  remedy n id r all none = try (get_workload_by_id id) >>= read_again n id r all

  unfoldable pub remediate_orphan_on_agent :
      Node F
      → String
      → WorkloadReport
      → Assoc (Workload F)
      → Act W F (String × Result (Unit {0}) × Assoc (Workload F))
  unfolding remedy
  remediate_orphan_on_agent n id r all =
      branch is_writable (remedy n id r all (lookup id all))
        (pure ("control_plane_frozen", err control_plane_frozen, all))

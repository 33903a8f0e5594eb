-- ===== src/Scheduler/Reconcile/Actions.antt =====
-- persys-scheduler/internal/scheduler/reconciler.go: failover, the agent's view of a workload, its
-- deletion, and the record of what was done.
use persys_cloud.Prelude.{
  ℕ, ◌+◌, ◌*◌, String, Bool, true, false, not, ◌&&◌, ◌||◌, List, [], ◌∷◌, Option, none, some,
  Result, ok, err, if◌then◌else◌, ltb, is_empty, put, ◌==◌,
}
use persys_cloud.Text.{concat, trim_space, to_lower, equal_fold, contains}
use persys_cloud.Scheduler.Models.{Node, Workload, str, int, bool}
use persys_cloud.Scheduler.Services.{
  Formats, Floats, Services, Act, pure, fail, call, direct, try, ignore, wrapped, ◌>>=◌, ◌>>◌,
}
use persys_cloud.Scheduler.Store.{assignment_key, save_workload, emit_event}
use persys_cloud.Scheduler.Store.Reads.{get_workload_by_id}
use persys_cloud.Scheduler.Retry.{metadata_string}
use persys_cloud.Scheduler.Workloads.{
  update_workload_logs, update_workload_metadata, update_workload_retry_on_failure,
}
use persys_cloud.Scheduler.Nodes.Select.{is_ready, select_node_for_workload, assign_in_place}
use persys_cloud.Scheduler.Nodes.Control.{mark_node_workload_type_unsupported}
use persys_cloud.Scheduler.Nodes.Reads.{get_node_by_id}
use persys_cloud.Scheduler.Agent.{
  Agents, Config, WorkloadReport, or_duration, scheduler_status, get_workload_status_from_node,
  delete_workload_from_node, is_workload_status_not_found,
}
use persys_cloud.Scheduler.Agent.Ports.{Platform}
use persys_cloud.Scheduler.Agent.Delete.{delete_workload}

pub record ReconciliationResult : Type 0 where
  pub workload_id : String
  pub desired_state : String
  pub actual_state : String
  pub action : String
  pub success : Bool
  pub error_message : String
  pub retry_count : ℕ
  pub last_attempt : ℕ

abbrev three_minutes : ℕ
three_minutes = 180 * 1000000000

module _ {F : Type 0} where
  -- A workload that is off its node since a time, for an error.
  unfoldable pub off_node : ℕ → String → Workload F → Workload F
  off_node now e w = record w {
    node_id = "";
    assigned_node = "";
    status = "Pending";
    status_info = record w.status_info { last_updated = now };
    metadata =
        put "last_error" (str e)
          (put "last_action" (str "RuntimeUnsupportedReschedulePending") w.metadata);
  }

  -- A workload about to move from a node.
  unfoldable pub moving_from : String → Workload F → Workload F
  moving_from old w = record w {
    metadata = put "last_action" (str "Rescheduled") (put "previous_node" (str old) w.metadata);
    retry = record w.retry { attempts = 0; next_retry_at = 0 };
  }

module _ {F : Type 0} ⦃T : Formats⦄ where
  -- The metadata of a reconciliation.
  unfoldable pub with_reconciliation : ReconciliationResult → Workload F → Workload F
  with_reconciliation r w = record w {
    metadata = put "reconciliationRetryCount" (int r.retry_count) (
        put "lastReconciliationSuccess" (bool r.success) (
          put "lastReconciliationAction" (str r.action)
            (put "lastReconciliation" (str (T.format_time r.last_attempt)) w.metadata)));
  }

unfoldable pub text_is : String → Option String → Bool
text_is s none = false
text_is s (some t) = t == s

module _ {W F : Type 0} ⦃T : Formats⦄ ⦃V : Services W F⦄ where
  -- Whether the error is of a runtime that the node lacks, and what then became of it.
  unfoldable pub handle_runtime_unavailable :
      Workload F → String → Act W F (Option (Result (Unit {0})))
  handle_runtime_unavailable w e =
      if trim_space w.node_id == "" || not (contains (to_lower e) "runtime not available")
      then pure none
      else (try (
            mark_node_workload_type_unsupported w.node_id w.kind e >> call V.now >>= λ now.
            save_workload (off_node now e w)
            >> ignore (direct (V.etcd_delete (assignment_key w.id)))
            >> ignore (
                update_workload_logs w.id (
                  concat (
                    "Runtime unavailable on node " ∷ w.node_id ∷ "; scheduling on another node"
                    ∷ [])))
            >> emit_event "Rescheduled" w.id w.node_id "runtime unsupported on assigned node")
          >>= λ r. pure (some r))

module _ {W F : Type 0} ⦃T : Formats⦄ ⦃V : Services W F⦄ ⦃A : Agents W F⦄ where
  persist_status : String → ReconciliationResult → Workload F → Act W F (Unit {0})
  persist_status id r w =
      if r.action == "NoAction" && text_is "NoAction" (metadata_string w.metadata "last_action")
      then pure tt
      else save_workload (record w { metadata = put "last_action" (str r.action) w.metadata })

  -- Redis takes the metadata, or the workload is saved with it. Errors are logged only.
  unfoldable pub update_workload_reconciliation_status :
      String → ReconciliationResult → Act W F (Unit {0})
  unfolding persist_status
  update_workload_reconciliation_status id r = ignore (do
    w ← get_workload_by_id id
    taken ← call (A.redis_status id)
    if taken then pure tt else persist_status id r (with_reconciliation r w))

module _ {W F : Type 0} ⦃T : Formats⦄ ⦃N : Floats F⦄ ⦃P : Platform⦄ ⦃C : Config⦄ ⦃V : Services W F⦄
    ⦃A : Agents W F⦄ where
  unfoldable pub failed_over :
      Workload F → String → Node F → Workload F × Result (Unit {0}) → Act W F (Bool × Workload F)
  failed_over w cause n (moved, err e) = fail e
  failed_over w cause n (moved, ok u) =
      ignore (
        update_workload_logs w.id
          (concat ("Rescheduled from node " ∷ w.node_id ∷ " to " ∷ n.node_id ∷ [])))
      >> emit_event "Rescheduled" w.id n.node_id cause
      >> pure (false, moved)

  abbrev await_retry : Workload F → List String → Act W F (Bool × Workload F)
  await_retry w cause = update_workload_retry_on_failure w.id (concat cause) >> pure (true, w)

  fail_over_to : Workload F → Result (Node F × String) → Act W F (Bool × Workload F)
  unfolding failed_over
  fail_over_to w (err e) =
      await_retry w ("node " ∷ w.node_id ∷ " unavailable; no failover target: " ∷ e ∷ [])
  fail_over_to w (ok (n, reason)) =
      let cause = concat ("node " ∷ w.node_id ∷ " unavailable; " ∷ reason ∷ []) in
      if equal_fold n.node_id w.node_id
      then await_retry w ("node " ∷ w.node_id ∷ " unavailable; selected same node" ∷ [])
      else assign_in_place (moving_from w.node_id w) n cause >>= failed_over w cause n

  -- The clock is read of a node that is ready.
  node_unavailable : Node F → Act W F Bool
  node_unavailable n =
      if not (is_ready n)
      then pure true
      else (call V.now >>= λ now.
          pure (ltb (n.last_heartbeat + or_duration C.node_unavailable_grace three_minutes) now))

  assigned_node_read : Workload F → Result (Node F) → Act W F (Bool × Workload F)
  unfolding node_unavailable fail_over_to
  assigned_node_read w (err e) = pure (false, w)
  assigned_node_read w (ok n) = node_unavailable n >>= λ lost.
      if lost then (try (select_node_for_workload w) >>= fail_over_to w) else pure (false, w)

  -- Whether the workload waits for a retry, and the workload, on another node where it moved.
  unfoldable pub handle_unavailable_assigned_node : Workload F → Act W F (Bool × Workload F)
  unfolding assigned_node_read
  handle_unavailable_assigned_node w = try (get_node_by_id w.node_id) >>= assigned_node_read w

  abbrev store_metadata : String → WorkloadReport → Act W F (Unit {0})
  store_metadata id r =
      if is_empty r.metadata then pure tt else ignore (update_workload_metadata id r.metadata)

  store_failure : String → WorkloadReport → Act W F (Unit {0})
  store_failure id r =
      let message = trim_space r.message in
      if equal_fold (scheduler_status r.actual_state) "Failed" && not (message == "")
      then ignore (update_workload_metadata id (("last_runtime_error", message) ∷ []))
      else pure tt

  state_read : String → Result (Option WorkloadReport) → Act W F String
  unfolding store_failure
  state_read id (err e) =
      if is_workload_status_not_found e
      then pure "Missing"
      else fail (concat ("failed to get workload status: " ∷ e ∷ []))
  state_read id (ok none) = pure "Unknown"
  state_read id (ok (some r)) = do
    store_metadata id r
    store_failure id r
    pure (scheduler_status r.actual_state)

  unfoldable pub get_actual_workload_state : Workload F → Act W F String
  unfolding state_read
  get_actual_workload_state w = do
    n ←
        wrapped (λ e. concat ("failed to get node " ∷ w.node_id ∷ ": " ∷ e ∷ []))
          (get_node_by_id w.node_id)
    answer ← try (get_workload_status_from_node n w.id)
    state_read w.id answer

  unless_not_found : Result (Unit {0}) → Act W F (Unit {0})
  unless_not_found (ok u) = pure tt
  unless_not_found (err e) =
      if is_workload_status_not_found e
      then pure tt
      else fail (concat ("failed deleting workload on node: " ∷ e ∷ []))

  delete_on_its_node : String → Result (Node F) → Act W F (Unit {0})
  unfolding unless_not_found
  delete_on_its_node id (err e) = pure tt
  delete_on_its_node id (ok n) = try (delete_workload_from_node n id) >>= unless_not_found

  unfoldable pub delete_desired_workload : Workload F → Act W F (Unit {0})
  unfolding delete_on_its_node
  delete_desired_workload w = do
    if w.node_id == ""
        then pure tt
        else (try (get_node_by_id w.node_id) >>= delete_on_its_node w.id)
    delete_workload w.id
    emit_event "Rescheduled" w.id w.node_id "Deleted workload"

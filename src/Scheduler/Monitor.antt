-- ===== src/Scheduler/Monitor.antt =====
-- persys-scheduler/internal/scheduler/monitor.go: what the agents report of the workloads.
use persys_cloud.Prelude.{
  String, not, List, [], ◌∷◌, Option, none, some, Result, ok, err, if◌then◌else◌, is_empty, ◌==◌,
}
use persys_cloud.Text.{concat, trim_space, equal_fold}
use persys_cloud.Scheduler.Models.{Workload}
use persys_cloud.Scheduler.Services.{
  Formats, Services, Act, pure, fail, try, ignore, wrapped, branch, ◌>>=◌, ◌>>◌,
}
use persys_cloud.Scheduler.Mode.{is_writable}
use persys_cloud.Scheduler.Store.Reads.{get_workload_by_id, get_workloads}
use persys_cloud.Scheduler.Workloads.{
  update_workload_status, update_workload_logs, update_workload_metadata,
}
use persys_cloud.Scheduler.Nodes.Select.{is_ready}
use persys_cloud.Scheduler.Nodes.Reads.{get_node_by_id}
use persys_cloud.Scheduler.Agent.Ports.{Platform}
use persys_cloud.Scheduler.Agent.{
  Agents, WorkloadReport, scheduler_status, get_workload_status_from_node,
  is_workload_status_not_found,
}

module _ {W F : Type 0} ⦃T : Formats⦄ ⦃P : Platform⦄ ⦃V : Services W F⦄ where
  store_message : String → String → String → Act W F (Unit {0})
  store_message id status message =
      if message == ""
      then pure tt
      else ignore (update_workload_logs id message)
        >> (if equal_fold status "Failed"
            then ignore (update_workload_metadata id (("last_runtime_error", message) ∷ []))
            else pure tt)

  -- A report of a workload taken over.
  unfoldable pub take_report : Workload F → WorkloadReport → Act W F (Unit {0})
  unfolding store_message
  take_report w r = do
    let status = scheduler_status r.actual_state
    if status == w.status then pure tt else update_workload_status w.id status
    store_message w.id status (trim_space r.message)
    if is_empty r.metadata then pure tt else ignore (update_workload_metadata w.id r.metadata)

  unfoldable pub status_answered :
      Workload F → String → Result (Option WorkloadReport) → Act W F (Unit {0})
  unfolding take_report
  status_answered w node (err e) =
      if is_workload_status_not_found e
      then (if w.status == "Deleted"
          then pure tt
          else ignore (update_workload_status w.id "Deleted"))
      else fail (
          concat
            ("GetWorkloadStatus failed for workload " ∷ w.id ∷ " on node " ∷ node ∷ ": " ∷ e ∷ []))
  status_answered w node (ok none) = pure tt
  status_answered w node (ok (some r)) = take_report w r

module _ {W F : Type 0} ⦃T : Formats⦄ ⦃P : Platform⦄ ⦃V : Services W F⦄ ⦃A : Agents W F⦄ where
  unfoldable pub sync_workload_status : String → Act W F (Unit {0})
  unfolding status_answered
  sync_workload_status id = do
    w ← get_workload_by_id id
    if w.node_id == "" then pure tt else do
      n ←
          wrapped (λ e. concat ("resolve node " ∷ w.node_id ∷ ": " ∷ e ∷ []))
            (get_node_by_id w.node_id)
      if not (is_ready n)
          then pure tt
          else (try (get_workload_status_from_node n w.id) >>= status_answered w n.node_id)

  unfoldable pub sync_each : List (Workload F) → Act W F (Unit {0})
  unfolding sync_workload_status
  sync_each [] = pure tt
  sync_each (w ∷ ws) =
      let rest = sync_each ws in
      if w.status == "Deleted" then rest else ignore (sync_workload_status w.id) >> rest

  -- One tick of MonitorWorkloads; errors are logged only, and the metrics are left out.
  unfoldable pub monitor_workloads : Act W F (Unit {0})
  unfolding sync_each
  monitor_workloads = branch is_writable (ignore (get_workloads >>= sync_each)) (pure tt)

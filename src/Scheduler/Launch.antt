-- ===== src/Scheduler/Launch.antt =====
-- persys-scheduler/internal/scheduler/scheduler.go: ScheduleWorkload.
use persys_cloud.Prelude.{
  String, Bool, true, false, not, ◌&&◌, [], ◌∷◌, Option, none, some, Result, ok, err, if◌then◌else◌,
  Assoc, lookup, put, ◌==◌,
}
use persys_cloud.Text.{concat, trim_space}
use persys_cloud.Scheduler.Models.{Node, Workload, MetaValue, str}
use persys_cloud.Scheduler.Services.{
  Formats, Floats, Services, Act, pure, fail, call, try, ignore, wrapped, ◌>>=◌, ◌>>◌,
}
use persys_cloud.Scheduler.Mode.{require_writable}
use persys_cloud.Scheduler.Store.{
  ensure_workload_revision, initialize_workload_defaults, save_workload, emit_event,
  write_reconciliation_record,
}
use persys_cloud.Scheduler.Workloads.{update_workload_status, update_workload_logs}
use persys_cloud.Scheduler.Nodes.Select.{select_node_for_workload, assign_in_place}
use persys_cloud.Scheduler.Agent.Ports.{Platform}
use persys_cloud.Scheduler.Agent.{
  Agents, ApplyResponse, WorkloadReport, scheduler_status, apply_workload_on_node,
}

-- The entries of an agent's answer in the metadata, trimmed.
unfoldable pub with_entries : Assoc String → Assoc MetaValue → Assoc MetaValue
with_entries [] m = m
with_entries ((k, v) ∷ entries) m = with_entries entries (put k (str (trim_space v)) m)

unfoldable pub text_or_empty : Option String → String
text_or_empty none = ""
text_or_empty (some s) = s

abbrev pub bool_text : Bool → String
bool_text true = "true"
bool_text false = "false"

unfoldable pub answer_metadata : Option WorkloadReport → Assoc String
answer_metadata none = []
answer_metadata (some r) = r.metadata

module _ {F : Type 0} ⦃T : Formats⦄ where
  -- The workload after its agent took the request.
  unfoldable pub accepted : String → Option WorkloadReport → Workload F → Workload F
  unfolding answer_metadata
  accepted now status w = record w {
    metadata = with_entries (answer_metadata status) (
        put "last_action" (str "ApplyAcceptedAsync") (
          put "lastLaunchTime" (str now) (
            put "lastApplyRevision" (str (trim_space w.revision_id))
              (put "lastApplyRequestAt" (str now) w.metadata))));
  }

module _ {W F : Type 0} ⦃T : Formats⦄ ⦃V : Services W F⦄ where
  -- The request failed: the workload is marked, and the error passed on.
  launch_failed : String → String → String → String → String → Act W F String
  launch_failed id node log cause e = do
    ignore (update_workload_status id "Failed")
    ignore (update_workload_logs id log)
    emit_event "WorkloadFailed" id node cause
    fail e

  rejected : String → String → String → Act W F String
  unfolding launch_failed
  rejected id node message =
      launch_failed id node (concat ("ApplyWorkload rejected: " ∷ message ∷ [])) message
        (concat ("apply workload on node " ∷ node ∷ " rejected: " ∷ message ∷ []))

  take_status : String → Option WorkloadReport → Act W F (Unit {0})
  take_status id none = pure tt
  take_status id (some r) = ignore (update_workload_status id (scheduler_status r.actual_state))

  track_task : String → String → Act W F (Unit {0})
  track_task id task =
      if task == ""
      then pure tt
      else ignore (update_workload_logs id (concat ("Tracking async apply task: " ∷ task ∷ [])))

  unfoldable pub launch_answered :
      Workload F → String → Result (Option ApplyResponse) → Act W F String
  unfolding rejected take_status track_task text_or_empty
  launch_answered w node (err e) =
      launch_failed w.id node (concat ("ApplyWorkload failed: " ∷ e ∷ [])) e
        (concat ("apply workload on node " ∷ node ∷ ": " ∷ e ∷ []))
  launch_answered w node (ok none) = rejected w.id node "agent rejected apply request"
  launch_answered w node (ok (some r)) =
      if not r.applied && not r.skipped
      then rejected w.id node
          (if trim_space r.message == "" then "agent rejected apply request" else r.message)
      else do
        take_status w.id r.status
        ignore (
            update_workload_logs w.id (
              concat (
                "Apply response: applied="
                ∷ bool_text r.applied
                ∷ " skipped="
                ∷ bool_text r.skipped
                ∷ " message="
                ∷ r.message
                ∷ [])))
        now ← call V.now
        track_task w.id (trim_space (text_or_empty (lookup "task_id" (answer_metadata r.status))))
        wrapped (λ e. concat ("persist async apply guard metadata: " ∷ e ∷ []))
            (save_workload (accepted (T.format_time now) r.status w))
        write_reconciliation_record w.id "Apply" true "Apply accepted by agent (async tracking)"
        pure node

module _ {W F : Type 0} ⦃T : Formats⦄ ⦃N : Floats F⦄ ⦃P : Platform⦄ ⦃V : Services W F⦄
    ⦃A : Agents W F⦄ where
  launch_assigned : Node F → Workload F × Result (Unit {0}) → Act W F String
  launch_assigned n (w, err e) = fail (concat ("failed assigning workload " ∷ w.id ∷ ": " ∷ e ∷ []))
  launch_assigned n (w, ok u) = try (apply_workload_on_node n w) >>= launch_answered w n.node_id

  launch_on : Workload F → Result (Node F × String) → Act W F String
  unfolding launch_assigned
  launch_on w (err e) = emit_event "WorkloadFailed" w.id "" e >> fail e
  launch_on w (ok (n, cause)) = assign_in_place w n cause >>= launch_assigned n

  -- The node that took the workload.
  unfoldable pub schedule_workload : Workload F → Act W F String
  unfolding launch_on
  schedule_workload given = do
    require_writable
    new_id ← if given.id == "" then call V.uuid else pure given.id
    w ←
        initialize_workload_defaults
          (ensure_workload_revision V.digest (record given { id = new_id }))
    chosen ← try (select_node_for_workload w)
    launch_on w chosen

-- ===== src/Scheduler/Workloads.antt =====
-- persys-scheduler/internal/scheduler/workload_control.go and scheduler.go: the commands on workloads.
-- `saveWorkload` marks the map that its caller shares: the workload a command returns is marked too.
pub mod Spec
pub mod Frozen
pub mod Details
use persys_cloud.Prelude.{
  String, Bool, true, false, not, ◌&&◌, ◌||◌, List, [], ◌∷◌, Option, none, some, if◌then◌else◌,
  is_empty, Assoc, lookup, put, ◌==◌,
}
use persys_cloud.Text.{concat, trim_space, equal_fold}
use persys_cloud.Scheduler.Models.{Workload, MetaValue, str}
use persys_cloud.Scheduler.Services.{
  Formats, Services, Scheduler, Act, pure, call, wrapped, ◌>>=◌, ◌>>◌,
}
use persys_cloud.Scheduler.Mode.{require_writable}
use persys_cloud.Scheduler.Storage.{meta_text}
use persys_cloud.Scheduler.Store.{
  ensure_workload_revision, initialize_workload_defaults, marked_storage, save_workload, emit_event,
}
use persys_cloud.Scheduler.Store.Reads.{get_workload_by_id}
use persys_cloud.Scheduler.Retry.{
  retry_on_failure, with_max_attempts, clear_reapply_metadata, delete_keys,
  is_infrastructure_failure_reason,
}

module _ {F : Type 0} where
  abbrev pub with_action : String → Workload F → Workload F
  with_action a w = record w { metadata = put "last_action" (str a) w.metadata }

  unfoldable pub status_changed : String → Workload F → Bool
  status_changed s w = not (equal_fold w.status s && equal_fold w.status_info.actual_state s)

  unfoldable pub with_status_text : String → Workload F → Workload F
  with_status_text s w =
      let moved = record w {
        status = s;
        status_info = record w.status_info { actual_state = s };
      } in
      if equal_fold s "failed" then with_action "Failed" moved else moved

module _ ⦃T : Formats⦄ where
  abbrev differs : String → Option MetaValue → Bool
  differs clean none = true
  differs clean (some v) = not (meta_text v == clean)

module _ {F : Type 0} ⦃T : Formats⦄ where
  runtime_error : String → String → Workload F → Workload F
  runtime_error key clean w =
      if (key == "container.stderr" || key == "container.runtime_error") && not (clean == "")
      then (let failure = w.status_info.failure_reason in
          let marked = record w { metadata = put "last_runtime_error" (str clean) w.metadata } in
          if trim_space failure == "" || is_infrastructure_failure_reason failure
          then record marked { status_info = record w.status_info { failure_reason = clean } }
          else marked)
      else w

  -- The entries merged in, and whether one of them is new.
  unfoldable pub merge_metadata : Assoc String → Bool → Workload F → Bool × Workload F
  unfolding runtime_error
  merge_metadata [] changed w = (changed, w)
  merge_metadata ((k, v) ∷ entries) changed w =
      let key = trim_space k in
      let clean = trim_space v in
      let merged =
        runtime_error key clean (record w { metadata = put key (str clean) w.metadata }) in
      let blank = merge_metadata entries changed w in
      let next = merge_metadata entries (changed || differs clean (lookup key w.metadata)) merged in
      if key == "" then blank else next

abbrev update_failed : String → String → String → String
update_failed id what e = concat ("failed to update workload " ∷ id ∷ " " ∷ what ∷ ": " ∷ e ∷ [])

module _ {W F : Type 0} ⦃T : Formats⦄ ⦃V : Services W F⦄ where
  unfoldable pub create_workload : Workload F → Act W F (Workload F)
  create_workload w = do
    require_writable
    new_id ← if trim_space w.id == "" then call V.uuid else pure w.id
    full ←
        initialize_workload_defaults (ensure_workload_revision V.digest (record w { id = new_id }))
    let created = with_action "Created" (record full {
      status = "Pending";
      status_info = record full.status_info { actual_state = "Pending" };
    })
    save_workload created
    emit_event "WorkloadScheduled" created.id "" "Workload created"
    pure (marked_storage created)

  unfoldable pub mark_workload_deleted : String → Act W F (Unit {0})
  mark_workload_deleted id = do
    require_writable
    w ← get_workload_by_id id
    now ← call V.now
    save_workload (
        with_action "MarkedDeleted" (record w {
          desired_state = "Deleted";
          status = "Deleting";
          status_info = record w.status_info { last_updated = now };
        }))
    emit_event "WorkloadScheduled" w.id w.node_id "Marked for deletion"

  unfoldable pub trigger_workload_retry : String → Act W F (Workload F)
  trigger_workload_retry id = do
    require_writable
    found ← get_workload_by_id id
    now ← call V.now
    let allowed = with_max_attempts found
    let reset =
        clear_reapply_metadata
          (record allowed { retry = record allowed.retry { next_retry_at = now; attempts = 0 } })
    let w = with_action "RetryTriggered" (record reset {
      metadata =
          delete_keys ("retry_terminal" ∷ "retry_terminal_reason" ∷ "terminal_failure_reason" ∷ [])
            reset.metadata;
    })
    save_workload w
    emit_event "RetryTriggered" w.id w.node_id "Manual retry requested"
    pure (marked_storage w)

  unfoldable pub update_workload_retry_on_failure : String → String → Act W F (Unit {0})
  update_workload_retry_on_failure id reason = do
    require_writable
    found ← get_workload_by_id id
    now ← call V.now
    let outcome = retry_on_failure now reason found
    emit_event outcome.1.0 outcome.0.id outcome.0.node_id outcome.1.1
    save_workload outcome.0

  unfoldable pub update_workload_status : String → String → Act W F (Unit {0})
  update_workload_status id new_status = do
    require_writable
    w ← get_workload_by_id id
    if not (status_changed new_status w) then pure tt else do
      now ← call V.now
      let moved = with_status_text new_status w
      wrapped (update_failed id "status") (
          save_workload
            (record moved { status_info = record moved.status_info { last_updated = now } }))

  unfoldable pub update_workload_logs : String → String → Act W F (Unit {0})
  update_workload_logs id new_logs = do
    require_writable
    w ← get_workload_by_id id
    logged ← call V.now
    if trim_space new_logs == "" then pure tt else do
      now ← call V.now
      wrapped (update_failed id "logs") (
          save_workload (record w {
            logs = concat (w.logs ∷ "[" ∷ T.log_time logged ∷ "] " ∷ new_logs ∷ "\n" ∷ []);
            status_info = record w.status_info { last_updated = now };
          }))

  unfoldable pub update_workload_metadata : String → Assoc String → Act W F (Unit {0})
  update_workload_metadata id entries =
      require_writable
      >> (if is_empty entries then pure tt else do
        w ← get_workload_by_id id
        let merged = merge_metadata entries false w
        if not merged.0 then pure tt else do
          now ← call V.now
          let m = merged.1
          wrapped (update_failed id "metadata") (
              save_workload
                (record m { status_info = record m.status_info { last_updated = now } })))

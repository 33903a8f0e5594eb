-- ===== src/Scheduler/Store.antt =====
-- persys-scheduler/internal/scheduler/state_store.go, and scheduler.go's reads: how workloads,
-- assignments and events are kept. An event's details are left out.
pub mod Reads
pub mod Keys
pub mod RoundTrip
pub mod Replay
use persys_cloud.Prelude.{
  ℕ, String, Bool, true, false, not, ◌&&◌, ◌||◌, List, [], ◌∷◌, Option, none, some, Result, ok, err,
  if◌then◌else◌, nat_eq, is_empty, is_some, Assoc, lookup, put, ◌==◌, map,
}
use persys_cloud.Text.{concat, trim_space, to_lower}
use persys_cloud.Scheduler.Models.{
  Workload, WorkloadSpec, WorkloadStatus, RetryState, MetaValue, str, AssignmentRecord,
  SchedulerEvent, ReconciliationRecord, Value, spec_value, status_value, workload_value,
  retry_value, assignment_value, event_value, reconciliation_value,
}
use persys_cloud.Scheduler.Services.{
  Formats, Services, Scheduler, Act, normal, pure, fail, call, gets, modify, try, ignore, wrapped,
  branch, ◌>>=◌, ◌>>◌,
}
use persys_cloud.Scheduler.Mode.{mode_eq, cache_workload, cache_assignment}
use persys_cloud.Scheduler.Etcd.{retryable_etcd_put, retryable_etcd_get, retryable_etcd_list}
use persys_cloud.Scheduler.Projection.{
  spec_from_workload, stored_status, status_from_workload, workload_of_spec, with_status,
}
use persys_cloud.Scheduler.Storage.{workload_managed_volume_specs, should_sync_managed_storage}
use persys_cloud.Scheduler.Storage.Records.{unmarshal_error}
use persys_cloud.Scheduler.Storage.Sync.{sync_workload_managed_storage}

abbrev pub workload_spec_key : String → String
workload_spec_key id = concat ("/workloads-spec/" ∷ id ∷ [])

abbrev pub workload_status_key : String → String
workload_status_key id = concat ("/workloads-status/" ∷ id ∷ [])

abbrev pub workload_key : String → String
workload_key id = concat ("/workloads/" ∷ id ∷ [])

abbrev pub assignment_key : String → String
assignment_key id = concat ("/assignments/" ∷ id ∷ [])

abbrev pub retry_key : String → String
retry_key id = concat ("/retries/" ∷ id ∷ [])

abbrev pub reconciliation_key : String → String
reconciliation_key id = concat ("/reconciliation/" ∷ id ∷ [])

abbrev pub default_retry_state : RetryState
default_retry_state = record { attempts = 0; max_attempts = 5; next_retry_at = 0 }

unfoldable pub normalize_desired_state : String → String
normalize_desired_state s =
    let lower = to_lower (trim_space s) in
    if lower == "stopped" || lower == "stop"
    then "Stopped"
    else if lower == "deleted" || lower == "delete"
    then "Deleted"
    else "Running"

abbrev put_missing : String → MetaValue → Assoc MetaValue → Assoc MetaValue
put_missing key v m = if is_some (lookup key m) then m else put key v m

module _ {F : Type 0} ⦃T : Formats⦄ where
  -- The defaults, at the times of the two clock reads.
  unfoldable pub with_defaults : ℕ → ℕ → Workload F → Workload F
  with_defaults created now w =
      let state_now = if w.status == "" then "Pending" else w.status in
      record w {
        desired_state =
            normalize_desired_state (if w.desired_state == "" then "Running" else w.desired_state);
        status = state_now;
        created_at = created;
        retry = if nat_eq w.retry.max_attempts 0 then default_retry_state else w.retry;
        metadata =
            put_missing "last_action" (str "Created")
              (put_missing "created_at" (str (T.format_time created)) w.metadata);
        status_info = record w.status_info {
          last_updated = now;
          actual_state =
              if w.status_info.actual_state == "" then state_now else w.status_info.actual_state;
        };
      }

module _ {F : Type 0} where
  -- A blank revision becomes the digest of the workload without its runtime fields.
  unfoldable pub ensure_workload_revision : (Workload F → String) → Workload F → Workload F
  ensure_workload_revision digest w =
      if trim_space w.revision_id == ""
      then record w {
        revision_id = digest (record w { created_at = 0; logs = ""; status = ""; metadata = [] });
      }
      else w

  -- The metadata key that `saveWorkload` sets in the workload's own map.
  unfoldable pub marked_storage : Workload F → Workload F
  marked_storage w =
      if is_empty (workload_managed_volume_specs w)
      then w
      else record w { metadata = put "managed_storage_state" (str "true") w.metadata }

module _ {W F : Type 0} ⦃V : Services W F⦄ where
  unfoldable pub write_assignment : String → String → String → Act W F (Unit {0})
  write_assignment workload node cause = do
    now ← call V.now
    let r : AssignmentRecord = record {
      workload_id = workload;
      node_id = node;
      reason = cause;
      created_at = now;
    }
    retryable_etcd_put (assignment_key workload) (assignment_value r)
    cache_assignment r

  unfoldable pub write_reconciliation_record : String → String → Bool → String → Act W F (Unit {0})
  write_reconciliation_record workload action_name good cause = do
    now ← call V.now
    let r : ReconciliationRecord = record {
      workload_id = workload;
      action = action_name;
      success = good;
      reason = cause;
      attempted_at = now;
    }
    taken ← call (V.redis_reconciliation r)
    if taken
        then pure tt
        else ignore (retryable_etcd_put (reconciliation_key workload) (reconciliation_value r))

  unfoldable pub emit_event : String → String → String → String → Act W F (Unit {0})
  emit_event event_kind workload node cause = do
    event_id ← call V.uuid
    now ← call V.now
    let e : SchedulerEvent = record {
      id = event_id;
      kind = event_kind;
      workload_id = workload;
      node_id = node;
      reason = cause;
      timestamp = now;
    }
    taken ← call (V.redis_event e)
    if taken
        then pure tt
        else ignore (retryable_etcd_put (concat ("/events/" ∷ event_id ∷ [])) (event_value e))

module _ {W F : Type 0} ⦃T : Formats⦄ ⦃V : Services W F⦄ where
  unfoldable pub initialize_workload_defaults : Workload F → Act W F (Workload F)
  initialize_workload_defaults w = do
    created ← if nat_eq w.created_at 0 then call V.now else pure w.created_at
    now ← call V.now
    pure (with_defaults created now w)

  unfoldable pub sync_storage : Workload F → Act W F (Unit {0})
  sync_storage w =
      if should_sync_managed_storage w
      then wrapped (λ e. concat ("sync managed storage state for workload " ∷ w.id ∷ ": " ∷ e ∷ []))
          (sync_workload_managed_storage w)
      else pure tt

  unfoldable pub save_marked : Workload F → Act W F (Unit {0})
  unfolding sync_storage
  save_marked w = do
    retryable_etcd_put (workload_spec_key w.id) (spec_value (spec_from_workload w))
    retryable_etcd_put (workload_status_key w.id)
        (status_value (stored_status (status_from_workload w)))
    cache_workload w
    ignore (retryable_etcd_put (retry_key w.id) (retry_value w.retry))
    sync_storage w

  unfoldable pub save_workload : Workload F → Act W F (Unit {0})
  unfolding save_marked
  save_workload w = save_marked (marked_storage w)

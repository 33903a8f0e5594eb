-- ===== src/Scheduler/Workloads/Details.antt =====
-- persys-scheduler/internal/scheduler/scheduler.go: UpdateWorkloadRuntimeDetails.
use persys_cloud.Prelude.{
  ℕ, String, Bool, true, false, [], ◌∷◌, Option, none, some, if◌then◌else◌, nat_eq, Assoc, put,
  ◌==◌,
}
use persys_cloud.Text.{concat, trim_space}
use persys_cloud.Scheduler.Models.{Workload, WorkloadReason, WorkloadUsage, MetaValue, str}
use persys_cloud.Scheduler.Services.{Formats, Floats, Services, Act, call, wrapped, ◌>>=◌, ◌>>◌}
use persys_cloud.Scheduler.Mode.{require_writable}
use persys_cloud.Scheduler.Store.{save_workload}
use persys_cloud.Scheduler.Store.Reads.{get_workload_by_id}

abbrev bool_text : Bool → String
bool_text true = "true"
bool_text false = "false"

-- Put where the text is not blank.
abbrev put_given : String → String → Assoc MetaValue → Assoc MetaValue
put_given key text m = if trim_space text == "" then m else put key (str text) m

module _ ⦃T : Formats⦄ where
  abbrev put_time : String → ℕ → Assoc MetaValue → Assoc MetaValue
  put_time key t m = if nat_eq t 0 then m else put key (str (T.format_time t)) m

  unfoldable pub reason_metadata : WorkloadReason → Assoc MetaValue → Assoc MetaValue
  reason_metadata r m = put "reason_retryable" (str (bool_text r.retryable)) (
      put_time "reason_next_retry_at" r.next_retry_at (
        put_time "reason_last_transition" r.last_transition
          (put_given "reason_message" r.message (put_given "reason_code" r.code m))))

module _ {F : Type 0} ⦃T : Formats⦄ where
  unfoldable pub with_reason : Option WorkloadReason → Workload F → Workload F
  with_reason none w = w
  with_reason (some r) w = record w {
    status_info = record w.status_info {
      reason = some r;
      failure_reason =
          if trim_space r.message == "" then w.status_info.failure_reason else r.message;
    };
    metadata = reason_metadata r w.metadata;
  }

module _ {F : Type 0} ⦃T : Formats⦄ ⦃N : Floats F⦄ where
  unfoldable pub usage_metadata : WorkloadUsage F → Assoc MetaValue → Assoc MetaValue
  usage_metadata u m = put_given "usage_source" u.source (
      put_time "usage_collected_at" u.collected_at (
        put "usage_net_tx_bytes" (str (T.itoa u.net_tx_bytes)) (
          put "usage_net_rx_bytes" (str (T.itoa u.net_rx_bytes)) (
            put "usage_disk_write_bytes" (str (T.itoa u.disk_write_bytes)) (
              put "usage_disk_read_bytes" (str (T.itoa u.disk_read_bytes)) (
                put "usage_memory_bytes" (str (T.itoa u.memory_bytes))
                  (put "usage_cpu_percent" (str (N.fixed 4 u.cpu_percent)) m)))))))

  unfoldable pub with_usage : Option (WorkloadUsage F) → Workload F → Workload F
  unfolding usage_metadata
  with_usage none w = w
  with_usage (some u) w = record w { usage = some u; metadata = usage_metadata u w.metadata }

module _ {W F : Type 0} ⦃T : Formats⦄ ⦃N : Floats F⦄ ⦃V : Services W F⦄ where
  unfoldable pub update_workload_runtime_details :
      String → Option WorkloadReason → Option (WorkloadUsage F) → Act W F (Unit {0})
  update_workload_runtime_details id why use_now = do
    require_writable
    found ← get_workload_by_id id
    let w = with_usage use_now (with_reason why found)
    now ← call V.now
    wrapped (λ e. concat ("failed to update workload " ∷ id ∷ " runtime details: " ∷ e ∷ []))
        (save_workload (record w { status_info = record w.status_info { last_updated = now } }))

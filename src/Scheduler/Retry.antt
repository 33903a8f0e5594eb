-- ===== src/Scheduler/Retry.antt =====
-- persys-scheduler/internal/scheduler/workload_control.go: how a failed workload is retried.
-- A Duration is an int64 of nanoseconds, kept as its 64-bit word.
pub mod Backoff
pub mod Outcome
use persys_cloud.Prelude.{
  ℕ, zero, suc, ◌+◌, ◌-◌, ◌*◌, ◌%◌, ◌^◌, String, Bool, true, false, not, ◌&&◌, ◌||◌, List, [], ◌∷◌,
  Option, none, some, if◌then◌else◌, ltb, leb, nat_eq, Assoc, lookup, put, delete, ◌==◌,
}
use persys_cloud.Text.{trim_space, to_lower, contains}
use persys_cloud.Scheduler.Models.{Workload, RetryState, MetaValue, str}
use persys_cloud.Scheduler.Services.{Formats}

-- Nanoseconds.
abbrev pub second : ℕ
second = 1000000000

abbrev pub two_minutes : ℕ
two_minutes = 120 * second

abbrev pub word : ℕ
word = 2 ^ 64

abbrev pub is_negative : ℕ → Bool
is_negative d = leb (2 ^ 63) d

-- `t.Add(d)`
unfoldable pub add_duration : ℕ → ℕ → ℕ
add_duration t d = if is_negative d then t - (word - d) else t + d

unfoldable pub doubled : ℕ → ℕ → ℕ
doubled zero d = d
doubled (suc n) d = doubled n (d * 2 % word)

unfoldable pub retry_backoff : ℕ → ℕ
unfolding doubled
retry_backoff attempt =
    let backoff = doubled (attempt - 3) (5 * second) in
    if ltb attempt 3
    then 0
    else if ltb two_minutes backoff && not (is_negative backoff)
    then two_minutes
    else backoff

unfoldable pub is_infrastructure_failure_reason : String → Bool
is_infrastructure_failure_reason reason =
    let lower = to_lower (trim_space reason) in
    not (lower == "")
    && (contains lower "node" && contains lower "unavailable"
        || contains lower "no failover target"
        || contains lower "heartbeat expired"
        || contains lower "connection refused"
        || contains lower "deadline exceeded"
        || contains lower "transport: error while dialing")

abbrev pub as_str : Option MetaValue → Option String
as_str (some (str s)) = some s
as_str _ = none

unfoldable pub metadata_string : Assoc MetaValue → String → Option String
metadata_string m key = as_str (lookup key m)

abbrev or_empty : Option String → String
or_empty none = ""
or_empty (some s) = s

-- The first of the keys whose text is not blank.
unfoldable pub first_text : Assoc MetaValue → List String → String
first_text m [] = ""
first_text m (key ∷ keys) =
    let clean = trim_space (or_empty (metadata_string m key)) in
    let rest = first_text m keys in if clean == "" then rest else clean

unfoldable pub preferred_runtime_failure_reason : Assoc MetaValue → String
preferred_runtime_failure_reason m =
    first_text m ("container.stderr" ∷ "last_runtime_error" ∷ "container.runtime_error" ∷ [])

unfoldable pub delete_keys : List String → Assoc MetaValue → Assoc MetaValue
delete_keys [] m = m
delete_keys (k ∷ ks) m = delete_keys ks (delete k m)

module _ {F : Type 0} where
  unfoldable pub apply_failure_reason : String → Workload F → Workload F
  apply_failure_reason reason w =
      let clean = trim_space reason in
      let m = put "scheduler_last_error" (str clean) w.metadata in
      let runtime = preferred_runtime_failure_reason m in
      let shown =
        if not (runtime == "") && is_infrastructure_failure_reason clean then runtime else clean in
      record w {
        metadata = put "last_error" (str shown) m;
        status_info = record w.status_info { failure_reason = shown };
      }

  unfoldable pub with_max_attempts : Workload F → Workload F
  with_max_attempts w =
      if nat_eq w.retry.max_attempts 0
      then record w { retry = record w.retry { max_attempts = 5 } }
      else w

  -- `dueForRetry` at a time.
  unfoldable pub due_for_retry : ℕ → Workload F → Bool
  due_for_retry now w =
      if leb w.retry.max_attempts w.retry.attempts && ltb 0 w.retry.max_attempts
      then false
      else if nat_eq w.retry.next_retry_at 0
      then false
      else not (ltb now w.retry.next_retry_at)

  unfoldable pub clear_reapply_metadata : Workload F → Workload F
  clear_reapply_metadata w = record w {
    metadata =
        delete_keys
          ("reapplyAttempts" ∷ "reapplyNextAt" ∷ "lastApplyRequestAt" ∷ "lastApplyRevision"
            ∷ "lastLaunchTime" ∷ [])
          w.metadata;
  }

module _ ⦃T : Formats⦄ where
  parsed : Option String → Option ℕ
  parsed none = none
  parsed (some s) = T.parse_time s

  unfoldable pub metadata_timestamp : Assoc MetaValue → String → Option ℕ
  unfolding parsed
  metadata_timestamp m key = parsed (metadata_string m key)

  -- When the failure was first seen, and the metadata that records it.
  unfoldable pub observed : ℕ → Assoc MetaValue → Option ℕ → ℕ × Assoc MetaValue
  observed now m (some t) = (t, m)
  observed now m none = (now, put "failureObservedAt" (str (T.format_time now)) m)

module _ {F : Type 0} ⦃T : Formats⦄ where
  unfoldable pub in_grace_period : ℕ → ℕ → String → Workload F → Workload F
  in_grace_period now until reason w =
      let n = w.retry.attempts in
      let next = if ltb n (w.retry.max_attempts - 1) then n + 1 else n in
      let pending = apply_failure_reason reason (record w {
        metadata = put "failureGraceUntil" (str (T.format_time until)) w.metadata;
        retry = record w.retry {
          attempts = next;
          next_retry_at = add_duration now (retry_backoff next);
        };
        status = "RetryPending";
        status_info = record w.status_info { actual_state = "Pending"; last_updated = now };
      }) in
      record pending { metadata = put "last_action" (str "RetryGracePeriod") pending.metadata }

  unfoldable pub exhausted : ℕ → String → Workload F → Workload F
  exhausted now reason w =
      let over = apply_failure_reason reason (record w {
        retry = record w.retry { attempts = w.retry.attempts + 1 };
        status = "Failed";
        status_info = record w.status_info { actual_state = "Failed"; last_updated = now };
      }) in
      record over {
        metadata =
            delete_keys ("failureObservedAt" ∷ "failureGraceUntil" ∷ [])
              (put "last_action" (str "RetryExhausted") over.metadata);
      }

  unfoldable pub scheduled_again : ℕ → String → Workload F → Workload F
  scheduled_again now reason w =
      let next = w.retry.attempts + 1 in
      let pending = apply_failure_reason reason (record w {
        retry = record w.retry {
          attempts = next;
          next_retry_at = add_duration now (retry_backoff next);
        };
        status = "RetryPending";
        status_info = record w.status_info { last_updated = now };
      }) in
      record pending { metadata = put "last_action" (str "RetryScheduled") pending.metadata }

  -- A failure at a time, with the attempts allowed already set: the workload and its event.
  unfoldable pub failed_at :
      ℕ → String → Workload F → ℕ × Assoc MetaValue → Workload F × (String × String)
  unfolding in_grace_period exhausted scheduled_again
  failed_at now reason w (first, m) =
      let seen = record w { metadata = m } in
      let until = first + two_minutes in
      if ltb now until
      then (
        in_grace_period now until reason seen,
        ("RetryTriggered", "failure observed within grace period"),
      )
      else if leb w.retry.max_attempts (w.retry.attempts + 1)
      then (exhausted now reason seen, ("WorkloadFailed", reason))
      else (scheduled_again now reason seen, ("RetryTriggered", reason))

  unfoldable pub retry_on_failure : ℕ → String → Workload F → Workload F × (String × String)
  unfolding observed failed_at
  retry_on_failure now reason w =
      failed_at now reason (with_max_attempts w)
        (observed now w.metadata (metadata_timestamp w.metadata "failureObservedAt"))

-- ===== src/Scheduler/Retry/Outcome.antt =====
-- workload_control.go: what UpdateWorkloadRetryOnFailure makes of a workload, and dueForRetry of it.
use persys_cloud.Prelude.{
  ℕ, ◌+◌, ◌≤◌, ◌<◌, String, ◌≡◌, refl, ◌⊎◌, inl, inr, true, false, Option, none, some, ltb, leb,
  nat_eq, arith, Bool-cases, Assoc,
}
use persys_cloud.Scheduler.Models.{Workload, MetaValue}
use persys_cloud.Scheduler.Services.{Formats}
use persys_cloud.Scheduler.Retry.{
  two_minutes, add_duration, retry_backoff, due_for_retry, metadata_timestamp, observed,
  in_grace_period, exhausted, scheduled_again, failed_at, with_max_attempts, retry_on_failure,
  apply_failure_reason,
}
use persys_cloud.Scheduler.Retry.Backoff.{retry_backoff_bounds}

module _ {F : Type 0} where
  -- The attempts that the workload may use.
  abbrev pub allowed : Workload F → ℕ
  allowed w = (with_max_attempts w).retry.max_attempts

  -- Of `limit` attempts none is left: the workload has failed and no retry is ever due.
  abbrev pub GivenUp : ℕ → Workload F → Type 0
  GivenUp limit v =
      (v.status ≡ "Failed") × (v.retry.attempts ≡ limit) × ((t : ℕ) → due_for_retry t v ≡ false)

  -- The workload waits, an attempt is left, and a retry is due two minutes after `now` at the latest.
  abbrev pub Waits : ℕ → ℕ → Workload F → Type 0
  Waits limit now v =
      (v.status ≡ "RetryPending")
      × (v.retry.attempts < limit)
      × (due_for_retry (now + two_minutes) v ≡ true)

  with_max_attempts-keeps :
      (w : Workload F) → (with_max_attempts w).retry.attempts ≡ w.retry.attempts
  unfolding with_max_attempts
  with_max_attempts-keeps w = elim (Bool-cases (nat_eq w.retry.max_attempts 0)) [
    | inl e ↦ rw e refl
    | inr e ↦ rw e refl
  ]

  -- A retry set for at most two minutes from now is due by then.
  due_for_retry-set :
      (limit now : ℕ) (v : Workload F)
      → 0 < now
      → v.retry.max_attempts ≡ limit
      → v.retry.attempts < limit
      → limit ≤ 33
      → v.retry.next_retry_at ≡ add_duration now (retry_backoff v.retry.attempts)
      → due_for_retry (now + two_minutes) v ≡ true
  unfolding due_for_retry
  due_for_retry-set limit now v pos max left small e =
      ground (arith, retry_backoff_bounds v.retry.attempts now (omega arith))

module _ ⦃T : Formats⦄ where
  observed-some :
      (now : ℕ) (m : Assoc MetaValue) (o : Option ℕ)
      → (observed now m o).0 + two_minutes ≤ now
      → (t : ℕ) × (o ≡ some t) × (t + two_minutes ≤ now)
  unfolding observed
  observed-some now m none le = absurd (omega arith)
  observed-some now m (some t) le = (t, refl, le)

module _ {F : Type 0} ⦃T : Formats⦄ where
  in_grace_period-Waits :
      (limit now until : ℕ) (reason : String) (v : Workload F)
      → 0 < now
      → v.retry.max_attempts ≡ limit
      → v.retry.attempts < limit
      → limit ≤ 33
      → Waits limit now (in_grace_period now until reason v)
  unfolding in_grace_period apply_failure_reason
  in_grace_period-Waits limit now until reason v pos max left small =
      let fewer : (in_grace_period now until reason v).retry.attempts < limit = ground arith in
      (refl, fewer, due_for_retry-set limit now _ pos max fewer small refl)

  exhausted-GivenUp :
      (limit now : ℕ) (reason : String) (v : Workload F)
      → v.retry.max_attempts ≡ limit
      → v.retry.attempts < limit
      → leb v.retry.max_attempts (v.retry.attempts + 1) ≡ true
      → GivenUp limit (exhausted now reason v)
  unfolding exhausted apply_failure_reason due_for_retry
  exhausted-GivenUp limit now reason v max left last = (refl, ground arith, λ t. ground arith)

  scheduled_again-Waits :
      (limit now : ℕ) (reason : String) (v : Workload F)
      → 0 < now
      → v.retry.max_attempts ≡ limit
      → leb v.retry.max_attempts (v.retry.attempts + 1) ≡ false
      → limit ≤ 33
      → Waits limit now (scheduled_again now reason v)
  unfolding scheduled_again apply_failure_reason
  scheduled_again-Waits limit now reason v pos max more small =
      let fewer : (scheduled_again now reason v).retry.attempts < limit = ground arith in
      (refl, fewer, due_for_retry-set limit now _ pos max fewer small refl)

  failed_at_cases :
      (limit now : ℕ) (reason : String) (w : Workload F) (x : ℕ × Assoc MetaValue)
      → 0 < now
      → w.retry.max_attempts ≡ limit
      → w.retry.attempts < limit
      → limit ≤ 33
      → GivenUp limit (failed_at now reason w x).0 ⊎ Waits limit now (failed_at now reason w x).0
  unfolding failed_at
  failed_at_cases limit now reason w (first, m) pos max left small =
      elim (Bool-cases (ltb now (first + two_minutes))) [
        | inl e ↦ rw e (
            inr (
              in_grace_period-Waits limit now _ reason (record w { metadata = m }) pos max left
                small))
        | inr e ↦ elim (Bool-cases (leb w.retry.max_attempts (w.retry.attempts + 1))) [
          | inl l ↦
              rw (e, l)
                (inl (exhausted-GivenUp limit now reason (record w { metadata = m }) max left l))
          | inr l ↦
              rw (e, l)
                (inr (
                  scheduled_again-Waits limit now reason (record w { metadata = m }) pos max l
                    small))
        ]
      ]

  -- A failure of a workload that has an attempt left, where at most 33 are allowed: either the last
  -- attempt is used up, the workload is Failed and no retry is ever due, or it is RetryPending with an
  -- attempt left, and a retry is due within two minutes.
  pub retry_on_failure_cases :
      (now : ℕ) (reason : String) (w : Workload F)
      → 0 < now
      → w.retry.attempts < allowed w
      → allowed w ≤ 33
      → GivenUp (allowed w) (retry_on_failure now reason w).0
        ⊎ Waits (allowed w) now (retry_on_failure now reason w).0
  unfolding retry_on_failure
  retry_on_failure_cases now reason w pos left small =
      failed_at_cases (allowed w) now reason (with_max_attempts w) _ pos refl
        (rw (with_max_attempts-keeps w) left) small

  failed_at-Failed :
      (now : ℕ) (reason : String) (w : Workload F) (x : ℕ × Assoc MetaValue)
      → (failed_at now reason w x).0.status ≡ "Failed"
      → x.0 + two_minutes ≤ now
  unfolding failed_at in_grace_period apply_failure_reason
  failed_at-Failed now reason w (first, m) h = elim (Bool-cases (ltb now (first + two_minutes))) [
    | inl e ↦ absurd (cc (rw e at h))
    | inr e ↦ ground arith
  ]

  -- A failure that UpdateWorkloadRetryOnFailure records makes a workload Failed only when the first
  -- failure was seen two minutes ago or earlier.
  pub retry_on_failure-Failed :
      (now : ℕ) (reason : String) (w : Workload F)
      → (retry_on_failure now reason w).0.status ≡ "Failed"
      → (t : ℕ) × (metadata_timestamp w.metadata "failureObservedAt" ≡ some t)
        × (t + two_minutes ≤ now)
  unfolding retry_on_failure
  retry_on_failure-Failed now reason w h =
      observed-some now w.metadata _ (failed_at-Failed now reason (with_max_attempts w) _ h)

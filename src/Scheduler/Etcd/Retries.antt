-- ===== src/Scheduler/Etcd/Retries.antt =====
-- etcd.go: how often a call is tried, and what a refused or failed write leaves behind.
use persys_cloud.Prelude.{
  ℕ, zero, suc, ◌≤◌, String, ◌≡◌, ◌⊎◌, refl, true, false, Result, ok, err, arith, inl, inr,
  Bool-cases,
}
use persys_cloud.Scheduler.Models.{Value}
use persys_cloud.Scheduler.Services.{
  Services, OperatingMode, normal, degraded, recovery, Scheduler, ◌>>=◌,
}
use persys_cloud.Scheduler.Mode.{
  mode_eq, is_writable, require_writable, control_plane_frozen, enter_degraded,
}
use persys_cloud.Scheduler.Etcd.{
  attempts, retried, max_retries, or_freeze, retryable_etcd_put, retryable_etcd_delete,
}

abbrev pub Failed {ℓ} : {A : Type ℓ} → Result A → Type 0
Failed (ok a) = ⊥
Failed (err e) = Unit

module _ {W A : Type 0} where
  -- The world after `n` calls.
  abbrev pub after : ℕ → (W → Result A × W) → W → W
  after zero call w = w
  after (suc n) call w = after n call (call w).1

  -- The first `n` calls fail.
  abbrev pub FailsFirst : ℕ → (W → Result A × W) → W → Type 0
  FailsFirst zero call w = Unit
  FailsFirst (suc n) call w = Failed (call w).0 × FailsFirst n call (call w).1

  module _ (call : W → Result A × W) where
    -- Up to n failing calls from `x`, then an answer: the loop stops there.
    attempts_first :
        (n k : ℕ) (x : Result A × W)
        → k ≤ n
        → FailsFirst k call x.1
        → Failed x.0
        → {a : A} {v : W} → call (after k call x.1) ≡ (ok a, v)
        → attempts (suc n) call x ≡ (ok a, v)
    unfolding attempts
    attempts_first n k (ok a, w) le fails h e = elim h [ ]
    attempts_first n zero (err x, w) le fails h e = rw e refl
    attempts_first zero (suc k) (err x, w) le fails h e = absurd (omega arith)
    attempts_first (suc n) (suc k) (err x, w) le fails h e =
        attempts_first n k (call w) (omega arith) fails.1 fails.0 e

    -- Only failures from `x` on: every attempt is made, and the last error is returned.
    attempts_all :
        (n : ℕ) (x : Result A × W)
        → Failed x.0
        → FailsFirst n call x.1
        → Failed (attempts n call x).0 × ((attempts n call x).1 ≡ after n call x.1)
    unfolding attempts
    attempts_all n (ok a, w) h fails = elim h [ ]
    attempts_all zero (err e, w) h fails = (tt, refl)
    attempts_all (suc n) (err e, w) h fails = attempts_all n (call w) fails.0 fails.1

    -- An etcd call answers with the first success among its first six attempts, and makes no call after
    -- it.
    pub retried-first :
        (w : W) (k : ℕ) (a : A) (v : W)
        → k ≤ max_retries
        → FailsFirst k call w
        → call (after k call w) ≡ (ok a, v)
        → retried call w ≡ (ok a, v)
    unfolding retried attempts
    retried-first w zero a v le fails e = rw e refl
    retried-first w (suc k) a v le fails e =
        attempts_first 4 k (call w) (omega arith) fails.1 fails.0 e

    -- Where its first six attempts fail, an etcd call fails after exactly these six.
    pub retried-exhausted :
        (w : W)
        → FailsFirst (suc max_retries) call w
        → Failed (retried call w).0 × ((retried call w).1 ≡ after (suc max_retries) call w)
    unfolding retried
    retried-exhausted w fails = attempts_all max_retries (call w) fails.0 fails.1

module _ {W F : Type 0} ⦃V : Services W F⦄ where
  -- While the control plane is frozen a write is refused: nothing is sent and nothing changes.
  pub retryable_etcd_put-frozen :
      (key : String) (v : Value F) (s : Scheduler W F)
      → is_writable s ≡ false
      → retryable_etcd_put key v s ≡ (err control_plane_frozen, s)
  unfolding retryable_etcd_put require_writable ◌>>=◌
  retryable_etcd_put-frozen key v s h = rw h refl

  pub retryable_etcd_delete-frozen :
      (key : String) (s : Scheduler W F)
      → is_writable s ≡ false
      → retryable_etcd_delete key s ≡ (err control_plane_frozen, s)
  unfolding retryable_etcd_delete require_writable ◌>>=◌
  retryable_etcd_delete-frozen key s h = rw h refl

  -- How a write ends that started in `s`: without an error, only the world changed, or with one, the
  -- control plane frozen.
  abbrev pub Written : Scheduler W F → Result (Unit {0}) × Scheduler W F → Type 0
  Written s x =
      ((w : W) × (x ≡ (ok tt, record s { world = w }))) ⊎ (Failed x.0 × (is_writable x.1 ≡ false))

  pub or_freeze-Written :
      (verb noun key : String) (r : Result (Unit {0})) (w : W) (s : Scheduler W F)
      → Written s (or_freeze verb noun key r (record s { world = w }))
  unfolding is_writable ◌>>=◌ or_freeze enter_degraded
  or_freeze-Written verb noun key (ok u) w s = inl (w, refl)
  or_freeze-Written verb noun key (err e) w s = elim (Bool-cases (mode_eq s.mode degraded)) [
    | inl d ↦ inr (rw d (tt, degraded_frozen s.mode d))
    | inr d ↦ inr (rw d (tt, refl))
  ]
    where
      degraded_frozen : (m : OperatingMode) → mode_eq m degraded ≡ true → mode_eq m normal ≡ false
      degraded_frozen normal h = absurd (ground arith)
      degraded_frozen degraded h = refl
      degraded_frozen recovery h = refl

  -- A write returns without an error and changes only the world, or it fails and the control plane is
  -- then frozen.
  pub retryable_etcd_put-Written :
      (key : String) (v : Value F) (s : Scheduler W F) → Written s (retryable_etcd_put key v s)
  unfolding retryable_etcd_put require_writable ◌>>=◌
  retryable_etcd_put-Written key v s = elim (Bool-cases (is_writable s)) [
    | inl h ↦ rw h (or_freeze-Written "put" "write" key _ _ s)
    | inr h ↦ inr (rw h (tt, h))
  ]

  pub retryable_etcd_delete-Written :
      (key : String) (s : Scheduler W F) → Written s (retryable_etcd_delete key s)
  unfolding retryable_etcd_delete require_writable ◌>>=◌
  retryable_etcd_delete-Written key s = elim (Bool-cases (is_writable s)) [
    | inl h ↦ rw h (or_freeze-Written "delete" "delete" key _ _ s)
    | inr h ↦ inr (rw h (tt, h))
  ]

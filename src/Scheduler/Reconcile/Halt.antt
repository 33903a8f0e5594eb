-- ===== src/Scheduler/Reconcile/Halt.antt =====
-- persys-scheduler/internal/scheduler/reconciler.go: a workload whose failure is final.
use persys_cloud.Prelude.{
  ℕ, String, ◌≡◌, refl, ap, Bool, true, false, ◌&&◌, ◌||◌, none, some, ok, lookup-put,
  lookup-delete, inl, inr, ◌==◌, eq_iff, Bool-cases, Option-cases, ◌≢◌, arith,
}
use persys_cloud.Text.{trim_space, to_lower, equal_fold}
use persys_cloud.Scheduler.Models.{Workload}
use persys_cloud.Scheduler.Services.{Formats, Floats, Services, Scheduler, ◌>>=◌}
use persys_cloud.Scheduler.Retry.{metadata_string, delete_keys, clear_reapply_metadata}
use persys_cloud.Scheduler.Agent.{Agents, Config}
use persys_cloud.Scheduler.Agent.Ports.{Platform}
use persys_cloud.Scheduler.Reconcile.{
  desired_of, is_down, is_metadata_true, has_terminal_code, retries_spent, should_halt_reapply,
}
use persys_cloud.Scheduler.Reconcile.Apply.{
  attempt_of, halted, already_halted, perform_reconciliation,
}

failed_folds : equal_fold "Failed" "Failed" ≡ true
unfolding equal_fold
failed_folds = refl

running_folds : equal_fold "Running" "Running" ≡ true
unfolding equal_fold
running_folds = refl

running-not_deleted : (s : String) → equal_fold s "Running" ≡ true → equal_fold s "Deleted" ≡ false
unfolding equal_fold
running-not_deleted s h = rw ((eq_iff (to_lower s) (to_lower "Running")).0 h) refl

module _ {F : Type 0} where
  -- The workload's own grounds for a halt.
  unfoldable pub has_grounds : Workload F → String → Bool
  has_grounds w actual =
      is_metadata_true w.metadata "retry_terminal"
      || has_terminal_code (metadata_string w.metadata "failure_reason")
      || retries_spent w actual

  unfoldable pub halts : Workload F → String → Bool
  halts w actual =
      equal_fold (trim_space w.desired_state) "Running" && is_down actual && has_grounds w actual

  retry_terminal-halted :
      (now : ℕ) (reason : String) (w : Workload F)
      → is_metadata_true (halted now reason w).metadata "retry_terminal"
        ≡ is_metadata_true w.metadata "retry_terminal"
  unfolding is_metadata_true halted clear_reapply_metadata delete_keys
  retry_terminal-halted now reason w = simp (lookup-delete, lookup-put)

  failure_reason-halted :
      (now : ℕ) (reason : String) (w : Workload F)
      → metadata_string (halted now reason w).metadata "failure_reason"
        ≡ metadata_string w.metadata "failure_reason"
  unfolding metadata_string halted clear_reapply_metadata delete_keys
  failure_reason-halted now reason w = simp (lookup-delete, lookup-put)

  last_action-halted :
      (now : ℕ) (reason : String) (w : Workload F)
      → metadata_string (halted now reason w).metadata "last_action"
        ≡ some "TerminalFailureNoReapply"
  unfolding metadata_string halted clear_reapply_metadata delete_keys
  last_action-halted now reason w = simp (lookup-delete, lookup-put)

  already_halted-halted :
      (now : ℕ) (reason : String) (w : Workload F) → already_halted (halted now reason w) ≡ true
  unfolding already_halted trim_space equal_fold
  already_halted-halted now reason w = rw (last_action-halted now reason w) refl

  retries_spent-halted :
      (now : ℕ) (reason : String) (w : Workload F) (actual : String)
      → retries_spent w actual ≡ true
      → retries_spent (halted now reason w) actual ≡ true
  unfolding retries_spent halted clear_reapply_metadata
  retries_spent-halted now reason w actual h = ground (arith, failed_folds)

  desired_state-halted :
      (now : ℕ) (reason : String) (w : Workload F)
      → (halted now reason w).desired_state ≡ w.desired_state
  unfolding halted clear_reapply_metadata
  desired_state-halted now reason w = refl

  halts-halted :
      (now : ℕ) (reason : String) (w : Workload F) (actual : String)
      → halts w actual ≡ true
      → halts (halted now reason w) actual ≡ true
  unfolding halts has_grounds
  halts-halted now reason w actual h = ground (
    arith,
    ap (λ d. equal_fold (trim_space d) "Running") (desired_state-halted now reason w),
    retry_terminal-halted now reason w,
    failure_reason-halted now reason w,
    retries_spent-halted now reason w actual,
  )

  wants_running :
      (w : Workload F) (actual : String)
      → halts w actual ≡ true
      → (equal_fold (desired_of w) "Deleted" ≡ false)
        × (equal_fold (desired_of w) "Running" && is_down actual ≡ true)
  unfolding halts desired_of
  wants_running w actual h = elim (Bool-cases (trim_space w.desired_state == "")) [
    | inl e ↦ rw e (running-not_deleted "Running" running_folds, ground (arith, running_folds))
    | inr e ↦ rw e (running-not_deleted (trim_space w.desired_state) (ground arith), ground arith)
  ]

module _ {F : Type 0} ⦃T : Formats⦄ where
  should_halt_reapply-halts :
      (w : Workload F) (actual reason : String)
      → should_halt_reapply w actual ≡ some reason
      → halts w actual ≡ true
  unfolding should_halt_reapply halts has_grounds
  should_halt_reapply-halts w actual reason h = ground arith

  not-silent :
      (w : Workload F) (actual : String)
      → halts w actual ≡ true
      → should_halt_reapply w actual ≢ none
  unfolding should_halt_reapply halts has_grounds
  not-silent w actual h e = ground arith

  halts-should_halt_reapply :
      (w : Workload F) (actual : String)
      → halts w actual ≡ true
      → (reason : String) × (should_halt_reapply w actual ≡ some reason)
  halts-should_halt_reapply w actual h = elim (Option-cases (should_halt_reapply w actual)) [
    | inl e ↦ absurd (not-silent w actual h e)
    | inr (reason, e) ↦ (reason, e)
  ]

module _ {W F : Type 0} ⦃T : Formats⦄ ⦃N : Floats F⦄ ⦃P : Platform⦄ ⦃C : Config⦄ ⦃V : Services W F⦄
    ⦃A : Agents W F⦄ where
  -- A workload as performReconciliation leaves it when it halts for a final failure is not halted anew: for
  -- the same actual state performReconciliation answers NoAction, sends the agent nothing, writes nothing
  -- and does not even read the clock.
  pub perform_reconciliation-halted :
      (w : Workload F) (actual reason : String) (now : ℕ) (s : Scheduler W F)
      → should_halt_reapply w actual ≡ some reason
      → perform_reconciliation (halted now reason w) actual s
        ≡ (ok (record { action = "NoAction"; failure = none }), s)
  unfolding perform_reconciliation ◌>>=◌ attempt_of
  perform_reconciliation-halted w actual reason now s e =
      let h = halts-halted now reason w actual (should_halt_reapply-halts w actual reason e) in
      let (alive, down) = wants_running (halted now reason w) actual h in
      let (again, halted_again) = halts-should_halt_reapply (halted now reason w) actual h in
      rw (alive, down, halted_again, already_halted-halted now reason w) refl

-- ===== src/Scheduler/Reconcile/Apply.antt =====
-- persys-scheduler/internal/scheduler/reconciler.go: applyDesiredState and performReconciliation.
use persys_cloud.Prelude.{
  ℕ, String, Bool, false, not, ◌&&◌, ◌||◌, List, [], ◌∷◌, Option, none, some, Result, ok, err,
  if◌then◌else◌, is_empty, is_some, any, lookup, put,
}
use persys_cloud.Text.{concat, trim_space, equal_fold}
use persys_cloud.Scheduler.Models.{Node, Workload, str}
use persys_cloud.Scheduler.Services.{
  Formats, Floats, Services, Act, pure, fail, call, try, ignore, wrapped, ◌>>=◌, ◌>>◌,
}
use persys_cloud.Scheduler.Store.{save_workload, emit_event}
use persys_cloud.Scheduler.Retry.{
  add_duration, delete_keys, metadata_string, clear_reapply_metadata,
}
use persys_cloud.Scheduler.Workloads.{
  update_workload_status, update_workload_logs, update_workload_metadata,
}
use persys_cloud.Scheduler.Nodes.Reads.{get_node_by_id}
use persys_cloud.Scheduler.Agent.{
  Agents, Config, WorkloadReport, ApplyResponse, scheduler_status, get_workload_status_from_node,
  apply_workload_on_node, is_workload_status_not_found,
}
use persys_cloud.Scheduler.Agent.Request.{DesiredState, run, stop}
use persys_cloud.Scheduler.Agent.Ports.{Platform}
use persys_cloud.Scheduler.Reconcile.{
  desired_of, is_down, should_halt_reapply, reapply_still_guarded, base_reapply_backoff,
  next_attempt, reapply_backoff, armed,
}
use persys_cloud.Scheduler.Reconcile.Actions.{delete_desired_workload}

unfoldable pub state_name : DesiredState → String
state_name run = "Running"
state_name stop = "Stopped"

-- What was tried, and the error where it failed.
pub record Attempt : Type 0 where
  pub action : String
  pub failure : Option String

-- An action, or `NoAction` where there was nothing to do.
unfoldable pub attempt_of : String → Result String → Attempt
attempt_of tried (ok done) = record { action = done; failure = none }
attempt_of tried (err e) = record { action = tried; failure = some e }

abbrev reapply_keys : List String
reapply_keys = "reapplyAttempts" ∷ "reapplyNextAt" ∷ "lastApplyRequestAt" ∷ "lastApplyRevision" ∷ []

module _ {F : Type 0} where
  -- A workload whose failure is final.
  unfoldable pub halted : ℕ → String → Workload F → Workload F
  halted now reason w = clear_reapply_metadata (record w {
    status = "Failed";
    status_info = record w.status_info {
      actual_state = "Failed";
      failure_reason = reason;
      last_updated = now;
    };
    metadata =
        put "terminal_failure_reason" (str reason)
          (put "last_action" (str "TerminalFailureNoReapply") w.metadata);
  })

  unfoldable pub already_halted : Workload F → Bool
  already_halted w = halted_before (metadata_string w.metadata "last_action")
    where
      halted_before : Option String → Bool
      halted_before none = false
      halted_before (some s) = equal_fold (trim_space s) "TerminalFailureNoReapply"

module _ {W F : Type 0} ⦃T : Formats⦄ ⦃V : Services W F⦄ where
  unfoldable pub reset_reapply_backoff : Workload F → Act W F (Unit {0})
  reset_reapply_backoff w =
      if any (λ k. is_some (lookup k w.metadata)) reapply_keys
      then (call V.now >>= λ now. ignore (
          save_workload (record w {
            metadata = delete_keys reapply_keys w.metadata;
            status_info = record w.status_info { last_updated = now };
          })))
      else pure tt

  store_metadata : String → WorkloadReport → Act W F (Unit {0})
  store_metadata id r =
      if is_empty r.metadata then pure tt else ignore (update_workload_metadata id r.metadata)

  -- The agent already has the workload in the state that is wanted.
  unfoldable pub settle : Workload F → WorkloadReport → Act W F String
  unfolding store_metadata
  settle w r = do
    ignore (update_workload_status w.id (scheduler_status r.actual_state))
    store_metadata w.id r
    reset_reapply_backoff w
    pure "NoAction"

  store_answer : String → Option WorkloadReport → Act W F (Unit {0})
  unfolding store_metadata
  store_answer id none = pure tt
  store_answer id (some r) =
      ignore (update_workload_status id (scheduler_status r.actual_state)) >> store_metadata id r

  -- A halted workload is marked once.
  unfoldable pub halt : Workload F → String → Act W F String
  unfolding already_halted
  halt w reason = do
    if already_halted w then pure tt else do
      now ← call V.now
      ignore (save_workload (halted now reason w))
      ignore (
          update_workload_logs w.id
            (concat ("Reapply halted due to terminal failure: " ∷ reason ∷ [])))
    pure "NoAction"

module _ {W F : Type 0} ⦃T : Formats⦄ ⦃N : Floats F⦄ ⦃P : Platform⦄ ⦃C : Config⦄ ⦃V : Services W F⦄
    ⦃A : Agents W F⦄ where
  -- The workload as it is saved after the agent took it.
  unfoldable pub applied_workload : DesiredState → Workload F → Act W F (Workload F)
  applied_workload run w = do
    now ← call V.now
    later ← call V.now
    let count = next_attempt w
    let next = T.format_time (add_duration later (reapply_backoff (base_reapply_backoff w) count))
    ignore (
        update_workload_logs w.id (
          concat (
            "Reapply attempt "
            ∷ T.itoa count
            ∷ " recorded; next retry allowed after "
            ∷ next
            ∷ [])))
    pure (record w {
      metadata = armed (T.format_time now) (trim_space w.revision_id) count next w.metadata;
    })
  applied_workload stop w = pure (clear_reapply_metadata w)

  unfoldable pub apply_answered :
      DesiredState → String → Workload F → Option ApplyResponse → Act W F String
  unfolding applied_workload store_answer
  apply_answered wanted action w none = fail "apply response was nil"
  apply_answered wanted action w (some r) =
      if not r.applied && not r.skipped
      then fail (concat ("agent rejected apply: " ∷ trim_space r.message ∷ []))
      else do
        store_answer w.id r.status
        now ← call V.now
        ignore (
            update_workload_logs w.id
              (concat ("Reconciler action " ∷ action ∷ " at " ∷ T.format_time now ∷ [])))
        emit_event "WorkloadScheduled" w.id w.node_id action
        saved ← applied_workload wanted w
        wrapped (λ e. concat ("persist apply metadata: " ∷ e ∷ [])) (save_workload saved)
        pure action

  unfoldable pub send_apply : DesiredState → String → Node F → Workload F → Act W F String
  unfolding apply_answered
  send_apply wanted action n given = do
    let w = record given { desired_state = state_name wanted }
    answer ←
        wrapped (λ e. concat ("failed to apply desired state: " ∷ e ∷ []))
          (apply_workload_on_node n w)
    apply_answered wanted action w answer

  -- The agent's state just before the apply.
  unfoldable pub after_check :
      DesiredState → String → Node F → Workload F → Result (Option WorkloadReport) → Act W F String
  unfolding settle send_apply
  after_check wanted action n w (err e) =
      if is_workload_status_not_found e
      then send_apply wanted action n w
      else fail (concat ("pre-apply status check failed: " ∷ e ∷ []))
  after_check wanted action n w (ok none) = send_apply wanted action n w
  after_check wanted action n w (ok (some r)) =
      if equal_fold (scheduler_status r.actual_state) (state_name wanted)
      then settle w r
      else send_apply wanted action n w

  unfoldable pub apply_desired_state : DesiredState → String → Workload F → Act W F String
  unfolding after_check
  apply_desired_state wanted action w = do
    n ← wrapped (λ e. concat ("failed to get node: " ∷ e ∷ [])) (get_node_by_id w.node_id)
    answer ← try (get_workload_status_from_node n w.id)
    after_check wanted action n w answer

  abbrev attempted : String → Act W F String → Act W F Attempt
  attempted action m = try m >>= λ r. pure (attempt_of action r)

  unless_guarded : Workload F → String → Option ℕ → Act W F Attempt
  unfolding apply_desired_state
  unless_guarded w actual none =
      attempted "ReapplyRunning" (apply_desired_state run "ReapplyRunning" w)
  unless_guarded w actual (some t) =
      ignore (
        update_workload_logs w.id (
          concat (
            "Reapply deferred by backoff until "
            ∷ T.format_time t
            ∷ " (state="
            ∷ actual
            ∷ " desired="
            ∷ desired_of w
            ∷ ")"
            ∷ [])))
      >> pure (record { action = "ReapplyBackoffWait"; failure = none })

  unfoldable pub unless_halted : Workload F → String → Option String → Act W F Attempt
  unfolding halt unless_guarded
  unless_halted w actual (some reason) = attempted "NoAction" (halt w reason)
  unless_halted w actual none = reapply_still_guarded w >>= unless_guarded w actual

  unfoldable pub perform_reconciliation : Workload F → String → Act W F Attempt
  unfolding unless_halted
  perform_reconciliation w actual =
      let wanted = desired_of w in
      let runs =
        equal_fold actual "Running" || equal_fold actual "Pending" || equal_fold actual "Unknown" in
      if equal_fold wanted "Deleted"
      then attempted "Delete" (delete_desired_workload w >> pure "Delete")
      else if equal_fold wanted "Running" && is_down actual
      then unless_halted w actual (should_halt_reapply w actual)
      else if equal_fold wanted "Stopped" && runs
      then attempted "ApplyStopped" (apply_desired_state stop "ApplyStopped" w)
      else pure (record { action = "NoAction"; failure = none })

-- ===== src/Scheduler/Reconcile/Cycle.antt =====
-- persys-scheduler/internal/scheduler/reconciler.go: ReconcileWorkload and ReconcileAllWorkloads.
use persys_cloud.Prelude.{
  ℕ, String, Bool, true, false, not, ◌&&◌, ◌||◌, List, [], ◌∷◌, Option, none, some, Result, ok, err,
  if◌then◌else◌, ltb, leb, nat_eq, put, ◌==◌,
}
use persys_cloud.Text.{concat, trim_space, equal_fold}
use persys_cloud.Scheduler.Models.{Workload, str}
use persys_cloud.Scheduler.Services.{
  Formats, Floats, Services, Act, pure, call, try, ignore, wrapped, branch, ◌>>=◌, ◌>>◌,
}
use persys_cloud.Scheduler.Mode.{is_writable, control_plane_frozen}
use persys_cloud.Scheduler.Store.{save_workload, marked_storage, write_reconciliation_record}
use persys_cloud.Scheduler.Store.Reads.{get_workloads}
use persys_cloud.Scheduler.Retry.{due_for_retry}
use persys_cloud.Scheduler.Workloads.{update_workload_retry_on_failure}
use persys_cloud.Scheduler.Nodes.Select.{ensure_workload_assigned}
use persys_cloud.Scheduler.Nodes.Control.{mark_node_not_ready}
use persys_cloud.Scheduler.Agent.{Agents, Config, is_node_unreachable_error}
use persys_cloud.Scheduler.Agent.Ports.{Platform}
use persys_cloud.Scheduler.Agent.Delete.{delete_workload}
use persys_cloud.Scheduler.Reconcile.{needs_reconciliation}
use persys_cloud.Scheduler.Reconcile.Actions.{
  ReconciliationResult, handle_runtime_unavailable, handle_unavailable_assigned_node,
  get_actual_workload_state, update_workload_reconciliation_status,
}
use persys_cloud.Scheduler.Reconcile.Apply.{Attempt, perform_reconciliation}

-- The result, and the error that goes with it.
abbrev pub Outcome : Type 0
Outcome = ReconciliationResult × Option String

module _ {F : Type 0} where
  -- A result of a time, before anything is done.
  unfoldable pub fresh_result : ℕ → Workload F → ReconciliationResult
  fresh_result now w = record {
    workload_id = w.id;
    desired_state = w.desired_state;
    actual_state = "";
    action = "";
    success = false;
    error_message = "";
    retry_count = 0;
    last_attempt = now;
  }

  unfoldable pub frozen_result : ℕ → Workload F → ReconciliationResult
  unfolding fresh_result
  frozen_result now w = record (fresh_result now w) {
    action = "Frozen";
    error_message = control_plane_frozen;
  }

  abbrev pub to_be_deleted : Workload F → Bool
  to_be_deleted w = equal_fold w.desired_state "Deleted"

  abbrev pub finished : Workload F → Bool
  finished w = w.status == "Completed" || w.status == "Deleted"

  -- The retry's time has come: the mark of it.
  unfoldable pub retry_taken : Workload F → Workload F
  retry_taken w = record w {
    retry = record w.retry { next_retry_at = 0 };
    status = "Pending";
    metadata = put "last_action" (str "RetryDue") w.metadata;
  }

abbrev pub add_result : Outcome → List ReconciliationResult → List ReconciliationResult
add_result (r, none) rs = r ∷ rs
add_result (r, some e) rs = rs

abbrev pub succeeded : String → ReconciliationResult → ReconciliationResult
succeeded action r = record r { action = action; success = true }

abbrev failed : String → String → ReconciliationResult → ReconciliationResult
failed action e r = record r { action = action; success = false; error_message = e }

abbrev unknown : ReconciliationResult → ReconciliationResult
unknown r = record r { actual_state = "Unknown" }

module _ {W F : Type 0} ⦃V : Services W F⦄ where
  -- The backoff window of a retry; the clock is read where there is one.
  unfoldable pub in_backoff : Workload F → Act W F Bool
  in_backoff w =
      if leb 3 w.retry.attempts && not (nat_eq w.retry.next_retry_at 0)
      then (call V.now >>= λ now. pure (ltb now w.retry.next_retry_at))
      else pure false

  unfoldable pub is_due : Workload F → Act W F Bool
  is_due w =
      if leb w.retry.max_attempts w.retry.attempts && ltb 0 w.retry.max_attempts
        || nat_eq w.retry.next_retry_at 0
      then pure false
      else (call V.now >>= λ now. pure (due_for_retry now w))

module _ {W F : Type 0} ⦃T : Formats⦄ ⦃N : Floats F⦄ ⦃P : Platform⦄ ⦃C : Config⦄ ⦃V : Services W F⦄
    ⦃A : Agents W F⦄ where
  -- The record of a result under a text, and the workload's own.
  recorded : String → ReconciliationResult → Act W F (Unit {0})
  recorded cause r =
      write_reconciliation_record r.workload_id r.action r.success cause
      >> update_workload_reconciliation_status r.workload_id r

  abbrev closed : ReconciliationResult → Act W F Outcome
  closed r = recorded r.error_message r >> pure (r, none)

  abbrev given_up : ReconciliationResult → String → Act W F Outcome
  given_up r e = recorded r.error_message r >> pure (r, some e)

  finalized : ReconciliationResult → Result (Unit {0}) → Act W F Outcome
  unfolding recorded
  finalized r (err e) = given_up (failed "FinalizeDelete" e r) e
  finalized r (ok u) =
      write_reconciliation_record r.workload_id "FinalizeDelete" true "Deleted from state store"
      >> pure (succeeded "FinalizeDelete" r, none)

  after_runtime :
      ReconciliationResult → String → Option (Result (Unit {0})) → Act W F ReconciliationResult
  after_runtime r e none =
      ignore (update_workload_retry_on_failure r.workload_id e)
      >> pure (record r { error_message = e })
  after_runtime r e (some (err f)) =
      ignore (update_workload_retry_on_failure r.workload_id f)
      >> pure (record r { error_message = f })
  after_runtime r e (some (ok u)) = pure (record r { action = "ReschedulePending"; success = true })

  performed : Workload F → ReconciliationResult → Attempt → Act W F ReconciliationResult
  unfolding after_runtime
  performed w r a = judged a.failure
    where
      judged : Option String → Act W F ReconciliationResult
      judged none = pure (succeeded a.action r)
      judged (some e) =
          handle_runtime_unavailable w e
          >>= after_runtime (record r { action = a.action; success = false }) e

  -- The agent's state is known.
  unfoldable pub act_on : Workload F → ReconciliationResult → String → Act W F Outcome
  unfolding performed recorded
  act_on w given actual = do
    let r = record given { actual_state = actual }
    done ←
        if needs_reconciliation w actual
        then (perform_reconciliation w actual >>= performed w r)
        else pure (succeeded "NoAction" r)
    closed done

  investigate : ReconciliationResult → String → Act W F Outcome
  investigate r e =
      given_up (failed "Investigate" (concat ("failed to get actual state: " ∷ e ∷ [])) (unknown r))
        e

  second_look : ReconciliationResult → Workload F → Result String → Act W F Outcome
  unfolding act_on investigate
  second_look r w (ok actual) = act_on w r actual
  second_look r w (err e) = investigate r e

  -- The failover's outcome: an error, a wait, or the workload to go on with.
  unfoldable pub failed_over :
      String
      → ReconciliationResult
      → (Workload F → Act W F Outcome)
      → Result (Bool × Workload F)
      → Act W F Outcome
  unfolding recorded
  failed_over cause r next (err e) =
      let lost = failed "Reschedule" e (unknown r) in
      write_reconciliation_record r.workload_id "Reschedule" false e
      >> ignore (update_workload_retry_on_failure r.workload_id e)
      >> update_workload_reconciliation_status r.workload_id lost
      >> pure (lost, some e)
  failed_over cause r next (ok (true, w)) =
      let waits = succeeded "AwaitFailover" (unknown r) in
      recorded cause waits >> pure (waits, none)
  failed_over cause r next (ok (false, w)) = next w

  -- An unreachable node is marked NotReady, and the workload goes to another.
  unfoldable pub first_look : Workload F → ReconciliationResult → Result String → Act W F Outcome
  unfolding second_look failed_over
  first_look w r (ok actual) = act_on w r actual
  first_look w r (err e) =
      if not (trim_space w.node_id == "") && is_node_unreachable_error e && not (to_be_deleted w)
      then ignore (mark_node_not_ready w.node_id e "reconciler")
        >> (try (handle_unavailable_assigned_node w)
            >>= failed_over "node unreachable; waiting for retry window" r
                λ moved. try (get_actual_workload_state moved) >>= second_look r moved)
      else investigate r e

  look : ReconciliationResult → Workload F → Act W F Outcome
  unfolding first_look
  look r w = try (get_actual_workload_state w) >>= first_look w r

  -- The workload has a node, or is to be deleted.
  unfoldable pub on_its_node : ReconciliationResult → Workload F → Act W F Outcome
  unfolding look
  on_its_node r found = do
    due ← is_due found
    let w = if due then marked_storage (retry_taken found) else found
    if due then ignore (save_workload (retry_taken found)) else pure tt
    if not (trim_space w.node_id == "") && not (to_be_deleted w)
        then (try (handle_unavailable_assigned_node w)
            >>= failed_over "node unavailable; waiting for retry window" r (look r))
        else look r w

  unfoldable pub once_assigned :
      ReconciliationResult → Workload F × Result (Unit {0}) → Act W F Outcome
  unfolding on_its_node
  once_assigned r (w, ok u) = on_its_node r w
  once_assigned r (w, err e) =
      if to_be_deleted w
      then on_its_node r w
      else given_up (failed "Assign" (concat ("failed to assign node: " ∷ e ∷ [])) (unknown r)) e

  unfoldable pub reconcile_writable : Workload F → Act W F Outcome
  unfolding finalized once_assigned
  reconcile_writable w = do
    now ← call V.now
    let r = fresh_result now w
    waits ← in_backoff w
    if waits
        then pure (succeeded "BackoffWait" r, none)
        else if to_be_deleted w && w.node_id == ""
        then (try (delete_workload w.id) >>= finalized r)
        else (ensure_workload_assigned w >>= once_assigned r)

  unfoldable pub reconcile_workload : Workload F → Act W F Outcome
  unfolding reconcile_writable
  reconcile_workload w =
      branch is_writable (reconcile_writable w)
        (call V.now >>= λ now. pure (frozen_result now w, some control_plane_frozen))

  -- The results of the workloads that are reconciled without an error.
  unfoldable pub reconcile_each : List (Workload F) → Act W F (List ReconciliationResult)
  reconcile_each [] = pure []
  reconcile_each (w ∷ ws) =
      let rest = reconcile_each ws in
      if finished w
      then rest
      else reconcile_workload w >>= λ o. rest >>= λ rs. pure (add_result o rs)

  unfoldable pub reconcile_all_workloads : Act W F (List ReconciliationResult)
  unfolding reconcile_each
  reconcile_all_workloads =
      wrapped (λ e. concat ("failed to get workloads: " ∷ e ∷ [])) get_workloads >>= reconcile_each

-- ===== src/Scheduler/Agent/Delete.antt =====
-- persys-scheduler/internal/scheduler/scheduler.go: DeleteWorkloadWithContext. The wait for the
-- agent's confirmation has the fuel for its timeout; a wait that ran out of it is an error of the model.
pub mod Ends
use persys_cloud.Prelude.{
  ℕ, zero, suc, ◌+◌, ◌/◌, String, Bool, true, false, ◌||◌, List, [], ◌∷◌, Option, none, some,
  Result, ok, err, if◌then◌else◌, ltb, ◌==◌,
}
use persys_cloud.Text.{concat}
use persys_cloud.Scheduler.Models.{Node, Workload}
use persys_cloud.Scheduler.Services.{
  Formats, Services, Act, pure, fail, call, try, ignore, wrapped, ◌>>=◌, ◌>>◌,
}
use persys_cloud.Scheduler.Mode.{require_writable, remove_cached_workload}
use persys_cloud.Scheduler.Etcd.{retryable_etcd_delete}
use persys_cloud.Scheduler.Storage.{should_sync_managed_storage}
use persys_cloud.Scheduler.Storage.Cleanup.{cleanup_managed_storage_for_workload}
use persys_cloud.Scheduler.Store.{
  workload_spec_key, workload_status_key, workload_key, assignment_key, retry_key,
  reconciliation_key, emit_event,
}
use persys_cloud.Scheduler.Store.Reads.{get_workload_by_id}
use persys_cloud.Scheduler.Workloads.{update_workload_logs}
use persys_cloud.Scheduler.Nodes.Reads.{get_node_by_id}
use persys_cloud.Scheduler.Agent.Ports.{Platform}
use persys_cloud.Scheduler.Agent.{
  Agents, Config, WorkloadReport, agent_poll_interval, delete_timeout,
  get_workload_status_from_node, delete_workload_from_node, is_workload_status_not_found,
  is_node_unreachable_error,
}

module _ ⦃C : Config⦄ where
  -- Rounds that cover the timeout, one for each poll interval, and two more.
  unfoldable pub delete_rounds : ℕ
  delete_rounds = suc (delete_timeout / agent_poll_interval + 1)

module _ {W F : Type 0} ⦃T : Formats⦄ ⦃P : Platform⦄ ⦃C : Config⦄ ⦃V : Services W F⦄
    ⦃A : Agents W F⦄ where
  unfoldable pub unless_late : Act W F Bool → ℕ → String → String → Act W F Bool
  unless_late again deadline node id = call V.now >>= λ now.
      if ltb deadline now
      then ignore (
          update_workload_logs id (
            concat (
              "delete verification timed out on node " ∷ node ∷ "; removing scheduler state" ∷ [])))
        >> pure true
      else again

  unfoldable pub status_polled :
      Act W F Bool → ℕ → String → String → Result (Option WorkloadReport) → Act W F Bool
  unfolding unless_late
  status_polled again deadline node id (ok r) = unless_late again deadline node id
  status_polled again deadline node id (err e) =
      if is_workload_status_not_found e
      then pure true
      else if is_node_unreachable_error e
      then ignore (
          update_workload_logs id
            (concat ("delete verification skipped: node " ∷ node ∷ " unreachable" ∷ [])))
        >> pure true
      else unless_late again deadline node id

  -- Whether the wait ended within the rounds.
  unfoldable pub await_deletion : ℕ → ℕ → Node F → String → Act W F Bool
  unfolding status_polled
  await_deletion zero deadline n id = pure false
  await_deletion (suc rounds) deadline n id =
      let again = call (A.sleep agent_poll_interval) >> await_deletion rounds deadline n id in
      try (get_workload_status_from_node n id) >>= status_polled again deadline n.node_id id

  unfoldable pub deletion_answered : Node F → String → Result (Unit {0}) → Act W F (Unit {0})
  deletion_answered n id (ok u) = pure tt
  deletion_answered n id (err e) =
      if is_node_unreachable_error e || is_workload_status_not_found e
      then ignore (
          update_workload_logs id (
            concat (
              "best-effort delete: node " ∷ n.node_id ∷ " unreachable, removing scheduler state"
              ∷ [])))
      else fail (concat ("delete workload on node " ∷ n.node_id ∷ ": " ∷ e ∷ []))

  unfoldable pub delete_on_node : String → Result (Node F) → Act W F (Unit {0})
  unfolding deletion_answered
  delete_on_node id (err e) = pure tt
  delete_on_node id (ok n) = do
    answer ← try (delete_workload_from_node n id)
    deletion_answered n id answer
    now ← call V.now
    ended ← await_deletion delete_rounds (now + delete_timeout) n id
    if ended then pure tt else fail "the wait for the agent did not end"

  unfoldable pub delete_found : String → Result (Workload F) → Act W F (Unit {0})
  unfolding delete_on_node
  delete_found id (err e) = pure tt
  delete_found id (ok w) = do
    if should_sync_managed_storage w
        then wrapped
            (λ e.
              concat ("failed to cleanup managed storage state for workload " ∷ id ∷ ": " ∷ e ∷ []))
            (cleanup_managed_storage_for_workload id)
        else pure tt
    if w.node_id == "" then pure tt else (try (get_node_by_id w.node_id) >>= delete_on_node id)

  -- The keys of a workload, its event and its place in the caches.
  unfoldable pub remove_state : String → Act W F (Unit {0})
  remove_state id = do
    wrapped (λ e. concat ("failed to delete workload " ∷ id ∷ ": " ∷ e ∷ []))
        (retryable_etcd_delete (workload_spec_key id))
    ignore (retryable_etcd_delete (workload_status_key id))
    ignore (retryable_etcd_delete (workload_key id))
    ignore (retryable_etcd_delete (assignment_key id))
    ignore (retryable_etcd_delete (retry_key id))
    ignore (retryable_etcd_delete (reconciliation_key id))
    emit_event "Rescheduled" id "" "Workload state removed"
    remove_cached_workload id

  unfoldable pub delete_workload : String → Act W F (Unit {0})
  unfolding delete_found remove_state
  delete_workload id = do
    require_writable
    found ← try (get_workload_by_id id)
    delete_found id found
    remove_state id

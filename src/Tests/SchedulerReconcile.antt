-- ===== src/Tests/SchedulerReconcile.antt =====
-- Reconciliations of a workload, and its saves.
use persys_cloud.Prelude.{
  to_float64, ℕ, ◌≤◌, ◌≡◌, refl, true, List, [], ◌∷◌, none, ok, lookup, arith,
}
use persys_cloud.Text.{trim_space, equal_fold}
use persys_cloud.Scheduler.Models.{Workload, bool, int, float}
use persys_cloud.Scheduler.Mode.{is_writable}
use persys_cloud.Scheduler.Storage.{
  workload_managed_volume_specs, should_sync_managed_storage, metadata_string_value,
}
use persys_cloud.Scheduler.Projection.{stored_metadata, stored_value, json_number}
use persys_cloud.Scheduler.Store.Reads.{get_workload_by_id}
use persys_cloud.Scheduler.Store.Replay.{last_saved, save_all, save_all_refines}
use persys_cloud.Scheduler.Agent.{apply_timeout_for}
use persys_cloud.Scheduler.Reconcile.{
  missing_grace_period, max_reapply_backoff, base_reapply_backoff, effective_attempt,
  reapply_backoff, reapply_still_guarded, armed, should_halt_reapply, is_down, is_metadata_true,
  runtime_failure_reason,
}
use persys_cloud.Scheduler.Retry.{first_text, metadata_string}
use persys_cloud.Scheduler.Reconcile.Backoff.{reapply_backoff_bounds}
use persys_cloud.Scheduler.Reconcile.Guard.{reapply_still_guarded-armed}
use persys_cloud.Scheduler.Reconcile.Apply.{halted, perform_reconciliation}
use persys_cloud.Scheduler.Reconcile.Halt.{perform_reconciliation-halted}
use persys_cloud.Tests.World.{formats, naturals, services, platform, config, agents, scheduler}
use persys_cloud.Tests.SchedulerNodes.{three_nodes}
use persys_cloud.Tests.SchedulerWorkloads.{web, steady, reliable, empty_world}

reapply_backoff_bounds_example :
    (missing_grace_period ≤ reapply_backoff (base_reapply_backoff web) 4)
    × (reapply_backoff (base_reapply_backoff web) 4 ≤ max_reapply_backoff)
unfolding platform base_reapply_backoff effective_attempt apply_timeout_for config equal_fold
reapply_backoff_bounds_example =
    reapply_backoff_bounds (λ x k h l. refl) web 4 (omega arith) (omega arith)

reapply_still_guarded-armed_example :
    reapply_still_guarded
      (record web { metadata = armed "t" (trim_space web.revision_id) 3 "t" web.metadata })
      (scheduler three_nodes)
    ≡ (ok none, record (scheduler three_nodes) { world = record three_nodes { clock = 101 } })
unfolding services formats trim_space
reapply_still_guarded-armed_example =
    reapply_still_guarded-armed web (scheduler three_nodes) "t" 3 "t" 5 refl refl (omega arith)
      (omega arith)

-- The agent said that the failure is final.
abbrev terminal : Workload ℕ
terminal = record web { metadata = ("retry_terminal", bool true) ∷ [] }

perform_reconciliation-halted_example :
    perform_reconciliation
      (halted 7 "agent marked workload as terminal/non-retryable" terminal)
      "Failed"
      (scheduler three_nodes)
    ≡ (ok (record { action = "NoAction"; failure = none }), scheduler three_nodes)
unfolding should_halt_reapply is_down is_metadata_true runtime_failure_reason first_text
    metadata_string equal_fold trim_space lookup
perform_reconciliation-halted_example =
    perform_reconciliation-halted terminal "Failed"
      "agent marked workload as terminal/non-retryable" 7 (scheduler three_nodes) refl

-- Another workload is saved in between.
abbrev saved_again : Workload ℕ
saved_again = record web { image = "nginx:2"; metadata = ("reapplyAttempts", int 3) ∷ [] }

abbrev saves : List (Workload ℕ)
saves = web ∷ record web { id = "other" } ∷ saved_again ∷ record web { id = "third" } ∷ []

save_all_refines_example :
    ((save_all ⦃V = steady⦄ saves (scheduler empty_world)).0 ≡ ok tt)
    × ((get_workload_by_id ⦃V = steady⦄ "web"
          (save_all ⦃V = steady⦄ saves (scheduler empty_world)).1).0
        ≡ ok (record saved_again {
          created_at = 0;
          managed_volumes = [];
          usage = none;
          metadata = ("reapplyAttempts", float 3) ∷ [];
        }))
unfolding is_writable last_saved workload_managed_volume_specs should_sync_managed_storage
    metadata_string_value lookup equal_fold trim_space stored_metadata stored_value json_number
    to_float64
save_all_refines_example =
    save_all_refines ⦃V = steady⦄ reliable saves "web" saved_again (scheduler empty_world) refl
      (
        record { named = refl; unmanaged = refl; unsynced = refl },
        (
          record { named = refl; unmanaged = refl; unsynced = refl },
          (
            record { named = refl; unmanaged = refl; unsynced = refl },
            (record { named = refl; unmanaged = refl; unsynced = refl }, tt),
          ),
        ),
      )
      refl refl

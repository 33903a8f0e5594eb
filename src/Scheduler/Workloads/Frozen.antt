-- ===== src/Scheduler/Workloads/Frozen.antt =====
-- workload_control.go and scheduler.go: the commands while the control plane is frozen.
use persys_cloud.Prelude.{String, ◌≡◌, refl, false, err, Assoc}
use persys_cloud.Scheduler.Models.{Workload}
use persys_cloud.Scheduler.Services.{Formats, Services, Scheduler, Act, ◌>>=◌}
use persys_cloud.Scheduler.Mode.{is_writable, require_writable, control_plane_frozen}
use persys_cloud.Scheduler.Workloads.{
  create_workload, mark_workload_deleted, trigger_workload_retry, update_workload_retry_on_failure,
  update_workload_status, update_workload_logs, update_workload_metadata,
}
use persys_cloud.Scheduler.Workloads.Spec.{update_workload_spec}

module _ {W F : Type 0} ⦃T : Formats⦄ ⦃V : Services W F⦄ where
  -- The method is refused, and nothing in the scheduler or the world behind it changes.
  abbrev pub Refused : {A : Type 0} → Act W F A → Scheduler W F → Type 0
  Refused m s = m s ≡ (err control_plane_frozen, s)

  -- Every command on workloads is refused.
  abbrev pub AllRefused : Scheduler W F → Type 0
  AllRefused s =
      ((w : Workload F) → Refused (create_workload w) s)
      × ((id : String) (u : Workload F) → Refused (update_workload_spec id u) s)
      × ((id : String) → Refused (mark_workload_deleted id) s)
      × ((id : String) → Refused (trigger_workload_retry id) s)
      × ((id reason : String) → Refused (update_workload_retry_on_failure id reason) s)
      × ((id status : String) → Refused (update_workload_status id status) s)
      × ((id logs : String) → Refused (update_workload_logs id logs) s)
      × ((id : String) (m : Assoc String) → Refused (update_workload_metadata id m) s)

  -- While the control plane is frozen, every command on workloads (create, update, delete mark, retry,
  -- failure, status, logs and metadata) returns the frozen error: no key is written, the caches and the
  -- mode stay, and no service is called.
  pub commands-AllRefused : (s : Scheduler W F) → is_writable s ≡ false → AllRefused s
  unfolding ◌>>=◌ require_writable create_workload update_workload_spec mark_workload_deleted
      trigger_workload_retry update_workload_retry_on_failure update_workload_status
      update_workload_logs update_workload_metadata
  commands-AllRefused s h = (
    λ w. rw h refl,
    λ id u. rw h refl,
    λ id. rw h refl,
    λ id. rw h refl,
    λ id r. rw h refl,
    λ id t. rw h refl,
    λ id t. rw h refl,
    λ id m. rw h refl,
  )

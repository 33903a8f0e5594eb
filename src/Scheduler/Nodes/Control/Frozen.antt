-- ===== src/Scheduler/Nodes/Control/Frozen.antt =====
-- node_control.go: the commands on nodes, and their selection, while the control plane is frozen.
use persys_cloud.Prelude.{ℕ, String, ◌≡◌, refl, false, Option, ok, err}
use persys_cloud.Scheduler.Models.{Node, Workload}
use persys_cloud.Scheduler.Services.{Formats, Floats, Services, Scheduler, ◌>>=◌}
use persys_cloud.Scheduler.Mode.{is_writable, require_writable, control_plane_frozen}
use persys_cloud.Scheduler.Workloads.Frozen.{Refused}
use persys_cloud.Scheduler.Nodes.Select.{
  select_node_for_workload, assign_in_place, assign_workload, ensure_workload_assigned,
}
use persys_cloud.Scheduler.Nodes.Control.{
  mark_node_not_ready, mark_node_workload_type_unsupported, update_node_heartbeat,
}

module _ {W F : Type 0} ⦃T : Formats⦄ ⦃N : Floats F⦄ ⦃V : Services W F⦄ where
  -- Every command on nodes is refused, and so is placing a workload on one.
  abbrev pub NodesRefused : Scheduler W F → Type 0
  NodesRefused s =
      ((id reason source : String) → Refused (mark_node_not_ready id reason source) s)
      × ((id kind reason : String) → Refused (mark_node_workload_type_unsupported id kind reason) s)
      × ((id status : String) (cpu : F) (memory : Option ℕ)
          → Refused (update_node_heartbeat id status cpu memory) s)
      × ((w : Workload F) → Refused (select_node_for_workload w) s)
      × ((w : Workload F) (n : Node F) (cause : String) → Refused (assign_workload w n cause) s)
      × ((w : Workload F)
          → ((ensure_workload_assigned w s) ≡ (ok (w, err control_plane_frozen), s)))

  -- While the control plane is frozen, NotReady marks, unsupported types and heartbeats are refused, no
  -- node is selected and no workload assigned: each returns the frozen error and changes nothing, the workload
  -- with its caller included.
  pub placement-NodesRefused : (s : Scheduler W F) → is_writable s ≡ false → NodesRefused s
  unfolding ◌>>=◌ require_writable assign_in_place mark_node_not_ready
      mark_node_workload_type_unsupported update_node_heartbeat select_node_for_workload
      assign_workload ensure_workload_assigned
  placement-NodesRefused s h = (
    λ i r o. rw h refl,
    λ i k r. rw h refl,
    λ i t c m. rw h refl,
    λ w. rw h refl,
    λ w n c. rw h refl,
    λ w. rw h refl,
  )

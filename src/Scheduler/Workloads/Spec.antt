-- ===== src/Scheduler/Workloads/Spec.antt =====
-- persys-scheduler/internal/scheduler/workload_control.go: UpdateWorkloadSpec.
pub mod Repeat
use persys_cloud.Prelude.{
  ℕ, String, Bool, true, false, not, ◌&&◌, ◌||◌, List, [], ◌∷◌, Option, none, some, if◌then◌else◌,
  is_empty, Assoc, lookup, put, length, all, nat_eq, ◌==◌,
}
use persys_cloud.Text.{trim_space}
use persys_cloud.Scheduler.Models.{Workload, str, VmSpec, VmDisk, ManagedVolumeSpec}
use persys_cloud.Scheduler.Services.{Formats, Services, Act, pure, call, ◌>>=◌, ◌>>◌}
use persys_cloud.Scheduler.Mode.{require_writable}
use persys_cloud.Scheduler.Store.{
  normalize_desired_state, ensure_workload_revision, marked_storage, save_workload, emit_event,
}
use persys_cloud.Scheduler.Store.Reads.{get_workload_by_id}
use persys_cloud.Scheduler.Retry.{clear_reapply_metadata}

-- `reflect.DeepEqual` at the types of the fields.
unfoldable pub texts_eq : List String → List String → Bool
texts_eq [] [] = true
texts_eq (s ∷ ss) (t ∷ ts) = let rest = texts_eq ss ts in s == t && rest
texts_eq _ _ = false

abbrev pub text_is : String → Option String → Bool
text_is s none = false
text_is s (some t) = s == t

-- Maps: as many keys, and each with the same text.
unfoldable pub maps_eq : Assoc String → Assoc String → Bool
maps_eq a b = nat_eq (length a) (length b) && all (λ e. text_is e.1 (lookup e.0 b)) a

unfoldable pub bool_eq : Bool → Bool → Bool
bool_eq true b = b
bool_eq false b = not b

unfoldable pub volume_eq : ManagedVolumeSpec → ManagedVolumeSpec → Bool
unfolding bool_eq
volume_eq a b =
    a.name == b.name
    && a.driver == b.driver
    && nat_eq a.size_gb b.size_gb
    && a.access_mode == b.access_mode
    && a.fs_type == b.fs_type
    && a.mount_path == b.mount_path
    && bool_eq a.read_only b.read_only
    && a.retain_policy == b.retain_policy

unfoldable pub volumes_eq : List ManagedVolumeSpec → List ManagedVolumeSpec → Bool
unfolding volume_eq
volumes_eq [] [] = true
volumes_eq (a ∷ xs) (b ∷ ys) = let rest = volumes_eq xs ys in volume_eq a b && rest
volumes_eq _ _ = false

unfoldable pub disk_eq : VmDisk → VmDisk → Bool
disk_eq a b =
    a.path == b.path
    && a.device == b.device
    && a.format == b.format
    && nat_eq a.size_gb b.size_gb
    && a.kind == b.kind
    && bool_eq a.boot b.boot

unfoldable pub disks_eq : List VmDisk → List VmDisk → Bool
unfolding disk_eq
disks_eq [] [] = true
disks_eq (a ∷ xs) (b ∷ ys) = let rest = disks_eq xs ys in disk_eq a b && rest
disks_eq _ _ = false

-- reflect.DeepEqual of two VMs. It also tells a nil slice from an empty one. The slices of a VM are nil
-- where they are empty: internal/grpcapi/service.go appends to nil, and JSON leaves an empty one out.
unfoldable pub vm_eq : Option VmSpec → Option VmSpec → Bool
unfolding disks_eq volumes_eq
vm_eq none none = true
vm_eq (some a) (some b) =
    a.settings == b.settings
    && disks_eq a.disks b.disks
    && volumes_eq a.managed_volumes b.managed_volumes
vm_eq _ _ = false

abbrev pub given : String → Bool
given s = not (trim_space s == "")

abbrev pub nonempty : String → Bool
nonempty s = not (s == "")

abbrev pub has_some {ℓ} : {A : Type ℓ} → Option A → Bool
has_some none = false
has_some (some a) = true

module _ {F : Type 0} where
  -- A field of the specification is given and differs.
  unfoldable pub spec_changed : Workload F → Workload F → Bool
  spec_changed w u =
      given u.name && not (w.name == u.name)
      || given u.kind && not (w.kind == u.kind)
      || given u.image && not (w.image == u.image)
      || nonempty u.command && not (w.command == u.command)
      || not (is_empty u.command_list) && not (texts_eq w.command_list u.command_list)
      || nonempty u.compose && not (w.compose == u.compose)
      || nonempty u.compose_yaml && not (w.compose_yaml == u.compose_yaml)
      || nonempty u.project_name && not (w.project_name == u.project_name)
      || not (is_empty u.env_vars) && not (maps_eq w.env_vars u.env_vars)
      || not (is_empty u.labels) && not (maps_eq w.labels u.labels)
      || not (is_empty u.ports) && not (texts_eq w.ports u.ports)
      || not (is_empty u.volumes) && not (texts_eq w.volumes u.volumes)
      || nonempty u.restart_policy && not (w.restart_policy == u.restart_policy)
      || has_some u.vm && not (vm_eq w.vm u.vm)

  unfoldable pub desired_changed : Workload F → Workload F → Bool
  desired_changed w u =
      given u.desired_state && not (w.desired_state == normalize_desired_state u.desired_state)

  -- The given fields taken over.
  unfoldable pub with_update : Workload F → Workload F → Workload F
  with_update w u = record w {
    name = if given u.name then u.name else w.name;
    kind = if given u.kind then u.kind else w.kind;
    desired_state =
        if given u.desired_state then normalize_desired_state u.desired_state else w.desired_state;
    image = if given u.image then u.image else w.image;
    command = if nonempty u.command then u.command else w.command;
    command_list = if is_empty u.command_list then w.command_list else u.command_list;
    compose = if nonempty u.compose then u.compose else w.compose;
    compose_yaml = if nonempty u.compose_yaml then u.compose_yaml else w.compose_yaml;
    project_name = if nonempty u.project_name then u.project_name else w.project_name;
    env_vars = if is_empty u.env_vars then w.env_vars else u.env_vars;
    labels = if is_empty u.labels then w.labels else u.labels;
    ports = if is_empty u.ports then w.ports else u.ports;
    volumes = if is_empty u.volumes then w.volumes else u.volumes;
    restart_policy = if nonempty u.restart_policy then u.restart_policy else w.restart_policy;
    vm = if has_some u.vm then u.vm else w.vm;
  }

  -- The record after an update: a changed specification gets a new revision.
  unfoldable pub updated_workload : (Workload F → String) → ℕ → Workload F → Workload F → Workload F
  updated_workload digest now w u =
      let next = with_update w u in
      let timed = record next { status_info = record next.status_info { last_updated = now } } in
      if spec_changed w u
      then (let revised = ensure_workload_revision digest (record timed { revision_id = "" }) in
          record revised {
            status = "Updating";
            status_info = record revised.status_info { actual_state = "Pending" };
            metadata = put "last_action" (str "Updated") revised.metadata;
          })
      else if desired_changed w u
      then (let cleared = clear_reapply_metadata timed in
          record cleared {
            metadata = put "last_action" (str "DesiredStateUpdated") cleared.metadata;
          })
      else record timed { metadata = put "last_action" (str "NoopUpdate") timed.metadata }

module _ {W F : Type 0} ⦃T : Formats⦄ ⦃V : Services W F⦄ where
  report_update : Workload F → Workload F → Workload F → Act W F (Unit {0})
  report_update w u next =
      if spec_changed w u
      then emit_event "WorkloadScheduled" next.id next.node_id "Workload updated"
      else if desired_changed w u
      then emit_event "WorkloadScheduled" next.id next.node_id "Desired state updated"
      else pure tt

  unfoldable pub update_workload_spec : String → Workload F → Act W F (Workload F)
  unfolding report_update
  update_workload_spec id u = do
    require_writable
    w ← get_workload_by_id id
    now ← call V.now
    let next = updated_workload V.digest now w u
    save_workload next
    report_update w u next
    pure (marked_storage next)

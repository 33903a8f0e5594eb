-- ===== src/Scheduler/Storage/Sync.antt =====
-- persys-scheduler/internal/scheduler/state_store.go: the volumes and attachments that follow a
-- workload's state. The map of required volumes is ranged over in the order of its list.
use persys_cloud.Prelude.{
  ℕ, String, Bool, false, not, ◌&&◌, ◌||◌, List, [], ◌∷◌, Option, none, some, Result, ok, err,
  if◌then◌else◌, is_empty, is_some, Assoc, lookup, put, delete, ◌==◌,
}
use persys_cloud.Text.{trim_space, equal_fold}
use persys_cloud.Scheduler.Models.{
  Workload, ManagedVolumeSpec, ManagedVolumeRecord, VolumeAttachmentRecord,
}
use persys_cloud.Scheduler.Services.{Formats, Services, Act, pure, call, try, ignore, ◌>>=◌, ◌>>◌}
use persys_cloud.Scheduler.Storage.{
  volume_attachment_key, canonical_storage_driver, managed_volume_id, normalize_retain_policy,
  contains_string, append_unique_string, remove_string, attachment_phase, volume_phase,
  workload_managed_volume_specs, volume_last_error,
}
use persys_cloud.Scheduler.Storage.Records.{
  get_managed_volume_record, save_managed_volume_record, delete_managed_volume_record,
  list_managed_volume_records, save_volume_attachment_record, delete_volume_attachment_record,
  list_volume_attachments_by_workload,
}

unfoldable pub required_volumes :
    List ManagedVolumeSpec → Assoc ManagedVolumeSpec → Assoc ManagedVolumeSpec
required_volumes [] m = m
required_volumes (v ∷ vs) m =
    required_volumes vs (if trim_space v.name == "" then m else put (managed_volume_id v) v m)

-- The references to a workload and a node taken off a volume.
unfoldable pub without_refs : ManagedVolumeRecord → String → String → ManagedVolumeRecord
without_refs r workload node = record r {
  workload_refs = remove_string r.workload_refs workload;
  attached_nodes = remove_string r.attached_nodes node;
}

-- No workload refers to the volume and its policy is Delete.
unfoldable pub disposable : ManagedVolumeRecord → Bool
disposable r = is_empty r.workload_refs && normalize_retain_policy r.retain_policy == "Delete"

unfoldable pub released_phase : Bool → ManagedVolumeRecord → ManagedVolumeRecord
released_phase deleting r =
    if normalize_retain_policy r.retain_policy == "Retain" && deleting
    then record r { phase = "Retained" }
    else record r { phase = "Released" }

-- A volume's fields as the specification has them.
unfoldable pub refreshed_record :
    String → ManagedVolumeSpec → ℕ → Option ManagedVolumeRecord → ManagedVolumeRecord
refreshed_record volume v now none = record {
  id = volume;
  name = trim_space v.name;
  driver = canonical_storage_driver v.driver;
  size_gb = v.size_gb;
  access_mode = trim_space v.access_mode;
  fs_type = trim_space v.fs_type;
  retain_policy = normalize_retain_policy v.retain_policy;
  phase = "Provisioning";
  last_error = "";
  workload_refs = [];
  attached_nodes = [];
  created_at = now;
  updated_at = 0;
}
refreshed_record volume v now (some r) = record r {
  name = trim_space v.name;
  driver = canonical_storage_driver v.driver;
  size_gb = v.size_gb;
  access_mode = trim_space v.access_mode;
  fs_type = trim_space v.fs_type;
  retain_policy = normalize_retain_policy v.retain_policy;
  last_error = "";
}

module _ {W F : Type 0} ⦃T : Formats⦄ ⦃V : Services W F⦄ where
  release_volume : Bool → String → String → Result (Option ManagedVolumeRecord) → Act W F (Unit {0})
  release_volume deleting workload node (err e) = pure tt
  release_volume deleting workload node (ok none) = pure tt
  release_volume deleting workload node (ok (some found)) =
      let r = without_refs found workload node in
      if disposable r
      then ignore (delete_managed_volume_record r.id)
      else ignore (save_managed_volume_record (released_phase deleting r))

  -- Attachments that no longer hold are removed, and their volumes are taken off the required ones.
  detach_stale :
      Bool
      → String
      → String
      → List VolumeAttachmentRecord
      → Assoc ManagedVolumeSpec
      → Act W F (Assoc ManagedVolumeSpec)
  unfolding release_volume
  detach_stale deleting workload assigned [] required = pure required
  detach_stale deleting workload assigned (a ∷ rest) required =
      let stays = detach_stale deleting workload assigned rest required in
      let leaves = detach_stale deleting workload assigned rest (delete a.volume_id required) in
      if deleting
        || not (is_some (lookup a.volume_id required))
        || not (a.node_id == assigned)
        || assigned == ""
      then ignore (delete_volume_attachment_record a.id)
        >> (try (get_managed_volume_record a.volume_id)
            >>= release_volume deleting workload a.node_id)
        >> leaves
      else stays

  drop_required : String → String → ManagedVolumeRecord → Act W F (Unit {0})
  drop_required workload assigned found =
      let r = without_refs found workload assigned in
      if is_empty r.workload_refs && r.retain_policy == "Delete"
      then save_managed_volume_record (record r { phase = "Deleting" })
        >> delete_managed_volume_record r.id
      else save_managed_volume_record (record r { phase = "Retained" })

  attach_volume : Workload F → String → String → String → ManagedVolumeSpec → Act W F (Unit {0})
  attach_volume w workload assigned volume v = do
    now ← call V.now
    let phase_now = attachment_phase w.status false
    save_volume_attachment_record (record {
      id = volume_attachment_key assigned workload volume;
      volume_id = volume;
      workload_id = workload;
      node_id = assigned;
      driver = canonical_storage_driver v.driver;
      mount_path = trim_space v.mount_path;
      read_only = v.read_only;
      phase = phase_now;
      last_error = if equal_fold phase_now "Error" then volume_last_error w else "";
      last_transition = now;
      created_at = 0;
      updated_at = 0;
    })

  claim_volume :
      Workload F
      → String
      → String
      → String
      → ManagedVolumeSpec
      → ManagedVolumeRecord
      → Act W F (Unit {0})
  unfolding attach_volume
  claim_volume w workload assigned volume v found =
      let phase_now = volume_phase w assigned false in
      let nodes =
        if assigned == ""
        then found.attached_nodes
        else append_unique_string found.attached_nodes assigned in
      save_managed_volume_record (record found {
        workload_refs = append_unique_string found.workload_refs workload;
        attached_nodes = nodes;
        phase = phase_now;
        last_error = if equal_fold phase_now "Error" then volume_last_error w else found.last_error;
      })
      >> (if assigned == "" then pure tt else attach_volume w workload assigned volume v)

  -- The clock is read for a new volume.
  fresh_time : Option ManagedVolumeRecord → Act W F ℕ
  fresh_time none = call V.now
  fresh_time (some r) = pure 0

  sync_volume :
      Workload F → Bool → String → String → String → ManagedVolumeSpec → Act W F (Unit {0})
  unfolding fresh_time drop_required claim_volume
  sync_volume w deleting workload assigned volume v = do
    found ← get_managed_volume_record volume
    now ← fresh_time found
    let r = refreshed_record volume v now found
    if deleting
        then drop_required workload assigned r
        else claim_volume w workload assigned volume v r

  sync_required : Workload F → Bool → String → String → Assoc ManagedVolumeSpec → Act W F (Unit {0})
  unfolding sync_volume
  sync_required w deleting workload assigned [] = pure tt
  sync_required w deleting workload assigned ((volume, v) ∷ rest) =
      sync_volume w deleting workload assigned volume v
      >> sync_required w deleting workload assigned rest

  -- Other volumes that still name the workload lose the reference.
  release_unreferenced :
      Bool
      → String
      → String
      → Assoc ManagedVolumeSpec
      → List ManagedVolumeRecord
      → Act W F (Unit {0})
  release_unreferenced deleting workload assigned required [] = pure tt
  release_unreferenced deleting workload assigned required (found ∷ rest) =
      let next = release_unreferenced deleting workload assigned required rest in
      let r = without_refs found workload assigned in
      if not (contains_string found.workload_refs workload)
      then next
      else if is_some (lookup found.id required) && not deleting
      then next
      else if disposable r
      then delete_managed_volume_record r.id >> next
      else save_managed_volume_record (released_phase deleting r) >> next

  unfoldable pub sync_workload_managed_storage : Workload F → Act W F (Unit {0})
  unfolding detach_stale sync_required release_unreferenced
  sync_workload_managed_storage w =
      let workload = trim_space w.id in
      let deleting = equal_fold (trim_space w.desired_state) "deleted" in
      let node = trim_space w.node_id in
      let assigned = if node == "" then trim_space w.assigned_node else node in
      if workload == "" then pure tt else do
        attachments ← list_volume_attachments_by_workload workload
        required ←
            detach_stale deleting workload assigned attachments
              (required_volumes (workload_managed_volume_specs w) [])
        sync_required w deleting workload assigned required
        volumes ← list_managed_volume_records
        release_unreferenced deleting workload assigned required volumes

-- ===== src/Scheduler/Storage/Cleanup.antt =====
-- persys-scheduler/internal/scheduler/state_store.go: cleanupManagedStorageForWorkload.
use persys_cloud.Prelude.{
  String, Bool, not, ◌&&◌, List, [], ◌∷◌, if◌then◌else◌, is_empty, any, ◌==◌,
}
use persys_cloud.Text.{trim_space}
use persys_cloud.Scheduler.Models.{ManagedVolumeRecord, VolumeAttachmentRecord}
use persys_cloud.Scheduler.Services.{Services, Act, pure, ignore, ◌>>=◌, ◌>>◌}
use persys_cloud.Scheduler.Storage.{normalize_retain_policy, contains_string, remove_string}
use persys_cloud.Scheduler.Storage.Records.{
  save_managed_volume_record, delete_managed_volume_record, list_managed_volume_records,
  delete_volume_attachment_record, list_volume_attachments_by_workload,
}

-- An attachment names the volume.
unfoldable pub attached_volume : List VolumeAttachmentRecord → String → Bool
attached_volume attachments volume =
    any (λ a. not (trim_space a.volume_id == "") && a.volume_id == volume) attachments

unfoldable pub without_nodes :
    List VolumeAttachmentRecord → ManagedVolumeRecord → ManagedVolumeRecord
without_nodes [] r = r
without_nodes (a ∷ attachments) r = without_nodes attachments (
    if a.volume_id == r.id
    then record r { attached_nodes = remove_string r.attached_nodes a.node_id }
    else r)

unfoldable pub freed_phase : ManagedVolumeRecord → ManagedVolumeRecord
freed_phase r =
    if is_empty r.workload_refs
    then (if normalize_retain_policy r.retain_policy == "Retain"
        then record r { phase = "Retained" }
        else record r { phase = "Released" })
    else r

module _ {W F : Type 0} ⦃V : Services W F⦄ where
  unfoldable pub delete_attachments : List VolumeAttachmentRecord → Act W F (Unit {0})
  delete_attachments [] = pure tt
  delete_attachments (a ∷ rest) =
      ignore (delete_volume_attachment_record a.id) >> delete_attachments rest

  -- The first write that fails ends the loop.
  unfoldable pub free_volumes :
      String → List VolumeAttachmentRecord → List ManagedVolumeRecord → Act W F (Unit {0})
  free_volumes workload attachments [] = pure tt
  free_volumes workload attachments (found ∷ rest) =
      let next = free_volumes workload attachments rest in
      let freed =
        without_nodes attachments
          (record found { workload_refs = remove_string found.workload_refs workload }) in
      if not (contains_string found.workload_refs workload)
        && not (attached_volume attachments found.id)
      then next
      else if is_empty freed.workload_refs
          && normalize_retain_policy freed.retain_policy == "Delete"
      then delete_managed_volume_record freed.id >> next
      else save_managed_volume_record (freed_phase freed) >> next

  unfoldable pub cleanup_managed_storage_for_workload : String → Act W F (Unit {0})
  unfolding delete_attachments free_volumes
  cleanup_managed_storage_for_workload id =
      let workload = trim_space id in
      if workload == "" then pure tt else do
        attachments ← list_volume_attachments_by_workload workload
        delete_attachments attachments
        volumes ← list_managed_volume_records
        free_volumes workload attachments volumes

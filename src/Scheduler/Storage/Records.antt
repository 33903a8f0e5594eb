-- ===== src/Scheduler/Storage/Records.antt =====
-- persys-scheduler/internal/scheduler/state_store.go: volumes and attachments in the state store.
use persys_cloud.Prelude.{
  String, not, ◌&&◌, List, [], ◌∷◌, Option, none, some, if◌then◌else◌, nat_eq, ◌==◌,
}
use persys_cloud.Text.{concat, trim_space}
use persys_cloud.Scheduler.Models.{
  Value, volume_value, attachment_value, ManagedVolumeRecord, VolumeAttachmentRecord,
}
use persys_cloud.Scheduler.Services.{Services, Act, pure, fail, call, ◌>>=◌}
use persys_cloud.Scheduler.Etcd.{
  retryable_etcd_put, retryable_etcd_delete, retryable_etcd_get, retryable_etcd_list,
}
use persys_cloud.Scheduler.Storage.{volume_attachment_key}

abbrev pub unmarshal_error : String
unmarshal_error = "json: cannot unmarshal value"

module _ {F : Type 0} where
  unfoldable pub volumes_of : List (String × Value F) → List ManagedVolumeRecord
  volumes_of [] = []
  volumes_of ((k, volume_value r) ∷ kvs) = r ∷ volumes_of kvs
  volumes_of ((k, _) ∷ kvs) = volumes_of kvs

  -- An attachment without an id gets its key for one.
  unfoldable pub attachments_of : String → List (String × Value F) → List VolumeAttachmentRecord
  attachments_of workload [] = []
  attachments_of workload ((k, attachment_value r) ∷ kvs) =
      let rest = attachments_of workload kvs in
      if not (workload == "") && not (r.workload_id == workload)
      then rest
      else (if trim_space r.id == "" then record r { id = k } else r) ∷ rest
  attachments_of workload ((k, _) ∷ kvs) = attachments_of workload kvs

module _ {W F : Type 0} ⦃V : Services W F⦄ where
  as_volume : Option (Value F) → Act W F (Option ManagedVolumeRecord)
  as_volume none = pure none
  as_volume (some (volume_value r)) = pure (some r)
  as_volume (some _) = fail unmarshal_error

  unfoldable pub get_managed_volume_record : String → Act W F (Option ManagedVolumeRecord)
  unfolding as_volume
  get_managed_volume_record id = retryable_etcd_get (concat ("/volumes/" ∷ id ∷ [])) >>= as_volume

  unfoldable pub save_managed_volume_record : ManagedVolumeRecord → Act W F (Unit {0})
  save_managed_volume_record r =
      if trim_space r.id == "" then fail "managed volume id is required" else do
        now ← call V.now
        let created = if nat_eq r.created_at 0 then now else r.created_at
        let saved = record r { created_at = created; updated_at = now }
        retryable_etcd_put (concat ("/volumes/" ∷ r.id ∷ [])) (volume_value saved)

  unfoldable pub delete_managed_volume_record : String → Act W F (Unit {0})
  delete_managed_volume_record id = retryable_etcd_delete (concat ("/volumes/" ∷ id ∷ []))

  unfoldable pub list_managed_volume_records : Act W F (List ManagedVolumeRecord)
  list_managed_volume_records = do kvs ← retryable_etcd_list "/volumes/"; pure (volumes_of kvs)

  unfoldable pub save_volume_attachment_record : VolumeAttachmentRecord → Act W F (Unit {0})
  save_volume_attachment_record r = do
    now ← call V.now
    let key =
        if trim_space r.id == ""
        then volume_attachment_key r.node_id r.workload_id r.volume_id
        else r.id
    let created = if nat_eq r.created_at 0 then now else r.created_at
    let transition = if nat_eq r.last_transition 0 then now else r.last_transition
    let saved = record r {
      id = key;
      created_at = created;
      updated_at = now;
      last_transition = transition;
    }
    retryable_etcd_put key (attachment_value saved)

  unfoldable pub delete_volume_attachment_record : String → Act W F (Unit {0})
  delete_volume_attachment_record key = retryable_etcd_delete key

  unfoldable pub list_volume_attachments_by_workload :
      String → Act W F (List VolumeAttachmentRecord)
  list_volume_attachments_by_workload workload = do
    kvs ← retryable_etcd_list "/attachments/"
    pure (attachments_of (trim_space workload) kvs)

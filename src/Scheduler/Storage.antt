-- ===== src/Scheduler/Storage.antt =====
-- persys-scheduler/internal/scheduler/state_store.go: names, drivers and phases of managed volumes.
pub mod Records
pub mod Sync
pub mod Cleanup
use persys_cloud.Prelude.{
  String, Bool, true, false, not, ◌||◌, List, [], ◌∷◌, ◌++◌, Option, none, some, if◌then◌else◌,
  filter, any, is_empty, lookup, Assoc, ◌==◌,
}
use persys_cloud.Text.{concat, trim_space, to_lower, equal_fold, replace_char}
use persys_cloud.Scheduler.Models.{
  Workload, MetaValue, str, int, float, bool, ManagedVolumeSpec, VmSpec,
}
use persys_cloud.Scheduler.Services.{Formats}

unfoldable pub sanitize_key_segment : String → String
sanitize_key_segment s =
    let trimmed = trim_space s in if trimmed == "" then "_" else replace_char 47 "_" trimmed

unfoldable pub volume_attachment_key : String → String → String → String
unfolding sanitize_key_segment
volume_attachment_key node workload volume = concat (
    "/attachments/"
    ∷ sanitize_key_segment node
    ∷ "/"
    ∷ sanitize_key_segment workload
    ∷ "/"
    ∷ sanitize_key_segment volume
    ∷ [])

unfoldable pub canonical_storage_driver : String → String
canonical_storage_driver s =
    let driver = to_lower (trim_space s) in
    if driver == "ceph_rbd" then "ceph-rbd" else if driver == "" then "local" else driver

unfoldable pub managed_volume_id : ManagedVolumeSpec → String
unfolding canonical_storage_driver
managed_volume_id v = concat (canonical_storage_driver v.driver ∷ ":" ∷ trim_space v.name ∷ [])

unfoldable pub normalize_retain_policy : String → String
normalize_retain_policy s = if to_lower (trim_space s) == "retain" then "Retain" else "Delete"

unfoldable pub contains_string : List String → String → Bool
contains_string values target = any (λ v. v == target) values

unfoldable pub append_unique_string : List String → String → List String
unfolding contains_string
append_unique_string values target =
    let trimmed = trim_space target in
    if trimmed == "" || contains_string values trimmed then values else values ++ trimmed ∷ []

unfoldable pub remove_string : List String → String → List String
remove_string values target =
    let trimmed = trim_space target in
    if trimmed == "" || is_empty values then values else filter (λ v. not (v == trimmed)) values

unfoldable pub attachment_phase : String → Bool → String
attachment_phase status true = "Detaching"
attachment_phase status false =
    let lower = to_lower (trim_space status) in
    if lower == "running"
    then "Attached"
    else if lower == "failed"
    then "Error"
    else if lower == "deleting"
    then "Detaching"
    else "Attaching"

vm_volumes : Option VmSpec → List ManagedVolumeSpec
vm_volumes none = []
vm_volumes (some vm) = vm.managed_volumes

module _ {F : Type 0} where
  unfoldable pub volume_phase : Workload F → String → Bool → String
  volume_phase w assigned true = "Released"
  volume_phase w assigned false =
      let lower = to_lower (trim_space w.status) in
      if trim_space assigned == ""
      then "Provisioned"
      else if lower == "running"
      then "Attached"
      else if lower == "failed"
      then "Error"
      else "Provisioned"

  unfoldable pub workload_managed_volume_specs : Workload F → List ManagedVolumeSpec
  unfolding vm_volumes
  workload_managed_volume_specs w = w.managed_volumes ++ vm_volumes w.vm

module _ ⦃T : Formats⦄ where
  -- `fmt.Sprintf("%v", …)` of a value of the metadata
  unfoldable pub meta_text : MetaValue → String
  meta_text (str s) = s
  meta_text (int n) = T.itoa n
  meta_text (float n) = T.float_text n
  meta_text (bool true) = "true"
  meta_text (bool false) = "false"

  or_blank : Option MetaValue → String
  unfolding meta_text
  or_blank none = ""
  or_blank (some v) = trim_space (meta_text v)

  unfoldable pub metadata_string_value : Assoc MetaValue → String → String
  unfolding or_blank
  metadata_string_value m key = or_blank (lookup key m)

module _ {F : Type 0} ⦃T : Formats⦄ where
  unfoldable pub should_sync_managed_storage : Workload F → Bool
  unfolding metadata_string_value
  should_sync_managed_storage w =
      not (is_empty (workload_managed_volume_specs w))
      || equal_fold (metadata_string_value w.metadata "managed_storage_state") "true"

  unfoldable pub volume_last_error : Workload F → String
  unfolding metadata_string_value
  volume_last_error w =
      let failure = trim_space w.status_info.failure_reason in
      if failure == "" then metadata_string_value w.metadata "reason_message" else failure

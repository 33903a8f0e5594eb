-- ===== src/Scheduler/Nodes.antt =====
-- persys-scheduler/internal/scheduler/scheduler.go: what a node offers and a workload asks for.
pub mod Select
pub mod Control
pub mod Reads
pub mod Register
use persys_cloud.Prelude.{
  ℕ, String, Bool, true, false, not, ◌&&◌, ◌||◌, List, [], ◌∷◌, ◌++◌, Option, none, some,
  if◌then◌else◌, is_empty, any, all, Assoc, lookup, filter, map, ◌==◌,
}
use persys_cloud.Text.{trim_space, to_lower, equal_fold, has_prefix, has_suffix, trim_prefix}
use persys_cloud.Scheduler.Models.{Node, Workload, ManagedVolumeSpec}
use persys_cloud.Scheduler.Services.{Floats}
use persys_cloud.Scheduler.Storage.{contains_string, workload_managed_volume_specs}

abbrev pub text_is : String → Option String → Bool
text_is s none = false
text_is s (some t) = t == s

-- Every label asked for is among the node's labels.
unfoldable pub matches_labels : Assoc String → Assoc String → Bool
matches_labels [] labels = true
matches_labels ((k, v) ∷ wanted) labels =
    let rest = matches_labels wanted labels in text_is v (lookup k labels) && rest

unfoldable pub canonical_workload_type : String → String
canonical_workload_type t =
    let lower = to_lower (trim_space t) in
    if lower == "docker-container" || lower == "container"
    then "container"
    else if lower == "docker-compose" || lower == "compose"
    then "compose"
    else lower

abbrev ceph : String → String
ceph s = if s == "ceph_rbd" then "ceph-rbd" else s

-- The drivers of the volumes, each once, in the order of the volumes.
unfoldable pub add_drivers : List ManagedVolumeSpec → List String → List String
add_drivers [] out = out
add_drivers (v ∷ vs) out =
    let canon = ceph (to_lower (trim_space v.driver)) in
    add_drivers vs (if canon == "" || contains_string out canon then out else out ++ canon ∷ [])

-- A label `storage.<driver>` whose value is true.
unfoldable pub label_driver : String × String → List String
label_driver (k, v) =
    let key = to_lower (trim_space k) in
    let driver = ceph (trim_prefix key "storage.") in
    if has_prefix key "storage." && equal_fold (trim_space v) "true" && not (driver == "")
    then driver ∷ []
    else []

unfoldable pub label_drivers : Assoc String → List String
unfolding label_driver
label_drivers [] = []
label_drivers (e ∷ es) = label_driver e ++ label_drivers es

module _ {F : Type 0} where
  unfoldable pub node_supports_workload_type : Node F → String → Bool
  node_supports_workload_type n kind =
      let want = canonical_workload_type kind in
      if want == ""
      then true
      else if not (is_empty n.supported_workload_types)
      then any (λ t. canonical_workload_type t == want) n.supported_workload_types
      else if want == "vm"
      then not (trim_space n.hypervisor.kind == "")
        || equal_fold n.hypervisor.status "active"
        || equal_fold n.hypervisor.status "ready"
      else true

  unfoldable pub required_storage_drivers : Workload F → List String
  required_storage_drivers w = add_drivers (workload_managed_volume_specs w) []

  unfoldable pub supported_drivers : Node F → List String
  supported_drivers n =
      "local"
        ∷ filter (λ d. not (d == ""))
            (map (λ d. to_lower (trim_space d)) n.supported_storage_drivers)
      ++ label_drivers n.labels

  unfoldable pub node_supports_storage_drivers : Node F → List String → Bool
  node_supports_storage_drivers n required =
      all (λ d. contains_string (supported_drivers n) (to_lower (trim_space d))) required

module _ {F : Type 0} ⦃N : Floats F⦄ where
  abbrev pub positive : F → Bool
  positive x = N.lt (N.of_nat 0) x

  -- `x <= 0`
  abbrev pub at_most_zero : F → Bool
  at_most_zero x = N.lt x (N.of_nat 0) || N.eq x (N.of_nat 0)

  unfoldable pub node_utilization_score : Node F → F
  node_utilization_score n =
      let memory = N.of_nat n.total_memory in
      let cpu_ratio = N.div (N.sub n.total_cpu n.available_cpu) n.total_cpu in
      let memory_ratio = N.div (N.sub memory (N.of_nat n.available_memory)) memory in
      if at_most_zero n.total_cpu || at_most_zero memory
      then N.of_nat 1000000000
      else N.div (N.add cpu_ratio memory_ratio) (N.of_nat 2)

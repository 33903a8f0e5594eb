-- ===== src/Scheduler/Agent/Request.antt =====
-- persys-scheduler/internal/scheduler/agent_grpc.go: buildApplyWorkloadRequest. A metadata map is
-- ranged over in the order of its list.
use persys_cloud.Prelude.{
  ℕ, ◌*◌, ◌%◌, ◌^◌, String, ◌||◌, List, [], ◌∷◌, Option, none, some, Result, ok, err, if◌then◌else◌,
  is_empty, Assoc, map, ◌==◌,
}
use persys_cloud.Text.{concat, trim_space, to_lower}
use persys_cloud.Text.Split.{fields}
use persys_cloud.Scheduler.Models.{Workload, MetaValue, str, VmSpec, ManagedVolumeSpec}
use persys_cloud.Scheduler.Services.{Formats, Floats}
use persys_cloud.Scheduler.Store.{ensure_workload_revision}
use persys_cloud.Scheduler.Nodes.{positive}
use persys_cloud.Scheduler.Agent.Ports.{
  Platform, PortMapping, VolumeMount, parse_port_mapping, parse_volume_mount,
  normalize_project_name, normalize_vm_disk_for_agent,
}

pub data DesiredState : Type 0 where
  run stop : DesiredState

-- An int64 is its 64-bit word.
pub record ResourceLimits : Type 0 where
  pub cpu_shares : ℕ
  pub memory_bytes : ℕ

pub record ContainerSpec : Type 0 where
  pub image : String
  pub command : List String
  pub env : Assoc String
  pub labels : Assoc String
  pub ports : List PortMapping
  pub volumes : List VolumeMount
  pub managed_volumes : List ManagedVolumeSpec
  pub restart_policy : String
  pub resources : Option ResourceLimits

pub record ComposeSpec : Type 0 where
  pub project_name : String
  pub compose_yaml : String
  pub env : Assoc String

pub data AgentSpec : Type 0 where
  container_spec : ContainerSpec → AgentSpec
  compose_spec : ComposeSpec → AgentSpec
  vm_spec : VmSpec → AgentSpec

pub record ApplyRequest (F : Type 0) : Type 0 where
  pub id : String
  pub revision_id : String
  pub desired_state : DesiredState
  pub spec : AgentSpec

-- agent_grpc.go's normalizeDesiredState.
unfoldable pub agent_desired_state : String → DesiredState
agent_desired_state s =
    let lower = to_lower (trim_space s) in
    if lower == "stopped" || lower == "stop" then stop else run

-- toAgentManagedVolumes
unfoldable pub agent_managed_volumes : List ManagedVolumeSpec → List ManagedVolumeSpec
agent_managed_volumes vs =
    map {A = ManagedVolumeSpec} {B = ManagedVolumeSpec}
      (λ v. record v {
        name = trim_space v.name;
        driver = trim_space v.driver;
        access_mode = trim_space v.access_mode;
        fs_type = trim_space v.fs_type;
        mount_path = trim_space v.mount_path;
        retain_policy = trim_space v.retain_policy;
      })
      vs

-- The texts of the metadata that are not blank.
unfoldable pub text_labels : Assoc MetaValue → Assoc String
text_labels [] = []
text_labels ((k, str s) ∷ m) =
    let rest = text_labels m in if trim_space s == "" then rest else (k, s) ∷ rest
text_labels ((k, _) ∷ m) = text_labels m

-- Each piece read in turn, up to the first that is refused.
module _ {A : Type 0} where
  abbrev consed : Result A → Result (List A) → Result (List A)
  consed (err e) rest = err e
  consed (ok a) (err e) = err e
  consed (ok a) (ok rest) = ok (a ∷ rest)

  unfoldable pub read_all : (String → Result A) → List String → Result (List A)
  read_all read [] = ok []
  read_all read (s ∷ ss) = consed (read s) (read_all read ss)

module _ {F : Type 0} where
  unfoldable pub container_command : Workload F → List String
  container_command w = if is_empty w.command_list then fields w.command else w.command_list

  unfoldable pub container_labels : Workload F → Assoc String
  unfolding text_labels
  container_labels w = if is_empty w.labels then text_labels w.metadata else w.labels

  unfoldable pub compose_request : Workload F → Result AgentSpec
  compose_request w =
      let given = trim_space w.compose_yaml in
      let yaml = if given == "" then trim_space w.compose else given in
      let name = trim_space w.project_name in
      if yaml == ""
      then err "compose_yaml is required for compose workloads"
      else ok (
          compose_spec (record {
            project_name = if name == "" then normalize_project_name w.name else name;
            compose_yaml = yaml;
            env = w.env_vars;
          }))

module _ {F : Type 0} ⦃N : Floats F⦄ where
  unfoldable pub container_resources : Workload F → Option ResourceLimits
  container_resources w =
      if positive w.resources.cpu_usage || positive w.resources.memory_usage
      then some (record {
        cpu_shares = N.to_int64 (N.mul w.resources.cpu_usage (N.of_nat 1000));
        memory_bytes = N.to_int64 w.resources.memory_usage * (1024 * 1024) % 2 ^ 64;
      })
      else none

module _ {F : Type 0} ⦃T : Formats⦄ ⦃N : Floats F⦄ where
  unfoldable pub container_of :
      Workload F → Result (List PortMapping) → Result (List VolumeMount) → Result AgentSpec
  unfolding container_command container_labels container_resources
  container_of w (err e) vs = err e
  container_of w (ok ps) (err e) = err e
  container_of w (ok ps) (ok vs) = ok (
      container_spec (record {
        image = w.image;
        command = container_command w;
        env = w.env_vars;
        labels = container_labels w;
        ports = ps;
        volumes = vs;
        managed_volumes = agent_managed_volumes w.managed_volumes;
        restart_policy = w.restart_policy;
        resources = container_resources w;
      }))

  unfoldable pub container_request : Workload F → Result AgentSpec
  unfolding container_of read_all
  container_request w =
      container_of w (read_all parse_port_mapping w.ports) (read_all parse_volume_mount w.volumes)

module _ ⦃P : Platform⦄ where
  unfoldable pub vm_request : String → Option VmSpec → Result AgentSpec
  vm_request id none = err "vm spec is required for vm workloads"
  vm_request id (some vm) = ok (
      vm_spec (record vm {
        disks = map (normalize_vm_disk_for_agent id) vm.disks;
        managed_volumes = agent_managed_volumes vm.managed_volumes;
      }))

module _ {F : Type 0} ⦃T : Formats⦄ ⦃N : Floats F⦄ ⦃P : Platform⦄ where
  unfoldable pub agent_spec : Workload F → Result AgentSpec
  unfolding container_request compose_request vm_request
  agent_spec w =
      let kind = to_lower (trim_space w.kind) in
      if kind == "docker-container" || kind == "container"
      then container_request w
      else if kind == "docker-compose" || kind == "compose"
      then compose_request w
      else if kind == "vm"
      then vm_request w.id w.vm
      else err (concat ("unsupported workload type: " ∷ w.kind ∷ []))

  requested : Workload F → Result AgentSpec → Result (ApplyRequest F)
  requested w (err e) = err e
  requested w (ok s) = ok (record {
    id = w.id;
    revision_id = w.revision_id;
    desired_state = agent_desired_state w.desired_state;
    spec = s;
  })

  unfoldable pub build_apply_workload_request :
      (Workload F → String) → Workload F → Result (ApplyRequest F)
  unfolding agent_spec requested
  build_apply_workload_request digest given =
      let w = ensure_workload_revision digest given in requested w (agent_spec w)

-- ===== src/Scheduler/Models.antt =====
-- persys-scheduler/internal/models/models.go: the data of the scheduler.
-- `F` is Go's float64. A `time.Time` is the nanoseconds since Go's zero time, so that 0 is the zero
-- time; an int that is never negative is a number. A nil map reads as the empty one.
use persys_cloud.Prelude.{ℕ, String, Bool, List, Option, Assoc}

pub record Resources (F : Type 0) : Type 0 where
  pub cpu_usage : F
  pub memory_usage : F
  pub disk_usage : ℕ

pub record Hypervisor : Type 0 where
  pub kind : String
  pub status : String
  pub version : String

-- Host facts that are only stored and shown (operating system, container engine, swarm) are left out.
pub record Node (F : Type 0) : Type 0 where
  pub node_id : String
  pub ip_address : String
  pub status : String
  pub total_cpu : F
  pub total_memory : ℕ
  pub available_cpu : F
  pub available_memory : ℕ
  pub hypervisor : Hypervisor
  pub last_heartbeat : ℕ
  pub status_reason : String
  pub status_updated_by : String
  pub status_updated_at : ℕ
  pub labels : Assoc String
  pub agent_port : ℕ
  pub agent_grpc_port : ℕ
  pub agent_endpoint : String
  pub supported_workload_types : List String
  pub supported_storage_drivers : List String
  pub domain_name : String

pub record ManagedVolumeSpec : Type 0 where
  pub name : String
  pub driver : String
  pub size_gb : ℕ
  pub access_mode : String
  pub fs_type : String
  pub mount_path : String
  pub read_only : Bool
  pub retain_policy : String

pub record VmDisk : Type 0 where
  pub path : String
  pub device : String
  pub format : String
  pub size_gb : ℕ
  pub kind : String
  pub boot : Bool

-- The parts of a VM that the scheduler only copies and compares are one text.
pub record VmSpec : Type 0 where
  pub settings : String
  pub disks : List VmDisk
  pub managed_volumes : List ManagedVolumeSpec

pub record RetryState : Type 0 where
  pub attempts : ℕ
  pub max_attempts : ℕ
  pub next_retry_at : ℕ

pub record WorkloadReason : Type 0 where
  pub code : String
  pub message : String
  pub last_transition : ℕ
  pub next_retry_at : ℕ
  pub retryable : Bool

pub record WorkloadStatusInfo : Type 0 where
  pub actual_state : String
  pub last_updated : ℕ
  pub failure_reason : String
  pub reason : Option WorkloadReason

pub record WorkloadUsage (F : Type 0) : Type 0 where
  pub cpu_percent : F
  pub memory_bytes : ℕ
  pub disk_read_bytes : ℕ
  pub disk_write_bytes : ℕ
  pub net_rx_bytes : ℕ
  pub net_tx_bytes : ℕ
  pub collected_at : ℕ
  pub source : String

-- A value of the metadata map. JSON has one kind of number, so a stored `int` is read as a float64.
pub data MetaValue : Type 0 where
  str : String → MetaValue
  int : ℕ → MetaValue
  float : ℕ → MetaValue
  bool : Bool → MetaValue

pub record Workload (F : Type 0) : Type 0 where
  pub id : String
  pub name : String
  pub kind : String
  pub revision_id : String
  pub assigned_node : String
  pub image : String
  pub command : String
  pub command_list : List String
  pub compose : String
  pub compose_yaml : String
  pub project_name : String
  pub git_repo : String
  pub git_branch : String
  pub git_token : String
  pub env_vars : Assoc String
  pub resources : Resources F
  pub node_id : String
  pub status : String
  pub desired_state : String
  pub labels : Assoc String
  pub created_at : ℕ
  pub local_path : String
  pub ports : List String
  pub volumes : List String
  pub managed_volumes : List ManagedVolumeSpec
  pub network : String
  pub restart_policy : String
  pub logs : String
  pub metadata : Assoc MetaValue
  pub retry : RetryState
  pub status_info : WorkloadStatusInfo
  pub usage : Option (WorkloadUsage F)
  pub vm : Option VmSpec

pub record AssignmentRecord : Type 0 where
  pub workload_id : String
  pub node_id : String
  pub reason : String
  pub created_at : ℕ

pub record SchedulerEvent : Type 0 where
  pub id : String
  pub kind : String
  pub workload_id : String
  pub node_id : String
  pub reason : String
  pub timestamp : ℕ

pub record ReconciliationRecord : Type 0 where
  pub workload_id : String
  pub action : String
  pub success : Bool
  pub reason : String
  pub attempted_at : ℕ

-- workload_projection.go: a workload is stored as its specification and its status.
pub record WorkloadSpec (F : Type 0) : Type 0 where
  pub id : String
  pub name : String
  pub kind : String
  pub revision_id : String
  pub image : String
  pub command : String
  pub command_list : List String
  pub compose : String
  pub compose_yaml : String
  pub project_name : String
  pub git_repo : String
  pub git_branch : String
  pub git_token : String
  pub env_vars : Assoc String
  pub resources : Resources F
  pub desired_state : String
  pub labels : Assoc String
  pub created_at : ℕ
  pub local_path : String
  pub ports : List String
  pub volumes : List String
  pub network : String
  pub restart_policy : String
  pub vm : Option VmSpec

pub record WorkloadStatus : Type 0 where
  pub id : String
  pub assigned_node : String
  pub node_id : String
  pub status : String
  pub logs : String
  pub metadata : Assoc MetaValue
  pub retry : RetryState
  pub status_info : WorkloadStatusInfo

pub record ManagedVolumeRecord : Type 0 where
  pub id : String
  pub name : String
  pub driver : String
  pub size_gb : ℕ
  pub access_mode : String
  pub fs_type : String
  pub retain_policy : String
  pub phase : String
  pub last_error : String
  pub workload_refs : List String
  pub attached_nodes : List String
  pub created_at : ℕ
  pub updated_at : ℕ

pub record VolumeAttachmentRecord : Type 0 where
  pub id : String
  pub volume_id : String
  pub workload_id : String
  pub node_id : String
  pub driver : String
  pub mount_path : String
  pub read_only : Bool
  pub phase : String
  pub last_error : String
  pub last_transition : ℕ
  pub created_at : ℕ
  pub updated_at : ℕ

pub record DriftRecord : Type 0 where
  pub node_id : String
  pub workload_id : String
  pub drift_type : String
  pub detected_at : ℕ
  pub scheduler_status : String
  pub agent_status : String
  pub action : String
  pub resolved : Bool
  pub last_error : String

-- A record of CoreDNS's etcd plugin; a port of 0 is left out.
pub record DnsRecord : Type 0 where
  pub host : String
  pub port : ℕ
  pub ttl : ℕ

-- What a key of the state store holds, after the JSON decoding that its reader makes.
pub data Value (F : Type 0) : Type 0 where
  node_value : Node F → Value F
  text_value : String → Value F
  spec_value : WorkloadSpec F → Value F
  status_value : WorkloadStatus → Value F
  workload_value : Workload F → Value F
  retry_value : RetryState → Value F
  volume_value : ManagedVolumeRecord → Value F
  attachment_value : VolumeAttachmentRecord → Value F
  assignment_value : AssignmentRecord → Value F
  event_value : SchedulerEvent → Value F
  drift_value : DriftRecord → Value F
  dns_value : DnsRecord → Value F
  reconciliation_value : ReconciliationRecord → Value F

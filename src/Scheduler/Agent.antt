-- ===== src/Scheduler/Agent.antt =====
-- persys-scheduler/internal/scheduler/agent_grpc.go: the calls of a node's agent.
-- The agent, its connection and the generated messages are parameters: `dial` stands for the TLS
-- files and `grpc.DialContext`. Metrics and contexts are left out.
pub mod Ports
pub mod Request
pub mod Delete
use persys_cloud.Prelude.{
  ℕ, ◌*◌, String, Bool, true, false, not, ◌&&◌, ◌||◌, List, [], ◌∷◌, Option, none, some, Result, ok,
  err, if◌then◌else◌, ltb, nat_eq, Assoc, ◌==◌,
}
use persys_cloud.Text.{concat, trim_space, to_lower, equal_fold, contains}
use persys_cloud.Scheduler.Models.{Node, Workload}
use persys_cloud.Scheduler.Services.{
  Formats, Floats, Services, Act, pure, fail, direct, ◌>>=◌, ◌>>◌,
}
use persys_cloud.Scheduler.Agent.Request.{ApplyRequest, build_apply_workload_request}
use persys_cloud.Scheduler.Agent.Ports.{Platform}

pub data ActualState : Type 0 where
  unspecified pending running stopped failed unknown : ActualState

-- agentpb.WorkloadStatus, the fields that the scheduler reads.
pub record WorkloadReport : Type 0 where
  pub id : String
  pub revision_id : String
  pub actual_state : ActualState
  pub message : String
  pub metadata : Assoc String

pub record ApplyResponse : Type 0 where
  pub applied : Bool
  pub skipped : Bool
  pub message : String
  pub status : Option WorkloadReport

-- The durations of the configuration, in nanoseconds; 0 where it gives none.
pub record Config : Type 0 where
  pub agent_status_poll_interval : ℕ
  pub agent_vm_apply_timeout : ℕ
  pub agent_apply_timeout : ℕ
  pub agent_delete_timeout : ℕ
  pub reapply_guard : ℕ
  pub node_unavailable_grace : ℕ

-- A node's agent at an address. An answer without a status is `none`.
pub record Agents (W F : Type 0) : Type 0 where
  pub dial : String → W → Result (Unit {0}) × W
  pub apply_workload : String → ApplyRequest F → W → Result (Option ApplyResponse) × W
  pub workload_status : String → String → W → Result (Option WorkloadReport) × W
  pub delete_workload : String → String → W → Result (Unit {0}) × W
  pub list_workloads : String → W → Result (List WorkloadReport) × W
  -- `time.Sleep`
  pub sleep : ℕ → W → Unit {0} × W
  -- Redis takes the reconciliation metadata of a workload, or is not there.
  pub redis_status : String → W → Bool × W

abbrev pub or_duration : ℕ → ℕ → ℕ
or_duration given default = if ltb 0 given then given else default

module _ ⦃C : Config⦄ where
  unfoldable pub agent_poll_interval : ℕ
  agent_poll_interval = or_duration C.agent_status_poll_interval 1000000000

  unfoldable pub delete_timeout : ℕ
  delete_timeout = or_duration C.agent_delete_timeout (60 * 1000000000)

module _ {F : Type 0} ⦃C : Config⦄ where
  unfoldable pub apply_timeout_for : Workload F → ℕ
  apply_timeout_for w =
      if equal_fold w.kind "vm"
      then or_duration C.agent_vm_apply_timeout (240 * 1000000000)
      else or_duration C.agent_apply_timeout (45 * 1000000000)

module _ {F : Type 0} ⦃T : Formats⦄ where
  unfoldable pub grpc_address_for_node : Node F → String
  grpc_address_for_node n =
      let endpoint = trim_space n.agent_endpoint in
      let port = if ltb 0 n.agent_grpc_port then n.agent_grpc_port else n.agent_port in
      if not (endpoint == "") then endpoint else concat (n.ip_address ∷ ":" ∷ T.itoa port ∷ [])

-- mapActualStateToSchedulerStatus
unfoldable pub scheduler_status : ActualState → String
scheduler_status pending = "Pending"
scheduler_status running = "Running"
scheduler_status stopped = "Stopped"
scheduler_status failed = "Failed"
scheduler_status unknown = "Unknown"
scheduler_status unspecified = "Unknown"

module _ ⦃P : Platform⦄ where
  unfoldable pub is_workload_status_not_found : String → Bool
  is_workload_status_not_found e =
      let msg = to_lower e in
      equal_fold (P.grpc_code e) "not_found"
      || contains msg "status not found"
      || contains msg "workload not found"
      || contains msg "not found"

  unfoldable pub is_node_unreachable_error : String → Bool
  is_node_unreachable_error e =
      let code = to_lower (P.grpc_code e) in
      let msg = to_lower e in
      code == "unavailable"
      || code == "deadline_exceeded"
      || contains msg "connection refused"
      || contains msg "no such host"
      || contains msg "transport: error while dialing"
      || contains msg "connection error"

unfoldable pub dialled : String → String → Result (Unit {0}) → Result (Unit {0})
dialled node address (ok u) = ok u
dialled node address (err e) = err (concat ("dial agent " ∷ node ∷ " (" ∷ address ∷ "): " ∷ e ∷ []))

module _ {W F : Type 0} ⦃T : Formats⦄ ⦃A : Agents W F⦄ where
  unfoldable pub new_agent_client : Node F → W → Result (Unit {0}) × W
  unfolding dialled
  new_agent_client n v =
      let (r, w) = A.dial (grpc_address_for_node n) v in
      (dialled n.node_id (grpc_address_for_node n) r, w)

  unfoldable pub get_workload_status_from_node : Node F → String → Act W F (Option WorkloadReport)
  unfolding new_agent_client
  get_workload_status_from_node n id =
      direct (new_agent_client n) >> direct (A.workload_status (grpc_address_for_node n) id)

  unfoldable pub list_workloads_from_node : Node F → Act W F (List WorkloadReport)
  unfolding new_agent_client
  list_workloads_from_node n =
      direct (new_agent_client n) >> direct (A.list_workloads (grpc_address_for_node n))

  unfoldable pub delete_workload_from_node : Node F → String → Act W F (Unit {0})
  unfolding new_agent_client
  delete_workload_from_node n id =
      direct (new_agent_client n) >> direct (A.delete_workload (grpc_address_for_node n) id)

module _ {W F : Type 0} ⦃T : Formats⦄ ⦃N : Floats F⦄ ⦃P : Platform⦄ ⦃V : Services W F⦄
    ⦃A : Agents W F⦄ where
  built : Result (ApplyRequest F) → Act W F (ApplyRequest F)
  built (ok r) = pure r
  built (err e) = fail e

  unfoldable pub apply_workload_on_node : Node F → Workload F → Act W F (Option ApplyResponse)
  unfolding new_agent_client built
  apply_workload_on_node n w = do
    direct (new_agent_client n)
    request ← built (build_apply_workload_request V.digest w)
    direct (A.apply_workload (grpc_address_for_node n) request)

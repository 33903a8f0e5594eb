-- ===== src/Automation/Records.antt =====
-- persys-automation: the records of internal/engine/engine.go, internal/store/store.go and
-- internal/scheduler/client.go, and what the engine calls.
use persys_cloud.Prelude.{ℕ, String, Bool, List, Option, Result, Assoc}

pub record Policy : Type 0 where
  pub id : String
  pub name : String
  pub target_workload : String
  pub kind : ℕ
  pub condition_expression : String
  pub action_expression : String
  pub enabled : Bool
  pub created_at : ℕ
  pub updated_at : ℕ

pub record PolicyEvaluationResult : Type 0 where
  pub policy_id : String
  pub matched : Bool
  pub dispatched : Bool
  pub reason : String

pub record AuditEntry : Type 0 where
  pub id : String
  pub policy_id : String
  pub policy_name : String
  pub target_workload : String
  pub matched : Bool
  pub dispatched : Bool
  pub reason : String
  pub old_state : String
  pub new_state : String
  pub timestamp : ℕ

pub record MetricCondition (F : Type 0) : Type 0 where
  pub query : String
  pub operator : String
  pub threshold : F

pub record ClusterCondition (F : Type 0) : Type 0 where
  pub field : String
  pub operator : String
  pub threshold : F

pub record PipelineCondition : Type 0 where
  pub repository : String
  pub status : String

-- The replica counts are int32, as 32-bit words.
pub record Action : Type 0 where
  pub kind : String
  pub desired_state : String
  pub desired_replicas : ℕ
  pub replica_delta : ℕ

pub data AutomationActionType : Type 0 where
  unspecified set_desired_state retry_workload delete_workload scale_replicas : AutomationActionType

pub record AutomationSuggestion : Type 0 where
  pub suggestion_id : String
  pub policy_id : String
  pub policy_name : String
  pub target_workload : String
  pub action_type : AutomationActionType
  pub desired_state : String
  pub desired_replicas : ℕ
  pub replica_delta : ℕ
  pub reason : String

pub record QueuedSuggestion : Type 0 where
  pub id : String
  pub policy_id : String
  pub policy_name : String
  pub target_workload : String
  pub action_type : String
  pub desired_state : String
  pub desired_replicas : ℕ
  pub replica_delta : ℕ
  pub reason : String
  pub attempts : ℕ
  pub last_error : String
  pub created_at : ℕ
  pub updated_at : ℕ

pub record ClusterSummary : Type 0 where
  pub total_nodes : ℕ
  pub ready_nodes : ℕ
  pub not_ready_nodes : ℕ
  pub total_workloads : ℕ
  pub running_workloads : ℕ
  pub pending_workloads : ℕ
  pub failed_workloads : ℕ
  pub deleted_workloads : ℕ

pub record SuggestionAnswer : Type 0 where
  pub accepted : Bool
  pub applied_action : String
  pub reason : String

pub record PipelineStatus : Type 0 where
  pub repository : String
  pub status : String
  pub message : String

-- `json.Unmarshal` into each shape, and `cronParser.Parse` with `schedule.Next`.
pub record Readers (F : Type 0) : Type 0 where
  pub mode_of : String → Result String
  pub metric_condition : String → Result (MetricCondition F)
  pub cluster_condition : String → Result (ClusterCondition F)
  pub schedule_condition : String → Result String
  pub pipeline_condition : String → Result PipelineCondition
  pub action : String → Result Action
  pub schedule : String → Result (ℕ → ℕ)

-- The store, Prometheus, the scheduler, the collector of pipeline states, and the clock.
pub record Backends (W F : Type 0) : Type 0 where
  pub list_policies : W → Result (List Policy) × W
  pub append_audit : AuditEntry → W → Result (Unit {0}) × W
  pub enqueue_suggestion : QueuedSuggestion → W → Result (Unit {0}) × W
  pub claim_queued_suggestions : ℕ → W → Result (List QueuedSuggestion) × W
  pub mark_queued_suggestion_result : String → Bool → String → W → W
  pub query : String → W → Result F × W
  pub get_cluster_summary : W → Result ClusterSummary × W
  pub submit_automation_suggestion : AutomationSuggestion → W → Result SuggestionAnswer × W
  pub last_pipeline_status : Option (W → PipelineStatus × W)
  pub now : W → ℕ × W

-- What an engine changes, and the world behind it; `F` is the float64 of its conditions.
pub record Engine (W F : Type 0) : Type 0 where
  pub last_trigger : Assoc ℕ
  pub world : W

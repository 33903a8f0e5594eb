-- ===== src/Scheduler/Projection.antt =====
-- persys-scheduler/internal/scheduler/workload_projection.go: a workload as specification and status,
-- and the workload that the reads of scheduler.go make of the two.
use persys_cloud.Prelude.{
  ℕ, ◌-◌, ◌^◌, to_float64, ltb, if◌then◌else◌, Assoc, ◌∷◌, ◌≡◌, refl, [], none,
}
use persys_cloud.Scheduler.Models.{
  Workload, WorkloadSpec, WorkloadStatus, MetaValue, str, int, float, bool,
}

-- JSON has one kind of number: an int comes back from it as a float64. A number here is the 64-bit word of
-- an integer.
unfoldable pub json_number : ℕ → ℕ
json_number n = if ltb n (2 ^ 63) then to_float64 n else 2 ^ 64 - to_float64 (2 ^ 64 - n)

unfoldable pub stored_value : MetaValue → MetaValue
unfolding json_number
stored_value (int n) = float (json_number n)
stored_value (str s) = str s
stored_value (float n) = float n
stored_value (bool b) = bool b

-- A metadata map as it is read back from the JSON that is stored of it.
unfoldable pub stored_metadata : Assoc MetaValue → Assoc MetaValue
stored_metadata [] = []
stored_metadata ((k, v) ∷ m) = (k, stored_value v) ∷ stored_metadata m

unfoldable pub stored_status : WorkloadStatus → WorkloadStatus
stored_status st = record st { metadata = stored_metadata st.metadata }

module _ {F : Type 0} where
  unfoldable pub spec_from_workload : Workload F → WorkloadSpec F
  spec_from_workload w = record {
    id = w.id;
    name = w.name;
    kind = w.kind;
    revision_id = w.revision_id;
    image = w.image;
    command = w.command;
    command_list = w.command_list;
    compose = w.compose;
    compose_yaml = w.compose_yaml;
    project_name = w.project_name;
    git_repo = w.git_repo;
    git_branch = w.git_branch;
    git_token = w.git_token;
    env_vars = w.env_vars;
    resources = w.resources;
    desired_state = w.desired_state;
    labels = w.labels;
    created_at = w.created_at;
    local_path = w.local_path;
    ports = w.ports;
    volumes = w.volumes;
    network = w.network;
    restart_policy = w.restart_policy;
    vm = w.vm;
  }

  unfoldable pub status_from_workload : Workload F → WorkloadStatus
  status_from_workload w = record {
    id = w.id;
    assigned_node = w.assigned_node;
    node_id = w.node_id;
    status = w.status;
    logs = w.logs;
    metadata = w.metadata;
    retry = w.retry;
    status_info = w.status_info;
  }

  -- The fields that a read sets from the specification; the others have their zero value.
  unfoldable pub workload_of_spec : WorkloadSpec F → Workload F
  workload_of_spec p = record {
    id = p.id;
    name = p.name;
    kind = p.kind;
    revision_id = p.revision_id;
    assigned_node = "";
    image = p.image;
    command = p.command;
    command_list = p.command_list;
    compose = p.compose;
    compose_yaml = p.compose_yaml;
    project_name = p.project_name;
    git_repo = p.git_repo;
    git_branch = p.git_branch;
    git_token = p.git_token;
    env_vars = p.env_vars;
    resources = p.resources;
    node_id = "";
    status = "";
    desired_state = p.desired_state;
    labels = p.labels;
    created_at = 0;
    local_path = p.local_path;
    ports = p.ports;
    volumes = p.volumes;
    managed_volumes = [];
    network = p.network;
    restart_policy = p.restart_policy;
    logs = "";
    metadata = [];
    retry = record { attempts = 0; max_attempts = 0; next_retry_at = 0 };
    status_info = record {
      actual_state = "";
      last_updated = 0;
      failure_reason = "";
      reason = none;
    };
    usage = none;
    vm = p.vm;
  }

  unfoldable pub with_status : Workload F → WorkloadStatus → Workload F
  with_status w st = record w {
    assigned_node = st.assigned_node;
    node_id = st.node_id;
    status = st.status;
    logs = st.logs;
    metadata = st.metadata;
    retry = st.retry;
    status_info = st.status_info;
  }

  -- What a workload is after it was stored and read again.
  pub workload_of_spec-projections :
      (w : Workload F)
      → with_status
          (workload_of_spec (spec_from_workload w))
          (stored_status (status_from_workload w))
        ≡ record w {
          created_at = 0;
          managed_volumes = [];
          usage = none;
          metadata = stored_metadata w.metadata;
        }
  unfolding spec_from_workload status_from_workload workload_of_spec with_status stored_status
  workload_of_spec-projections w = refl

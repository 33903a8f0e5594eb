-- ===== src/Tests/SchedulerWorkloads.antt =====
-- The retries and the commands on workloads, on a small world.
use persys_cloud.Prelude.{
  ℕ, ◌+◌, ◌≤◌, ◌≡◌, refl, ◌⊎◌, false, [], ◌∷◌, none, some, ok, lookup, put, delete, filter,
  lookup-put, arith,
}
use persys_cloud.Text.{has_prefix}
use persys_cloud.Scheduler.Models.{Workload, str}
use persys_cloud.Scheduler.Services.{Services, Scheduler, degraded}
use persys_cloud.Scheduler.Mode.{is_writable}
use persys_cloud.Scheduler.Store.RoundTrip.{Reliable}
use persys_cloud.Scheduler.Retry.{
  two_minutes, retry_backoff, metadata_timestamp, retry_on_failure, with_max_attempts, observed,
  failed_at, exhausted, apply_failure_reason, metadata_string,
}
use persys_cloud.Scheduler.Retry.Backoff.{times_power, retry_backoff-times_power}
use persys_cloud.Scheduler.Retry.Outcome.{
  GivenUp, Waits, retry_on_failure_cases, retry_on_failure-Failed,
}
use persys_cloud.Scheduler.Workloads.Spec.{spec_changed, desired_changed, updated_workload}
use persys_cloud.Scheduler.Workloads.Spec.Repeat.{updated_workload-repeated}
use persys_cloud.Scheduler.Workloads.Frozen.{AllRefused, commands-AllRefused}
use persys_cloud.Tests.World.{World, services, formats, scheduler}

-- A world whose etcd always answers.
unfoldable pub steady : Services World ℕ
unfolding lookup put delete has_prefix
steady = record {
  etcd_get = λ k w. (ok (lookup k w.store), w);
  etcd_list = λ p w. (ok (filter (λ e. has_prefix e.0 p) w.store), w);
  etcd_put = λ k v w. (ok tt, record w { store = put k v w.store });
  etcd_delete = λ k w. (ok tt, record w { store = delete k w.store });
  now = λ w. (w.clock, record w { clock = w.clock + 1 });
  uuid = λ w. ("uuid", w);
  redis_event = λ e w. (false, w);
  redis_reconciliation = λ r w. (false, w);
  digest = λ w. "revision";
}

pub reliable : Reliable steady
unfolding steady
reliable = record {
  holds = λ w k. lookup k w.store;
  put_answers = λ k v w. refl;
  put_holds = λ k v w j. lookup-put k j v w.store;
  get_answers = λ k w. refl;
  get_holds = λ k w j. refl;
}

abbrev pub web : Workload ℕ
web = record {
  id = "web";
  name = "web";
  kind = "container";
  revision_id = "r1";
  assigned_node = "n1";
  image = "nginx";
  command = "";
  command_list = [];
  compose = "";
  compose_yaml = "";
  project_name = "";
  git_repo = "";
  git_branch = "";
  git_token = "";
  env_vars = [];
  resources = record { cpu_usage = 1; memory_usage = 64; disk_usage = 0 };
  node_id = "n1";
  status = "Running";
  desired_state = "Running";
  labels = [];
  created_at = 7;
  local_path = "";
  ports = [];
  volumes = [];
  managed_volumes = [];
  network = "";
  restart_policy = "";
  logs = "";
  metadata = ("failureObservedAt", str "t") ∷ [];
  retry = record { attempts = 4; max_attempts = 5; next_retry_at = 0 };
  status_info = record {
    actual_state = "Running";
    last_updated = 0;
    failure_reason = "";
    reason = none;
  };
  usage = none;
  vm = none;
}

abbrev pub empty_world : World
empty_world = record { store = []; clock = 100; faults = [] }

abbrev frozen_scheduler : Scheduler World ℕ
frozen_scheduler = record (scheduler empty_world) { mode = degraded }

commands-AllRefused_example : AllRefused frozen_scheduler
unfolding is_writable
commands-AllRefused_example = commands-AllRefused frozen_scheduler refl

retry_backoff-times_power_example : retry_backoff 5 ≡ 20000000000
unfolding times_power
retry_backoff-times_power_example = retry_backoff-times_power 5 (omega arith)

-- Four of five attempts are used, and the first failure was seen long ago.
retry_on_failure_cases_example :
    GivenUp 5 (retry_on_failure two_minutes "exit 1" web).0
    ⊎ Waits 5 two_minutes (retry_on_failure two_minutes "exit 1" web).0
unfolding with_max_attempts
retry_on_failure_cases_example =
    retry_on_failure_cases two_minutes "exit 1" web (omega arith) (omega arith) (omega arith)

retry_on_failure-Failed_example :
    (t : ℕ) × (metadata_timestamp web.metadata "failureObservedAt" ≡ some t)
    × (t + two_minutes ≤ 120000000005)
unfolding retry_on_failure observed failed_at with_max_attempts metadata_timestamp metadata_string
    lookup formats exhausted apply_failure_reason
retry_on_failure-Failed_example = retry_on_failure-Failed 120000000005 "exit 1" web refl

-- A new image and new labels.
abbrev new_image : Workload ℕ
new_image = record web { image = "nginx:2"; labels = ("tier", "web") ∷ ("zone", "a") ∷ [] }

updated_workload-repeated_example :
    (spec_changed (updated_workload (λ w. "r2") 100 web new_image) new_image ≡ false)
    × (desired_changed (updated_workload (λ w. "r2") 100 web new_image) new_image ≡ false)
unfolding lookup
updated_workload-repeated_example =
    updated_workload-repeated (λ w. "r2") 100 web new_image refl refl

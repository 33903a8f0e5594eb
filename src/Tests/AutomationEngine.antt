-- ===== src/Tests/AutomationEngine.antt =====
-- persys-automation: policies and a queue at concrete inputs.
use persys_cloud.Prelude.{
  ℕ, String, ◌+◌, ◌*◌, ◌/◌, ◌==◌, ◌≡◌, refl, true, false, List, [], ◌∷◌, map, none, Result, ok, err,
  if◌then◌else◌, put, lookup, sort_by,
}
use persys_cloud.Text.{trim_space, to_lower, concat}
use persys_cloud.Tests.World.{formats, naturals}
use persys_cloud.Automation.Records.{
  Policy, Action, AutomationSuggestion, QueuedSuggestion, SuggestionAnswer, Readers, Backends,
  Engine, scale_replicas,
}
use persys_cloud.Automation.Suggestions.{
  build_suggestion_from_action, queued_suggestion, replayed_suggestion, queued-replayed,
}
use persys_cloud.Automation.MemoryStore.{
  MemoryStore, mark_first, append_audit, enqueue_suggestion, claim_queued_suggestions,
  list_policies,
}
use persys_cloud.Automation.MemoryStore.Queue.{retried}
use persys_cloud.Automation.Engine.{already_triggered, mark_triggered, evaluate_condition}
use persys_cloud.Automation.Engine.Cron.{IsScheduled}
use persys_cloud.Automation.Dispatch.Once.{evaluate_condition-once}
use persys_cloud.Automation.Dispatch.{verdict, replay_each, evaluate_each, evaluate_policies}
use persys_cloud.Automation.Dispatch.Paired.{asked, Paired, evaluate_policies-Paired}
use persys_cloud.Automation.Dispatch.Replay.{Queued, timeless, replay_each-retried}

-- A store in memory whose clock stands still, and the clock of the engine.
record World : Type 0 where
  memory : MemoryStore
  clock : ℕ

abbrev hour : ℕ
hour = 3600000000000

abbrev answered : AutomationSuggestion → Result SuggestionAnswer
answered g =
    if g.target_workload == "lost"
    then err "unavailable"
    else ok
        (record { accepted = g.target_workload == "web"; applied_action = ""; reason = "unknown" })

instance unfoldable readers : Readers ℕ
readers = record {
  mode_of = λ t. ok t;
  metric_condition = λ t. ok (record { query = t; operator = ">"; threshold = 5 });
  cluster_condition =
      λ t. ok (record { field = "failed_workloads"; operator = ">"; threshold = 0 });
  schedule_condition = λ t. ok "0 * * * *";
  pipeline_condition = λ t. err "no pipeline";
  action = λ t. ok (record {
    kind = "Scale_Replicas";
    desired_state = "";
    desired_replicas = 3;
    replica_delta = 0;
  });
  schedule = λ t. ok (λ n. (n / hour + 1) * hour);
}

instance unfoldable backends : Backends World ℕ
unfolding mark_first append_audit enqueue_suggestion claim_queued_suggestions list_policies
backends = record {
  list_policies = λ w. (ok (list_policies true w.memory), w);
  append_audit = λ a w. (ok tt, record w { memory = append_audit "a" 0 a w.memory });
  enqueue_suggestion = λ q w. (ok tt, record w { memory = enqueue_suggestion "q" 0 q w.memory });
  claim_queued_suggestions = λ n w. (ok (claim_queued_suggestions n w.memory), w);
  mark_queued_suggestion_result = λ id b r w. record w {
    memory = record w.memory { queue = mark_first id b r 0 w.memory.queue };
  };
  query = λ q w. (ok 7, w);
  get_cluster_summary = λ w. (err "unavailable", w);
  submit_automation_suggestion = λ g w. (answered g, w);
  last_pipeline_status = none;
  now = λ w. (w.clock, record w { clock = w.clock + 1 });
}

abbrev policy : String → String → Policy
policy id target = record {
  id = id;
  name = "scale";
  target_workload = target;
  kind = 1;
  condition_expression = " CRON";
  action_expression = "{}";
  enabled = true;
  created_at = 1;
  updated_at = 1;
}

abbrev scaling : Action
scaling = record {
  kind = "Scale_Replicas";
  desired_state = "";
  desired_replicas = 3;
  replica_delta = 0;
}

abbrev scale_web : AutomationSuggestion
scale_web = record {
  suggestion_id = "";
  policy_id = "p1";
  policy_name = "scale";
  target_workload = "web";
  action_type = scale_replicas;
  desired_state = "";
  desired_replicas = 3;
  replica_delta = 0;
  reason = "policy=scale condition/action matched";
}

queued-replayed_example :
    replayed_suggestion (record (queued_suggestion (policy "p1" " web") scale_web) {
      id = "q1";
      attempts = 2;
      last_error = "unavailable";
      created_at = 5;
      updated_at = 9;
    })
    ≡ record scale_web { suggestion_id = "q1" }
unfolding build_suggestion_from_action trim_space to_lower concat
queued-replayed_example =
    queued-replayed (policy "p1" " web") scaling scale_web "q1" 2 "unavailable" 5 9 refl

abbrev engine : List Policy → List QueuedSuggestion → Engine World ℕ
engine ps qs = record {
  last_trigger = [];
  world = record {
    memory = record { policies = map (λ p. (p.id, p)) ps; audit = []; queue = qs };
    clock = hour + 5;
  };
}

hourly : IsScheduled readers (policy "p1" "web") (λ n. (n / hour + 1) * hour)
unfolding trim_space to_lower readers
hourly = record {
  mode = " CRON";
  expression = "0 * * * *";
  mode_read = refl;
  is_cron = refl;
  condition_read = refl;
  schedule_read = refl;
}

-- The state after another policy was evaluated, too, and half a minute has passed.
abbrev later : Engine World ℕ
later =
    record (evaluate_each "" (policy "p2" "lost" ∷ [])
      (evaluate_condition (policy "p1" "web") (engine [] [])).1).1 {
        world = record (engine [] []).world { clock = hour + 30000000000 };
      }

evaluate_condition-once_example :
    ((evaluate_condition (policy "p1" "web") later).0.0 ≡ false)
    × ((evaluate_condition (policy "p1" "web") later).1
        ≡ record later { world = record (engine [] []).world { clock = hour + 30000000001 } })
unfolding evaluate_condition readers backends trim_space to_lower already_triggered mark_triggered
    put lookup
evaluate_condition-once_example =
    evaluate_condition-once (policy "p1" "web") (λ n. (n / hour + 1) * hour) (engine [] []) ""
      (policy "p2" "lost" ∷ []) (record (engine [] []).world { clock = hour + 30000000000 }) hourly
      refl (refl, tt) refl

evaluate_policies-Paired_example :
    Paired
      (policy "p2" "lost" ∷ [])
      (engine (policy "p1" "web" ∷ policy "p2" "lost" ∷ []) [])
      (evaluate_policies "p2" (engine (policy "p1" "web" ∷ policy "p2" "lost" ∷ []) [])).0
unfolding asked list_policies backends sort_by
evaluate_policies-Paired_example =
    evaluate_policies-Paired "p2" (engine (policy "p1" "web" ∷ policy "p2" "lost" ∷ []) [])
      (policy "p1" "web" ∷ policy "p2" "lost" ∷ []) refl

abbrev item : String → String → ℕ → QueuedSuggestion
item id target attempts = record (queued_suggestion (policy "p1" target) scale_web) {
  id = id;
  attempts = attempts;
}

queued : Queued backends
unfolding mark_first backends
queued = record {
  queue = λ w. w.memory.queue;
  answer = answered;
  marks = λ id a r w. refl;
  answers = λ g w. refl;
  keeps = λ g w. refl;
}

replay_each-retried_example :
    (replay_each
      (item "q1" "lost" 0 ∷ item "q2" "web" 4 ∷ [])
      (engine [] (item "q1" "lost" 0 ∷ item "q2" "web" 4 ∷ []))).world.memory.queue
    ≡ record (item "q1" "lost" 1) { last_error = "unavailable" } ∷ []
unfolding retried trim_space queued timeless verdict queued_suggestion replayed_suggestion
replay_each-retried_example =
    replay_each-retried queued (item "q1" "lost" 0 ∷ item "q2" "web" 4 ∷ [])
      (engine [] (item "q1" "lost" 0 ∷ item "q2" "web" 4 ∷ [])) ((refl, tt), (tt, tt)) refl

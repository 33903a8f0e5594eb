-- ===== src/Automation/Engine.antt =====
-- persys-automation/internal/engine/engine.go: conditions, dispatch, evaluation and the replay of the queue.
pub mod Cron
pub mod Marks
use persys_cloud.Prelude.{
  ℕ, String, ◌+◌, ◌-◌, ◌==◌, Bool, true, false, not, ◌&&◌, ◌||◌, List, [], ◌∷◌, Option, none, some,
  Result, ok, err, Assoc, put, lookup, if◌then◌else◌, nat_eq, ltb,
}
use persys_cloud.Text.{trim_space, to_lower, equal_fold, concat}
use persys_cloud.Scheduler.Services.{Formats, Floats}
use persys_cloud.Automation.Records.{
  Policy, PolicyEvaluationResult, AuditEntry, MetricCondition, ClusterCondition, PipelineCondition,
  Action, AutomationSuggestion, QueuedSuggestion, ClusterSummary, SuggestionAnswer, PipelineStatus,
  Readers, Backends, Engine,
}
use persys_cloud.Automation.Suggestions.{
  build_suggestion_from_action, queued_suggestion, replayed_suggestion,
}

-- A step of the engine; none of them fails, since errors become reasons.
abbrev pub Step : Type 0 → Type 0 → Type 0 → Type 0
Step W F A = Engine W F → A × Engine W F

module _ {W F A : Type 0} where
  -- A call of what stands behind the engine.
  abbrev pub calls : (W → A × W) → Step W F A
  calls f e = let (a, w) = f e.world in (a, record e { world = w })

module _ {F : Type 0} ⦃N : Floats F⦄ where
  unfoldable pub compare : F → String → F → Bool
  compare value op threshold =
      let o = trim_space op in
      if o == ">"
      then N.lt threshold value
      else if o == ">="
      then N.lt threshold value || N.eq value threshold
      else if o == "<"
      then N.lt value threshold
      else if o == "<="
      then N.lt value threshold || N.eq value threshold
      else if o == "=="
      then N.eq value threshold
      else false

unfoldable pub cluster_field : ClusterSummary → String → Option ℕ
cluster_field s field =
    let f = trim_space field in
    if f == "total_nodes"
    then some s.total_nodes
    else if f == "ready_nodes"
    then some s.ready_nodes
    else if f == "not_ready_nodes"
    then some s.not_ready_nodes
    else if f == "total_workloads"
    then some s.total_workloads
    else if f == "running_workloads"
    then some s.running_workloads
    else if f == "pending_workloads"
    then some s.pending_workloads
    else if f == "failed_workloads"
    then some s.failed_workloads
    else if f == "deleted_workloads"
    then some s.deleted_workloads
    else none

abbrev pub said : String → String → String
said a b = concat (a ∷ b ∷ [])

abbrev pub minute : ℕ
minute = 60000000000

module _ {W F : Type 0} where
  unfoldable pub already_triggered : String → ℕ → Engine W F → Bool
  already_triggered id ts e = same (lookup id e.last_trigger)
    where
      same : Option ℕ → Bool
      same none = false
      same (some last) = nat_eq last ts

  unfoldable pub mark_triggered : String → ℕ → Engine W F → Engine W F
  mark_triggered id ts e = record e { last_trigger = put id ts e.last_trigger }

  -- A schedule whose activation after the last minute has come, and was not taken before.
  unfoldable pub due : String → (ℕ → ℕ) → ℕ → Step W F (Bool × String)
  due id next_after now e =
      let next = next_after (now - minute) in
      if ltb now next
      then ((false, "cron not due"), e)
      else if already_triggered id next e
      then ((false, "cron already triggered"), e)
      else ((true, "cron schedule due"), mark_triggered id next e)

module _ {F : Type 0} ⦃T : Formats⦄ ⦃N : Floats F⦄ where
  judged_field : ClusterCondition F → Option ℕ → Bool × String
  judged_field c none = (false, said "unknown cluster_summary field " (T.quote c.field))
  judged_field c (some n) =
      let figures = concat (c.field ∷ "=" ∷ N.fixed 3 (N.of_nat n) ∷ []) in
      if compare (N.of_nat n) c.operator c.threshold
      then (true, said "condition matched: " figures)
      else (false, said "condition not matched: " figures)

module _ {W F : Type 0} ⦃T : Formats⦄ ⦃N : Floats F⦄ ⦃R : Readers F⦄ ⦃B : Backends W F⦄ where
  judged_metric : MetricCondition F → Result F × Engine W F → (Bool × String) × Engine W F
  judged_metric c (err m, e) = ((false, said "prometheus query failed: " m), e)
  judged_metric c (ok v, e) =
      let figures = concat (N.fixed 3 v ∷ " " ∷ c.operator ∷ " " ∷ N.fixed 3 c.threshold ∷ []) in
      if compare v c.operator c.threshold
      then ((true, said "condition matched: " figures), e)
      else ((false, said "condition not matched: " figures), e)

  unfoldable pub metric_matches : Result (MetricCondition F) → Step W F (Bool × String)
  unfolding judged_metric
  metric_matches (err m) e = ((false, said "invalid promql condition: " m), e)
  metric_matches (ok c) e = judged_metric c (calls (B.query c.query) e)

  judged_summary :
      ClusterCondition F → Result ClusterSummary × Engine W F → (Bool × String) × Engine W F
  judged_summary c (err m, e) = ((false, said "scheduler summary failed: " m), e)
  judged_summary c (ok s, e) = (judged_field c (cluster_field s c.field), e)

  unfoldable pub summary_matches : Result (ClusterCondition F) → Step W F (Bool × String)
  unfolding judged_summary judged_field
  summary_matches (err m) e = ((false, said "invalid cluster condition: " m), e)
  summary_matches (ok c) e = judged_summary c (calls B.get_cluster_summary e)

  unfoldable pub scheduled : String → Result (ℕ → ℕ) → Step W F (Bool × String)
  unfolding due
  scheduled id (err m) e = ((false, said "invalid cron expression: " m), e)
  scheduled id (ok next_after) e = let (now, e1) = calls B.now e in due id next_after now e1

  unfoldable pub cron_matches : String → Result String → Step W F (Bool × String)
  unfolding scheduled
  cron_matches id (err m) e = ((false, said "invalid cron condition: " m), e)
  cron_matches id (ok expression) e = scheduled id (R.schedule expression) e

  judged_pipeline : PipelineCondition → PipelineStatus × Engine W F → (Bool × String) × Engine W F
  judged_pipeline c (s, e) =
      if equal_fold (trim_space s.repository) (trim_space c.repository)
        && equal_fold (trim_space s.status) (trim_space c.status)
      then (
        (
          true,
          concat ("pipeline status matched repo=" ∷ s.repository ∷ " status=" ∷ s.status ∷ []),
        ),
        e,
      )
      else (
        (
          false,
          concat (
              "pipeline status not matched latest_repo=" ∷ s.repository ∷ " latest_status="
              ∷ s.status ∷ " msg=" ∷ s.message ∷ []),
        ),
        e,
      )

  unfoldable pub pipeline_matches :
      Option (W → PipelineStatus × W) → Result PipelineCondition → Step W F (Bool × String)
  unfolding judged_pipeline
  pipeline_matches none c e = ((false, "pipeline status collector not configured"), e)
  pipeline_matches (some read) (err m) e = ((false, said "invalid pipeline condition: " m), e)
  pipeline_matches (some read) (ok c) e = judged_pipeline c (calls read e)

  unfoldable pub in_mode : Policy → Result String → Step W F (Bool × String)
  unfolding metric_matches summary_matches cron_matches pipeline_matches
  in_mode p (err m) e = ((false, said "invalid condition_expression JSON: " m), e)
  in_mode p (ok mode) e =
      let text = p.condition_expression in
      let m = to_lower (trim_space mode) in
      if m == "promql"
      then metric_matches (R.metric_condition text) e
      else if m == "cluster_summary"
      then summary_matches (R.cluster_condition text) e
      else if m == "cron"
      then cron_matches p.id (R.schedule_condition text) e
      else if m == "pipeline_status"
      then pipeline_matches B.last_pipeline_status (R.pipeline_condition text) e
      else ((false, said "unsupported condition mode " (T.quote mode)), e)

  unfoldable pub evaluate_condition : Policy → Step W F (Bool × String)
  unfolding in_mode
  evaluate_condition p e = in_mode p (R.mode_of p.condition_expression) e

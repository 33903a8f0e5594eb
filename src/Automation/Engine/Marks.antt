-- ===== src/Automation/Engine/Marks.antt =====
-- persys-automation/internal/engine/engine.go: an evaluation marks its own policy alone.
use persys_cloud.Prelude.{
  ℕ, String, ◌-◌, ◌==◌, ◌≡◌, refl, ◌&&◌, false, Result, ok, err, Option, none, some, lookup,
  lookup-put, ltb, inl, inr, Bool-cases,
}
use persys_cloud.Text.{trim_space, to_lower, equal_fold}
use persys_cloud.Scheduler.Services.{Formats, Floats}
use persys_cloud.Automation.Records.{
  Policy, Readers, Backends, Engine, MetricCondition, ClusterCondition, PipelineCondition,
  ClusterSummary, PipelineStatus,
}
use persys_cloud.Automation.Engine.{
  compare, already_triggered, mark_triggered, minute, due, judged_metric, judged_summary,
  judged_pipeline, metric_matches, summary_matches, scheduled, cron_matches, pipeline_matches,
  in_mode, evaluate_condition,
}

module _ {W F : Type 0} where
  -- The mark of a policy is the same in both.
  abbrev pub SameMark : String → Engine W F → Engine W F → Type 0
  SameMark id e f = lookup id e.last_trigger ≡ lookup id f.last_trigger

  due-others :
      (id other : String) (next_after : ℕ → ℕ) (now : ℕ) (e : Engine W F)
      → (other == id) ≡ false
      → SameMark id (due other next_after now e).1 e
  unfolding due mark_triggered
  due-others id other next_after now e h = elim (Bool-cases (ltb now (next_after (now - minute)))) [
    | inl early ↦ rw early refl
    | inr come ↦ elim (Bool-cases (already_triggered other (next_after (now - minute)) e)) [
      | inl known ↦ rw (come, known) refl
      | inr new ↦
          rw (come, new, lookup-put other id (next_after (now - minute)) e.last_trigger, h) refl
    ]
  ]

module _ {W F : Type 0} ⦃T : Formats⦄ ⦃N : Floats F⦄ ⦃R : Readers F⦄ ⦃B : Backends W F⦄
    (id : String) where
  metric-others :
      (c : Result (MetricCondition F)) (e : Engine W F) → SameMark id (metric_matches c e).1 e
  unfolding metric_matches judged_metric
  metric-others (err m) e = refl
  metric-others (ok c) e = judged c (B.query c.query e.world)
    where
      judged :
          (c : MetricCondition F) (r : Result F × W)
          → SameMark id (judged_metric c (r.0, record e { world = r.1 })).1 e
      judged c (err m, w) = refl
      judged c (ok v, w) = elim (Bool-cases (compare v c.operator c.threshold)) [
        | inl h ↦ rw h refl
        | inr h ↦ rw h refl
      ]

  summary-others :
      (c : Result (ClusterCondition F)) (e : Engine W F) → SameMark id (summary_matches c e).1 e
  unfolding summary_matches judged_summary
  summary-others (err m) e = refl
  summary-others (ok c) e = judged c (B.get_cluster_summary e.world)
    where
      judged :
          (c : ClusterCondition F) (r : Result ClusterSummary × W)
          → SameMark id (judged_summary c (r.0, record e { world = r.1 })).1 e
      judged c (err m, w) = refl
      judged c (ok s, w) = refl

  pipeline-others :
      (read : Option (W → PipelineStatus × W)) (c : Result PipelineCondition) (e : Engine W F)
      → SameMark id (pipeline_matches read c e).1 e
  unfolding pipeline_matches judged_pipeline
  pipeline-others none c e = refl
  pipeline-others (some read) (err m) e = refl
  pipeline-others (some read) (ok c) e =
      elim (Bool-cases (
        equal_fold (trim_space (read e.world).0.repository) (trim_space c.repository)
        && equal_fold (trim_space (read e.world).0.status) (trim_space c.status))) [
          | inl h ↦ rw h refl
          | inr h ↦ rw h refl
        ]

  cron-others :
      (other : String) (c : Result String) (e : Engine W F)
      → (other == id) ≡ false
      → SameMark id (cron_matches other c e).1 e
  unfolding cron_matches scheduled
  cron-others other (err m) e h = refl
  cron-others other (ok expression) e h = schedules (R.schedule expression)
    where
      schedules : (s : Result (ℕ → ℕ)) → SameMark id (scheduled other s e).1 e
      schedules (err m) = refl
      schedules (ok next_after) = due-others id other next_after _ _ h

  in_mode-others :
      (p : Policy) (mode : Result String) (e : Engine W F)
      → (p.id == id) ≡ false
      → SameMark id (in_mode p mode e).1 e
  unfolding in_mode
  in_mode-others p (err m) e h = refl
  in_mode-others p (ok mode) e h =
      let m = to_lower (trim_space mode) in
      elim (Bool-cases (m == "promql")) [
        | inl a ↦ rw a (metric-others _ e)
        | inr a ↦ elim (Bool-cases (m == "cluster_summary")) [
          | inl b ↦ rw (a, b) (summary-others _ e)
          | inr b ↦ elim (Bool-cases (m == "cron")) [
            | inl c ↦ rw (a, b, c) (cron-others p.id _ e h)
            | inr c ↦ elim (Bool-cases (m == "pipeline_status")) [
              | inl d ↦ rw (a, b, c, d) (pipeline-others _ _ e)
              | inr d ↦ rw (a, b, c, d) refl
            ]
          ]
        ]
      ]

  pub evaluate_condition-others :
      (p : Policy) (e : Engine W F)
      → (p.id == id) ≡ false
      → SameMark id (evaluate_condition p e).1 e
  unfolding evaluate_condition
  evaluate_condition-others p e h = in_mode-others p (R.mode_of p.condition_expression) e h

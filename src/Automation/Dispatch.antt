-- ===== src/Automation/Dispatch.antt =====
-- persys-automation/internal/engine/engine.go: dispatch, evaluation and the replay of the queue.
-- What is counted for Prometheus is left out.
pub mod Paired
pub mod Once
pub mod Replay
use persys_cloud.Prelude.{
  ℕ, String, ◌==◌, Bool, true, false, not, ◌&&◌, List, [], ◌∷◌, Result, ok, err, if◌then◌else◌,
}
use persys_cloud.Text.{trim_space, concat}
use persys_cloud.Scheduler.Services.{Formats, Floats}
use persys_cloud.Automation.Records.{
  Policy, PolicyEvaluationResult, AuditEntry, Action, AutomationSuggestion, QueuedSuggestion,
  SuggestionAnswer, Readers, Backends, Engine,
}
use persys_cloud.Automation.Suggestions.{
  build_suggestion_from_action, queued_suggestion, replayed_suggestion,
}
use persys_cloud.Automation.Engine.{Step, calls, said, evaluate_condition}

unfoldable pub audit_entry : Policy → Bool → Bool → String → AuditEntry
audit_entry p matched dispatched reason = record {
  id = "";
  policy_id = p.id;
  policy_name = p.name;
  target_workload = p.target_workload;
  matched = matched;
  dispatched = dispatched;
  reason = reason;
  old_state = "";
  new_state = "";
  timestamp = 0;
}

unfoldable pub result_of : Policy → Bool → Bool → String → PolicyEvaluationResult
result_of p matched dispatched reason = record {
  policy_id = p.id;
  matched = matched;
  dispatched = dispatched;
  reason = reason;
}

-- What the queue is told of an item: whether it was accepted, and why not.
unfoldable pub verdict : Result SuggestionAnswer → Bool × String
verdict (err e) = (false, e)
verdict (ok a) = if a.accepted then (true, "accepted") else (false, said "rejected: " a.reason)

module _ {W F : Type 0} ⦃T : Formats⦄ ⦃N : Floats F⦄ ⦃R : Readers F⦄ ⦃B : Backends W F⦄ where
  enqueued : String → Result (Unit {0}) × Engine W F → (Bool × String) × Engine W F
  enqueued e (ok u, s) = ((false, said "scheduler unavailable; suggestion queued for retry: " e), s)
  enqueued e (err q, s) = (
    (false, concat ("scheduler suggestion failed: " ∷ e ∷ "; queue enqueue failed: " ∷ q ∷ [])),
    s,
  )

  -- The scheduler's answer; where there is none, the suggestion is queued.
  unfoldable pub submitted :
      Policy
      → AutomationSuggestion
      → Result SuggestionAnswer × Engine W F
      → (Bool × String) × Engine W F
  unfolding enqueued
  submitted p g (err e, s) = enqueued e (calls (B.enqueue_suggestion (queued_suggestion p g)) s)
  submitted p g (ok a, s) =
      if a.accepted
      then ((true, said "scheduler accepted suggestion: " (trim_space a.applied_action)), s)
      else ((false, said "scheduler rejected suggestion: " (trim_space a.reason)), s)

  suggested : Policy → Result AutomationSuggestion → Step W F (Bool × String)
  suggested p (err e) s = ((false, e), s)
  suggested p (ok g) s = submitted p g (calls (B.submit_automation_suggestion g) s)

  acted : Policy → Result Action → Step W F (Bool × String)
  unfolding suggested
  acted p (err e) s = ((false, said "invalid action_expression JSON: " e), s)
  acted p (ok a) s =
      if trim_space p.target_workload == ""
      then ((false, "target_workload is empty"), s)
      else suggested p (build_suggestion_from_action p a) s

  unfoldable pub dispatch_action : Policy → Step W F (Bool × String)
  unfolding acted
  dispatch_action p s = acted p (R.action p.action_expression) s

  -- The result with the audit's failure in its reason, if it failed.
  unfoldable pub audited :
      Policy
      → Bool
      → Bool
      → String
      → Result (Unit {0}) × Engine W F
      → PolicyEvaluationResult × Engine W F
  unfolding result_of
  audited p matched dispatched reason (ok u, s) = (result_of p matched dispatched reason, s)
  audited p matched dispatched reason (err e, s) =
      (result_of p matched dispatched (concat (reason ∷ "; audit_write_failed=" ∷ e ∷ [])), s)

  unfoldable pub after_condition :
      Policy → (Bool × String) × Engine W F → PolicyEvaluationResult × Engine W F
  unfolding audited audit_entry
  after_condition p ((false, reason), s) =
      audited p false false reason (calls (B.append_audit (audit_entry p false false reason)) s)
  after_condition p ((true, reason), s) =
      let ((dispatched, why), s1) = dispatch_action p s in
      audited p true dispatched why (calls (B.append_audit (audit_entry p true dispatched why)) s1)

  unfoldable pub evaluate_single : Policy → Step W F PolicyEvaluationResult
  unfolding after_condition
  evaluate_single p s = after_condition p (evaluate_condition p s)

  unfoldable pub evaluate_enabled : Policy → Step W F PolicyEvaluationResult
  unfolding evaluate_single
  evaluate_enabled p s =
      if p.enabled then evaluate_single p s else (result_of p false false "policy disabled", s)

  abbrev pub followed_by :
      Step W F (List PolicyEvaluationResult)
      → PolicyEvaluationResult × Engine W F
      → List PolicyEvaluationResult × Engine W F
  followed_by rest (r, s) = let (rs, s1) = rest s in (r ∷ rs, s1)

  unfoldable pub evaluate_each : String → List Policy → Step W F (List PolicyEvaluationResult)
  unfolding evaluate_enabled
  evaluate_each id [] s = ([], s)
  evaluate_each id (p ∷ ps) s =
      let rest = evaluate_each id ps in
      if not (id == "") && not (p.id == id) then rest s else followed_by rest (evaluate_enabled p s)

  unfoldable pub evaluate_listed :
      String → Result (List Policy) × Engine W F → List PolicyEvaluationResult × Engine W F
  unfolding evaluate_each
  evaluate_listed id (err e, s) = (
    record {
      policy_id = "";
      matched = false;
      dispatched = false;
      reason = said "failed to load policies: " e;
    }
        ∷ [],
    s,
  )
  evaluate_listed id (ok ps, s) = evaluate_each id ps s

  unfoldable pub evaluate_policies : String → Step W F (List PolicyEvaluationResult)
  unfolding evaluate_listed
  evaluate_policies id s = evaluate_listed id (calls B.list_policies s)

  unfoldable pub replay_item : QueuedSuggestion → Engine W F → Engine W F
  unfolding verdict
  replay_item q s =
      let (answer, s1) = calls (B.submit_automation_suggestion (replayed_suggestion q)) s in
      let (accepted, why) = verdict answer in
      record s1 { world = B.mark_queued_suggestion_result q.id accepted why s1.world }

  unfoldable pub replay_each : List QueuedSuggestion → Engine W F → Engine W F
  unfolding replay_item
  replay_each [] s = s
  replay_each (q ∷ qs) s = replay_each qs (replay_item q s)

  replay_claimed : Result (List QueuedSuggestion) × Engine W F → Engine W F
  unfolding replay_each
  replay_claimed (err e, s) = s
  replay_claimed (ok qs, s) = replay_each qs s

  unfoldable pub replay_queued_suggestions : ℕ → Engine W F → Engine W F
  unfolding replay_claimed
  replay_queued_suggestions limit s = replay_claimed (calls (B.claim_queued_suggestions limit) s)

  -- A tick of StartPeriodicEvaluation.
  unfoldable evaluation_tick : Step W F (List PolicyEvaluationResult)
  unfolding evaluate_policies replay_queued_suggestions
  evaluation_tick s =
      let (results, s1) = evaluate_policies "" s in (results, replay_queued_suggestions 50 s1)

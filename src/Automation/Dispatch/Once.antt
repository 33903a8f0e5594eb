-- ===== src/Automation/Dispatch/Once.antt =====
-- persys-automation/internal/engine/engine.go: a schedule between the evaluations of other policies.
use persys_cloud.Prelude.{
  ℕ, String, ◌-◌, ◌==◌, ◌≡◌, refl, ◌∙◌, Bool, true, false, not, ◌&&◌, List, [], ◌∷◌, All, Result,
  ok, err, inl, inr, Bool-cases, if◌then◌else◌,
}
use persys_cloud.Text.{trim_space}
use persys_cloud.Scheduler.Services.{Formats, Floats}
use persys_cloud.Automation.Records.{
  Policy, Action, AutomationSuggestion, SuggestionAnswer, Readers, Backends, Engine,
}
use persys_cloud.Automation.Engine.{minute, evaluate_condition}
use persys_cloud.Automation.Engine.Cron.{IsScheduled, evaluate_condition-taken}
use persys_cloud.Automation.Engine.Marks.{SameMark, evaluate_condition-others}
use persys_cloud.Automation.Dispatch.{
  result_of, enqueued, submitted, suggested, acted, dispatch_action, audited, after_condition,
  evaluate_single, evaluate_enabled, evaluate_each,
}

module _ {W F : Type 0} ⦃T : Formats⦄ ⦃N : Floats F⦄ ⦃R : Readers F⦄ ⦃B : Backends W F⦄
    (id : String) where
  enqueued-marks :
      (m : String) (r : Result (Unit {0})) (s : Engine W F) → SameMark id (enqueued m (r, s)).1 s
  unfolding enqueued
  enqueued-marks m (ok u) s = refl
  enqueued-marks m (err q) s = refl

  submitted-marks :
      (p : Policy) (g : AutomationSuggestion) (r : Result SuggestionAnswer) (s : Engine W F)
      → SameMark id (submitted p g (r, s)).1 s
  unfolding submitted
  submitted-marks p g (err m) s = enqueued-marks m _ _
  submitted-marks p g (ok a) s = elim (Bool-cases a.accepted) [
    | inl e ↦ rw e refl
    | inr e ↦ rw e refl
  ]

  suggested-marks :
      (p : Policy) (g : Result AutomationSuggestion) (s : Engine W F)
      → SameMark id (suggested p g s).1 s
  unfolding suggested
  suggested-marks p (err m) s = refl
  suggested-marks p (ok g) s = submitted-marks p g _ _

  acted-marks : (p : Policy) (a : Result Action) (s : Engine W F) → SameMark id (acted p a s).1 s
  unfolding acted
  acted-marks p (err m) s = refl
  acted-marks p (ok a) s = elim (Bool-cases (trim_space p.target_workload == "")) [
    | inl e ↦ rw e refl
    | inr e ↦ rw e (suggested-marks p _ s)
  ]

  dispatch_action-marks : (p : Policy) (s : Engine W F) → SameMark id (dispatch_action p s).1 s
  unfolding dispatch_action
  dispatch_action-marks p s = acted-marks p (R.action p.action_expression) s

  audited-marks :
      (p : Policy) (matched dispatched : Bool) (reason : String) (r : Result (Unit {0}))
      (s : Engine W F)
      → SameMark id (audited p matched dispatched reason (r, s)).1 s
  unfolding audited
  audited-marks p matched dispatched reason (ok u) s = refl
  audited-marks p matched dispatched reason (err m) s = refl

  after_condition-marks :
      (p : Policy) (matched : Bool) (reason : String) (s : Engine W F)
      → SameMark id (after_condition p ((matched, reason), s)).1 s
  unfolding after_condition
  after_condition-marks p false reason s = audited-marks p false false reason _ _
  after_condition-marks p true reason s = audited-marks p true _ _ _ _ ∙ dispatch_action-marks p s

  evaluate_enabled-marks :
      (p : Policy) (s : Engine W F) → (p.id == id) ≡ false → SameMark id (evaluate_enabled p s).1 s
  unfolding evaluate_enabled evaluate_single
  evaluate_enabled-marks p s h = enabled p.enabled
    where
      enabled :
          (b : Bool)
          → SameMark id
              (if b then evaluate_single p s else (result_of p false false "policy disabled", s)).1
              s
      enabled false = refl
      enabled true =
          let judged = evaluate_condition p s in
          after_condition-marks p judged.0.0 judged.0.1 judged.1
          ∙ evaluate_condition-others id p s h

  evaluate_each-marks :
      (asked : String) (ps : List Policy) (s : Engine W F)
      → All (λ p. (p.id == id) ≡ false) ps
      → SameMark id (evaluate_each asked ps s).1 s
  unfolding evaluate_each
  evaluate_each-marks asked [] s h = refl
  evaluate_each-marks asked (p ∷ ps) s (other, h) =
      elim (Bool-cases (not (asked == "") && not (p.id == asked))) [
        | inl e ↦ rw e (evaluate_each-marks asked ps s h)
        | inr e ↦ rw e (
            evaluate_each-marks asked ps (evaluate_enabled p s).1 h
            ∙ evaluate_enabled-marks p s other)
      ]

module _ {W F : Type 0} ⦃T : Formats⦄ ⦃N : Floats F⦄ ⦃R : Readers F⦄ ⦃B : Backends W F⦄ where
  -- A schedule sets off its action at most once for each activation. After an evaluation that matched, other
  -- policies are evaluated, with their actions and their audit, and the world goes on in any way. The next
  -- evaluation, if the schedule still gives the same activation for its reading of the clock, does not
  -- match, and changes nothing but what reading the clock does.
  pub evaluate_condition-once :
      (p : Policy) (next_after : ℕ → ℕ) (e : Engine W F) (asked : String) (others : List Policy)
      (w : W)
      → IsScheduled R p next_after
      → (evaluate_condition p e).0.0 ≡ true
      → All (λ q. (q.id == p.id) ≡ false) others
      → next_after ((B.now w).0 - minute) ≡ next_after ((B.now e.world).0 - minute)
      → let f = record (evaluate_each asked others (evaluate_condition p e).1).1 { world = w } in
        ((evaluate_condition p f).0.0 ≡ false)
        × ((evaluate_condition p f).1 ≡ record f { world = (B.now w).1 })
  evaluate_condition-once p next_after e asked others w c matched distinct same =
      evaluate_condition-taken p next_after e
        (record (evaluate_each asked others (evaluate_condition p e).1).1 { world = w }) c matched
        (evaluate_each-marks p.id asked others (evaluate_condition p e).1 distinct) same

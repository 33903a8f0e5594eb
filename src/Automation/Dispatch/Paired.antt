-- ===== src/Automation/Dispatch/Paired.antt =====
-- persys-automation/internal/engine/engine.go: the results of an evaluation against its policies.
use persys_cloud.Prelude.{
  String, ◌==◌, ◌≡◌, refl, ◌⊎◌, Bool, true, false, ◌&&◌, List, [], ◌∷◌, Result, ok, err, inl, inr,
  Bool-cases, filter, if◌then◌else◌, ◌||◌,
}
use persys_cloud.Scheduler.Services.{Formats, Floats}
use persys_cloud.Automation.Records.{
  Policy, PolicyEvaluationResult, AuditEntry, Readers, Backends, Engine,
}
use persys_cloud.Automation.Engine.{evaluate_condition}
use persys_cloud.Automation.Dispatch.{
  result_of, audited, after_condition, evaluate_single, evaluate_enabled, evaluate_each,
  evaluate_policies,
}

-- The policies that an evaluation is asked for.
unfoldable pub asked : String → List Policy → List Policy
asked id ps = filter (λ p. id == "" || p.id == id) ps

module _ {W F : Type 0} ⦃T : Formats⦄ ⦃N : Floats F⦄ ⦃R : Readers F⦄ ⦃B : Backends W F⦄ where
  -- Nothing but an entry in the audit log.
  abbrev pub Quiet : Engine W F → Engine W F → Type 0
  Quiet s t = (a : AuditEntry) × (t ≡ record s { world = (B.append_audit a s.world).1 })

  -- The result of a policy, from what its condition says and the state before and after: it is matched where
  -- the policy is enabled and its condition holds; otherwise nothing is dispatched, and no suggestion is sent
  -- or queued.
  abbrev pub AnswersTo :
      Policy
      → Bool
      → (Bool × String) × Engine W F
      → Engine W F
      → PolicyEvaluationResult × Engine W F
      → Type 0
  AnswersTo p enabled ((holds, reason), judged) s (r, t) =
      (r.policy_id ≡ p.id)
      × (r.matched ≡ (enabled && holds))
      × (((enabled && holds) ≡ true) ⊎ ((r.dispatched ≡ false) × ((t ≡ s) ⊎ Quiet judged t)))

  abbrev pub Answers : Policy → Engine W F → PolicyEvaluationResult × Engine W F → Type 0
  Answers p s o = AnswersTo p p.enabled (evaluate_condition p s) s o

  -- One result for each policy, in their order, each evaluated in the state that the one before left.
  unfoldable pub Paired : List Policy → Engine W F → List PolicyEvaluationResult → Type 0
  Paired [] s [] = Unit
  Paired (p ∷ ps) s (r ∷ rs) =
      Answers p s (r, (evaluate_enabled p s).1) × Paired ps (evaluate_enabled p s).1 rs
  Paired ps s rs = ⊥

  audited-AnswersTo :
      (p : Policy) (holds dispatched : Bool) (reason why : String) (judged s : Engine W F)
      (r : Result (Unit {0})) (t : Engine W F)
      → (holds ≡ true) ⊎ ((dispatched ≡ false) × ((t ≡ s) ⊎ Quiet judged t))
      → AnswersTo p true ((holds, reason), judged) s (audited p holds dispatched why (r, t))
  unfolding audited
  audited-AnswersTo p holds dispatched reason why judged s (ok u) t h = (refl, refl, h)
  audited-AnswersTo p holds dispatched reason why judged s (err e) t h = (refl, refl, h)

  after_condition-AnswersTo :
      (p : Policy) (c : (Bool × String) × Engine W F) (s : Engine W F)
      → AnswersTo p true c s (after_condition p c)
  unfolding after_condition
  after_condition-AnswersTo p ((false, reason), judged) s =
      audited-AnswersTo p false false reason reason judged s _ _ (inr (refl, inr (_, refl)))
  after_condition-AnswersTo p ((true, reason), judged) s =
      audited-AnswersTo p true _ reason _ judged s _ _ (inl refl)

  enabled-AnswersTo :
      (p : Policy) (b : Bool) (s : Engine W F)
      → AnswersTo p b
          (evaluate_condition p s)
          s
          (if b then evaluate_single p s else (result_of p false false "policy disabled", s))
  unfolding evaluate_single
  enabled-AnswersTo p true s = after_condition-AnswersTo p (evaluate_condition p s) s
  enabled-AnswersTo p false s = (refl, refl, inr (refl, inl refl))

  evaluate_enabled-Answers : (p : Policy) (s : Engine W F) → Answers p s (evaluate_enabled p s)
  unfolding evaluate_enabled
  evaluate_enabled-Answers p s = enabled-AnswersTo p p.enabled s

  evaluate_each-Paired :
      (id : String) (ps : List Policy) (s : Engine W F)
      → Paired (asked id ps) s (evaluate_each id ps s).0
  unfolding evaluate_each Paired asked
  evaluate_each-Paired id [] s = tt
  evaluate_each-Paired id (p ∷ ps) s =
      let first = evaluate_enabled-Answers p s in
      let others = evaluate_each-Paired id ps (evaluate_enabled p s).1 in
      elim (Bool-cases (id == "")) [
        | inl every ↦ rw every (first, others)
        | inr one ↦ elim (Bool-cases (p.id == id)) [
          | inl this ↦ rw (one, this) (first, others)
          | inr other ↦ rw (one, other) (evaluate_each-Paired id ps s)
        ]
      ]

  -- Where the store lists its policies, an evaluation of one policy, or of all where none is named, answers
  -- with one result for each policy that is asked for, in the order of the list, each evaluated in the
  -- state that the one before left. A policy is reported as matched exactly where it is enabled and its
  -- condition holds; otherwise nothing is dispatched and, but for an audit entry, nothing is done after
  -- the condition: no suggestion is sent or queued.
  pub evaluate_policies-Paired :
      (id : String) (s : Engine W F) (ps : List Policy)
      → (B.list_policies s.world).0 ≡ ok ps
      → Paired
          (asked id ps)
          (record s { world = (B.list_policies s.world).1 })
          (evaluate_policies id s).0
  unfolding evaluate_policies
  evaluate_policies-Paired id s ps h = rw h (evaluate_each-Paired id ps _)

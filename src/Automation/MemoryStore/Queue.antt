-- ===== src/Automation/MemoryStore/Queue.antt =====
-- persys-automation: a replay of the queue in memory.
use persys_cloud.Prelude.{
  ℕ, String, ◌==◌, ◌≡◌, ◌∙◌, ap, refl, Bool, false, List, [], ◌∷◌, All, if◌then◌else◌, inl, inr,
  Bool-cases, eq_refl,
}
use persys_cloud.Automation.Records.{QueuedSuggestion}
use persys_cloud.Automation.MemoryStore.{tried_again, mark_first}

-- No two items have the same id.
abbrev pub Distinct : List QueuedSuggestion → Type 0
Distinct [] = Unit
Distinct (q ∷ qs) = All (λ k. (q.id == k.id) ≡ false) qs × Distinct qs

-- The items that are not accepted, each with one more attempt.
unfoldable pub retried :
    (QueuedSuggestion → Bool × String) → ℕ → List QueuedSuggestion → List QueuedSuggestion
retried v now [] = []
retried v now (q ∷ qs) =
    let rest = retried v now qs in if (v q).0 then rest else tried_again (v q).1 now q ∷ rest

-- The marks for a list of items, one after the other.
unfoldable pub mark_each :
    (QueuedSuggestion → Bool × String)
    → ℕ
    → List QueuedSuggestion
    → List QueuedSuggestion
    → List QueuedSuggestion
mark_each v now [] queue = queue
mark_each v now (q ∷ qs) queue = mark_each v now qs (mark_first q.id (v q).0 (v q).1 now queue)

module _ (v : QueuedSuggestion → Bool × String) (now : ℕ) where
  mark_each-skip :
      (k : QueuedSuggestion) (qs queue : List QueuedSuggestion)
      → All (λ q. (k.id == q.id) ≡ false) qs
      → mark_each v now qs (k ∷ queue) ≡ k ∷ mark_each v now qs queue
  unfolding mark_each mark_first
  mark_each-skip k [] queue fresh = refl
  mark_each-skip k (q ∷ qs) queue (other, fresh) = rw other (mark_each-skip k qs _ fresh)

  pub mark_each-retried :
      (qs : List QueuedSuggestion) → Distinct qs → mark_each v now qs qs ≡ retried v now qs
  unfolding mark_each mark_first retried
  mark_each-retried [] d = refl
  mark_each-retried (q ∷ qs) (fresh, d) = elim (Bool-cases (v q).0) [
    | inl accepted ↦ rw (eq_refl q.id, accepted) (mark_each-retried qs d)
    | inr refused ↦
        rw (eq_refl q.id, refused)
          (mark_each-skip (tried_again (v q).1 now q) qs qs fresh
            ∙ ap (λ (l : List QueuedSuggestion). tried_again (v q).1 now q ∷ l)
                (mark_each-retried qs d))
  ]

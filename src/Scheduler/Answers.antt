-- ===== src/Scheduler/Answers.antt =====
-- Methods that do not fail, and what they answer: one rule for each way to build a method.
use persys_cloud.Prelude.{◌≡◌, refl, Bool, true, false, ok, if◌then◌else◌}
use persys_cloud.Scheduler.Services.{Scheduler, Act, pure, call, ◌>>=◌}

-- The method returns a value that satisfies `Q`, from every state.
pub record Answers {W F A : Type 0} (Q : A → Type 0) (m : Act W F A) : Type 0 where
  pub at : (s : Scheduler W F) → (a : A) × (t : Scheduler W F) × (m s ≡ (ok a, t)) × Q a

module _ {W F A : Type 0} {Q : A → Type 0} where
  pub Answers-pure : (a : A) → Q a → Answers {W = W} {F = F} Q (pure a)
  unfolding pure
  Answers-pure a q = record { at = λ s. (a, s, refl, q) }

  pub Answers-call : (f : W → A × W) → ((w : W) → Q (f w).0) → Answers {W = W} {F = F} Q (call f)
  unfolding call
  Answers-call f q = record {
    at = λ s. ((f s.world).0, record s { world = (f s.world).1 }, refl, q s.world);
  }

  pub Answers-if :
      (b : Bool) (m n : Act W F A)
      → (b ≡ true → Answers Q m)
      → (b ≡ false → Answers Q n)
      → Answers Q (if b then m else n)
  Answers-if true m n ym yn = ym refl
  Answers-if false m n ym yn = yn refl

module _ {W F A B : Type 0} {P : A → Type 0} {Q : B → Type 0} where
  pub Answers-bind :
      (m : Act W F A) (f : A → Act W F B)
      → Answers P m
      → ((a : A) → P a → Answers Q (f a))
      → Answers Q (m >>= f)
  unfolding ◌>>=◌
  Answers-bind m f ym yf = record { at = λ s. let (a, t, e, p) = ym.at s in rw e ((yf a p).at t) }

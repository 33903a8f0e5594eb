-- ===== src/Scheduler/Yields.antt =====
-- What a method answers, when it does not fail: one rule for each way to build a method.
use persys_cloud.Prelude.{String, ◌≡◌, refl, Bool, true, false, Result, ok, err, if◌then◌else◌}
use persys_cloud.Scheduler.Services.{Scheduler, Act, pure, fail, continue, ◌>>=◌}

module _ {W F A : Type 0} where
  -- `Q` of a result without an error.
  abbrev pub OnOk : (A → Type 0) → Result A × Scheduler W F → Type 0
  OnOk Q (ok a, s) = Q a
  OnOk Q (err e, s) = Unit

-- Whatever the method returns without an error satisfies `Q`.
pub record Yields {W F A : Type 0} (Q : A → Type 0) (m : Act W F A) : Type 0 where
  pub at : (s : Scheduler W F) → OnOk Q (m s)

module _ {W F A : Type 0} {Q : A → Type 0} where
  pub Yields-pure : (a : A) → Q a → Yields {W = W} {F = F} Q (pure a)
  unfolding pure
  Yields-pure a q = record { at = λ s. q }

  pub Yields-fail : (e : String) → Yields {W = W} {F = F} Q (fail e)
  unfolding fail
  Yields-fail e = record { at = λ s. tt }

  pub Yields-if :
      (b : Bool) (m n : Act W F A)
      → (b ≡ true → Yields Q m)
      → (b ≡ false → Yields Q n)
      → Yields Q (if b then m else n)
  Yields-if true m n ym yn = ym refl
  Yields-if false m n ym yn = yn refl

module _ {W F A B : Type 0} {P : A → Type 0} {Q : B → Type 0} where
  Yields-continue :
      (f : A → Act W F B) (x : Result A × Scheduler W F)
      → OnOk P x
      → ((a : A) → P a → Yields Q (f a))
      → OnOk Q (continue f x)
  Yields-continue f (ok a, s) p y = (y a p).at s
  Yields-continue f (err e, s) p y = tt

  pub Yields-bind :
      (m : Act W F A) (f : A → Act W F B)
      → Yields P m
      → ((a : A) → P a → Yields Q (f a))
      → Yields Q (m >>= f)
  unfolding ◌>>=◌
  Yields-bind m f ym yf = record { at = λ s. Yields-continue f (m s) (ym.at s) yf }

-- A method of which nothing is asked.
pub Yields-any : {W F A : Type 0} (m : Act W F A) → Yields (λ a. Unit {0}) m
Yields-any m = record { at = λ s. any_result (m s) }
  where
    any_result : {W F A : Type 0} (x : Result A × Scheduler W F) → OnOk (λ a. Unit {0}) x
    any_result (ok a, s) = tt
    any_result (err e, s) = tt

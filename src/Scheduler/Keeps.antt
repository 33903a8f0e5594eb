-- ===== src/Scheduler/Keeps.antt =====
-- Invariants of methods: one rule for each way to build a method.
use persys_cloud.Prelude.{String, Bool, true, false, Result, ok, err, if◌then◌else◌}
use persys_cloud.Scheduler.Services.{
  Scheduler, Act, pure, fail, call, direct, try, ignore, wrap, wrapped, branch, continue, ◌>>=◌,
}

-- The method keeps `P`, whether it returns a value or an error.
pub record Keeps {W F A : Type 0} (P : Scheduler W F → Type 0) (m : Act W F A) : Type 0 where
  pub at : (s : Scheduler W F) → P s → P (m s).1

module _ {W F A : Type 0} {P : Scheduler W F → Type 0} where
  pub Keeps-pure : (a : A) → Keeps P (pure a)
  unfolding pure
  Keeps-pure a = record { at = λ s h. h }

  pub Keeps-fail : (e : String) → Keeps P (fail {A = A} e)
  unfolding fail
  Keeps-fail e = record { at = λ s h. h }

  pub Keeps-if : (b : Bool) (m n : Act W F A) → Keeps P m → Keeps P n → Keeps P (if b then m else n)
  Keeps-if true m n km kn = km
  Keeps-if false m n km kn = kn

  pub Keeps-branch :
      (test : Scheduler W F → Bool) (m n : Act W F A)
      → Keeps P m
      → Keeps P n
      → Keeps P (branch test m n)
  unfolding branch
  Keeps-branch test m n km kn = record { at = λ s h. branch_keeps (test s) s h }
    where
      branch_keeps : (b : Bool) (s : Scheduler W F) → P s → P (if b then m s else n s).1
      branch_keeps true s h = km.at s h
      branch_keeps false s h = kn.at s h

  pub Keeps-try : (m : Act W F A) → Keeps P m → Keeps P (try m)
  unfolding try
  Keeps-try m km = record { at = λ s h. km.at s h }

  pub Keeps-ignore : (m : Act W F A) → Keeps P m → Keeps P (ignore m)
  unfolding ignore
  Keeps-ignore m km = record { at = λ s h. km.at s h }

  pub Keeps-wrapped : (f : String → String) (m : Act W F A) → Keeps P m → Keeps P (wrapped f m)
  unfolding wrapped
  Keeps-wrapped f m km = record { at = λ s h. wrap_keeps f (m s) (km.at s h) }
    where
      wrap_keeps : (f : String → String) (x : Result A × Scheduler W F) → P x.1 → P (wrap f x).1
      wrap_keeps f (ok a, s) h = h
      wrap_keeps f (err e, s) h = h

  -- A method of the outside world.
  pub Keeps-direct :
      (call : W → Result A × W)
      → ((s : Scheduler W F) (w : W) → P s → P (record s { world = w }))
      → Keeps P (direct call)
  unfolding direct
  Keeps-direct call outside = record { at = λ s h. outside s (call s.world).1 h }

  pub Keeps-call :
      (f : W → A × W)
      → ((s : Scheduler W F) (w : W) → P s → P (record s { world = w }))
      → Keeps P (call f)
  unfolding call
  Keeps-call f outside = record { at = λ s h. outside s (f s.world).1 h }

module _ {W F A B : Type 0} {P : Scheduler W F → Type 0} where
  Keeps-continue :
      (f : A → Act W F B) (x : Result A × Scheduler W F)
      → ((a : A) → Keeps P (f a))
      → P x.1
      → P (continue f x).1
  Keeps-continue f (ok a, s) kf h = (kf a).at s h
  Keeps-continue f (err e, s) kf h = h

  pub Keeps-bind :
      (m : Act W F A) (f : A → Act W F B)
      → Keeps P m
      → ((a : A) → Keeps P (f a))
      → Keeps P (m >>= f)
  unfolding ◌>>=◌
  Keeps-bind m f km kf = record { at = λ s h. Keeps-continue f (m s) kf (km.at s h) }

pub ruleset keeps_rules = (
  Keeps-pure, Keeps-fail, Keeps-if, Keeps-branch, Keeps-try, Keeps-ignore, Keeps-wrapped,
  Keeps-bind,
)

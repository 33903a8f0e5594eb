-- ===== src/Automation/Engine/Cron.antt =====
-- persys-automation/internal/engine/engine.go: a schedule sets off its action once for each activation.
use persys_cloud.Prelude.{
  ℕ, String, ◌-◌, ◌≡◌, refl, ◌∙◌, ap, subst, true, false, ok, lookup, lookup-put, arith, eq_refl,
}
use persys_cloud.Text.{trim_space, to_lower}
use persys_cloud.Scheduler.Services.{Formats, Floats}
use persys_cloud.Automation.Records.{Policy, Readers, Backends, Engine}
use persys_cloud.Automation.Engine.{
  already_triggered, mark_triggered, minute, due, evaluate_condition,
}

module _ {W F : Type 0} where
  already_triggered-same :
      (id : String) (ts : ℕ) (e f : Engine W F)
      → lookup id f.last_trigger ≡ lookup id e.last_trigger
      → already_triggered id ts f ≡ already_triggered id ts e
  unfolding already_triggered
  already_triggered-same id ts e f h = rw h refl

  already-mark :
      (id : String) (ts : ℕ) (e : Engine W F)
      → already_triggered id ts (mark_triggered id ts e) ≡ true
  unfolding already_triggered mark_triggered
  already-mark id ts e = rw (lookup-put id id ts e.last_trigger, eq_refl id) (ground arith)

  -- The activation of a schedule that was taken is known afterwards.
  due-taken :
      (id : String) (next_after : ℕ → ℕ) (now : ℕ) (e : Engine W F)
      → (due id next_after now e).0.0 ≡ true
      → already_triggered id (next_after (now - minute)) (due id next_after now e).1 ≡ true
  unfolding due
  due-taken id next_after now e h = ground (arith, already-mark id (next_after (now - minute)) e)

  due-known :
      (id : String) (next_after : ℕ → ℕ) (now : ℕ) (e : Engine W F)
      → already_triggered id (next_after (now - minute)) e ≡ true
      → ((due id next_after now e).0.0 ≡ false) × ((due id next_after now e).1 ≡ e)
  unfolding due
  due-known id next_after now e h = ground arith

module _ {W F : Type 0} where
  due-once :
      (id : String) (next_after : ℕ → ℕ) (now later : ℕ) (e f : Engine W F)
      → (due id next_after now e).0.0 ≡ true
      → lookup id f.last_trigger ≡ lookup id (due id next_after now e).1.last_trigger
      → next_after (later - minute) ≡ next_after (now - minute)
      → ((due id next_after later f).0.0 ≡ false) × ((due id next_after later f).1 ≡ f)
  due-once id next_after now later e f matched kept same = due-known id next_after later f (
      ap (λ t. already_triggered id t f) same
      ∙ already_triggered-same id (next_after (now - minute)) (due id next_after now e).1 f kept
      ∙ due-taken id next_after now e matched)

module _ {F : Type 0} (R : Readers F) where
  -- A policy with a schedule, once its condition and its schedule are read.
  pub record IsScheduled (p : Policy) (next_after : ℕ → ℕ) : Type 0 where
    pub mode : String
    pub expression : String
    pub mode_read : R.mode_of p.condition_expression ≡ ok mode
    pub is_cron : to_lower (trim_space mode) ≡ "cron"
    pub condition_read : R.schedule_condition p.condition_expression ≡ ok expression
    pub schedule_read : R.schedule expression ≡ ok next_after

module _ {W F : Type 0} ⦃T : Formats⦄ ⦃N : Floats F⦄ ⦃R : Readers F⦄ ⦃B : Backends W F⦄ where
  evaluate_condition-scheduled :
      (p : Policy) (next_after : ℕ → ℕ) (e : Engine W F)
      → IsScheduled R p next_after
      → evaluate_condition p e
        ≡ due p.id next_after (B.now e.world).0 (record e { world = (B.now e.world).1 })
  unfolding evaluate_condition
  evaluate_condition-scheduled p next_after e c =
      rw (c.mode_read, c.is_cron, c.condition_read, c.schedule_read) refl

  -- After an evaluation that matched, one with the same mark and the same activation does not match.
  pub evaluate_condition-taken :
      (p : Policy) (next_after : ℕ → ℕ) (e f : Engine W F)
      → IsScheduled R p next_after
      → (evaluate_condition p e).0.0 ≡ true
      → lookup p.id f.last_trigger ≡ lookup p.id (evaluate_condition p e).1.last_trigger
      → next_after ((B.now f.world).0 - minute) ≡ next_after ((B.now e.world).0 - minute)
      → ((evaluate_condition p f).0.0 ≡ false)
        × ((evaluate_condition p f).1 ≡ record f { world = (B.now f.world).1 })
  evaluate_condition-taken p next_after e f c matched kept same =
      let first = evaluate_condition-scheduled p next_after e c in
      rw (evaluate_condition-scheduled p next_after f c) (
        due-once p.id next_after (B.now e.world).0 (B.now f.world).0
          (record e { world = (B.now e.world).1 }) (record f { world = (B.now f.world).1 })
          (subst (λ r. r.0.0 ≡ true) first matched)
          (subst (λ r. lookup p.id f.last_trigger ≡ lookup p.id r.1.last_trigger) first kept) same)

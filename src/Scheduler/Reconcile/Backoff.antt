-- ===== src/Scheduler/Reconcile/Backoff.antt =====
-- persys-scheduler/internal/scheduler/reconciler.go: bounds of the pause between two applies.
use native.Mathlib.Nat.{one-le-pow}
use persys_cloud.Prelude.{to_float64-small, ℕ, ◌-◌, ◌*◌, ◌^◌, ◌≤◌, ◌<◌, ◌≡◌, arith}
use persys_cloud.Scheduler.Models.{Workload}
use persys_cloud.Scheduler.Agent.{Config}
use persys_cloud.Scheduler.Agent.Ports.{Platform}
use persys_cloud.Scheduler.Reconcile.{
  missing_grace_period, max_reapply_backoff, base_reapply_backoff, effective_attempt,
  reapply_backoff,
}

-- A float64 of an integer of at most 53 bits, times a power of 2, is converted to itself where an int64
-- holds it.
abbrev pub ConvertsExactly : Platform → Type 0
ConvertsExactly P =
    (x k : ℕ) → x < 2 ^ 53 → x * 2 ^ k < 2 ^ 63 → P.float_duration (x * 2 ^ k) ≡ x * 2 ^ k

power_pos : (n : ℕ) → 1 ≤ 2 ^ n
power_pos n = one-le-pow n 2 (omega arith)

module _ {F : Type 0} ⦃C : Config⦄ where
  base_reapply_backoff-ge : (w : Workload F) → missing_grace_period ≤ base_reapply_backoff w
  unfolding base_reapply_backoff
  base_reapply_backoff-ge w = ground arith

module _ {F : Type 0} ⦃C : Config⦄ ⦃P : Platform⦄ where
  -- Where the conversion to int64 keeps a float64 that is an integer of at most 53 bits times a power of 2,
  -- as long as an int64 holds it: the pause before another apply is at least fifteen seconds and at most
  -- fifteen minutes, for a base of at most 53 bits whose doubled pause is a number of nanoseconds that an
  -- int64 holds.
  pub reapply_backoff_bounds :
      ConvertsExactly P
      → (w : Workload F) (attempt : ℕ) → base_reapply_backoff w < 2 ^ 53
      → base_reapply_backoff w * 2 ^ (effective_attempt attempt - 1) < 2 ^ 63
      → (missing_grace_period ≤ reapply_backoff (base_reapply_backoff w) attempt)
        × (reapply_backoff (base_reapply_backoff w) attempt ≤ max_reapply_backoff)
  unfolding reapply_backoff
  reapply_backoff_bounds exact w attempt narrow small =
      let base = base_reapply_backoff w in
      let doublings = effective_attempt attempt - 1 in
      let grown : base ≤ base * 2 ^ doublings = grind (arith, power_pos doublings) in
      rw (to_float64-small base narrow, exact base doublings narrow small)
        (ground (arith, base_reapply_backoff-ge w, grown))

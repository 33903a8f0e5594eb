-- ===== src/Prelude/Float.antt =====
-- Go's conversion of an integer to float64: 53 significant bits, and of two nearest values the even one.
use Prim.Native.Nat.{ℕ, zero, suc, ◌+◌, ◌*◌, ◌/◌, ◌%◌, ◌^◌, ◌<◌}
use mathlib.Core.Path.{◌≡◌}
use mathlib.Core.Bool.{◌&&◌, ◌||◌}
use native.Mathlib.Omega.{arith}
use persys_cloud.Prelude.Tests.{ltb, nat_eq, if◌then◌else◌}

-- The distance of float64 values about an integer: `u`, doubled while the integer has more than 53 bits of
-- it. Eleven doublings are enough below 2 ^ 64.
float_gap : ℕ → ℕ → ℕ → ℕ
float_gap zero u n = u
float_gap (suc fuel) u n =
    let wider = float_gap fuel (2 * u) n in if ltb n (2 ^ 53 * u) then u else wider

-- The multiple of `u` nearest to an integer.
nearest_multiple : ℕ → ℕ → ℕ
nearest_multiple u n =
    let up = ltb u (2 * (n % u)) || (nat_eq (2 * (n % u)) u && nat_eq (n / u % 2) 1) in
    if up then (n / u + 1) * u else n / u * u

unfoldable pub to_float64 : ℕ → ℕ
unfolding float_gap nearest_multiple
to_float64 n = nearest_multiple (float_gap 11 1 n) n

float_gap-narrow : (fuel n : ℕ) → n < 2 ^ 53 → float_gap (suc fuel) 1 n ≡ 1
unfolding float_gap
float_gap-narrow fuel n h = ground arith

nearest_multiple-one : (n : ℕ) → nearest_multiple 1 n ≡ n
unfolding nearest_multiple
nearest_multiple-one n = ground arith

-- An integer of at most 53 bits is a float64.
pub to_float64-small : (n : ℕ) → n < 2 ^ 53 → to_float64 n ≡ n
unfolding to_float64
to_float64-small n h = rw (float_gap-narrow 10 n h) (nearest_multiple-one n)

-- ===== src/Scheduler/Retry/Backoff.antt =====
-- workload_control.go: retryBackoff against its closed form, and when its int64 wraps.
use persys_cloud.Prelude.{
  ℕ, zero, suc, ◌+◌, ◌-◌, ◌*◌, ◌%◌, ◌^◌, ◌≤◌, ◌<◌, ◌≡◌, refl, ltb, if◌then◌else◌, arith,
}
use persys_cloud.Scheduler.Retry.{second, two_minutes, word, doubled, retry_backoff, add_duration}

-- Doubling without the wrap.
unfoldable pub times_power : ℕ → ℕ → ℕ
times_power zero d = d
times_power (suc n) d = times_power n (d * 2)

times_power-le : (n d : ℕ) → d ≤ times_power n d
unfolding times_power
times_power-le zero d = omega arith
times_power-le (suc n) d = grind (arith, times_power-le n (d * 2))

-- Below 2^64 nothing wraps.
doubled-times_power : (n d : ℕ) → times_power n d < word → doubled n d ≡ times_power n d
unfolding times_power doubled
doubled-times_power zero d h = refl
doubled-times_power (suc n) d h =
    let no_wrap : d * 2 % word ≡ d * 2 = omega (arith, times_power-le n (d * 2)) in
    rw no_wrap (doubled-times_power n (d * 2) h)

times_power_mono : (n m d : ℕ) → n ≤ m → times_power n d ≤ times_power m d
unfolding times_power
times_power_mono zero m d h = times_power-le m d
times_power_mono (suc n) zero d h = absurd (omega arith)
times_power_mono (suc n) (suc m) d h = times_power_mono n m (d * 2) (omega arith)

-- Thirty doublings of five seconds stay below 2^63 nanoseconds.
times_power-lt : (n : ℕ) → n ≤ 30 → times_power n (5 * second) < 2 ^ 63
times_power-lt n h =
    let top : times_power 30 (5 * second) ≡ 5368709120000000000 = unfold times_power in refl in
    omega (arith, top, times_power_mono n 30 (5 * second) h)

-- Up to 33 attempts, the wait before the next one is nothing below the third attempt; from there on
-- it is five seconds doubled with every further attempt, at most two minutes.
pub retry_backoff-times_power :
    (n : ℕ)
    → n ≤ 33
    → retry_backoff n ≡ (
        if ltb n 3
        then 0
        else if ltb two_minutes (times_power (n - 3) (5 * second))
        then two_minutes
        else times_power (n - 3) (5 * second))
unfolding retry_backoff
retry_backoff-times_power n h =
    let small = times_power-lt (n - 3) (omega arith) in
    rw (doubled-times_power (n - 3) (5 * second) (omega (arith, small))) (ground (arith, small))

-- The same wait is at most two minutes, so that the next attempt is neither before now nor later.
pub retry_backoff_bounds :
    (n now : ℕ)
    → n ≤ 33
    → now ≤ add_duration now (retry_backoff n)
      × add_duration now (retry_backoff n) ≤ now + two_minutes
unfolding add_duration
retry_backoff_bounds n now h = rw (retry_backoff-times_power n h) (
  ground (arith, times_power-lt (n - 3) (omega arith)),
  ground (arith, times_power-lt (n - 3) (omega arith)),
)

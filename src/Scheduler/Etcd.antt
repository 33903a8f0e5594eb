-- ===== src/Scheduler/Etcd.antt =====
-- persys-scheduler/internal/scheduler/etcd.go: etcd calls with retries. The sleeps between attempts
-- are left out. A write that fails on every attempt freezes the control plane.
pub mod Retries
use persys_cloud.Prelude.{
  ℕ, zero, suc, String, Bool, true, false, List, [], ◌∷◌, Option, none, some, Result, ok, err,
  if◌then◌else◌, ◌==◌,
}
use persys_cloud.Text.{concat}
use persys_cloud.Scheduler.Models.{Value}
use persys_cloud.Scheduler.Services.{Services, Scheduler, Act, direct, pure, fail, try, ◌>>=◌, ◌>>◌}
use persys_cloud.Scheduler.Mode.{require_writable, enter_degraded}

-- Attempts after the first (maxRetries).
abbrev pub max_retries : ℕ
max_retries = 5

module _ {W A : Type 0} where
  -- Up to `n` further attempts after the answer `r`; the first success ends the loop.
  unfoldable pub attempts : ℕ → (W → Result A × W) → Result A × W → Result A × W
  attempts n call (ok a, w) = (ok a, w)
  attempts zero call (err e, w) = (err e, w)
  attempts (suc n) call (err e, w) = attempts n call (call w)

  unfoldable pub retried : (W → Result A × W) → W → Result A × W
  unfolding attempts
  retried call w = attempts max_retries call (call w)

module _ {W F : Type 0} ⦃V : Services W F⦄ where
  unfoldable pub or_freeze : String → String → String → Result (Unit {0}) → Act W F (Unit {0})
  or_freeze verb noun key (ok u) = pure tt
  or_freeze verb noun key (err e) =
      enter_degraded (concat ("etcd " ∷ noun ∷ " failure key=" ∷ key ∷ ": " ∷ e ∷ []))
      >> fail (concat ("failed to " ∷ verb ∷ " key " ∷ key ∷ " after 6 attempts: " ∷ e ∷ []))

  unfoldable pub retryable_etcd_put : String → Value F → Act W F (Unit {0})
  unfolding or_freeze
  retryable_etcd_put key value =
      require_writable
      >> (try (direct (retried (V.etcd_put key value))) >>= or_freeze "put" "write" key)

  unfoldable pub retryable_etcd_delete : String → Act W F (Unit {0})
  unfolding or_freeze
  retryable_etcd_delete key =
      require_writable
      >> (try (direct (retried (V.etcd_delete key))) >>= or_freeze "delete" "delete" key)

module _ {W F A : Type 0} ⦃V : Services W F⦄ where
  -- The loop's `err` hides the outer one, which stays nil: the messages print `<nil>`.
  unfoldable pub or_degrade : String → Result A → Act W F A
  or_degrade key (ok a) = pure a
  or_degrade key (err e) =
      enter_degraded (concat ("etcd read failure key=" ∷ key ∷ ": <nil>" ∷ []))
      >> fail (concat ("failed to get key " ∷ key ∷ " after 6 attempts: <nil>" ∷ []))

  unfoldable pub retryable_get : String → (W → Result A × W) → Act W F A
  unfolding or_degrade
  retryable_get key call = try (direct (retried call)) >>= or_degrade key

module _ {W F : Type 0} ⦃V : Services W F⦄ where
  -- `RetryableEtcdGet(key)` and `RetryableEtcdGet(prefix, WithPrefix())`
  unfoldable pub retryable_etcd_get : String → Act W F (Option (Value F))
  unfolding retryable_get
  retryable_etcd_get key = retryable_get key (V.etcd_get key)

  unfoldable pub retryable_etcd_list : String → Act W F (List (String × Value F))
  unfolding retryable_get
  retryable_etcd_list prefix = retryable_get prefix (V.etcd_list prefix)

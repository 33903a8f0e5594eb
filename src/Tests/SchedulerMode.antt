-- ===== src/Tests/SchedulerMode.antt =====
-- The operating mode and etcd's retries on a small world.
use persys_cloud.Prelude.{ℕ, zero, suc, ◌≡◌, refl, true, [], ◌∷◌, Result, ok, err, arith}
use persys_cloud.Scheduler.Models.{text_value}
use persys_cloud.Scheduler.Services.{Scheduler, ◌>>=◌, degraded}
use persys_cloud.Scheduler.Mode.{
  evaluate_mode, is_writable, ping_etcd, after_ping, etcd_has_state, any_state, settle_mode,
  enter_normal,
}
use persys_cloud.Scheduler.Mode.Thaw.{is_ok, ListsKey, evaluate_mode-thaw}
use persys_cloud.Scheduler.Mode.Snapshot.{HasSnapshot, evaluate_mode-HasSnapshot}
use persys_cloud.Scheduler.Etcd.{retryable_etcd_put, retried}
use persys_cloud.Scheduler.Etcd.Retries.{
  Written, retryable_etcd_put-Written, retried-first, retried-exhausted, Failed,
}
use persys_cloud.Tests.World.{World, services, scheduler}

abbrev empty_world : World
empty_world = record { store = []; clock = 100; faults = [] }

-- Etcd does not answer the ping.
abbrev unreachable : World
unreachable = record { store = []; clock = 100; faults = true ∷ [] }

evaluate_mode-HasSnapshot_example : HasSnapshot (evaluate_mode (scheduler unreachable)).1
evaluate_mode-HasSnapshot_example = evaluate_mode-HasSnapshot {F = ℕ} (scheduler unreachable) refl

retryable_etcd_put-Written_example :
    Written
      (scheduler empty_world)
      (retryable_etcd_put "/nodes/n1/status" (text_value "Ready") (scheduler empty_world))
retryable_etcd_put-Written_example =
    retryable_etcd_put-Written "/nodes/n1/status" (text_value "Ready") (scheduler empty_world)

-- A degraded scheduler, and an etcd that holds a node again.
abbrev back_up : World
back_up = record { store = ("/nodes/n1", text_value "x") ∷ []; clock = 100; faults = [] }

abbrev frozen_scheduler : Scheduler World ℕ
frozen_scheduler = record (scheduler back_up) { mode = degraded }

evaluate_mode-thaw_example :
    (is_ok (services.etcd_get "/health" back_up).0 ≡ true)
    × ListsKey services
        ("/nodes/" ∷ "/workloads/" ∷ "/assignments/" ∷ [])
        (services.etcd_get "/health" back_up).1
unfolding is_writable evaluate_mode ping_etcd after_ping etcd_has_state any_state settle_mode
    enter_normal ◌>>=◌ services
evaluate_mode-thaw_example = evaluate_mode-thaw frozen_scheduler refl refl

-- A call that fails while the number is small, and counts up.
abbrev third : ℕ → Result ℕ × ℕ
third zero = (err "down", 1)
third (suc zero) = (err "down", 2)
third (suc (suc n)) = (ok n, suc (suc n))

retried-first_example : retried third 0 ≡ (ok 0, 2)
retried-first_example = retried-first third 0 2 0 2 (omega arith) (tt, (tt, tt)) refl

-- A call that always fails.
abbrev never : ℕ → Result ℕ × ℕ
never n = (err "down", suc n)

retried-exhausted_example : Failed (retried never 0).0 × ((retried never 0).1 ≡ 6)
retried-exhausted_example = retried-exhausted never 0 (tt, (tt, (tt, (tt, (tt, (tt, tt))))))

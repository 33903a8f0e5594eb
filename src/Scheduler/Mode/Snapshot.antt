-- ===== src/Scheduler/Mode/Snapshot.antt =====
-- mode.go: the frozen snapshot that is served while the control plane may not write.
use persys_cloud.Prelude.{
  String, ◌≡◌, Bool, true, false, not, List, [], ◌∷◌, Option, Result, ok, err, is_some, arith,
}
use persys_cloud.Scheduler.Models.{Value}
use persys_cloud.Scheduler.Services.{Services, normal, Scheduler, ◌>>=◌}
use persys_cloud.Scheduler.Keeps.{
  Keeps, Keeps-try, Keeps-bind, Keeps-pure, Keeps-if, Keeps-branch, Keeps-direct,
}
use persys_cloud.Scheduler.Mode.{
  mode_eq, enter_degraded, enter_recovery, enter_normal, ping_etcd, any_state, etcd_has_state,
  settle_mode, after_ping, evaluate_mode,
}

module _ {W F : Type 0} where
  -- A snapshot is there just while the control plane is frozen.
  abbrev pub HasSnapshot : Scheduler W F → Type 0
  HasSnapshot s = is_some s.frozen ≡ not (mode_eq s.mode normal)

module _ {W F : Type 0} ⦃V : Services W F⦄ where
  pub enter_degraded-HasSnapshot :
      (reason : String) → Keeps {W = W} {F = F} HasSnapshot (enter_degraded reason)
  unfolding ◌>>=◌ enter_degraded
  enter_degraded-HasSnapshot reason = record { at = λ s h. ground arith }

  enter_recovery-HasSnapshot :
      (reason : String) → Keeps {W = W} {F = F} HasSnapshot (enter_recovery reason)
  unfolding ◌>>=◌ enter_recovery
  enter_recovery-HasSnapshot reason = record { at = λ s h. ground arith }

  enter_normal-HasSnapshot :
      (reason : String) → Keeps {W = W} {F = F} HasSnapshot (enter_normal reason)
  unfolding ◌>>=◌ enter_normal
  enter_normal-HasSnapshot reason = record { at = λ s h. ground arith }

  settle_mode-HasSnapshot : (r : Result Bool) → Keeps {W = W} {F = F} HasSnapshot (settle_mode r)
  unfolding settle_mode
  settle_mode-HasSnapshot (err e) = enter_degraded-HasSnapshot _
  settle_mode-HasSnapshot (ok true) = enter_normal-HasSnapshot _
  settle_mode-HasSnapshot (ok false) = enter_recovery-HasSnapshot _

  any_state-HasSnapshot : (ps : List String) → Keeps {W = W} {F = F} HasSnapshot (any_state ps)
  unfolding any_state
  any_state-HasSnapshot [] = Keeps-pure false
  any_state-HasSnapshot (p ∷ ps) =
      Keeps-bind _ _ (Keeps-direct _ (λ s w h. h))
        (λ kvs. Keeps-if _ _ _ (any_state-HasSnapshot ps) (Keeps-pure true))

  after_ping-HasSnapshot :
      (r : Result (Option (Value F))) → Keeps {W = W} {F = F} HasSnapshot (after_ping r)
  unfolding after_ping etcd_has_state
  after_ping-HasSnapshot (err e) = enter_degraded-HasSnapshot _
  after_ping-HasSnapshot (ok v) = Keeps-branch _ _ _ (Keeps-pure tt) (
      Keeps-bind _ _
        (Keeps-try _ (any_state-HasSnapshot ("/nodes/" ∷ "/workloads/" ∷ "/assignments/" ∷ [])))
        settle_mode-HasSnapshot)

  evaluate_mode-Keeps : Keeps {W = W} {F = F} HasSnapshot evaluate_mode
  unfolding evaluate_mode ping_etcd
  evaluate_mode-Keeps =
      Keeps-bind _ _ (Keeps-try _ (Keeps-direct _ (λ s w h. h))) after_ping-HasSnapshot

  -- Where a snapshot is kept exactly while the control plane is frozen, it is so after a tick of the mode
  -- supervisor, whatever etcd answers.
  pub evaluate_mode-HasSnapshot :
      (s : Scheduler W F) → HasSnapshot s → HasSnapshot (evaluate_mode s).1
  evaluate_mode-HasSnapshot s h = evaluate_mode-Keeps.at s h

-- ===== src/Scheduler/Agent/Delete/Ends.antt =====
-- persys-scheduler/internal/scheduler/scheduler.go: the wait for an agent's deletion ends.
use native.Mathlib.Nat.{div-add-mod', mod-lt}
use persys_cloud.Prelude.{
  ℕ, zero, suc, ◌+◌, ◌*◌, ◌/◌, ◌≤◌, ◌<◌, String, ◌≡◌, refl, Bool, true, Option, Result, ok, err,
  ltb, inl, inr, Bool-cases, arith,
}
use persys_cloud.Scheduler.Models.{Node}
use persys_cloud.Scheduler.Services.{
  Formats, Services, Scheduler, Act, pure, call, ignore, direct, continue, ◌>>=◌, ◌>>◌,
}
use persys_cloud.Scheduler.Agent.Ports.{Platform}
use persys_cloud.Scheduler.Agent.{
  Agents, Config, WorkloadReport, dialled, grpc_address_for_node, agent_poll_interval,
  delete_timeout, get_workload_status_from_node, is_workload_status_not_found,
  is_node_unreachable_error,
}
use persys_cloud.Scheduler.Agent.Delete.{delete_rounds, unless_late, status_polled, await_deletion}

-- The clock never goes back, and a sleep takes its time.
pub record Passing {W F : Type 0} (V : Services W F) (A : Agents W F) : Type 0 where
  pub time : W → ℕ
  pub now_reads : (w : W) → (V.now w).0 ≡ time w
  pub now_passes : (w : W) → time w ≤ time (V.now w).1
  pub dial_passes : (address : String) (w : W) → time w ≤ time (A.dial address w).1
  pub status_passes :
      (address id : String) (w : W) → time w ≤ time (A.workload_status address id w).1
  pub sleep_passes : (d : ℕ) (w : W) → time w + d ≤ time (A.sleep d w).1

module _ ⦃C : Config⦄ where
  agent_poll_interval-pos : 0 < agent_poll_interval
  unfolding agent_poll_interval
  agent_poll_interval-pos = ground arith

below_next_multiple : (x p : ℕ) → 0 < p → x < (x / p + 1) * p
below_next_multiple x p h = grind (arith, div-add-mod' x p, mod-lt x h)

ignore-pure :
    {W F : Type 0} (m : Act W F (Unit {0})) (b : Bool) (s : Scheduler W F)
    → ((ignore m >> pure b) s).0 ≡ ok b
unfolding ◌>>=◌
ignore-pure m b s = refl

module _ {W F : Type 0} ⦃T : Formats⦄ ⦃P : Platform⦄ ⦃C : Config⦄ ⦃V : Services W F⦄
    ⦃A : Agents W F⦄ (R : Passing V A) where
  polled_from :
      (address id : String) (r : Result (Unit {0})) (s : Scheduler W F)
      → R.time s.world
        ≤ R.time (continue (λ u. direct (A.workload_status address id)) (r, s)).1.world
  unfolding ◌>>=◌
  polled_from address id (ok u) s = R.status_passes address id s.world
  polled_from address id (err e) s = omega arith

  polled_time :
      (n : Node F) (id : String) (s : Scheduler W F)
      → R.time s.world ≤ R.time (get_workload_status_from_node n id s).1.world
  unfolding get_workload_status_from_node ◌>>=◌
  polled_time n id s =
      let address = grpc_address_for_node n in
      omega (
        arith,
        R.dial_passes address s.world,
        polled_from address id (dialled n.node_id address (A.dial address s.world).0)
            (record s { world = (A.dial address s.world).1 }),
      )

  unless_late-ends :
      (again : Act W F Bool) (deadline : ℕ) (node id : String) (s : Scheduler W F)
      → (R.time s.world ≤ deadline → (again (record s { world = (V.now s.world).1 })).0 ≡ ok true)
      → (unless_late again deadline node id s).0 ≡ ok true
  unfolding unless_late ◌>>=◌
  unless_late-ends again deadline node id s h = elim (Bool-cases (ltb deadline (V.now s.world).0)) [
    | inl late ↦ rw late refl
    | inr early ↦ rw early (h (rw (← R.now_reads s.world) (ground arith)))
  ]

  status_polled-ends :
      (again : Act W F Bool) (deadline : ℕ) (node id : String) (s : Scheduler W F)
      (r : Result (Option WorkloadReport))
      → (R.time s.world ≤ deadline → (again (record s { world = (V.now s.world).1 })).0 ≡ ok true)
      → (status_polled again deadline node id r s).0 ≡ ok true
  unfolding status_polled ◌>>=◌
  status_polled-ends again deadline node id s (ok r) h = unless_late-ends again deadline node id s h
  status_polled-ends again deadline node id s (err e) h =
      elim (Bool-cases (is_workload_status_not_found e)) [
        | inl gone ↦ rw gone refl
        | inr there ↦ elim (Bool-cases (is_node_unreachable_error e)) [
          | inl lost ↦ rw (there, lost) refl
          | inr answers ↦ rw (there, answers) (unless_late-ends again deadline node id s h)
        ]
      ]

  await_deletion-ends :
      (f deadline : ℕ) (n : Node F) (id : String) (s : Scheduler W F)
      → deadline < R.time s.world + f * agent_poll_interval
      → (await_deletion (suc f) deadline n id s).0 ≡ ok true
  unfolding await_deletion ◌>>=◌
  await_deletion-ends zero deadline n id s h =
      status_polled-ends (call (A.sleep agent_poll_interval) >> await_deletion 0 deadline n id)
        deadline n.node_id id (get_workload_status_from_node n id s).1
        (get_workload_status_from_node n id s).0
        (λ early. absurd (omega (arith, polled_time n id s)))
  await_deletion-ends (suc f) deadline n id s h =
      let polled = (get_workload_status_from_node n id s).1 in
      let read = (V.now polled.world).1 in
      status_polled-ends
        (call (A.sleep agent_poll_interval) >> await_deletion (suc f) deadline n id) deadline
        n.node_id id polled (get_workload_status_from_node n id s).0
        (λ early.
          await_deletion-ends f deadline n id
            (record polled { world = (A.sleep agent_poll_interval read).1 })
            (omega (
              arith,
              polled_time n id s,
              R.now_passes polled.world,
              R.sleep_passes agent_poll_interval read,
            )))

  -- Where the clock goes on and a sleep takes its time, the wait for an agent to delete a workload ends
  -- within its rounds, for every answer of the agent: a deadline of the delete timeout from now is enough.
  pub await_deletion_terminates :
      (n : Node F) (id : String) (s : Scheduler W F)
      → (await_deletion delete_rounds (R.time s.world + delete_timeout) n id s).0 ≡ ok true
  unfolding delete_rounds
  await_deletion_terminates n id s =
      await_deletion-ends (delete_timeout / agent_poll_interval + 1)
        (R.time s.world + delete_timeout) n id s
        (omega
          (arith, below_next_multiple delete_timeout agent_poll_interval agent_poll_interval-pos))

-- ===== src/Scheduler/Drift/Orphan/Safe.antt =====
-- persys-scheduler/internal/scheduler/drift.go: when a workload that the scheduler knows is deleted on a
-- node that reports it.
use persys_cloud.Prelude.{
  String, ◌≡◌, ◌⊎◌, refl, ap, Bool, true, false, ◌||◌, if◌then◌else◌, Option, none, some, Result,
  ok, err, inl, inr, Bool-cases, ◌==◌,
}
use persys_cloud.Text.{trim_space, equal_fold}
use persys_cloud.Scheduler.Models.{Node, Workload}
use persys_cloud.Scheduler.Services.{Formats, Services, Scheduler, pure, continue, ◌>>=◌}
use persys_cloud.Scheduler.Nodes.Reads.{get_node_by_id}
use persys_cloud.Scheduler.Agent.Ports.{Platform}
use persys_cloud.Scheduler.Agent.{
  Agents, WorkloadReport, grpc_address_for_node, get_workload_status_from_node,
  is_workload_status_not_found, is_node_unreachable_error,
}
use persys_cloud.Scheduler.Drift.{same_endpoint, is_node_likely_unavailable}
use persys_cloud.Scheduler.Drift.Orphan.{
  Plan, delete_residual, delete_duplicate, adopt, investigate, wants_deletion, owner_answered,
  owner_read, plan_known,
}

-- A node's answer reports the workload.
unfoldable pub reports : Result (Option WorkloadReport) → Bool
reports (ok (some r)) = true
reports (ok none) = false
reports (err e) = false

-- A plan that fits whether the owner reports the workload.
abbrev Fits : Bool → Result Plan → Type 0
Fits b (err e) = Unit
Fits b (ok delete_residual) = ⊥
Fits b (ok delete_duplicate) = b ≡ true
Fits b (ok (adopt action reason)) = b ≡ false
Fits b (ok (investigate e)) = b ≡ false

module _ {W F : Type 0} ⦃T : Formats⦄ ⦃P : Platform⦄ ⦃V : Services W F⦄ ⦃A : Agents W F⦄ where
  -- The node that a workload is assigned to is known, has another address than the node, and has just been
  -- asked for the workload; it reports it, or it does not.
  abbrev pub Owner : Bool → Node F → String → Workload F → Scheduler W F → Type 0
  Owner b n id w s =
      (owner : Node F) × (t : Scheduler W F) × (get_node_by_id (trim_space w.node_id) s
        ≡ (ok owner, t))
      × (same_endpoint (grpc_address_for_node owner) (grpc_address_for_node n) ≡ false)
      × (reports (get_workload_status_from_node owner id t).0 ≡ b)

  -- The assignment names no other node: it is empty, or names the node itself, or a node that is not found,
  -- or one with the same address.
  abbrev pub Unassigned : Node F → Workload F → Scheduler W F → Type 0
  Unassigned n w s =
      ((trim_space w.node_id == "" || equal_fold (trim_space w.node_id) n.node_id) ≡ true)
      ⊎ ((e : String) × ((get_node_by_id (trim_space w.node_id) s).0 ≡ err e))
      ⊎ ((owner : Node F) × ((get_node_by_id (trim_space w.node_id) s).0 ≡ ok owner)
          × (same_endpoint (grpc_address_for_node owner) (grpc_address_for_node n) ≡ true))

  -- What has to be so for a plan, in the state that it is made in.
  abbrev pub Justified : Node F → String → Workload F → Scheduler W F → Result Plan → Type 0
  Justified n id w s (err e) = Unit
  Justified n id w s (ok delete_residual) = wants_deletion w ≡ true
  Justified n id w s (ok delete_duplicate) = (wants_deletion w ≡ false) × Owner true n id w s
  Justified n id w s (ok (adopt action reason)) =
      (wants_deletion w ≡ false) × (Unassigned n w s ⊎ Owner false n id w s)
  Justified n id w s (ok (investigate e)) = (wants_deletion w ≡ false) × Owner false n id w s

  owner_answered-Fits :
      (owner : Node F) (r : Result (Option WorkloadReport)) (s : Scheduler W F)
      → Fits (reports r) (owner_answered owner r s).0
  unfolding owner_answered reports ◌>>=◌
  owner_answered-Fits owner (ok (some r)) s = refl
  owner_answered-Fits owner (ok none) s = refl
  owner_answered-Fits owner (err e) s = elim (Bool-cases (is_workload_status_not_found e)) [
    | inl gone ↦ rw gone refl
    | inr there ↦ elim (Bool-cases (is_node_unreachable_error e)) [
      | inl lost ↦ rw (there, lost) (looked _ _ _ (is_node_likely_unavailable owner s))
      | inr answers ↦ rw (there, answers) refl
    ]
  ]
    where
      looked :
          (a b c : String) (x : Result Bool × Scheduler W F)
          → Fits false (continue (λ l. pure (if l then adopt a b else investigate c)) x).0
      looked a b c (ok true, t) = refl
      looked a b c (ok false, t) = refl
      looked a b c (err m, t) = tt

  from_answer :
      (n : Node F) (id : String) (w : Workload F) (s : Scheduler W F) (r : Bool) (p : Result Plan)
      → wants_deletion w ≡ false
      → Owner r n id w s
      → Fits r p
      → Justified n id w s p
  from_answer n id w s true (err e) kept o h = tt
  from_answer n id w s false (err e) kept o h = tt
  from_answer n id w s true (ok delete_duplicate) kept o h = (kept, o)
  from_answer n id w s false (ok (adopt action reason)) kept o h = (kept, inr o)
  from_answer n id w s false (ok (investigate e)) kept o h = (kept, o)
  from_answer n id w s b (ok delete_residual) kept o h = absurd h
  from_answer n id w s false (ok delete_duplicate) kept o h = absurd (cc h)
  from_answer n id w s true (ok (adopt action reason)) kept o h = absurd (cc h)
  from_answer n id w s true (ok (investigate e)) kept o h = absurd (cc h)

  owner_read-Justified :
      (n : Node F) (id : String) (w : Workload F) (s : Scheduler W F)
      (x : Result (Node F) × Scheduler W F)
      → wants_deletion w ≡ false
      → get_node_by_id (trim_space w.node_id) s ≡ x
      → Justified n id w s (owner_read n id x.0 x.1).0
  unfolding owner_read ◌>>=◌
  owner_read-Justified n id w s (err e, t) kept read =
      (kept, inl (inr (inl (e, ap (λ y. y.0) read))))
  owner_read-Justified n id w s (ok owner, t) kept read =
      elim (Bool-cases (same_endpoint (grpc_address_for_node owner) (grpc_address_for_node n))) [
        | inl same ↦ rw same (kept, inl (inr (inr (owner, ap (λ y. y.0) read, same))))
        | inr other ↦
            let asked = get_workload_status_from_node owner id t in
            rw other (
              from_answer n id w s (reports asked.0) _ kept (owner, t, read, other, refl)
                (owner_answered-Fits owner asked.0 asked.1))
      ]

  -- The plan for a workload that the scheduler knows and that a node reports though it is not expected there
  -- is justified. It is deleted there only if it is to be deleted, or if the node that it is assigned to,
  -- at another address, has just reported it too. It is bound to the node only if it is wanted and its
  -- assignment names no other known node, or that node does not report it; and it is left to an operator
  -- only if it is wanted and that node did not report it.
  pub plan_known-Justified :
      (n : Node F) (id : String) (w : Workload F) (s : Scheduler W F)
      → Justified n id w s (plan_known n id w s).0
  unfolding plan_known ◌>>=◌
  plan_known-Justified n id w s = elim (Bool-cases (wants_deletion w)) [
    | inl e ↦ rw e e
    | inr kept ↦
        elim (Bool-cases
          (trim_space w.node_id == "" || equal_fold (trim_space w.node_id) n.node_id)) [
            | inl e ↦ rw (kept, e) (kept, inl (inl e))
            | inr elsewhere ↦
                rw (kept, elsewhere)
                  (owner_read-Justified n id w s (get_node_by_id (trim_space w.node_id) s) kept
                    refl)
          ]
  ]

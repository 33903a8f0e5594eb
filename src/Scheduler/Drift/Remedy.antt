-- ===== src/Scheduler/Drift/Remedy.antt =====
-- persys-scheduler/internal/scheduler/drift.go: what is done about a drift of a workload that is on its
-- node, and compareNodeDrift and detectDriftOnce.
use persys_cloud.Prelude.{
  String, Bool, true, false, not, ◌&&◌, ◌||◌, List, [], ◌∷◌, Option, none, some, Result, ok, err,
  if◌then◌else◌, is_some, Assoc, lookup, put, ◌==◌,
}
use persys_cloud.Text.{concat, trim_space, to_lower, equal_fold}
use persys_cloud.Scheduler.Models.{Node, Workload}
use persys_cloud.Scheduler.Services.{
  Formats, Floats, Services, Act, pure, fail, call, try, ignore, ◌>>=◌, ◌>>◌,
}
use persys_cloud.Scheduler.Mode.{require_writable}
use persys_cloud.Scheduler.Store.Reads.{get_workloads}
use persys_cloud.Scheduler.Workloads.{
  update_workload_status, update_workload_logs, update_workload_retry_on_failure,
}
use persys_cloud.Scheduler.Nodes.Reads.{get_nodes}
use persys_cloud.Scheduler.Agent.Ports.{Platform}
use persys_cloud.Scheduler.Agent.{
  Agents, Config, WorkloadReport, ApplyResponse, scheduler_status, apply_workload_on_node,
  list_workloads_from_node, grpc_address_for_node,
}
use persys_cloud.Scheduler.Reconcile.Cycle.{Outcome, reconcile_workload}
use persys_cloud.Scheduler.Drift.{fresher, drift_probe_eligible, mark_drift}
use persys_cloud.Scheduler.Drift.Orphan.{remediate_orphan_on_agent}

module _ {A : Type 0} where
  -- Whether there was no error, and its text.
  abbrev succeeded : Result A → Bool
  succeeded (ok a) = true
  succeeded (err e) = false

  abbrev err_string : Result A → String
  err_string (ok a) = ""
  err_string (err e) = e

-- The agent's list by id; a blank id is left out, and the last of several stays.
unfoldable pub reports_by_id : List WorkloadReport → Assoc WorkloadReport → Assoc WorkloadReport
reports_by_id [] m = m
reports_by_id (r ∷ rs) m = reports_by_id rs (if trim_space r.id == "" then m else put r.id r m)

module _ {F : Type 0} where
  unfoldable pub status_drifted : Workload F → WorkloadReport → Bool
  status_drifted w r =
      let expected = to_lower (trim_space w.status) in
      not (expected == "") && not (expected == to_lower (scheduler_status r.actual_state))

  unfoldable pub revision_drifted : Workload F → WorkloadReport → Bool
  revision_drifted w r =
      let wanted = trim_space w.revision_id in
      let reported = trim_space r.revision_id in
      not (wanted == "") && not (reported == "") && not (equal_fold wanted reported)

  owner_text : Option (Workload F) → String
  owner_text none = ""
  owner_text (some w) = trim_space w.node_id

  -- The workload has another owner by now.
  unfoldable pub rebound : String → String → Assoc (Workload F) → Bool
  unfolding owner_text
  rebound node id all =
      let owner = owner_text (lookup id all) in not (owner == "") && not (equal_fold owner node)

  unfoldable pub by_id : List (Workload F) → Assoc (Workload F) → Assoc (Workload F)
  by_id [] m = m
  by_id (w ∷ ws) m = by_id ws (put w.id w m)

  unfoldable pub of_node : String → List (Workload F) → Assoc (Workload F) → Assoc (Workload F)
  of_node node [] m = m
  of_node node (w ∷ ws) m =
      of_node node ws
        (let on = trim_space w.node_id in if not (on == "") && on == node then put w.id w m else m)

module _ {F : Type 0} ⦃T : Formats⦄ where
  -- One node for each endpoint.
  unfoldable pub selected_nodes : List (Node F) → Assoc (Node F) → Assoc (Node F)
  selected_nodes [] m = m
  selected_nodes (n ∷ ns) m =
      let endpoint = grpc_address_for_node n in
      selected_nodes ns
        (if endpoint == "" then m else put endpoint (fresher n (lookup endpoint m)) m)

module _ {W F : Type 0} ⦃T : Formats⦄ ⦃N : Floats F⦄ ⦃P : Platform⦄ ⦃C : Config⦄ ⦃V : Services W F⦄
    ⦃A : Agents W F⦄ where
  unfoldable pub remediate_state_mismatch : Workload F → WorkloadReport → Act W F (Unit {0})
  remediate_state_mismatch w r = do
    require_writable
    let actual = scheduler_status r.actual_state
    update_workload_status w.id actual
    ignore (
        update_workload_logs w.id
          (concat ("drift remediation: aligned scheduler state to agent state=" ∷ actual ∷ [])))

  refused : String → String → Act W F (Unit {0})
  refused id message = ignore (update_workload_retry_on_failure id message) >> fail message

  revision_applied : String → Result (Option ApplyResponse) → Act W F (Unit {0})
  unfolding refused
  revision_applied id (err e) =
      ignore (
        update_workload_retry_on_failure id
          (concat ("drift revision mismatch apply failed: " ∷ e ∷ [])))
      >> fail e
  revision_applied id (ok none) = refused id "agent rejected apply during drift remediation"
  revision_applied id (ok (some r)) =
      if not r.applied && not r.skipped
      then refused id (
          if trim_space r.message == ""
          then "agent rejected apply during drift remediation"
          else r.message)
      else ignore
          (update_workload_logs id "drift remediation: re-applied scheduler revision on agent")

  unfoldable pub remediate_revision_mismatch : Node F → Workload F → Act W F (Unit {0})
  unfolding revision_applied
  remediate_revision_mismatch n w =
      require_writable >> (try (apply_workload_on_node n w) >>= revision_applied w.id)

  reconciled : Outcome → Act W F (Unit {0})
  reconciled (r, none) = pure tt
  reconciled (r, some e) = fail e

  unfoldable pub remediate_missing_on_agent : Workload F → Act W F (Unit {0})
  unfolding reconciled
  remediate_missing_on_agent w =
      require_writable
      >> ignore (update_workload_retry_on_failure w.id "drift: workload missing on agent")
      >> reconcile_workload w
      >>= reconciled

  -- A drift of a workload recorded, with what was done about it.
  recorded :
      Node F → String → String → String → String → String → Result (Unit {0}) → Act W F (Unit {0})
  recorded n id drift scheduler_text agent_text done r = call V.now >>= λ now. mark_drift (record {
    node_id = n.node_id;
    workload_id = id;
    drift_type = drift;
    detected_at = now;
    scheduler_status = scheduler_text;
    agent_status = agent_text;
    action = done;
    resolved = succeeded r;
    last_error = err_string r;
  })

  state_step : Node F → Workload F → WorkloadReport → Act W F (Unit {0})
  unfolding recorded
  state_step n w r =
      if status_drifted w r
      then (try (remediate_state_mismatch w r) >>= λ done.
          recorded n r.id "state_mismatch" w.status (scheduler_status r.actual_state)
            "align_scheduler_status" done)
      else pure tt

  revision_step : Node F → Workload F → WorkloadReport → Act W F (Unit {0})
  unfolding recorded
  revision_step n w r =
      if revision_drifted w r
      then (try (remediate_revision_mismatch n w) >>= λ done.
          recorded n r.id "revision_mismatch" w.revision_id r.revision_id
            "reapply_scheduler_revision" done)
      else pure tt

  -- A report of the agent against the workload that is expected.
  report_step :
      Node F
      → WorkloadReport
      → Assoc (Workload F)
      → Option (Workload F)
      → Act W F (Assoc (Workload F))
  unfolding state_step revision_step
  report_step n r all (some w) = state_step n w r >> revision_step n w r >> pure all
  report_step n r all none = remediate_orphan_on_agent n r.id r all >>= λ o.
      recorded n r.id "orphan_on_agent" "" (scheduler_status r.actual_state) o.0 o.1 >> pure o.2

  unfoldable pub check_reports :
      Node F
      → Assoc (Workload F)
      → Assoc WorkloadReport
      → Assoc (Workload F)
      → Act W F (Assoc (Workload F))
  unfolding report_step
  check_reports n expected [] all = pure all
  check_reports n expected ((id, r) ∷ reports) all =
      report_step n r all (lookup id expected) >>= check_reports n expected reports

  unfoldable pub check_missing :
      Node F → Assoc WorkloadReport → Assoc (Workload F) → Assoc (Workload F) → Act W F (Unit {0})
  unfolding recorded
  check_missing n reports all [] = pure tt
  check_missing n reports all ((id, w) ∷ expected) =
      let rest = check_missing n reports all expected in
      if rebound n.node_id id all
        || is_some (lookup id reports)
        || to_lower (trim_space w.desired_state) == "deleted"
      then rest
      else try (remediate_missing_on_agent w) >>= λ done.
          recorded n id "missing_on_agent" w.status "" "retry_and_reconcile" done >> rest

  -- The workloads known afterwards.
  unfoldable pub compare_node_drift :
      Node F
      → Assoc (Workload F)
      → Assoc (Workload F)
      → List WorkloadReport
      → Act W F (Assoc (Workload F))
  unfolding reports_by_id check_reports check_missing
  compare_node_drift n expected all actual = do
    let reports = reports_by_id actual []
    known ← check_reports n expected reports all
    check_missing n reports known expected
    pure known

  listed :
      Node F
      → Assoc (Workload F)
      → Assoc (Workload F)
      → Result (List WorkloadReport)
      → Act W F (Assoc (Workload F))
  listed n expected all (err e) = pure all
  listed n expected all (ok reports) = compare_node_drift n expected all reports

  probe_nodes : List (Workload F) → Assoc (Node F) → Assoc (Workload F) → Act W F (Unit {0})
  unfolding listed
  probe_nodes ws [] all = pure tt
  probe_nodes ws ((endpoint, n) ∷ nodes) all =
      let rest = probe_nodes ws nodes in
      drift_probe_eligible n >>= λ eligible.
      if eligible
      then try (list_workloads_from_node n) >>= listed n (of_node n.node_id ws []) all >>= rest
      else rest all

  -- One round over the nodes; an error ends it, and is logged only.
  unfoldable pub detect_drift_once : Act W F (Unit {0})
  unfolding probe_nodes
  detect_drift_once = ignore (do
    nodes ← get_nodes
    ws ← get_workloads
    probe_nodes ws (selected_nodes nodes []) (by_id ws []))

-- ===== src/Scheduler/Drift.antt =====
-- persys-scheduler/internal/scheduler/drift.go: the scheduler's view of a node against its agent's.
-- The maps are ranged over in the order of their lists.
pub mod Remedy
pub mod Orphan
use persys_cloud.Prelude.{
  ℕ, ◌+◌, ◌*◌, String, Bool, true, false, not, ◌&&◌, ◌||◌, List, [], ◌∷◌, Option, none, some,
  Result, ok, err, if◌then◌else◌, ltb, nat_eq, Assoc, put, ◌==◌,
}
use persys_cloud.Text.{concat, trim_space, to_lower, equal_fold, contains, replace_char}
use persys_cloud.Scheduler.Models.{Node, Workload, str, DriftRecord, drift_value}
use persys_cloud.Scheduler.Services.{
  Formats, Services, Act, pure, fail, call, ignore, branch, ◌>>=◌, ◌>>◌,
}
use persys_cloud.Scheduler.Mode.{is_writable}
use persys_cloud.Scheduler.Etcd.{retryable_etcd_put}
use persys_cloud.Scheduler.Store.{emit_event}
use persys_cloud.Scheduler.Agent.{WorkloadReport, grpc_address_for_node}

abbrev three_minutes : ℕ
three_minutes = 180 * 1000000000

key_part : String → String
key_part s = replace_char 47 "_" (trim_space s)

unfoldable pub drift_key : String → String → String → String
unfolding key_part
drift_key node workload drift =
    let id = key_part workload in
    concat (
      "/drifts/"
      ∷ key_part node
      ∷ "/"
      ∷ (if id == "" then "_unknown" else id)
      ∷ "/"
      ∷ key_part drift
      ∷ [])

unfoldable pub same_endpoint : String → String → Bool
same_endpoint a b =
    let av = trim_space a in
    let bv = trim_space b in not (av == "") && not (bv == "") && equal_fold av bv

unfoldable pub is_workload_missing_error : String → Bool
is_workload_missing_error e =
    let msg = to_lower (trim_space e) in contains msg "workload" && contains msg "not found"

module _ {F : Type 0} where
  -- A node that is up, with a heartbeat in the three minutes before a time.
  unfoldable pub heard_of : ℕ → Node F → Bool
  heard_of now n =
      let status = to_lower (trim_space n.status) in
      (status == "ready" || status == "active")
      && not (nat_eq n.last_heartbeat 0)
      && not (ltb (n.last_heartbeat + three_minutes) now)

  -- driftProbeEligible and isNodeLikelyUnavailable read the clock only of such a node.
  unfoldable pub reads_clock : Node F → Bool
  reads_clock n =
      let status = to_lower (trim_space n.status) in
      (status == "ready" || status == "active") && not (nat_eq n.last_heartbeat 0)

module _ {F : Type 0} ⦃T : Formats⦄ where
  -- One node for each endpoint: the one heard of last.
  unfoldable pub fresher : Node F → Option (Node F) → Node F
  fresher n none = n
  fresher n (some m) = if ltb m.last_heartbeat n.last_heartbeat then n else m

module _ {W F : Type 0} ⦃V : Services W F⦄ where
  unfoldable pub drift_probe_eligible : Node F → Act W F Bool
  drift_probe_eligible n =
      if reads_clock n then (call V.now >>= λ now. pure (heard_of now n)) else pure false

  unfoldable pub is_node_likely_unavailable : Node F → Act W F Bool
  is_node_likely_unavailable n = drift_probe_eligible n >>= λ ok_node. pure (not ok_node)

  write_drift_record : DriftRecord → Act W F (Unit {0})
  write_drift_record r =
      ignore (retryable_etcd_put (drift_key r.node_id r.workload_id r.drift_type) (drift_value r))

  unfoldable pub mark_drift : DriftRecord → Act W F (Unit {0})
  unfolding write_drift_record
  mark_drift r =
      branch is_writable (write_drift_record r) (pure tt)
      >> emit_event "DriftDetected" r.workload_id r.node_id r.drift_type

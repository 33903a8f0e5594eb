-- ===== src/Scheduler/Nodes/Select.antt =====
-- persys-scheduler/internal/scheduler/scheduler.go: selectNodeForWorkload and assignWorkload.
-- `sort.Slice` is insertion sort here, as Go's is for up to twelve elements.
pub mod Choice
pub mod Success
use persys_cloud.Prelude.{
  ℕ, ◌+◌, ◌*◌, ◌-◌, String, Bool, true, false, not, ◌&&◌, ◌||◌, List, [], ◌∷◌, ◌++◌, Option, none,
  some, Result, ok, err, if◌then◌else◌, ltb, is_empty, put, sort_by, ◌==◌,
}
use persys_cloud.Text.{concat, trim_space, equal_fold, has_suffix}
use persys_cloud.Scheduler.Models.{Node, Workload, Value, node_value, str}
use persys_cloud.Scheduler.Services.{
  Formats, Floats, Services, Scheduler, Act, pure, fail, call, try, branch, wrapped, ◌>>=◌, ◌>>◌,
}
use persys_cloud.Scheduler.Mode.{require_writable, is_writable, control_plane_frozen}
use persys_cloud.Scheduler.Etcd.{retryable_etcd_list}
use persys_cloud.Scheduler.Store.{save_workload, marked_storage, write_assignment, emit_event}
use persys_cloud.Scheduler.Nodes.{
  matches_labels, canonical_workload_type, node_supports_workload_type, required_storage_drivers,
  node_supports_storage_drivers, node_utilization_score, positive,
}

-- The pieces with a text between them.
unfoldable pub join : String → List String → String
join sep [] = ""
join sep (s ∷ []) = s
join sep (s ∷ t ∷ rest) = concat (s ∷ sep ∷ join sep (t ∷ rest) ∷ [])

-- `%v` of a slice
abbrev bracketed : List String → String
bracketed l = concat ("[" ∷ join " " l ∷ "]" ∷ [])

abbrev pub ten_minutes : ℕ
ten_minutes = 600 * 1000000000

module _ {F : Type 0} where
  -- The workload on a node, from a time on.
  unfoldable pub assigned_to : ℕ → String → String → Workload F → Workload F
  assigned_to now node cause w = record w {
    node_id = node;
    assigned_node = node;
    status = "Scheduled";
    status_info = record w.status_info { actual_state = "Pending"; last_updated = now };
    metadata = put "assignment_reason" (str cause) (put "last_action" (str "Assigned") w.metadata);
  }

  abbrev assign_error : Workload F × Result (Unit {0}) → Workload F × Result (Unit {0})
  assign_error (w, ok u) = (w, ok u)
  assign_error (w, err e) = (w, err (concat ("assign workload: " ∷ e ∷ [])))

  unfoldable pub is_ready : Node F → Bool
  is_ready n = equal_fold n.status "active" || equal_fold n.status "ready"

module _ {F : Type 0} ⦃N : Floats F⦄ where
  unfoldable pub enough_cpu : Workload F → Node F → Bool
  enough_cpu w n =
      not (positive w.resources.cpu_usage && N.lt n.available_cpu w.resources.cpu_usage)

  unfoldable pub enough_memory : Workload F → Node F → Bool
  enough_memory w n = not (
      positive w.resources.memory_usage
      && N.lt (N.of_nat n.available_memory) w.resources.memory_usage)

  -- The candidates and the rejections, with one node more.
  unfoldable pub judged :
      Node F → Option String → List (Node F) × List String → List (Node F) × List String
  judged n none (nodes, reasons) = (n ∷ nodes, reasons)
  judged n (some r) (nodes, reasons) = (nodes, r ∷ reasons)

  -- Less used.
  abbrev pub less_used : Node F → Node F → Bool
  less_used a b = N.lt (node_utilization_score a) (node_utilization_score b)

module _ {F : Type 0} ⦃T : Formats⦄ ⦃N : Floats F⦄ where
  unfoldable pub status_rejection : Node F → String
  status_rejection n =
      let given = trim_space n.status_reason in
      concat (
        n.node_id
        ∷ ": status="
        ∷ n.status
        ∷ " reason="
        ∷ T.quote (if given == "" then "unspecified" else given)
        ∷ " by="
        ∷ n.status_updated_by
        ∷ " at="
        ∷ T.format_time n.status_updated_at
        ∷ [])

  -- Why a ready node is not a candidate at a time, if it is not.
  unfoldable pub rejection : ℕ → Workload F → Node F → Option String
  rejection now w n =
      if ltb ten_minutes (now - n.last_heartbeat)
      then some
          (concat (n.node_id ∷ ": heartbeat_stale last=" ∷ T.format_time n.last_heartbeat ∷ []))
      else if not (matches_labels w.labels n.labels)
      then some (concat (n.node_id ∷ ": label_mismatch" ∷ []))
      else if not (node_supports_workload_type n w.kind)
      then some (
          concat (
            n.node_id
            ∷ ": workload_type_unsupported need="
            ∷ canonical_workload_type w.kind
            ∷ " supports="
            ∷ bracketed n.supported_workload_types
            ∷ []))
      else if not (node_supports_storage_drivers n (required_storage_drivers w))
      then some (
          concat (
            n.node_id
            ∷ ": storage_driver_unsupported need="
            ∷ bracketed (required_storage_drivers w)
            ∷ " supports="
            ∷ bracketed n.supported_storage_drivers
            ∷ []))
      else if not (enough_cpu w n)
      then some (
          concat (
            n.node_id
            ∷ ": cpu_insufficient need="
            ∷ N.fixed 3 w.resources.cpu_usage
            ∷ " have="
            ∷ N.fixed 3 n.available_cpu
            ∷ []))
      else if not (enough_memory w n)
      then some (
          concat (
            n.node_id
            ∷ ": memory_insufficient need="
            ∷ N.fixed 0 w.resources.memory_usage
            ∷ "MB have="
            ∷ T.itoa n.available_memory
            ∷ "MB"
            ∷ []))
      else none

module _ {W F : Type 0} ⦃T : Formats⦄ ⦃N : Floats F⦄ ⦃V : Services W F⦄ where
  unfoldable pub judge : Workload F → Node F → Act W F (Option String)
  unfolding status_rejection
  judge w n =
      if is_ready n
      then (call V.now >>= λ now. pure (rejection now w n))
      else pure (some (status_rejection n))

  unfoldable pub candidates :
      Workload F → List (String × Value F) → Act W F (List (Node F) × List String)
  candidates w [] = pure ([], [])
  candidates w ((k, node_value n) ∷ kvs) =
      let rest = candidates w kvs in
      if has_suffix k "/status"
      then rest
      else judge w n >>= λ verdict. rest >>= λ found. pure (judged n verdict found)
  candidates w ((k, _) ∷ kvs) = candidates w kvs

  -- The first of the sorted candidates.
  unfoldable pub first_choice : List String → List (Node F) → Act W F (Node F × String)
  first_choice reasons (n ∷ ns) = pure (
    n,
    concat ("selected by lowest utilization score " ∷ N.fixed 4 (node_utilization_score n) ∷ []),
  )
  first_choice reasons [] = fail (
      if is_empty reasons
      then "no suitable node available"
      else concat ("no suitable node available (" ∷ join "; " reasons ∷ ")" ∷ []))

  unfoldable pub choose_node : List (Node F) × List String → Act W F (Node F × String)
  unfolding first_choice
  choose_node (nodes, reasons) = first_choice reasons (sort_by less_used nodes)

  unfoldable pub choose_listed : Workload F → List (String × Value F) → Act W F (Node F × String)
  choose_listed w [] = fail "no nodes available"
  choose_listed w (kv ∷ kvs) = candidates w (kv ∷ kvs) >>= choose_node

  unfoldable pub select_node_for_workload : Workload F → Act W F (Node F × String)
  unfolding choose_listed
  select_node_for_workload w =
      require_writable
      >> wrapped (λ e. concat ("failed to get nodes for scheduling: " ∷ e ∷ []))
          (retryable_etcd_list "/nodes/")
      >>= choose_listed w

  -- The workload as `assignWorkload` leaves it with its caller, and the error.
  unfoldable pub assign_in_place :
      Workload F → Node F → String → Act W F (Workload F × Result (Unit {0}))
  assign_in_place w n cause =
      branch is_writable
        (call V.now >>= λ now.
          let assigned = assigned_to now n.node_id cause w in
          try (
            save_workload assigned
            >> write_assignment w.id n.node_id cause
            >> emit_event "WorkloadScheduled" w.id n.node_id cause)
          >>= λ r. pure (marked_storage assigned, r))
        (pure (w, err control_plane_frozen))

  settled : Workload F × Result (Unit {0}) → Act W F (Unit {0})
  settled (w, ok u) = pure u
  settled (w, err e) = fail e

  unfoldable pub assign_workload : Workload F → Node F → String → Act W F (Unit {0})
  unfolding settled
  assign_workload w n cause = assign_in_place w n cause >>= settled

  assign_chosen : Workload F → Result (Node F × String) → Act W F (Workload F × Result (Unit {0}))
  assign_chosen w (err e) = pure (w, err e)
  assign_chosen w (ok (n, cause)) = assign_in_place w n cause >>= λ p. pure (assign_error p)

  -- EnsureWorkloadAssigned: the workload as its caller has it afterwards, and the error.
  unfoldable pub ensure_workload_assigned : Workload F → Act W F (Workload F × Result (Unit {0}))
  unfolding assign_chosen
  ensure_workload_assigned w =
      branch is_writable
        (if not (w.node_id == "")
          then pure (w, ok tt)
          else (try (select_node_for_workload w) >>= assign_chosen w))
        (pure (w, err control_plane_frozen))

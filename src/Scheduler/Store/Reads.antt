-- ===== src/Scheduler/Store/Reads.antt =====
-- persys-scheduler/internal/scheduler/scheduler.go: GetWorkloadByID, GetWorkloads and
-- GetWorkloadsByNode.
use persys_cloud.Prelude.{
  String, Bool, not, ◌&&◌, List, [], ◌∷◌, Option, none, some, Result, ok, err, if◌then◌else◌,
  is_empty, Assoc, lookup, put, filter, ◌==◌, map,
}
use persys_cloud.Text.{concat}
use persys_cloud.Scheduler.Models.{
  Workload, WorkloadStatus, Value, spec_value, status_value, workload_value,
}
use persys_cloud.Scheduler.Services.{
  Services, Scheduler, Act, normal, pure, fail, gets, modify, try, branch, ◌>>=◌, ◌>>◌,
}
use persys_cloud.Scheduler.Mode.{mode_eq, cache_workload}
use persys_cloud.Scheduler.Etcd.{retryable_etcd_get, retryable_etcd_list}
use persys_cloud.Scheduler.Projection.{workload_of_spec, with_status}
use persys_cloud.Scheduler.Storage.Records.{unmarshal_error}
use persys_cloud.Scheduler.Store.{workload_spec_key, workload_status_key, workload_key}

module _ {F : Type 0} where
  -- The status of a key, where it has one with an id.
  abbrev add_status : Workload F → WorkloadStatus → Workload F
  add_status w st = if st.id == "" then w else with_status w st

  unfoldable pub and_status : Workload F → Result (Option (Value F)) → Workload F
  and_status w (ok (some (status_value st))) = add_status w st
  and_status w _ = w

  unfoldable pub statuses_of : List (String × Value F) → Assoc WorkloadStatus → Assoc WorkloadStatus
  statuses_of [] m = m
  statuses_of ((k, status_value st) ∷ kvs) m = statuses_of kvs (put st.id st m)
  statuses_of ((k, _) ∷ kvs) m = statuses_of kvs m

  unfoldable pub answered : Result (List (String × Value F)) → Assoc WorkloadStatus
  unfolding statuses_of
  answered (ok kvs) = statuses_of kvs []
  answered (err e) = []

  unfoldable pub and_found : Workload F → Option WorkloadStatus → Workload F
  and_found w none = w
  and_found w (some st) = with_status w st

  unfoldable pub workloads_of : List (String × Value F) → Assoc WorkloadStatus → List (Workload F)
  unfolding and_found
  workloads_of [] m = []
  workloads_of ((k, spec_value p) ∷ kvs) m =
      and_found (workload_of_spec p) (lookup p.id m) ∷ workloads_of kvs m
  workloads_of ((k, _) ∷ kvs) m = workloads_of kvs m

  unfoldable pub cache_of : List (Workload F) → Assoc (Workload F) → Assoc (Workload F)
  cache_of [] m = m
  cache_of (w ∷ ws) m = cache_of ws (put w.id w m)

module _ {W F : Type 0} where
  unfoldable pub or_else : {A : Type 0} → Option A → Act W F A → Act W F A
  or_else (some a) m = pure a
  or_else none m = m

  abbrev served_frozen : Scheduler W F → Bool
  served_frozen s = not (mode_eq s.mode normal)

module _ {W F : Type 0} ⦃V : Services W F⦄ where
  abbrev not_found : String → Act W F (Workload F)
  not_found id = fail (concat ("workload " ∷ id ∷ " not found" ∷ []))

  unfoldable pub legacy_workload : String → Result (Option (Value F)) → Act W F (Workload F)
  legacy_workload id (ok (some (workload_value w))) = cache_workload w >> pure w
  legacy_workload id (ok (some _)) =
      fail (concat ("failed to unmarshal legacy workload " ∷ id ∷ ": " ∷ unmarshal_error ∷ []))
  legacy_workload id (ok none) = not_found id
  legacy_workload id (err e) = not_found id

  unfoldable pub workload_found : String → Result (Option (Value F)) → Act W F (Workload F)
  unfolding or_else legacy_workload
  workload_found id (err e) =
      gets (λ s. if served_frozen s then lookup id s.cache_workloads else none) >>= λ cached.
      or_else cached (fail (concat ("failed to get workload " ∷ id ∷ ": " ∷ e ∷ [])))
  workload_found id (ok none) = try (retryable_etcd_get (workload_key id)) >>= legacy_workload id
  workload_found id (ok (some (spec_value p))) = do
    status_answer ← try (retryable_etcd_get (workload_status_key id))
    let w = and_status (workload_of_spec p) status_answer
    cache_workload w
    pure w
  workload_found id (ok (some _)) =
      fail (concat ("failed to unmarshal workload spec " ∷ id ∷ ": " ∷ unmarshal_error ∷ []))

  unfoldable pub get_workload_by_id : String → Act W F (Workload F)
  unfolding workload_found
  get_workload_by_id id = try (retryable_etcd_get (workload_spec_key id)) >>= workload_found id

  abbrev cached_workloads : Scheduler W F → List (Workload F)
  cached_workloads s = map (λ e. e.1) s.cache_workloads

  unfoldable pub workloads_found : Result (List (String × Value F)) → Act W F (List (Workload F))
  unfolding answered
  workloads_found (err e) =
      branch served_frozen (gets cached_workloads)
        (fail (concat ("failed to get workloads: " ∷ e ∷ [])))
  workloads_found (ok kvs) = do
    status_answer ← try (retryable_etcd_list "/workloads-status/")
    let ws = workloads_of kvs (answered status_answer)
    branch (λ s. served_frozen s && is_empty ws) (gets cached_workloads)
        (modify (λ s. record s { cache_workloads = cache_of ws [] }) >> pure ws)

  unfoldable pub get_workloads : Act W F (List (Workload F))
  unfolding workloads_found
  get_workloads = try (retryable_etcd_list "/workloads-spec/") >>= workloads_found

  unfoldable pub get_workloads_by_node : String → Act W F (List (Workload F))
  get_workloads_by_node node = do ws ← get_workloads; pure (filter (λ w. w.node_id == node) ws)

-- ===== src/Scheduler/Nodes/Control.antt =====
-- persys-scheduler/internal/scheduler/node_control.go: heartbeats, NotReady marks and unsupported types.
-- A negative number of megabytes, which stands for none, is none.
pub mod Frozen
use persys_cloud.Prelude.{
  ℕ, String, Bool, true, false, not, ◌&&◌, ◌||◌, List, [], ◌∷◌, Option, none, some, Result, ok, err,
  if◌then◌else◌, nat_eq, is_empty, any, filter, map, put, Assoc, ◌==◌,
}
use persys_cloud.Text.{concat, trim_space, equal_fold}
use persys_cloud.Scheduler.Models.{Node, Value, node_value, text_value}
use persys_cloud.Scheduler.Services.{
  Floats, Services, Scheduler, Act, pure, fail, call, gets, ignore, try, wrapped, ◌>>=◌, ◌>>◌,
}
use persys_cloud.Scheduler.Mode.{require_writable, cache_node}
use persys_cloud.Scheduler.Etcd.{retryable_etcd_put, retryable_etcd_delete, retryable_etcd_get}
use persys_cloud.Scheduler.Storage.Records.{unmarshal_error}
use persys_cloud.Scheduler.Store.{emit_event}
use persys_cloud.Scheduler.Nodes.{canonical_workload_type, at_most_zero}

abbrev pub node_key : String → String
node_key id = concat ("/nodes/" ∷ id ∷ [])

abbrev pub node_status_key : String → String
node_status_key id = concat ("/nodes/" ∷ id ∷ "/status" ∷ [])

abbrev or_default : String → String
or_default s = if s == "" then "node marked NotReady" else s

-- The types without one, if it was among them; a node without a list of types loses only vm.
unfoldable pub types_without : String → List String → Option (List String)
types_without want types =
    if is_empty types
    then (if want == "vm" then some ("container" ∷ "compose" ∷ []) else none)
    else if any (λ t. canonical_workload_type t == want) types
    then some
        (map canonical_workload_type (filter (λ t. not (canonical_workload_type t == want)) types))
    else none

abbrev some_memory : Option ℕ → ℕ → ℕ
some_memory none old = old
some_memory (some new) old = new

module _ {F : Type 0} where
  abbrev pub with_reason : String → String → ℕ → Node F → Node F
  with_reason reason source now n = record n {
    status_reason = reason;
    status_updated_by = source;
    status_updated_at = now;
  }

  -- A NotReady record whose reason and source are there and do not change.
  unfoldable pub already_not_ready : String → String → Node F → Bool
  already_not_ready reason source n =
      let incoming = trim_space reason in
      not (trim_space n.status_reason == "")
      && not (trim_space n.status_updated_by == "")
      && not (nat_eq n.status_updated_at 0)
      && (incoming == "" || equal_fold (trim_space n.status_reason) incoming)
      && equal_fold (trim_space n.status_updated_by) source

  -- The status that a heartbeat brings, with its reason.
  unfoldable pub heartbeat_status : String → ℕ → Node F → Node F
  heartbeat_status new_status now n =
      let moved = record n { status = new_status } in
      if trim_space new_status == ""
      then n
      else if equal_fold new_status "Ready"
      then with_reason
          (if equal_fold n.status "Ready"
            then "heartbeat received"
            else concat
                ("status transition " ∷ n.status ∷ " -> " ∷ new_status ∷ " via heartbeat" ∷ []))
          "heartbeat" now moved
      else if equal_fold n.status new_status
      then moved
      else with_reason "heartbeat status transition" "heartbeat" now moved

  -- The heartbeat's status is stamped, so that the clock is read for it.
  unfoldable pub stamps_status : String → Node F → Bool
  stamps_status new_status n =
      not (trim_space new_status == "")
      && (equal_fold new_status "Ready" || not (equal_fold n.status new_status))

module _ {F : Type 0} ⦃N : Floats F⦄ where
  unfoldable pub with_available : F → Option ℕ → Node F → Node F
  with_available cpu memory n = record n {
    available_cpu = if N.lt (N.of_nat 0) cpu || N.eq cpu (N.of_nat 0) then cpu else n.available_cpu;
    available_memory = some_memory memory n.available_memory;
  }

module _ {W F : Type 0} ⦃V : Services W F⦄ where
  node_found : String → Result (Option (Value F)) → Act W F (Node F)
  node_found id (err e) = fail (concat ("failed to get node " ∷ id ∷ " from etcd: " ∷ e ∷ []))
  node_found id (ok none) = fail (concat ("node " ∷ id ∷ " not found" ∷ []))
  node_found id (ok (some (node_value n))) = pure n
  node_found id (ok (some _)) =
      fail (concat ("failed to unmarshal node " ∷ id ∷ ": " ∷ unmarshal_error ∷ []))

  unfoldable pub load_node : String → Act W F (Node F)
  unfolding node_found
  load_node id = try (retryable_etcd_get (node_key id)) >>= node_found id

  store_node : String → String → Node F → Act W F (Unit {0})
  store_node what id n =
      wrapped (λ e. concat (what ∷ id ∷ ": " ∷ e ∷ []))
        (retryable_etcd_put (node_key id) (node_value n))

  store_status : String → Node F → Act W F (Unit {0})
  store_status id n =
      ignore (retryable_etcd_put (node_status_key id) (text_value n.status)) >> cache_node n

  -- A node found NotReady only gets its new reason; the loss of another is an event.
  store_lost : String → String → Node F → Act W F (Unit {0})
  unfolding store_node store_status
  store_lost what id n = store_node what id n >> store_status id n

  mark_found : String → String → String → Node F → Act W F (Unit {0})
  unfolding store_lost
  mark_found id reason source n =
      let incoming = or_default (trim_space reason) in
      if equal_fold n.status "NotReady"
      then (if already_not_ready reason source n
          then pure tt
          else (call V.now >>= λ now.
              store_lost "failed to persist NotReady metadata for node " id
                (with_reason incoming source now n)))
      else (call V.now >>= λ now.
          store_lost "failed to persist NotReady for node " id
            (with_reason incoming source now (record n { status = "NotReady" }))
          >> emit_event "NodeLost" "" id reason)

  unfoldable pub mark_node_not_ready : String → String → String → Act W F (Unit {0})
  unfolding mark_found
  mark_node_not_ready id reason source =
      require_writable >> load_node id >>= mark_found id reason source

  drop_type : String → String → String → Node F → Option (List String) → Act W F (Unit {0})
  unfolding store_node
  drop_type id want reason n none = pure tt
  drop_type id want reason n (some types) = do
    now ← call V.now
    let text = concat ("runtime for " ∷ want ∷ " unavailable on agent: " ∷ trim_space reason ∷ [])
    let left = with_reason text "reconciler" now (record n { supported_workload_types = types })
    store_node "failed to persist workload type capability update for node " id left
    cache_node left

  unfoldable pub mark_node_workload_type_unsupported : String → String → String → Act W F (Unit {0})
  unfolding drop_type
  mark_node_workload_type_unsupported id kind reason = do
    require_writable
    n ← load_node id
    let want = canonical_workload_type kind
    if want == ""
        then pure tt
        else drop_type id want reason n (types_without want n.supported_workload_types)

module _ {W F : Type 0} ⦃N : Floats F⦄ ⦃V : Services W F⦄ where
  unfoldable pub update_node_heartbeat : String → String → F → Option ℕ → Act W F (Unit {0})
  unfolding store_node store_status
  update_node_heartbeat id new_status cpu memory = do
    require_writable
    n ← load_node id
    beat ← call V.now
    now ← if stamps_status new_status n then call V.now else pure beat
    let next =
        with_available cpu memory
          (heartbeat_status new_status now (record n { last_heartbeat = beat }))
    wrapped (λ e. concat ("failed to update node " ∷ id ∷ " heartbeat: " ∷ e ∷ []))
        (retryable_etcd_put (node_key id) (node_value next))
    store_status id next

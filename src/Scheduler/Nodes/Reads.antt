-- ===== src/Scheduler/Nodes/Reads.antt =====
-- persys-scheduler/internal/scheduler/scheduler.go: GetNodes, GetNodeByID, DeleteNode and one cycle of
-- MonitorNodes.
use persys_cloud.Prelude.{
  ℕ, ◌*◌, ◌+◌, String, Bool, not, List, [], ◌∷◌, Option, none, some, Result, ok, err, if◌then◌else◌,
  ltb, Assoc, lookup, put, map,
}
use persys_cloud.Text.{concat, has_suffix}
use persys_cloud.Scheduler.Models.{Node, Value, node_value}
use persys_cloud.Scheduler.Services.{
  Formats, Services, Scheduler, Act, normal, pure, fail, call, gets, modify, try, ignore, branch,
  ◌>>=◌, ◌>>◌,
}
use persys_cloud.Scheduler.Mode.{mode_eq, is_writable, cache_node}
use persys_cloud.Scheduler.Etcd.{retryable_etcd_get, retryable_etcd_list}
use persys_cloud.Scheduler.Storage.Records.{unmarshal_error}
use persys_cloud.Scheduler.Store.Reads.{or_else}
use persys_cloud.Scheduler.Nodes.Control.{node_key, mark_node_not_ready}

abbrev three_minutes : ℕ
three_minutes = 180 * 1000000000

module _ {F : Type 0} where
  unfoldable pub nodes_of : List (String × Value F) → List (Node F)
  nodes_of [] = []
  nodes_of ((k, node_value n) ∷ kvs) =
      let rest = nodes_of kvs in if has_suffix k "/status" then rest else n ∷ rest
  nodes_of ((k, _) ∷ kvs) = nodes_of kvs

  unfoldable pub node_cache : List (Node F) → Assoc (Node F) → Assoc (Node F)
  node_cache [] m = m
  node_cache (n ∷ ns) m = node_cache ns (put n.node_id n m)

module _ {W F : Type 0} where
  abbrev frozen : Scheduler W F → Bool
  frozen s = not (mode_eq s.mode normal)

  abbrev cached_nodes : Scheduler W F → List (Node F)
  cached_nodes s = map (λ e. e.1) s.cache_nodes

  abbrev cached_node : String → Scheduler W F → Option (Node F)
  cached_node id s = if frozen s then lookup id s.cache_nodes else none

module _ {W F : Type 0} ⦃V : Services W F⦄ where
  unfoldable pub nodes_found : Result (List (String × Value F)) → Act W F (List (Node F))
  nodes_found (err e) =
      branch frozen (gets cached_nodes) (fail (concat ("failed to get nodes: " ∷ e ∷ [])))
  nodes_found (ok kvs) =
      modify (λ s. record s { cache_nodes = node_cache (nodes_of kvs) [] }) >> pure (nodes_of kvs)

  unfoldable pub get_nodes : Act W F (List (Node F))
  unfolding nodes_found
  get_nodes = try (retryable_etcd_list "/nodes/") >>= nodes_found

  unfoldable pub one_node_found : String → Result (Option (Value F)) → Act W F (Node F)
  unfolding or_else
  one_node_found id (err e) = gets (cached_node id) >>= λ cached.
      or_else cached (fail (concat ("failed to get node " ∷ id ∷ ": " ∷ e ∷ [])))
  one_node_found id (ok none) = fail (concat ("node " ∷ id ∷ " not found" ∷ []))
  one_node_found id (ok (some (node_value n))) = cache_node n >> pure n
  one_node_found id (ok (some _)) =
      fail (concat ("failed to unmarshal node " ∷ id ∷ ": " ∷ unmarshal_error ∷ []))

  unfoldable pub get_node_by_id : String → Act W F (Node F)
  unfolding one_node_found
  get_node_by_id id = try (retryable_etcd_get (node_key id)) >>= one_node_found id

module _ {W F : Type 0} ⦃T : Formats⦄ ⦃V : Services W F⦄ where
  -- A node whose last heartbeat is more than three minutes ago is marked NotReady.
  unfoldable pub check_heartbeat : Node F → Act W F (Unit {0})
  check_heartbeat n = call V.now >>= λ now.
      if ltb (n.last_heartbeat + three_minutes) now
      then ignore (
          mark_node_not_ready n.node_id
            (concat ("heartbeat expired: last heartbeat " ∷ T.format_time n.last_heartbeat ∷ []))
            "monitor")
      else pure tt

  unfoldable pub check_heartbeats : List (Node F) → Act W F (Unit {0})
  unfolding check_heartbeat
  check_heartbeats [] = pure tt
  check_heartbeats (n ∷ ns) = check_heartbeat n >> check_heartbeats ns

  -- One tick of MonitorNodes; an error is logged only.
  unfoldable pub monitor_nodes : Act W F (Unit {0})
  unfolding check_heartbeats
  monitor_nodes = branch is_writable (ignore (get_nodes >>= check_heartbeats)) (pure tt)

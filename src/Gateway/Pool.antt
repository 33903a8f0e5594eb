-- ===== src/Gateway/Pool.antt =====
-- persys-gateway/services/scheduler_pool.go: the pool of scheduler instances that requests are
-- routed to. The mutex makes each method one step, so a method is a function of the manager's state.
-- DNS, the gRPC health probe and package `net` are the record `Net`; logging is left out.
pub mod Order
pub mod Health
use persys_cloud.Prelude.{
  ℕ, suc, ◌+◌, ◌-◌, ◌*◌, ◌%◌, ◌^◌, String, Bool, true, false, ◌&&◌, ◌||◌, not, List, [], ◌∷◌, ◌++◌,
  map, Option, none, some, Result, ok, err, Assoc, lookup, put, is_some, filter, any, take, drop,
  length, if◌then◌else◌, leb, nat_eq, ◌==◌, str_lt, sort_by,
}
use persys_cloud.Text.{trim_space, bytes, concat}
use Prim.Native.Nat.{bit_xor}

pub record SchedulerInstance : Type 0 where
  pub id : String
  pub address : String
  pub is_leader : Bool
  pub healthy : Bool
  pub last_seen : ℕ

-- `routing_strategy` is any text: the source compares it to three constants.
pub record Cluster : Type 0 where
  pub id : String
  pub name : String
  pub schedulers : List SchedulerInstance
  pub routing_strategy : String

abbrev pub strategy_leader_only : String
strategy_leader_only = "leader-only"

abbrev pub strategy_sticky : String
strategy_sticky = "sticky"

abbrev pub strategy_shard : String
strategy_shard = "shard"

-- The configuration's scheduler part (config.go): what the pool reads of it.
pub record ClusterConfig : Type 0 where
  pub id : String
  pub name : String
  pub routing_strategy : String
  pub schedulers : List SchedulerInstance

pub record PoolConfig : Type 0 where
  pub default_cluster_id : String
  pub clusters : List ClusterConfig
  pub repository_cluster_map : Assoc String
  pub discovery_svc : String
  pub discovery_domain : String

pub record PoolManager : Type 0 where
  pub cfg : PoolConfig
  pub clusters : Assoc Cluster

-- The configured instances start unhealthy and unseen.
abbrev configured : SchedulerInstance → SchedulerInstance
configured s = record s { healthy = false; last_seen = 0 }

abbrev or_default : String → String → String
or_default s d = if s == "" then d else s

configured_cluster : ClusterConfig → Cluster
configured_cluster cc = record {
  id = cc.id;
  name = cc.name;
  schedulers = map configured cc.schedulers;
  routing_strategy = or_default (trim_space cc.routing_strategy) strategy_leader_only;
}

configured_clusters : List ClusterConfig → Assoc Cluster → Assoc Cluster
unfolding configured_cluster
configured_clusters [] m = m
configured_clusters (cc ∷ ccs) m = configured_clusters ccs (put cc.id (configured_cluster cc) m)

-- The two durations of the configuration only time the loops and are left out.
unfoldable pub new_pool : PoolConfig → PoolManager
unfolding configured_clusters
new_pool cfg = record { cfg = cfg; clusters = configured_clusters cfg.clusters [] }

abbrev keys : Assoc Cluster → List String
keys [] = []
keys ((k, c) ∷ m) = k ∷ keys m

abbrev first_or_empty : List String → String
first_or_empty [] = ""
first_or_empty (s ∷ ss) = s

unfoldable pub default_cluster_id : PoolManager → String
default_cluster_id m =
    let wanted = trim_space m.cfg.default_cluster_id in
    if not (wanted == "") && is_some (lookup wanted m.clusters)
    then wanted
    else first_or_empty (sort_by str_lt (keys m.clusters))

abbrev trimmed_or_empty : Option String → String
trimmed_or_empty none = ""
trimmed_or_empty (some s) = trim_space s

unfoldable pub resolve_cluster_for_repository : PoolManager → String → String
unfolding default_cluster_id
resolve_cluster_for_repository m repo =
    let mapped = trimmed_or_empty (lookup repo m.cfg.repository_cluster_map) in
    if mapped == "" then default_cluster_id m else mapped

-- 32-bit FNV-1a (hash/fnv).
fnv_from : ℕ → List ℕ → ℕ
fnv_from h [] = h
fnv_from h (b ∷ bs) = fnv_from (bit_xor h b * 16777619 % 2 ^ 32) bs

unfoldable pub fnv32a : String → ℕ
unfolding fnv_from
fnv32a s = fnv_from 2166136261 (bytes s)

unfoldable pub index_by_key : String → ℕ → ℕ
index_by_key key size =
    if leb size 1 then 0 else if trim_space key == "" then 0 else fnv32a key % size

unfoldable pub rotate_by_index {ℓ} : {A : Type ℓ} → List A → ℕ → List A
rotate_by_index l i = if leb (length l) 1 || nat_eq i 0 then l else drop i l ++ take i l

abbrev pub by_id : SchedulerInstance → SchedulerInstance → Bool
by_id a b = str_lt a.id b.id

-- The loop of the leader-only case: the first leader is moved to the front; `before` holds the
-- instances already passed, and the result is the list unchanged where there is no leader.
lead_from : List SchedulerInstance → List SchedulerInstance → List SchedulerInstance
lead_from before [] = before
lead_from before (s ∷ rest) =
    let next = lead_from (before ++ s ∷ []) rest in
    if s.is_leader then s ∷ (before ++ rest) else next

unfoldable pub leader_first : List SchedulerInstance → List SchedulerInstance
unfolding lead_from
leader_first l = lead_from [] l

unfoldable pub healthy_sorted : Cluster → List SchedulerInstance
healthy_sorted c = sort_by by_id (filter (λ s. s.healthy) c.schedulers)

route : String → List SchedulerInstance → String → String → Result (List SchedulerInstance)
route strategy healthy session_key workload_key =
    if strategy == strategy_leader_only
    then ok (leader_first healthy)
    else if strategy == strategy_sticky
    then ok (rotate_by_index healthy (index_by_key session_key (length healthy)))
    else if strategy == strategy_shard
    then ok (rotate_by_index healthy (index_by_key workload_key (length healthy)))
    else err (concat ("unsupported routing strategy \"" ∷ strategy ∷ "\"" ∷ []))

abbrev pub err_no_healthy : String
err_no_healthy = "no healthy schedulers"

-- The source tests for an empty list of healthy instances before it sorts.
order_cluster : Cluster → String → String → Result (List SchedulerInstance)
unfolding route
order_cluster c session_key workload_key = elim (filter (λ s. s.healthy) c.schedulers) [
  | [] ↦ err err_no_healthy
  | s ∷ rest ↦ route c.routing_strategy (healthy_sorted c) session_key workload_key
]

unfoldable pub effective_cluster : PoolManager → String → String
effective_cluster m cluster_id =
    if trim_space cluster_id == "" then default_cluster_id m else cluster_id

unfoldable pub ordered_schedulers :
    PoolManager → String → String → String → Result (List SchedulerInstance)
unfolding order_cluster
ordered_schedulers m cluster_id session_key workload_key =
    elim (lookup (effective_cluster m cluster_id) m.clusters) [
      | none ↦ err (concat ("unknown cluster: " ∷ effective_cluster m cluster_id ∷ []))
      | some c ↦ order_cluster c session_key workload_key
    ]

fail_address : String → SchedulerInstance → SchedulerInstance
fail_address address s = if s.address == address then record s { healthy = false } else s

unfoldable pub mark_unhealthy : PoolManager → String → String → PoolManager
unfolding fail_address
mark_unhealthy m cluster_id address = elim (lookup cluster_id m.clusters) [
  | none ↦ m
  | some c ↦ record m {
    clusters =
        put cluster_id (record c { schedulers = map (fail_address address) c.schedulers })
          m.clusters;
  }
]

-- One probe of every instance; `probe` answers for an address at time `now`.
probed : (String → Bool) → ℕ → SchedulerInstance → SchedulerInstance
probed probe now s =
    if probe s.address
    then record s { healthy = true; last_seen = now }
    else record s { healthy = false }

refreshed : (String → Bool) → ℕ → Assoc Cluster → Assoc Cluster
unfolding probed
refreshed probe now [] = []
refreshed probe now ((k, c) ∷ m) =
    (k, record c { schedulers = map (probed probe now) c.schedulers }) ∷ refreshed probe now m

unfoldable pub refresh_health : (String → Bool) → ℕ → PoolManager → PoolManager
unfolding refreshed
refresh_health probe now m = record m { clusters = refreshed probe now m.clusters }

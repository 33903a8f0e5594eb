-- ===== src/Gateway/Discovery/Merge.antt =====
-- scheduler_pool.go, discoverAndMerge: discovered addresses are merged into the default cluster.
pub mod Instances
pub mod Laws
use persys_cloud.Prelude.{
  ℕ, zero, suc, ◌+◌, String, Bool, true, false, ◌&&◌, ◌||◌, not, List, [], ◌∷◌, ◌++◌, map, Option,
  none, some, Result, ok, err, Assoc, lookup, put, is_some, any, length, filter, if◌then◌else◌,
  ◌==◌,
}
use persys_cloud.Text.{has_prefix}
use persys_cloud.Gateway.Pool.{
  SchedulerInstance, Cluster, ClusterConfig, PoolManager, strategy_leader_only, default_cluster_id,
}
use persys_cloud.Gateway.Discovery.{
  Net, member, discovered_id, canonical_address_keys, discover_schedulers,
}

abbrev pub discovered_default_cluster_id : String
discovered_default_cluster_id = "cluster-discovered"

-- The cluster's instances while addresses are merged, and the two indexes into them.
pub record Merging : Type 0 where
  pub schedulers : List SchedulerInstance
  pub existing_by_addr : Assoc ℕ
  pub existing_by_canonical : Assoc ℕ

-- A key that is already indexed keeps its first position.
index_keys : List String → ℕ → Assoc ℕ → Assoc ℕ
index_keys [] i m = m
index_keys (k ∷ ks) i m = index_keys ks i (if is_some (lookup k m) then m else put k i m)

pub name_at : ℕ → String → List SchedulerInstance → List SchedulerInstance
name_at i name [] = []
name_at zero name (s ∷ l) = (if s.id == "" then record s { id = name } else s) ∷ l
name_at (suc i) name (s ∷ l) = s ∷ name_at i name l

abbrev discovered_instance : String → SchedulerInstance
discovered_instance addr = record {
  id = discovered_id addr;
  address = addr;
  is_leader = false;
  healthy = false;
  last_seen = 0;
}

pub static_addresses : String → List ClusterConfig → List String
static_addresses id [] = []
static_addresses id (c ∷ cs) =
    let rest = static_addresses id cs in
    if c.id == id then map (λ s. s.address) c.schedulers ++ rest else rest

-- Configured entries stay; a discovered one stays while its address is discovered.
unfoldable pub keeps_entry : List String → List String → SchedulerInstance → Bool
keeps_entry static discovered s =
    member s.address static || (not (has_prefix s.id "discovered-") || member s.address discovered)

unfoldable pub merged_id : PoolManager → String
merged_id m =
    if default_cluster_id m == "" then discovered_default_cluster_id else default_cluster_id m

bootstrap_cluster : String → Cluster
bootstrap_cluster id = record {
  id = id;
  name = "Discovered Cluster";
  routing_strategy = strategy_leader_only;
  schedulers = [];
}

unfoldable pub or_bootstrap : String → Option Cluster → Cluster
unfolding bootstrap_cluster
or_bootstrap id none = bootstrap_cluster id
or_bootstrap id (some c) = c

module _ (net : Net) where
  index_existing : ℕ → List SchedulerInstance → Merging → Merging
  unfolding index_keys
  index_existing i [] st = st
  index_existing i (s ∷ l) st = index_existing (i + 1) l (record st {
    existing_by_addr = put s.address i st.existing_by_addr;
    existing_by_canonical =
        index_keys (canonical_address_keys net s.address) i st.existing_by_canonical;
  })

  add_address : String → Merging → Merging
  unfolding index_keys
  add_address addr st = record {
    schedulers = st.schedulers ++ discovered_instance addr ∷ [];
    existing_by_addr = put addr (length st.schedulers) st.existing_by_addr;
    existing_by_canonical =
        index_keys (canonical_address_keys net addr) (length st.schedulers)
          st.existing_by_canonical;
  }

  unfoldable pub merge_address : String → Merging → Merging
  unfolding add_address name_at
  merge_address addr st = elim (lookup addr st.existing_by_addr) [
    | some i ↦ record st { schedulers = name_at i (discovered_id addr) st.schedulers }
    | none ↦
        if any (λ k. is_some (lookup k st.existing_by_canonical)) (canonical_address_keys net addr)
        then st
        else add_address addr st
  ]

  unfoldable pub merge_addresses : List String → Merging → Merging
  merge_addresses [] st = st
  merge_addresses (a ∷ rest) st = merge_addresses rest (merge_address a st)

  unfoldable pub merge_schedulers : List SchedulerInstance → List String → List SchedulerInstance
  unfolding index_existing
  merge_schedulers l discovered =
      (merge_addresses discovered (
        index_existing 0 l (record {
          schedulers = l;
          existing_by_addr = [];
          existing_by_canonical = [];
        }))).schedulers

  merge_cluster : PoolManager → List String → Cluster → Cluster
  unfolding static_addresses
  merge_cluster m discovered c = record c {
    schedulers =
        filter (keeps_entry (static_addresses (merged_id m) m.cfg.clusters) discovered)
          (merge_schedulers c.schedulers discovered);
  }

  merge_into : PoolManager → List String → PoolManager
  unfolding merge_cluster merged_id or_bootstrap
  merge_into m discovered =
      let id = merged_id m in
      record m {
        clusters =
            put id (merge_cluster m discovered (or_bootstrap id (lookup id m.clusters))) m.clusters;
      }

  -- A discovery that fails or finds nothing leaves the pool as it was.
  merge_found : PoolManager → Result (List String) → PoolManager
  unfolding merge_into
  merge_found m (err e) = m
  merge_found m (ok []) = m
  merge_found m (ok (a ∷ rest)) = merge_into m (a ∷ rest)

  unfoldable pub discover_and_merge : PoolManager → PoolManager
  unfolding merge_found
  discover_and_merge m = merge_found m (discover_schedulers net m)

-- ===== src/Tests/GatewayDiscovery.antt =====
-- A DNS that answers one SRV query, and a pool with one configured instance.
use persys_cloud.Prelude.{
  String, ◌≡◌, refl, true, false, List, [], ◌∷◌, Option, some, none, ok, lookup, ◌==◌,
  if◌then◌else◌, sort_by, str_lt,
}
use persys_cloud.Text.{trim_space, trim_prefix, trim_suffix, has_prefix, contains, concat}
use persys_cloud.Gateway.Pool.{SchedulerInstance, Cluster, PoolManager, default_cluster_id}
use persys_cloud.Gateway.Discovery.{Net, Srv, discover_schedulers, dedupe, member}
use persys_cloud.Gateway.Discovery.Merge.{
  merged_id, or_bootstrap, static_addresses, discover_and_merge,
}
use persys_cloud.Gateway.Discovery.Merge.Instances.{Distinct, has_instance}
use persys_cloud.Gateway.Discovery.Merge.Laws.{default_cluster, discover_and_merge-keeps}

answer_srv : String → String → String → Option (List Srv)
answer_srv service proto name =
    if service == "sched" then some (record { target = "s1.lan."; port = 8085 } ∷ []) else none

answer_host : String → Option (List String)
answer_host host = if host == "s1.lan" then some ("10.0.0.1" ∷ []) else none

join : String → String → String
join host port = concat (host ∷ ":" ∷ port ∷ [])

net : Net
net = record {
  lookup_srv = answer_srv;
  lookup_host = answer_host;
  join_host_port = join;
  split_host_port = λ a. none;
  parse_ip = λ a. none;
  itoa = λ n. "8085";
}

abbrev static_one : SchedulerInstance
static_one = record {
  id = "s0";
  address = "sched.example:8085";
  is_leader = true;
  healthy = false;
  last_seen = 0;
}

abbrev cluster_a : Cluster
cluster_a = record {
  id = "a";
  name = "A";
  schedulers = static_one ∷ [];
  routing_strategy = "leader-only";
}

abbrev pool : PoolManager
pool = record {
  cfg = record {
    default_cluster_id = "a";
    clusters =
        record { id = "a"; name = "A"; routing_strategy = ""; schedulers = static_one ∷ [] } ∷ [];
    repository_cluster_map = [];
    discovery_svc = "_sched";
    discovery_domain = "lan";
  };
  clusters = ("a", cluster_a) ∷ [];
}

finds_one : discover_schedulers net pool ≡ ok ("10.0.0.1:8085" ∷ [])
unfolding discover_schedulers net answer_srv answer_host join trim_space trim_prefix trim_suffix
    has_prefix contains dedupe sort_by str_lt concat
finds_one = refl

discover_and_merge-keeps_example :
    (c' : Cluster) × (lookup (merged_id pool) (discover_and_merge net pool).clusters ≡ some c')
    × Distinct c'.schedulers
    × ((s : SchedulerInstance)
        → member s.address (static_addresses (merged_id pool) pool.cfg.clusters) ≡ true
        → has_instance s (default_cluster pool).schedulers ≡ true
        → has_instance s c'.schedulers ≡ true)
    × ((k : String)
        → (merged_id pool == k) ≡ false
        → lookup k (discover_and_merge net pool).clusters ≡ lookup k pool.clusters)
unfolding lookup default_cluster_id trim_space merged_id or_bootstrap
discover_and_merge-keeps_example =
    discover_and_merge-keeps net pool "10.0.0.1:8085" [] finds_one (refl, tt)

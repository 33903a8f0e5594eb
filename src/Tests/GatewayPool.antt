-- ===== src/Tests/GatewayPool.antt =====
-- The gateway's scheduler pool with three instances, of which two are healthy.
use persys_cloud.Prelude.{
  put, String, ◌≡◌, refl, Bool, true, false, not, List, [], ◌∷◌, some, ok, lookup, all, Perm, ◌==◌,
  str_lt, sort_by,
}
use persys_cloud.Text.{trim_space, bytes}
use persys_cloud.Gateway.Pool.{
  SchedulerInstance, Cluster, PoolManager, ordered_schedulers, effective_cluster, mark_unhealthy,
  refresh_health, strategy_leader_only, strategy_sticky, fnv32a, leader_first, healthy_sorted,
  default_cluster_id, index_by_key, rotate_by_index,
}
use persys_cloud.Gateway.Pool.Order.{healthy_of, ordered_schedulers-perm, ordered_schedulers-leader}
use persys_cloud.Gateway.Pool.Health.{
  mark_all, ordered_schedulers-refresh_health, ordered_schedulers-mark_unhealthy,
}

abbrev one : SchedulerInstance
one = record {
  id = "s1";
  address = "10.0.0.1:8085";
  is_leader = false;
  healthy = true;
  last_seen = 4;
}

abbrev two : SchedulerInstance
two = record {
  id = "s2";
  address = "10.0.0.2:8085";
  is_leader = true;
  healthy = true;
  last_seen = 4;
}

abbrev three : SchedulerInstance
three = record {
  id = "s3";
  address = "10.0.0.3:8085";
  is_leader = false;
  healthy = false;
  last_seen = 2;
}

abbrev cluster_a : Cluster
cluster_a = record {
  id = "a";
  name = "A";
  schedulers = three ∷ two ∷ one ∷ [];
  routing_strategy = strategy_leader_only;
}

abbrev pool : PoolManager
pool = record {
  cfg = record {
    default_cluster_id = "a";
    clusters = [];
    repository_cluster_map = [];
    discovery_svc = "";
    discovery_domain = "";
  };
  clusters =
      ("a", cluster_a)
      ∷ ("b", record cluster_a { id = "b"; routing_strategy = strategy_sticky })
      ∷ [];
}

leader_goes_first : ordered_schedulers pool "" "" "" ≡ ok (two ∷ one ∷ [])
unfolding ordered_schedulers effective_cluster default_cluster_id trim_space lookup healthy_sorted
    leader_first sort_by str_lt
leader_goes_first = refl

-- The published test value of 32-bit FNV-1a.
fnv_of_foobar : fnv32a "foobar" ≡ 0xbf9cf968
unfolding fnv32a bytes
fnv_of_foobar = refl

sticky_rotates : ordered_schedulers pool "b" "session-9" "" ≡ ok (two ∷ one ∷ [])
unfolding ordered_schedulers effective_cluster trim_space lookup healthy_sorted sort_by str_lt
    index_by_key rotate_by_index fnv32a bytes
sticky_rotates = refl

ordered_schedulers-perm_example :
    (c : Cluster) × (lookup (effective_cluster pool "") pool.clusters ≡ some c)
    × Perm (two ∷ one ∷ []) (healthy_of c)
ordered_schedulers-perm_example =
    ordered_schedulers-perm pool "" "" "" (two ∷ one ∷ []) leader_goes_first

pool_has_a : lookup (effective_cluster pool "a") pool.clusters ≡ some cluster_a
unfolding effective_cluster trim_space lookup
pool_has_a = refl

ordered_schedulers-leader_example :
    (s : SchedulerInstance) × (rest : List SchedulerInstance) × (ordered_schedulers pool "a" "" ""
      ≡ ok (s ∷ rest))
    × (s.is_leader ≡ true)
ordered_schedulers-leader_example =
    ordered_schedulers-leader pool "a" "" "" cluster_a pool_has_a refl refl

abbrev answers : String → Bool
answers a = a == "10.0.0.3:8085"

abbrev three_up : SchedulerInstance
three_up = record three { healthy = true; last_seen = 9 }

only_three : ordered_schedulers (refresh_health answers 9 pool) "a" "" "" ≡ ok (three_up ∷ [])
unfolding ordered_schedulers refresh_health effective_cluster default_cluster_id trim_space lookup
    healthy_sorted leader_first sort_by str_lt
only_three = refl

ordered_schedulers-refresh_health_example : all (λ s. answers s.address) (three_up ∷ []) ≡ true
ordered_schedulers-refresh_health_example =
    ordered_schedulers-refresh_health answers 9 pool "a" "" "" (three_up ∷ []) only_three

-- The second instance fails, then an unknown one.
abbrev two_marks : PoolManager
two_marks = mark_all (("a", "10.0.0.9:8085") ∷ []) (mark_unhealthy pool "a" "10.0.0.2:8085")

without_two : ordered_schedulers two_marks "a" "" "" ≡ ok (one ∷ [])
unfolding put ordered_schedulers mark_all mark_unhealthy effective_cluster default_cluster_id
    trim_space lookup healthy_sorted leader_first sort_by str_lt
without_two = refl

a_is_named : (trim_space "a" == "") ≡ false
unfolding trim_space
a_is_named = refl

ordered_schedulers-mark_unhealthy_example :
    all (λ s. not (s.address == "10.0.0.2:8085")) (one ∷ []) ≡ true
ordered_schedulers-mark_unhealthy_example =
    ordered_schedulers-mark_unhealthy pool "a" "10.0.0.2:8085" (("a", "10.0.0.9:8085") ∷ []) "" ""
      (one ∷ []) a_is_named without_two

-- ===== src/Gateway/Pool/Health.antt =====
-- scheduler_pool.go: the health marks and what they mean for routing.
use persys_cloud.Prelude.{
  ℕ, String, ◌≡◌, refl, Bool, true, false, inl, inr, List, [], ◌∷◌, map, ◌∙◌, not, some, ok, lookup,
  put, lookup-put, filter, all, all-perm, Assoc, ◌==◌, Option-cases, Bool-cases, subst, eq_iff,
  Option, none, arith, eq_refl,
}
use persys_cloud.Gateway.Pool.{
  SchedulerInstance, Cluster, PoolManager, ordered_schedulers, effective_cluster, fail_address,
  mark_unhealthy, probed, refreshed, refresh_health,
}
use persys_cloud.Gateway.Pool.Order.{ordered_schedulers-perm}
use persys_cloud.Text.{trim_space}

-- What a mark promises: whoever is healthy passes the test.
abbrev pub HealthyPass : (SchedulerInstance → Bool) → List SchedulerInstance → Type 0
HealthyPass p l = all p (filter (λ s. s.healthy) l) ≡ true

failed_pass :
    (address : String) (l : List SchedulerInstance)
    → HealthyPass (λ s. not (s.address == address)) (map (fail_address address) l)
unfolding fail_address
failed_pass address [] = refl
failed_pass address (s ∷ l) = ground (arith, failed_pass address l)

probed_pass :
    (probe : String → Bool) (now : ℕ) (l : List SchedulerInstance)
    → HealthyPass (λ s. probe s.address) (map (probed probe now) l)
unfolding probed
probed_pass probe now [] = refl
probed_pass probe now (s ∷ l) = ground (arith, probed_pass probe now l)

refreshed_pass :
    (probe : String → Bool) (now : ℕ) (k : String) (m : Assoc Cluster) (c : Cluster)
    → lookup k (refreshed probe now m) ≡ some c
    → HealthyPass (λ s. probe s.address) c.schedulers
unfolding lookup refreshed
refreshed_pass probe now k [] c e = cc
refreshed_pass probe now k ((j, d) ∷ m) c e =
    ground (arith, probed_pass probe now d.schedulers, refreshed_pass probe now k m c)

-- After a health check, every instance that a request is routed to answered the probe.
pub ordered_schedulers-refresh_health :
    (probe : String → Bool) (now : ℕ) (m : PoolManager)
    (cluster_id session_key workload_key : String) (l : List SchedulerInstance)
    → ordered_schedulers (refresh_health probe now m) cluster_id session_key workload_key ≡ ok l
    → all (λ s. probe s.address) l ≡ true
unfolding refresh_health
ordered_schedulers-refresh_health probe now m cid sk wk l e =
    let (c, found, perm) = ordered_schedulers-perm (refresh_health probe now m) cid sk wk l e in
    all-perm (λ s. probe s.address) perm
    ∙ refreshed_pass probe now (effective_cluster (refresh_health probe now m) cid) m.clusters c
        found

marked_pass :
    (m : PoolManager) (cid address : String) (c : Cluster)
    → lookup cid (mark_unhealthy m cid address).clusters ≡ some c
    → HealthyPass (λ s. not (s.address == address)) c.schedulers
unfolding mark_unhealthy
marked_pass m cid address c e = elim (Option-cases (lookup cid m.clusters)) [
  | inl p ↦ cc (p, rw (p, mark_unhealthy) at e)
  | inr (d, p) ↦
      let marked : Cluster = record d { schedulers = map (fail_address address) d.schedulers } in
      let q : lookup cid (put cid marked m.clusters) ≡ some c = rw (p, mark_unhealthy) at e in
      ground
        (arith, failed_pass address d.schedulers, lookup-put cid cid marked m.clusters, eq_refl cid)
]

-- A pass stays when another instance is marked.
failed-HealthyPass :
    (p : SchedulerInstance → Bool) (address : String) (l : List SchedulerInstance)
    → HealthyPass p l
    → HealthyPass p (map (fail_address address) l)
unfolding fail_address
failed-HealthyPass p address [] h = refl
failed-HealthyPass p address (s ∷ l) h = ground (arith, h, failed-HealthyPass p address l)

Passes : String → Option Cluster → Type 0
Passes address none = Unit
Passes address (some c) = HealthyPass (λ s. not (s.address == address)) c.schedulers

-- No healthy instance of a cluster has the address.
abbrev Down : String → String → PoolManager → Type 0
Down cid address m =
    (c : Cluster)
    → lookup cid m.clusters ≡ some c
    → HealthyPass (λ s. not (s.address == address)) c.schedulers

mark_unhealthy-Down :
    (m : PoolManager) (cid address k other : String)
    → Down cid address m
    → Down cid address (mark_unhealthy m k other)
unfolding mark_unhealthy Passes
mark_unhealthy-Down m cid address k other h c e = elim (Option-cases (lookup k m.clusters)) [
  | inl p ↦ h c (rw (p, mark_unhealthy) at e)
  | inr (d, p) ↦
      let marked : Cluster = record d { schedulers = map (fail_address other) d.schedulers } in
      let q : lookup cid (put k marked m.clusters) ≡ some c = rw (p, mark_unhealthy) at e in
      let kept = failed-HealthyPass (λ s. not (s.address == address)) other d.schedulers in
      elim (Bool-cases (k == cid)) [
        | inl same ↦
            subst (Passes address) (rw (lookup-put k cid marked m.clusters, same) at q)
              (kept (h d (subst (λ j. lookup j m.clusters ≡ some d) ((eq_iff k cid).0 same) p)))
        | inr differ ↦ h c (rw (lookup-put k cid marked m.clusters, differ) at q)
      ]
]

-- The marks of failed requests, each of a cluster and an address, one after the other.
unfoldable pub mark_all : List (String × String) → PoolManager → PoolManager
mark_all [] m = m
mark_all ((k, other) ∷ marks) m = mark_all marks (mark_unhealthy m k other)

mark_all-Down :
    (marks : List (String × String)) (m : PoolManager) (cid address : String)
    → Down cid address m
    → Down cid address (mark_all marks m)
unfolding mark_all
mark_all-Down [] m cid address h = h
mark_all-Down ((k, other) ∷ marks) m cid address h =
    mark_all-Down marks (mark_unhealthy m k other) cid address
      (mark_unhealthy-Down m cid address k other h)

-- After an address of a named cluster was marked unhealthy, and then any others were, requests to that cluster
-- are not routed to the address.
pub ordered_schedulers-mark_unhealthy :
    (m : PoolManager) (cluster_id address : String) (marks : List (String × String))
    (session_key workload_key : String) (l : List SchedulerInstance)
    → (trim_space cluster_id == "") ≡ false
    → ordered_schedulers
        (mark_all marks (mark_unhealthy m cluster_id address))
        cluster_id
        session_key
        workload_key
      ≡ ok l
    → all (λ s. not (s.address == address)) l ≡ true
unfolding effective_cluster
ordered_schedulers-mark_unhealthy m cid address marks sk wk l named e =
    let (c, found, perm) =
      ordered_schedulers-perm (mark_all marks (mark_unhealthy m cid address)) cid sk wk l e in
    all-perm (λ s. not (s.address == address)) perm
    ∙ mark_all-Down marks (mark_unhealthy m cid address) cid address (marked_pass m cid address) c
        (rw named at found)

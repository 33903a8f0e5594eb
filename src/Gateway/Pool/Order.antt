-- ===== src/Gateway/Pool/Order.antt =====
-- scheduler_pool.go, OrderedSchedulers: which instances a request is routed to, and in which order.
use mathlib.Core.List.{perm_middle, perm_append_comm, append_assoc, append-nil}
use mathlib.Core.List.Perm
use persys_cloud.Prelude.{
  ℕ, String, ◌≡◌, refl, ap, subst, Bool, true, false, ◌⊎◌, inl, inr, List, [], ◌∷◌, ◌++◌, Perm,
  ◌||◌, some, ok, lookup, filter, take, drop, any, take-append-drop, length, if◌then◌else◌, leb,
  nat_eq, sort_by-perm, any-sort_by, ◌∙◌, ◌&&◌, Bool-cases, Option-cases, arith,
}
use persys_cloud.Gateway.Pool.{
  SchedulerInstance, Cluster, PoolManager, lead_from, leader_first, rotate_by_index, healthy_sorted,
  route, order_cluster, ordered_schedulers, by_id, strategy_leader_only, effective_cluster,
  index_by_key,
}

lead_step :
    (b : Bool) (s : SchedulerInstance) (before rest next : List SchedulerInstance)
    → Perm next (before ++ (s ∷ rest))
    → Perm (if b then s ∷ (before ++ rest) else next) (before ++ (s ∷ rest))
lead_step true s before rest next h = Perm.symm (perm_middle before rest)
lead_step false s before rest next h = h

lead_from-perm : (before l : List SchedulerInstance) → Perm (lead_from before l) (before ++ l)
unfolding lead_from
lead_from-perm before [] = rw append-nil (Perm.refl before)
lead_from-perm before (s ∷ rest) =
    lead_step s.is_leader s before rest (lead_from (before ++ s ∷ []) rest) (
      subst (λ (l : List SchedulerInstance). Perm (lead_from (before ++ s ∷ []) rest) l)
        (append_assoc before (s ∷ []) rest) (lead_from-perm (before ++ s ∷ []) rest))

leader_first-perm : (l : List SchedulerInstance) → Perm (leader_first l) l
unfolding leader_first
leader_first-perm l = lead_from-perm [] l

pub rotate_by_index-perm {ℓ} : {A : Type ℓ} (l : List A) (i : ℕ) → Perm (rotate_by_index l i) l
unfolding rotate_by_index
rotate_by_index-perm l i = elim (Bool-cases (leb (length l) 1 || nat_eq i 0)) [
  | inl h ↦ rw h (Perm.refl l)
  | inr h ↦ rw h (
      subst (λ k. Perm (drop i l ++ take i l) k) (take-append-drop i l)
        (perm_append_comm (drop i l) (take i l)))
]

healthy_sorted-perm : (c : Cluster) → Perm (healthy_sorted c) (filter (λ s. s.healthy) c.schedulers)
unfolding healthy_sorted
healthy_sorted-perm c = sort_by-perm by_id (filter (λ s. s.healthy) c.schedulers)

module _ (strategy : String) (healthy : List SchedulerInstance)
    (session_key workload_key : String) where
  route_cases :
      (l : List SchedulerInstance)
      → route strategy healthy session_key workload_key ≡ ok l
      → (l ≡ leader_first healthy)
        ⊎ ((l ≡ rotate_by_index healthy (index_by_key session_key (length healthy)))
            ⊎ (l ≡ rotate_by_index healthy (index_by_key workload_key (length healthy))))
  unfolding route
  route_cases l e = ground arith

  route-perm :
      (l : List SchedulerInstance)
      → route strategy healthy session_key workload_key ≡ ok l
      → Perm l healthy
  route-perm l e = elim (route_cases l e) [
    | inl p ↦ rw p (leader_first-perm healthy)
    | inr (inl p) ↦ rw p (rotate_by_index-perm healthy (index_by_key session_key (length healthy)))
    | inr (inr p) ↦ rw p (rotate_by_index-perm healthy (index_by_key workload_key (length healthy)))
  ]

abbrev pub healthy_of : Cluster → List SchedulerInstance
healthy_of c = filter (λ s. s.healthy) c.schedulers

order_cluster-perm :
    (c : Cluster) (sk wk : String) (l : List SchedulerInstance)
    → order_cluster c sk wk ≡ ok l
    → Perm l (healthy_of c)
unfolding order_cluster
order_cluster-perm c sk wk l = go (healthy_of c) refl
  where
    go :
        (h : List SchedulerInstance)
        → healthy_of c ≡ h
        → order_cluster c sk wk ≡ ok l
        → Perm l (healthy_of c)
    go [] p e = cc (rw (p, order_cluster) at e)
    go (s ∷ rest) p e =
        Perm.trans
          (route-perm c.routing_strategy (healthy_sorted c) sk wk l (rw (p, order_cluster) at e))
          (healthy_sorted-perm c)

-- A successful answer lists every healthy instance of the cluster, each as often as it is
-- configured, and nothing else.
pub ordered_schedulers-perm :
    (m : PoolManager) (cluster_id session_key workload_key : String) (l : List SchedulerInstance)
    → ordered_schedulers m cluster_id session_key workload_key ≡ ok l
    → (c : Cluster) × (lookup (effective_cluster m cluster_id) m.clusters ≡ some c)
      × Perm l (healthy_of c)
unfolding ordered_schedulers
ordered_schedulers-perm m cid sk wk l e =
    elim (Option-cases (lookup (effective_cluster m cid) m.clusters)) [
      | inl p ↦ cc (rw (p, ordered_schedulers) at e)
      | inr (c, p) ↦ (c, p, order_cluster-perm c sk wk l (rw (p, ordered_schedulers) at e))
    ]

lead_from-head :
    (before l : List SchedulerInstance)
    → any (λ s. s.is_leader) l ≡ true
    → (s : SchedulerInstance) × (rest : List SchedulerInstance) × (lead_from before l ≡ s ∷ rest)
      × (s.is_leader ≡ true)
unfolding lead_from
lead_from-head before [] h = cc
lead_from-head before (s ∷ rest) h = elim (Bool-cases s.is_leader) [
  | inl b ↦ (s, before ++ rest, ground arith, b)
  | inr b ↦
      let (t, more, e, leads) = lead_from-head (before ++ s ∷ []) rest (ground arith) in
      (t, more, ground arith, leads)
]

any-filter :
    (p q : SchedulerInstance → Bool) (l : List SchedulerInstance)
    → any p (filter q l) ≡ any (λ s. p s && q s) l
any-filter p q [] = refl
any-filter p q (s ∷ l) = ground (arith, any-filter p q l)

abbrev pub can_lead : SchedulerInstance → Bool
can_lead s = s.is_leader && s.healthy

order_cluster-leader :
    (c : Cluster) (sk wk : String)
    → c.routing_strategy ≡ strategy_leader_only
    → any can_lead c.schedulers ≡ true
    → order_cluster c sk wk ≡ ok (leader_first (healthy_sorted c))
unfolding order_cluster route
order_cluster-leader c sk wk e h = go (healthy_of c) refl
  where
    go :
        (k : List SchedulerInstance)
        → healthy_of c ≡ k
        → order_cluster c sk wk ≡ ok (leader_first (healthy_sorted c))
    go [] p =
        cc (
          any-filter (λ s. s.is_leader) (λ s. s.healthy) c.schedulers,
          ap (any (λ s. s.is_leader)) p,
        )
    go (s ∷ rest) p = rw (p, order_cluster) (rw e refl)

-- A leader-only cluster with a healthy leader always routes, and to a leader first.
pub ordered_schedulers-leader :
    (m : PoolManager) (cluster_id session_key workload_key : String) (c : Cluster)
    → lookup (effective_cluster m cluster_id) m.clusters ≡ some c
    → c.routing_strategy ≡ strategy_leader_only
    → any can_lead c.schedulers ≡ true
    → (s : SchedulerInstance) × (rest : List SchedulerInstance) × (ordered_schedulers m cluster_id
          session_key workload_key
        ≡ ok (s ∷ rest))
      × (s.is_leader ≡ true)
unfolding ordered_schedulers leader_first healthy_sorted
ordered_schedulers-leader m cid sk wk c found e h =
    let (s, rest, p, leads) = lead_from-head [] (healthy_sorted c) (
      any-sort_by (λ s. s.is_leader) by_id (healthy_of c)
      ∙ any-filter (λ s. s.is_leader) (λ s. s.healthy) c.schedulers
      ∙ h) in
    (s, rest, rw (found, ordered_schedulers) (order_cluster-leader c sk wk e h ∙ ap ok p), leads)

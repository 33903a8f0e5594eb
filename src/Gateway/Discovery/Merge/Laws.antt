-- ===== src/Gateway/Discovery/Merge/Laws.antt =====
-- scheduler_pool.go, discoverAndMerge: what a merge keeps, adds and drops.
use persys_cloud.Prelude.{
  ℕ, ◌+◌, String, ◌≡◌, refl, ap, sym, ◌∙◌, Bool, true, false, ◌||◌, List, [], ◌∷◌, none, some, ok,
  lookup, lookup-put, is_some, any, length, filter, ◌==◌, arith, eq_iff, eq_refl, inl, inr,
  Bool-cases, Option-cases,
}
use persys_cloud.Gateway.Pool.{SchedulerInstance, Cluster, PoolManager}
use persys_cloud.Gateway.Discovery.{
  Net, member, canonical_address_keys, discovered_id, discover_schedulers,
}
use persys_cloud.Gateway.Discovery.Merge.{
  Merging, name_at, keeps_entry, index_existing, add_address, merge_address, merge_addresses,
  merge_schedulers, discovered_instance, merge_cluster, merge_found, merged_id, or_bootstrap,
  discover_and_merge, static_addresses,
}
use persys_cloud.Gateway.Discovery.Merge.Instances.{
  has_address, Distinct, same_instance, has_instance, has_instance-name_at, has_address-name_at,
  name_at-Distinct, any-append, append-Distinct,
}

-- The index by address covers the instances, whose addresses are distinct.
pub record Indexed (st : Merging) : Type 0 where
  pub distinct : Distinct st.schedulers
  pub covers :
      (a : String)
      → has_address a st.schedulers ≡ true
      → is_some (lookup a st.existing_by_addr) ≡ true

module _ (net : Net) where
  add_address-Indexed :
      (addr : String) (st : Merging)
      → lookup addr st.existing_by_addr ≡ none
      → Indexed st
      → Indexed (add_address net addr st)
  unfolding add_address
  add_address-Indexed addr st new v = record {
    distinct =
        append-Distinct st.schedulers (discovered_instance addr) v.distinct
          (ground (arith, v.covers addr));
    covers = λ a h. ground (
      arith,
      any-append (λ s. s.address == a) st.schedulers (discovered_instance addr ∷ []),
      lookup-put addr a (length st.schedulers) st.existing_by_addr,
      v.covers a,
    );
  }

  -- An address is known exactly, known by a key, or new.
  merge_address_cases :
      (P : Merging → Type 0) (addr : String) (st : Merging)
      → ((i : ℕ) → P (record st { schedulers = name_at i (discovered_id addr) st.schedulers }))
      → P st
      → (lookup addr st.existing_by_addr ≡ none → P (add_address net addr st))
      → P (merge_address net addr st)
  unfolding merge_address
  merge_address_cases P addr st known same new =
      elim (Option-cases (lookup addr st.existing_by_addr)) [
        | inr (i, e) ↦ rw (e, merge_address) (known i)
        | inl e ↦
            elim (Bool-cases (
              any (λ k. is_some (lookup k st.existing_by_canonical))
                (canonical_address_keys net addr))) [
                  | inl seen ↦ rw (e, merge_address) (rw seen same)
                  | inr fresh ↦ rw (e, merge_address) (rw fresh (new e))
                ]
      ]

  merge_address-Indexed :
      (addr : String) (st : Merging) → Indexed st → Indexed (merge_address net addr st)
  merge_address-Indexed addr st v =
      merge_address_cases Indexed addr st
        (λ i. record {
          distinct = name_at-Distinct i (discovered_id addr) st.schedulers v.distinct;
          covers = λ a h.
              v.covers a (sym (has_address-name_at a i (discovered_id addr) st.schedulers) ∙ h);
        })
        v (λ new. add_address-Indexed addr st new v)

  merge_address-has_instance :
      (addr : String) (s : SchedulerInstance) (st : Merging)
      → has_instance s st.schedulers ≡ true
      → has_instance s (merge_address net addr st).schedulers ≡ true
  unfolding add_address
  merge_address-has_instance addr s st h =
      merge_address_cases (λ t. has_instance s t.schedulers ≡ true) addr st
        (λ i. has_instance-name_at s i (discovered_id addr) st.schedulers h) h
        (λ _.
          ground
            (arith, any-append (same_instance s) st.schedulers (discovered_instance addr ∷ [])))

  merge_addresses-Indexed :
      (l : List String) (st : Merging) → Indexed st → Indexed (merge_addresses net l st)
  unfolding merge_addresses
  merge_addresses-Indexed [] st v = v
  merge_addresses-Indexed (a ∷ l) st v =
      merge_addresses-Indexed l (merge_address net a st) (merge_address-Indexed a st v)

  merge_addresses-has_instance :
      (l : List String) (s : SchedulerInstance) (st : Merging)
      → has_instance s st.schedulers ≡ true
      → has_instance s (merge_addresses net l st).schedulers ≡ true
  unfolding merge_addresses
  merge_addresses-has_instance [] s st h = h
  merge_addresses-has_instance (b ∷ l) s st h =
      merge_addresses-has_instance l s (merge_address net b st)
        (merge_address-has_instance b s st h)

  schedulers-index_existing :
      (i : ℕ) (l : List SchedulerInstance) (st : Merging)
      → (index_existing net i l st).schedulers ≡ st.schedulers
  unfolding index_existing
  schedulers-index_existing i [] st = refl
  schedulers-index_existing i (s ∷ l) st = schedulers-index_existing (i + 1) l _

  index_existing-covers :
      (i : ℕ) (l : List SchedulerInstance) (st : Merging) (a : String)
      → (has_address a l || is_some (lookup a st.existing_by_addr)) ≡ true
      → is_some (lookup a (index_existing net i l st).existing_by_addr) ≡ true
  unfolding index_existing
  index_existing-covers i [] st a h = h
  index_existing-covers i (s ∷ l) st a h =
      index_existing-covers (i + 1) l _ a
        (ground (arith, lookup-put s.address a i st.existing_by_addr))

  module _ (l : List SchedulerInstance) where
    start : Merging
    start = record { schedulers = l; existing_by_addr = []; existing_by_canonical = [] }

    start-Indexed : Distinct l → Indexed (index_existing net 0 l start)
    unfolding start
    start-Indexed d = record {
      distinct = rw schedulers-index_existing d;
      covers = λ a h.
          index_existing-covers 0 l start a
            (ground (arith, ap (has_address a) (schedulers-index_existing 0 l start)));
    }

    merge_schedulers-Distinct :
        (found : List String) → Distinct l → Distinct (merge_schedulers net l found)
    unfolding merge_schedulers start
    merge_schedulers-Distinct found d = (merge_addresses-Indexed found _ (start-Indexed d)).distinct

    merge_schedulers-has_instance :
        (found : List String) (s : SchedulerInstance)
        → has_instance s l ≡ true
        → has_instance s (merge_schedulers net l found) ≡ true
    unfolding merge_schedulers start
    merge_schedulers-has_instance found s h =
        merge_addresses-has_instance found s _ (rw schedulers-index_existing h)

has_address-filter :
    (p : SchedulerInstance → Bool) (a : String) (l : List SchedulerInstance)
    → has_address a l ≡ false
    → has_address a (filter p l) ≡ false
has_address-filter p a [] h = refl
has_address-filter p a (s ∷ l) h = ground (arith, has_address-filter p a l)

filter-Distinct :
    (p : SchedulerInstance → Bool) (l : List SchedulerInstance) → Distinct l → Distinct (filter p l)
filter-Distinct p [] d = tt
filter-Distinct p (s ∷ l) d = elim (Bool-cases (p s)) [
  | inl h ↦ rw h (has_address-filter p s.address l d.0, filter-Distinct p l d.1)
  | inr h ↦ rw h (filter-Distinct p l d.1)
]

-- An instance whose address is configured stays.
filter-has_instance :
    (static found : List String) (s : SchedulerInstance) (l : List SchedulerInstance)
    → member s.address static ≡ true
    → has_instance s l ≡ true
    → has_instance s (filter (keeps_entry static found) l) ≡ true
unfolding keeps_entry same_instance
filter-has_instance static found s [] m h = cc
filter-has_instance static found s (t ∷ l) m h =
    ground (arith, filter-has_instance static found s l, eq_iff t.address s.address)

-- The cluster that discovered addresses are merged into: the default cluster, or a new one.
abbrev pub default_cluster : PoolManager → Cluster
default_cluster m = or_bootstrap (merged_id m) (lookup (merged_id m) m.clusters)

-- A discovery that found addresses changes the default cluster only, which it makes where there is
-- none. Where the addresses in that cluster are distinct, it keeps them distinct, and keeps every
-- instance whose address is configured, with its role, health and time and with its id, but for one
-- without an id, which may be given one.
pub discover_and_merge-keeps :
    (net : Net) (m : PoolManager) (a : String) (rest : List String)
    → discover_schedulers net m ≡ ok (a ∷ rest)
    → Distinct (default_cluster m).schedulers
    → (c' : Cluster) × (lookup (merged_id m) (discover_and_merge net m).clusters ≡ some c')
      × Distinct c'.schedulers
      × ((s : SchedulerInstance)
          → member s.address (static_addresses (merged_id m) m.cfg.clusters) ≡ true
          → has_instance s (default_cluster m).schedulers ≡ true
          → has_instance s c'.schedulers ≡ true)
      × ((k : String)
          → (merged_id m == k) ≡ false
          → lookup k (discover_and_merge net m).clusters ≡ lookup k m.clusters)
unfolding discover_and_merge
discover_and_merge-keeps net m a rest found d =
    let c = default_cluster m in
    let merged = merge_cluster net m (a ∷ rest) c in
    (
      merged,
      rw (found, merge_found)
          (ground (
            arith,
            lookup-put (merged_id m) (merged_id m) merged m.clusters,
            eq_refl (merged_id m),
          )),
      unfold merge_cluster in
          filter-Distinct _ (merge_schedulers net c.schedulers (a ∷ rest))
            (merge_schedulers-Distinct net c.schedulers (a ∷ rest) d),
      λ s st h.
          unfold merge_cluster in
          filter-has_instance _ (a ∷ rest) s (merge_schedulers net c.schedulers (a ∷ rest)) st
            (merge_schedulers-has_instance net c.schedulers (a ∷ rest) s h),
      λ k ne.
          rw (found, merge_found) (ground (arith, lookup-put (merged_id m) k merged m.clusters)),
    )

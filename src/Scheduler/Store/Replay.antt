-- ===== src/Scheduler/Store/Replay.antt =====
-- state_store.go and scheduler.go: the keys of the store against a table of the last saved workloads.
use persys_cloud.Prelude.{
  String, ◌≡◌, refl, ap, subst, ◌∙◌, true, false, List, [], ◌∷◌, Option, none, some, ok,
  if◌then◌else◌, is_empty, All, put, ◌==◌, eq_iff, inl, inr, Bool-cases,
}
use persys_cloud.Scheduler.Models.{Workload, spec_value, status_value, retry_value}
use persys_cloud.Scheduler.Services.{Formats, Services, Scheduler, Act, pure, ◌>>=◌, ◌>>◌}
use persys_cloud.Scheduler.Mode.{is_writable}
use persys_cloud.Scheduler.Projection.{
  spec_from_workload, stored_status, stored_metadata, status_from_workload,
  workload_of_spec-projections,
}
use persys_cloud.Scheduler.Storage.{workload_managed_volume_specs, should_sync_managed_storage}
use persys_cloud.Scheduler.Store.{
  workload_spec_key, workload_status_key, retry_key, marked_storage, save_workload,
}
use persys_cloud.Scheduler.Store.Keys.{
  status_key-spec_key, retry_key-spec_key, retry_key-status_key, spec_key-inj, status_key-inj,
  spec_key-status_key,
}
use persys_cloud.Scheduler.Store.RoundTrip.{
  Reliable, after_spec, after_status, after_retry, holds_spec, holds_status, save_marked_lem,
  get_workload_by_id-held,
}
use persys_cloud.Scheduler.Store.Reads.{get_workload_by_id}

module _ {F : Type 0} where
  -- The table of the saved workloads at an id, after further ones.
  unfoldable pub last_saved : String → List (Workload F) → Option (Workload F) → Option (Workload F)
  last_saved id [] o = o
  last_saved id (w ∷ ws) o = last_saved id ws (if w.id == id then some w else o)

module _ {F : Type 0} ⦃T : Formats⦄ where
  -- A workload with an id and no managed storage.
  pub record Plain (w : Workload F) : Type 0 where
    pub named : (w.id == "") ≡ false
    pub unmanaged : is_empty (workload_managed_volume_specs w) ≡ true
    pub unsynced : should_sync_managed_storage w ≡ false

module _ {W F : Type 0} ⦃T : Formats⦄ ⦃V : Services W F⦄ where
  unfoldable pub save_all : List (Workload F) → Act W F (Unit {0})
  save_all [] = pure tt
  save_all (w ∷ ws) = save_workload w >> save_all ws

module _ {W F : Type 0} ⦃T : Formats⦄ ⦃V : Services W F⦄ (R : Reliable V) where
  -- The two keys of an id hold the projections of its workload in the table, if it has one.
  abbrev pub Stores : W → String → Option (Workload F) → Type 0
  Stores v id none = Unit
  Stores v id (some w) =
      (w.id ≡ id)
      × (R.holds v (workload_spec_key id) ≡ some (spec_value (spec_from_workload w)))
      × (R.holds v (workload_status_key id)
          ≡ some (status_value (stored_status (status_from_workload w))))

  other_spec :
      (w : Workload F) (v : W) (id : String)
      → (w.id == id) ≡ false
      → R.holds (after_retry R w v) (workload_spec_key id) ≡ R.holds v (workload_spec_key id)
  other_spec w v id h =
      rw
        (
          R.put_holds (retry_key w.id) (retry_value w.retry) (after_status R w v)
              (workload_spec_key id),
          retry_key-spec_key w.id id,
          R.put_holds (workload_status_key w.id)
              (status_value (stored_status (status_from_workload w))) (after_spec R w v)
              (workload_spec_key id),
          status_key-spec_key w.id id,
          R.put_holds (workload_spec_key w.id) (spec_value (spec_from_workload w)) v
              (workload_spec_key id),
          spec_key-inj w.id id h,
        )
        refl

  other_status :
      (w : Workload F) (v : W) (id : String)
      → (w.id == id) ≡ false
      → R.holds (after_retry R w v) (workload_status_key id) ≡ R.holds v (workload_status_key id)
  other_status w v id h =
      rw
        (
          R.put_holds (retry_key w.id) (retry_value w.retry) (after_status R w v)
              (workload_status_key id),
          retry_key-status_key w.id id,
          R.put_holds (workload_status_key w.id)
              (status_value (stored_status (status_from_workload w))) (after_spec R w v)
              (workload_status_key id),
          status_key-inj w.id id h,
          R.put_holds (workload_spec_key w.id) (spec_value (spec_from_workload w)) v
              (workload_status_key id),
          spec_key-status_key w.id id,
        )
        refl

  Stores-other :
      (w : Workload F) (v : W) (id : String) (o : Option (Workload F))
      → (w.id == id) ≡ false
      → Stores v id o
      → Stores (after_retry R w v) id o
  Stores-other w v id none h t = tt
  Stores-other w v id (some u) h t = (t.0, other_spec w v id h ∙ t.1, other_status w v id h ∙ t.2)

  Stores-saved :
      (w : Workload F) (v : W) (id : String) → w.id ≡ id → Stores (after_retry R w v) id (some w)
  Stores-saved w v id e =
      subst (λ i. Stores (after_retry R w v) i (some w)) e
        (refl, holds_spec R w v, holds_status R w v)

  Stores-step :
      (w : Workload F) (v : W) (id : String) (o : Option (Workload F))
      → Stores v id o
      → Stores (after_retry R w v) id (if w.id == id then some w else o)
  Stores-step w v id o t = elim (Bool-cases (w.id == id)) [
    | inl e ↦ rw e (Stores-saved w v id ((eq_iff w.id id).0 e))
    | inr e ↦ rw e (Stores-other w v id o e t)
  ]

  save_workload-Plain :
      (w : Workload F) (s : Scheduler W F)
      → is_writable s ≡ true
      → Plain w
      → save_workload w s ≡ (
        ok tt,
        record s {
          cache_workloads = put w.id w s.cache_workloads;
          world = after_retry R w s.world;
        },
      )
  unfolding save_workload marked_storage
  save_workload-Plain w s h p = rw p.unmanaged (save_marked_lem R w s h p.unsynced)

  save_all-Stores :
      (ws : List (Workload F)) (id : String) (o : Option (Workload F)) (s : Scheduler W F)
      → is_writable s ≡ true
      → All Plain ws
      → Stores s.world id o
      → Stores (save_all ws s).1.world id (last_saved id ws o)
  unfolding save_all last_saved ◌>>=◌ is_writable
  save_all-Stores [] id o s h ps t = t
  save_all-Stores (w ∷ ws) id o s h ps t = rw (save_workload-Plain w s h ps.0) (
      save_all-Stores ws id (if w.id == id then some w else o)
        (record s {
          cache_workloads = put w.id w s.cache_workloads;
          world = after_retry R w s.world;
        })
        h ps.1 (Stores-step w s.world id o t))

  save_all-ok :
      (ws : List (Workload F)) (s : Scheduler W F)
      → is_writable s ≡ true
      → All Plain ws
      → (save_all ws s).0 ≡ ok tt
  unfolding save_all ◌>>=◌ is_writable
  save_all-ok [] s h ps = refl
  save_all-ok (w ∷ ws) s h ps = rw (save_workload-Plain w s h ps.0) (
      save_all-ok ws
        (record s {
          cache_workloads = put w.id w s.cache_workloads;
          world = after_retry R w s.world;
        })
        h ps.1)

  -- What a table entry is read as.
  stored-read :
      (w : Workload F) (id : String) (s : Scheduler W F)
      → (id == "") ≡ false
      → Stores s.world id (some w)
      → (get_workload_by_id id s).0
        ≡ ok (record w {
          created_at = 0;
          managed_volumes = [];
          usage = none;
          metadata = stored_metadata w.metadata;
        })
  stored-read w id s named (e, spec_held, status_held) =
      subst
        (λ i.
          (get_workload_by_id i s).0
          ≡ ok (record w {
            created_at = 0;
            managed_volumes = [];
            usage = none;
            metadata = stored_metadata w.metadata;
          }))
        e
        (get_workload_by_id-held R w s (ap (λ i. i == "") e ∙ named)
            (ap (λ i. R.holds s.world (workload_spec_key i)) e ∙ spec_held)
            (ap (λ i. R.holds s.world (workload_status_key i)) e ∙ status_held)
          ∙ ap ok (workload_of_spec-projections w))

  -- While etcd can be reached, the store behaves as a table from ids to workloads: any sequence of saves of
  -- workloads without managed storage, whatever the store held before, succeeds, and a workload is then
  -- read as the last one that was saved under its id, but for its creation time, its managed volumes and
  -- its usage, which no read restores, and for the ints of its metadata, which JSON gives back as the nearest
  -- float64. Saves under other ids do not matter.
  pub save_all_refines :
      (ws : List (Workload F)) (id : String) (w : Workload F) (s : Scheduler W F)
      → is_writable s ≡ true
      → All Plain ws
      → (id == "") ≡ false
      → last_saved id ws none ≡ some w
      → ((save_all ws s).0 ≡ ok tt)
        × ((get_workload_by_id id (save_all ws s).1).0
            ≡ ok (record w {
              created_at = 0;
              managed_volumes = [];
              usage = none;
              metadata = stored_metadata w.metadata;
            }))
  save_all_refines ws id w s h ps named e = (
    save_all-ok ws s h ps,
    stored-read w id (save_all ws s).1 named
        (subst (λ o. Stores (save_all ws s).1.world id o) e (save_all-Stores ws id none s h ps tt)),
  )

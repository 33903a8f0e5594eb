-- ===== src/Scheduler/Store/RoundTrip.antt =====
-- state_store.go and scheduler.go: what a save leaves under a workload's keys, and what a read makes of it.
use persys_cloud.Prelude.{
  String, ◌≡◌, refl, true, false, Option, some, Result, ok, if◌then◌else◌, put, ◌==◌, eq_refl,
}
use persys_cloud.Scheduler.Models.{Workload, Value, spec_value, status_value, retry_value}
use persys_cloud.Scheduler.Services.{Formats, Services, Scheduler, ◌>>=◌}
use persys_cloud.Scheduler.Mode.{is_writable, require_writable, cache_workload}
use persys_cloud.Scheduler.Etcd.{
  attempts, or_freeze, or_degrade, retried, retryable_etcd_put, retryable_etcd_get,
}
use persys_cloud.Scheduler.Projection.{
  spec_from_workload, stored_status, status_from_workload, workload_of_spec, with_status,
}
use persys_cloud.Scheduler.Storage.{should_sync_managed_storage}
use persys_cloud.Scheduler.Store.{
  workload_spec_key, workload_status_key, retry_key, save_marked, sync_storage,
}
use persys_cloud.Scheduler.Store.Keys.{
  status_key-spec_key, retry_key-spec_key, retry_key-status_key,
}
use persys_cloud.Scheduler.Store.Reads.{and_status, workload_found, get_workload_by_id}

-- What the scheduler relies on while etcd can be reached: a put takes effect at its key alone, and a
-- get answers with what the key holds and changes nothing. A value is what its reader decodes: what JSON
-- changes of it is applied before the put (stored_status).
pub record Reliable {W F : Type 0} (V : Services W F) : Type 0 where
  pub holds : W → String → Option (Value F)
  pub put_answers : (k : String) (v : Value F) (w : W) → (V.etcd_put k v w).0 ≡ ok tt
  pub put_holds :
      (k : String) (v : Value F) (w : W) (j : String)
      → holds (V.etcd_put k v w).1 j ≡ (if k == j then some v else holds w j)
  pub get_answers : (k : String) (w : W) → (V.etcd_get k w).0 ≡ ok (holds w k)
  pub get_holds : (k : String) (w : W) (j : String) → holds (V.etcd_get k w).1 j ≡ holds w j

module _ {W A : Type 0} where
  pub retried-ok :
      (call : W → Result A × W) (w : W) {a : A}
      → (call w).0 ≡ ok a
      → retried call w ≡ (ok a, (call w).1)
  unfolding retried attempts
  retried-ok call w e = rw e refl

module _ {W F : Type 0} ⦃V : Services W F⦄ (R : Reliable V) where
  put_reliable :
      (k : String) (v : Value F) (s : Scheduler W F)
      → is_writable s ≡ true
      → retryable_etcd_put k v s ≡ (ok tt, record s { world = (V.etcd_put k v s.world).1 })
  unfolding retryable_etcd_put require_writable ◌>>=◌
  put_reliable k v s h =
      rw (h, retried-ok (V.etcd_put k v) s.world (R.put_answers k v s.world))
        (unfold or_freeze in refl)

  get_reliable :
      (k : String) (s : Scheduler W F)
      → retryable_etcd_get k s
        ≡ (ok (R.holds s.world k), record s { world = (V.etcd_get k s.world).1 })
  unfolding retryable_etcd_get ◌>>=◌
  get_reliable k s =
      rw (retried-ok (V.etcd_get k) s.world (R.get_answers k s.world)) (unfold or_degrade in refl)

  -- The world after the three writes of a workload.
  abbrev pub after_spec : Workload F → W → W
  after_spec w v = (V.etcd_put (workload_spec_key w.id) (spec_value (spec_from_workload w)) v).1

  abbrev pub after_status : Workload F → W → W
  after_status w v =
      (V.etcd_put (workload_status_key w.id) (status_value (stored_status (status_from_workload w)))
        (after_spec w v)).1

  abbrev pub after_retry : Workload F → W → W
  after_retry w v = (V.etcd_put (retry_key w.id) (retry_value w.retry) (after_status w v)).1

  pub holds_spec :
      (w : Workload F) (v : W)
      → R.holds (after_retry w v) (workload_spec_key w.id)
        ≡ some (spec_value (spec_from_workload w))
  holds_spec w v =
      rw
        (
          R.put_holds (retry_key w.id) (retry_value w.retry) (after_status w v)
              (workload_spec_key w.id),
          retry_key-spec_key w.id w.id,
          R.put_holds (workload_status_key w.id)
              (status_value (stored_status (status_from_workload w))) (after_spec w v)
              (workload_spec_key w.id),
          status_key-spec_key w.id w.id,
          R.put_holds (workload_spec_key w.id) (spec_value (spec_from_workload w)) v
              (workload_spec_key w.id),
          eq_refl (workload_spec_key w.id),
        )
        refl

  pub holds_status :
      (w : Workload F) (v : W)
      → R.holds (after_retry w v) (workload_status_key w.id)
        ≡ some (status_value (stored_status (status_from_workload w)))
  holds_status w v =
      rw
        (
          R.put_holds (retry_key w.id) (retry_value w.retry) (after_status w v)
              (workload_status_key w.id),
          retry_key-status_key w.id w.id,
          R.put_holds (workload_status_key w.id)
              (status_value (stored_status (status_from_workload w))) (after_spec w v)
              (workload_status_key w.id),
          eq_refl (workload_status_key w.id),
        )
        refl

module _ {W F : Type 0} ⦃T : Formats⦄ ⦃V : Services W F⦄ (R : Reliable V) where
  pub save_marked_lem :
      (w : Workload F) (s : Scheduler W F)
      → is_writable s ≡ true
      → should_sync_managed_storage w ≡ false
      → save_marked w s ≡ (
        ok tt,
        record s {
          cache_workloads = put w.id w s.cache_workloads;
          world = after_retry R w s.world;
        },
      )
  unfolding save_marked sync_storage cache_workload ◌>>=◌ is_writable
  save_marked_lem w s h n =
      rw
        (
          put_reliable R (workload_spec_key w.id) (spec_value (spec_from_workload w)) s h,
          put_reliable R (workload_status_key w.id)
              (status_value (stored_status (status_from_workload w)))
              (record s { world = after_spec R w s.world }) h,
          put_reliable R (retry_key w.id) (retry_value w.retry)
              (record s {
                world = after_status R w s.world;
                cache_workloads = put w.id w s.cache_workloads;
              })
              h,
          n,
        )
        refl

  -- A workload whose two keys hold its projections is read as what they hold.
  pub get_workload_by_id-held :
      (w : Workload F) (s : Scheduler W F)
      → (w.id == "") ≡ false
      → R.holds s.world (workload_spec_key w.id) ≡ some (spec_value (spec_from_workload w))
      → R.holds s.world (workload_status_key w.id)
        ≡ some (status_value (stored_status (status_from_workload w)))
      → (get_workload_by_id w.id s).0
        ≡ ok (
            with_status
              (workload_of_spec (spec_from_workload w))
              (stored_status (status_from_workload w)))
  unfolding get_workload_by_id workload_found and_status stored_status status_from_workload
      cache_workload ◌>>=◌
  get_workload_by_id-held w s named held status_held =
      let spec_key = workload_spec_key w.id in
      let status_key = workload_status_key w.id in
      rw
        (
          get_reliable R spec_key s,
          held,
          get_reliable R status_key (record s { world = (V.etcd_get spec_key s.world).1 }),
          R.get_holds spec_key s.world status_key,
          status_held,
          named,
        )
        refl

-- ===== src/Scheduler/Reconcile/Guard.antt =====
-- persys-scheduler/internal/scheduler/reconciler.go: the guard that an apply leaves behind.
use persys_cloud.Prelude.{
  ℕ, ◌^◌, ◌≤◌, ◌<◌, String, ◌≡◌, refl, true, false, none, some, ok, if◌then◌else◌, ltb, Assoc,
  lookup, lookup-put, eq_refl, arith,
}
use persys_cloud.Text.{trim_space, to_lower, equal_fold}
use persys_cloud.Scheduler.Models.{Workload, MetaValue, str}
use persys_cloud.Scheduler.Services.{Formats, Services, Scheduler, ◌>>=◌}
use persys_cloud.Scheduler.Retry.{metadata_string, metadata_timestamp, is_negative}
use persys_cloud.Scheduler.Agent.{Config}
use persys_cloud.Scheduler.Reconcile.{
  metadata_int, few_attempts, other_revision, reapply_still_guarded, armed,
}

module _ (now revision : String) (attempt : ℕ) (next : String) (m : Assoc MetaValue) where
  attempts-armed : metadata_int (armed now revision attempt next m) "reapplyAttempts" ≡ some attempt
  unfolding metadata_int armed
  attempts-armed = simp lookup-put

  revision-armed :
      metadata_string (armed now revision attempt next m) "lastApplyRevision" ≡ some revision
  unfolding metadata_string armed
  revision-armed = simp lookup-put

  next-armed : lookup "reapplyNextAt" (armed now revision attempt next m) ≡ some (str next)
  unfolding armed
  next-armed = simp lookup-put

other_revision_refl :
    (r : String) → equal_fold (trim_space r) r ≡ true → other_revision r (some r) ≡ false
unfolding other_revision
other_revision_refl r h = ground arith

leb-word : (n : ℕ) → n < 2 ^ 63 → is_negative n ≡ false
leb-word n h = ground arith

ltb-three : (n : ℕ) → 3 ≤ n → ltb n 3 ≡ false
ltb-three n h = ground arith

equal_fold_refl : (s : String) → equal_fold s s ≡ true
unfolding equal_fold
equal_fold_refl s = eq_refl (to_lower s)

module _ ⦃T : Formats⦄ (now revision : String) (attempt : ℕ) (next : String)
    (m : Assoc MetaValue) where
  timestamp-armed :
      metadata_timestamp (armed now revision attempt next m) "reapplyNextAt" ≡ T.parse_time next
  unfolding metadata_timestamp metadata_string
  timestamp-armed = rw (next-armed now revision attempt next m) refl

module _ {W F : Type 0} ⦃T : Formats⦄ ⦃C : Config⦄ ⦃V : Services W F⦄ where
  -- After the third apply of a revision without spaces around it, and each later one that an int64 counts,
  -- the guard holds until the recorded time and then no longer, whatever else the metadata holds: its
  -- answer is that time, if the clock is before it.
  pub reapply_still_guarded-armed :
      (w : Workload F) (s : Scheduler W F) (now : String) (attempt : ℕ) (next : String) (until : ℕ)
      → T.parse_time next ≡ some until
      → trim_space w.revision_id ≡ w.revision_id
      → 3 ≤ attempt
      → attempt < 2 ^ 63
      → reapply_still_guarded
          (record w { metadata = armed now (trim_space w.revision_id) attempt next w.metadata })
          s
        ≡ (
          ok (if ltb (V.now s.world).0 until then some until else none),
          record s { world = (V.now s.world).1 },
        )
  unfolding reapply_still_guarded ◌>>=◌ few_attempts
  reapply_still_guarded-armed w s now attempt next until parses trimmed many small =
      let revision = trim_space w.revision_id in
      let same : equal_fold (trim_space revision) revision ≡ true =
        rw (trimmed, trimmed) (equal_fold_refl w.revision_id) in
      rw
        (
          attempts-armed now revision attempt next w.metadata,
          revision-armed now revision attempt next w.metadata,
          timestamp-armed now revision attempt next w.metadata,
          parses,
        )
        (let kept : other_revision revision (some revision) ≡ false =
            other_revision_refl revision same in
          rw (kept, leb-word attempt small, ltb-three attempt many) refl)

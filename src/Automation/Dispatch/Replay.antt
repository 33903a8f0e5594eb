-- ===== src/Automation/Dispatch/Replay.antt =====
-- persys-automation/internal/engine/engine.go and internal/store/store.go: a replay against the queue in memory.
use persys_cloud.Prelude.{
  String, ◌≡◌, ◌∙◌, ap, sym, refl, Bool, List, [], ◌∷◌, map, Result, All, ◌==◌, false,
}
use persys_cloud.Scheduler.Services.{Formats, Floats}
use persys_cloud.Automation.Records.{
  AutomationSuggestion, QueuedSuggestion, SuggestionAnswer, Readers, Backends, Engine,
}
use persys_cloud.Automation.Suggestions.{replayed_suggestion}
use persys_cloud.Automation.MemoryStore.{mark_first}
use persys_cloud.Automation.MemoryStore.Queue.{Distinct, retried, mark_each, mark_each-retried}
use persys_cloud.Automation.Dispatch.{verdict, replay_item, replay_each}

-- An item without the time of its last change.
unfoldable pub timeless : QueuedSuggestion → QueuedSuggestion
timeless q = record q { updated_at = 0 }

-- A world whose queue, but for the times of change, is marked as the store in memory marks it, and whose
-- scheduler answers a suggestion always in the same way and leaves the queue alone.
pub record Queued {W F : Type 0} (B : Backends W F) : Type 0 where
  pub queue : W → List QueuedSuggestion
  pub answer : AutomationSuggestion → Result SuggestionAnswer
  pub marks :
      (id : String) (accepted : Bool) (reason : String) (w : W)
      → queue (B.mark_queued_suggestion_result id accepted reason w)
        ≡ mark_first id accepted reason 0 (queue w)
  pub answers :
      (g : AutomationSuggestion) (w : W) → (B.submit_automation_suggestion g w).0 ≡ answer g
  pub keeps :
      (g : AutomationSuggestion) (w : W) → queue (B.submit_automation_suggestion g w).1 ≡ queue w

module _ {W F : Type 0} ⦃T : Formats⦄ ⦃N : Floats F⦄ ⦃R : Readers F⦄ ⦃B : Backends W F⦄
    (Q : Queued B) where
  -- What the scheduler says of a queued item.
  abbrev pub said_of : QueuedSuggestion → Bool × String
  said_of q = verdict (Q.answer (replayed_suggestion q))

  replay_item-queue :
      (q : QueuedSuggestion) (s : Engine W F)
      → Q.queue (replay_item q s).world
        ≡ mark_first q.id (said_of q).0 (said_of q).1 0 (Q.queue s.world)
  unfolding replay_item
  replay_item-queue q s =
      rw
        (
          Q.marks q.id
              (verdict (B.submit_automation_suggestion (replayed_suggestion q) s.world).0).0
              (verdict (B.submit_automation_suggestion (replayed_suggestion q) s.world).0).1
              (B.submit_automation_suggestion (replayed_suggestion q) s.world).1,
          Q.answers (replayed_suggestion q) s.world,
          Q.keeps (replayed_suggestion q) s.world,
        )
        refl

  replay_each-marks :
      (qs : List QueuedSuggestion) (s : Engine W F)
      → Q.queue (replay_each qs s).world ≡ mark_each said_of 0 (map timeless qs) (Q.queue s.world)
  unfolding replay_each mark_each timeless replayed_suggestion
  replay_each-marks [] s = refl
  replay_each-marks (q ∷ qs) s =
      replay_each-marks qs (replay_item q s)
      ∙ ap (λ l. mark_each said_of 0 (map timeless qs) l) (replay_item-queue q s)

  Distinct-timeless : (qs : List QueuedSuggestion) → Distinct qs → Distinct (map timeless qs)
  unfolding timeless
  Distinct-timeless [] d = tt
  Distinct-timeless (q ∷ qs) (fresh, d) = (other q qs fresh, Distinct-timeless qs d)
    where
      other :
          (q : QueuedSuggestion) (ks : List QueuedSuggestion)
          → All (λ k. (q.id == k.id) ≡ false) ks
          → All (λ k. (q.id == k.id) ≡ false) (map timeless ks)
      other q [] h = tt
      other q (k ∷ ks) (one, h) = (one, other q ks h)

  -- Where a queue is marked as the store in memory marks it, its items have different ids and the scheduler
  -- always answers a suggestion in the same way, a replay of the whole queue leaves in it, in their order,
  -- exactly the items that the scheduler did not accept, each with one more attempt and the reason of the
  -- refusal.
  pub replay_each-retried :
      (qs : List QueuedSuggestion) (s : Engine W F)
      → Distinct qs
      → map timeless qs ≡ Q.queue s.world
      → Q.queue (replay_each qs s).world ≡ retried said_of 0 (Q.queue s.world)
  replay_each-retried qs s d whole =
      replay_each-marks qs s
      ∙ ap (λ l. mark_each said_of 0 (map timeless qs) l) (sym whole)
      ∙ mark_each-retried said_of 0 (map timeless qs) (Distinct-timeless qs d)
      ∙ ap (λ l. retried said_of 0 l) whole

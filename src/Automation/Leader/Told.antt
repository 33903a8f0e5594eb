-- ===== src/Automation/Leader/Told.antt =====
-- persys-automation/internal/store/leader_elector.go: what the reader of the updates knows.
use persys_cloud.Prelude.{
  ◌≡◌, refl, subst, Bool, true, false, Option, none, some, is_some, Result, ok, err,
}
use persys_cloud.Automation.Leader.{
  Database, Elector, offered, announced, revoke_leader, checked, locked, connected, elected, step,
}

-- What the reader knows once it has read the update that waits, if one does.
unfoldable pub told : Bool → Option Bool → Bool
told seen none = seen
told seen (some b) = b

known-empty : (seen : Bool) (o : Option Bool) (b : Bool) → o ≡ none → told seen o ≡ b → seen ≡ b
unfolding told
known-empty seen o b empty known = subst (λ p. told seen p ≡ b) empty known

-- An elector, and the last update that was read; false before the first one.
pub record Watch (W C : Type 0) : Type 0 where
  pub elector : Elector W C
  pub seen : Bool

module _ {W C : Type 0} where
  -- A leader has a connection, and the reader is told who leads.
  abbrev pub Holds : Bool → Elector W C → Type 0
  Holds seen e = (e.is_leader ≡ is_some e.conn) × (told seen e.updates ≡ e.is_leader)

module _ {W C : Type 0} ⦃D : Database W C⦄ where
  -- A tick and the end of the election, each while no update waits, and the reader's turn.
  pub data Moves : Watch W C → Watch W C → Type 0 where
    ticks :
        (v : Watch W C) → v.elector.updates ≡ none → Moves v (record v { elector = step v.elector })
    stops :
        (v : Watch W C)
        → v.elector.updates ≡ none
        → Moves v (record v { elector = revoke_leader v.elector })
    reads :
        (v : Watch W C) (b : Bool)
        → v.elector.updates ≡ some b
        → Moves v (record { elector = record v.elector { updates = none }; seen = b })

  pub data Reaches : Watch W C → Watch W C → Type 0 where
    stays : (v : Watch W C) → Reaches v v
    moves : (u v w : Watch W C) → Moves u v → Reaches v w → Reaches u w

  announced-Holds :
      (was seen : Bool) (e : Elector W C)
      → e.updates ≡ none
      → e.is_leader ≡ false
      → e.conn ≡ none
      → seen ≡ was
      → Holds seen (announced was false e)
  unfolding announced offered told
  announced-Holds true seen e empty follows alone known = rw (empty, follows, alone) (refl, refl)
  announced-Holds false seen e empty follows alone known = rw (empty, follows, alone) (refl, known)

  revoke_leader-Holds :
      (seen : Bool) (e : Elector W C)
      → e.updates ≡ none
      → seen ≡ e.is_leader
      → Holds seen (revoke_leader e)
  unfolding revoke_leader
  revoke_leader-Holds seen e empty known = announced-Holds e.is_leader seen _ empty refl refl known

  checked-Holds :
      (r : Bool × W) (seen : Bool) (e : Elector W C)
      → e.updates ≡ none
      → seen ≡ e.is_leader
      → e.is_leader ≡ is_some e.conn
      → Holds seen (checked r e)
  unfolding checked told
  checked-Holds (true, w) seen e empty known sound = (sound, rw empty known)
  checked-Holds (false, w) seen e empty known sound = revoke_leader-Holds seen _ empty known

  locked-Holds :
      (c : C) (r : Result Bool × W) (seen : Bool) (e : Elector W C)
      → e.updates ≡ none
      → seen ≡ e.is_leader
      → e.is_leader ≡ is_some e.conn
      → Holds seen (locked c r e)
  unfolding locked announced offered told
  locked-Holds c (err m, w) seen e empty known sound = (sound, rw empty known)
  locked-Holds c (ok false, w) seen e empty known sound = (sound, rw empty known)
  locked-Holds c (ok true, w) seen e empty known sound = (refl, rw empty refl)

  connected-Holds :
      (r : Result C × W) (seen : Bool) (e : Elector W C)
      → e.updates ≡ none
      → seen ≡ e.is_leader
      → e.is_leader ≡ is_some e.conn
      → Holds seen (connected r e)
  unfolding connected told
  connected-Holds (err m, w) seen e empty known sound = (sound, rw empty known)
  connected-Holds (ok c, w) seen e empty known sound = locked-Holds c _ seen e empty known sound

  elected-Holds :
      (b : Bool) (o : Option C) (seen : Bool) (e : Elector W C)
      → e.updates ≡ none
      → seen ≡ e.is_leader
      → e.is_leader ≡ is_some e.conn
      → Holds seen (elected b o e)
  unfolding elected
  elected-Holds true (some c) seen e empty known sound = checked-Holds _ seen e empty known sound
  elected-Holds true none seen e empty known sound = connected-Holds _ seen e empty known sound
  elected-Holds false o seen e empty known sound = connected-Holds _ seen e empty known sound

  Moves-Holds : {u v : Watch W C} → Moves u v → Holds u.seen u.elector → Holds v.seen v.elector
  unfolding step told
  Moves-Holds (ticks u empty) (sound, known) =
      elected-Holds _ _ u.seen u.elector empty (known-empty u.seen _ _ empty known) sound
  Moves-Holds (stops u empty) (sound, known) =
      revoke_leader-Holds u.seen u.elector empty (known-empty u.seen _ _ empty known)
  Moves-Holds (reads u b waits) (sound, known) =
      (sound, subst (λ o. told u.seen o ≡ u.elector.is_leader) waits known)

  -- Where each update is read before the next tick, any ticks, reads and ends, whatever the database answers,
  -- keep this: a leader has a connection and any other elector has none, and the update that waits, or else
  -- the last one that was read, says whether the elector leads.
  pub Reaches-Holds :
      {u v : Watch W C} → Reaches u v → Holds u.seen u.elector → Holds v.seen v.elector
  Reaches-Holds (stays u) h = h
  Reaches-Holds (moves u v w m rest) h = Reaches-Holds rest (Moves-Holds m h)

-- ===== src/Tests/AutomationLeader.antt =====
-- persys-automation: an elector that takes the lock and loses its connection.
use persys_cloud.Prelude.{ℕ, refl, Bool, true, false, none, some, ok}
use persys_cloud.Automation.Leader.{
  Database, step, elected, connected, locked, checked, revoke_leader, announced, offered, released,
}
use persys_cloud.Automation.Leader.Told.{
  Watch, Reaches, ticks, reads, stays, moves, told, Holds, Reaches-Holds,
}

-- The world says whether the database answers.
instance unfoldable database : Database Bool ℕ
database = record {
  open_conn = λ w. (ok 1, w);
  answers = λ c w. (false, w);
  try_advisory_lock = λ id c w. (ok w, w);
  advisory_unlock = λ id c w. w;
  close = λ c w. w;
}

abbrev idle : Watch Bool ℕ
idle = record {
  elector = record { lock_id = 7; conn = none; is_leader = false; updates = none; world = true };
  seen = false;
}

abbrev leads : Watch Bool ℕ
leads = record {
  elector = record { lock_id = 7; conn = some 1; is_leader = true; updates = none; world = true };
  seen = true;
}

abbrev lost : Watch Bool ℕ
lost = record {
  elector = record {
    lock_id = 7;
    conn = none;
    is_leader = false;
    updates = some false;
    world = true;
  };
  seen = true;
}

elected_and_lost : Reaches idle lost
unfolding database step elected connected locked checked revoke_leader announced offered released
elected_and_lost =
    moves idle (record idle { elector = step idle.elector }) lost (ticks idle refl)
      (moves (record idle { elector = step idle.elector }) leads lost
        (reads (record idle { elector = step idle.elector }) true refl)
        (moves leads lost lost (ticks leads refl) (stays lost)))

Reaches-Holds_example : Holds true lost.elector
unfolding told
Reaches-Holds_example = Reaches-Holds elected_and_lost (refl, refl)

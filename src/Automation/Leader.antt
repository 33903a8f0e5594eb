-- ===== src/Automation/Leader.antt =====
-- persys-automation/internal/store/leader_elector.go: the election of one engine by a lock of the database.
-- The channel of updates holds one value, and a send to it is dropped while it does. What is logged is
-- left out.
pub mod Told
use persys_cloud.Prelude.{ℕ, Bool, true, false, Option, none, some, Result, ok, err}

-- Connections `C` of the database: opening one, a query on it, its advisory lock, and closing it.
pub record Database (W C : Type 0) : Type 0 where
  pub open_conn : W → Result C × W
  pub answers : C → W → Bool × W
  pub try_advisory_lock : ℕ → C → W → Result Bool × W
  pub advisory_unlock : ℕ → C → W → W
  pub close : C → W → W

-- The elector, the channel of its updates, and the world behind it.
pub record Elector (W C : Type 0) : Type 0 where
  pub lock_id : ℕ
  pub conn : Option C
  pub is_leader : Bool
  pub updates : Option Bool
  pub world : W

-- A send that does not block.
unfoldable pub offered : Bool → Option Bool → Option Bool
offered b none = some b
offered b (some c) = some c

module _ {W C : Type 0} where
  unfoldable pub announced : Bool → Bool → Elector W C → Elector W C
  announced true b e = record e { updates = offered b e.updates }
  announced false b e = e

module _ {W C : Type 0} ⦃D : Database W C⦄ where
  unfoldable pub released : ℕ → Option C → W → W
  released id none w = w
  released id (some c) w = D.close c (D.advisory_unlock id c w)

  unfoldable pub revoke_leader : Elector W C → Elector W C
  revoke_leader e =
      announced e.is_leader false
        (record e { conn = none; is_leader = false; world = released e.lock_id e.conn e.world })

  unfoldable pub checked : Bool × W → Elector W C → Elector W C
  unfolding revoke_leader
  checked (true, w) e = record e { world = w }
  checked (false, w) e = revoke_leader (record e { world = w })

  -- The lock's answer on a new connection, which is closed where the lock was not taken.
  unfoldable pub locked : C → Result Bool × W → Elector W C → Elector W C
  locked c (err m, w) e = record e { world = D.close c w }
  locked c (ok false, w) e = record e { world = D.close c w }
  locked c (ok true, w) e =
      announced true true (record e { conn = some c; is_leader = true; world = w })

  unfoldable pub connected : Result C × W → Elector W C → Elector W C
  unfolding locked
  connected (err m, w) e = record e { world = w }
  connected (ok c, w) e = locked c (D.try_advisory_lock e.lock_id c w) e

  -- A leader with a connection checks it, any other elector tries to take the lock.
  unfoldable pub elected : Bool → Option C → Elector W C → Elector W C
  unfolding checked connected
  elected true (some c) e = checked (D.answers c e.world) e
  elected true none e = connected (D.open_conn e.world) e
  elected false o e = connected (D.open_conn e.world) e

  unfoldable pub step : Elector W C → Elector W C
  unfolding elected
  step e = elected e.is_leader e.conn e

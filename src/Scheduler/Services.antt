-- ===== src/Scheduler/Services.antt =====
-- What the scheduler calls and does not implement: etcd, the clock, UUIDs, Redis and time formats.
-- `W` is the outside world; each call may change it, and a call of etcd may fail with a text.
use persys_cloud.Prelude.{ℕ, String, Bool, List, Option, Result, ok, err, Assoc, if◌then◌else◌}
use persys_cloud.Scheduler.Models.{
  Node, Workload, AssignmentRecord, SchedulerEvent, ReconciliationRecord, Value,
}

-- Texts of numbers and times.
pub record Formats : Type 0 where
  -- `Format(time.RFC3339)`, `Format("2006-01-02 15:04:05")` and `time.Parse(time.RFC3339, …)`
  pub format_time : ℕ → String
  pub log_time : ℕ → String
  pub parse_time : String → Option ℕ
  -- `fmt.Sprintf` of an int with `%d`, and of a float64 with `%v`
  pub itoa : ℕ → String
  pub float_text : ℕ → String
  -- `fmt.Sprintf` of a string with `%q`
  pub quote : String → String

-- Go's float64: constants, arithmetic, order, conversion, and `fmt.Sprintf` with `%.nf`.
pub record Floats (F : Type 0) : Type 0 where
  pub of_nat : ℕ → F
  pub lt : F → F → Bool
  pub eq : F → F → Bool
  pub add : F → F → F
  pub sub : F → F → F
  pub div : F → F → F
  pub mul : F → F → F
  -- `int64(x)`, as its 64-bit word
  pub to_int64 : F → ℕ
  pub fixed : ℕ → F → String

pub record Services (W F : Type 0) : Type 0 where
  pub etcd_get : String → W → Result (Option (Value F)) × W
  pub etcd_list : String → W → Result (List (String × Value F)) × W
  pub etcd_put : String → Value F → W → Result (Unit {0}) × W
  pub etcd_delete : String → W → Result (Unit {0}) × W
  pub now : W → ℕ × W
  pub uuid : W → String × W
  -- Redis takes the event or record, or is not there.
  pub redis_event : SchedulerEvent → W → Bool × W
  pub redis_reconciliation : ReconciliationRecord → W → Bool × W
  -- the first half of the SHA-256 of a workload's JSON, in hexadecimal
  pub digest : Workload F → String

pub data OperatingMode : Type 0 where
  normal degraded recovery : OperatingMode

pub OperatingMode-discrete : Discrete OperatingMode
OperatingMode-discrete = hlevel

pub record FrozenState (F : Type 0) : Type 0 where
  pub created_at : ℕ
  pub reason : String
  pub nodes : Assoc (Node F)
  pub workloads : Assoc (Workload F)
  pub assignments : Assoc AssignmentRecord

-- The fields of `Scheduler` that its operations change, and the world behind it.
pub record Scheduler (W F : Type 0) : Type 0 where
  pub mode : OperatingMode
  pub mode_reason : String
  pub mode_changed_at : ℕ
  pub frozen : Option (FrozenState F)
  pub cache_nodes : Assoc (Node F)
  pub cache_workloads : Assoc (Workload F)
  pub cache_assignments : Assoc AssignmentRecord
  pub scheduler_shard : String
  pub domain : String
  pub agents_domain : String
  pub world : W

-- A method that may fail: what it changed before an error stays changed.
abbrev pub Act : Type 0 → Type 0 → Type 0 → Type 0
Act W F A = Scheduler W F → Result A × Scheduler W F

module _ {W F A : Type 0} where
  unfoldable pub pure : A → Act W F A
  pure a s = (ok a, s)

  unfoldable pub fail : String → Act W F A
  fail e s = (err e, s)

  -- A call of a service that cannot fail, and one that can.
  unfoldable pub call : (W → A × W) → Act W F A
  call f s = let (a, w) = f s.world in (ok a, record s { world = w })

  unfoldable pub direct : (W → Result A × W) → Act W F A
  direct f s = let (r, w) = f s.world in (r, record s { world = w })

  unfoldable pub gets : (Scheduler W F → A) → Act W F A
  gets f s = (ok (f s), s)

  abbrev settle : Result A × Scheduler W F → Result (Result A) × Scheduler W F
  settle (r, s) = (ok r, s)

  -- `r, err := m()` with both looked at afterwards.
  unfoldable pub try : Act W F A → Act W F (Result A)
  try m s = settle (m s)

  -- `_ = m()`: the error is dropped.
  abbrev dropped : Result A × Scheduler W F → Result (Unit {0}) × Scheduler W F
  dropped (r, s) = (ok tt, s)

  unfoldable pub ignore : Act W F A → Act W F (Unit {0})
  ignore m s = dropped (m s)

  -- A failed call's error, under another text.
  abbrev pub wrap : (String → String) → Result A × Scheduler W F → Result A × Scheduler W F
  wrap f (ok a, s) = (ok a, s)
  wrap f (err e, s) = (err (f e), s)

  unfoldable pub wrapped : (String → String) → Act W F A → Act W F A
  wrapped f m s = wrap f (m s)

  -- A test of the scheduler's state, then one of two methods.
  unfoldable pub branch : (Scheduler W F → Bool) → Act W F A → Act W F A → Act W F A
  branch test m n s = if test s then m s else n s

module _ {W F : Type 0} where
  unfoldable pub modify : (Scheduler W F → Scheduler W F) → Act W F (Unit {0})
  modify f s = (ok tt, f s)

module _ {W F A B : Type 0} where
  abbrev pub continue : (A → Act W F B) → Result A × Scheduler W F → Result B × Scheduler W F
  continue f (ok a, s) = f a s
  continue f (err e, s) = (err e, s)

  infixl 5 ◌>>=◌ ◌>>◌
  -- Opening this opens the other ways to build a method.
  unfoldable pub ◌>>=◌ : Act W F A → (A → Act W F B) → Act W F B
  unfolding pure fail call direct gets try ignore wrapped branch modify
  ◌>>=◌ m f s = continue f (m s)

  abbrev pub ◌>>◌ : Act W F A → Act W F B → Act W F B
  m >> k = m >>= λ _. k

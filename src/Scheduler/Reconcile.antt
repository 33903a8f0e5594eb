-- ===== src/Scheduler/Reconcile.antt =====
-- persys-scheduler/internal/scheduler/reconciler.go: what the reconciler decides.
pub mod Actions
pub mod Apply
pub mod Cycle
pub mod Backoff
pub mod Guard
pub mod Halt
use persys_cloud.Prelude.{
  to_float64, ℕ, ◌+◌, ◌-◌, ◌*◌, ◌%◌, ◌^◌, String, Bool, true, false, not, ◌&&◌, ◌||◌, List, [], ◌∷◌,
  Option, none, some, if◌then◌else◌, ltb, leb, is_some, any, Assoc, lookup, put, ◌==◌,
}
use persys_cloud.Text.{concat, trim_space, to_upper, equal_fold}
use persys_cloud.Text.Split.{scan_int}
use persys_cloud.Scheduler.Models.{Workload, MetaValue, str, int, float, bool}
use persys_cloud.Scheduler.Services.{Formats, Services, Act, pure, call, ◌>>=◌, ◌>>◌}
use persys_cloud.Scheduler.Retry.{
  word, is_negative, add_duration, metadata_string, metadata_timestamp, delete_keys, first_text,
  clear_reapply_metadata,
}
use persys_cloud.Scheduler.Agent.{Config, or_duration, apply_timeout_for}
use persys_cloud.Scheduler.Agent.Ports.{Platform}

abbrev pub missing_grace_period : ℕ
missing_grace_period = 15 * 1000000000

abbrev pub max_reapply_backoff : ℕ
max_reapply_backoff = 900 * 1000000000

-- An int of the metadata, as its 64-bit word.
as_int : Option MetaValue → Option ℕ
as_int (some (int n)) = some n
as_int (some (float n)) = some n
as_int (some (str s)) = scan_int (trim_space s)
as_int _ = none

unfoldable pub metadata_int : Assoc MetaValue → String → Option ℕ
unfolding as_int
metadata_int m key = as_int (lookup key m)

is_true : Option MetaValue → Bool
is_true (some (bool b)) = b
is_true (some (str s)) = equal_fold (trim_space s) "true"
is_true _ = false

unfoldable pub is_metadata_true : Assoc MetaValue → String → Bool
unfolding is_true
is_metadata_true m key = is_true (lookup key m)

abbrev or_running : String → String
or_running s = if s == "" then "Running" else s

module _ {F : Type 0} where
  unfoldable pub desired_of : Workload F → String
  desired_of w = or_running (trim_space w.desired_state)

  unfoldable pub needs_reconciliation : Workload F → String → Bool
  needs_reconciliation w actual = not (
      equal_fold actual (desired_of w)
      || equal_fold (desired_of w) "Stopped" && equal_fold actual "Stopped")

-- The attempts of a workload that an apply adds to.
attempts_so_far : Option ℕ → ℕ
attempts_so_far none = 0
attempts_so_far (some n) = if is_negative n then 0 else n

module _ {F : Type 0} where
  unfoldable pub next_attempt : Workload F → ℕ
  unfolding attempts_so_far
  next_attempt w = (attempts_so_far (metadata_int w.metadata "reapplyAttempts") + 1) % word

unfoldable pub effective_attempt : ℕ → ℕ
effective_attempt n = if is_negative n || ltb n 3 then 1 else n - 2

module _ ⦃P : Platform⦄ where
  -- The pause after an attempt, from a base. The product with a power of 2 is exact; one too large for a float64 stands for infinity.
  unfoldable pub reapply_backoff : ℕ → ℕ → ℕ
  reapply_backoff base attempt =
      let backoff = P.float_duration (to_float64 base * 2 ^ (effective_attempt attempt - 1)) in
      if ltb max_reapply_backoff backoff && not (is_negative backoff)
      then max_reapply_backoff
      else backoff

module _ {F : Type 0} ⦃C : Config⦄ where
  unfoldable pub base_reapply_backoff : Workload F → ℕ
  base_reapply_backoff w =
      let guard = or_duration C.reapply_guard (apply_timeout_for w) in
      if ltb guard missing_grace_period then missing_grace_period else guard

-- The revision of the last apply is not the workload's.
unfoldable pub other_revision : String → Option String → Bool
other_revision current none = false
other_revision current (some last) =
    not (current == "") && not (equal_fold (trim_space last) current)

unfoldable pub few_attempts : Option ℕ → Bool
few_attempts none = true
few_attempts (some n) = is_negative n || ltb n 3

abbrev until : Bool → ℕ → Option ℕ
until b t = if b then some t else none

module _ {W F : Type 0} ⦃V : Services W F⦄ where
  -- The guards of older metadata, from the time of an apply or a launch.
  older_guard : ℕ → Option ℕ → Act W F (Option ℕ)
  older_guard guard none = pure none
  older_guard guard (some t) = call V.now >>= λ now. pure (until (ltb now (t + guard)) (t + guard))

  or_older : Act W F (Option ℕ) → Option ℕ → Act W F (Option ℕ)
  or_older m (some t) = pure (some t)
  or_older m none = m

  guard_at : Act W F (Option ℕ) → Option ℕ → Act W F (Option ℕ)
  guard_at older none = older
  guard_at older (some t) = call V.now >>= λ now. pure (until (ltb now t) t)

module _ {W F : Type 0} ⦃T : Formats⦄ ⦃C : Config⦄ ⦃V : Services W F⦄ where
  -- Until when another apply has to wait, where it has to.
  unfoldable pub reapply_still_guarded : Workload F → Act W F (Option ℕ)
  unfolding older_guard or_older guard_at
  reapply_still_guarded w =
      let m = w.metadata in
      let guard = base_reapply_backoff w in
      let older =
        older_guard guard (metadata_timestamp m "lastApplyRequestAt")
        >>= or_older (older_guard guard (metadata_timestamp m "lastLaunchTime")) in
      if few_attempts (metadata_int m "reapplyAttempts")
        || other_revision (trim_space w.revision_id) (metadata_string m "lastApplyRevision")
      then pure none
      else guard_at older (metadata_timestamp m "reapplyNextAt")

unfoldable pub runtime_failure_reason : Assoc MetaValue → String
runtime_failure_reason m = first_text m (
    "retry_terminal_reason" ∷ "terminal_failure_reason" ∷ "container.stderr" ∷ "last_runtime_error"
    ∷ "container.runtime_error" ∷ "last_error" ∷ "failure_reason" ∷ [])

unfoldable pub non_retryable : String → Bool
non_retryable code =
    any (λ c. c == code)
      ("INVALID_IMAGE" ∷ "INVALID_SPECIFICATION" ∷ "INVALID_CONFIGURATION" ∷ "PORT_BIND_CONFLICT"
        ∷ [])

unfoldable pub has_terminal_code : Option String → Bool
unfolding non_retryable
has_terminal_code none = false
has_terminal_code (some code) = non_retryable (to_upper (trim_space code))

code_text : Option String → String
code_text none = ""
code_text (some code) = trim_space code

abbrev reason_or : Assoc MetaValue → String → String
reason_or m default =
    let reason = trim_space (runtime_failure_reason m) in if reason == "" then default else reason

-- The states out of which a workload is applied again.
unfoldable pub is_down : String → Bool
is_down actual =
    equal_fold actual "Failed" || equal_fold actual "Stopped" || equal_fold actual "Missing"

module _ {F : Type 0} where
  unfoldable pub retries_spent : Workload F → String → Bool
  retries_spent w actual =
      ltb 0 w.retry.max_attempts
      && leb w.retry.max_attempts w.retry.attempts
      && (equal_fold actual "Failed" || equal_fold w.status "Failed")

module _ {F : Type 0} ⦃T : Formats⦄ where
  -- Why a workload is not applied again, where it is not.
  unfoldable pub should_halt_reapply : Workload F → String → Option String
  unfolding code_text
  should_halt_reapply w actual =
      let m = w.metadata in
      let failure_code = metadata_string m "failure_reason" in
      if not (equal_fold (trim_space w.desired_state) "Running") || not (is_down actual)
      then none
      else if is_metadata_true m "retry_terminal"
      then some (reason_or m "agent marked workload as terminal/non-retryable")
      else if has_terminal_code failure_code
      then some
          (reason_or m (concat ("non-retryable failure reason: " ∷ code_text failure_code ∷ [])))
      else if retries_spent w actual
      then some (
          reason_or m (
            concat (
              "scheduler retry limit reached ("
              ∷ T.itoa w.retry.attempts
              ∷ "/"
              ∷ T.itoa w.retry.max_attempts
              ∷ ")"
              ∷ [])))
      else none

-- The metadata after an apply: when it was, of which revision, and until when the next has to wait.
unfoldable pub armed : String → String → ℕ → String → Assoc MetaValue → Assoc MetaValue
armed now revision attempt next m = put "reapplyNextAt" (str next) (
    put "reapplyAttempts" (int attempt) (
      put "lastLaunchTime" (str now)
        (put "lastApplyRevision" (str revision) (put "lastApplyRequestAt" (str now) m))))

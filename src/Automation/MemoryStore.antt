-- ===== src/Automation/MemoryStore.antt =====
-- persys-automation/internal/store/store.go: the store in memory. A UUID and the time are arguments of the
-- operations that read them. Policies are a map, listed by their creation.
pub mod Queue
use persys_cloud.Prelude.{
  ℕ, String, ◌+◌, ◌-◌, ◌%◌, ◌^◌, ◌==◌, Bool, true, false, not, ◌&&◌, ◌||◌, List, [], ◌∷◌, ◌++◌, map,
  Option, none, some, Assoc, put, lookup, length, take, drop, filter, sort_by, if◌then◌else◌, ltb,
  leb, nat_eq,
}
use persys_cloud.Automation.Records.{Policy, AuditEntry, QueuedSuggestion}

pub record MemoryStore : Type 0 where
  pub policies : Assoc Policy
  pub audit : List AuditEntry
  pub queue : List QueuedSuggestion

pub record CreatePolicyRequest : Type 0 where
  pub name : String
  pub target_workload : String
  pub kind : ℕ
  pub condition_expression : String
  pub action_expression : String

abbrev new_memory_store : MemoryStore
new_memory_store = record { policies = []; audit = []; queue = [] }

unfoldable pub create_policy : String → ℕ → CreatePolicyRequest → MemoryStore → Policy × MemoryStore
create_policy id now q s =
    let p : Policy = record {
      id = id;
      name = q.name;
      target_workload = q.target_workload;
      kind = q.kind;
      condition_expression = q.condition_expression;
      action_expression = q.action_expression;
      enabled = true;
      created_at = now;
      updated_at = now;
    } in
    (p, record s { policies = put id p s.policies })

unfoldable pub list_policies : Bool → MemoryStore → List Policy
list_policies include_disabled s =
    sort_by (λ p q. ltb p.created_at q.created_at)
      (filter (λ p. include_disabled || p.enabled) (map (λ e. e.1) s.policies))

-- None is ErrPolicyNotFound.
unfoldable pub get_policy : String → MemoryStore → Option Policy
get_policy id s = lookup id s.policies

unfoldable pub set_policy_enabled : String → Bool → ℕ → MemoryStore → Option Policy × MemoryStore
set_policy_enabled id enabled now s = found (lookup id s.policies)
  where
    found : Option Policy → Option Policy × MemoryStore
    found none = (none, s)
    found (some p) =
        let changed = record p { enabled = enabled; updated_at = now } in
        (some changed, record s { policies = put id changed s.policies })

-- The last 5000 entries are kept.
unfoldable pub append_audit : String → ℕ → AuditEntry → MemoryStore → MemoryStore
append_audit id now entry s =
    let all = s.audit ++ record entry { id = id; timestamp = now } ∷ [] in
    record s { audit = drop (length all - 5000) all }

abbrev reversed {ℓ} : {A : Type ℓ} → List A → List A
reversed [] = []
reversed (x ∷ xs) = reversed xs ++ x ∷ []

-- The latest entries, the last first; 0 asks for all of them.
unfoldable pub list_audit : ℕ → MemoryStore → List AuditEntry
list_audit limit s =
    let n = length s.audit in
    let shown = if nat_eq limit 0 || ltb n limit then n else limit in
    reversed (drop (n - shown) s.audit)

unfoldable pub enqueue_suggestion : String → ℕ → QueuedSuggestion → MemoryStore → MemoryStore
enqueue_suggestion id now item s = record s {
  queue = s.queue ++ record item { id = id; created_at = now; updated_at = now } ∷ [];
}

-- The first items of the queue, which stay there; a limit of 0 or less, as 0 here, asks for all.
unfoldable pub claim_queued_suggestions : ℕ → MemoryStore → List QueuedSuggestion
claim_queued_suggestions limit s =
    let n = length s.queue in take (if nat_eq limit 0 || ltb n limit then n else limit) s.queue

unfoldable pub tried_again : String → ℕ → QueuedSuggestion → QueuedSuggestion
tried_again reason now q = record q {
  attempts = (q.attempts + 1) % 2 ^ 32;
  last_error = reason;
  updated_at = now;
}

-- The first item with an id leaves the queue, or has one more attempt.
unfoldable pub mark_first :
    String → Bool → String → ℕ → List QueuedSuggestion → List QueuedSuggestion
unfolding tried_again
mark_first id success reason now [] = []
mark_first id success reason now (q ∷ qs) =
    let rest = mark_first id success reason now qs in
    if q.id == id then (if success then qs else tried_again reason now q ∷ qs) else q ∷ rest

unfoldable pub mark_queued_suggestion_result :
    String → Bool → String → ℕ → MemoryStore → MemoryStore
unfolding mark_first
mark_queued_suggestion_result id success reason now s = record s {
  queue = mark_first id success reason now s.queue;
}

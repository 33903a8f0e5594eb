-- ===== src/Tests/World.antt =====
-- A world for the tests: a store of keys, a clock that ticks with each reading, and a list that says
-- of the next etcd calls whether they fail. Redis is not there.
use persys_cloud.Prelude.{
  ltb, ◌-◌, ◌/◌, ◌*◌, ℕ, nat_eq, ◌+◌, String, Bool, true, false, List, [], ◌∷◌, none, some, Result,
  ok, err, if◌then◌else◌, Assoc, lookup, put, delete, filter,
}
use persys_cloud.Text.{has_prefix}
use persys_cloud.Scheduler.Models.{Value}
use persys_cloud.Scheduler.Agent.Ports.{Platform}
use persys_cloud.Scheduler.Agent.{Agents, Config}
use persys_cloud.Scheduler.Services.{Floats, Formats, Services, Scheduler, normal}

pub record World : Type 0 where
  pub store : Assoc (Value ℕ)
  pub clock : ℕ
  pub faults : List Bool

abbrev faulty : List Bool → Bool
faulty [] = false
faulty (b ∷ bs) = b

abbrev next_faults : List Bool → List Bool
next_faults [] = []
next_faults (b ∷ bs) = bs

-- An etcd call: it may fail, else it answers.
abbrev called {ℓ} : {A : Type ℓ} → (World → A × World) → World → Result A × World
called f w =
    let v = record w { faults = next_faults w.faults } in
    if faulty w.faults then (err "unavailable", v) else (ok (f v).0, (f v).1)

abbrev pub digits : ℕ → String
digits n = if nat_eq n 0 then "0" else "n"

instance unfoldable pub formats : Formats
formats = record {
  format_time = λ t. "t";
  log_time = λ t. "t";
  parse_time = λ s. some 5;
  itoa = digits;
  float_text = digits;
  quote = λ s. s;
}

instance unfoldable pub naturals : Floats ℕ
naturals = record {
  of_nat = λ n. n;
  lt = ltb;
  eq = nat_eq;
  add = λ a b. a + b;
  sub = λ a b. a - b;
  div = λ a b. a * 1000 / b;
  mul = λ a b. a * b;
  to_int64 = λ n. n;
  fixed = λ d n. "n";
}

instance unfoldable pub services : Services World ℕ
unfolding lookup put delete has_prefix
services = record {
  etcd_get = λ k. called (λ w. (lookup k w.store, w));
  etcd_list = λ p. called (λ w. (filter (λ e. has_prefix e.0 p) w.store, w));
  etcd_put = λ k v. called (λ w. (tt, record w { store = put k v w.store }));
  etcd_delete = λ k. called (λ w. (tt, record w { store = delete k w.store }));
  now = λ w. (w.clock, record w { clock = w.clock + 1 });
  uuid = λ w. ("uuid", w);
  redis_event = λ e w. (false, w);
  redis_reconciliation = λ r w. (false, w);
  digest = λ w. "revision";
}

instance unfoldable pub platform : Platform
platform = record { join_path = λ a b. b; grpc_code = λ e. ""; float_duration = λ x. x }

instance unfoldable pub config : Config
config = record {
  agent_status_poll_interval = 0;
  agent_vm_apply_timeout = 0;
  agent_apply_timeout = 0;
  agent_delete_timeout = 0;
  reapply_guard = 0;
  node_unavailable_grace = 0;
}

-- Agents that take every request and know no workload; a sleep moves the clock.
instance unfoldable pub agents : Agents World ℕ
agents = record {
  dial = λ a w. (ok tt, w);
  apply_workload = λ a r w.
      (ok (some (record { applied = true; skipped = false; message = ""; status = none })), w);
  workload_status = λ a id w. (err "workload not found", w);
  delete_workload = λ a id w. (ok tt, w);
  list_workloads = λ a w. (ok [], w);
  sleep = λ d w. (tt, record w { clock = w.clock + d });
  redis_status = λ id w. (false, w);
}

abbrev pub scheduler : World → Scheduler World ℕ
scheduler w = record {
  mode = normal;
  mode_reason = "";
  mode_changed_at = 0;
  frozen = none;
  cache_nodes = [];
  cache_workloads = [];
  cache_assignments = [];
  scheduler_shard = "genesis";
  domain = "persys.local";
  agents_domain = "agents.persys.local";
  world = w;
}

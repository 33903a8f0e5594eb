-- ===== src/Scheduler/Mode.antt =====
-- persys-scheduler/internal/scheduler/mode.go: the operating mode of the control plane.
pub mod Snapshot
pub mod Thaw
use persys_cloud.Prelude.{
  ℕ, String, Bool, true, false, List, [], ◌∷◌, Option, none, some, Result, ok, err, if◌then◌else◌,
  is_empty, put, delete,
}
use persys_cloud.Text.{concat}
use persys_cloud.Scheduler.Models.{Node, Workload, AssignmentRecord, Value}
use persys_cloud.Scheduler.Services.{
  Services, OperatingMode, normal, degraded, recovery, FrozenState, Scheduler, Act, pure, fail,
  call, gets, modify, direct, branch, try, ◌>>=◌, ◌>>◌,
}

abbrev pub control_plane_frozen : String
control_plane_frozen = "scheduler control plane is frozen (degraded/recovery mode)"

abbrev pub mode_eq : OperatingMode → OperatingMode → Bool
mode_eq normal normal = true
mode_eq degraded degraded = true
mode_eq recovery recovery = true
mode_eq _ _ = false

module _ {F : Type 0} where
  abbrev or_snapshot : Option (FrozenState F) → FrozenState F → Option (FrozenState F)
  or_snapshot none f = some f
  or_snapshot (some g) f = some g

module _ {W F : Type 0} where
  unfoldable pub is_writable : Scheduler W F → Bool
  is_writable s = mode_eq s.mode normal

  unfoldable pub require_writable : Act W F (Unit {0})
  unfolding is_writable
  require_writable s = if is_writable s then (ok tt, s) else (err control_plane_frozen, s)

  -- The caches as they are, under a reason and a time.
  abbrev pub snapshot : Scheduler W F → String → ℕ → FrozenState F
  snapshot s reason t = record {
    created_at = t;
    reason = reason;
    nodes = s.cache_nodes;
    workloads = s.cache_workloads;
    assignments = s.cache_assignments;
  }

  degrade : Scheduler W F → String → ℕ → Scheduler W F
  degrade s reason t = record s {
    mode = degraded;
    mode_reason = reason;
    mode_changed_at = t;
    frozen = some (snapshot s reason t);
  }

  recover : Scheduler W F → String → ℕ → Scheduler W F
  recover s reason t = record s {
    mode = recovery;
    mode_reason = reason;
    mode_changed_at = t;
    frozen = or_snapshot s.frozen (snapshot s reason t);
  }

  normalise : Scheduler W F → String → ℕ → Scheduler W F
  normalise s reason t = record s {
    mode = normal;
    mode_reason = reason;
    mode_changed_at = t;
    frozen = none;
  }

  unfoldable pub cache_node : Node F → Act W F (Unit {0})
  cache_node n = modify (λ s. record s { cache_nodes = put n.node_id n s.cache_nodes })

  unfoldable pub cache_workload : Workload F → Act W F (Unit {0})
  cache_workload w = modify (λ s. record s { cache_workloads = put w.id w s.cache_workloads })

  unfoldable pub cache_assignment : AssignmentRecord → Act W F (Unit {0})
  cache_assignment r =
      modify (λ s. record s { cache_assignments = put r.workload_id r s.cache_assignments })

  unfoldable pub remove_cached_workload : String → Act W F (Unit {0})
  remove_cached_workload id = modify (λ s. record s {
    cache_workloads = delete id s.cache_workloads;
    cache_assignments = delete id s.cache_assignments;
  })

module _ {W F : Type 0} ⦃V : Services W F⦄ where
  -- `change` runs only where the mode is another one; the clock is read then.
  abbrev pub enter :
      OperatingMode → (Scheduler W F → String → ℕ → Scheduler W F) → String → Act W F (Unit {0})
  enter target change reason =
      branch (λ s. mode_eq s.mode target) (pure tt)
        (call V.now >>= λ t. modify (λ s. change s reason t))

  unfoldable pub enter_degraded : String → Act W F (Unit {0})
  unfolding degrade
  enter_degraded reason = enter degraded degrade reason

  unfoldable pub enter_recovery : String → Act W F (Unit {0})
  unfolding recover
  enter_recovery reason = enter recovery recover reason

  unfoldable pub enter_normal : String → Act W F (Unit {0})
  unfolding normalise
  enter_normal reason = enter normal normalise reason

  unfoldable pub ping_etcd : Act W F (Option (Value F))
  ping_etcd = direct (V.etcd_get "/health")

  -- The prefixes are asked in turn, up to the first that holds a key or fails.
  unfoldable pub any_state : List String → Act W F Bool
  any_state [] = pure false
  any_state (p ∷ ps) =
      let rest = any_state ps in
      direct (V.etcd_list p) >>= λ kvs. if is_empty kvs then rest else pure true

  unfoldable pub etcd_has_state : Act W F Bool
  unfolding any_state
  etcd_has_state = any_state ("/nodes/" ∷ "/workloads/" ∷ "/assignments/" ∷ [])

  unfoldable pub settle_mode : Result Bool → Act W F (Unit {0})
  settle_mode (err e) = enter_degraded (concat ("etcd health probe failed: " ∷ e ∷ []))
  settle_mode (ok true) = enter_normal "etcd recovered with persistent state intact"
  settle_mode (ok false) =
      enter_recovery "etcd recovered but state is empty; waiting for restore/import"

  unfoldable pub after_ping : Result (Option (Value F)) → Act W F (Unit {0})
  unfolding etcd_has_state settle_mode
  after_ping (err e) = enter_degraded (concat ("etcd unreachable: " ∷ e ∷ []))
  after_ping (ok v) =
      branch (λ s. mode_eq s.mode normal) (pure tt) (try etcd_has_state >>= settle_mode)

  -- One tick of the mode supervisor.
  unfoldable pub evaluate_mode : Act W F (Unit {0})
  unfolding ping_etcd after_ping
  evaluate_mode = try ping_etcd >>= after_ping

-- ===== src/Scheduler/Mode/Thaw.antt =====
-- mode.go: when a frozen control plane may write again.
use persys_cloud.Prelude.{
  String, ◌≡◌, refl, ap, sym, subst, ◌⊎◌, inl, inr, Bool, true, false, List, [], ◌∷◌, Option,
  Result, ok, err, if◌then◌else◌, is_empty, arith,
}
use persys_cloud.Scheduler.Models.{Value}
use persys_cloud.Scheduler.Services.{Services, Scheduler, pure, ◌>>=◌, continue}
use persys_cloud.Scheduler.Keeps.{Keeps, Keeps-pure, Keeps-if, Keeps-bind, Keeps-direct}
use persys_cloud.Scheduler.Mode.{
  is_writable, enter_degraded, enter_recovery, ping_etcd, any_state, etcd_has_state, settle_mode,
  after_ping, evaluate_mode,
}

module _ {W F : Type 0} where
  abbrev pub Frozen : Scheduler W F → Type 0
  Frozen s = is_writable s ≡ false

module _ {W F : Type 0} (V : Services W F) where
  -- Etcd, asked for some prefixes in turn from a world on, lists a key under one of them, after it listed
  -- none under those before.
  abbrev pub ListsKey : List String → W → Type 0
  ListsKey [] w = ⊥
  ListsKey (p ∷ ps) w =
      ((kvs : List (String × Value F)) × ((V.etcd_list p w).0 ≡ ok kvs) × (is_empty kvs ≡ false))
      ⊎ (((V.etcd_list p w).0 ≡ ok []) × ListsKey ps (V.etcd_list p w).1)

abbrev pub is_ok {ℓ} : {A : Type ℓ} → Result A → Bool
is_ok (ok a) = true
is_ok (err e) = false

module _ {W F : Type 0} ⦃V : Services W F⦄ where
  any_state-Frozen : (ps : List String) → Keeps {W = W} {F = F} Frozen (any_state ps)
  unfolding any_state is_writable
  any_state-Frozen [] = Keeps-pure false
  any_state-Frozen (p ∷ ps) =
      Keeps-bind _ _ (Keeps-direct _ (λ s w h. h))
        (λ kvs. Keeps-if _ _ _ (any_state-Frozen ps) (Keeps-pure true))

  settle_mode-true :
      (r : Result Bool) (s : Scheduler W F)
      → Frozen s
      → is_writable (settle_mode r s).1 ≡ true
      → r ≡ ok true
  unfolding settle_mode is_writable enter_degraded enter_recovery ◌>>=◌
  settle_mode-true (ok true) s f h = refl
  settle_mode-true (ok false) s f h = absurd (ground (arith, f, h))
  settle_mode-true (err e) s f h = absurd (ground (arith, f, h))

  listed :
      (p : String) (ps : List String) (s : Scheduler W F) (x : Result (List (String × Value F)) × W)
      → V.etcd_list p s.world ≡ x
      → ((t : Scheduler W F) → (any_state ps t).0 ≡ ok true → ListsKey V ps t.world)
      → (continue
          (λ kvs. if is_empty kvs then any_state ps else pure true)
          (x.0, record s { world = x.1 })).0
        ≡ ok true
      → ListsKey V (p ∷ ps) s.world
  unfolding pure
  listed p ps s (ok [], w) e rest h =
      inr (ap (λ y. y.0) e, subst (λ y. ListsKey V ps y.1) (sym e) (rest _ h))
  listed p ps s (ok (kv ∷ kvs), w) e rest h = inl (kv ∷ kvs, ap (λ y. y.0) e, refl)
  listed p ps s (err m, w) e rest h = absurd (ground (arith, h))

  any_state-true :
      (ps : List String) (s : Scheduler W F) → (any_state ps s).0 ≡ ok true → ListsKey V ps s.world
  unfolding any_state ◌>>=◌
  any_state-true [] s h = absurd (ground (arith, h))
  any_state-true (p ∷ ps) s h = listed p ps s (V.etcd_list p s.world) refl (any_state-true ps) h

  after_ping-thaw :
      (r : Result (Option (Value F))) (s : Scheduler W F)
      → Frozen s
      → is_writable (after_ping r s).1 ≡ true
      → (is_ok r ≡ true) × ListsKey V ("/nodes/" ∷ "/workloads/" ∷ "/assignments/" ∷ []) s.world
  unfolding after_ping etcd_has_state ◌>>=◌ is_writable enter_degraded
  after_ping-thaw (err e) s f h = absurd (ground (arith, f, h))
  after_ping-thaw (ok v) s f h =
      let keys = "/nodes/" ∷ "/workloads/" ∷ "/assignments/" ∷ [] in
      (
        refl,
        any_state-true keys s (settle_mode-true _ _ ((any_state-Frozen keys).at s f) (rw f at h)),
      )

  -- A tick of the mode supervisor makes a frozen control plane writable only if in this tick etcd answered
  -- the health probe, and then, asked in turn for nodes, workloads and assignments, listed a key under one
  -- of these prefixes.
  pub evaluate_mode-thaw :
      (s : Scheduler W F)
      → is_writable s ≡ false
      → is_writable (evaluate_mode s).1 ≡ true
      → (is_ok (V.etcd_get "/health" s.world).0 ≡ true)
        × ListsKey V
            ("/nodes/" ∷ "/workloads/" ∷ "/assignments/" ∷ [])
            (V.etcd_get "/health" s.world).1
  unfolding evaluate_mode ping_etcd ◌>>=◌ is_writable
  evaluate_mode-thaw s f h = after_ping-thaw _ _ f h

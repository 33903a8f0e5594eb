-- ===== src/Scheduler/Nodes/Select/Success.antt =====
-- scheduler.go: a selection finds a node when one suits.
use persys_cloud.Prelude.{
  ℕ, zero, suc, length, ◌-◌, Result, String, ◌≡◌, refl, Bool, true, false, List, [], ◌∷◌, ◌++◌,
  Option, none, some, ok, ltb, is_empty, insert_by, sort_by, arith, inl, inr, Bool-cases,
}
use persys_cloud.Text.{has_suffix}
use persys_cloud.Scheduler.Models.{Node, Workload, Value, node_value}
use persys_cloud.Scheduler.Services.{Formats, Floats, Services, Scheduler, pure, continue, ◌>>=◌}
use persys_cloud.Scheduler.Mode.{is_writable, require_writable}
use persys_cloud.Scheduler.Etcd.{or_degrade, retryable_get, retryable_etcd_list}
use persys_cloud.Scheduler.Store.RoundTrip.{retried-ok}
use persys_cloud.Scheduler.Answers.{Answers, Answers-pure, Answers-call, Answers-if, Answers-bind}
use persys_cloud.Scheduler.Nodes.Select.{
  ten_minutes, is_ready, rejection, judged, judge, less_used, candidates, first_choice, choose_node,
  choose_listed, select_node_for_workload,
}
use persys_cloud.Scheduler.Nodes.Select.Choice.{suits}

module _ {ℓ} {A : Type ℓ} (less : A → A → Bool) where
  insert_by_nonempty : (x : A) (l : List A) → is_empty (insert_by less x l) ≡ false
  unfolding insert_by
  insert_by_nonempty x [] = refl
  insert_by_nonempty x (y ∷ l) = elim (Bool-cases (less y x)) [
    | inl e ↦ rw e refl
    | inr e ↦ rw e refl
  ]

  sort_by_nonempty : (l : List A) → is_empty l ≡ false → is_empty (sort_by less l) ≡ false
  unfolding sort_by
  sort_by_nonempty [] h = h
  sort_by_nonempty (x ∷ l) h = insert_by_nonempty x (sort_by less l)

module _ {F : Type 0} ⦃N : Floats F⦄ where
  judged_nonempty :
      (n : Node F) (v : Option String) (found : List (Node F) × List String)
      → is_empty found.0 ≡ false
      → is_empty (judged n v found).0 ≡ false
  unfolding judged
  judged_nonempty n none found h = refl
  judged_nonempty n (some r) found h = h

module _ {F : Type 0} ⦃T : Formats⦄ ⦃N : Floats F⦄ where
  suits-rejection :
      (now : ℕ) (w : Workload F) (n : Node F)
      → suits w n ≡ true
      → ltb ten_minutes (now - n.last_heartbeat) ≡ false
      → rejection now w n ≡ none
  unfolding rejection suits
  suits-rejection now w n good fresh = ground (arith, good, fresh)

  suits-is_ready : (w : Workload F) (n : Node F) → suits w n ≡ true → is_ready n ≡ true
  unfolding suits
  suits-is_ready w n good = ground (arith, good)

module _ {W F : Type 0} (V : Services W F) where
  -- None of so many readings of the clock from a world on, one after the other, nor the one after them,
  -- finds the node's heartbeat stale.
  abbrev pub IsFresh : ℕ → W → Node F → Type 0
  IsFresh zero v n = ltb ten_minutes ((V.now v).0 - n.last_heartbeat) ≡ false
  IsFresh (suc m) v n =
      (ltb ten_minutes ((V.now v).0 - n.last_heartbeat) ≡ false) × IsFresh m (V.now v).1 n

  IsFresh-head :
      (m : ℕ) (v : W) (n : Node F)
      → IsFresh m v n
      → ltb ten_minutes ((V.now v).0 - n.last_heartbeat) ≡ false
  IsFresh-head zero v n h = h
  IsFresh-head (suc m) v n (now, h) = now

  IsFresh-fewer : (m : ℕ) (v : W) (n : Node F) → IsFresh (suc m) v n → IsFresh m v n
  IsFresh-fewer zero v n (now, h) = now
  IsFresh-fewer (suc m) v n (now, h) = (now, IsFresh-fewer m (V.now v).1 n h)

module _ {W F : Type 0} ⦃T : Formats⦄ ⦃N : Floats F⦄ ⦃V : Services W F⦄ where
  -- From a state, a method returns a value that satisfies a predicate.
  abbrev Returns : {A : Type 0} → (A → Type 0) → Result A × Scheduler W F → Type 0
  Returns {A} Q (r, t) = (a : A) × (r ≡ ok a) × Q a

  judge-Answers :
      (w : Workload F) (n : Node F) → Answers {W = W} {F = F} (λ v. Unit {0}) (judge w n)
  unfolding judge
  judge-Answers w n =
      Answers-if (is_ready n) _ _
        (λ e.
          Answers-bind _ _ (Answers-call {Q = λ now. Unit {0}} V.now (λ v. tt))
            (λ now u. Answers-pure _ tt))
        (λ e. Answers-pure _ tt)

  candidates-Answers :
      (w : Workload F) (kvs : List (String × Value F))
      → Answers {W = W} {F = F} (λ r. Unit {0}) (candidates w kvs)
  unfolding candidates
  candidates-Answers w [] = Answers-pure _ tt
  candidates-Answers w ((k, node_value n) ∷ kvs) =
      Answers-if (has_suffix k "/status") _ _ (λ e. candidates-Answers w kvs)
        (λ e.
          Answers-bind _ _ (judge-Answers w n)
            (λ v u. Answers-bind _ _ (candidates-Answers w kvs) (λ found u. Answers-pure _ tt)))
  candidates-Answers w ((k, _) ∷ kvs) = candidates-Answers w kvs

  -- The first of two judgements is added to what the others found.
  found_with :
      (n : Node F) (v : Option String) (x : Result (List (Node F) × List String) × Scheduler W F)
      → Returns (λ r. is_empty r.0 ≡ false) x
      → Returns (λ r. is_empty r.0 ≡ false) (continue (λ found. pure (judged n v found)) x)
  unfolding pure
  found_with n v (r, t) (found, e, h) = rw e (judged n v found, refl, judged_nonempty n v found h)

  candidates_nonempty :
      (w : Workload F) (front back : List (String × Value F)) (k : String) (n : Node F)
      (s : Scheduler W F)
      → has_suffix k "/status" ≡ false
      → suits w n ≡ true
      → IsFresh V (length front) s.world n
      → Returns (λ r. is_empty r.0 ≡ false) (candidates w (front ++ (k, node_value n) ∷ back) s)
  unfolding candidates judge ◌>>=◌
  candidates_nonempty w [] back k n s name good fresh =
      let now = V.now s.world in
      let (found, t, e, u) = (candidates-Answers w back).at (record s { world = now.1 }) in
      rw (name, suits-is_ready w n good, suits-rejection now.0 w n good fresh, e)
        (judged n none found, refl, unfold judged in refl)
  candidates_nonempty w ((j, node_value m) ∷ front) back k n s name good fresh =
      let rest = candidates_nonempty w front back k n in
      elim (Bool-cases (has_suffix j "/status")) [
        | inl e ↦ rw e (rest s name good (IsFresh-fewer V (length front) s.world n fresh))
        | inr e ↦ elim (Bool-cases (is_ready m)) [
          | inl ready ↦
              rw (e, ready)
                (found_with m _ _ (rest (record s { world = (V.now s.world).1 }) name good fresh.1))
          | inr down ↦
              rw (e, down)
                (found_with m _ _
                  (rest s name good (IsFresh-fewer V (length front) s.world n fresh)))
        ]
      ]
  candidates_nonempty w ((j, _) ∷ front) back k n s name good fresh =
      candidates_nonempty w front back k n s name good
        (IsFresh-fewer V (length front) s.world n fresh)

  first_choice-Answers :
      (reasons : List String) (l : List (Node F))
      → is_empty l ≡ false
      → Answers {W = W} {F = F} (λ r. Unit {0}) (first_choice reasons l)
  unfolding first_choice
  first_choice-Answers reasons [] h = absurd (cc h)
  first_choice-Answers reasons (n ∷ l) h = Answers-pure _ tt

  choose-Answers :
      (found : List (Node F) × List String)
      → is_empty found.0 ≡ false
      → Answers {W = W} {F = F} (λ r. Unit {0}) (choose_node found)
  unfolding choose_node
  choose-Answers (nodes, reasons) h =
      first_choice-Answers reasons (sort_by less_used nodes) (sort_by_nonempty less_used nodes h)

  choose_found :
      (x : Result (List (Node F) × List String) × Scheduler W F)
      → Returns (λ r. is_empty r.0 ≡ false) x
      → Returns (λ r. Unit {0}) (continue choose_node x)
  choose_found (r, t) (found, e, h) =
      let (chosen, u, chose, q) = (choose-Answers found h).at t in rw (e, chose) (chosen, refl, tt)

  choose_listed-Returns :
      (w : Workload F) (front back : List (String × Value F)) (k : String) (n : Node F)
      (s : Scheduler W F)
      → has_suffix k "/status" ≡ false
      → suits w n ≡ true
      → IsFresh V (length front) s.world n
      → Returns (λ r. Unit {0}) (choose_listed w (front ++ (k, node_value n) ∷ back) s)
  unfolding choose_listed ◌>>=◌
  choose_listed-Returns w [] back k n s name good fresh =
      choose_found _ (candidates_nonempty w [] back k n s name good fresh)
  choose_listed-Returns w (x ∷ front) back k n s name good fresh =
      choose_found _ (candidates_nonempty w (x ∷ front) back k n s name good fresh)

  -- While the control plane may write and etcd lists the nodes, a selection returns a node if some listed
  -- node, under a key that is not a status key, suits the workload, and is fresh: of the readings of the
  -- clock after the listing, one for each key listed before the node and one for the node, none finds its
  -- heartbeat older than ten minutes.
  pub select_node_for_workload_succeeds :
      (w : Workload F) (s : Scheduler W F) (front back : List (String × Value F)) (k : String)
      (n : Node F)
      → is_writable s ≡ true
      → (V.etcd_list "/nodes/" s.world).0 ≡ ok (front ++ (k, node_value n) ∷ back)
      → has_suffix k "/status" ≡ false
      → suits w n ≡ true
      → IsFresh V (length front) (V.etcd_list "/nodes/" s.world).1 n
      → (r : Node F × String) × ((select_node_for_workload w s).0 ≡ ok r)
  unfolding select_node_for_workload require_writable retryable_etcd_list retryable_get or_degrade
      ◌>>=◌
  select_node_for_workload_succeeds w s front back k n writable listed name good fresh =
      let listing = retried-ok (V.etcd_list "/nodes/") s.world listed in
      let (r, e, u) =
        choose_listed-Returns w front back k n
          (record s { world = (V.etcd_list "/nodes/" s.world).1 }) name good fresh in
      rw (writable, listing) (r, e)

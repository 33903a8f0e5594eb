-- ===== src/Scheduler/Nodes/Select/Choice.antt =====
-- scheduler.go: the node that is selected for a workload.
use persys_cloud.Prelude.{
  ℕ, String, ◌≡◌, refl, ◌∙◌, Bool, true, false, ◌&&◌, List, [], ◌∷◌, Option, none, some, ok, all,
  head?, sort_by, sort_by-perm, IsLeast, HeadLeast, sort_by-HeadLeast, all-perm, arith,
}
use persys_cloud.Text.{has_suffix}
use persys_cloud.Scheduler.Models.{Node, Workload, Value, node_value}
use persys_cloud.Scheduler.Services.{Formats, Floats, Services, Scheduler, call}
use persys_cloud.Scheduler.Yields.{
  OnOk, Yields, Yields-pure, Yields-fail, Yields-if, Yields-bind, Yields-any,
}
use persys_cloud.Scheduler.Nodes.{
  matches_labels, node_supports_workload_type, required_storage_drivers,
  node_supports_storage_drivers,
}
use persys_cloud.Scheduler.Nodes.Select.{
  is_ready, enough_cpu, enough_memory, rejection, judged, judge, less_used, candidates, choose_node,
  first_choice, choose_listed, select_node_for_workload,
}

module _ {F : Type 0} ⦃N : Floats F⦄ where
  -- The node is ready and has all that the workload asks for.
  unfoldable pub suits : Workload F → Node F → Bool
  suits w n =
      is_ready n
      && matches_labels w.labels n.labels
      && node_supports_workload_type n w.kind
      && node_supports_storage_drivers n (required_storage_drivers w)
      && enough_cpu w n
      && enough_memory w n

  judged-suits :
      (w : Workload F) (n : Node F) (v : Option String) (found : List (Node F) × List String)
      → (v ≡ none → suits w n ≡ true)
      → all (suits w) found.0 ≡ true
      → all (suits w) (judged n v found).0 ≡ true
  unfolding judged
  judged-suits w n none (nodes, reasons) good h = rw (good refl) h
  judged-suits w n (some r) (nodes, reasons) good h = h

  all-head :
      (p : Node F → Bool) (l : List (Node F)) {n : Node F}
      → head? l ≡ some n
      → all p l ≡ true
      → p n ≡ true
  all-head p [] e h = absurd (cc e)
  all-head p (m ∷ ms) e h = ground (arith, e, h)

module _ {F : Type 0} ⦃T : Formats⦄ ⦃N : Floats F⦄ where
  rejection-suits :
      (now : ℕ) (w : Workload F) (n : Node F)
      → is_ready n ≡ true
      → rejection now w n ≡ none
      → suits w n ≡ true
  unfolding rejection suits
  rejection-suits now w n ready h = ground (arith, ready, h)

module _ {W F : Type 0} ⦃T : Formats⦄ ⦃N : Floats F⦄ ⦃V : Services W F⦄ where
  judge-Yields :
      (w : Workload F) (n : Node F)
      → Yields {W = W} {F = F} (λ v. v ≡ none → suits w n ≡ true) (judge w n)
  unfolding judge
  judge-Yields w n =
      Yields-if (is_ready n) _ _
        (λ e.
          Yields-bind _ _ (Yields-any (call V.now))
            (λ now u. Yields-pure _ (rejection-suits now w n e)))
        (λ e. Yields-pure _ (λ h. absurd (cc h)))

  candidates-Yields :
      (w : Workload F) (kvs : List (String × Value F))
      → Yields {W = W} {F = F} (λ r. all (suits w) r.0 ≡ true) (candidates w kvs)
  unfolding candidates
  candidates-Yields w [] = Yields-pure _ refl
  candidates-Yields w ((k, node_value n) ∷ kvs) =
      Yields-if (has_suffix k "/status") _ _ (λ e. candidates-Yields w kvs)
        (λ e. Yields-bind _ _ (judge-Yields w n) (λ v good.
          Yields-bind _ _ (candidates-Yields w kvs)
            (λ found h. Yields-pure _ (judged-suits w n v found good h))))
  candidates-Yields w ((k, _) ∷ kvs) = candidates-Yields w kvs

  first_choice-Yields :
      (w : Workload F) (reasons : List String) (l : List (Node F))
      → all (suits w) l ≡ true
      → Yields {W = W} {F = F} (λ r. suits w r.0 ≡ true) (first_choice reasons l)
  unfolding first_choice
  first_choice-Yields w reasons [] h = Yields-fail _
  first_choice-Yields w reasons (n ∷ ns) h = Yields-pure _ (all-head (suits w) (n ∷ ns) refl h)

  choose_listed-Yields :
      (w : Workload F) (kvs : List (String × Value F))
      → Yields {W = W} {F = F} (λ r. suits w r.0 ≡ true) (choose_listed w kvs)
  unfolding choose_listed choose_node
  choose_listed-Yields w [] = Yields-fail _
  choose_listed-Yields w (kv ∷ kvs) = Yields-bind _ _ (candidates-Yields w (kv ∷ kvs)) (λ found h.
      first_choice-Yields w found.1 (sort_by less_used found.0)
        (all-perm (suits w) (sort_by-perm less_used found.0) ∙ h))

  select_node-Yields :
      (w : Workload F)
      → Yields {W = W} {F = F} (λ r. suits w r.0 ≡ true) (select_node_for_workload w)
  unfolding select_node_for_workload
  select_node-Yields w = Yields-bind _ _ (Yields-any _) (λ kvs u. choose_listed-Yields w kvs)

  -- A node that is selected for a workload is ready, has every label that the workload asks for, supports
  -- the workload's type and the storage drivers of its volumes, and has the processor and memory that it
  -- asks for.
  pub select_node_for_workload-suits :
      (w : Workload F) (s t : Scheduler W F) (n : Node F) (cause : String)
      → select_node_for_workload w s ≡ (ok (n, cause), t)
      → suits w n ≡ true
  select_node_for_workload-suits w s t n cause e =
      let y : OnOk (λ r. suits w r.0 ≡ true) (select_node_for_workload w s) =
        (select_node-Yields w).at s in
      rw e at y

  first_choice-IsLeast :
      (reasons : List String) (nodes l : List (Node F))
      → HeadLeast less_used nodes l
      → Yields {W = W} {F = F} (λ r. IsLeast less_used nodes r.0) (first_choice reasons l)
  unfolding first_choice
  first_choice-IsLeast reasons nodes [] least = absurd least
  first_choice-IsLeast reasons nodes (n ∷ ns) least = Yields-pure _ least

  -- Where the order of the scores is that of numbers, the node chosen among candidates is one that no
  -- candidate is less used than.
  pub choose_node-IsLeast :
      (nodes : List (Node F)) (reasons : List String) (s t : Scheduler W F) (n : Node F)
      (cause : String)
      → ((a b : F) → N.lt a b ≡ true → N.lt b a ≡ false)
      → ((a b c : F) → N.lt a b ≡ false → N.lt b c ≡ false → N.lt a c ≡ false)
      → choose_node (nodes, reasons) s ≡ (ok (n, cause), t)
      → IsLeast less_used nodes n
  unfolding choose_node first_choice sort_by
  choose_node-IsLeast [] reasons s t n cause asym negtrans e = refl
  choose_node-IsLeast (m ∷ ms) reasons s t n cause asym negtrans e =
      let y : OnOk (λ r. IsLeast less_used (m ∷ ms) r.0)
          (first_choice reasons (sort_by less_used (m ∷ ms)) s) =
        (first_choice-IsLeast reasons (m ∷ ms) (sort_by less_used (m ∷ ms))
            (sort_by-HeadLeast less_used (λ a b. asym _ _) (λ a b c. negtrans _ _ _) m ms)).at
          s in
      rw e at y

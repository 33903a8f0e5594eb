-- ===== src/Scheduler/Store/Keys.antt =====
-- state_store.go: the keys of a workload differ from each other and from those of another workload.
use Prim.Native.String.{len, slice, ◌++◌ as text_append}
use text.Mathlib.TextPositions.{slice-append_left}
use text.Mathlib.TextLemmas.{append_assoc, append_cancel_left}
use persys_cloud.Prelude.{
  String, ◌≡◌, refl, sym, ap, ◌∙◌, false, ◌==◌, eq_iff, inl, inr, Bool-cases,
}
use persys_cloud.Text.{concat}
use persys_cloud.Scheduler.Store.{workload_spec_key, workload_status_key, retry_key}

prefixes_differ :
    (p q a b : String)
    → len p ≡ len q
    → (p == q) ≡ false
    → (text_append p a == text_append q b) ≡ false
prefixes_differ p q a b same differ = elim (Bool-cases (text_append p a == text_append q b)) [
  | inl e ↦
      let equal : text_append p a ≡ text_append q b = (eq_iff _ _).0 e in
      let cut : p ≡ q =
        sym (slice-append_left p a)
        ∙ ap (λ t. slice t 0 (len p)) equal
        ∙ ap (λ n. slice (text_append q b) 0 n) same
        ∙ slice-append_left q b in
      absurd (cc ((eq_iff p q).1 cut, differ))
  | inr e ↦ e
]

-- A key is the start of its prefix, then the rest of the prefix and the id.
abbrev Splits : String → String → String → String → Type 0
Splits whole start rest id = text_append whole id ≡ text_append start (text_append rest id)

spec-Splits : (id : String) → Splits "/workloads-spec/" "/workloads-sp" "ec/" id
spec-Splits id = append_assoc "/workloads-sp" "ec/" id

pub status_key-spec_key : (i j : String) → (workload_status_key i == workload_spec_key j) ≡ false
unfolding concat
status_key-spec_key i j =
    let e : Splits "/workloads-status/" "/workloads-st" "atus/" i =
      append_assoc "/workloads-st" "atus/" i in
    rw (e, spec-Splits j) (prefixes_differ "/workloads-st" "/workloads-sp" _ _ refl refl)

pub retry_key-spec_key : (i j : String) → (retry_key i == workload_spec_key j) ≡ false
unfolding concat
retry_key-spec_key i j =
    let e : Splits "/retries/" "/re" "tries/" i = append_assoc "/re" "tries/" i in
    let f : Splits "/workloads-spec/" "/wo" "rkloads-spec/" j =
      append_assoc "/wo" "rkloads-spec/" j in
    rw (e, f) (prefixes_differ "/re" "/wo" _ _ refl refl)

pub retry_key-status_key : (i j : String) → (retry_key i == workload_status_key j) ≡ false
unfolding concat
retry_key-status_key i j =
    let e : Splits "/retries/" "/re" "tries/" i = append_assoc "/re" "tries/" i in
    let f : Splits "/workloads-status/" "/wo" "rkloads-status/" j =
      append_assoc "/wo" "rkloads-status/" j in
    rw (e, f) (prefixes_differ "/re" "/wo" _ _ refl refl)

append-inj : (p a b : String) → (a == b) ≡ false → (text_append p a == text_append p b) ≡ false
append-inj p a b h = elim (Bool-cases (text_append p a == text_append p b)) [
  | inl e ↦ absurd (cc ((eq_iff a b).1 (append_cancel_left p a b ((eq_iff _ _).0 e)), h))
  | inr e ↦ e
]

pub spec_key-inj :
    (i j : String) → (i == j) ≡ false → (workload_spec_key i == workload_spec_key j) ≡ false
unfolding concat
spec_key-inj i j h = append-inj "/workloads-spec/" i j h

pub status_key-inj :
    (i j : String) → (i == j) ≡ false → (workload_status_key i == workload_status_key j) ≡ false
unfolding concat
status_key-inj i j h = append-inj "/workloads-status/" i j h

pub spec_key-status_key : (i j : String) → (workload_spec_key i == workload_status_key j) ≡ false
unfolding concat
spec_key-status_key i j =
    let e : Splits "/workloads-status/" "/workloads-st" "atus/" j =
      append_assoc "/workloads-st" "atus/" j in
    rw (e, spec-Splits i) (prefixes_differ "/workloads-sp" "/workloads-st" _ _ refl refl)

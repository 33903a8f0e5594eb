-- ===== src/Prelude/Sort.antt =====
-- Go's `sort.SliceStable` and `sort.Slice` as a stable insertion sort by a Boolean `less`, and the
-- order of texts that `<` on strings is.
use Prim.Native.Nat.{Ordering, compare as compare_ℕ}
use Prim.Native.Char.{code}
use Prim.Native.String.{then as first_of_two, compare}
use Prim.Native.String.compare
use mathlib.Core.List.{Perm, Permᴰ}
use mathlib.Core.List.Perm
use persys_cloud.Prelude.Tests.{if◌then◌else◌, Bool-cases}
use persys_cloud.Prelude.Lists.{any, all}
use Prim.Native.Nat.{ℕ}
use Prim.Native.String.{String}
use mathlib.Core.Path.{◌≡◌, refl, ap, ◌∙◌}
use mathlib.Core.Logic.{inl, inr, ∥∥₁_elim}
use mathlib.Core.Bool.{not, Bool, true, false, ◌||◌, Bool-set}
use mathlib.Core.List.{List, [], ◌∷◌}
use native.Mathlib.Omega.{arith}

abbrev is_lt : Ordering → Bool
is_lt Ordering.lt = true
is_lt Ordering.eq = false
is_lt Ordering.gt = false

-- s < t on Go strings: by the bytes of their UTF-8.
unfoldable pub str_lt : String → String → Bool
str_lt s t = is_lt (compare s t)

abbrev flip : Ordering → Ordering
flip Ordering.lt = Ordering.gt
flip Ordering.eq = Ordering.eq
flip Ordering.gt = Ordering.lt

flip-compare_ℕ : (m n : ℕ) → compare_ℕ n m ≡ flip (compare_ℕ m n)
flip-compare_ℕ m n = ground arith

flip-then : (o p : Ordering) → first_of_two (flip o) (flip p) ≡ flip (first_of_two o p)
flip-then Ordering.lt p = refl
flip-then Ordering.eq p = refl
flip-then Ordering.gt p = refl

flip-compare : (s t : String) → compare t s ≡ flip (compare s t)
flip-compare String.[] String.[] = refl
flip-compare String.[] (String.◌∷◌ d t) = rw (compare.cons-nil d t, compare.nil-cons d t) refl
flip-compare (String.◌∷◌ c s) String.[] = rw (compare.cons-nil c s, compare.nil-cons c s) refl
flip-compare (String.◌∷◌ c s) (String.◌∷◌ d t) =
    rw
      (
        compare.cons-cons d c t s,
        compare.cons-cons c d s t,
        flip-compare s t,
        flip-compare_ℕ (code c) (code d),
      )
      (flip-then (compare_ℕ (code c) (code d)) (compare s t))

pub str_lt_asym : (s t : String) → str_lt s t ≡ true → str_lt t s ≡ false
unfolding str_lt
str_lt_asym s t h = ground (arith, flip-compare s t)

module _ {ℓ} {A : Type ℓ} where
  unfoldable pub insert_by : (A → A → Bool) → A → List A → List A
  insert_by less x [] = x ∷ []
  insert_by less x (y ∷ ys) =
      let rest = insert_by less x ys in if less y x then y ∷ rest else x ∷ y ∷ ys

  unfoldable pub sort_by : (A → A → Bool) → List A → List A
  unfolding insert_by
  sort_by less [] = []
  sort_by less (x ∷ xs) = insert_by less x (sort_by less xs)

  -- No neighbour on the right is less.
  abbrev pub IsSorted : (A → A → Bool) → List A → Type 0
  IsSorted less [] = Unit
  IsSorted less (x ∷ []) = Unit
  IsSorted less (x ∷ y ∷ l) = (less y x ≡ false) × IsSorted less (y ∷ l)

  pub insert_by-perm :
      (less : A → A → Bool) (x : A) (l : List A) → Perm (insert_by less x l) (x ∷ l)
  unfolding insert_by
  insert_by-perm less x [] = Perm.refl (x ∷ [])
  insert_by-perm less x (y ∷ ys) = elim (Bool-cases (less y x)) [
    | inl h ↦ rw h (Perm.trans (Perm.cons y (insert_by-perm less x ys)) (Perm.swap x y ys))
    | inr h ↦ rw h (Perm.refl (x ∷ y ∷ ys))
  ]

  -- Sorting keeps every entry, as often.
  pub sort_by-perm : (less : A → A → Bool) (l : List A) → Perm (sort_by less l) l
  unfolding sort_by
  sort_by-perm less [] = Perm.refl []
  sort_by-perm less (x ∷ xs) =
      Perm.trans (insert_by-perm less x (sort_by less xs)) (Perm.cons x (sort_by-perm less xs))

module _ {ℓ} {A : Type ℓ} (p : A → Bool) where
  any-insert_by :
      (less : A → A → Bool) (x : A) (l : List A) → any p (insert_by less x l) ≡ (p x || any p l)
  unfolding insert_by
  any-insert_by less x [] = refl
  any-insert_by less x (y ∷ ys) = ground (arith, any-insert_by less x ys)

  pub any-sort_by : (less : A → A → Bool) (l : List A) → any p (sort_by less l) ≡ any p l
  unfolding sort_by
  any-sort_by less [] = refl
  any-sort_by less (x ∷ xs) =
      any-insert_by less x (sort_by less xs) ∙ ap (λ b. p x || b) (any-sort_by less xs)

  all-permᴰ : {l k : List A} → Permᴰ l k → all p l ≡ all p k
  all-permᴰ Permᴰ.nil = refl
  all-permᴰ (Permᴰ.cons e h) = rw (e, all-permᴰ h)
  all-permᴰ (Permᴰ.swap {a = a} {b = b} e f) = rw (← e, ← f) (ground arith)
  all-permᴰ (Permᴰ.trans h k) = all-permᴰ h ∙ all-permᴰ k

  -- A test of every entry does not depend on their order.
  pub all-perm : {l k : List A} → Perm l k → all p l ≡ all p k
  all-perm h = ∥∥₁_elim h (Bool-set _ _) all-permᴰ

module _ {ℓ} {A : Type ℓ} (less : A → A → Bool)
    (asym : (a b : A) → less a b ≡ true → less b a ≡ false) where
  insert_by-IsSorted : (x : A) (l : List A) → IsSorted less l → IsSorted less (insert_by less x l)
  unfolding insert_by
  insert_by-IsSorted x [] h = tt
  insert_by-IsSorted x (y ∷ []) h = ground (arith, asym y x)
  insert_by-IsSorted x (y ∷ z ∷ l) h =
      ground (arith, asym y x, asym z x, insert_by-IsSorted x (z ∷ l) h.1)

  pub sort_by-IsSorted : (l : List A) → IsSorted less (sort_by less l)
  unfolding sort_by
  sort_by-IsSorted [] = tt
  sort_by-IsSorted (x ∷ xs) = insert_by-IsSorted x (sort_by less xs) (sort_by-IsSorted xs)

module _ {ℓ} {A : Type ℓ} (less : A → A → Bool) where
  -- Nothing in the list is less than the element.
  abbrev pub IsLeast : List A → A → Type 0
  IsLeast l h = all (λ c. not (less c h)) l ≡ true

  -- The second list starts with an element that is least in the first.
  abbrev pub HeadLeast : List A → List A → Type 0
  HeadLeast l [] = ⊥
  HeadLeast l (h ∷ t) = IsLeast l h

module _ {ℓ} {A : Type ℓ} (less : A → A → Bool)
    (asym : (a b : A) → less a b ≡ true → less b a ≡ false)
    (negtrans : (a b c : A) → less a b ≡ false → less b c ≡ false → less a c ≡ false) where
  IsLeast-below : (l : List A) (h x : A) → IsLeast less l h → less h x ≡ false → IsLeast less l x
  IsLeast-below [] h x least e = refl
  IsLeast-below (c ∷ l) h x least e = ground (arith, negtrans c h x, IsLeast-below l h x, least, e)

  insert_by-HeadLeast :
      (x : A) (l k : List A) → HeadLeast less l k → HeadLeast less (x ∷ l) (insert_by less x k)
  unfolding insert_by
  insert_by-HeadLeast x l [] least = absurd least
  insert_by-HeadLeast x l (h ∷ t) least = elim (Bool-cases (less h x)) [
    | inl e ↦ rw e (ground (arith, asym h x e, least))
    | inr e ↦
        let self : less x x ≡ false = elim (Bool-cases (less x x)) [
          | inl y ↦ asym x x y
          | inr y ↦ y
        ] in
        rw e (ground (arith, self, IsLeast-below l h x least e))
  ]

  -- The first of a sorted list is least.
  pub sort_by-HeadLeast : (x : A) (xs : List A) → HeadLeast less (x ∷ xs) (sort_by less (x ∷ xs))
  unfolding sort_by insert_by
  sort_by-HeadLeast x [] = elim (Bool-cases (less x x)) [
    | inl e ↦ absurd (cc (e, asym x x e))
    | inr e ↦ ground (arith, e)
  ]
  sort_by-HeadLeast x (y ∷ ys) =
      insert_by-HeadLeast x (y ∷ ys) (sort_by less (y ∷ ys)) (sort_by-HeadLeast y ys)

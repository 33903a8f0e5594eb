-- ===== src/Text/Split/Decimal.antt =====
-- Go's strconv: the decimal texts of numbers, and that Atoi reads them.
use Prim.Native.Char.{Char, code}
use Prim.Native.String.{char_at, ◌++◌ as text_append}
use text.Mathlib.TextLemmas.{nil-append, cons-append}
use persys_cloud.Prelude.{
  ℕ, zero, suc, ◌+◌, ◌-◌, ◌*◌, ◌/◌, ◌%◌, ◌^◌, ◌<◌, String, ◌≡◌, refl, ◌∙◌, ap, Bool, true, false,
  ◌&&◌, if◌then◌else◌, ◌==◌, ltb, nat_eq, inl, inr, Bool-cases, arith, eq_iff, [], ◌∷◌, ok,
}
use persys_cloud.Text.{trim_space, trim_space-cons, is_space}
use persys_cloud.Text.Split.{
  contains_char, split_when, onto_first, value, uint_digits, signed, positive_int, is_digit, atoi,
}

abbrev pub digit : ℕ → Char
digit d = char_at "0123456789" d

-- The digits of a number, before a text; the fuel is more than the number.
unfoldable pub digits_before : ℕ → ℕ → String → String
digits_before zero n s = s
digits_before (suc f) n s =
    let rest = digits_before f (n / 10) (String.◌∷◌ (digit (n % 10)) s) in
    if ltb n 10 then String.◌∷◌ (digit n) s else rest

-- A number in decimal, as `strconv.Itoa` writes it.
unfoldable pub decimal : ℕ → String
unfolding digits_before
decimal n = digits_before (suc n) n String.[]

all_digits : ℕ → Bool
all_digits zero = true
all_digits (suc n) = is_digit (digit n) && nat_eq (code (digit n)) (b'0' + n) && all_digits n

all_digits_sound :
    (n d : ℕ)
    → all_digits n ≡ true
    → d < n
    → (is_digit (digit d) ≡ true) × (code (digit d) ≡ b'0' + d)
unfolding all_digits
all_digits_sound zero d h l = elim l [ ]
all_digits_sound (suc n) d h l = ground (arith, all_digits_sound n d)

digit_lem : (d : ℕ) → d < 10 → (is_digit (digit d) ≡ true) × (code (digit d) ≡ b'0' + d)
unfolding all_digits is_digit
digit_lem d l = all_digits_sound 10 d refl l

-- A digit read after a number.
uint_digits-digit :
    (n d : ℕ) (s : String)
    → d < 10
    → n * 10 + d < 2 ^ 64
    → uint_digits n (String.◌∷◌ (digit d) s) ≡ uint_digits (n * 10 + d) s
unfolding uint_digits
uint_digits-digit n d s l below =
    let e : n * 10 + (code (digit d) - b'0') ≡ n * 10 + d = rw (digit_lem d l).1 (omega arith) in
    rw ((digit_lem d l).0, e) (ground arith)

uint_digits-digits_before :
    (f n : ℕ) (s : String)
    → n < f
    → n < 2 ^ 64
    → uint_digits 0 (digits_before f n s) ≡ uint_digits n s
unfolding digits_before
uint_digits-digits_before zero n s l below = elim l [ ]
uint_digits-digits_before (suc f) n s l below = elim (Bool-cases (ltb n 10)) [
  | inl e ↦ rw e (
      uint_digits-digit 0 n s (ground arith) (omega arith)
      ∙ ap (λ m. uint_digits m s) (omega arith))
  | inr e ↦ rw e (
      uint_digits-digits_before f (n / 10) (String.◌∷◌ (digit (n % 10)) s) (ground arith)
        (omega arith)
      ∙ uint_digits-digit (n / 10) (n % 10) s (omega arith) (omega arith)
      ∙ ap (λ m. uint_digits m s) (omega arith))
]

-- The text begins with a digit, and no character of it satisfies the test.
abbrev Avoids : (Char → Bool) → String → Type 0
Avoids p String.[] = Unit
Avoids p (String.◌∷◌ c s) = (p c ≡ false) × Avoids p s

pub split_when-Avoids : (p : Char → Bool) (s : String) → Avoids p s → split_when p s ≡ s ∷ []
unfolding split_when onto_first
split_when-Avoids p String.[] h = refl
split_when-Avoids p (String.◌∷◌ c s) h = rw (h.0, split_when-Avoids p s h.1) refl

pub split_when-append :
    (p : Char → Bool) (s : String) (c : Char) (t : String)
    → Avoids p s
    → p c ≡ true
    → split_when p (text_append s (String.◌∷◌ c t)) ≡ s ∷ split_when p t
unfolding split_when onto_first
split_when-append p String.[] c t h e = rw (nil-append (String.◌∷◌ c t), e) refl
split_when-append p (String.◌∷◌ b s) c t h e =
    rw (cons-append b s (String.◌∷◌ c t), h.0, split_when-append p s c t h.1 e) refl

-- A text of digits that goes on with another.
module _ (p : Char → Bool) (no_digit : (d : ℕ) → d < 10 → p (digit d) ≡ false) where
  digits_before-Avoids : (f n : ℕ) (s : String) → Avoids p s → Avoids p (digits_before f n s)
  unfolding digits_before
  digits_before-Avoids zero n s h = h
  digits_before-Avoids (suc f) n s h = elim (Bool-cases (ltb n 10)) [
    | inl e ↦ rw e (no_digit n (ground arith), h)
    | inr e ↦ rw e (
        digits_before-Avoids f (n / 10) (String.◌∷◌ (digit (n % 10)) s)
          (no_digit (n % 10) (omega arith), h))
  ]

-- The text begins with a digit.
abbrev Numeric : String → Type 0
Numeric String.[] = ⊥
Numeric (String.◌∷◌ c s) = is_digit c ≡ true

digits_before-Numeric : (f n : ℕ) (s : String) → n < f → Numeric (digits_before f n s)
unfolding digits_before
digits_before-Numeric zero n s l = elim l [ ]
digits_before-Numeric (suc f) n s l = elim (Bool-cases (ltb n 10)) [
  | inl e ↦ rw e (digit_lem n (ground arith)).0
  | inr e ↦ rw e (digits_before-Numeric f (n / 10) (String.◌∷◌ (digit (n % 10)) s) (ground arith))
]

is_digit-no_sign :
    (c : Char)
    → is_digit c ≡ true
    → (nat_eq (code c) b'-' ≡ false)
      × (nat_eq (code c) b'+' ≡ false)
      × (nat_eq (code c) b'/' ≡ false)
      × (nat_eq (code c) b':' ≡ false)
unfolding is_digit
is_digit-no_sign c h = ground arith

signed-Numeric : (s : String) → Numeric s → signed s ≡ positive_int (uint_digits 0 s)
unfolding signed
signed-Numeric String.[] h = absurd h
signed-Numeric (String.◌∷◌ c s) h = rw ((is_digit-no_sign c h).0, (is_digit-no_sign c h).1) refl

positive_int-small : (n : ℕ) → n < 2 ^ 63 → positive_int (value n) ≡ value n
unfolding positive_int
positive_int-small n l = ground arith

uint_digits-nil : (n : ℕ) → uint_digits n String.[] ≡ value n
unfolding uint_digits
uint_digits-nil n = refl

signed-decimal : (n : ℕ) → n < 2 ^ 63 → signed (decimal n) ≡ value n
unfolding decimal
signed-decimal n l =
    signed-Numeric _ (digits_before-Numeric (suc n) n String.[] (omega arith))
    ∙ ap positive_int (
        uint_digits-digits_before (suc n) n String.[] (omega arith) (omega arith)
        ∙ uint_digits-nil n)
    ∙ positive_int-small n l

-- Go reads back what it prints: `Atoi` of a number in decimal is that number.
pub atoi-decimal : (quote : String → String) (n : ℕ) → n < 2 ^ 63 → atoi quote (decimal n) ≡ ok n
unfolding atoi
atoi-decimal quote n l = rw (signed-decimal n l) refl

is_digit-no_space : (c : Char) → is_digit c ≡ true → is_space c ≡ false
unfolding is_digit is_space
is_digit-no_space c h = ground arith

cons-nonempty : (c : Char) (s : String) → (String.◌∷◌ c s == "") ≡ false
cons-nonempty c s = elim (Bool-cases (String.◌∷◌ c s == "")) [
  | inl e ↦ absurd (cc ((eq_iff (String.◌∷◌ c s) "").0 e))
  | inr e ↦ e
]

pub trim_space-Numeric : (s t : String) → Numeric s → (trim_space (text_append s t) == "") ≡ false
trim_space-Numeric String.[] t h = absurd h
trim_space-Numeric (String.◌∷◌ c s) t h =
    let (rest, e) = trim_space-cons c (text_append s t) (is_digit-no_space c h) in
    rw (cons-append c s t, e) (cons-nonempty c rest)

pub contains_char-Avoids :
    (at : ℕ) (s : String) → Avoids (λ c. nat_eq (code c) at) s → contains_char at s ≡ false
unfolding contains_char
contains_char-Avoids at String.[] h = refl
contains_char-Avoids at (String.◌∷◌ c s) h = rw (h.0, contains_char-Avoids at s h.1) refl

pub decimal-Numeric : (n : ℕ) → Numeric (decimal n)
unfolding decimal
decimal-Numeric n = digits_before-Numeric (suc n) n String.[] (omega arith)

pub decimal-Avoids :
    (at n : ℕ)
    → ((d : ℕ) → d < 10 → nat_eq (code (digit d)) at ≡ false)
    → Avoids (λ c. nat_eq (code c) at) (decimal n)
unfolding decimal
decimal-Avoids at n h = digits_before-Avoids (λ c. nat_eq (code c) at) h (suc n) n String.[] tt

pub no_colon : (d : ℕ) → d < 10 → nat_eq (code (digit d)) b':' ≡ false
no_colon d l = (is_digit-no_sign (digit d) (digit_lem d l).0).3

pub no_slash : (d : ℕ) → d < 10 → nat_eq (code (digit d)) b'/' ≡ false
no_slash d l = (is_digit-no_sign (digit d) (digit_lem d l).0).2

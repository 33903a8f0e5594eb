-- ===== src/Text/Split.antt =====
-- What the program uses of Go's `strings.Split`, `SplitN` and `Fields`, and of `strconv.Atoi`, whose
-- int64 is its 64-bit word.
pub mod Decimal
use Prim.Native.Char.{Char, code}
use persys_cloud.Prelude.{
  ℕ, ◌+◌, ◌-◌, ◌*◌, ◌^◌, String, ◌≡◌, refl, Bool, false, not, ◌&&◌, ◌||◌, leb, ltb, nat_eq, ◌==◌,
  if◌then◌else◌, List, [], ◌∷◌, Option, none, some, Result, ok, err, filter,
}
use persys_cloud.Text.{concat, is_space}

-- A character before the first of the pieces.
unfoldable pub onto_first : Char → List String → List String
onto_first c [] = String.◌∷◌ c String.[] ∷ []
onto_first c (s ∷ rest) = String.◌∷◌ c s ∷ rest

-- The pieces between the characters that satisfy a test.
unfoldable pub split_when : (Char → Bool) → String → List String
unfolding onto_first
split_when p String.[] = String.[] ∷ []
split_when p (String.◌∷◌ c s) =
    let rest = split_when p s in if p c then String.[] ∷ rest else onto_first c rest

-- `strings.Split` at a character.
abbrev pub split_char : ℕ → String → List String
split_char at s = split_when (λ c. nat_eq (code c) at) s

-- strings.Fields
unfoldable pub fields : String → List String
unfolding split_when
fields s = filter (λ piece. not (piece == "")) (split_when is_space s)

-- `strings.Contains` of one character.
unfoldable pub contains_char : ℕ → String → Bool
contains_char at String.[] = false
contains_char at (String.◌∷◌ c s) = nat_eq (code c) at || contains_char at s

-- The two pieces of `strings.SplitN(s, c, 2)`, where the character is there.
unfoldable pub before_char : ℕ → String → String
before_char at String.[] = String.[]
before_char at (String.◌∷◌ c s) =
    let rest = before_char at s in if nat_eq (code c) at then String.[] else String.◌∷◌ c rest

unfoldable pub after_char : ℕ → String → String
after_char at String.[] = String.[]
after_char at (String.◌∷◌ c s) =
    let rest = after_char at s in if nat_eq (code c) at then s else rest

-- What a parse of digits ends with.
pub data Parsed : Type 0 where
  value : ℕ → Parsed
  syntax out_of_range : Parsed

unfoldable pub is_digit : Char → Bool
is_digit c = leb b'0' (code c) && leb (code c) b'9'

-- The loop of `strconv.ParseUint` in base ten, from a number read so far.
unfoldable pub uint_digits : ℕ → String → Parsed
unfolding is_digit
uint_digits n String.[] = value n
uint_digits n (String.◌∷◌ c s) =
    let next = n * 10 + (code c - b'0') in
    let rest = uint_digits next s in
    if not (is_digit c) then syntax else if leb (2 ^ 64) next then out_of_range else rest

unfoldable pub unsigned : String → Parsed
unfolding uint_digits
unsigned String.[] = syntax
unsigned (String.◌∷◌ c s) = uint_digits 0 (String.◌∷◌ c s)

-- A sign given to a magnitude, in 64 bits.
unfoldable pub positive_int : Parsed → Parsed
positive_int (value n) = if leb (2 ^ 63) n then out_of_range else value n
positive_int p = p

unfoldable pub negative_int : Parsed → Parsed
negative_int (value n) =
    if ltb (2 ^ 63) n then out_of_range else if nat_eq n 0 then value 0 else value (2 ^ 64 - n)
negative_int p = p

unfoldable pub signed : String → Parsed
unfolding unsigned positive_int negative_int
signed String.[] = syntax
signed (String.◌∷◌ c s) =
    if nat_eq (code c) b'-'
    then negative_int (unsigned s)
    else if nat_eq (code c) b'+'
    then positive_int (unsigned s)
    else positive_int (uint_digits 0 (String.◌∷◌ c s))

atoi_error : (String → String) → String → String → String
atoi_error quote s what = concat ("strconv.Atoi: parsing " ∷ quote s ∷ ": " ∷ what ∷ [])

atoi_result : (String → String) → String → Parsed → Result ℕ
unfolding atoi_error
atoi_result quote s (value n) = ok n
atoi_result quote s syntax = err (atoi_error quote s "invalid syntax")
atoi_result quote s out_of_range = err (atoi_error quote s "value out of range")

-- strconv.Atoi, with `%q` for its message.
unfoldable pub atoi : (String → String) → String → Result ℕ
unfolding signed atoi_result
atoi quote s = atoi_result quote s (signed s)

-- The digits that a text begins with.
unfoldable pub leading_digits : String → String
unfolding is_digit
leading_digits String.[] = String.[]
leading_digits (String.◌∷◌ c s) =
    let rest = leading_digits s in if is_digit c then String.◌∷◌ c rest else String.[]

scanned : Parsed → Option ℕ
scanned (value n) = some n
scanned _ = none

-- `fmt.Sscanf(s, "%d", …)` of an int, where the text has no space before the number.
unfoldable pub scan_int : String → Option ℕ
unfolding leading_digits unsigned positive_int negative_int scanned
scan_int String.[] = none
scan_int (String.◌∷◌ c s) =
    if nat_eq (code c) b'-'
    then scanned (negative_int (unsigned (leading_digits s)))
    else if nat_eq (code c) b'+'
    then scanned (positive_int (unsigned (leading_digits s)))
    else scanned (positive_int (unsigned (leading_digits (String.◌∷◌ c s))))

splits : split_char b':' "80:8080" ≡ "80" ∷ "8080" ∷ []
unfolding split_when
splits = refl

reads : atoi (λ s. s) "-1" ≡ ok (2 ^ 64 - 1)
unfolding atoi
reads = refl

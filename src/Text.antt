-- ===== src/Text.antt =====
-- What the program uses of Go's package `strings`, over the native texts.
-- Letter case is that of ASCII, which is all that the program's own constants are written in; white
-- space is the whole of Unicode's property, as in `unicode.IsSpace`.
pub mod Split
use Prim.Native.Char.{Char, code}
use Prim.Native.String.{char_at, len, slice, ◌++◌ as text_append}
use text.Mathlib.Text.{find?, starts_with}
use persys_cloud.Prelude.{
  ℕ, ◌+◌, ◌-◌, ◌/◌, ◌%◌, String, ◌++◌, ◌≡◌, refl, ap, ◌∙◌, Bool, true, false, ◌&&◌, ◌||◌, leb, ltb,
  nat_eq, ◌==◌, if◌then◌else◌, is_some, List, [], ◌∷◌,
}

-- `+` on Go strings, and `fmt.Sprintf` with `%s` places: the pieces in a row.
unfoldable pub concat : List String → String
concat [] = String.[]
concat (s ∷ []) = s
concat (s ∷ t ∷ rest) = text_append s (concat (t ∷ rest))

unfoldable pub is_space : Char → Bool
is_space c =
    leb 9 (code c) && leb (code c) 13
    || nat_eq (code c) 32
    || nat_eq (code c) 0x85
    || nat_eq (code c) 0xa0
    || nat_eq (code c) 0x1680
    || leb 0x2000 (code c) && leb (code c) 0x200a
    || nat_eq (code c) 0x2028
    || nat_eq (code c) 0x2029
    || nat_eq (code c) 0x202f
    || nat_eq (code c) 0x205f
    || nat_eq (code c) 0x3000

is_empty_text : String → Bool
is_empty_text String.[] = true
is_empty_text (String.◌∷◌ c s) = false

trim_left : String → String
trim_left String.[] = String.[]
trim_left (String.◌∷◌ c s) = let rest = trim_left s in if is_space c then rest else String.◌∷◌ c s

trim_right : String → String
trim_right String.[] = String.[]
trim_right (String.◌∷◌ c s) =
    let rest = trim_right s in
    if is_space c && is_empty_text rest then String.[] else String.◌∷◌ c rest

-- strings.TrimSpace
unfoldable pub trim_space : String → String
unfolding is_space is_empty_text trim_left trim_right
trim_space s = trim_left (trim_right s)

-- A first character that is no space stays.
trim_left-cons :
    (c : Char) (s : String) → is_space c ≡ false → trim_left (String.◌∷◌ c s) ≡ String.◌∷◌ c s
unfolding trim_left
trim_left-cons c s h = rw h refl

trim_right-cons :
    (c : Char) (s : String)
    → is_space c ≡ false
    → trim_right (String.◌∷◌ c s) ≡ String.◌∷◌ c (trim_right s)
unfolding trim_right
trim_right-cons c s h = rw h refl

pub trim_space-cons :
    (c : Char) (s : String)
    → is_space c ≡ false
    → (t : String) × (trim_space (String.◌∷◌ c s) ≡ String.◌∷◌ c t)
unfolding trim_space
trim_space-cons c s h =
    (trim_right s, ap trim_left (trim_right-cons c s h) ∙ trim_left-cons c (trim_right s) h)

abbrev lower_letters : String
lower_letters = "abcdefghijklmnopqrstuvwxyz"

lower_char : Char → Char
lower_char c =
    if leb b'A' (code c) && leb (code c) b'Z' then char_at lower_letters (code c - b'A') else c

abbrev upper_letters : String
upper_letters = "ABCDEFGHIJKLMNOPQRSTUVWXYZ"

upper_char : Char → Char
upper_char c =
    if leb b'a' (code c) && leb (code c) b'z' then char_at upper_letters (code c - b'a') else c

-- strings.ToUpper
unfoldable pub to_upper : String → String
unfolding upper_char
to_upper String.[] = String.[]
to_upper (String.◌∷◌ c s) = String.◌∷◌ (upper_char c) (to_upper s)

-- strings.ToLower
unfoldable pub to_lower : String → String
unfolding lower_char
to_lower String.[] = String.[]
to_lower (String.◌∷◌ c s) = String.◌∷◌ (lower_char c) (to_lower s)

-- strings.EqualFold
unfoldable pub equal_fold : String → String → Bool
unfolding to_lower
equal_fold s t = to_lower s == to_lower t

-- strings.Contains
unfoldable pub contains : String → String → Bool
contains s t = is_some (find? s t)

-- strings.HasPrefix, strings.HasSuffix, strings.TrimPrefix, strings.TrimSuffix
unfoldable pub has_prefix : String → String → Bool
has_prefix s t = starts_with s t

unfoldable pub has_suffix : String → String → Bool
has_suffix s t = leb (len t) (len s) && slice s (len s - len t) (len s) == t

unfoldable pub trim_prefix : String → String → String
unfolding has_prefix
trim_prefix s t = if has_prefix s t then slice s (len t) (len s) else s

unfoldable pub trim_suffix : String → String → String
unfolding has_suffix
trim_suffix s t = if has_suffix s t then slice s 0 (len s - len t) else s

-- `strings.ReplaceAll` of one character by a text.
unfoldable pub replace_char : ℕ → String → String → String
replace_char from to String.[] = String.[]
replace_char from to (String.◌∷◌ c s) =
    let rest = replace_char from to s in
    if nat_eq (code c) from then text_append to rest else String.◌∷◌ c rest

-- The bytes of a character's UTF-8, and of a text's.
utf8_char : ℕ → List ℕ
utf8_char n =
    if ltb n 0x80
    then n ∷ []
    else if ltb n 0x800
    then (0xc0 + n / 64) ∷ (0x80 + n % 64) ∷ []
    else if ltb n 0x10000
    then (0xe0 + n / 4096) ∷ (0x80 + n / 64 % 64) ∷ (0x80 + n % 64) ∷ []
    else (0xf0 + n / 262144) ∷ (0x80 + n / 4096 % 64) ∷ (0x80 + n / 64 % 64) ∷ (0x80 + n % 64) ∷ []

unfoldable pub bytes : String → List ℕ
unfolding utf8_char
bytes String.[] = []
bytes (String.◌∷◌ c s) = utf8_char (code c) ++ bytes s

affixes : trim_suffix (trim_prefix "_svc.lan." "_") "." ≡ "svc.lan"
unfolding trim_suffix trim_prefix
affixes = refl

trims : trim_space "  a b\t" ≡ "a b"
unfolding trim_space
trims = refl

folds : equal_fold "NotReady" "nOTREADY" ≡ true
unfolding equal_fold
folds = refl

finds : contains "workload w1 not found" "not found" ≡ true
unfolding contains
finds = refl

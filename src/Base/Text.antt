-- ===== src/Base/Text.antt =====
-- Go's strings as lists of code points, and what the code uses of package strings and strconv on
-- them. A text is valid UTF-8; it is ASCII wherever a length or an index is taken.
pub mod Digits
pub mod Padding
pub mod Trimming
pub mod Integers
use Prim.Native.Char.{code}
use lineleader.Base.{
  ℕ, zero, suc, ◌+◌, ◌-◌, ◌*◌, ◌/◌, ◌%◌, ◌^◌, ◌==◌, Bool, true, false, ◌&&◌, ◌||◌, List, [], ◌∷◌,
  ◌++◌, Option, none, some, String, str_eq, leb, ltb, keep, if◌then◌else◌, not,
}
use lineleader.Base.Int.{ℤ, pos, negsuc, sub_ℕ}

abbrev pub Text : Type 0
Text = List ℕ

-- The code points of a literal.
abbrev pub codes : String → Text
codes String.[] = []
codes (String.◌∷◌ c s) = code c ∷ codes s

abbrev pub eqb_text : Text → Text → Bool
eqb_text [] [] = true
eqb_text [] (d ∷ t) = false
eqb_text (c ∷ s) [] = false
eqb_text (c ∷ s) (d ∷ t) = (c == d) && eqb_text s t

abbrev pub is_empty : Text → Bool
is_empty [] = true
is_empty (c ∷ s) = false

-- `unicode.IsSpace`
abbrev pub is_space : ℕ → Bool
is_space c =
    (leb 9 c && leb c 13)
    || (c == 32)
    || (c == 133)
    || (c == 160)
    || (c == 5760)
    || (leb 8192 c && leb c 8202)
    || (c == 8232)
    || (c == 8233)
    || (c == 8239)
    || (c == 8287)
    || (c == 12288)

-- The text without the code points of a kind at its start, and at its end.
unfoldable pub trim_left : (ℕ → Bool) → Text → Text
trim_left p [] = []
trim_left p (c ∷ s) = if p c then trim_left p s else c ∷ s

unfoldable pub trim_right : (ℕ → Bool) → Text → Text
trim_right p [] = []
trim_right p (c ∷ s) = let rest = trim_right p s in if is_empty rest && p c then [] else c ∷ rest

-- `strings.TrimSpace`
unfoldable pub trim_space : Text → Text
trim_space s = trim_right is_space (trim_left is_space s)

-- `strings.TrimSpace` of a string that stays one.
unfoldable pub trim_string_left : String → String
trim_string_left String.[] = String.[]
trim_string_left (String.◌∷◌ c s) = if is_space (code c) then trim_string_left s else String.◌∷◌ c s

unfoldable pub trim_string_right : String → String
trim_string_right String.[] = String.[]
trim_string_right (String.◌∷◌ c s) =
    let rest = trim_string_right s in
    if str_eq rest "" && is_space (code c) then "" else String.◌∷◌ c rest

unfoldable pub trim_string : String → String
trim_string s = trim_string_right (trim_string_left s)

-- `strings.HasPrefix(s, prefix)`
unfoldable pub has_prefix : Text → Text → Bool
has_prefix s [] = true
has_prefix [] (p ∷ prefix) = false
has_prefix (c ∷ s) (p ∷ prefix) = (c == p) && has_prefix s prefix

-- `s[n:]`
unfoldable pub drop : ℕ → Text → Text
drop zero s = s
drop (suc n) [] = []
drop (suc n) (c ∷ s) = drop n s

-- `s[:n]`
unfoldable pub take : ℕ → Text → Text
take zero s = []
take (suc n) [] = []
take (suc n) (c ∷ s) = c ∷ take n s

-- `strings.Cut(s, sep)` for a single code point: what is before it, and what is behind it.
unfoldable pub cut : ℕ → Text → Text × Option Text
cut b [] = ([], none)
cut b (c ∷ s) = let rest = cut b s in if c == b then ([], some s) else (c ∷ rest.0, rest.1)

-- `strings.ContainsRune(s, c)`
unfoldable pub contains_rune : Text → ℕ → Bool
contains_rune [] b = false
contains_rune (c ∷ s) b = (c == b) || contains_rune s b

-- `strings.ReplaceAll(s, c, "")` for a single code point.
abbrev pub without : ℕ → Text → Text
without b = keep λ c. not (c == b)

-- `strings.Repeat("0", n)`
unfoldable pub zeros : ℕ → Text
zeros zero = []
zeros (suc n) = 48 ∷ zeros n

-- The decimal digits of a number below 10 ^ fuel.
unfoldable pub digits : ℕ → ℕ → Text
digits zero n = []
digits (suc fuel) n = elim (ltb n 10) [
  | true ↦ (48 + n) ∷ []
  | false ↦ digits fuel (n / 10) ++ ((48 + n % 10) ∷ [])
]

-- `%d` of a number below 2 ^ 64, which has at most twenty digits.
unfoldable pub format_nat : ℕ → Text
format_nat n = digits 20 n

-- `strconv.FormatInt(z, 10)`
unfoldable pub format_int : ℤ → Text
format_int (pos n) = format_nat n
format_int (negsuc n) = 45 ∷ format_nat (suc n)

-- Reading digits behind the number `n`.
unfoldable pub scan : Text → ℕ → Option ℕ
scan [] n = some n
scan (c ∷ s) n =
    let rest = scan s (n * 10 + (c - 48)) in if leb 48 c && leb c 57 then rest else none

-- `strconv.ParseInt(s, 10, 64)` behind its sign.
unfoldable pub parse_magnitude : Bool → Text → Option ℤ
parse_magnitude neg [] = none
parse_magnitude neg (c ∷ s) = elim (scan (c ∷ s) 0) [
  | none ↦ none
  | some n ↦
      if neg
      then (if leb n (2 ^ 63) then some (sub_ℕ 0 n) else none)
      else (if ltb n (2 ^ 63) then some (pos n) else none)
]

-- `strconv.ParseInt(s, 10, 64)`
unfoldable pub parse_int : Text → Option ℤ
parse_int [] = none
parse_int (c ∷ s) =
    if c == 45
    then parse_magnitude true s
    else if c == 43
    then parse_magnitude false s
    else parse_magnitude false (c ∷ s)

-- ===== src/Base/Pattern.antt =====
-- Package regexp as the code uses it: a pattern gives, from a place in a text, the places where a
-- match may end, the preferred one first, with what its groups hold. Offsets are in bytes.
pub mod Advancing
use Prim.Native.Char.{Char, code, len_utf8}
use lineleader.Base.{
  ℕ, zero, suc, ◌+◌, ◌==◌, Bool, true, false, ◌&&◌, ◌||◌, not, List, [], ◌∷◌, ◌++◌, Option, none,
  some, String, leb, ltb, map,
}

-- A place in a text: what stands before it, its offset, and what is left.
pub record Cursor : Type 0 where
  pub before : Option Char
  pub offset : ℕ
  pub rest : String

abbrev pub Pattern : Type 0 → Type 0
Pattern A = Cursor → List (A × Cursor)

abbrev pub pure : {A : Type 0} → A → Pattern A
pure a = λ c. (a, c) ∷ []

unfoldable pub then_each : {A B : Type 0} → List (A × Cursor) → (A → Pattern B) → List (B × Cursor)
then_each [] f = []
then_each ((a, c) ∷ ms) f = f a c ++ then_each ms f

infixl 5 ◌>>=◌ ◌>>◌
abbrev pub ◌>>=◌ : {A B : Type 0} → Pattern A → (A → Pattern B) → Pattern B
◌>>=◌ p f = λ c. then_each (p c) f

abbrev pub ◌>>◌ : {A B : Type 0} → Pattern A → Pattern B → Pattern B
p >> q = p >>= λ _. q

-- `p|q`
abbrev pub or_else : {A : Type 0} → Pattern A → Pattern A → Pattern A
or_else p q = λ c. p c ++ q c

-- The place behind the next character.
abbrev pub behind : Cursor → Char → String → Cursor
behind k c s = record { before = some c; offset = k.offset + len_utf8 c; rest = s }

-- A character of a class.
unfoldable pub one_at : (ℕ → Bool) → Cursor → String → List (String × Cursor)
one_at p k String.[] = []
one_at p k (String.◌∷◌ c s) = elim (p (code c)) [
  | true ↦ (String.◌∷◌ c String.[], behind k c s) ∷ []
  | false ↦ []
]

abbrev pub one : (ℕ → Bool) → Pattern String
one p = λ k. one_at p k k.rest

abbrev pub prefixed : Char → List (String × Cursor) → List (String × Cursor)
prefixed c [] = []
prefixed c ((t, k) ∷ ms) = (String.◌∷◌ c t, k) ∷ prefixed c ms

-- As many characters of a class as there are, or fewer: `[...]*`.
unfoldable pub many_at : (ℕ → Bool) → Cursor → String → List (String × Cursor)
many_at p k String.[] = (String.[], k) ∷ []
many_at p k (String.◌∷◌ c s) = elim (p (code c)) [
  | true ↦ prefixed c (many_at p (behind k c s) s) ++ ((String.[], k) ∷ [])
  | false ↦ (String.[], k) ∷ []
]

abbrev pub many : (ℕ → Bool) → Pattern String
many p = λ k. many_at p k k.rest

unfoldable pub append : String → String → String
append String.[] t = t
append (String.◌∷◌ c s) t = String.◌∷◌ c (append s t)

-- `[...]+`
unfoldable pub some_of : (ℕ → Bool) → Pattern String
some_of p = do a ← one p; b ← many p; pure (append a b)

-- Between one and `n + 1` characters of a class: `[...]{1,n+1}`.
unfoldable pub at_most : ℕ → (ℕ → Bool) → Pattern String
at_most zero p = one p
at_most (suc n) p = or_else (do a ← one p; b ← at_most n p; pure (append a b)) (one p)

-- A text of characters that are alike.
unfoldable pub literal_by : (ℕ → ℕ → Bool) → String → Pattern String
literal_by same String.[] = pure String.[]
literal_by same (String.◌∷◌ d t) = do
  a ← one (same (code d))
  b ← literal_by same t
  pure (append a b)

abbrev pub literal : String → Pattern String
literal = literal_by λ d c. d == c

-- `\d`, `\s`, `\w` and `[A-Z]`
abbrev pub is_digit : ℕ → Bool
is_digit c = leb 48 c && leb c 57

abbrev pub is_blank : ℕ → Bool
is_blank c = (c == 9) || (c == 10) || (c == 12) || (c == 13) || (c == 32)

abbrev pub is_solid : ℕ → Bool
is_solid c = not (is_blank c)

abbrev pub is_upper : ℕ → Bool
is_upper c = leb 65 c && leb c 90

abbrev pub is_word : ℕ → Bool
is_word c = is_digit c || is_upper c || (leb 97 c && leb c 122) || (c == 95)

abbrev pub word_before : Option Char → Bool
word_before none = false
word_before (some c) = is_word (code c)

abbrev pub word_next : String → Bool
word_next String.[] = false
word_next (String.◌∷◌ c s) = is_word (code c)

abbrev pub differ : Bool → Bool → Bool
differ true b = not b
differ false b = b

-- `\b`
unfoldable pub boundary : Pattern String
boundary k = elim (differ (word_before k.before) (word_next k.rest)) [
  | true ↦ (String.[], k) ∷ []
  | false ↦ []
]

-- `^`
unfoldable pub at_start : Pattern String
at_start k = elim k.offset [ zero ↦ (String.[], k) ∷ [] | suc n ↦ [] ]

-- `$`
unfoldable pub at_end : Pattern String
at_end k = elim k.rest [ String.[] ↦ (String.[], k) ∷ [] | String.◌∷◌ c s ↦ [] ]

-- A match: what its groups hold, and the offsets of its start and its end.
pub record Match (A : Type 0) : Type 0 where
  pub value : A
  pub start : ℕ
  pub end : ℕ

-- The matches behind each other from a place on, none of them before the offset `from`. A pattern
-- of the code takes a character at least.
unfoldable pub find_from : {A : Type 0} → Pattern A → ℕ → Cursor → String → List (Match A)
find_from p from k String.[] = []
find_from p from k (String.◌∷◌ c s) = elim (ltb k.offset from) [
  | true ↦ find_from p from (behind k c s) s
  | false ↦ elim (p (record k { rest = String.◌∷◌ c s })) [
    | [] ↦ find_from p from (behind k c s) s
    | (a, e) ∷ ms ↦
        record { value = a; start = k.offset; end = e.offset }
        ∷ find_from p e.offset (behind k c s) s
  ]
]

-- `FindAllStringSubmatchIndex(s, -1)` of a text that starts at an offset of its line.
unfoldable pub find_all_at : {A : Type 0} → Pattern A → ℕ → String → List (Match A)
find_all_at p offset s = find_from p offset (record { before = none; offset = offset; rest = s }) s

abbrev pub find_all : {A : Type 0} → Pattern A → String → List (Match A)
find_all p s = find_all_at p 0 s

abbrev pub first {ℓ} : {A : Type ℓ} → List A → Option A
first [] = none
first (x ∷ xs) = some x

-- The groups of the first match.
abbrev pub find : {A : Type 0} → Pattern A → String → Option A
find p s = first (map (λ (m : Match _). m.value) (find_all p s))

-- ===== src/Ledger/Months.antt =====
-- internal/ledger/parse.go: the month of a contract's use year, as it is typed.
use lineleader.Base.{
  ℕ, ◌+◌, ◌==◌, Bool, true, false, ◌&&◌, ◌||◌, List, [], ◌∷◌, Option, none, some, String, leb,
  if◌then◌else◌,
}
use lineleader.Base.Int.{pos, pos_part, leb_ℤ}
use lineleader.Base.Text.{Text, codes, parse_int, take, trim_space}

-- The least code point of a simple case fold, for the folds of ASCII letters: they also hold the
-- long s and the Kelvin sign.
unfoldable pub fold : ℕ → ℕ
fold c =
    if leb 65 c && leb c 90 then c + 32 else if c == 383 then 115 else if c == 8490 then 107 else c

-- `strings.EqualFold(s, t)` for a `t` of ASCII letters.
unfoldable pub equal_fold : Text → Text → Bool
equal_fold [] [] = true
equal_fold [] (d ∷ t) = false
equal_fold (c ∷ s) [] = false
equal_fold (c ∷ s) (d ∷ t) = (fold c == fold d) && equal_fold s t

-- The `String` of each month, January first.
abbrev pub month_names : List String
month_names =
    "January" ∷ "February" ∷ "March" ∷ "April" ∷ "May" ∷ "June" ∷ "July" ∷ "August" ∷ "September"
    ∷ "October" ∷ "November" ∷ "December" ∷ []

-- The loop of `ParseMonth` over the months from `m` on.
unfoldable pub find_month : Text → ℕ → List String → Option ℕ
find_month s m [] = none
find_month s m (name ∷ names) =
    let rest = find_month s (m + 1) names in
    if equal_fold s (codes name) || equal_fold s (take 3 (codes name)) then some m else rest

-- The number of a month.
unfoldable pub month_number : Text → Option ℕ
month_number s = elim (parse_int s) [
  | none ↦ none
  | some n ↦ if leb_ℤ (pos 1) n && leb_ℤ n (pos 12) then some (pos_part n) else none
]

-- `ParseMonth`
unfoldable pub parse_month : Text → Option ℕ
parse_month s =
    let t = trim_space s in
    elim (find_month t 1 month_names) [ some m ↦ some m | none ↦ month_number t ]

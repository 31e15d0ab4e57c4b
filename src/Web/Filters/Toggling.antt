-- ===== src/Web/Filters/Toggling.antt =====
-- internal/web/global_filters.go: what a toggle changes.
use lineleader.Base.{
  ℕ, ◌+◌, ◌-◌, ◌≡◌, refl, sym, ap, ◌∙◌, ◌≤◌, inl, inr, Bool, true, false, List, [], ◌∷◌, ◌++◌,
  String, arith, str_eq, eq_iff, Bool-cases, if◌then◌else◌,
}
use lineleader.Dvc.Search.{contains_string}
use lineleader.Web.Filters.{delete_first, toggle_string}

-- How often a string stands in a list.
abbrev pub count_string : String → List String → ℕ
count_string w [] = 0
count_string w (x ∷ xs) = (if str_eq x w then 1 else 0) + count_string w xs

count-append :
    (w v : String) (s : List String)
    → count_string w (s ++ v ∷ []) ≡ count_string w s + (if str_eq v w then 1 else 0)
count-append w v [] = omega arith
count-append w v (x ∷ xs) = rw (count-append w v xs) (omega arith)

count-delete_first :
    (w v : String) (s : List String)
    → contains_string s v ≡ true
    → count_string w (delete_first s v) + (if str_eq v w then 1 else 0) ≡ count_string w s
unfolding delete_first
count-delete_first w v [] h = ground arith
count-delete_first w v (x ∷ xs) h = elim (Bool-cases (str_eq x v)) [
  | inl e ↦ rw e (
      ap (λ n. count_string w xs + n)
        (ap (λ y. if str_eq y w then 1 else 0) (sym (eq_of_str x v e)))
      ∙ add_comm _ _)
  | inr e ↦ rw e (
      plus_assoc _ _ _
      ∙ ap (λ n. (if str_eq x w then 1 else 0) + n) (count-delete_first w v xs (rw e at h)))
]
  where
    eq_of_str : (a b : String) → str_eq a b ≡ true → a ≡ b
    eq_of_str a b e = (eq_iff a b).0 e

    add_comm : (a b : ℕ) → a + b ≡ b + a
    add_comm a b = omega arith

    plus_assoc : (a b c : ℕ) → (a + b) + c ≡ a + (b + c)
    plus_assoc a b c = omega arith

member-count : (v : String) (s : List String) → contains_string s v ≡ true → 1 ≤ count_string v s
member-count v [] h = ground arith
member-count v (x ∷ xs) h = elim (Bool-cases (str_eq x v)) [
  | inl e ↦ rw e (omega arith)
  | inr e ↦ rw e (omega (arith, member-count v xs (rw e at h)))
]

-- A toggle of `v` removes one `v` if the list has any and adds one else, and keeps the number of
-- every other string.
pub toggle_string_lem :
    (s : List String) (v w : String)
    → count_string w (toggle_string s v) ≡ (
        if str_eq v w
        then (if contains_string s v then count_string w s - 1 else count_string w s + 1)
        else count_string w s)
unfolding toggle_string
toggle_string_lem s v w = elim (Bool-cases (contains_string s v)) [
  | inl h ↦ rw h (removed (str_eq v w) _ _ (count-delete_first w v s h))
  | inr h ↦ rw h (count-append w v s ∙ added (str_eq v w) _)
]
  where
    removed : (b : Bool) (n m : ℕ) → n + (if b then 1 else 0) ≡ m → n ≡ (if b then m - 1 else m)
    removed true n m e = omega arith
    removed false n m e = omega arith

    added : (b : Bool) (n : ℕ) → n + (if b then 1 else 0) ≡ (if b then n + 1 else n)
    added true n = refl
    added false n = omega arith

-- ===== src/Dvc/Filters/Options/Distinct.antt =====
-- Lists that are built of elements with different keys.
use mathlib.Core.Path.{subst}
use lineleader.Base.{
  Bool, true, false, ◌||◌, List, [], ◌∷◌, ◌++◌, ◌≡◌, refl, sym, ◌∙◌, ap, String, str_eq, eq_iff,
  foldl, any, sum_of, sum_of-append, arith, Bool-cases, inl, inr, if◌then◌else◌,
}
use lineleader.Base.Int.{ℤ, pos, int_laws}
use lineleader.Dvc.Filters.Options.{add_new, distinct}

-- How often a string is in a list.
abbrev pub occurs : String → String → ℤ
occurs k s = if str_eq s k then pos 1 else pos 0

abbrev pub one_if : Bool → ℤ
one_if b = if b then pos 1 else pos 0

or_false : (b : Bool) → (b || false) ≡ b
or_false true = refl
or_false false = refl

or_assoc : (a b c : Bool) → ((a || b) || c) ≡ (a || (b || c))
or_assoc true b c = refl
or_assoc false b c = refl

module _ {A : Type 0} (key : A → String) (k : String) where
  abbrev pub has_key : List A → Bool
  has_key xs = any (λ y. str_eq (key y) k) xs

  abbrev pub times : List A → ℤ
  times xs = sum_of (λ y. occurs k (key y)) xs

  has_key-append :
      (xs : List A) (x : A) → has_key (xs ++ (x ∷ [])) ≡ (has_key xs || str_eq (key x) k)
  has_key-append [] x = ground arith
  has_key-append (y ∷ xs) x = ground (arith, has_key-append xs x)

  pub key_there :
      (x : A) (xs : List A) (b : Bool)
      → str_eq (key x) k ≡ true
      → any (λ y. str_eq (key y) (key x)) xs ≡ b
      → has_key xs ≡ b
  key_there x xs b e h = subst (λ w. any (λ y. str_eq (key y) w) xs ≡ b) ((eq_iff (key x) k).0 e) h

  add_new-has_key :
      (xs : List A) (x : A) → has_key (add_new key xs x) ≡ (has_key xs || str_eq (key x) k)
  unfolding add_new
  add_new-has_key xs x = elim (Bool-cases (any (λ y. str_eq (key y) (key x)) xs)) [
    | inl h ↦ rw h (elim (Bool-cases (str_eq (key x) k)) [
      | inl e ↦ rw (key_there x xs true e h) refl
      | inr e ↦ rw e (sym (or_false (has_key xs)))
    ])
    | inr h ↦ rw h (has_key-append xs x)
  ]

  -- A key is in a list without duplicates once, or not at all.
  add_new-times :
      (xs : List A) (x : A)
      → times xs ≡ one_if (has_key xs)
      → times (add_new key xs x) ≡ one_if (has_key (add_new key xs x))
  unfolding add_new
  add_new-times xs x t = elim (Bool-cases (any (λ y. str_eq (key y) (key x)) xs)) [
    | inl h ↦ rw h t
    | inr h ↦
        rw (h, has_key-append xs x, sum_of-append (λ y. occurs k (key y)) xs (x ∷ []), t)
          (elim (Bool-cases (str_eq (key x) k)) [
            | inl e ↦ rw (e, key_there x xs false e h) (omega int_laws)
            | inr e ↦ rw (e, or_false (has_key xs)) (omega int_laws)
          ])
  ]

  foldl-has_key :
      (acc xs : List A) → has_key (foldl (add_new key) acc xs) ≡ (has_key acc || has_key xs)
  foldl-has_key acc [] = sym (or_false (has_key acc))
  foldl-has_key acc (x ∷ xs) =
      foldl-has_key (add_new key acc x) xs
      ∙ ap (λ (b : Bool). b || has_key xs) (add_new-has_key acc x)
      ∙ or_assoc (has_key acc) (str_eq (key x) k) (has_key xs)

  foldl-times :
      (acc xs : List A)
      → times acc ≡ one_if (has_key acc)
      → times (foldl (add_new key) acc xs) ≡ one_if (has_key (foldl (add_new key) acc xs))
  foldl-times acc [] t = t
  foldl-times acc (x ∷ xs) t = foldl-times (add_new key acc x) xs (add_new-times acc x t)

  pub times-distinct : (xs : List A) → times (distinct key xs) ≡ one_if (has_key xs)
  unfolding distinct
  times-distinct xs = foldl-times [] xs refl ∙ ap one_if (foldl-has_key [] xs)

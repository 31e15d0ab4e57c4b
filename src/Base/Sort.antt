-- ===== src/Base/Sort.antt =====
-- `sort.Slice` by insertion. Go's sort is not stable; where it is used below either the order is
-- strict on the elements or the theorems do not speak of the order of ties.
use mathlib.Core.Path.{◌≡◌, refl, ap, ◌∙◌}
use mathlib.Core.Bool.{Bool, true, false}
use mathlib.Core.List.{List, [], ◌∷◌, Perm}
use mathlib.Core.List.Perm
use lineleader.Base.Tests.{if◌then◌else◌, Bool-cases}
use lineleader.Base.Int.{ℤ, ◌+ℤ◌, int_laws}
use lineleader.Base.Lists.{All, sum_of}
use mathlib.Core.Logic.{inl, inr}

module _ {ℓ} {A : Type ℓ} (less : A → A → Bool) where
  unfoldable pub insert_sorted : A → List A → List A
  insert_sorted x [] = x ∷ []
  insert_sorted x (y ∷ ys) = if less y x then y ∷ insert_sorted x ys else x ∷ y ∷ ys

  unfoldable pub sort_slice : List A → List A
  unfolding insert_sorted
  sort_slice [] = []
  sort_slice (x ∷ xs) = insert_sorted x (sort_slice xs)

  -- Neighbours are never out of order.
  abbrev pub IsSorted : List A → Type 0
  IsSorted [] = Unit
  IsSorted (x ∷ []) = Unit
  IsSorted (x ∷ y ∷ ys) = (less y x ≡ false) × IsSorted (y ∷ ys)

  insert_sorted-perm : (x : A) (xs : List A) → Perm (insert_sorted x xs) (x ∷ xs)
  unfolding insert_sorted
  insert_sorted-perm x [] = Perm.refl _
  insert_sorted-perm x (y ∷ ys) = elim (Bool-cases (less y x)) [
    | inl h ↦ rw h (Perm.trans (Perm.cons y (insert_sorted-perm x ys)) (Perm.swap x y ys))
    | inr h ↦ rw h (Perm.refl _)
  ]

  pub sort_slice-perm : (xs : List A) → Perm (sort_slice xs) xs
  unfolding sort_slice
  sort_slice-perm [] = Perm.refl _
  sort_slice-perm (x ∷ xs) =
      Perm.trans (insert_sorted-perm x (sort_slice xs)) (Perm.cons x (sort_slice-perm xs))

  module _ {κ} (P : A → Type κ) where
    pub All-insert_sorted : (x : A) (xs : List A) → P x → All P xs → All P (insert_sorted x xs)
    unfolding insert_sorted
    All-insert_sorted x [] p a = (p, tt)
    All-insert_sorted x (y ∷ ys) p a = elim (Bool-cases (less y x)) [
      | inl h ↦ rw h (a.0, All-insert_sorted x ys p a.1)
      | inr h ↦ rw h (p, a)
    ]

    pub All-sort_slice : (xs : List A) → All P xs → All P (sort_slice xs)
    unfolding sort_slice
    All-sort_slice [] a = tt
    All-sort_slice (x ∷ xs) a = All-insert_sorted x (sort_slice xs) a.0 (All-sort_slice xs a.1)

  sum_of-insert_sorted :
      (f : A → ℤ) (x : A) (xs : List A) → sum_of f (insert_sorted x xs) ≡ f x +ℤ sum_of f xs
  unfolding insert_sorted
  sum_of-insert_sorted f x [] = refl
  sum_of-insert_sorted f x (y ∷ ys) = elim (Bool-cases (less y x)) [
    | inl h ↦ rw (h, sum_of-insert_sorted f x ys) (omega int_laws)
    | inr h ↦ rw h refl
  ]

  pub sum_of-sort_slice : (f : A → ℤ) (xs : List A) → sum_of f (sort_slice xs) ≡ sum_of f xs
  unfolding sort_slice
  sum_of-sort_slice f [] = refl
  sum_of-sort_slice f (x ∷ xs) =
      sum_of-insert_sorted f x (sort_slice xs) ∙ ap (◌+ℤ◌ (f x)) (sum_of-sort_slice f xs)

  module _ (asym : (x y : A) → less x y ≡ true → less y x ≡ false) where
    insert_sorted-IsSorted : (x : A) (xs : List A) → IsSorted xs → IsSorted (insert_sorted x xs)
    unfolding insert_sorted
    insert_sorted-IsSorted x [] s = tt
    insert_sorted-IsSorted x (y ∷ []) s = elim (Bool-cases (less y x)) [
      | inl h ↦ rw h (asym y x h, tt)
      | inr h ↦ rw h (h, tt)
    ]
    insert_sorted-IsSorted x (y ∷ z ∷ zs) s = elim (Bool-cases (less y x)) [
      | inl h ↦ rw h (elim (Bool-cases (less z x)) [
        | inl k ↦ let rest = insert_sorted-IsSorted x (z ∷ zs) s.1 in rw k (s.0, rw k at rest)
        | inr k ↦ rw k (asym y x h, (k, s.1))
      ])
      | inr h ↦ rw h (h, s)
    ]

    pub sort_slice-IsSorted : (xs : List A) → IsSorted (sort_slice xs)
    unfolding sort_slice
    sort_slice-IsSorted [] = tt
    sort_slice-IsSorted (x ∷ xs) = insert_sorted-IsSorted x (sort_slice xs) (sort_slice-IsSorted xs)

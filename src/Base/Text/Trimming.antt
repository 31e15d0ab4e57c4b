-- ===== src/Base/Text/Trimming.antt =====
-- What trimming, cutting and removing leave of a text made of known code points.
use lineleader.Base.{
  ℕ, zero, suc, ◌-◌, ◌==◌, ◌≡◌, refl, sym, ◌∙◌, ap, Bool, true, false, ◌&&◌, ◌||◌, [], ◌∷◌, ◌++◌,
  none, some, inl, inr, Bool-cases, arith, All, length,
}
use lineleader.Base.Text.{
  Text, cut, contains_rune, drop, is_empty, is_space, take, trim_left, trim_right, trim_space,
  without, zeros,
}

-- No code point of the text is of the kind.
abbrev pub Free : (ℕ → Bool) → Text → Type 0
Free p = All λ c. p c ≡ false

pub Free-trim_left : (p : ℕ → Bool) (s : Text) → Free p s → trim_left p s ≡ s
unfolding trim_left
Free-trim_left p [] h = refl
Free-trim_left p (c ∷ s) h = rw (h.0) refl

and_false : (b : Bool) → (b && false) ≡ false
and_false true = refl
and_false false = refl

pub trim_right_keep :
    (p : ℕ → Bool) (c : ℕ) (s : Text) → p c ≡ false → trim_right p (c ∷ s) ≡ c ∷ trim_right p s
unfolding trim_right
trim_right_keep p c s h = rw (h, and_false (is_empty (trim_right p s))) refl

pub Free-trim_right : (p : ℕ → Bool) (s : Text) → Free p s → trim_right p s ≡ s
unfolding trim_right
Free-trim_right p [] h = refl
Free-trim_right p (c ∷ s) h = trim_right_keep p c s h.0 ∙ ap (λ t. c ∷ t) (Free-trim_right p s h.1)

pub trim_space_lem : (s : Text) → Free is_space s → trim_space s ≡ s
unfolding trim_space
trim_space_lem s h = rw (Free-trim_left is_space s h) (Free-trim_right is_space s h)

-- Trimming at the end looks no further than a part that something is left of.
pub trim_right-append :
    (p : ℕ → Bool) (s : Text) (c : ℕ) (t u : Text)
    → trim_right p t ≡ c ∷ u
    → trim_right p (s ++ t) ≡ s ++ (c ∷ u)
unfolding trim_right
trim_right-append p [] c t u h = h
trim_right-append p (d ∷ s) c t u h = rw (trim_right-append p s c t u h, nonempty s) refl
  where
    nonempty : (s : Text) → is_empty (s ++ (c ∷ u)) ≡ false
    nonempty [] = refl
    nonempty (d ∷ s) = refl

pub trim_right-append_nil :
    (p : ℕ → Bool) (s t : Text) → trim_right p t ≡ [] → Free p s → trim_right p (s ++ t) ≡ s
unfolding trim_right
trim_right-append_nil p [] t h f = h
trim_right-append_nil p (c ∷ s) t h f =
    rw (trim_right-append_nil p s t h f.1, f.0, and_false (is_empty s)) refl

-- Putting the zeros back that the cut text lacks.
restore : Text → Text → Text
restore s t = t ++ zeros (length s - length t)

both : (a b : Bool) → (a && b) ≡ true → (a ≡ true) × (b ≡ true)
both true b h = (refl, h)
both false b h = absurd (cc)

is_zero_digit : (c : ℕ) → (c == 48) ≡ true → c ≡ 48
is_zero_digit c h = ground arith

nothing_left : (t : Text) → is_empty t ≡ true → t ≡ []
nothing_left [] h = refl
nothing_left (c ∷ t) h = absurd (cc)

restore_zero : (c : ℕ) (s : Text) → c ≡ 48 → restore s [] ≡ s → restore (c ∷ s) [] ≡ c ∷ s
unfolding restore zeros
restore_zero c s e h = rw (e) (
    ap zeros (minus_zero (suc (length s)))
    ∙ ap (λ t. 48 ∷ t) (ap zeros (sym (minus_zero (length s))) ∙ h))
  where
    minus_zero : (n : ℕ) → n - 0 ≡ n
    minus_zero n = omega arith

restore_cons : (c : ℕ) (s t : Text) → restore s t ≡ s → restore (c ∷ s) (c ∷ t) ≡ c ∷ s
unfolding restore
restore_cons c s t h =
    ap (λ u. c ∷ u) (ap (λ n. t ++ zeros n) (minus_suc (length s) (length t)) ∙ h)
  where
    minus_suc : (m n : ℕ) → suc m - suc n ≡ m - n
    minus_suc m n = omega arith

restore_lem : (s : Text) → restore s (trim_right (λ c. c == 48) s) ≡ s
unfolding trim_right restore zeros
restore_lem [] = refl
restore_lem (c ∷ s) = elim (Bool-cases (is_empty (trim_right (λ c. c == 48) s) && (c == 48))) [
  | inl e ↦
      let (gone, zero_digit) = both (is_empty (trim_right (λ c. c == 48) s)) (c == 48) e in
      rw e (
        restore_zero c s (is_zero_digit c zero_digit)
          (ap (restore s) (sym (nothing_left (trim_right (λ c. c == 48) s) gone)) ∙ restore_lem s))
  | inr e ↦ rw e (restore_cons c s (trim_right (λ c. c == 48) s) (restore_lem s))
]

-- What is cut off at the end are zeros.
pub trim_right-zeros :
    (s : Text)
    → trim_right (λ c. c == 48) s ++ zeros (length s - length (trim_right (λ c. c == 48) s)) ≡ s
unfolding restore
trim_right-zeros s = restore_lem s

pub Free-cut : (b : ℕ) (s t : Text) → Free (λ c. c == b) s → cut b (s ++ (b ∷ t)) ≡ (s, some t)
unfolding cut
Free-cut b [] t h = rw (self b) refl
  where
    self : (b : ℕ) → (b == b) ≡ true
    self b = ground arith
Free-cut b (c ∷ s) t h = rw (Free-cut b s t h.1, h.0) refl

pub Free-cut-none : (b : ℕ) (s : Text) → Free (λ c. c == b) s → cut b s ≡ (s, none)
unfolding cut
Free-cut-none b [] h = refl
Free-cut-none b (c ∷ s) h = rw (Free-cut-none b s h.1, h.0) refl

pub Free-without : (b : ℕ) (s : Text) → Free (λ c. c == b) s → without b s ≡ s
Free-without b [] h = refl
Free-without b (c ∷ s) h = rw (Free-without b s h.1, h.0) refl

pub without-append : (b : ℕ) (s t : Text) → without b (s ++ t) ≡ without b s ++ without b t
without-append b [] t = refl
without-append b (c ∷ s) t =
    rw (without-append b s t) (elim (Bool-cases (c == b)) [ inl e ↦ rw e refl | inr e ↦ rw e refl ])

pub take-drop : (n : ℕ) (s : Text) → take n s ++ drop n s ≡ s
unfolding take drop
take-drop zero s = refl
take-drop (suc n) [] = refl
take-drop (suc n) (c ∷ s) = ap (λ t. c ∷ t) (take-drop n s)

pub contains_rune-append : (s t : Text) (b : ℕ) → contains_rune (s ++ (b ∷ t)) b ≡ true
unfolding contains_rune
contains_rune-append [] t b = rw (self b) refl
  where
    self : (b : ℕ) → (b == b) ≡ true
    self b = ground arith
contains_rune-append (c ∷ s) t b = rw (contains_rune-append s t b) (or_true (c == b))
  where
    or_true : (x : Bool) → (x || true) ≡ true
    or_true true = refl
    or_true false = refl

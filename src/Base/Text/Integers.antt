-- ===== src/Base/Text/Integers.antt =====
-- Integers are read back from their decimal text.
use mathlib.Core.List.{append-nil}
use lineleader.Base.{
  ℕ, suc, ◌^◌, ◌==◌, ◌<◌, ◌≡◌, ◌≢◌, refl, sym, ◌∙◌, ap, true, false, ◌&&◌, [], ◌∷◌, ◌++◌, some, All,
  All-map, arith, Bool-cases, inl, inr,
}
use lineleader.Base.Int.{ℤ, pos, negsuc, magnitude, sub_ℕ}
use lineleader.Base.Text.{Text, eqb_text, format_int, format_nat, parse_int, parse_magnitude, scan}
use lineleader.Base.Text.Digits.{IsDigit, digits-IsDigit, digits-nonempty, scan-digits}
use lineleader.Base.Text.Trimming.{Free}

pub IsDigit-Free : (b : ℕ) (s : Text) → (b < 48) → All IsDigit s → Free (λ c. c == b) s
IsDigit-Free b s h = All-map IsDigit (λ c. (c == b) ≡ false) (λ c d. ground arith) s

pub scan_magnitude :
    (s : Text) (n : ℕ)
    → s ≢ []
    → scan s 0 ≡ some n
    → n < 2 ^ 63
    → parse_magnitude false s ≡ some (pos n)
unfolding parse_magnitude
scan_magnitude [] n h e l = absurd (h refl)
scan_magnitude (c ∷ s) n h e l = ground arith

-- Digits behind no sign are read as their value.
pub read_digits :
    (s : Text) (n : ℕ)
    → s ≢ []
    → All IsDigit s
    → scan s 0 ≡ some n
    → n < 2 ^ 63
    → parse_int s ≡ some (pos n)
unfolding parse_int
read_digits [] n h d e l = absurd (h refl)
read_digits (c ∷ s) n h d e l =
    rw (not_minus c d.0, not_plus c d.0) (scan_magnitude (c ∷ s) n h e l)
  where
    not_minus : (c : ℕ) → IsDigit c → (c == 45) ≡ false
    not_minus c d = ground arith

    not_plus : (c : ℕ) → IsDigit c → (c == 43) ≡ false
    not_plus c d = ground arith

pub format_nat-IsDigit : (n : ℕ) → All IsDigit (format_nat n)
unfolding format_nat
format_nat-IsDigit n = digits-IsDigit 20 n

pub scan-format_nat : (n : ℕ) (s : Text) → n < 2 ^ 63 → scan (format_nat n ++ s) 0 ≡ scan s n
unfolding format_nat
scan-format_nat n s l = scan-digits 19 n s (omega arith)

pub format_nat-nonempty : (n : ℕ) (s : Text) → format_nat n ++ s ≢ []
unfolding format_nat
format_nat-nonempty n s = digits-nonempty 19 n s

pub scan_nil : (n : ℕ) → scan [] n ≡ some n
unfolding scan
scan_nil n = refl

read_magnitude :
    (s : Text) (n : ℕ)
    → s ≢ []
    → scan s 0 ≡ some n
    → n < 2 ^ 63
    → parse_magnitude true s ≡ some (sub_ℕ 0 n)
unfolding parse_magnitude
read_magnitude [] n h e l = absurd (h refl)
read_magnitude (c ∷ s) n h e l = ground arith

scan-format_nat_alone : (n : ℕ) → n < 2 ^ 63 → scan (format_nat n) 0 ≡ some n
scan-format_nat_alone n l =
    ap (λ t. scan t 0) (sym (append-nil (format_nat n))) ∙ scan-format_nat n [] l ∙ scan_nil n

format_nat-not_empty : (n : ℕ) → format_nat n ≢ []
format_nat-not_empty n h = format_nat-nonempty n [] (append-nil (format_nat n) ∙ h)

-- `strconv.ParseInt(strconv.FormatInt(z, 10), 10, 64)` is `z`.
pub parse_int-format_int : (z : ℤ) → magnitude z < 2 ^ 63 → parse_int (format_int z) ≡ some z
unfolding format_int parse_int
parse_int-format_int (pos n) l =
    read_digits (format_nat n) n (format_nat-not_empty n) (format_nat-IsDigit n)
      (scan-format_nat_alone n (omega (arith, l))) (omega (arith, l))
parse_int-format_int (negsuc n) l =
    read_magnitude (format_nat (suc n)) (suc n) (format_nat-not_empty (suc n))
      (scan-format_nat_alone (suc n) (omega (arith, l))) (omega (arith, l))
    ∙ ap some (minus n)
  where
    minus : (n : ℕ) → sub_ℕ 0 (suc n) ≡ negsuc n
    minus n = ground arith

pub format_int-no_dot : (z : ℤ) → Free (λ c. c == 46) (format_int z)
unfolding format_int
format_int-no_dot (pos n) = IsDigit-Free 46 (format_nat n) (omega arith) (format_nat-IsDigit n)
format_int-no_dot (negsuc n) =
    (refl, IsDigit-Free 46 (format_nat (suc n)) (omega arith) (format_nat-IsDigit (suc n)))

pub eqb_text_refl : (s : Text) → eqb_text s s ≡ true
eqb_text_refl [] = refl
eqb_text_refl (c ∷ s) = rw (self c) (eqb_text_refl s)
  where
    self : (c : ℕ) → (c == c) ≡ true
    self c = ground arith

-- Texts that test equal are equal.
pub eqb_text_sound : (s t : Text) → eqb_text s t ≡ true → s ≡ t
eqb_text_sound [] [] h = refl
eqb_text_sound [] (d ∷ t) h = absurd (cc)
eqb_text_sound (c ∷ s) [] h = absurd (cc)
eqb_text_sound (c ∷ s) (d ∷ t) h = elim (Bool-cases (c == d)) [
  | inl e ↦ ap2 (same c d e) (eqb_text_sound s t (rw e at h))
  | inr e ↦ absurd (true_false (sym h ∙ ap (λ b. b && eqb_text s t) e))
]
  where
    same : (c d : ℕ) → (c == d) ≡ true → c ≡ d
    same c d h = ground arith

    ap2 : {c d : ℕ} {s t : Text} → c ≡ d → s ≡ t → (c ∷ s) ≡ (d ∷ t)
    ap2 p q i = p i ∷ q i

    true_false : true ≡ false → ⊥
    true_false h = cc

-- ===== src/Base/Text/Padding.antt =====
-- A number padded with zeros to a width has that many digits, and is read behind any other.
use mathlib.Core.List.{append_assoc}
use native.Mathlib.Nat.{mul_assoc}
use lineleader.Base.{
  ℕ, zero, suc, ◌+◌, ◌-◌, ◌*◌, ◌/◌, ◌%◌, ◌^◌, ◌<◌, ◌≤◌, ◌≡◌, refl, sym, ap, [], ◌∷◌, ◌++◌, ltb, inl,
  inr, Bool-cases, arith, All, length, length-append, All-append,
}
use lineleader.Base.Text.{Text, digits, scan, zeros}
use lineleader.Base.Text.Digits.{IsDigit, digits_small, digits_large, scan_digit, join_ten}

-- The last digits of a number, as many as the width.
unfoldable pub fixed : ℕ → ℕ → Text
fixed zero n = []
fixed (suc width) n = fixed width (n / 10) ++ ((48 + n % 10) ∷ [])

fixed_step : (width n : ℕ) → fixed width (n / 10) ++ ((48 + n % 10) ∷ []) ≡ fixed (suc width) n
unfolding fixed
fixed_step width n = refl

pub length-fixed : (width n : ℕ) → length (fixed width n) ≡ width
unfolding fixed
length-fixed zero n = refl
length-fixed (suc width) n =
    omega (
      arith,
      length-append (fixed width (n / 10)) ((48 + n % 10) ∷ []),
      length-fixed width (n / 10),
    )

pub fixed-IsDigit : (width n : ℕ) → All IsDigit (fixed width n)
unfolding fixed
fixed-IsDigit zero n = tt
fixed-IsDigit (suc width) n =
    All-append IsDigit (fixed width (n / 10)) ((48 + n % 10) ∷ []) (fixed-IsDigit width (n / 10))
      ((omega arith, omega arith), tt)

zeros_snoc : (n : ℕ) → zeros n ++ (48 ∷ []) ≡ zeros (suc n)
unfolding zeros
zeros_snoc zero = refl
zeros_snoc (suc n) = ap (λ s. 48 ∷ s) (zeros_snoc n)

fixed_zero : (width : ℕ) → fixed width 0 ≡ zeros width
unfolding fixed zeros
fixed_zero zero = refl
fixed_zero (suc width) = rw (fixed_zero width) (zeros_snoc width)

fixed_small : (width n : ℕ) → n < 10 → fixed (suc width) n ≡ zeros width ++ ((48 + n) ∷ [])
unfolding fixed
fixed_small width n h = rw (quotient_zero n h, remainder n h, fixed_zero width) refl
  where
    quotient_zero : (n : ℕ) → n < 10 → n / 10 ≡ 0
    quotient_zero n h = omega arith

    remainder : (n : ℕ) → n < 10 → n % 10 ≡ n
    remainder n h = omega arith

zeros_shift :
    (width d : ℕ) (s : Text)
    → zeros (suc (suc width) - length (s ++ (d ∷ []))) ++ (s ++ (d ∷ []))
      ≡ (zeros (suc width - length s) ++ s) ++ (d ∷ [])
zeros_shift width d s = rw (shorter, append_assoc (zeros (suc width - length s)) s (d ∷ [])) refl
  where
    shorter : suc (suc width) - length (s ++ (d ∷ [])) ≡ suc width - length s
    shorter = omega (arith, length-append s (d ∷ []))

-- Padding the digits gives those digits.
pub pad_lem :
    (fuel width n : ℕ)
    → width ≤ fuel
    → n < 10 ^ suc width
    → zeros (suc width - length (digits (suc fuel) n)) ++ digits (suc fuel) n ≡ fixed (suc width) n
pad_lem fuel zero n l h =
    rw (digits_small fuel n (ground arith), fixed_small 0 n (omega arith)) refl
pad_lem (suc fuel) (suc width) n l h = elim (Bool-cases (ltb n 10)) [
  | inl e ↦
      rw (digits_small (suc fuel) n e, fixed_small (suc width) n (ground arith), minus_one width)
        refl
  | inr e ↦
      rw
        (
          digits_large (suc fuel) n e,
          zeros_shift width (48 + n % 10) (digits (suc fuel) (n / 10)),
          pad_lem fuel width (n / 10) (omega arith) (omega arith),
        )
        (fixed_step (suc width) n)
]
  where
    minus_one : (width : ℕ) → suc (suc width) - 1 ≡ suc width
    minus_one width = omega arith
pad_lem zero (suc width) n l h = absurd (omega arith)

appended : (width w n : ℕ) → (w * 10 ^ width + n / 10) * 10 + n % 10 ≡ w * 10 ^ suc width + n
appended width w n = rw (power) (omega (arith, sym (mul_assoc w (10 ^ width) 10), join_ten n))
  where
    power : 10 ^ suc width ≡ 10 ^ width * 10
    power = omega arith

-- Reading the padded digits behind `w` appends them.
pub scan-fixed :
    (width n w : ℕ) (s : Text)
    → n < 10 ^ width
    → scan (fixed width n ++ s) w ≡ scan s (w * 10 ^ width + n)
unfolding fixed
scan-fixed zero n w s h = ap (scan s) (omega arith)
scan-fixed (suc width) n w s h =
    rw
      (
        append_assoc (fixed width (n / 10)) ((48 + n % 10) ∷ []) s,
        scan-fixed width (n / 10) w ((48 + n % 10) ∷ s) (omega arith),
        scan_digit (w * 10 ^ width + n / 10) (n % 10) s (omega arith),
      )
      (ap (scan s) (appended width w n))

-- ===== src/Base/Text/Digits.antt =====
-- The digits that are written are the digits that are read.
use lineleader.Base.{
  ℕ, zero, suc, ◌+◌, ◌*◌, ◌/◌, ◌%◌, ◌^◌, ◌<◌, ◌≤◌, ◌≡◌, ◌≢◌, refl, sym, ◌∙◌, ap, Bool, true, false,
  [], ◌∷◌, ◌++◌, ltb, inl, inr, Bool-cases, arith, All, All-append,
}
use mathlib.Core.Path.{subst}
use mathlib.Core.List.{append_assoc, cons-ne-nil}
use lineleader.Base.Text.{Text, digits, scan}

abbrev pub IsDigit : ℕ → Type 0
IsDigit c = (48 ≤ c) × (c ≤ 57)

pub scan_digit : (n d : ℕ) (s : Text) → d < 10 → scan ((48 + d) ∷ s) n ≡ scan s (n * 10 + d)
unfolding scan
scan_digit n d s h = ground arith

-- Ten times a quotient and the remainder make the number.
pub join_ten : (n : ℕ) → n / 10 * 10 + n % 10 ≡ n
join_ten n = omega arith

scan_last : (n : ℕ) (s : Text) → scan ((48 + n % 10) ∷ s) (n / 10) ≡ scan s n
scan_last n s = rw (scan_digit (n / 10) (n % 10) s (omega arith), join_ten n) refl

pub digits_small : (fuel n : ℕ) → ltb n 10 ≡ true → digits (suc fuel) n ≡ (48 + n) ∷ []
unfolding digits
digits_small fuel n e =
    ap
      (λ (t : Bool).
        let r : Text = elim t [
          | true ↦ (48 + n) ∷ []
          | false ↦ digits fuel (n / 10) ++ ((48 + n % 10) ∷ [])
        ] in
        r)
      e

pub digits_large :
    (fuel n : ℕ)
    → ltb n 10 ≡ false
    → digits (suc fuel) n ≡ digits fuel (n / 10) ++ ((48 + n % 10) ∷ [])
unfolding digits
digits_large fuel n e =
    ap
      (λ (t : Bool).
        let r : Text = elim t [
          | true ↦ (48 + n) ∷ []
          | false ↦ digits fuel (n / 10) ++ ((48 + n % 10) ∷ [])
        ] in
        r)
      e

lt_ten : (n : ℕ) → ltb n 10 ≡ true → n < 10
lt_ten n e = ground arith

scan_first : (n : ℕ) (s : Text) → n < 10 → scan ((48 + n) ∷ s) 0 ≡ scan s n
scan_first n s h = scan_digit 0 n s h ∙ ap (scan s) (omega arith)

pub scan-digits :
    (fuel n : ℕ) (s : Text) → n < 10 ^ suc fuel → scan (digits (suc fuel) n ++ s) 0 ≡ scan s n
scan-digits zero n s h = rw (digits_small 0 n (ground arith)) (scan_first n s (omega arith))
scan-digits (suc fuel) n s h = elim (Bool-cases (ltb n 10)) [
  | inl e ↦ rw (digits_small (suc fuel) n e) (scan_first n s (lt_ten n e))
  | inr e ↦
      rw
        (
          digits_large (suc fuel) n e,
          append_assoc (digits (suc fuel) (n / 10)) ((48 + n % 10) ∷ []) s,
          scan-digits fuel (n / 10) ((48 + n % 10) ∷ s) (omega arith),
          scan_last n s,
        )
        refl
]

pub digits-IsDigit : (fuel n : ℕ) → All IsDigit (digits fuel n)
unfolding digits
digits-IsDigit zero n = tt
digits-IsDigit (suc fuel) n = elim (Bool-cases (ltb n 10)) [
  | inl e ↦
      subst (All IsDigit) (sym (digits_small fuel n e))
        ((omega arith, grind (arith, lt_ten n e)), tt)
  | inr e ↦ subst (All IsDigit) (sym (digits_large fuel n e)) (
      All-append IsDigit (digits fuel (n / 10)) ((48 + n % 10) ∷ []) (digits-IsDigit fuel (n / 10))
        ((omega arith, omega arith), tt))
]

pub append_cons-nonempty : (s : Text) (c : ℕ) (t : Text) → s ++ (c ∷ t) ≢ []
append_cons-nonempty [] c t h = cons-ne-nil c t h
append_cons-nonempty (d ∷ s) c t h = cons-ne-nil d (s ++ (c ∷ t)) h

pub digits-nonempty : (fuel n : ℕ) (s : Text) → digits (suc fuel) n ++ s ≢ []
digits-nonempty fuel n s h = elim (Bool-cases (ltb n 10)) [
  | inl e ↦ cons-ne-nil (48 + n) s (ap (λ t. t ++ s) (sym (digits_small fuel n e)) ∙ h)
  | inr e ↦ append_cons-nonempty (digits fuel (n / 10)) (48 + n % 10) s (
      sym (append_assoc (digits fuel (n / 10)) ((48 + n % 10) ∷ []) s)
      ∙ ap (λ t. t ++ s) (sym (digits_large fuel n e))
      ∙ h)
]

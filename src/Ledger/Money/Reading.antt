-- ===== src/Ledger/Money/Reading.antt =====
-- internal/ledger/money.go: what the steps of `parseDecimal` make of digits.
use native.Mathlib.Nat.{mod-add-div', mod-lt, div-le_self}
use mathlib.Core.List.{append-nil, cons-ne-nil}
use lineleader.Base.{
  ℕ, zero, suc, ◌-◌, ◌/◌, ◌%◌, ◌^◌, ◌==◌, ◌<◌, ◌≤◌, ◌≡◌, ◌≢◌, refl, sym, ◌∙◌, ap, Bool, true, false,
  [], ◌∷◌, ◌++◌, none, some, ltb, All, All-append, All-map, arith, if◌then◌else◌, Option, length,
}
use lineleader.Base.Int.{ℤ, pos, ◌-ℤ◌, sub_ℕ}
use lineleader.Base.Text.{Text, cut, format_nat, is_space, parse_int, scan, without, zeros}
use lineleader.Base.Text.Digits.{IsDigit}
use lineleader.Base.Text.Padding.{fixed, fixed-IsDigit, scan-fixed}
use lineleader.Base.Text.Trimming.{Free, Free-without, trim_space_lem}
use lineleader.Base.Text.Integers.{
  format_nat-IsDigit, format_nat-nonempty, read_digits, scan-format_nat, scan_nil,
}
use lineleader.Ledger.Money.{to_int64}
use lineleader.Ledger.Money.Text.{
  neg_int64, parse_decimal, parse_parts, parse_trimmed, parse_units, parse_unsigned, trim_prefix,
}

-- The amount of a sign and a magnitude.
abbrev pub signed : Bool → ℕ → ℤ
signed neg n = if neg then sub_ℕ 0 n else pos n

negate_lem : (n : ℕ) → n < 2 ^ 63 → neg_int64 (pos n) ≡ sub_ℕ 0 n
unfolding to_int64 ◌-ℤ◌
negate_lem n h = ground arith

units_of :
    (neg : Bool) (s : Text) (n : ℤ)
    → parse_int s ≡ some n
    → parse_units neg s ≡ some (if neg then neg_int64 n else n)
unfolding parse_units
units_of neg s n e =
    ap
      (λ (o : Option ℤ).
        let r : Option ℤ = elim o [
          | none ↦ none
          | some m ↦ some (if neg then neg_int64 m else m)
        ] in
        r)
      e

units_lem :
    (neg : Bool) (s : Text) (n : ℕ)
    → s ≢ []
    → All IsDigit s
    → scan s 0 ≡ some n
    → n < 2 ^ 63
    → parse_units neg s ≡ some (signed neg n)
units_lem true s n h d e l =
    units_of true s (pos n) (read_digits s n h d e l) ∙ ap some (negate_lem n l)
units_lem false s n h d e l = units_of false s (pos n) (read_digits s n h d e l)

pub power_pos : (k : ℕ) → 0 < 10 ^ k
power_pos zero = omega arith
power_pos (suc k) = omega (arith, power_pos k)

scan_both :
    (scale n : ℕ) (s : Text)
    → n < 2 ^ 63
    → scan (format_nat (n / 10 ^ scale) ++ (fixed scale (n % 10 ^ scale) ++ s)) 0 ≡ scan s n
scan_both scale n s l =
    rw
      (
        scan-format_nat (n / 10 ^ scale) (fixed scale (n % 10 ^ scale) ++ s) (smaller (10 ^ scale)),
        scan-fixed scale (n % 10 ^ scale) (n / 10 ^ scale) s (mod-lt n (power_pos scale)),
      )
      (ap (scan s) (omega (arith, mod-add-div' n (10 ^ scale))))
  where
    smaller : (p : ℕ) → n / p < 2 ^ 63
    smaller p = omega (arith, div-le_self n p)

-- The amount in two parts is read as the amount.
pub amount_lem :
    (neg : Bool) (scale n : ℕ)
    → n < 2 ^ 63
    → parse_units neg (format_nat (n / 10 ^ scale) ++ fixed scale (n % 10 ^ scale))
      ≡ some (signed neg n)
amount_lem neg scale n l =
    units_lem neg (format_nat (n / 10 ^ scale) ++ fixed scale (n % 10 ^ scale)) n
      (format_nat-nonempty (n / 10 ^ scale) (fixed scale (n % 10 ^ scale)))
      (All-append IsDigit (format_nat (n / 10 ^ scale)) (fixed scale (n % 10 ^ scale))
        (format_nat-IsDigit (n / 10 ^ scale)) (fixed-IsDigit scale (n % 10 ^ scale)))
      (ap (λ t. scan (format_nat (n / 10 ^ scale) ++ t) 0)
          (sym (append-nil (fixed scale (n % 10 ^ scale))))
        ∙ scan_both scale n [] l
        ∙ scan_nil n)
      l

-- `IsPlain`: a digit or the point; neither a space, a sign, a dollar nor a comma.
abbrev pub IsPlain : ℕ → Type 0
IsPlain c = (46 ≤ c) × (c ≤ 57)

pub IsPlain-Free_space : (s : Text) → All IsPlain s → Free is_space s
IsPlain-Free_space = All-map IsPlain (λ c. is_space c ≡ false) λ c h. ground arith

pub IsPlain-Free : (b : ℕ) (s : Text) → b < 46 → All IsPlain s → Free (λ c. c == b) s
IsPlain-Free b s l = All-map IsPlain (λ c. (c == b) ≡ false) (λ c h. ground arith) s

-- A sign before an amount.
abbrev pub sign : Bool → Text → Text
sign neg s = if neg then 45 ∷ s else s

pub parse_decimal_signed :
    (neg : Bool) (c : ℕ) (s : Text) (scale : ℕ)
    → Free is_space (c ∷ s)
    → (c == 45) ≡ false
    → parse_decimal (sign neg (c ∷ s)) scale ≡ parse_unsigned neg (c ∷ s) scale
unfolding parse_decimal parse_trimmed
parse_decimal_signed true c s scale h e = rw (trim_space_lem (45 ∷ c ∷ s) (refl, h)) refl
parse_decimal_signed false c s scale h e = rw (trim_space_lem (c ∷ s) h, e) refl

pub unsigned_lem :
    (neg : Bool) (s t : Text) (scale : ℕ)
    → without 44 (trim_prefix 36 s) ≡ t
    → t ≢ []
    → parse_unsigned neg s scale ≡ parse_parts neg (cut 46 t) scale
unfolding parse_unsigned
unsigned_lem neg s [] scale e h = absurd (h refl)
unsigned_lem neg s (c ∷ t) scale e h = rw (e) refl

pub unsigned_plain :
    (neg : Bool) (c : ℕ) (s : Text) (scale : ℕ)
    → All IsPlain (c ∷ s)
    → parse_unsigned neg (c ∷ s) scale ≡ parse_parts neg (cut 46 (c ∷ s)) scale
unsigned_plain neg c s scale h =
    unsigned_lem neg (c ∷ s) (c ∷ s) scale
      (rw (not_dollar c h.0) (Free-without 44 (c ∷ s) (IsPlain-Free 44 (c ∷ s) (omega arith) h)))
      (cons-ne-nil c s)
  where
    not_dollar : (c : ℕ) → IsPlain c → (c == 36) ≡ false
    not_dollar c h = ground arith

-- A plain text behind an optional sign is cut at its point.
pub plain_lem :
    (neg : Bool) (s : Text) (scale : ℕ)
    → All IsPlain s
    → s ≢ []
    → parse_decimal (sign neg s) scale ≡ parse_parts neg (cut 46 s) scale
plain_lem neg [] scale h n = absurd (n refl)
plain_lem neg (c ∷ s) scale h n =
    parse_decimal_signed neg c s scale (IsPlain-Free_space (c ∷ s) h) (not_minus c h.0)
    ∙ unsigned_plain neg c s scale h
  where
    not_minus : (c : ℕ) → IsPlain c → (c == 45) ≡ false
    not_minus c h = ground arith

pub parts_some :
    (neg : Bool) (d f : Text) (scale : ℕ)
    → length f ≤ scale
    → parse_parts neg (d, some f) scale ≡ parse_units neg (d ++ (f ++ zeros (scale - length f)))
unfolding parse_parts
parts_some neg d f scale l = rw (fits) refl
  where
    fits : ltb scale (length f) ≡ false
    fits = ground arith

pub parts_none :
    (neg : Bool) (d : Text) (scale : ℕ)
    → parse_parts neg (d, none) scale ≡ parse_units neg (d ++ zeros scale)
unfolding parse_parts
parts_none neg d scale = refl

pub IsDigit-IsPlain : (s : Text) → All IsDigit s → All IsPlain s
IsDigit-IsPlain = All-map IsDigit IsPlain λ c h. (omega arith, h.1)

-- ===== src/Ledger/Money/RoundTrip.antt =====
-- internal/ledger/money.go: an amount that is written is read back.
pub mod Micros
pub mod Usd
use native.Mathlib.Nat.{mod-lt}
use mathlib.Core.List.{append-nil}
use lineleader.Base.{
  ℕ, zero, suc, ◌+◌, ◌-◌, ◌*◌, ◌/◌, ◌%◌, ◌^◌, ◌==◌, ◌<◌, ◌≤◌, ◌≡◌, ◌≢◌, refl, sym, ◌∙◌, ap, Bool,
  true, false, [], ◌∷◌, ◌++◌, none, some, ltb, leb, All, All-append, arith, if◌then◌else◌, Option,
  length,
}
use lineleader.Base.Int.{magnitude, ℤ, pos, negsuc, sub_ℕ, ltb_ℤ}
use lineleader.Base.Text.{Text, cut, format_nat, zeros}
use lineleader.Base.Text.Digits.{IsDigit, append_cons-nonempty}
use lineleader.Base.Text.Padding.{fixed, fixed-IsDigit, length-fixed, pad_lem}
use lineleader.Base.Text.Trimming.{Free-cut}
use lineleader.Ledger.Money.Text.{
  cents_string, fixed_point, format_fixed, pad_nat, parse_cents, parse_decimal, parse_parts,
  parse_units,
}
use lineleader.Base.Text.Integers.{IsDigit-Free, format_nat-IsDigit}
use lineleader.Ledger.Money.Reading.{
  IsDigit-IsPlain, IsPlain, amount_lem, parts_some, plain_lem, power_pos, sign, signed,
}

-- The sign of an amount.
abbrev pub is_negative : ℤ → Bool
is_negative c = ltb_ℤ c (pos 0)

pub format_fixed-sign :
    (c : ℤ) (scale : ℕ)
    → format_fixed c scale ≡ sign (is_negative c) (fixed_point (magnitude c) scale)
unfolding format_fixed
format_fixed-sign c scale = refl

pub signed_lem : (c : ℤ) → signed (is_negative c) (magnitude c) ≡ c
signed_lem (pos n) = ground arith
signed_lem (negsuc n) = ground arith

-- The digits behind the point.
pub fixed_point_lem :
    (n width : ℕ)
    → width ≤ 19
    → fixed_point n (suc width)
      ≡ format_nat (n / 10 ^ suc width) ++ (46 ∷ fixed (suc width) (n % 10 ^ suc width))
unfolding fixed_point pad_nat format_nat
fixed_point_lem n width l =
    rw (pad_lem 19 width (n % 10 ^ suc width) l (mod-lt n (power_pos (suc width)))) refl

pub fixed_parts :
    (neg : Bool) (n scale : ℕ)
    → n < 2 ^ 63
    → parse_parts neg (format_nat (n / 10 ^ scale), some (fixed scale (n % 10 ^ scale))) scale
      ≡ some (signed neg n)
unfolding zeros
fixed_parts neg n scale l =
    parts_some neg (format_nat (n / 10 ^ scale)) (fixed scale (n % 10 ^ scale)) scale
      (omega (arith, length-fixed scale (n % 10 ^ scale)))
    ∙ ap (λ t. parse_units neg (format_nat (n / 10 ^ scale) ++ t)) no_padding
    ∙ amount_lem neg scale n l
  where
    none_missing : scale - length (fixed scale (n % 10 ^ scale)) ≡ 0
    none_missing = omega (arith, length-fixed scale (n % 10 ^ scale))

    no_padding :
        fixed scale (n % 10 ^ scale) ++ zeros (scale - length (fixed scale (n % 10 ^ scale)))
        ≡ fixed scale (n % 10 ^ scale)
    no_padding =
        ap (λ k. fixed scale (n % 10 ^ scale) ++ zeros k) none_missing
        ∙ append-nil (fixed scale (n % 10 ^ scale))

-- A decimal of at most twenty places is read back.
pub parse-format_fixed :
    (c : ℤ) (width : ℕ)
    → width ≤ 19
    → magnitude c < 2 ^ 63
    → parse_decimal (format_fixed c (suc width)) (suc width) ≡ some c
parse-format_fixed c width w l =
    rw (format_fixed-sign c (suc width), fixed_point_lem (magnitude c) width w)
      (plain_lem (is_negative c) (d ++ (46 ∷ f)) (suc width) plain (append_cons-nonempty d 46 f)
        ∙ ap (λ p. parse_parts (is_negative c) p (suc width))
            (Free-cut 46 d f (IsDigit-Free 46 d (omega arith) digit))
        ∙ fixed_parts (is_negative c) (magnitude c) (suc width) l
        ∙ ap some (signed_lem c))
  where
    d : Text
    d = format_nat (magnitude c / 10 ^ suc width)

    f : Text
    f = fixed (suc width) (magnitude c % 10 ^ suc width)

    digit : All IsDigit d
    digit = format_nat-IsDigit (magnitude c / 10 ^ suc width)

    plain : All IsPlain (d ++ (46 ∷ f))
    plain = All-append IsPlain d (46 ∷ f) (IsDigit-IsPlain d digit) (
      (omega arith, omega arith),
      IsDigit-IsPlain f (fixed-IsDigit (suc width) (magnitude c % 10 ^ suc width)),
    )

-- `ParseCents(c.String())` is `c`, for every amount whose magnitude is below 2 ^ 63: all of int64
-- but the least.
pub parse_cents-cents_string :
    (c : ℤ) → magnitude c < 2 ^ 63 → parse_cents (cents_string c) ≡ some c
unfolding parse_cents cents_string
parse_cents-cents_string c l = parse-format_fixed c 1 (omega arith) l

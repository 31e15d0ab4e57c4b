-- ===== src/Ledger/Money/RoundTrip/Usd.antt =====
-- internal/ledger/money.go: the currency text with its dollar sign and commas is read back.
use lineleader.Base.{
  ℕ, zero, suc, ◌+◌, ◌/◌, ◌%◌, ◌^◌, ◌==◌, ◌<◌, ◌≡◌, refl, ◌∙◌, ap, Bool, true, false, [], ◌∷◌, ◌++◌,
  some, All, All-append, arith, if◌then◌else◌, length, Bool-cases, inl, inr, leb, ge→ltb,
}
use lineleader.Base.Int.{magnitude, ℤ, pos}
use lineleader.Base.Text.{Text, cut, drop, format_nat, is_space, take, without}
use lineleader.Base.Text.Digits.{IsDigit, append_cons-nonempty}
use lineleader.Base.Text.Padding.{fixed, fixed-IsDigit}
use lineleader.Base.Text.Trimming.{Free, Free-cut, Free-without, take-drop, without-append}
use lineleader.Ledger.Money.Text.{
  comma_groups, format_fixed, fixed_point, format_usd, group_thousands, usd_text, parse_cents,
  parse_decimal, parse_parts,
}
use lineleader.Base.Text.Integers.{IsDigit-Free, format_nat-IsDigit}
use lineleader.Ledger.Money.Reading.{
  IsDigit-IsPlain, IsPlain-Free_space, parse_decimal_signed, sign, unsigned_lem,
}
use lineleader.Ledger.Money.RoundTrip.{fixed_parts, fixed_point_lem, is_negative, signed_lem}

-- Grouping adds commas and nothing else.
without-comma_groups : (s : Text) → Free (λ c. c == 44) s → without 44 (comma_groups s) ≡ s
unfolding comma_groups
without-comma_groups [] h = refl
without-comma_groups (a ∷ []) h = rw (h.0) refl
without-comma_groups (a ∷ b ∷ []) h = rw (h.0, h.1.0) refl
without-comma_groups (a ∷ b ∷ c ∷ s) h =
    rw (h.0, h.1.0, h.1.1.0, without-comma_groups s h.1.1.1) refl

Free-take : (p : ℕ → Bool) (n : ℕ) (s : Text) → Free p s → Free p (take n s) × Free p (drop n s)
unfolding take drop
Free-take p zero s h = (tt, h)
Free-take p (suc n) [] h = (tt, tt)
Free-take p (suc n) (c ∷ s) h = ((h.0, (Free-take p n s h.1).0), (Free-take p n s h.1).1)

split_lem :
    (n : ℕ) (s : Text)
    → Free (λ c. c == 44) s
    → without 44 (take n s ++ comma_groups (drop n s)) ≡ s
split_lem n s h =
    rw
      (
        without-append 44 (take n s) (comma_groups (drop n s)),
        Free-without 44 (take n s) (Free-take (λ c. c == 44) n s h).0,
        without-comma_groups (drop n s) (Free-take (λ c. c == 44) n s h).1,
      )
      (take-drop n s)

pub without-group_thousands :
    (s : Text) → Free (λ c. c == 44) s → without 44 (group_thousands s) ≡ s
unfolding group_thousands
without-group_thousands s h = elim (Bool-cases (leb (length s) 3)) [
  | inl e ↦ rw e (Free-without 44 s h)
  | inr e ↦ rw e (split_lem (if length s % 3 == 0 then 3 else length s % 3) s h)
]

-- No space comes in with the commas.
Free-comma_groups : (s : Text) → Free is_space s → Free is_space (comma_groups s)
unfolding comma_groups
Free-comma_groups [] h = tt
Free-comma_groups (a ∷ []) h = (refl, h)
Free-comma_groups (a ∷ b ∷ []) h = (refl, h)
Free-comma_groups (a ∷ b ∷ c ∷ s) h = (refl, (h.0, (h.1.0, (h.1.1.0, Free-comma_groups s h.1.1.1))))

Free-group_thousands : (s : Text) → Free is_space s → Free is_space (group_thousands s)
unfolding group_thousands
Free-group_thousands s h = elim (Bool-cases (leb (length s) 3)) [
  | inl e ↦ rw e h
  | inr e ↦ rw e (grouped (if length s % 3 == 0 then 3 else length s % 3))
]
  where
    grouped : (n : ℕ) → Free is_space (take n s ++ comma_groups (drop n s))
    grouped n =
        All-append (λ c. is_space c ≡ false) (take n s) (comma_groups (drop n s))
          (Free-take is_space n s h).0 (Free-comma_groups (drop n s) (Free-take is_space n s h).1)

-- The parts that `FormatUSD` cuts the amount into.
cut_amount :
    (n : ℕ)
    → cut 46 (format_fixed (pos n) 2) ≡ (format_nat (n / 10 ^ 2), some (fixed 2 (n % 10 ^ 2)))
unfolding format_fixed
cut_amount n =
    rw (unsigned n, fixed_point_lem n 1 (omega arith))
      (Free-cut 46 (format_nat (n / 10 ^ 2)) (fixed 2 (n % 10 ^ 2))
        (IsDigit-Free 46 (format_nat (n / 10 ^ 2)) (omega arith) (format_nat-IsDigit (n / 10 ^ 2))))
  where
    plus_zero : (n : ℕ) → n + 0 ≡ n
    plus_zero n = omega arith

    unsigned : (n : ℕ) → format_fixed (pos n) 2 ≡ fixed_point n 2
    unsigned n = rw (plus_zero n, ge→ltb n 0 (omega arith)) refl

Digit-space : (s : Text) → All IsDigit s → Free is_space s
Digit-space s h = IsPlain-Free_space s (IsDigit-IsPlain s h)

-- The grouped text is read as the parts it was made of.
read_usd :
    (neg : Bool) (d f : Text)
    → All IsDigit d
    → All IsDigit f
    → parse_decimal (usd_text neg (d, some f)) 2 ≡ parse_parts neg (d, some f) 2
unfolding usd_text
read_usd neg d f hd hf =
    ap (λ s. parse_decimal s 2) (layout neg)
    ∙ parse_decimal_signed neg 36 (group_thousands d ++ (46 ∷ f)) 2 (refl, no_space) refl
    ∙ unsigned_lem neg (36 ∷ (group_thousands d ++ (46 ∷ f))) (d ++ (46 ∷ f)) 2 no_comma
        (append_cons-nonempty d 46 f)
    ∙ ap (λ p. parse_parts neg p 2) (Free-cut 46 d f (IsDigit-Free 46 d (omega arith) hd))
  where
    layout :
        (neg : Bool) → usd_text neg (d, some f) ≡ sign neg (36 ∷ (group_thousands d ++ (46 ∷ f)))
    layout true = refl
    layout false = refl

    no_space : Free is_space (group_thousands d ++ (46 ∷ f))
    no_space =
        All-append (λ c. is_space c ≡ false) (group_thousands d) (46 ∷ f)
          (Free-group_thousands d (Digit-space d hd)) (refl, Digit-space f hf)

    no_comma : without 44 (group_thousands d ++ (46 ∷ f)) ≡ d ++ (46 ∷ f)
    no_comma =
        rw
          (
            without-append 44 (group_thousands d) (46 ∷ f),
            without-group_thousands d (IsDigit-Free 44 d (omega arith) hd),
            Free-without 44 f (IsDigit-Free 44 f (omega arith) hf),
          )
          refl

-- `ParseCents(FormatUSD(c))` is `c`, for every amount whose magnitude is below 2 ^ 63: the commas
-- and the dollar sign are dropped, and the sign before them is kept.
pub parse_cents-format_usd : (c : ℤ) → magnitude c < 2 ^ 63 → parse_cents (format_usd c) ≡ some c
unfolding parse_cents format_usd
parse_cents-format_usd c l =
    ap (λ p. parse_decimal (usd_text (is_negative c) p) 2) (cut_amount (magnitude c))
    ∙ read_usd (is_negative c) (format_nat (magnitude c / 10 ^ 2)) (fixed 2 (magnitude c % 10 ^ 2))
        (format_nat-IsDigit (magnitude c / 10 ^ 2)) (fixed-IsDigit 2 (magnitude c % 10 ^ 2))
    ∙ fixed_parts (is_negative c) (magnitude c) 2 l
    ∙ ap some (signed_lem c)

-- ===== src/Ledger/Money/RoundTrip/Micros.antt =====
-- internal/ledger/money.go: a rate that is written without its trailing zeros is read back.
use mathlib.Core.List.{append-nil}
use lineleader.Base.{
  ◌&&◌, Bool-cases, inl, inr, ℕ, suc, ◌-◌, ◌/◌, ◌%◌, ◌^◌, ◌==◌, ◌<◌, ◌≤◌, ◌≡◌, ◌≢◌, refl, sym, ◌∙◌,
  ap, Bool, true, false, [], ◌∷◌, ◌++◌, some, All, All-append, arith, length,
}
use lineleader.Base.Int.{magnitude, ℤ}
use lineleader.Base.Text.{Text, format_nat, is_empty, trim_right, zeros}
use lineleader.Base.Text.Digits.{IsDigit, append_cons-nonempty}
use lineleader.Base.Text.Padding.{fixed, fixed-IsDigit, length-fixed}
use lineleader.Base.Text.Trimming.{
  Free, Free-cut, Free-cut-none, Free-trim_right, contains_rune-append, trim_right-append,
  trim_right-append_nil, trim_right_keep, trim_right-zeros,
}
use lineleader.Ledger.Money.Text.{
  format_fixed, micros_string, parse_decimal, parse_micros, parse_parts, parse_units,
  trim_trailing_zeros,
}
use lineleader.Base.Text.Integers.{IsDigit-Free, format_nat-IsDigit, format_nat-nonempty}
use lineleader.Ledger.Money.Reading.{
  IsDigit-IsPlain, IsPlain, amount_lem, parts_none, parts_some, plain_lem, sign,
}
use lineleader.Ledger.Money.RoundTrip.{fixed_point_lem, format_fixed-sign, is_negative, signed_lem}

is_zero : ℕ → Bool
is_zero c = c == 48

is_point : ℕ → Bool
is_point c = c == 46

-- What is left of an amount without its trailing zeros.
trimmed : Text → Text → Text
trimmed d [] = d
trimmed d (c ∷ s) = d ++ (46 ∷ c ∷ s)

-- What holds of every code point of a text holds of those that trimming leaves.
All-trim_right : (P : ℕ → Type 0) (p : ℕ → Bool) (s : Text) → All P s → All P (trim_right p s)
unfolding trim_right
All-trim_right P p [] h = tt
All-trim_right P p (c ∷ s) h = elim (Bool-cases (is_empty (trim_right p s) && p c)) [
  | inl e ↦ rw e tt
  | inr e ↦ rw e (h.0, All-trim_right P p s h.1)
]

length-trim_right : (p : ℕ → Bool) (s : Text) → length (trim_right p s) ≤ length s
unfolding trim_right
length-trim_right p [] = omega arith
length-trim_right p (c ∷ s) = elim (Bool-cases (is_empty (trim_right p s) && p c)) [
  | inl e ↦ rw e (omega arith)
  | inr e ↦ rw e (omega (arith, length-trim_right p s))
]

trim_zeros : (d f : Text) → trim_right is_zero (d ++ (46 ∷ f)) ≡ d ++ (46 ∷ trim_right is_zero f)
unfolding is_zero
trim_zeros d f =
    trim_right-append is_zero d 46 (46 ∷ f) (trim_right is_zero f)
      (trim_right_keep is_zero 46 f refl)

trim_point :
    (d t : Text)
    → Free is_point d
    → Free is_point t
    → trim_right is_point (d ++ (46 ∷ t)) ≡ trimmed d t
unfolding is_point trimmed trim_right
trim_point d [] hd ht = trim_right-append_nil is_point d (46 ∷ []) refl hd
trim_point d (c ∷ s) hd ht =
    trim_right-append is_point d 46 (46 ∷ c ∷ s) (c ∷ s)
      (rw (Free-trim_right is_point (c ∷ s) ht) refl)

Digit-point : (s : Text) → All IsDigit s → Free is_point s
unfolding is_point
Digit-point s = IsDigit-Free 46 s (omega arith)

trim_lem :
    (d f : Text)
    → Free is_point d
    → All IsDigit f
    → trim_trailing_zeros (d ++ (46 ∷ f)) ≡ trimmed d (trim_right is_zero f)
unfolding trim_trailing_zeros is_zero is_point
trim_lem d f hd hf = rw (contains_rune-append d f 46) (
    ap (trim_right is_point) (trim_zeros d f)
    ∙ trim_point d (trim_right is_zero f) hd
        (Digit-point (trim_right is_zero f) (All-trim_right IsDigit is_zero f hf)))

signed_trim :
    (neg : Bool) (d f : Text)
    → All IsDigit d
    → All IsDigit f
    → trim_trailing_zeros (sign neg (d ++ (46 ∷ f))) ≡ sign neg (trimmed d (trim_right is_zero f))
unfolding is_point trimmed
signed_trim false d f hd hf = trim_lem d f (Digit-point d hd) hf
signed_trim true d f hd hf =
    trim_lem (45 ∷ d) f (no_point, Digit-point d hd) hf ∙ behind_sign (trim_right is_zero f)
  where
    no_point : is_point 45 ≡ false
    no_point = refl

    behind_sign : (t : Text) → trimmed (45 ∷ d) t ≡ 45 ∷ trimmed d t
    behind_sign [] = refl
    behind_sign (c ∷ s) = refl

-- The trimmed amount is read as the whole one.
read_trimmed :
    (neg : Bool) (d f t : Text)
    → All IsDigit d
    → d ≢ []
    → All IsDigit t
    → length t ≤ length f
    → t ++ zeros (length f - length t) ≡ f
    → parse_decimal (sign neg (trimmed d t)) (length f) ≡ parse_units neg (d ++ f)
unfolding trimmed
read_trimmed neg d f [] hd n ht l e =
    plain_lem neg d (length f) (IsDigit-IsPlain d hd) n
    ∙ ap (λ p. parse_parts neg p (length f))
        (Free-cut-none 46 d (IsDigit-Free 46 d (omega arith) hd))
    ∙ parts_none neg d (length f)
    ∙ ap (λ t. parse_units neg (d ++ t)) (ap zeros (minus_zero (length f)) ∙ e)
  where
    minus_zero : (n : ℕ) → n ≡ n - 0
    minus_zero n = omega arith
read_trimmed neg d f (c ∷ s) hd n ht l e =
    plain_lem neg (d ++ (46 ∷ c ∷ s)) (length f) plain (append_cons-nonempty d 46 (c ∷ s))
    ∙ ap (λ p. parse_parts neg p (length f))
        (Free-cut 46 d (c ∷ s) (IsDigit-Free 46 d (omega arith) hd))
    ∙ parts_some neg d (c ∷ s) (length f) l
    ∙ ap (λ t. parse_units neg (d ++ t)) e
  where
    plain : All IsPlain (d ++ (46 ∷ c ∷ s))
    plain =
        All-append IsPlain d (46 ∷ c ∷ s) (IsDigit-IsPlain d hd)
          ((omega arith, omega arith), IsDigit-IsPlain (c ∷ s) ht)

-- An amount of any scale whose trailing zeros are trimmed is read back.
parse-trim_trailing_zeros :
    (m : ℤ) (width : ℕ)
    → width ≤ 19
    → magnitude m < 2 ^ 63
    → parse_decimal (trim_trailing_zeros (format_fixed m (suc width))) (suc width) ≡ some m
unfolding is_zero
parse-trim_trailing_zeros m width w l =
    rw
      (
        format_fixed-sign m (suc width),
        fixed_point_lem (magnitude m) width w,
        signed_trim (is_negative m) d f hd hf,
      )
      (ap (parse_decimal (sign (is_negative m) (trimmed d (trim_right is_zero f))))
          (sym (length-fixed (suc width) (magnitude m % 10 ^ suc width)))
        ∙ read_trimmed (is_negative m) d f (trim_right is_zero f) hd no_digits
            (All-trim_right IsDigit is_zero f hf) (length-trim_right is_zero f) (trim_right-zeros f)
        ∙ amount_lem (is_negative m) (suc width) (magnitude m) l
        ∙ ap some (signed_lem m))
  where
    d : Text
    d = format_nat (magnitude m / 10 ^ suc width)

    f : Text
    f = fixed (suc width) (magnitude m % 10 ^ suc width)

    hd : All IsDigit d
    hd = format_nat-IsDigit (magnitude m / 10 ^ suc width)

    hf : All IsDigit f
    hf = fixed-IsDigit (suc width) (magnitude m % 10 ^ suc width)

    no_digits : d ≢ []
    no_digits h = format_nat-nonempty (magnitude m / 10 ^ suc width) [] (append-nil d ∙ h)

-- `ParseMicros(m.String())` is `m`, for every rate whose magnitude is below 2 ^ 63: the zeros that
-- `String` trims are the ones that `parseDecimal` pads.
pub parse_micros-micros_string :
    (m : ℤ) → magnitude m < 2 ^ 63 → parse_micros (micros_string m) ≡ some m
unfolding parse_micros micros_string
parse_micros-micros_string m l = parse-trim_trailing_zeros m 5 (omega arith) l

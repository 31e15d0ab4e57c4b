-- ===== src/Ledger/Money/Text.antt =====
-- internal/ledger/money.go: reading and writing amounts of money. An error of the code is `none`.
use lineleader.Base.{
  ℕ, ◌-◌, ◌/◌, ◌%◌, ◌^◌, ◌==◌, Bool, true, false, [], ◌∷◌, ◌++◌, Option, none, some, leb, ltb,
  length, if◌then◌else◌,
}
use lineleader.Base.Int.{magnitude, ℤ, pos, ◌-ℤ◌, ltb_ℤ}
use lineleader.Base.Text.{
  Text, cut, drop, format_nat, is_empty, parse_int, take, trim_right, trim_space, without, zeros,
  contains_rune,
}
use lineleader.Ledger.Money.{to_int64, div_round}

-- `-n` on int64.
abbrev pub neg_int64 : ℤ → ℤ
neg_int64 n = to_int64 (pos 0 -ℤ n)

-- `strings.TrimPrefix(s, prefix)` for the prefix of one code point.
abbrev pub trim_prefix : ℕ → Text → Text
trim_prefix b [] = []
trim_prefix b (c ∷ s) = if c == b then s else c ∷ s

-- The end of `parseDecimal`: the digits of both sides of the point as one number.
unfoldable pub parse_units : Bool → Text → Option ℤ
parse_units neg t = elim (parse_int t) [
  | none ↦ none
  | some n ↦ some (if neg then neg_int64 n else n)
]

-- `parseDecimal` from the cut at the point on.
unfoldable pub parse_parts : Bool → Text × Option Text → ℕ → Option ℤ
parse_parts neg p scale = elim p.1 [
  | none ↦ parse_units neg (p.0 ++ zeros scale)
  | some frac ↦
      if ltb scale (length frac)
      then none
      else parse_units neg (p.0 ++ (frac ++ zeros (scale - length frac)))
]

-- `parseDecimal` behind its minus sign.
unfoldable pub parse_unsigned : Bool → Text → ℕ → Option ℤ
parse_unsigned neg s scale =
    let t = without 44 (trim_prefix 36 s) in
    if is_empty t then none else parse_parts neg (cut 46 t) scale

-- `parseDecimal` of a text without spaces at its ends.
unfoldable pub parse_trimmed : Text → ℕ → Option ℤ
parse_trimmed [] scale = some (pos 0)
parse_trimmed (c ∷ s) scale =
    if c == 45 then parse_unsigned true s scale else parse_unsigned false (c ∷ s) scale

-- `parseDecimal`
unfoldable pub parse_decimal : Text → ℕ → Option ℤ
parse_decimal s scale = parse_trimmed (trim_space s) scale

-- `ParseMicros` and `ParseCents`
unfoldable pub parse_micros : Text → Option ℤ
parse_micros s = parse_decimal s 6

unfoldable pub parse_cents : Text → Option ℤ
parse_cents s = parse_decimal s 2

-- `fmt.Sprintf("%0*d", width, n)`
unfoldable pub pad_nat : ℕ → ℕ → Text
pad_nat width n = let s = format_nat n in zeros (width - length s) ++ s

-- `formatFixed` of a magnitude.
unfoldable pub fixed_point : ℕ → ℕ → Text
fixed_point n scale = format_nat (n / 10 ^ scale) ++ (46 ∷ pad_nat scale (n % 10 ^ scale))

-- `formatFixed`, for every int64 but the least, whose `-n` is itself.
unfoldable pub format_fixed : ℤ → ℕ → Text
format_fixed n scale =
    let s = fixed_point (magnitude n) scale in if ltb_ℤ n (pos 0) then 45 ∷ s else s

-- `trimTrailingZeros`
unfoldable pub trim_trailing_zeros : Text → Text
trim_trailing_zeros s =
    if contains_rune s 46 then trim_right (λ c. c == 46) (trim_right (λ c. c == 48) s) else s

-- `Micros.String` and `Cents.String`
unfoldable pub micros_string : ℤ → Text
micros_string m = trim_trailing_zeros (format_fixed m 6)

unfoldable pub cents_string : ℤ → Text
cents_string c = format_fixed c 2

-- The loop of `groupThousands`, over the digits behind the first group.
unfoldable pub comma_groups : Text → Text
comma_groups (a ∷ b ∷ c ∷ s) = 44 ∷ a ∷ b ∷ c ∷ comma_groups s
comma_groups (a ∷ b ∷ []) = 44 ∷ a ∷ b ∷ []
comma_groups (a ∷ []) = 44 ∷ a ∷ []
comma_groups [] = []

-- `groupThousands`
unfoldable pub group_thousands : Text → Text
group_thousands s =
    let n = length s in
    let first = (if n % 3 == 0 then 3 else n % 3) in
    if leb n 3 then s else take first s ++ comma_groups (drop first s)

-- The end of `FormatUSD`: the sign, the dollar sign, and both sides of the point.
unfoldable pub usd_text : Bool → Text × Option Text → Text
usd_text neg parts =
    let frac : Text = elim parts.1 [ none ↦ [] | some f ↦ f ] in
    let out = 36 ∷ (group_thousands parts.0 ++ (46 ∷ frac)) in if neg then 45 ∷ out else out

-- `FormatUSD`
unfoldable pub format_usd : ℤ → Text
format_usd c = usd_text (ltb_ℤ c (pos 0)) (cut 46 (format_fixed (pos (magnitude c)) 2))

-- `FormatRate`
unfoldable pub format_rate : ℤ → Text
format_rate m = 36 ∷ format_fixed (div_round m (pos 100)) 4

-- ===== src/Ledger/Money.antt =====
-- internal/ledger/money.go: the one rounding rule of money, and the price of points. Amounts are
-- Go's int64; sums and products wrap, and `div_round` stands for operands below 2 ^ 63 in size,
-- where `-n` does not.
mod Tests
pub mod Rounding
pub mod Text
pub mod Reading
pub mod RoundTrip
use lineleader.Base.{ℕ, ◌+◌, ◌-◌, ◌*◌, ◌/◌, ◌%◌, ◌^◌, Bool, not, ltb, if◌then◌else◌}
use lineleader.Base.Int.{ℤ, pos, ◌+ℤ◌, ◌*ℤ◌, leb_ℤ, ltb_ℤ, pos_part, neg_part, sub_ℕ, magnitude}

-- The value of an int64 that holds `z`.
unfoldable pub to_int64 : ℤ → ℤ
to_int64 z =
    let u = (pos_part z % 2 ^ 64 + (2 ^ 64 - neg_part z % 2 ^ 64)) % 2 ^ 64 in
    if ltb u (2 ^ 63) then pos u else sub_ℕ u (2 ^ 64)

-- `*` and `+` on int64.
abbrev pub mul_int64 : ℤ → ℤ → ℤ
mul_int64 a b = to_int64 (a *ℤ b)

abbrev pub add_int64 : ℤ → ℤ → ℤ
add_int64 a b = to_int64 (a +ℤ b)

-- `microsPerCent`
abbrev pub micros_per_cent : ℤ
micros_per_cent = pos 10000

-- The quotient of the magnitudes, half a divisor rounding up; `2*r` wraps.
unfoldable pub round_quotient : ℕ → ℕ → ℕ
round_quotient n d = if leb_ℤ (pos d) (to_int64 (pos (2 * (n % d)))) then n / d + 1 else n / d

-- `(n < 0) != (d < 0)`
abbrev pub signs_differ : ℤ → ℤ → Bool
signs_differ n d = if ltb_ℤ n (pos 0) then not (ltb_ℤ d (pos 0)) else ltb_ℤ d (pos 0)

-- `divRound`
unfoldable pub div_round : ℤ → ℤ → ℤ
unfolding round_quotient
div_round n d =
    let q = round_quotient (magnitude n) (magnitude d) in
    if signs_differ n d then sub_ℕ 0 q else pos q

-- `PointCost`
unfoldable pub point_cost : ℤ → ℤ → ℤ → ℤ
point_cost points rate dues = div_round (mul_int64 points (add_int64 rate dues)) micros_per_cent

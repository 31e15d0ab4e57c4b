-- ===== src/Ledger/Money/Rounding.antt =====
-- internal/ledger/money.go: `divRound` rounds to nearest, half away from zero.
use lineleader.Base.{ℕ, ◌+◌, ◌*◌, ◌≤◌, ◌<◌, Bool, if◌then◌else◌}
use lineleader.Base.Int.{ℤ, pos, ◌≤ℤ◌, ◌<ℤ◌, sub_ℕ}

-- The quotient is the nearest one, a half rounding up.
abbrev pub IsNearest : ℕ → ℕ → ℕ → Type 0
IsNearest n d q = (2 * (q * d) ≤ 2 * n + d) × (2 * n + d < 2 * (q * d) + 2 * d)

-- The quotient has the sign that the signs of its operands make.
abbrev pub IsSigned : ℤ → ℤ → ℤ → Type 0
IsSigned n d q =
    (pos 0 ≤ℤ n → pos 0 ≤ℤ d → pos 0 ≤ℤ q)
    × (n <ℤ pos 0 → d <ℤ pos 0 → pos 0 ≤ℤ q)
    × (pos 0 ≤ℤ n → d <ℤ pos 0 → q ≤ℤ pos 0)
    × (n <ℤ pos 0 → pos 0 ≤ℤ d → q ≤ℤ pos 0)

signed : Bool → ℕ → ℤ
signed neg q = if neg then sub_ℕ 0 q else pos q

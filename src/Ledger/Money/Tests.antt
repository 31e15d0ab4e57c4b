-- ===== src/Ledger/Money/Tests.antt =====
-- Amounts that are written and read.
use lineleader.Base.{◌≡◌, refl, none, some, arith, []}
use lineleader.Base.Int.{pos, negsuc, ◌-ℤ◌}
use lineleader.Base.Text.{
  codes, contains_rune, cut, digits, drop, format_nat, parse_int, parse_magnitude, scan, take,
  trim_left, trim_right, trim_space, zeros,
}
use lineleader.Ledger.Money.{div_round, round_quotient, to_int64}
use lineleader.Ledger.Money.Text.{
  comma_groups, fixed_point, format_fixed, group_thousands, pad_nat, parse_decimal, parse_parts,
  parse_trimmed, parse_units, parse_unsigned, trim_trailing_zeros, usd_text, cents_string,
  format_rate, format_usd, micros_string, parse_cents, parse_micros,
}
use lineleader.Ledger.Money.RoundTrip.Micros.{parse_micros-micros_string}
use lineleader.Ledger.Money.RoundTrip.Usd.{parse_cents-format_usd}

written :
    (cents_string (negsuc 123455) ≡ codes "-1234.56")
    × (format_usd (negsuc 123455) ≡ codes "-$1,234.56")
unfolding cents_string format_fixed fixed_point format_nat digits pad_nat zeros format_usd usd_text
    group_thousands cut take comma_groups drop
written = (refl, refl)

rates :
    (micros_string (pos 8223500) ≡ codes "8.2235") × (format_rate (pos 5679612) ≡ codes "$5.6796")
unfolding micros_string trim_trailing_zeros contains_rune trim_right format_rate format_fixed
    fixed_point format_nat digits pad_nat zeros div_round round_quotient to_int64
rates = (refl, refl)

read :
    (parse_cents (codes " 1,234.5 ") ≡ some (pos 123450))
    × (parse_cents (codes "1.234") ≡ none)
    × (parse_cents (codes "--5") ≡ some (pos 500))
    × (parse_cents [] ≡ some (pos 0))
unfolding parse_cents parse_decimal parse_trimmed trim_space trim_right trim_left parse_unsigned
    parse_parts cut parse_units parse_int parse_magnitude scan zeros to_int64 ◌-ℤ◌
read = (refl, refl, refl, refl)

parse_micros-micros_string_example : parse_micros (micros_string (pos 8223500)) ≡ some (pos 8223500)
parse_micros-micros_string_example = parse_micros-micros_string (pos 8223500) (omega arith)

parse_cents-format_usd_example : parse_cents (format_usd (pos 123456789)) ≡ some (pos 123456789)
parse_cents-format_usd_example = parse_cents-format_usd (pos 123456789) (omega arith)

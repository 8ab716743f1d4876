-- ===== src/PassportGate/Amounts/Tests.antt =====
-- Amounts of packages/passport-gate/src/primitives.ts at concrete inputs.
use launch_proof.Shared.{all_some, list_eq, nat_eq, pos, text, ◌≡◌, refl}
use launch_proof.PassportGate.Types.{returns, throws, range_error}
use launch_proof.PassportGate.Amounts.{format_atomic_amount, parse_display_amount, digits_before}

one_cent : format_atomic_amount (pos 10000) (pos 6) ≡ returns (text "0.01")
unfolding format_atomic_amount digits_before text
one_cent = refl

no_decimals : format_atomic_amount (pos 120) (pos 0) ≡ returns (text "120")
unfolding format_atomic_amount digits_before text
no_decimals = refl

read_back : parse_display_amount (text "0.01") (pos 6) ≡ returns 10000
unfolding parse_display_amount text all_some
read_back = refl

too_precise : parse_display_amount (text "0.001") (pos 2) ≡ throws range_error
unfolding parse_display_amount text all_some
too_precise = refl

leading_zero : parse_display_amount (text "01") (pos 2) ≡ throws range_error
unfolding parse_display_amount text all_some
leading_zero = refl

-- ===== src/PassportGate/Amounts.antt =====
-- packages/passport-gate/src/primitives.ts: atomic amounts as decimal texts and back. The number of
-- decimals is an integer; the source throws a RangeError at any other number.
mod Tests
use mathlib.Core.List.{reverse}
use launch_proof.Shared.{
  ℕ, zero, suc, ◌+◌, ◌*◌, ◌-◌, ◌/◌, ◌%◌, ltb, ℤ, pos, negsuc, Bool, true, false, not, ◌&&◌, ◌||◌,
  ◌==◌, nat_eq, Text, text, length, take, is_digit, all_some, List, [], ◌∷◌, ◌++◌, if◌then◌else◌,
}
use launch_proof.PassportGate.Types.{Thrown, range_error, Outcome, returns, throws, ◌>>=◌}

-- `amount.toString()`: the decimal digits; a number has at most as many as it counts.
unfoldable pub digits_before : ℕ → ℕ → Text → Text
digits_before zero n rest = rest
digits_before (suc fuel) n rest = elim (ltb n 10) [
  | true ↦ (b'0' + n) ∷ rest
  | false ↦ digits_before fuel (n / 10) ((b'0' + n % 10) ∷ rest)
]

abbrev pub show_nat : ℕ → Text
show_nat n = digits_before (suc n) n []

abbrev pub zeros : ℕ → Text
zeros zero = []
zeros (suc n) = b'0' ∷ zeros n

-- `padStart(n, "0")` and `padEnd(n, "0")`
abbrev pub pad_start : ℕ → Text → Text
pad_start n s = zeros (n - length s) ++ s

abbrev pub pad_end : ℕ → Text → Text
pad_end n s = s ++ zeros (n - length s)

abbrev pub drop : ℕ → Text → Text
drop zero s = s
drop (suc n) [] = []
drop (suc n) (c ∷ s) = drop n s

abbrev pub drop_zeros : Text → Text
drop_zeros [] = []
drop_zeros (c ∷ s) = let rest = drop_zeros s in if c == b'0' then rest else c ∷ s

-- `replace(/0+$/, "")`
abbrev pub strip_zeros : Text → Text
strip_zeros s = reverse (drop_zeros (reverse s))

abbrev pub with_fraction : Text → Text → Text
with_fraction whole [] = whole
with_fraction whole (c ∷ s) = whole ++ (b'.' ∷ c ∷ s)

abbrev pub checked_decimals : ℤ → Outcome ℕ
checked_decimals (negsuc n) = throws range_error
checked_decimals (pos n) = if ltb 255 n then throws range_error else returns n

abbrev pub formatted : ℕ → ℕ → Text
formatted amount zero = show_nat amount
formatted amount (suc n) =
    let padded = pad_start (suc n + 1) (show_nat amount) in
    let at = length padded - suc n in with_fraction (take at padded) (strip_zeros (drop at padded))

unfoldable pub format_atomic_amount : ℤ → ℤ → Outcome Text
format_atomic_amount (negsuc n) decimals = throws range_error
format_atomic_amount (pos amount) decimals = do
  places ← checked_decimals decimals
  returns (formatted amount places)

-- `display.split(".")`, of a text with one point at most.
abbrev pub split_point : Text → Text × Text
split_point [] = ([], [])
split_point (c ∷ s) =
    let (whole, fraction) = split_point s in if c == b'.' then ([], s) else (c ∷ whole, fraction)

abbrev pub has_point : Text → Bool
has_point [] = false
has_point (c ∷ s) = (c == b'.') || has_point s

-- `0|[1-9]\d*`
abbrev pub is_whole : Text → Bool
is_whole [] = false
is_whole (c ∷ []) = is_digit c
is_whole (c ∷ d ∷ s) = is_digit c && (not (c == b'0') && all_some is_digit (d ∷ s))

-- `/^(0|[1-9]\d*)(\.\d+)?$/`
abbrev pub is_amount : Text → Bool
is_amount s =
    let (whole, fraction) = split_point s in
    is_whole whole && (not (has_point s) || all_some is_digit fraction)

abbrev pub read_digits : ℕ → Text → ℕ
read_digits n [] = n
read_digits n (c ∷ s) = read_digits (n * 10 + (c - b'0')) s

unfoldable pub parse_display_amount : Text → ℤ → Outcome ℕ
parse_display_amount display decimals = do
  places ← checked_decimals decimals
  let (whole, fraction) = split_point display in
      if not (is_amount display)
      then throws range_error
      else if ltb places (length fraction)
      then throws range_error
      else returns (read_digits 0 (whole ++ pad_end places fraction))

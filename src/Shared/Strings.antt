-- ===== src/Shared/Strings.antt =====
-- JavaScript strings as lists of UTF-16 code units.
use Prim.Native.Nat.{ℕ, zero, suc, ◌+◌}
use Prim.Native.Char.{code}
use Prim.Native.String.{String}
use mathlib.Core.Path.{◌≡◌, refl}
use mathlib.Core.Bool.{Bool, true, false, ◌&&◌, ◌||◌}
use mathlib.Core.Option.{Option, none, some}
use mathlib.Core.List.{List, [], ◌∷◌, map, reverse}
use native.Mathlib.Omega.{arith}
use launch_proof.Shared.Tests.{ltb, leb, nat_beq, if◌then◌else◌}

abbrev pub Text : Type 0
Text = List ℕ

-- A literal of the source. All of them are ASCII, where a code point is a code unit.
unfoldable pub text : String → Text
text String.[] = []
text (String.◌∷◌ c s) = code c ∷ text s

-- `toLowerCase` on the ASCII letters; other code units stand for themselves.
abbrev pub lower_code : ℕ → ℕ
lower_code c = if leb b'A' c && leb c b'Z' then c + 32 else c

unfoldable pub to_lower_case : Text → Text
to_lower_case = map lower_code

lower_code_idem : (c : ℕ) → lower_code (lower_code c) ≡ lower_code c
lower_code_idem c = ground arith

pub to_lower_case_idem : (s : Text) → to_lower_case (to_lower_case s) ≡ to_lower_case s
unfolding to_lower_case
to_lower_case_idem [] = refl
to_lower_case_idem (c ∷ s) = ground (arith, lower_code_idem c, to_lower_case_idem s)

-- `a <= b` on strings: code unit by code unit.
unfoldable pub text_leb : Text → Text → Bool
text_leb [] b = true
text_leb (x ∷ a) [] = false
text_leb (x ∷ a) (y ∷ b) = ltb x y || (nat_beq x y && text_leb a b)

pub text_leb_refl : (a : Text) → text_leb a a ≡ true
unfolding text_leb
text_leb_refl [] = refl
text_leb_refl (x ∷ a) = ground (arith, text_leb_refl a)

pub text_leb_trans :
    (a b c : Text) → text_leb a b ≡ true → text_leb b c ≡ true → text_leb a c ≡ true
unfolding text_leb
text_leb_trans [] b c p q = refl
text_leb_trans (x ∷ a) [] c p q = ground arith
text_leb_trans (x ∷ a) (y ∷ b) [] p q = q
text_leb_trans (x ∷ a) (y ∷ b) (z ∷ c) p q = ground (arith, text_leb_trans a b c)

pub text_leb_total : (a b : Text) → (text_leb a b || text_leb b a) ≡ true
unfolding text_leb
text_leb_total [] b = refl
text_leb_total (x ∷ a) [] = refl
text_leb_total (x ∷ a) (y ∷ b) = ground (arith, text_leb_total a b)

-- A string that may be missing, as a condition: `undefined`, `null` and "" are falsy.
abbrev pub truthy : Option Text → Option Text
truthy (some (c ∷ s)) = some (c ∷ s)
truthy _ = none

abbrev pub starts_with : Text → Text → Bool
starts_with [] s = true
starts_with (c ∷ p) [] = false
starts_with (c ∷ p) (d ∷ s) = nat_beq c d && starts_with p s

-- `s.endsWith(p)`
abbrev pub ends_with : Text → Text → Bool
ends_with p s = starts_with (reverse p) (reverse s)

-- `s.slice(0, -1)`
abbrev pub drop_last : Text → Text
drop_last [] = []
drop_last (c ∷ []) = []
drop_last (c ∷ d ∷ s) = c ∷ drop_last (d ∷ s)

abbrev pub is_digit : ℕ → Bool
is_digit c = leb b'0' c && leb c b'9'

abbrev pub is_hex : ℕ → Bool
is_hex c = is_digit c || ((leb b'a' c && leb c b'f') || (leb b'A' c && leb c b'F'))

-- Exactly `n` code units, each of which passes the test.
unfoldable pub all_exactly : (ℕ → Bool) → ℕ → Text → Bool
all_exactly p zero [] = true
all_exactly p zero (c ∷ s) = false
all_exactly p (suc n) [] = false
all_exactly p (suc n) (c ∷ s) = p c && all_exactly p n s

-- One code unit or more, each of which passes the test.
unfoldable pub all_some : (ℕ → Bool) → Text → Bool
all_some p [] = false
all_some p (c ∷ []) = p c
all_some p (c ∷ d ∷ s) = p c && all_some p (d ∷ s)

-- The code units that `trim` removes: white space and line ends of ECMAScript.
abbrev pub is_space : ℕ → Bool
is_space c =
    (leb 9 c && leb c 13)
    || nat_beq c 32
    || nat_beq c 160
    || nat_beq c 0x1680
    || (leb 0x2000 c && leb c 0x200a)
    || nat_beq c 0x2028
    || nat_beq c 0x2029
    || nat_beq c 0x202f
    || nat_beq c 0x205f
    || nat_beq c 0x3000
    || nat_beq c 0xfeff

abbrev pub drop_spaces : Text → Text
drop_spaces [] = []
drop_spaces (c ∷ s) = if is_space c then drop_spaces s else c ∷ s

unfoldable pub trim : Text → Text
trim s = reverse (drop_spaces (reverse (drop_spaces s)))

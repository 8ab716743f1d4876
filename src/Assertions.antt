-- ===== src/Assertions.antt =====
-- backend/src/assertions/engine.ts: amounts in cents, the assertions of a Launch Contract, and the
-- comparison of a challenge's output. An object has its own keys only, and the sign of a zero is
-- not kept.
pub mod Laws
mod Tests
use launch_proof.Shared.{
  ℕ, zero, suc, ◌+◌, ◌*◌, ◌^◌, ◌-◌, ℤ, pos, negsuc, pos_part, neg_part, int_ltb, int_eq, nat_eq,
  list_eq, Bool, true, false, not, ◌&&◌, ◌||◌, ltb, leb, ◌==◌, Text, text, starts_with, is_digit,
  Option, none, some, List, [], ◌∷◌, map, if◌then◌else◌,
}
use launch_proof.Domain.Json.{Json, null, bool, num, str, arr, obj, Fields, end, field, bool_beq}
use launch_proof.Domain.Contract.{Rule, equals, gte, lte, Assertion}
use launch_proof.Domain.Types.{
  Failure, invalid_output, schema_drift, timeout, unsafe_error, FieldComparison,
}

-- `value[name]`; `none` is undefined. The last entry of a key is the one that counts.
abbrev pub get_field : Text → Fields → Option Json
get_field name end = none
get_field name (field k v rest) =
    let later = get_field name rest in
    elim later [ none ↦ if k == name then some v else none | some x ↦ some x ]

-- `path.slice(2)`
abbrev pub field_name : Text → Text
field_name [] = []
field_name (a ∷ []) = []
field_name (a ∷ b ∷ s) = s

abbrev pub field_at : Fields → Text → Option Json
field_at value path = get_field (field_name path) value

abbrev pub negated : ℕ → ℤ
negated zero = pos 0
negated (suc n) = negsuc n

abbrev pub digit_value : ℕ → ℕ
digit_value c = c - b'0'

-- One or two digits after the point.
abbrev pub fraction_cents : ℕ → Text → Option ℕ
fraction_cents whole (a ∷ []) = if is_digit a then some (whole * 100 + digit_value a * 10) else none
fraction_cents whole (a ∷ b ∷ []) =
    if is_digit a && is_digit b
    then some (whole * 100 + (digit_value a * 10 + digit_value b))
    else none
fraction_cents whole _ = none

-- `/^\d+(?:\.\d{1,2})?$/` and its value in cents; `seen` says that a digit was read.
unfoldable pub whole_cents : ℕ → Bool → Text → Option ℕ
whole_cents whole seen [] = if seen then some (whole * 100) else none
whole_cents whole seen (c ∷ s) =
    let rest = whole_cents (whole * 10 + digit_value c) true s in
    if is_digit c then rest else if seen && (c == b'.') then fraction_cents whole s else none

abbrev pub signed_cents : Option ℕ → Option ℤ
signed_cents none = none
signed_cents (some n) = some (negated n)

abbrev pub plain_cents : Option ℕ → Option ℤ
plain_cents none = none
plain_cents (some n) = some (pos n)

abbrev pub text_cents : Text → Option ℤ
text_cents [] = none
text_cents (c ∷ s) =
    if c == b'-'
    then signed_cents (whole_cents 0 false s)
    else plain_cents (whole_cents 0 false (c ∷ s))

-- m times 10 to the power k
abbrev pub scaled : ℤ → ℕ → ℤ
scaled (pos m) k = pos (m * 10 ^ k)
scaled (negsuc m) k = negated (suc m * 10 ^ k)

-- `String(value)` has no exponent below 10 to the 21st, and at most two digits after the point.
abbrev pub number_cents : ℤ → ℕ → Option ℤ
number_cents m k =
    if leb k 2 && ltb (pos_part m) (10 ^ (21 + k)) && ltb (neg_part m) (10 ^ (21 + k))
    then some (scaled m (2 - k))
    else none

unfoldable pub decimal_cents : Option Json → Option ℤ
decimal_cents (some (str s)) = text_cents s
decimal_cents (some (num m k)) = number_cents m k
decimal_cents _ = none

abbrev pub both_equal : Option ℤ → Option ℤ → Bool
both_equal (some a) (some b) = a == b
both_equal _ _ = false

unfoldable pub decimal_equal : Option Json → Option Json → Bool
decimal_equal left right = both_equal (decimal_cents left) (decimal_cents right)

-- `Object.is` of values that were parsed apart: two objects or arrays are never the same one.
unfoldable pub object_is : Option Json → Option Json → Bool
object_is none none = true
object_is (some null) (some null) = true
object_is (some (bool a)) (some (bool b)) = bool_beq a b
object_is (some (num a k)) (some (num b l)) = (a == b) && (k == l)
object_is (some (str a)) (some (str b)) = a == b
object_is _ _ = false

-- `typeof`
pub data Kind : Type 0 where
  undefined_kind object_kind boolean_kind number_kind string_kind : Kind

abbrev pub kind_of : Option Json → Kind
kind_of none = undefined_kind
kind_of (some null) = object_kind
kind_of (some (bool b)) = boolean_kind
kind_of (some (num m k)) = number_kind
kind_of (some (str s)) = string_kind
kind_of (some (arr a)) = object_kind
kind_of (some (obj o)) = object_kind

abbrev pub same_kind : Kind → Kind → Bool
same_kind undefined_kind undefined_kind = true
same_kind object_kind object_kind = true
same_kind boolean_kind boolean_kind = true
same_kind number_kind number_kind = true
same_kind string_kind string_kind = true
same_kind _ _ = false

abbrev pub is_number : Json → Bool
is_number (num m k) = true
is_number _ = false

abbrev pub is_missing : Option Json → Bool
is_missing none = true
is_missing (some v) = false

-- `value ?? null`
abbrev pub or_null : Option Json → Json
or_null none = null
or_null (some v) = v

-- `left >= right` of two numbers
abbrev pub at_least : Option Json → Option Json → Bool
at_least (some (num a k)) (some (num b l)) = not (int_ltb (scaled a l) (scaled b k))
at_least _ _ = false

unfoldable pub holds : Rule → Option Json → Json → Bool
holds equals actual value =
    if is_number value then decimal_equal actual (some value) else object_is actual (some value)
holds gte actual value = at_least actual (some value)
holds lte actual value = at_least (some value) actual

-- The classification of a value that may be drifted.
abbrev pub classified : Bool → Bool → Option Failure
classified true drifted = none
classified false true = some schema_drift
classified false false = some invalid_output

unfoldable pub evaluate_assertion : Fields → Assertion → FieldComparison
evaluate_assertion output assertion =
    let actual = field_at output assertion.path in
    let matched = holds assertion.rule actual assertion.value in
    record {
      path = field_name assertion.path;
      expected = some assertion.value;
      actual = some (or_null actual);
      is_match = matched;
      classification = classified matched (is_missing actual);
    }

unfoldable pub evaluate_assertions : Fields → List Assertion → List FieldComparison
evaluate_assertions output [] = []
evaluate_assertions output (a ∷ rest) =
    evaluate_assertion output a ∷ evaluate_assertions output rest

abbrev pub is_cents : Option Json → Bool
is_cents value = elim (decimal_cents value) [ none ↦ false | some c ↦ true ]

unfoldable pub compare_field : Fields → Fields → Text → FieldComparison
compare_field expected output name =
    let wanted = get_field name expected in
    let actual = get_field name output in
    let is_total = name == text "total" in
    let wrong_type =
      not (is_missing actual)
      && (not (same_kind (kind_of actual) (kind_of wanted)) && not (is_total && is_cents actual)) in
    let matched =
      not (is_missing wanted)
      && (if is_total then decimal_equal wanted actual else object_is wanted actual) in
    record {
      path = name;
      expected = some (or_null wanted);
      actual = some (or_null actual);
      is_match = matched;
      classification = classified matched (is_missing wanted || (is_missing actual || wrong_type));
    }

unfoldable pub compare_challenge : Fields → Fields → List Text → List FieldComparison
compare_challenge expected output [] = []
compare_challenge expected output (name ∷ rest) =
    compare_field expected output name ∷ compare_challenge expected output rest

abbrev pub is_drift : Option Failure → Bool
is_drift (some schema_drift) = true
is_drift _ = false

abbrev pub is_invalid : Option Failure → Bool
is_invalid (some invalid_output) = true
is_invalid _ = false

abbrev pub some_comparison : (Option Failure → Bool) → List FieldComparison → Bool
some_comparison p [] = false
some_comparison p (c ∷ rest) = p c.classification || some_comparison p rest

unfoldable pub overall_classification : List FieldComparison → Option Failure
overall_classification comparisons =
    if some_comparison is_drift comparisons
    then some schema_drift
    else if some_comparison is_invalid comparisons
    then some invalid_output
    else none

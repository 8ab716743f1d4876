-- ===== src/Evidence/Discovery.antt =====
-- `discoverySemantics` of backend/src/evidence/validate.ts, with the reading of a tool's schema. The
-- names that a program inherits from `Object.prototype` lead to no schema, like missing ones.
use launch_proof.Shared.{
  ℕ, ℤ, pos, Bool, true, false, not, ◌&&◌, ◌||◌, ◌==◌, nat_eq, list_eq, int_ltb, length, Text, text,
  Option, none, some, List, [], ◌∷◌, ◌++◌, all, if◌then◌else◌,
}
use launch_proof.Domain.Json.{
  Json, bool, num, str, arr, obj, Items, nil, cons, Fields, end, field, bool_beq,
}
use launch_proof.Domain.Types.{CanonicalEvidence}
use launch_proof.Assertions.{get_field, scaled, at_least}
use launch_proof.Evidence.Policy.{Libraries}
use launch_proof.Evidence.Recompute.{is_text, is_rehearsable}

abbrev pub as_record : Option Json → Option Fields
as_record (some (obj fields)) = some fields
as_record _ = none

abbrev pub field_of : Option Fields → Text → Option Json
field_of none name = none
field_of (some fields) name = get_field name fields

abbrev pub is_bool : Option Json → Bool → Bool
is_bool (some (bool a)) b = bool_beq a b
is_bool _ b = false

abbrev pub is_record : Option Json → Bool
is_record v = elim (as_record v) [ none ↦ false | some f ↦ true ]

-- The texts of an array.
abbrev pub text_items : Items → List Text
text_items nil = []
text_items (cons (str s) rest) = s ∷ text_items rest
text_items (cons v rest) = text_items rest

abbrev pub required_texts : Option Json → List Text
required_texts (some (arr items)) = text_items items
required_texts _ = []

abbrev pub branch_texts : Option Json → List (List Text)
branch_texts (some (arr items)) = text_items items ∷ []
branch_texts _ = []

abbrev pub branches : Items → List (List Text)
branches nil = []
branches (cons v rest) =
    branch_texts (field_of (as_record (some v)) (text "required")) ++ branches rest

abbrev pub any_of_texts : Option Json → List (List Text)
any_of_texts (some (arr items)) = branches items
any_of_texts _ = []

pub record Requirements : Type 0 where
  pub required : List Text
  pub any_of : List (List Text)

unfoldable pub schema_requirements : Fields → Requirements
schema_requirements schema = record {
  required = required_texts (get_field (text "required") schema);
  any_of = any_of_texts (get_field (text "anyOf") schema);
}

abbrev pub is_number_with : (ℤ → ℕ → Bool) → Option Json → Bool
is_number_with p (some (num m k)) = p m k
is_number_with p _ = false

-- `value >= minimum` and `value <= maximum`, where the bound is a number.
abbrev pub above : Option Json → Json → Bool
above (some (num m k)) value = at_least (some value) (some (num m k))
above _ value = true

abbrev pub below : Option Json → Json → Bool
below (some (num m k)) value = at_least (some (num m k)) (some value)
below _ value = true

abbrev pub numeric_bounds_accept : Fields → Json → Bool
numeric_bounds_accept definition value =
    above (get_field (text "minimum") definition) value
    && below (get_field (text "maximum") definition) value

abbrev pub accepts_text : Fields → Json → Bool
accepts_text definition (str s) =
    is_number_with (λ m k. not (int_ltb m (scaled (pos (length s)) k)))
      (get_field (text "maxLength") definition)
accepts_text definition _ = false

-- A number in lowest terms is an integer when it has no digit after the point.
abbrev pub accepts_integer : Fields → Json → Bool
accepts_integer definition (num m k) = k == 0 && numeric_bounds_accept definition (num m k)
accepts_integer definition _ = false

abbrev pub accepts_number : Fields → Json → Bool
accepts_number definition (num m k) = numeric_bounds_accept definition (num m k)
accepts_number definition _ = false

abbrev pub accepts_bool : Json → Bool
accepts_bool (bool b) = true
accepts_bool _ = false

abbrev pub definition_accepts : Fields → Json → Bool
definition_accepts definition value =
    let type = get_field (text "type") definition in
    if is_text type (text "string")
    then accepts_text definition value
    else if is_text type (text "integer")
    then accepts_integer definition value
    else if is_text type (text "number")
    then accepts_number definition value
    else is_text type (text "boolean") && accepts_bool value

unfoldable pub property_accepts : Option Json → Json → Bool
property_accepts property value = elim (as_record property) [
  | none ↦ false
  | some definition ↦ definition_accepts definition value
]

abbrev pub all_accepted : Fields → Fields → Bool
all_accepted properties end = true
all_accepted properties (field name value rest) =
    property_accepts (get_field name properties) value && all_accepted properties rest

-- `Object.hasOwn`
abbrev pub has_own : Fields → Text → Bool
has_own fields name = elim (get_field name fields) [ none ↦ false | some v ↦ true ]

abbrev pub any_branch : Fields → List (List Text) → Bool
any_branch input [] = false
any_branch input (branch ∷ rest) = all (has_own input) branch || any_branch input rest

abbrev pub is_empty_list {ℓ} : {A : Type ℓ} → List A → Bool
is_empty_list [] = true
is_empty_list (x ∷ xs) = false

unfoldable pub schema_accepts : Fields → Fields → Requirements → Bool
unfolding property_accepts
schema_accepts schema input r = elim (as_record (get_field (text "properties") schema)) [
  | none ↦ false
  | some properties ↦
      all_accepted properties input
      && (all (has_own input) r.required && (is_empty_list r.any_of || any_branch input r.any_of))
]

unfoldable pub tool_schema_matches : Fields → Fields → Text → Bool
unfolding schema_accepts schema_requirements
tool_schema_matches schema sample_input challenge_field =
    let r = schema_requirements schema in
    is_text (get_field (text "type") schema) (text "object")
    && (is_bool (get_field (text "additionalProperties") schema) false
        && (is_record (get_field (text "properties") schema)
            && (not (is_empty_list r.required && is_empty_list r.any_of)
                && (schema_accepts schema sample_input r
                    && schema_accepts schema
                        (field challenge_field (str (text "Synthetic bounded invoice")) end) r))))

pub record DiscoveryResult : Type 0 where
  pub is_match : Bool
  pub discoverable : Bool

module _ (libraries : Libraries) where
  abbrev pub declared_schema_matches : Option Fields → Text → Fields → Text → Option Fields → Bool
  declared_schema_matches declared tool sample_input challenge_field none = false
  declared_schema_matches declared tool sample_input challenge_field (some schema) =
      is_text (field_of declared (text "name")) tool
      && (is_text (field_of declared (text "input_schema_hash")) (libraries.hash_schema schema)
          && tool_schema_matches schema sample_input challenge_field)

  abbrev pub tools_capability : Fields → Bool
  tools_capability discovery =
      is_text (get_field (text "protocol_version") discovery) (text "2025-06-18")
      && is_record
          (field_of (as_record (get_field (text "server_capabilities") discovery)) (text "tools"))

  abbrev pub schema_matches : Fields → Text → Fields → Text → Bool
  schema_matches discovery tool sample_input challenge_field =
      let declared = as_record (get_field (text "declared_tool") discovery) in
      declared_schema_matches declared tool sample_input challenge_field
        (as_record (field_of declared (text "input_schema")))

  unfoldable pub discovery_semantics : CanonicalEvidence → Text → Fields → Text → DiscoveryResult
  unfolding tool_schema_matches
  discovery_semantics e tool sample_input challenge_field =
      let capability = tools_capability e.discovery in
      let schema = schema_matches e.discovery tool sample_input challenge_field in
      if not (is_rehearsable e.passport_status)
      then record { is_match = true; discoverable = false }
      else record {
        is_match =
            is_bool (get_field (text "tools_capability") e.discovery) capability
            && is_bool (get_field (text "schema_matches") e.discovery) schema;
        discoverable = capability && schema;
      }

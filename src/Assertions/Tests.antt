-- ===== src/Assertions/Tests.antt =====
-- The model of backend/src/assertions/engine.ts at concrete outputs.
use launch_proof.Domain.Types.{invalid_output}
use launch_proof.Assertions.Laws.{
  overall_classification-evaluate_assertions, overall_classification-compare_challenge, AllMatch,
}
use launch_proof.Assertions.{
  object_is, decimal_equal, compare_field, whole_cents, evaluate_assertions, compare_challenge,
  overall_classification, decimal_cents,
}
use launch_proof.Shared.{
  list_beq, list_beq, list_eq, nat_eq, int_eq, none, some, pos, negsuc, ◌≡◌, refl, ◌↔◌, text, [],
  ◌∷◌,
}
use launch_proof.Domain.Sample.{sample_contract}
use launch_proof.Domain.Json.{Fields, str, num, end, field}

abbrev wanted : Fields
wanted = field (text "currency") (str (text "USD")) (field (text "total") (str (text "12.50")) end)

abbrev answer : Fields
answer = field (text "total") (num (pos 125) 1) (field (text "currency") (str (text "EUR")) end)

cents : decimal_cents (some (str (text "-12.5"))) ≡ some (negsuc 1249)
unfolding decimal_cents whole_cents text
cents = refl

no_cents : decimal_cents (some (str (text "1.234"))) ≡ none
unfolding decimal_cents whole_cents text
no_cents = refl

mismatch :
    overall_classification (compare_challenge wanted answer (text "total" ∷ text "currency" ∷ []))
    ≡ some invalid_output
unfolding overall_classification compare_challenge compare_field decimal_equal decimal_cents
    whole_cents object_is text list_beq
mismatch = refl

overall_classification-compare_challenge_example :
    (overall_classification (compare_challenge wanted answer (text "total" ∷ [])) ≡ none)
    ↔ AllMatch (compare_challenge wanted answer (text "total" ∷ []))
overall_classification-compare_challenge_example =
    overall_classification-compare_challenge wanted answer (text "total" ∷ [])

overall_classification-evaluate_assertions_example :
    (overall_classification (evaluate_assertions answer sample_contract.assertions) ≡ none)
    ↔ AllMatch (evaluate_assertions answer sample_contract.assertions)
overall_classification-evaluate_assertions_example =
    overall_classification-evaluate_assertions answer sample_contract.assertions

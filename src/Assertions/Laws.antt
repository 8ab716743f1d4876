-- ===== src/Assertions/Laws.antt =====
-- What the comparisons of backend/src/assertions/engine.ts promise.
use launch_proof.Shared.{
  Bool, true, false, ◌≡◌, refl, ◌↔◌, ◌⊎◌, Text, none, some, List, [], ◌∷◌, arith, ◌||◌,
}
use launch_proof.Domain.Json.{Fields}
use launch_proof.Domain.Contract.{Assertion}
use launch_proof.Domain.Types.{invalid_output, schema_drift, FieldComparison}
use launch_proof.Assertions.{
  classified, compare_field, compare_challenge, evaluate_assertion, evaluate_assertions,
  some_comparison, is_drift, is_invalid, overall_classification,
}

-- A comparison is classified exactly when it fails, as drifted or as invalid.
abbrev pub IsJudged : FieldComparison → Type 0
IsJudged c =
    ((c.is_match ≡ true) × (c.classification ≡ none))
    ⊎ ((c.is_match ≡ false)
        × ((c.classification ≡ some schema_drift) ⊎ (c.classification ≡ some invalid_output)))

abbrev pub AllJudged : List FieldComparison → Type 0
AllJudged [] = Unit
AllJudged (c ∷ rest) = IsJudged c × AllJudged rest

abbrev pub AllMatch : List FieldComparison → Type 0
AllMatch [] = Unit
AllMatch (c ∷ rest) = (c.is_match ≡ true) × AllMatch rest

classified_cases :
    (m d : Bool)
    → ((m ≡ true) × (classified m d ≡ none))
      ⊎ ((m ≡ false)
          × ((classified m d ≡ some schema_drift) ⊎ (classified m d ≡ some invalid_output)))
classified_cases m d = ground arith

compare_challenge-AllJudged :
    (expected output : Fields) (names : List Text)
    → AllJudged (compare_challenge expected output names)
unfolding compare_challenge compare_field
compare_challenge-AllJudged expected output [] = tt
compare_challenge-AllJudged expected output (name ∷ rest) =
    (classified_cases _ _, compare_challenge-AllJudged expected output rest)

evaluate_assertions-AllJudged :
    (output : Fields) (assertions : List Assertion)
    → AllJudged (evaluate_assertions output assertions)
unfolding evaluate_assertions evaluate_assertion
evaluate_assertions-AllJudged output [] = tt
evaluate_assertions-AllJudged output (a ∷ rest) =
    (classified_cases _ _, evaluate_assertions-AllJudged output rest)

-- Nothing is drifted and nothing is invalid exactly when everything matches.
clean_iff :
    (cs : List FieldComparison)
    → AllJudged cs
    → ((some_comparison is_drift cs || some_comparison is_invalid cs) ≡ false) ↔ AllMatch cs
clean_iff [] h = (λ e. tt, λ e. refl)
clean_iff (c ∷ rest) h = let ih = clean_iff rest h.1 in ground arith

overall_classification_iff :
    (cs : List FieldComparison) → AllJudged cs → (overall_classification cs ≡ none) ↔ AllMatch cs
unfolding overall_classification
overall_classification_iff cs h = let c = clean_iff cs h in ground arith

-- A challenge's output has no classification exactly when every compared field matches.
pub overall_classification-compare_challenge :
    (expected output : Fields) (names : List Text)
    → (overall_classification (compare_challenge expected output names) ≡ none)
      ↔ AllMatch (compare_challenge expected output names)
overall_classification-compare_challenge expected output names =
    overall_classification_iff _ (compare_challenge-AllJudged expected output names)

-- An output has no classification exactly when its comparison with every assertion matches.
pub overall_classification-evaluate_assertions :
    (output : Fields) (assertions : List Assertion)
    → (overall_classification (evaluate_assertions output assertions) ≡ none)
      ↔ AllMatch (evaluate_assertions output assertions)
overall_classification-evaluate_assertions output assertions =
    overall_classification_iff _ (evaluate_assertions-AllJudged output assertions)

-- ===== src/Evidence/Tests.antt =====
-- The model of backend/src/evidence/validate.ts at concrete inputs: a verified run of a fixture.
use launch_proof.Evidence.Sample.{libraries, config, evidence}
use launch_proof.Shared.{
  List, list_beq, all_some, ℕ, refl, some, true, text, [], ◌∷◌, ◌≡◌, list_eq, nat_eq, ◌≤◌, ◌<◌,
  length, leb, ltb, ◌*◌, ◌+ℤ◌, to_lower_case, trim,
}
use launch_proof.Domain.Gates.{passport_status}
use launch_proof.PassportGate.Sample.{small}
use launch_proof.Patterns.{found_from, replace_from, ends}
use launch_proof.Schema.SafeUse.{safe_use_claims_valid}
use launch_proof.Evidence.Recompute.{
  recompute_gates, invocation_semantics_match, paid_delivery_evidence_matches, sorted, observed_p95,
  timing_matches,
}
use launch_proof.Evidence.Discovery.{
  schema_requirements, property_accepts, schema_accepts, tool_schema_matches, discovery_semantics,
}
use launch_proof.Evidence.Payments.{
  format_atomic, launch_matches, target_payment_matches, normalize_manifest_url, strict_public_url,
  configured_fixture_match,
}
use launch_proof.Evidence.Validate.{
  validated, expected_gates, evidence_matches, validate_canonical_evidence,
}
use launch_proof.Evidence.Percentile.{count, observed_p95-IsPercentile}
use launch_proof.Evidence.Laws.{matched_status}
use launch_proof.Evidence.Fixtures.{is_fixture_provider, configured_fixture_match-some}

matches :
    validate_canonical_evidence small libraries config evidence (text "0xA2") 0 ≡ validated true
unfolding validate_canonical_evidence evidence_matches expected_gates recompute_gates
    invocation_semantics_match paid_delivery_evidence_matches sorted observed_p95 timing_matches
    schema_requirements property_accepts schema_accepts tool_schema_matches discovery_semantics
    format_atomic launch_matches target_payment_matches normalize_manifest_url strict_public_url
    configured_fixture_match list_beq all_some safe_use_claims_valid found_from replace_from ends
    passport_status text to_lower_case trim ◌+ℤ◌
matches = refl

matched_status_example :
    (evidence.gates ≡ expected_gates small libraries config evidence)
    × (evidence.passport_status ≡ passport_status evidence.gates true)
matched_status_example = matched_status small libraries config evidence (text "0xA2") 0 matches

abbrev measured : List ℕ
measured = 30 ∷ 10 ∷ 20 ∷ []

observed_p95-IsPercentile_example :
    (19 * length measured ≤ 20 * count (λ v. leb v (observed_p95 measured)) measured)
    × (20 * count (λ v. ltb v (observed_p95 measured)) measured < 19 * length measured)
observed_p95-IsPercentile_example = observed_p95-IsPercentile 30 (10 ∷ 20 ∷ [])

fixture_known :
    configured_fixture_match small config (text "https://moved.example/") (text "0xabc") ≡ some true
unfolding configured_fixture_match normalize_manifest_url text to_lower_case list_beq
fixture_known = refl

configured_fixture_match-some_example : true ≡ is_fixture_provider (text "0xabc") config.fixtures
configured_fixture_match-some_example =
    configured_fixture_match-some small config (text "https://moved.example/") (text "0xabc") true
      fixture_known

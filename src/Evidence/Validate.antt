-- ===== src/Evidence/Validate.antt =====
-- `validateCanonicalEvidence` of backend/src/evidence/validate.ts, of an evidence that the schema has
-- parsed, with its Launch Contract, which parsing leaves as it is.
use launch_proof.Shared.{
  ℕ, ◌*◌, ℤ, pos, ◌+ℤ◌, int_ltb, Bool, true, false, not, ◌&&◌, ◌==◌, nat_eq, list_eq, is_some, Text,
  truthy, Option, none, some, [], if◌then◌else◌,
}
use launch_proof.Domain.Json.{bool_beq}
use launch_proof.Domain.Contract.{LaunchContract, PaymentTerms}
use launch_proof.Domain.Types.{
  Gates, PassportStatus, ExecutionMode, local, testnet, Label, fixture, external, PaymentReference,
  CanonicalEvidence,
}
use launch_proof.Domain.Gates.{is_pass, passport_status}
use launch_proof.PassportGate.Platform.{Url, Platform}
use launch_proof.Schema.SafeUse.{safe_use_claims_valid}
use launch_proof.Evidence.Policy.{EvidenceConfig, Libraries}
use launch_proof.Evidence.Recompute.{
  recompute_gates, is_rehearsable, same_status, same_gates, invocation_semantics_match,
  paid_delivery_evidence_matches, timing_matches, invocations, inputs_of, comparisons_of,
}
use launch_proof.Evidence.Discovery.{DiscoveryResult, discovery_semantics}
use launch_proof.Evidence.Payments.{
  same_lower, launch_matches, target_payment_matches, strict_public_url, configured_fixture_match,
}

-- `unreadable` is `null`; `threw` an error.
pub data Validation : Type 0 where
  unreadable threw : Validation
  validated : Bool → Validation

abbrev pub is_testnet : ExecutionMode → Bool
is_testnet testnet = true
is_testnet local = false

abbrev pub is_fixture_label : Label → Bool
is_fixture_label fixture = true
is_fixture_label external = false

abbrev pub is_set : Option Bool → Bool
is_set (some true) = true
is_set _ = false

-- Five minutes, in milliseconds.
abbrev pub tolerance : ℤ
tolerance = pos 300000

-- `Date.parse(..) <= generatedAt + 5 * 60_000`; NaN is not below.
abbrev pub not_after : Option ℤ → ℤ → Bool
not_after none limit = false
not_after (some t) limit = not (int_ltb (limit +ℤ tolerance) t)

module _ (platform : Platform) (libraries : Libraries) (config : EvidenceConfig) where
  abbrev pub payment_origin : Option PaymentTerms → Url → Option Bool
  payment_origin none target = some true
  payment_origin (some terms) target = elim (platform.parse_url terms.resource_url) [
    | none ↦ none
    | some url ↦ some (same_lower (libraries.origin target) (libraries.origin url))
  ]

  -- `sameProviderOrigin`; `none` is a throw.
  abbrev pub same_provider_origin : LaunchContract → Url → Url → Option Bool
  same_provider_origin manifest target endpoint =
      if same_lower (libraries.origin target) (libraries.origin endpoint)
      then payment_origin manifest.payment target
      else some false

  abbrev pub target_matches : CanonicalEvidence → Bool
  target_matches e =
      target_payment_matches libraries config e.manifest e.target_payment e.launchproof_payment

  abbrev pub paid_delivery_matches : CanonicalEvidence → Bool
  paid_delivery_matches e = paid_delivery_evidence_matches e (target_matches e)

  abbrev pub target_evidence_consistent : CanonicalEvidence → Bool
  target_evidence_consistent e =
      if is_some e.target_payment
      then target_matches e
      else not (is_pass e.gates.paid_delivery) && not (is_some e.paid_delivery)

  abbrev pub discovered : CanonicalEvidence → DiscoveryResult
  discovered e =
      discovery_semantics libraries e e.manifest.tool e.manifest.sample_input
        e.manifest.challenge_profile.input_field

  unfoldable pub expected_gates : CanonicalEvidence → Gates
  unfolding target_payment_matches paid_delivery_evidence_matches recompute_gates
      discovery_semantics
  expected_gates e =
      recompute_gates e e.manifest.payment_mode (paid_delivery_matches e)
        (discovered e).discoverable

  abbrev pub expected_status : CanonicalEvidence → PassportStatus
  expected_status e = passport_status (expected_gates e) (is_rehearsable e.passport_status)

  abbrev pub payment_in_time : ℤ → Option PaymentReference → Bool
  payment_in_time generated_at none = true
  payment_in_time generated_at (some p) = not_after (platform.parse_date p.timestamp) generated_at

  abbrev pub hash_material_matches : CanonicalEvidence → Bool
  hash_material_matches e =
      let normal_run = is_rehearsable e.passport_status in
      libraries.jcs_inputs e.inputs
        == libraries.jcs_inputs (if normal_run then inputs_of (invocations e) else [])
      && libraries.jcs_comparisons e.normalized_comparisons
        == libraries.jcs_comparisons (if normal_run then comparisons_of (invocations e) else [])

  -- The conditions on the run, its times and its provider.
  abbrev pub context_matches : CanonicalEvidence → Text → ℕ → ℤ → Bool → Bool → Bool
  context_matches e run_id anchored_at generated_at same_origin fixture_match =
      same_lower e.run_id run_id
      && (e.network == config.network
          && (is_testnet e.execution_mode
              && (not_after (some generated_at) (pos (anchored_at * 1000))
                  && (not_after (platform.parse_date e.launchproof_payment.timestamp) generated_at
                      && (payment_in_time generated_at e.target_payment
                          && (same_origin
                              && ((discovered e).is_match
                                  && (same_lower e.manifest.source_revision e.source_revision
                                      && (same_lower e.provider_declaration.provider_address
                                            e.manifest.provider_address
                                          && (same_lower e.provider_declaration.manifest_hash (
                                                libraries.hash_manifest (record e.manifest {
                                                  declaration_signature = none;
                                                }))
                                              && (if is_fixture_label e.label
                                                  then fixture_match && is_set e.manifest.fixture
                                                  else not (is_set e.manifest.fixture))))))))))))

  -- The conditions on what the run has shown.
  abbrev pub outcome_matches : CanonicalEvidence → Bool
  outcome_matches e =
      launch_matches config (is_some (truthy e.previous_run_id)) e.launchproof_payment
      && (target_evidence_consistent e
          && (bool_beq (paid_delivery_matches e) (is_pass e.gates.paid_delivery)
              && (same_gates e.gates (expected_gates e)
                  && (same_status e.passport_status (expected_status e)
                      && (hash_material_matches e
                          && (timing_matches e (is_rehearsable e.passport_status)
                              && (invocation_semantics_match e (is_rehearsable e.passport_status)
                                  && safe_use_claims_valid e.manifest.safe_use)))))))

  unfoldable pub evidence_matches : CanonicalEvidence → Text → ℕ → ℤ → Bool → Bool → Bool
  unfolding expected_gates target_payment_matches paid_delivery_evidence_matches discovery_semantics
      launch_matches
  evidence_matches e run_id anchored_at generated_at same_origin fixture_match =
      context_matches e run_id anchored_at generated_at same_origin fixture_match
      && outcome_matches e

  abbrev pub judged : CanonicalEvidence → Text → ℕ → ℤ → Option Bool → Option Bool → Validation
  judged e run_id anchored_at generated_at (some same_origin) (some fixture_match) =
      validated (evidence_matches e run_id anchored_at generated_at same_origin fixture_match)
  judged e run_id anchored_at generated_at _ _ = threw

  abbrev pub located :
      CanonicalEvidence → Text → ℕ → Option Url → Option Url → Option ℤ → Validation
  located e run_id anchored_at (some target) (some endpoint) (some generated_at) =
      judged e run_id anchored_at generated_at (same_provider_origin e.manifest target endpoint)
        (configured_fixture_match platform config e.target e.manifest.provider_address)
  located e run_id anchored_at _ _ _ = unreadable

  unfoldable pub validate_canonical_evidence : CanonicalEvidence → Text → ℕ → Validation
  unfolding strict_public_url evidence_matches configured_fixture_match
  validate_canonical_evidence e run_id anchored_at =
      located e run_id anchored_at (strict_public_url platform e.target)
        (strict_public_url platform e.manifest.mcp_endpoint) (platform.parse_date e.generated_at)

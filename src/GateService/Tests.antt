-- ===== src/GateService/Tests.antt =====
-- The model of backend/src/passport-gate/service.ts at concrete inputs: a run index with one run.
use launch_proof.GateService.Sample.{service_config, hashing, world, request}
use launch_proof.PassportGate.Primitives.{
  make_contract_identity, normalize_source_revision, normalize_bytes32, normalize_address,
  is_public_literal_address, is_local_hostname, checked_url, normalize_public_https_url,
}
use launch_proof.PassportGate.Validation.{
  normalize_base_url, validate_thresholds, parse_observed_at, validate_passport_gate_request,
  validate_passport_gate_config,
}
use launch_proof.PassportGate.Engine.{evidence_view, safe_current_identity}
use launch_proof.PassportGate.Settlement.{
  hashes_match, addresses_match, failures_of, settlement_failures,
}
use launch_proof.PassportGate.Evaluation.{
  decision, freshness_from, passport_failures, judge_age, judge_failures, judge_checks,
  judge_identity, judge_passport, judge_current, evaluate_contract, evaluate_available,
  evaluate_passport_gate,
}
use launch_proof.GateService.Proof.{
  manifest_signing_body, payment_reference, expectation_of, settlement_proof,
  proof_from_verification,
}
use launch_proof.Shared.{
  ◌-ℤ◌, ◌+ℤ◌, list_beq, all_some, all_exactly, trim, to_lower_case, unique, Text, refl, some, text,
  true, ◌≡◌, list_eq, nat_eq,
}
use launch_proof.Domain.Contract.{LaunchContract}
use launch_proof.PassportGate.Sample.{small, sample_config}
use launch_proof.PassportGate.Types.{CurrentLaunchContractProof, allow}
use launch_proof.GateService.World.{loaded}
use launch_proof.GateService.Request.{is_request}
use launch_proof.GateService.Check.{
  newest_of, unavailable_check, same_target, normalize_launch_contract_url, check,
}
use launch_proof.GateService.Confirmed.{decision_in}
use launch_proof.GateService.Target.{IsNormalOf, IsPublicOf}
use launch_proof.GateService.Laws.{check_accepts, IsChecked}

accepted : decision_in (check small hashing service_config sample_config world request) ≡ some allow
unfolding decision evidence_view check is_request normalize_launch_contract_url same_target
    unavailable_check newest_of proof_from_verification settlement_proof expectation_of
    payment_reference manifest_signing_body evaluate_passport_gate evaluate_available
    evaluate_contract judge_current judge_passport judge_identity judge_checks judge_failures
    judge_age passport_failures freshness_from settlement_failures failures_of addresses_match
    hashes_match safe_current_identity unique validate_passport_gate_config
    validate_passport_gate_request parse_observed_at validate_thresholds normalize_base_url
    normalize_public_https_url checked_url is_local_hostname is_public_literal_address
    normalize_address normalize_bytes32 normalize_source_revision make_contract_identity
    to_lower_case trim all_exactly all_some text list_beq ◌+ℤ◌ ◌-ℤ◌
accepted = refl

check_accepts_example :
    (is_request request ≡ true)
    × ((normal : Text) × (url : Text) × (now : CurrentLaunchContractProof)
        × (manifest : LaunchContract) × IsNormalOf small request.launch_contract_url normal
        × IsPublicOf small normal url
        × (world.load_contract url ≡ loaded now (some manifest))
        × IsChecked small hashing service_config sample_config world allow refl url now manifest)
check_accepts_example =
    check_accepts small hashing service_config sample_config world allow refl request accepted

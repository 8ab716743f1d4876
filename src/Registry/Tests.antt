-- ===== src/Registry/Tests.antt =====
-- The model of backend/src/chain/registry.ts at concrete inputs: a chain with one published run, and
-- the service of the gate over it.
use launch_proof.Shared.{
  ℕ, ◌*◌, leb, refl, none, some, true, Text, text, [], ◌∷◌, ◌≡◌, list_eq, nat_eq, arith, ◌&&◌, ◌+ℤ◌,
  ◌-ℤ◌, to_lower_case, trim, all_exactly, all_some, list_beq, unique,
}
use launch_proof.Domain.Json.{str, Fields, end, field}
use launch_proof.Domain.Sample.{sample_contract, sample_provider, sample_run}
use launch_proof.Domain.Types.{CanonicalEvidence, RunRecord}
use launch_proof.Domain.Contract.{LaunchContract}
use launch_proof.Domain.Gates.{gate_bitmap, state_bits, passport_status, contract_status}
use launch_proof.PassportGate.Platform.{Platform}
use launch_proof.PassportGate.Sample.{small, hash, sample_config}
use launch_proof.PassportGate.Types.{allow, CurrentLaunchContractProof, PassportGateConfig}
use launch_proof.PassportGate.Evaluation.{
  decision, freshness_from, judge_age, judge_failures, judge_checks, judge_identity, judge_passport,
  judge_current, evaluate_contract, evaluate_available, passport_failures, evaluate_passport_gate,
}
use launch_proof.PassportGate.Settlement.{
  hashes_match, addresses_match, failures_of, settlement_failures,
}
use launch_proof.PassportGate.Engine.{evidence_view, safe_current_identity}
use launch_proof.PassportGate.Validation.{
  normalize_base_url, validate_thresholds, parse_observed_at, validate_passport_gate_request,
  validate_passport_gate_config,
}
use launch_proof.PassportGate.Primitives.{
  make_contract_identity, normalize_source_revision, normalize_bytes32, normalize_address,
  is_public_literal_address, is_local_hostname, checked_url, normalize_public_https_url,
}
use launch_proof.PassportGate.Amounts.{digits_before}
use launch_proof.GateService.World.{World, ServiceConfig, RegistryVerification, loaded}
use launch_proof.GateService.Sample.{service_config, hashing, world, request, verification, current}
use launch_proof.GateService.Proof.{
  payment_reference, expectation_of, settlement_proof, proof_from_verification,
  manifest_signing_body,
}
use launch_proof.GateService.Request.{is_request}
use launch_proof.GateService.Check.{
  check, normalize_launch_contract_url, same_target, unavailable_check, newest_of,
}
use launch_proof.GateService.Confirmed.{decision_in}
use launch_proof.Patterns.{found_from, replace_from, ends}
use launch_proof.Schema.SafeUse.{safe_use_claims_valid}
use launch_proof.Evidence.Recompute.{
  recompute_gates, invocation_semantics_match, paid_delivery_evidence_matches, sorted, observed_p95,
  timing_matches,
}
use launch_proof.Evidence.Discovery.{
  schema_requirements, property_accepts, schema_accepts, tool_schema_matches, discovery_semantics,
}
use launch_proof.Evidence.Payments.{
  format_atomic, launch_matches, target_payment_matches, normalize_manifest_url, strict_public_url,
  configured_fixture_match,
}
use launch_proof.Evidence.Validate.{expected_gates, evidence_matches, validate_canonical_evidence}
use launch_proof.Evidence.Sample.{libraries, config, own_payment, paid, delivery, evidence}
use launch_proof.Registry.Client.{
  answer, StoredChainRecord, ChainLog, Client, Digests, RegistryConfig,
}
use launch_proof.Registry.Search.{first_block_at_or_after, search, at_block, block_ranges}
use launch_proof.Registry.Ranges.{first_block_at_or_after-IsFirst, IsFirst}
use launch_proof.Registry.Ranges.{times_covered, one_if, block_ranges-covers}
use launch_proof.Registry.Match.{
  runtime_bytecode_matches, chain_record_matches_event, cache_matches_loaded, declaration_matches,
  is_missing_transaction_receipt, payment_transfer_matches, record_from_chain,
}
use launch_proof.Registry.Verify.{verify_strict}
use launch_proof.Registry.Load.{load}
use launch_proof.Registry.Logs.{logs_from_receipt, logs_at_anchored_timestamp}
use launch_proof.Registry.Laws.{IsAnchored, verify_strict-IsAnchored}
use launch_proof.GateService.Target.{IsNormalOf, IsPublicOf}
use launch_proof.Registry.Gate.{with_registry, HasAnchor, check_accepts-IsAnchored}

abbrev platform : Platform
platform = record small { iso_string = λ time. text "12" }

abbrev second_hash : Text
second_hash = text "0x1123456789abcdef0123456789abcdef0123456789abcdef0123456789abcdef"

abbrev named : Fields
named =
    field (text "run_id") (str hash)
      (field (text "source_revision") (str (text "0123456789012345678901234567890123456789")) end)

abbrev anchored : CanonicalEvidence
anchored = record evidence {
  run_id = hash;
  paid_delivery = some (record delivery { expected = some named; output = some named });
  provider_declaration = record sample_provider {
    manifest_hash = hash;
    signature = some (text "0x1");
  };
  launchproof_payment = record own_payment {
    payment_id = hash;
    settlement_transaction = some hash;
  };
  target_payment =
      some (record paid { payment_id = second_hash; settlement_transaction = some second_hash });
}

abbrev stored : StoredChainRecord
stored = record {
  evidence_hash = hash;
  manifest_hash = hash;
  input_hash = hash;
  normalized_result_hash = hash;
  source_revision_hash = hash;
  payment_receipt_hash = hash;
  previous_run_id = text "0x0000000000000000000000000000000000000000000000000000000000000000";
  provider = text "0xABC";
  anchored_by = text "0x1";
  anchored_at = 1;
  gate_bitmap = 341;
  status = 2;
  provider_signature_verified = true;
  is_fixture = true;
}

abbrev published_log : ChainLog
published_log = record {
  address = text "0xDEF";
  published = some (record { run_id = hash; fields = stored; canonical_evidence = text "0x7b7d" });
  transfer = none;
  transaction_hash = some hash;
  block_number = some 7;
}

abbrev transfer_log : ℕ → ChainLog
transfer_log value = record {
  address = text "0xCC";
  published = none;
  transfer = some (record { sender = text "0xDD"; recipient = text "0xEE"; value = value });
  transaction_hash = some hash;
  block_number = some 7;
}

abbrev client : Client
client = record {
  get_run = λ run_id. answer stored;
  get_code = answer (some (text "0x60"));
  get_receipt = λ transaction. answer (record {
    success = true;
    block_number = 7;
    logs = published_log ∷ transfer_log 10000 ∷ transfer_log 1000 ∷ [];
  });
  get_block_number = answer 9;
  get_block_time = λ n. answer 1;
  get_logs = λ run_id first last. answer (published_log ∷ []);
}

abbrev digests : Digests
digests = record {
  sha256 = λ t. hash;
  keccak256 = λ t. hash;
  hash_inputs = λ i. hash;
  hash_comparisons = λ c. hash;
  hash_payment = λ p. hash;
  jcs_evidence = λ e. text "{}";
  hex_to_string = λ t. some (text "{}");
  parse_evidence = λ t. some anchored;
  verify_message = λ a h s. some true;
}

abbrev registry : RegistryConfig
registry = record {
  registry_address = some (text "0xdef");
  has_rpc_url = true;
  runtime_code_hash = some hash;
  deployment_block = 0;
  explorer_url = text "https://explorer.example";
}

-- The verification of a run that no cache knows, found by its time.
abbrev verified_run : RegistryVerification
verified_run = record verification {
  target_payment_transfer_match = some true;
  cache_match = none;
  anchored_at = some (text "12");
  canonical_evidence = some anchored;
}

verifies :
    verify_strict platform libraries config digests registry client hash none ≡ answer verified_run
unfolding verify_strict load logs_at_anchored_timestamp logs_from_receipt first_block_at_or_after
    search runtime_bytecode_matches chain_record_matches_event cache_matches_loaded
    declaration_matches is_missing_transaction_receipt payment_transfer_matches record_from_chain
    gate_bitmap state_bits passport_status contract_status manifest_signing_body digits_before
    validate_canonical_evidence evidence_matches expected_gates recompute_gates
    invocation_semantics_match paid_delivery_evidence_matches sorted observed_p95 timing_matches
    schema_requirements property_accepts schema_accepts tool_schema_matches discovery_semantics
    format_atomic launch_matches target_payment_matches normalize_manifest_url strict_public_url
    configured_fixture_match list_beq all_some all_exactly safe_use_claims_valid found_from
    replace_from ends text to_lower_case trim ◌+ℤ◌
verifies = refl

verify_strict-IsAnchored_example :
    IsAnchored platform libraries config digests registry client hash none verified_run
verify_strict-IsAnchored_example =
    verify_strict-IsAnchored platform libraries config digests registry client hash none
      verified_run verifies refl

first_block_at_or_after-IsFirst_example :
    (b : ℕ) × (first_block_at_or_after (λ n. answer (2 * n)) 7 1 9 ≡ at_block b)
    × IsFirst (λ n. 2 * n) 7 1 10 b
first_block_at_or_after-IsFirst_example =
    first_block_at_or_after-IsFirst (λ n. 2 * n) (λ m n h. omega arith) 7 1 9 (omega arith)

block_ranges-covers_example :
    times_covered 250 (block_ranges 1 400) ≡ one_if (leb 1 250 && leb 250 400)
block_ranges-covers_example = block_ranges-covers 1 400 250

abbrev anchored_run : RunRecord
anchored_run = record sample_run {
  run_id = hash;
  canonical_evidence = anchored;
  canonical_evidence_jcs = text "{}";
  evidence_hash = hash;
  manifest_hash = hash;
  input_hash = hash;
  normalized_result_hash = hash;
  chain = record {
    registry_address = text "0xdef";
    evidence_transaction_hash = hash;
    block_number = text "7";
    explorer_url = text "https://explorer.example";
    published = true;
  };
}

abbrev current_contract : CurrentLaunchContractProof
current_contract = record current {
  provider_address = text "0xabc";
  source_revision = text "0123456789012345678901234567890123456789";
}

abbrev indexed_world : World
indexed_world = record world {
  load_contract = λ url. loaded current_contract (some sample_contract);
  index_of = λ url provider. some (anchored_run ∷ []);
}

abbrev token_config : ServiceConfig
token_config = record service_config { usdt0_address = text "0xCC" }

abbrev token_gate : PassportGateConfig
token_gate = record sample_config { asset_address = text "0xcc" }

accepts :
    decision_in (
      check platform hashing token_config token_gate
        (with_registry platform libraries config digests registry client indexed_world)
        request)
    ≡ some allow
unfolding decision evidence_view check is_request normalize_launch_contract_url same_target
    unavailable_check newest_of proof_from_verification settlement_proof expectation_of
    payment_reference evaluate_passport_gate evaluate_available evaluate_contract judge_current
    judge_passport judge_identity judge_checks judge_failures judge_age passport_failures
    freshness_from settlement_failures failures_of addresses_match hashes_match
    safe_current_identity unique validate_passport_gate_config validate_passport_gate_request
    parse_observed_at validate_thresholds normalize_base_url normalize_public_https_url checked_url
    is_local_hostname is_public_literal_address normalize_address normalize_bytes32
    normalize_source_revision make_contract_identity ◌-ℤ◌ verify_strict load
    logs_at_anchored_timestamp logs_from_receipt first_block_at_or_after search
    runtime_bytecode_matches chain_record_matches_event cache_matches_loaded declaration_matches
    is_missing_transaction_receipt payment_transfer_matches record_from_chain gate_bitmap state_bits
    passport_status contract_status manifest_signing_body digits_before validate_canonical_evidence
    evidence_matches expected_gates recompute_gates invocation_semantics_match
    paid_delivery_evidence_matches sorted observed_p95 timing_matches schema_requirements
    property_accepts schema_accepts tool_schema_matches discovery_semantics format_atomic
    launch_matches target_payment_matches normalize_manifest_url strict_public_url
    configured_fixture_match list_beq all_some all_exactly safe_use_claims_valid found_from
    replace_from ends text to_lower_case trim ◌+ℤ◌
accepts = refl

check_accepts-IsAnchored_example :
    (normal : Text) × (url : Text) × (now : CurrentLaunchContractProof)
    × (manifest : LaunchContract) × IsNormalOf platform request.launch_contract_url normal
    × IsPublicOf platform normal url
    × (indexed_world.load_contract url ≡ loaded now (some manifest))
    × HasAnchor platform libraries config digests registry client indexed_world url
        manifest.provider_address
check_accepts-IsAnchored_example =
    check_accepts-IsAnchored platform libraries config digests registry client hashing token_config
      token_gate indexed_world allow refl request accepts

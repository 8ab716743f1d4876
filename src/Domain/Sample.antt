-- ===== src/Domain/Sample.antt =====
-- A run of a fixture with every gate passed, for the tests.
use launch_proof.Shared.{text, none, some, [], ◌∷◌, true}
use launch_proof.Domain.Json.{str, end, field}
use launch_proof.Domain.Contract.{LaunchContract, equals, x402_optional}
use launch_proof.Domain.Types.{
  Gates, pass, verified, fixture, testnet, InvocationKind, InvocationEvidence, FieldComparison,
  PaymentReference, launchproof, settled, complete, VerificationState, ProviderDeclaration,
  CanonicalEvidence, RunRecord,
}

abbrev pub sample_gates : Gates
sample_gates = record {
  discoverable = pass;
  contract_correct = pass;
  fresh_challenge = pass;
  safe_to_rehearse = pass;
  paid_delivery = pass;
}

abbrev pub sample_payment : PaymentReference
sample_payment = record {
  payment_id = text "0xF1";
  kind = launchproof;
  amount = text "10000";
  amount_atomic = text "10000";
  amount_display = text "0.01";
  asset_decimals = 6;
  asset = text "0xcc";
  network = text "eip155:1952";
  payer = some (text "0xdd");
  recipient = some (text "0xee");
  route = text "/api/rehearsals";
  settlement_transaction = some (text "0xF1");
  status = settled;
  timestamp = text "2026-07-19T01:00:02.000Z";
}

abbrev pub sample_contract : LaunchContract
sample_contract = record {
  contract_version = text "1.0";
  service_name = text "Invoice normalizer";
  mcp_endpoint = text "https://fixture.example/mcp";
  tool = text "normalize_invoice";
  mode = text "sample_only";
  sample_input = field (text "document") (str (text "Invoice A-1")) end;
  assertions = record { path = text "$.currency"; rule = equals; value = str (text "USD") } ∷ [];
  max_latency_ms = 5000;
  delivery_type = text "synchronous_json";
  payment_mode = x402_optional;
  payment = some (record {
    network = text "eip155:1952";
    asset = text "0xcc";
    amount = text "1000";
    recipient = text "0xee";
    resource_url = text "https://fixture.example/paid";
  });
  safe_use = text "read-only synthetic data, no credentials, no side effects" ∷ [];
  source_revision = text "0123456789012345678901234567890123456789";
  challenge_profile = record {
    name = text "structured-extraction-v1";
    tool = text "normalize_invoice";
    input_field = text "document";
    output_fields = text "document_id" ∷ text "currency" ∷ text "total" ∷ text "due_date" ∷ [];
    challenge_runs = 3;
    max_latency_ms_per_run = 5000;
    safe_mode = text "synthetic_read_only";
  };
  provider_address = text "0xabc";
  declaration_signature = none;
  fixture = some true;
}

abbrev pub sample_comparison : FieldComparison
sample_comparison = record {
  path = text "currency";
  expected = some (str (text "USD"));
  actual = some (str (text "USD"));
  is_match = true;
  classification = none;
}

abbrev pub sample_invocation : InvocationEvidence
sample_invocation = record {
  kind = InvocationKind.fixed_sample;
  index = 0;
  input = field (text "document") (str (text "Invoice A-1")) end;
  expected = none;
  output = some (field (text "currency") (str (text "USD")) end);
  comparisons = sample_comparison ∷ [];
  structured_error = none;
  latency_ms = 20;
  classification = none;
}

abbrev pub sample_error : InvocationEvidence
sample_error = record {
  kind = InvocationKind.invalid_input;
  index = 0;
  input = end;
  expected = none;
  output = none;
  comparisons = [];
  structured_error = some (record { code = str (text "TOOL_ERROR"); message = text "bad input" });
  latency_ms = 10;
  classification = none;
}

abbrev pub sample_provider : ProviderDeclaration
sample_provider = record {
  provider_address = text "0xabc";
  manifest_hash = text "0x01";
  signature = none;
  verification_state = VerificationState.verified;
}

abbrev pub sample_evidence : CanonicalEvidence
sample_evidence = record {
  schema_version = text "1.0";
  run_id = text "0xa2";
  target = text "https://fixture.example/.well-known/launch-contract.json";
  label = fixture;
  network = text "eip155:1952";
  execution_mode = testnet;
  generated_at = text "2026-07-19T01:00:05.000Z";
  manifest = sample_contract;
  discovery = end;
  fixed_sample = sample_invocation;
  invalid_input = sample_error;
  challenges = [];
  paid_delivery = none;
  timings = record { invocation_ms = 20 ∷ 10 ∷ []; total_ms = 30; observed_p95_ms = 20 };
  gates = sample_gates;
  passport_status = verified;
  provider_declaration = sample_provider;
  launchproof_payment = sample_payment;
  target_payment = none;
  inputs = [];
  normalized_comparisons = sample_comparison ∷ [];
  source_revision = text "0123456789012345678901234567890123456789";
  build_commit = text "0123456789012345678901234567890123456789";
  previous_run_id = none;
  remediation = [];
  limitations = text "testnet only" ∷ [];
}

abbrev pub sample_run : RunRecord
sample_run = record {
  run_id = text "0xa2";
  idempotency_key = text "key-2";
  state = complete;
  previous_run_id = none;
  label = fixture;
  scope = text "structured-extraction-v1 only";
  passport_status = verified;
  gates = sample_gates;
  canonical_evidence = sample_evidence;
  canonical_evidence_jcs = text "{}";
  evidence_hash = text "0x02";
  manifest_hash = text "0x01";
  input_hash = text "0x03";
  normalized_result_hash = text "0x04";
  source_version_sha = text "0123456789012345678901234567890123456789";
  build_commit_sha = text "0123456789012345678901234567890123456789";
  generated_at = text "2026-07-19T01:00:05.000Z";
  provider_declaration = sample_provider;
  payment = sample_payment;
  target_payment = none;
  chain = record {
    registry_address = text "0xdef";
    evidence_transaction_hash = text "0x05";
    block_number = text "7";
    explorer_url = text "https://explorer.example";
    published = true;
  };
  remediation = [];
  limitations = text "testnet only" ∷ [];
}

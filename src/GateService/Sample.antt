-- ===== src/GateService/Sample.antt =====
-- A run index with one run, for the tests.
use launch_proof.Shared.{none, some, true, false, pos, text, [], ◌∷◌, list_eq, nat_eq}
use launch_proof.Domain.Sample.{
  sample_payment, sample_contract, sample_provider, sample_evidence, sample_run,
}
use launch_proof.Domain.Types.{CanonicalEvidence, RunRecord, PaymentReference}
use launch_proof.PassportGate.Sample.{hash, revision, sample_input}
use launch_proof.PassportGate.Types.{CurrentLaunchContractProof, PassportGateRequest, millis}
use launch_proof.GateService.World.{
  ServiceConfig, Hashing, RegistryVerification, done, loaded, World,
}

abbrev pub service_config : ServiceConfig
service_config = record {
  chain_id = 1952;
  network = text "eip155:1952";
  usdt0_address = text "0xaa";
  usdt0_decimals = 6;
  warn_age_hours = millis (pos 3);
  max_age_hours = millis (pos 6);
  explorer_url = text "https://explorer.example/";
  public_web_base_url = text "https://passport.example/";
  is_production = false;
  payout_address = none;
  chain_ready = true;
}

abbrev pub hashing : Hashing
hashing = record {
  hash_manifest = λ m. hash;
  hash_evidence = λ e. hash;
  hash_inputs = λ i. hash;
  hash_comparisons = λ c. hash;
}

abbrev pub inbound_payment : PaymentReference
inbound_payment = record sample_payment {
  asset = text "0xaa";
  settlement_transaction = some hash;
  timestamp = text "12";
}

abbrev pub outbound_payment : PaymentReference
outbound_payment = record inbound_payment { amount_atomic = text "1000" }

abbrev pub evidence : CanonicalEvidence
evidence = record sample_evidence {
  target = text "https://shop.example/contract.json";
  provider_declaration = record sample_provider { provider_address = text "0xcc" };
  source_revision = revision;
  launchproof_payment = inbound_payment;
  target_payment = some outbound_payment;
}

abbrev pub run : RunRecord
run = record sample_run { canonical_evidence = evidence }

abbrev pub verification : RegistryVerification
verification = record {
  chain_record_found = true;
  evidence_hash_match = true;
  canonical_jcs_match = true;
  manifest_hash_match = true;
  input_hash_match = true;
  result_hash_match = true;
  provider_signature_match = true;
  gate_status_match = true;
  storage_match = true;
  link_fields_match = true;
  evidence_semantics_match = true;
  launch_payment_transfer_match = true;
  target_payment_transfer_match = some true;
  registry_runtime_match = true;
  cache_match = some true;
  is_match = true;
  transaction_hash = some hash;
  block_number = some (text "7");
  anchored_at = some (text "12");
  canonical_evidence = some evidence;
}

abbrev pub current : CurrentLaunchContractProof
current = record {
  launch_contract_url = text "https://shop.example/contract.json";
  manifest_hash = hash;
  provider_address = text "0xcc";
  source_revision = revision;
  schema_valid = true;
  signature_valid = true;
  manifest_hash_valid = true;
  safe_fetch_verified = true;
}

abbrev pub world : World
world = record {
  now = text "1234";
  load_contract = λ url. loaded current (some sample_contract);
  assert_available = done tt;
  index_of = λ url provider. some (run ∷ []);
  verify_strict = λ r. done verification;
}

abbrev pub request : PassportGateRequest
request = record sample_input.request { expected_provider_address = none }

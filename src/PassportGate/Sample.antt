-- ===== src/PassportGate/Sample.antt =====
-- A small platform that stands for the runtime in the tests: it parses https URLs of one host, and
-- reads a time off the number of its digits. An input that packages/passport-gate lets through.
use launch_proof.PassportGate.Platform.{Url, Platform}
use launch_proof.Shared.{
  ◌++◌, starts_with, [], text, if◌then◌else◌, Text, none, some, pos, true, false, length, is_digit,
  all_some,
}
use launch_proof.PassportGate.Types.{
  SettlementReference, SettlementProof, PassportProof, PassportGateEvaluationInput,
  PassportGateConfig, verified, millis,
}

abbrev pub host : Url
host = record {
  protocol = text "https:";
  username = [];
  password = [];
  hostname = text "shop.example";
  port = [];
  pathname = text "/contract.json";
  search = [];
  fragment = [];
}

abbrev pub small : Platform
small = record {
  parse_url = λ value. if starts_with (text "https:") value then some host else none;
  href = λ url. text "https://" ++ (url.hostname ++ url.pathname);
  is_ip = λ value. false;
  is_unicast = λ value. true;
  is_address = λ value. starts_with (text "0x") value;
  get_address = λ value. value;
  hash_identity = λ material. material.manifest_hash;
  parse_date = λ value. if all_some is_digit value then some (pos (length value)) else none;
  iso_string = λ time. text "2026-07-19T01:00:02.000Z";
  encode_uri_component = λ value. some value;
  rehearse_url = λ base query. base ++ text "rehearse";
}

abbrev pub hash : Text
hash = text "0x0123456789abcdef0123456789abcdef0123456789abcdef0123456789abcdef"

abbrev pub revision : Text
revision = text "0123456789abcdef0123456789abcdef01234567"

abbrev pub sample_reference : SettlementReference
sample_reference = record {
  payment_id = text "p";
  network = text "eip155:1952";
  asset = text "0xAA";
  amount_atomic = text "1000";
  asset_decimals = pos 6;
  payer = text "0xbb";
  recipient = text "0xcc";
  transaction_hash = hash;
  block_timestamp = text "12";
}

abbrev pub sample_settlement : SettlementProof
sample_settlement = record {
  expected = record {
    payment_id = some (text "p");
    network = text "eip155:1952";
    asset = text "0xaa";
    amount_atomic = text "1000";
    asset_decimals = pos 6;
    payer = some (text "0xBB");
    recipient = text "0xcc";
    transaction_hash = some hash;
    block_timestamp = some (text "12");
  };
  reference = some sample_reference;
  present = true;
  receipt_success = true;
  independently_verified = true;
}

abbrev pub sample_config : PassportGateConfig
sample_config = record {
  chain_id = 1952;
  network = text "eip155:1952";
  asset_address = text "0xaa";
  asset_decimals = pos 6;
  default_warn_age_hours = millis (pos 3);
  default_max_age_hours = millis (pos 6);
  explorer_base_url = text "https://explorer.example/";
  passport_base_url = text "https://passport.example/";
  rehearsal_base_url = text "https://rehearse.example/";
  deployment_mode = none;
}

abbrev pub sample_passport : PassportProof
sample_passport = record {
  run_id = text "0xa2";
  status = verified;
  identity = record {
    launch_contract_url = text "https://shop.example/contract.json";
    manifest_hash = hash;
    provider_address = text "0xcc";
    source_revision = revision;
    identity_hash = hash;
  };
  anchored_block_timestamp = text "12";
  gates = record {
    discoverable = true;
    contract_correct = true;
    fresh_challenge = true;
    safe_to_rehearse = true;
    paid_delivery = true;
  };
  verification = record {
    chain_record_found = true;
    canonical_evidence_match = true;
    evidence_hash_match = true;
    manifest_hash_match = true;
    input_hash_match = true;
    result_hash_match = true;
    provider_signature_match = true;
    contract_identity_match = true;
    source_revision_match = true;
    registry_runtime_match = true;
    event_storage_match = true;
    publication_transaction_match = true;
    independently_verified = true;
  };
  database_chain_match = true;
  inbound_settlement = sample_settlement;
  provider_settlement = sample_settlement;
  publication_transaction_hash = hash;
  evidence_hash = hash;
  manifest_hash = hash;
  input_hash = hash;
  result_hash = hash;
}

abbrev pub sample_input : PassportGateEvaluationInput
sample_input = record {
  request = record {
    launch_contract_url = text "https://shop.example/contract.json";
    warn_age_hours = none;
    max_age_hours = none;
    expected_provider_address = some (text "0xCC");
    expected_source_revision = none;
  };
  config = sample_config;
  observed_at = text "1234";
  current_contract = some (record {
    launch_contract_url = text "https://shop.example/contract.json";
    manifest_hash = hash;
    provider_address = text "0xcc";
    source_revision = revision;
    schema_valid = true;
    signature_valid = true;
    manifest_hash_valid = true;
    safe_fetch_verified = true;
  });
  newest_relevant_passport = some sample_passport;
  operational_failure = none;
}

-- ===== src/PassportGate/Tests.antt =====
-- The model of packages/passport-gate at concrete inputs.
use launch_proof.PassportGate.Sample.{
  small, sample_settlement, sample_config, sample_passport, sample_input,
}
use launch_proof.PassportGate.Validation.Bounds.{validate_passport_gate_request-returns}
use launch_proof.PassportGate.Primitives.Bitmap.{
  decode_gate_bitmap-gate_bitmap, decode_gate_bitmap-encode_gate_bitmap,
}
use launch_proof.Domain.Sample.{sample_gates}
use launch_proof.PassportGate.Evaluation.Links.{IsUnlinkable}
use launch_proof.PassportGate.Evaluation.Errors.{evaluate_available_throws, HasNoExpiry}
use launch_proof.Domain.Gates.{gate_bitmap}
use launch_proof.PassportGate.Evaluation.Reports.{evaluate_passport_gate-IsExplained, IsExplained}
use launch_proof.PassportGate.Evaluation.Stages.{decision_of}
use launch_proof.PassportGate.Primitives.{
  encode_gate_bitmap, decode_gate_bitmap, make_contract_identity, normalize_source_revision,
  normalize_bytes32, normalize_address, is_public_literal_address, is_local_hostname, checked_url,
  normalize_public_https_url,
}
use launch_proof.PassportGate.Validation.{
  or_default, normalize_base_url, validate_thresholds, parse_observed_at,
  validate_passport_gate_request, validate_passport_gate_config,
}
use launch_proof.PassportGate.Engine.{
  evidence_view, view_of, optional, reference_transaction, safe_current_identity,
}
use launch_proof.PassportGate.Settlement.Laws.{settlement_failures_iff, IsSettled}
use launch_proof.PassportGate.Evaluation.Trust.{passport_failures_iff, IsTrusted}
use launch_proof.PassportGate.Settlement.{
  hashes_match, addresses_match, failures_of, settlement_failures,
}
use launch_proof.PassportGate.Evaluation.Decisions.{evaluate_passport_gate-IsJustified, IsJustified}
use launch_proof.PassportGate.Evaluation.{
  decision, freshness_from, judge_age, judge_failures, judge_checks, judge_identity, judge_passport,
  judge_current, evaluate_contract, evaluate_available, passport_failures, evaluate_passport_gate,
}
use launch_proof.Shared.{
  Text, ◌++◌, ◌⊎◌, int_ltb, ◌∷◌, all_exactly, list_beq, ◌+ℤ◌, ◌-ℤ◌, trim, to_lower_case, unique,
  all_some, ◌↔◌, [], ◌≡◌, text, list_eq, nat_eq, refl, none, some, pos, true, false,
}
use launch_proof.PassportGate.Types.{
  uri_error, throws, returns, ValidatedPassportGateRequest, Thrown, PassportGateDecisionResult,
  public_mode, passport_valid, range_error, available, inbound, PassportProof, PassportGateConfig,
  allow, millis,
}

allowed : decision_of (evaluate_passport_gate small sample_input) ≡ some allow
unfolding decision evidence_view evaluate_passport_gate evaluate_available evaluate_contract
    judge_current judge_passport judge_identity judge_checks judge_failures judge_age
    passport_failures freshness_from settlement_failures failures_of addresses_match hashes_match
    safe_current_identity unique validate_passport_gate_config validate_passport_gate_request
    parse_observed_at validate_thresholds normalize_base_url normalize_public_https_url checked_url
    is_local_hostname is_public_literal_address normalize_address normalize_bytes32
    normalize_source_revision make_contract_identity to_lower_case trim all_exactly all_some text
    list_beq ◌+ℤ◌ ◌-ℤ◌
allowed = refl

evaluate_passport_gate-IsJustified_example : IsJustified small allow sample_input
evaluate_passport_gate-IsJustified_example =
    evaluate_passport_gate-IsJustified small allow refl sample_input allowed

passport_failures_iff_example :
    (passport_failures small sample_config sample_passport.identity sample_passport ≡ [])
    ↔ IsTrusted small sample_config sample_passport.identity sample_passport
passport_failures_iff_example =
    passport_failures_iff small sample_config sample_passport.identity sample_passport

settlement_failures_iff_example :
    (settlement_failures small inbound sample_settlement sample_config ≡ [])
    ↔ IsSettled small sample_settlement sample_config
settlement_failures_iff_example =
    settlement_failures_iff small inbound sample_settlement sample_config

-- The configuration once validated; the small platform knows one URL.
abbrev sample_valid_config : PassportGateConfig
sample_valid_config = record sample_config {
  deployment_mode = some public_mode;
  explorer_base_url = text "https://shop.example/contract.json";
  passport_base_url = text "https://shop.example/contract.json";
  rehearsal_base_url = text "https://shop.example/contract.json";
}

-- What the links to transactions begin with.
abbrev explorer : Text
explorer = sample_valid_config.explorer_base_url ++ text "/tx/"

abbrev sample_report : PassportGateDecisionResult
sample_report = record {
  decision = allow;
  reason_codes = passport_valid ∷ [];
  explanation = text "The current service Passport is independently verified and fresh.";
  view =
      view_of small
        (record {
          config = sample_valid_config;
          observed_at = text "2026-07-19T01:00:02.000Z";
          warn_age_hours = pos 3;
          max_age_hours = pos 6;
          identity = some sample_passport.identity;
          passport = some sample_passport;
        })
        none (some (pos 2)) (some (text "2026-07-19T01:00:02.000Z"))
        (some
          (sample_valid_config.passport_base_url ++ text "/passport/" ++ sample_passport.run_id))
        (record {
          publication_transaction = some (explorer ++ sample_passport.publication_transaction_hash);
          inbound_settlement =
              optional (λ t. explorer ++ t)
                (reference_transaction sample_passport.inbound_settlement.reference);
          provider_settlement =
              optional (λ t. explorer ++ t)
                (reference_transaction sample_passport.provider_settlement.reference);
        });
}

reported : evaluate_passport_gate small sample_input ≡ returns (available sample_report)
unfolding decision evidence_view evaluate_passport_gate evaluate_available evaluate_contract
    judge_current judge_passport judge_identity judge_checks judge_failures judge_age
    passport_failures freshness_from settlement_failures failures_of addresses_match hashes_match
    safe_current_identity unique validate_passport_gate_config validate_passport_gate_request
    parse_observed_at validate_thresholds normalize_base_url normalize_public_https_url checked_url
    is_local_hostname is_public_literal_address normalize_address normalize_bytes32
    normalize_source_revision make_contract_identity to_lower_case trim all_exactly all_some text
    list_beq ◌+ℤ◌ ◌-ℤ◌
reported = refl

-- A text that cannot stand in a URL stops the decision about its Passport.
unlinked :
    evaluate_passport_gate (record small { encode_uri_component = λ value. none }) sample_input
    ≡ throws uri_error
unfolding decision evidence_view evaluate_passport_gate evaluate_available evaluate_contract
    judge_current judge_passport judge_identity judge_checks judge_failures judge_age
    passport_failures freshness_from settlement_failures failures_of addresses_match hashes_match
    safe_current_identity unique validate_passport_gate_config validate_passport_gate_request
    parse_observed_at validate_thresholds normalize_base_url normalize_public_https_url checked_url
    is_local_hostname is_public_literal_address normalize_address normalize_bytes32
    normalize_source_revision make_contract_identity to_lower_case trim all_exactly all_some text
    list_beq ◌+ℤ◌ ◌-ℤ◌
unlinked = refl

evaluate_passport_gate-IsExplained_example : IsExplained sample_report
evaluate_passport_gate-IsExplained_example =
    evaluate_passport_gate-IsExplained small sample_input sample_report reported

-- Nothing bounds the maximum age from above.
abbrev endless : ValidatedPassportGateRequest
endless = record {
  launch_contract_url = text "https://shop.example/contract.json";
  warn_age_hours = pos 3;
  max_age_hours = pos 9000000000000000;
  expected_provider_address = none;
  expected_source_revision = none;
}

out_of_range :
    evaluate_available small sample_valid_config endless (pos 4) sample_input none
    ≡ throws range_error
unfolding evaluate_available evaluate_contract judge_current judge_passport judge_identity
    judge_checks freshness_from safe_current_identity unique normalize_public_https_url checked_url
    is_local_hostname is_public_literal_address normalize_address normalize_bytes32
    normalize_source_revision make_contract_identity to_lower_case trim all_exactly all_some text
    list_beq ◌+ℤ◌ ◌-ℤ◌
out_of_range = refl

evaluate_available_throws_example :
    (passport : PassportProof) × (sample_input.newest_relevant_passport ≡ some passport)
    × (((◌≡◌ {A = Thrown} range_error range_error)
          × HasNoExpiry small passport.anchored_block_timestamp (pos 4) (pos 9000000000000000))
        ⊎ ((◌≡◌ {A = Thrown} range_error uri_error) × IsUnlinkable small passport))
evaluate_available_throws_example =
    evaluate_available_throws small range_error sample_valid_config endless (pos 4) sample_input
      out_of_range

decode_gate_bitmap-encode_gate_bitmap_example :
    decode_gate_bitmap (encode_gate_bitmap sample_passport.gates) ≡ sample_passport.gates
decode_gate_bitmap-encode_gate_bitmap_example =
    decode_gate_bitmap-encode_gate_bitmap sample_passport.gates

decode_gate_bitmap-gate_bitmap_example : decode_gate_bitmap (gate_bitmap sample_gates) ≡ record {
  discoverable = true;
  contract_correct = true;
  fresh_challenge = true;
  safe_to_rehearse = true;
  paid_delivery = true;
}
decode_gate_bitmap-gate_bitmap_example = decode_gate_bitmap-gate_bitmap sample_gates

let_through :
    validate_passport_gate_request small sample_input.request sample_config
    ≡ returns (record {
      launch_contract_url = text "https://shop.example/contract.json";
      warn_age_hours = pos 3;
      max_age_hours = pos 6;
      expected_provider_address = some (text "0xcc");
      expected_source_revision = none;
    })
unfolding validate_passport_gate_request validate_thresholds normalize_public_https_url checked_url
    is_local_hostname is_public_literal_address normalize_address normalize_source_revision
    to_lower_case trim all_exactly text list_beq
let_through = refl

validate_passport_gate_request-returns_example :
    (or_default small none (millis (pos 3)) ≡ millis (pos 3))
    × (or_default small none (millis (pos 6)) ≡ millis (pos 6))
    × (int_ltb (pos 3) (pos 0) ≡ false)
    × (int_ltb (pos 3) (pos 6) ≡ true)
validate_passport_gate_request-returns_example =
    validate_passport_gate_request-returns small sample_input.request sample_config
      (record {
        launch_contract_url = text "https://shop.example/contract.json";
        warn_age_hours = pos 3;
        max_age_hours = pos 6;
        expected_provider_address = some (text "0xcc");
        expected_source_revision = none;
      })
      let_through

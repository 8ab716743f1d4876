-- ===== src/PassportGate/Evaluation.antt =====
-- `evaluatePassportGate` of packages/passport-gate/src/engine.ts, one function for each of its stages.
pub mod Trust
pub mod Stages
pub mod Decisions
pub mod Links
pub mod Errors
pub mod Reports
use launch_proof.PassportGate.Settlement.{settlement_failures, fail_unless}
use launch_proof.PassportGate.Primitives.{make_contract_identity}
use launch_proof.PassportGate.Validation.{
  parse_observed_at, validate_passport_gate_request, validate_passport_gate_config,
}
use launch_proof.Shared.{
  ℕ, ℤ, pos_part, neg_part, ◌+ℤ◌, ◌-ℤ◌, int_ltb, leb, Bool, true, false, not, ◌&&◌, ◌||◌, Text,
  text, to_lower_case, Option, none, some, List, [], ◌∷◌, ◌++◌, ◌==◌, nat_eq, list_eq, unique,
  if◌then◌else◌,
}
use launch_proof.PassportGate.Platform.{Platform}
use launch_proof.PassportGate.Types.{
  manifest_hash_mismatch, source_revision_changed, passport_valid, database_chain_mismatch,
  contract_identity_changed, passport_approaching_expiry, invariant_broken,
  expected_source_revision_mismatch, contract_fetch_unavailable, passport_not_found,
  passport_expired, passport_contract_identity_mismatch, expected_provider_mismatch,
  anchored_timestamp_invalid, PassportDecision, OperationalFailure, CurrentLaunchContractProof,
  range_error, ValidatedPassportGateRequest, ReasonCode, PassportProof, PassportGateEvidenceView,
  PassportGateEvaluationInput, PassportGateConfig, ContractIdentity, ◌>>=◌, Outcome, returns,
  throws, allow, warn, block, rehearsal_required, rehearse, renew, inbound, provider,
  PassportGateResult, available, unavailable,
}
use launch_proof.PassportGate.Reasons.{reason_eq}
use launch_proof.PassportGate.Engine.{
  gate_failures, status_failures, hash_failures, safe_current_identity, same_base_identity,
  verification_failures, optional, max_date, ViewInput, evidence_view, action_url,
}

-- The age of a Passport in milliseconds, and when it expires.
pub record Freshness : Type 0 where
  pub age : ℤ
  pub expiry : Text

abbrev pub in_date_range : ℤ → Bool
in_date_range t = leb (pos_part t) max_date && leb (neg_part t) max_date

-- The request, the time and the identity that the stages share.
pub record Case : Type 0 where
  pub request : ValidatedPassportGateRequest
  pub observed_at : ℤ
  pub view : ViewInput

abbrev pub expects : Option Text → Text → Bool
expects none actual = true
expects (some expected) actual = expected == actual

abbrev pub freshness_failures : Option Freshness → List ReasonCode
freshness_failures none = anchored_timestamp_invalid ∷ []
freshness_failures (some f) = []

-- The view is made before the decision; what it throws is thrown.
unfoldable pub decision :
    Outcome PassportGateEvidenceView
    → PassportDecision
    → List ReasonCode
    → Text
    → Outcome PassportGateResult
decision view value reasons explanation = do
  v ← view
  returns (
      available
        (record { decision = value; reason_codes = reasons; explanation = explanation; view = v }))

module _ (platform : Platform) where
  -- `new Date(anchoredAtMs + maxAgeHours * HOUR_MS).toISOString()` throws out of range.
  unfoldable pub freshness_from : Option ℤ → ℤ → ℤ → Outcome (Option Freshness)
  freshness_from none observed_at max_age = returns none
  freshness_from (some anchored_at) observed_at max_age =
      if int_ltb observed_at anchored_at
      then returns none
      else if in_date_range (anchored_at +ℤ max_age)
      then returns (
          some (record {
            age = observed_at -ℤ anchored_at;
            expiry = platform.iso_string (anchored_at +ℤ max_age);
          }))
      else throws range_error

  -- The checks of a Passport whose identity is the current one, but for its time.
  unfoldable pub passport_failures :
      PassportGateConfig → ContractIdentity → PassportProof → List ReasonCode
  passport_failures config identity passport =
      verification_failures passport.verification
      ++ (fail_unless passport.database_chain_match database_chain_mismatch
          ++ (fail_unless (passport.identity.identity_hash == identity.identity_hash)
                passport_contract_identity_mismatch
              ++ (hash_failures passport
                  ++ (fail_unless (to_lower_case passport.manifest_hash == identity.manifest_hash)
                        manifest_hash_mismatch
                      ++ (status_failures passport.status
                          ++ (gate_failures passport.gates
                              ++ (settlement_failures platform inbound passport.inbound_settlement
                                    config
                                  ++ settlement_failures platform provider
                                      passport.provider_settlement config)))))))

  abbrev pub plain_view : Case → Outcome PassportGateEvidenceView
  plain_view c = evidence_view platform c.view none none none

  abbrev pub rehearse_view : Case → Outcome PassportGateEvidenceView
  rehearse_view c =
      evidence_view platform c.view
        (some (action_url platform c.view.config c.request.launch_contract_url rehearse none)) none
        none

  -- The last stage: a Passport that passed every check, by its age.
  unfoldable pub judge_age : Case → PassportProof → Freshness → Outcome PassportGateResult
  judge_age c passport f =
      if int_ltb c.request.max_age_hours f.age
      then decision
          (evidence_view platform c.view
            (some (
              action_url platform c.view.config c.request.launch_contract_url renew
                (some passport.run_id)))
            (some f.age) (some f.expiry))
          rehearsal_required (passport_expired ∷ [])
          (text "The latest valid Passport is older than the maximum accepted age.")
      else if int_ltb c.request.warn_age_hours f.age
      then decision (evidence_view platform c.view none (some f.age) (some f.expiry)) warn
          (passport_approaching_expiry ∷ [])
          (text "The Passport is valid but approaching its freshness expiry.")
      else decision (evidence_view platform c.view none (some f.age) (some f.expiry)) allow
          (passport_valid ∷ [])
          (text "The current service Passport is independently verified and fresh.")

  unfoldable pub judge_failures :
      Case → PassportProof → Option Freshness → List ReasonCode → Outcome PassportGateResult
  judge_failures c passport f (r ∷ rs) =
      decision
        (evidence_view platform c.view none (optional (λ x. x.age) f) (optional (λ x. x.expiry) f))
        block (unique (r ∷ rs)) (text "The Passport failed one or more independent trust checks.")
  judge_failures c passport none [] = throws invariant_broken
  judge_failures c passport (some f) [] = judge_age c passport f

  -- A Passport of the current identity.
  unfoldable pub judge_checks : Case → ContractIdentity → PassportProof → Outcome PassportGateResult
  judge_checks c identity passport = do
    freshness ←
        freshness_from (platform.parse_date passport.anchored_block_timestamp) c.observed_at
          c.request.max_age_hours
    judge_failures c passport freshness
        (passport_failures c.view.config identity passport ++ freshness_failures freshness)

  -- The identity of the Passport, in normal form.
  unfoldable pub judge_identity :
      Case
      → ContractIdentity
      → PassportProof
      → Outcome ContractIdentity
      → Outcome PassportGateResult
  judge_identity c identity passport (throws e) =
      decision (plain_view c) block (passport_contract_identity_mismatch ∷ [])
        (text "The Passport contains an invalid contract identity.")
  judge_identity c identity passport (returns normalized) =
      if not (normalized.identity_hash == passport.identity.identity_hash)
      then decision (plain_view c) block (passport_contract_identity_mismatch ∷ [])
          (text "The Passport contract identity hash does not match its identity fields.")
      else if not (same_base_identity identity normalized)
      then decision (rehearse_view c) rehearsal_required (contract_identity_changed ∷ [])
          (text "The Launch Contract identity changed after the available Passport was issued.")
      else if not (identity.source_revision == normalized.source_revision)
      then decision (rehearse_view c) rehearsal_required (source_revision_changed ∷ []) (
          text
            "The provider published a new source revision after the available Passport was issued.")
      else judge_checks c identity passport

  unfoldable pub judge_passport :
      Case → ContractIdentity → Option PassportProof → Outcome PassportGateResult
  judge_passport c identity none =
      decision (rehearse_view c) rehearsal_required (passport_not_found ∷ [])
        (text "No Passport exists for the exact current Launch Contract identity.")
  judge_passport c identity (some passport) = judge_identity c identity passport (
      make_contract_identity platform passport.identity.launch_contract_url
        passport.identity.manifest_hash passport.identity.provider_address
        passport.identity.source_revision)

  -- The current Launch Contract: its identity and its failures.
  unfoldable pub judge_current :
      Case → Option ContractIdentity → List ReasonCode → Outcome PassportGateResult
  judge_current c (some identity) [] =
      if not (expects c.request.expected_provider_address identity.provider_address)
      then decision (plain_view c) block (expected_provider_mismatch ∷ [])
          (text "The provider does not match the caller's expectation.")
      else if not (expects c.request.expected_source_revision identity.source_revision)
      then decision (plain_view c) block (expected_source_revision_mismatch ∷ [])
          (text "The source revision does not match the caller's expectation.")
      else judge_passport c identity c.view.passport
  judge_current c _ failures =
      decision (plain_view c) block failures
        (text "The current Launch Contract failed authenticity or safety checks.")

  abbrev pub case_of :
      PassportGateConfig
      → ValidatedPassportGateRequest
      → ℤ
      → Option ContractIdentity
      → Option PassportProof
      → Case
  case_of config request observed_at identity passport = record {
    request = request;
    observed_at = observed_at;
    view = record {
      config = config;
      observed_at = platform.iso_string observed_at;
      warn_age_hours = request.warn_age_hours;
      max_age_hours = request.max_age_hours;
      identity = identity;
      passport = passport;
    };
  }

  unfoldable pub evaluate_contract :
      PassportGateConfig
      → ValidatedPassportGateRequest
      → ℤ
      → Option CurrentLaunchContractProof
      → Option PassportProof
      → Outcome PassportGateResult
  evaluate_contract config request observed_at none passport = returns (
      unavailable (record {
        reason_codes = contract_fetch_unavailable ∷ [];
        explanation = text "The current signed Launch Contract could not be obtained.";
        observed_at = platform.iso_string observed_at;
      }))
  evaluate_contract config request observed_at (some proof) passport =
      let (identity, failures) = safe_current_identity platform proof request.launch_contract_url in
      judge_current (case_of config request observed_at identity passport) identity failures

  unfoldable pub evaluate_available :
      PassportGateConfig
      → ValidatedPassportGateRequest
      → ℤ
      → PassportGateEvaluationInput
      → Option OperationalFailure
      → Outcome PassportGateResult
  evaluate_available config request observed_at input (some failure) = returns (
      unavailable (record {
        reason_codes = failure.code ∷ [];
        explanation = failure.explanation;
        observed_at = platform.iso_string observed_at;
      }))
  evaluate_available config request observed_at input none =
      evaluate_contract config request observed_at input.current_contract
        input.newest_relevant_passport

  unfoldable pub evaluate_passport_gate : PassportGateEvaluationInput → Outcome PassportGateResult
  evaluate_passport_gate input = do
    config ← validate_passport_gate_config platform input.config
    request ← validate_passport_gate_request platform input.request config
    observed_at ← parse_observed_at platform input.observed_at
    evaluate_available config request observed_at input input.operational_failure

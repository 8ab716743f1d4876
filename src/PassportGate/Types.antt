-- ===== src/PassportGate/Types.antt =====
-- packages/passport-gate/src/types.ts and errors.ts. `null` and `undefined` are `none`.
use launch_proof.Shared.{ℕ, ℤ, Bool, Text, Option, List}

pub data ValidationCode : Type 0 where
  invalid_configuration invalid_launch_contract_url unsafe_launch_contract_url : ValidationCode
  invalid_freshness_thresholds invalid_provider_address invalid_source_revision : ValidationCode
  invalid_observed_at : ValidationCode

-- What a call of the package may throw.
pub data Thrown : Type 0 where
  validation : ValidationCode → Thrown
  range_error : Thrown
  uri_error : Thrown
  invariant_broken : Thrown

pub data Outcome {ℓ} (A : Type ℓ) : Type ℓ where
  returns : A → Outcome A
  throws : Thrown → Outcome A

infixl 5 ◌>>=◌
abbrev pub ◌>>=◌ {ℓ κ} : {A : Type ℓ} {B : Type κ} → Outcome A → (A → Outcome B) → Outcome B
returns a >>= f = f a
throws e >>= f = throws e

-- A number of hours: NaN and the infinities, or a finite number, counted in milliseconds. The
-- rounding of the division by 3600000 is not modelled.
pub data Hours : Type 0 where
  not_finite : Hours
  millis : ℤ → Hours

pub record GateResults : Type 0 where
  pub discoverable : Bool
  pub contract_correct : Bool
  pub fresh_challenge : Bool
  pub safe_to_rehearse : Bool
  pub paid_delivery : Bool

pub data PassportDecision : Type 0 where
  allow warn block rehearsal_required : PassportDecision

pub data PassportStatus : Type 0 where
  verified needs_attention not_rehearsable : PassportStatus

pub data RehearsalActionKind : Type 0 where
  rehearse renew : RehearsalActionKind

pub data Role : Type 0 where
  inbound provider : Role

pub data SettlementSuffix : Type 0 where
  missing reverted network_mismatch asset_mismatch amount_mismatch : SettlementSuffix
  decimals_mismatch payer_mismatch recipient_mismatch transaction_mismatch : SettlementSuffix
  timestamp_mismatch not_independently_verified : SettlementSuffix

-- `settlement role suffix` is the code `${role}_SETTLEMENT_${suffix}`.
pub data ReasonCode : Type 0 where
  passport_valid passport_approaching_expiry passport_not_found passport_expired : ReasonCode
  contract_identity_changed source_revision_changed expected_provider_mismatch : ReasonCode
  expected_source_revision_mismatch launch_contract_invalid : ReasonCode
  launch_contract_signature_invalid launch_contract_hash_mismatch : ReasonCode
  launch_contract_unsafe_url passport_needs_attention passport_not_rehearsable : ReasonCode
  gate_discoverable_failed gate_contract_correct_failed gate_fresh_challenge_failed : ReasonCode
  gate_safe_to_rehearse_failed gate_paid_delivery_failed chain_record_missing : ReasonCode
  canonical_evidence_mismatch evidence_hash_mismatch manifest_hash_mismatch : ReasonCode
  input_hash_mismatch result_hash_mismatch provider_signature_mismatch : ReasonCode
  passport_contract_identity_mismatch passport_source_revision_mismatch : ReasonCode
  registry_runtime_mismatch registry_event_storage_mismatch : ReasonCode
  publication_transaction_mismatch independent_verification_failed : ReasonCode
  database_chain_mismatch anchored_timestamp_invalid : ReasonCode
  settlement : Role → SettlementSuffix → ReasonCode

pub data OperationalReasonCode : Type 0 where
  rpc_unavailable rpc_timeout rpc_rate_limited index_unavailable : OperationalReasonCode
  contract_fetch_unavailable internal_unavailable : OperationalReasonCode

pub data DeploymentMode : Type 0 where
  public_mode local_mode : DeploymentMode

pub record PassportGateConfig : Type 0 where
  pub chain_id : ℕ
  pub network : Text
  pub asset_address : Text
  pub asset_decimals : ℤ
  pub default_warn_age_hours : Hours
  pub default_max_age_hours : Hours
  pub explorer_base_url : Text
  pub passport_base_url : Text
  pub rehearsal_base_url : Text
  pub deployment_mode : Option DeploymentMode

pub record PassportGateRequest : Type 0 where
  pub launch_contract_url : Text
  pub warn_age_hours : Option Hours
  pub max_age_hours : Option Hours
  pub expected_provider_address : Option Text
  pub expected_source_revision : Option Text

-- The thresholds are finite once validated.
pub record ValidatedPassportGateRequest : Type 0 where
  pub launch_contract_url : Text
  pub warn_age_hours : ℤ
  pub max_age_hours : ℤ
  pub expected_provider_address : Option Text
  pub expected_source_revision : Option Text

pub record ContractIdentity : Type 0 where
  pub launch_contract_url : Text
  pub manifest_hash : Text
  pub provider_address : Text
  pub source_revision : Text
  pub identity_hash : Text

pub record CurrentLaunchContractProof : Type 0 where
  pub launch_contract_url : Text
  pub manifest_hash : Text
  pub provider_address : Text
  pub source_revision : Text
  pub schema_valid : Bool
  pub signature_valid : Bool
  pub manifest_hash_valid : Bool
  pub safe_fetch_verified : Bool

pub record VerificationChecks : Type 0 where
  pub chain_record_found : Bool
  pub canonical_evidence_match : Bool
  pub evidence_hash_match : Bool
  pub manifest_hash_match : Bool
  pub input_hash_match : Bool
  pub result_hash_match : Bool
  pub provider_signature_match : Bool
  pub contract_identity_match : Bool
  pub source_revision_match : Bool
  pub registry_runtime_match : Bool
  pub event_storage_match : Bool
  pub publication_transaction_match : Bool
  pub independently_verified : Bool

pub record SettlementReference : Type 0 where
  pub payment_id : Text
  pub network : Text
  pub asset : Text
  pub amount_atomic : Text
  pub asset_decimals : ℤ
  pub payer : Text
  pub recipient : Text
  pub transaction_hash : Text
  pub block_timestamp : Text

pub record SettlementExpectation : Type 0 where
  pub payment_id : Option Text
  pub network : Text
  pub asset : Text
  pub amount_atomic : Text
  pub asset_decimals : ℤ
  pub payer : Option Text
  pub recipient : Text
  pub transaction_hash : Option Text
  pub block_timestamp : Option Text

pub record SettlementProof : Type 0 where
  pub expected : SettlementExpectation
  pub reference : Option SettlementReference
  pub present : Bool
  pub receipt_success : Bool
  pub independently_verified : Bool

pub record PassportProof : Type 0 where
  pub run_id : Text
  pub status : PassportStatus
  pub identity : ContractIdentity
  pub anchored_block_timestamp : Text
  pub gates : GateResults
  pub verification : VerificationChecks
  pub database_chain_match : Bool
  pub inbound_settlement : SettlementProof
  pub provider_settlement : SettlementProof
  pub publication_transaction_hash : Text
  pub evidence_hash : Text
  pub manifest_hash : Text
  pub input_hash : Text
  pub result_hash : Text

pub record OperationalFailure : Type 0 where
  pub code : OperationalReasonCode
  pub explanation : Text

pub record PassportGateEvaluationInput : Type 0 where
  pub request : PassportGateRequest
  pub config : PassportGateConfig
  pub observed_at : Text
  pub current_contract : Option CurrentLaunchContractProof
  pub newest_relevant_passport : Option PassportProof
  pub operational_failure : Option OperationalFailure

pub record ExplorerLinks : Type 0 where
  pub publication_transaction : Option Text
  pub inbound_settlement : Option Text
  pub provider_settlement : Option Text

-- The two flags are the constants `true` and `false`.
pub record RehearsalAction : Type 0 where
  pub kind : RehearsalActionKind
  pub url : Text
  pub requires_explicit_payment_approval : Bool
  pub automatically_executed : Bool

pub record PassportGateEvidenceView : Type 0 where
  pub observed_at : Text
  pub passport_age_hours : Option ℤ
  pub warn_age_hours : ℤ
  pub max_age_hours : ℤ
  pub expires_at : Option Text
  pub contract_identity : Option ContractIdentity
  pub provider_address : Option Text
  pub source_revision : Option Text
  pub run_id : Option Text
  pub passport_url : Option Text
  pub status : Option PassportStatus
  pub gates : Option GateResults
  pub independent_verification : Bool
  pub database_chain_match : Option Bool
  pub inbound_settlement : Option SettlementReference
  pub provider_settlement : Option SettlementReference
  pub evidence_publication_transaction : Option Text
  pub explorer_links : ExplorerLinks
  pub evidence_hash : Option Text
  pub manifest_hash : Option Text
  pub input_hash : Option Text
  pub result_hash : Option Text
  pub rehearsal_action : Option RehearsalAction

pub record PassportGateDecisionResult : Type 0 where
  pub decision : PassportDecision
  pub reason_codes : List ReasonCode
  pub explanation : Text
  pub view : PassportGateEvidenceView

pub record PassportGateUnavailableResult : Type 0 where
  pub reason_codes : List OperationalReasonCode
  pub explanation : Text
  pub observed_at : Text

-- `operational_status` tells the two apart.
pub data PassportGateResult : Type 0 where
  available : PassportGateDecisionResult → PassportGateResult
  unavailable : PassportGateUnavailableResult → PassportGateResult

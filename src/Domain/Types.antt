-- ===== src/Domain/Types.antt =====
-- The records of backend/src/domain/types.ts. `null` and a missing field are `none`.
use launch_proof.Shared.{ℕ, Bool, Text, Option, List}
use launch_proof.Domain.Json.{Json, Fields}
use launch_proof.Domain.Contract.{LaunchContract}

pub data GateState : Type 0 where
  pass fail not_tested : GateState

pub record Gates : Type 0 where
  pub discoverable : GateState
  pub contract_correct : GateState
  pub fresh_challenge : GateState
  pub safe_to_rehearse : GateState
  pub paid_delivery : GateState

pub data PassportStatus : Type 0 where
  verified needs_attention not_rehearsable : PassportStatus

-- `FailureClassification` without its `null`.
pub data Failure : Type 0 where
  invalid_output schema_drift timeout unsafe_error : Failure

pub data RunState : Type 0 where
  payment_required settlement_claimed payment_ambiguous payment_settled queued : RunState
  fetching_contract discovering fixed_sample invalid_input fresh_challenges : RunState
  target_payment_or_not_tested canonicalizing publishing_on_chain complete : RunState
  complete_local failed : RunState

pub record FieldComparison : Type 0 where
  pub path : Text
  pub expected : Option Json
  pub actual : Option Json
  pub is_match : Bool
  pub classification : Option Failure

pub data InvocationKind : Type 0 where
  fixed_sample invalid_input challenge paid_delivery : InvocationKind

pub record StructuredError : Type 0 where
  pub code : Json
  pub message : Text

pub record InvocationEvidence : Type 0 where
  pub kind : InvocationKind
  pub index : ℕ
  pub input : Fields
  pub expected : Option Fields
  pub output : Option Fields
  pub comparisons : List FieldComparison
  pub structured_error : Option StructuredError
  pub latency_ms : ℕ
  pub classification : Option Failure

pub data PaymentKind : Type 0 where
  launchproof target : PaymentKind

pub data PaymentStatus : Type 0 where
  settled not_tested local_only : PaymentStatus

pub record PaymentReference : Type 0 where
  pub payment_id : Text
  pub kind : PaymentKind
  pub amount : Text
  pub amount_atomic : Text
  pub amount_display : Text
  pub asset_decimals : ℕ
  pub asset : Text
  pub network : Text
  pub payer : Option Text
  pub recipient : Option Text
  pub route : Text
  pub settlement_transaction : Option Text
  pub status : PaymentStatus
  pub timestamp : Text

pub data VerificationState : Type 0 where
  verified not_provided invalid : VerificationState

pub record ProviderDeclaration : Type 0 where
  pub provider_address : Text
  pub manifest_hash : Text
  pub signature : Option Text
  pub verification_state : VerificationState

pub data Label : Type 0 where
  fixture external : Label

pub data ExecutionMode : Type 0 where
  local testnet : ExecutionMode

pub record Timings : Type 0 where
  pub invocation_ms : List ℕ
  pub total_ms : ℕ
  pub observed_p95_ms : ℕ

pub record CanonicalEvidence : Type 0 where
  pub schema_version : Text
  pub run_id : Text
  pub target : Text
  pub label : Label
  pub network : Text
  pub execution_mode : ExecutionMode
  pub generated_at : Text
  pub manifest : LaunchContract
  pub discovery : Fields
  pub fixed_sample : InvocationEvidence
  pub invalid_input : InvocationEvidence
  pub challenges : List InvocationEvidence
  pub paid_delivery : Option InvocationEvidence
  pub timings : Timings
  pub gates : Gates
  pub passport_status : PassportStatus
  pub provider_declaration : ProviderDeclaration
  pub launchproof_payment : PaymentReference
  pub target_payment : Option PaymentReference
  pub inputs : List Fields
  pub normalized_comparisons : List FieldComparison
  pub source_revision : Text
  pub build_commit : Text
  pub previous_run_id : Option Text
  pub remediation : List Text
  pub limitations : List Text

pub record ChainReference : Type 0 where
  pub registry_address : Text
  pub evidence_transaction_hash : Text
  pub block_number : Text
  pub explorer_url : Text
  pub published : Bool

pub record RunRecord : Type 0 where
  pub run_id : Text
  pub idempotency_key : Text
  pub state : RunState
  pub previous_run_id : Option Text
  pub label : Label
  pub scope : Text
  pub passport_status : PassportStatus
  pub gates : Gates
  pub canonical_evidence : CanonicalEvidence
  pub canonical_evidence_jcs : Text
  pub evidence_hash : Text
  pub manifest_hash : Text
  pub input_hash : Text
  pub normalized_result_hash : Text
  pub source_version_sha : Text
  pub build_commit_sha : Text
  pub generated_at : Text
  pub provider_declaration : ProviderDeclaration
  pub payment : PaymentReference
  pub target_payment : Option PaymentReference
  pub chain : ChainReference
  pub remediation : List Text
  pub limitations : List Text

-- ===== src/Registry/Client.antt =====
-- The types of backend/src/chain/registry.ts, and the client of the chain that it calls.
use launch_proof.Shared.{ℕ, Bool, Text, Option, List}
use launch_proof.Domain.Types.{CanonicalEvidence, PaymentReference, FieldComparison, RunRecord}
use launch_proof.Domain.Json.{Fields}

pub record RpcError : Type 0 where
  pub name : Text
  pub message : Text

-- A value, or a thrown error.
pub data Answer {ℓ} (A : Type ℓ) : Type ℓ where
  answer : A → Answer A
  fails : RpcError → Answer A

infixl 20 ◌>>=◌
abbrev pub ◌>>=◌ {ℓ κ} : {A : Type ℓ} {B : Type κ} → Answer A → (A → Answer B) → Answer B
answer a >>= f = f a
fails e >>= f = fails e

-- The record of a run in the contract's storage.
pub record StoredChainRecord : Type 0 where
  pub evidence_hash : Text
  pub manifest_hash : Text
  pub input_hash : Text
  pub normalized_result_hash : Text
  pub source_revision_hash : Text
  pub payment_receipt_hash : Text
  pub previous_run_id : Text
  pub provider : Text
  pub anchored_by : Text
  pub anchored_at : ℕ
  pub gate_bitmap : ℕ
  pub status : ℕ
  pub provider_signature_verified : Bool
  pub is_fixture : Bool

-- The arguments of the event `RunPublished`.
pub record PublishedArgs : Type 0 where
  pub run_id : Text
  pub fields : StoredChainRecord
  pub canonical_evidence : Text

pub record Transfer : Type 0 where
  pub sender : Text
  pub recipient : Text
  pub value : ℕ

-- A log, with what viem decodes it to: an event `RunPublished` of the registry, or a `Transfer` of a
-- token; `none` is a throw or another event.
pub record ChainLog : Type 0 where
  pub address : Text
  pub published : Option PublishedArgs
  pub transfer : Option Transfer
  pub transaction_hash : Option Text
  pub block_number : Option ℕ

pub record Receipt : Type 0 where
  pub success : Bool
  pub block_number : ℕ
  pub logs : List ChainLog

-- `PublicClient` of viem: `getRun` of the registry, its code, receipts, the latest block, the time of
-- a block, and the events of a run between two blocks.
pub record Client : Type 0 where
  pub get_run : Text → Answer StoredChainRecord
  pub get_code : Answer (Option Text)
  pub get_receipt : Text → Answer Receipt
  pub get_block_number : Answer ℕ
  pub get_block_time : ℕ → Answer ℕ
  pub get_logs : Text → ℕ → ℕ → Answer (List ChainLog)

-- `sha256`, `hashJcs`, `toJcs`, `keccak256` of a code, `hexToString` and `verifyMessage`, where `none`
-- is a throw; and the reading of a canonical text by `JSON.parse` and the schema of the evidence.
pub record Digests : Type 0 where
  pub sha256 : Text → Text
  pub keccak256 : Text → Text
  pub hash_inputs : List Fields → Text
  pub hash_comparisons : List FieldComparison → Text
  pub hash_payment : PaymentReference → Text
  pub jcs_evidence : CanonicalEvidence → Text
  pub hex_to_string : Text → Option Text
  pub parse_evidence : Text → Option CanonicalEvidence
  pub verify_message : Text → Text → Text → Option Bool

-- The part of `Config` that is read.
pub record RegistryConfig : Type 0 where
  pub registry_address : Option Text
  pub has_rpc_url : Bool
  pub runtime_code_hash : Option Text
  pub deployment_block : ℕ
  pub explorer_url : Text

pub record LoadedChainRun : Type 0 where
  pub chain_record : RunRecord
  pub evidence : CanonicalEvidence
  pub canonical : Text
  pub args : PublishedArgs
  pub transaction_hash : Text
  pub block_number : Option ℕ
  pub evidence_hash_match : Bool
  pub canonical_jcs_match : Bool
  pub manifest_hash_match : Bool
  pub input_hash_match : Bool
  pub result_hash_match : Bool
  pub provider_signature_match : Bool
  pub gate_status_match : Bool
  pub storage_match : Bool
  pub link_fields_match : Bool
  pub evidence_semantics_match : Bool
  pub launch_payment_transfer_match : Bool
  pub target_payment_transfer_match : Option Bool
  pub registry_runtime_match : Bool
  pub is_match : Bool

-- ===== src/GateService/World.antt =====
-- What backend/src/passport-gate/service.ts takes from elsewhere: the configuration, the hashes of
-- canonical JSON, the loaded contract, the run index and the registry's verification
-- (`RegistryVerification` of backend/src/chain/registry.ts).
use launch_proof.Shared.{ℕ, pos, Bool, true, false, Text, Option, some, List}
use launch_proof.Domain.Json.{Fields}
use launch_proof.Domain.Contract.{LaunchContract}
use launch_proof.Domain.Types.{CanonicalEvidence, FieldComparison, RunRecord}
use launch_proof.PassportGate.Types.{
  Hours, PassportGateConfig, public_mode, local_mode, CurrentLaunchContractProof, ValidationCode,
  Thrown, PassportGateResult,
}

-- The part of `Config` that the service reads.
pub record ServiceConfig : Type 0 where
  pub chain_id : ℕ
  pub network : Text
  pub usdt0_address : Text
  pub usdt0_decimals : ℕ
  pub warn_age_hours : Hours
  pub max_age_hours : Hours
  pub explorer_url : Text
  pub public_web_base_url : Text
  pub is_production : Bool
  pub payout_address : Option Text
  pub chain_ready : Bool

-- `hashJcs` and `sha256(toJcs(..))` of these values.
pub record Hashing : Type 0 where
  pub hash_manifest : LaunchContract → Text
  pub hash_evidence : CanonicalEvidence → Text
  pub hash_inputs : List Fields → Text
  pub hash_comparisons : List FieldComparison → Text

pub record RegistryVerification : Type 0 where
  pub chain_record_found : Bool
  pub evidence_hash_match : Bool
  pub canonical_jcs_match : Bool
  pub manifest_hash_match : Bool
  pub input_hash_match : Bool
  pub result_hash_match : Bool
  pub provider_signature_match : Bool
  pub gate_status_match : Bool
  pub storage_match : Bool
  pub link_fields_match : Bool
  pub evidence_semantics_match : Bool
  pub launch_payment_transfer_match : Bool
  pub target_payment_transfer_match : Option Bool
  pub registry_runtime_match : Bool
  pub cache_match : Option Bool
  pub is_match : Bool
  pub transaction_hash : Option Text
  pub block_number : Option Text
  pub anchored_at : Option Text
  pub canonical_evidence : Option CanonicalEvidence

-- A result, or the name and message of an error; `none` is a thrown value that is no `Error`.
pub data Attempt {ℓ} (A : Type ℓ) : Type ℓ where
  done : A → Attempt A
  broken : Option Text → Attempt A

-- How the load of the current contract ends. An error of another kind is `load_failed`.
pub data Loaded : Type 0 where
  loaded : CurrentLaunchContractProof → Option LaunchContract → Loaded
  load_invalid : ValidationCode → Loaded
  load_zod load_failed : Loaded

-- The dependencies of one check. `index_of` is `passportsForTarget`, with `none` if it throws.
pub record World : Type 0 where
  pub now : Text
  pub load_contract : Text → Loaded
  pub assert_available : Attempt (Unit {0})
  pub index_of : Text → Text → Option (List RunRecord)
  pub verify_strict : RunRecord → Attempt RegistryVerification

pub data CheckError : Type 0 where
  zod_error contract_url_error : CheckError
  thrown : Thrown → CheckError

pub data Checked : Type 0 where
  checked : PassportGateResult → Checked
  failed : CheckError → Checked

-- The argument of `validatePassportGateConfig` in the constructor of the service.
unfoldable pub gate_config_of : ServiceConfig → PassportGateConfig
gate_config_of config = record {
  chain_id = config.chain_id;
  network = config.network;
  asset_address = config.usdt0_address;
  asset_decimals = pos config.usdt0_decimals;
  default_warn_age_hours = config.warn_age_hours;
  default_max_age_hours = config.max_age_hours;
  explorer_base_url = config.explorer_url;
  passport_base_url = config.public_web_base_url;
  rehearsal_base_url = config.public_web_base_url;
  deployment_mode = some (elim config.is_production [ true ↦ public_mode | false ↦ local_mode ]);
}

-- ===== src/GateService/Proof.antt =====
-- `proofFromVerification` of backend/src/passport-gate/service.ts.
use launch_proof.Shared.{
  ℕ, pos, Bool, true, false, not, ◌&&◌, ◌==◌, list_eq, nat_eq, Text, text, truthy, is_hex,
  all_exactly, is_some, Option, none, some, ◌∷◌, if◌then◌else◌,
}
use launch_proof.Domain.Contract.{LaunchContract}
use launch_proof.Domain.Types.{
  GateState, PaymentReference, CanonicalEvidence, RunRecord, verified, needs_attention,
  not_rehearsable,
}
use launch_proof.Domain.Gates.{is_pass}
use launch_proof.PassportGate.Types
use launch_proof.PassportGate.Types.{
  Outcome, returns, throws, ◌>>=◌, SettlementReference, SettlementExpectation, SettlementProof,
  PassportProof, ContractIdentity, CurrentLaunchContractProof,
}
use launch_proof.PassportGate.Platform.{Platform}
use launch_proof.PassportGate.Primitives.{normalize_address, make_contract_identity}
use launch_proof.GateService.World.{ServiceConfig, Hashing, RegistryVerification}

-- `/^0x(?!0{40}$)[0-9a-fA-F]{40}$/`
abbrev pub is_evm_address : Text → Bool
is_evm_address (a ∷ b ∷ digits) =
    (a == b'0')
    && ((b == b'x')
        && (all_exactly is_hex 40 digits
            && not (digits == text "0000000000000000000000000000000000000000")))
is_evm_address _ = false

abbrev pub zero_address : Text
zero_address = text "0x0000000000000000000000000000000000000000"

-- `manifestSigningBody` of backend/src/launch-contract/schema.ts
unfoldable pub manifest_signing_body : LaunchContract → LaunchContract
manifest_signing_body manifest = record manifest { declaration_signature = none }

abbrev pub or_else {ℓ} : {A : Type ℓ} → Option A → A → A
or_else none a = a
or_else (some x) a = x

abbrev pub or_other {ℓ} : {A : Type ℓ} → Option A → Option A → Option A
or_other none o = o
or_other (some x) o = some x

-- A throw is caught.
abbrev pub caught {ℓ} : {A : Type ℓ} → Outcome A → Option A
caught (returns a) = some a
caught (throws e) = none

module _ (platform : Platform) where
  abbrev pub reference_of :
      PaymentReference → Option Text → Option Text → Option Text → Option SettlementReference
  reference_of payment (some payer) (some recipient) (some transaction) = caught (do
    asset ← normalize_address platform payment.asset
    own_payer ← normalize_address platform payer
    own_recipient ← normalize_address platform recipient
    returns (record {
      payment_id = payment.payment_id;
      network = payment.network;
      asset = asset;
      amount_atomic = payment.amount_atomic;
      asset_decimals = pos payment.asset_decimals;
      payer = own_payer;
      recipient = own_recipient;
      transaction_hash = transaction;
      block_timestamp = payment.timestamp;
    }))
  reference_of payment _ _ _ = none

  unfoldable pub payment_reference : Option PaymentReference → Option SettlementReference
  payment_reference none = none
  payment_reference (some payment) =
      reference_of payment (truthy payment.payer) (truthy payment.recipient)
        (truthy payment.settlement_transaction)

-- The policy that a settlement is expected to follow.
pub record SettlementPolicy : Type 0 where
  pub network : Text
  pub asset : Text
  pub amount_atomic : Text
  pub asset_decimals : ℕ
  pub recipient : Option Text

-- `recipient && evmAddress.test(recipient) ? recipient : zeroAddress`
abbrev pub recipient_or_zero : Option Text → Text
recipient_or_zero none = zero_address
recipient_or_zero (some r) = if is_evm_address r then r else zero_address

unfoldable pub expectation_of :
    Option SettlementReference → SettlementPolicy → SettlementExpectation
expectation_of (some reference) policy = record {
  payment_id = some reference.payment_id;
  network = policy.network;
  asset = policy.asset;
  amount_atomic = policy.amount_atomic;
  asset_decimals = pos policy.asset_decimals;
  payer = some reference.payer;
  recipient = or_else policy.recipient reference.recipient;
  transaction_hash = some reference.transaction_hash;
  block_timestamp = some reference.block_timestamp;
}
expectation_of none policy = record {
  payment_id = none;
  network = policy.network;
  asset = policy.asset;
  amount_atomic = policy.amount_atomic;
  asset_decimals = pos policy.asset_decimals;
  payer = none;
  recipient = recipient_or_zero (truthy policy.recipient);
  transaction_hash = none;
  block_timestamp = none;
}

abbrev pub is_true : Option Bool → Bool
is_true (some true) = true
is_true _ = false

abbrev pub engine_status :
    launch_proof.Domain.Types.PassportStatus → launch_proof.PassportGate.Types.PassportStatus
engine_status verified = launch_proof.PassportGate.Types.PassportStatus.verified
engine_status needs_attention = launch_proof.PassportGate.Types.PassportStatus.needs_attention
engine_status not_rehearsable = launch_proof.PassportGate.Types.PassportStatus.not_rehearsable

-- The amount of a rehearsal, and of a renewal.
abbrev pub launch_amount : Option Text → Text
launch_amount previous = if is_some (truthy previous) then text "100000" else text "10000"

module _ (platform : Platform) where
  unfoldable pub settlement_proof :
      Option PaymentReference → SettlementPolicy → Bool → SettlementProof
  unfolding expectation_of
  settlement_proof payment policy independently_verified =
      let reference = payment_reference platform payment in
      record {
        expected = expectation_of reference policy;
        reference = reference;
        present = is_some reference;
        receipt_success = independently_verified;
        independently_verified = independently_verified;
      }

  abbrev pub launch_policy : ServiceConfig → CanonicalEvidence → SettlementPolicy
  launch_policy config evidence = record {
    network = config.network;
    asset = config.usdt0_address;
    amount_atomic = launch_amount evidence.previous_run_id;
    asset_decimals = config.usdt0_decimals;
    recipient = or_other config.payout_address evidence.launchproof_payment.recipient;
  }

  abbrev pub target_policy : ServiceConfig → CanonicalEvidence → SettlementPolicy
  target_policy config evidence = record {
    network = config.network;
    asset = config.usdt0_address;
    amount_atomic = elim evidence.manifest.payment [ none ↦ text "0" | some terms ↦ terms.amount ];
    asset_decimals = config.usdt0_decimals;
    recipient = elim evidence.manifest.payment [ none ↦ none | some terms ↦ some terms.recipient ];
  }

  module _ (hashing : Hashing) where
    abbrev pub evidence_identity : CanonicalEvidence → Outcome ContractIdentity
    evidence_identity evidence =
        make_contract_identity platform evidence.target
          (hashing.hash_manifest (manifest_signing_body evidence.manifest))
          evidence.provider_declaration.provider_address evidence.source_revision

    abbrev pub proof_of :
        RunRecord
        → RegistryVerification
        → CanonicalEvidence
        → ServiceConfig
        → ContractIdentity
        → ContractIdentity
        → PassportProof
    proof_of cache v evidence config identity current = record {
      run_id = evidence.run_id;
      status = engine_status evidence.passport_status;
      identity = identity;
      anchored_block_timestamp = or_else v.anchored_at (text "invalid");
      gates = record {
        discoverable = is_pass evidence.gates.discoverable;
        contract_correct = is_pass evidence.gates.contract_correct;
        fresh_challenge = is_pass evidence.gates.fresh_challenge;
        safe_to_rehearse = is_pass evidence.gates.safe_to_rehearse;
        paid_delivery = is_pass evidence.gates.paid_delivery;
      };
      verification = record {
        chain_record_found = v.chain_record_found;
        canonical_evidence_match = v.canonical_jcs_match && v.evidence_semantics_match;
        evidence_hash_match = v.evidence_hash_match;
        manifest_hash_match = v.manifest_hash_match;
        input_hash_match = v.input_hash_match;
        result_hash_match = v.result_hash_match;
        provider_signature_match = v.provider_signature_match;
        contract_identity_match =
            v.link_fields_match && (identity.identity_hash == current.identity_hash);
        source_revision_match =
            v.link_fields_match && (identity.source_revision == current.source_revision);
        registry_runtime_match = v.registry_runtime_match;
        event_storage_match = v.storage_match;
        publication_transaction_match =
            is_some (truthy v.transaction_hash) && is_some (truthy v.block_number);
        independently_verified = v.is_match;
      };
      database_chain_match = is_true v.cache_match;
      inbound_settlement =
          settlement_proof (some evidence.launchproof_payment) (launch_policy config evidence)
            v.launch_payment_transfer_match;
      provider_settlement =
          settlement_proof evidence.target_payment (target_policy config evidence)
            (is_true v.target_payment_transfer_match);
      publication_transaction_hash =
          or_else v.transaction_hash cache.chain.evidence_transaction_hash;
      evidence_hash = hashing.hash_evidence evidence;
      manifest_hash = hashing.hash_manifest (manifest_signing_body evidence.manifest);
      input_hash = hashing.hash_inputs evidence.inputs;
      result_hash = hashing.hash_comparisons evidence.normalized_comparisons;
    }

    unfoldable pub proof_from_verification :
        RunRecord
        → RegistryVerification
        → CurrentLaunchContractProof
        → ServiceConfig
        → Outcome PassportProof
    unfolding settlement_proof
    proof_from_verification cache v current config = do
      identity ← evidence_identity (or_else v.canonical_evidence cache.canonical_evidence)
      current_identity ←
          make_contract_identity platform current.launch_contract_url current.manifest_hash
            current.provider_address current.source_revision
      returns (
          proof_of cache v (or_else v.canonical_evidence cache.canonical_evidence) config identity
            current_identity)

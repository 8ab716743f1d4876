-- ===== src/Registry/Load.antt =====
-- `load` of backend/src/chain/registry.ts: a published run with all comparisons of its record, its
-- event and its evidence.
use launch_proof.Shared.{
  ℕ, Bool, true, false, ◌&&◌, ◌==◌, nat_eq, list_eq, Text, text, to_lower_case, truthy, Option,
  none, some, List, [], ◌∷◌, if◌then◌else◌,
}
use launch_proof.Domain.Json.{bool_beq}
use launch_proof.Domain.Types.{PaymentReference, CanonicalEvidence}
use launch_proof.Domain.Gates.{gate_bitmap, passport_status, contract_status}
use launch_proof.PassportGate.Platform.{Platform}
use launch_proof.GateService.Proof.{manifest_signing_body}
use launch_proof.Evidence.Policy.{EvidenceConfig, Libraries}
use launch_proof.Evidence.Recompute.{same_status, is_rehearsable}
use launch_proof.Evidence.Payments.{same_lower}
use launch_proof.Evidence.Validate.{
  Validation, validated, validate_canonical_evidence, is_fixture_label,
}
use launch_proof.Registry.Client.{
  RpcError, Answer, answer, fails, ◌>>=◌, StoredChainRecord, PublishedArgs, ChainLog, Client,
  Digests, RegistryConfig, LoadedChainRun,
}
use launch_proof.Registry.Match.{
  is_bytes32_exact, runtime_bytecode_matches, chain_record_matches_event, declaration_matches,
  payment_transfer_matches, record_from_chain,
}
use launch_proof.Registry.Logs.{found_logs, logs_from_receipt, logs_at_anchored_timestamp}

abbrev pub not_false : Option Bool → Bool
not_false (some false) = false
not_false _ = true

abbrev pub zero_hash : Text
zero_hash = text "0x0000000000000000000000000000000000000000000000000000000000000000"

abbrev pub lower_or_zero : Option Text → Text
lower_or_zero none = zero_hash
lower_or_zero (some t) = to_lower_case t

abbrev pub gate_status_match : CanonicalEvidence → StoredChainRecord → Bool
gate_status_match e args =
    let status = passport_status e.gates (is_rehearsable e.passport_status) in
    gate_bitmap e.gates == args.gate_bitmap
    && (same_status e.passport_status status && contract_status status == args.status)

abbrev pub link_fields_match : Digests → CanonicalEvidence → PublishedArgs → Bool
link_fields_match digests e args =
    same_lower e.run_id args.run_id
    && (digests.sha256 e.source_revision == args.fields.source_revision_hash
        && (digests.hash_payment e.launchproof_payment == args.fields.payment_receipt_hash
            && (lower_or_zero (truthy e.previous_run_id)
                  == to_lower_case args.fields.previous_run_id
                && (same_lower e.provider_declaration.provider_address args.fields.provider
                    && bool_beq (is_fixture_label e.label) args.fields.is_fixture))))

abbrev pub manifest_hash_of : Libraries → CanonicalEvidence → Text
manifest_hash_of libraries e = libraries.hash_manifest (manifest_signing_body e.manifest)

-- The event does not decode.
abbrev pub decode_error : RpcError
decode_error = record { name = text "DecodeLogDataMismatch"; message = [] }

module _ (platform : Platform) (libraries : Libraries) (policy : EvidenceConfig) (digests : Digests)
    (config : RegistryConfig) (client : Client) where
  -- What `load` returns, once both transfers are looked up.
  abbrev pub loaded_run :
      Text
      → StoredChainRecord
      → Bool
      → PublishedArgs
      → Text
      → Option ℕ
      → Text
      → CanonicalEvidence
      → Bool
      → Bool
      → Option Bool
      → LoadedChainRun
  loaded_run address stored runtime args transaction block canonical e semantics launch target =
      let jcs = digests.jcs_evidence e == canonical in
      let evidence_hash = digests.sha256 canonical == args.fields.evidence_hash in
      let manifest = manifest_hash_of libraries e == args.fields.manifest_hash in
      let inputs = digests.hash_inputs e.inputs == args.fields.input_hash in
      let results =
        digests.hash_comparisons e.normalized_comparisons == args.fields.normalized_result_hash in
      let signature = declaration_matches digests e (manifest_hash_of libraries e) args.fields in
      let status = gate_status_match e args.fields in
      let storage = chain_record_matches_event stored args.fields in
      let links = link_fields_match digests e args in
      record {
        chain_record =
            record_from_chain e canonical args address transaction block config.explorer_url;
        evidence = e;
        canonical = canonical;
        args = args;
        transaction_hash = transaction;
        block_number = block;
        evidence_hash_match = evidence_hash;
        canonical_jcs_match = jcs;
        manifest_hash_match = manifest;
        input_hash_match = inputs;
        result_hash_match = results;
        provider_signature_match = signature;
        gate_status_match = status;
        storage_match = storage;
        link_fields_match = links;
        evidence_semantics_match = semantics;
        launch_payment_transfer_match = launch;
        target_payment_transfer_match = target;
        registry_runtime_match = runtime;
        is_match =
            jcs
            && (evidence_hash
                && (manifest
                    && (inputs
                        && (results
                            && (signature
                                && (status
                                    && (storage
                                        && (links
                                            && (semantics
                                                && ((launch && not_false target)
                                                    && runtime))))))))));
      }

  abbrev pub target_transfer : Option PaymentReference → Option ℕ → Bool → Answer (Option Bool)
  target_transfer none block preserve = answer none
  target_transfer (some payment) block preserve =
      payment_transfer_matches platform client payment block preserve >>= (λ b. answer (some b))

  abbrev pub with_transfers :
      Text
      → StoredChainRecord
      → Bool
      → PublishedArgs
      → Text
      → Option ℕ
      → Text
      → CanonicalEvidence
      → Bool
      → Bool
      → Answer (Option LoadedChainRun)
  with_transfers address stored runtime args transaction block canonical e preserve semantics =
      payment_transfer_matches platform client e.launchproof_payment block preserve >>= (λ launch.
        target_transfer e.target_payment block preserve >>= (λ target. answer (
          some (
            loaded_run address stored runtime args transaction block canonical e semantics launch
              target))))

  -- The second validation has the same arguments as the first, and ends as it did.
  abbrev pub with_validation :
      Text
      → StoredChainRecord
      → Bool
      → PublishedArgs
      → Text
      → Option ℕ
      → Text
      → CanonicalEvidence
      → Bool
      → Validation
      → Answer (Option LoadedChainRun)
  with_validation address stored runtime args transaction block canonical e preserve (validated b) =
      with_transfers address stored runtime args transaction block canonical e preserve b
  with_validation address stored runtime args transaction block canonical e preserve _ = answer none

  abbrev pub with_evidence :
      Text
      → StoredChainRecord
      → Bool
      → PublishedArgs
      → Text
      → Option ℕ
      → Bool
      → Option Text
      → Answer (Option LoadedChainRun)
  with_evidence address stored runtime args transaction block preserve none = answer none
  with_evidence address stored runtime args transaction block preserve (some canonical) =
      elim (digests.parse_evidence canonical) [
        | none ↦ answer none
        | some e ↦
            with_validation address stored runtime args transaction block canonical e preserve (
              validate_canonical_evidence platform libraries policy e args.run_id
                args.fields.anchored_at)
      ]

  abbrev pub with_log :
      Text
      → StoredChainRecord
      → Bool
      → Bool
      → Option Text
      → ChainLog
      → Answer (Option LoadedChainRun)
  with_log address stored runtime preserve none log = answer none
  with_log address stored runtime preserve (some transaction) log = elim log.published [
    | none ↦ fails decode_error
    | some args ↦
        with_evidence address stored runtime args transaction log.block_number preserve
          (digests.hex_to_string args.canonical_evidence)
  ]

  abbrev pub with_logs :
      Text → StoredChainRecord → Bool → Bool → List ChainLog → Answer (Option LoadedChainRun)
  with_logs address stored runtime preserve [] = answer none
  with_logs address stored runtime preserve (log ∷ rest) =
      with_log address stored runtime preserve (truthy log.transaction_hash) log

  abbrev pub with_stored :
      Text
      → Text
      → Option Text
      → Bool
      → StoredChainRecord
      → Option Text
      → Answer (Option LoadedChainRun)
  with_stored address run_id hint preserve stored code =
      if stored.anchored_at == 0
      then answer none
      else found_logs config client address run_id hint stored.anchored_at
        >>= with_logs address stored
            (runtime_bytecode_matches digests code config.runtime_code_hash) preserve

  -- The two requests are made together in the source and one after the other here: of two errors,
  -- the first request's is taken.
  abbrev pub load_at : Text → Option Text → Bool → Option Text → Answer (Option LoadedChainRun)
  load_at run_id hint preserve none = answer none
  load_at run_id hint preserve (some address) =
      if config.has_rpc_url && is_bytes32_exact run_id
      then client.get_run run_id
        >>= (λ stored. client.get_code >>= with_stored address run_id hint preserve stored)
      else answer none

  unfoldable pub load : Text → Option Text → Bool → Answer (Option LoadedChainRun)
  unfolding logs_at_anchored_timestamp logs_from_receipt validate_canonical_evidence
      payment_transfer_matches declaration_matches chain_record_matches_event
      runtime_bytecode_matches record_from_chain
  load run_id hint preserve = load_at run_id hint preserve (truthy config.registry_address)

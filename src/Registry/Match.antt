-- ===== src/Registry/Match.antt =====
-- The comparisons of backend/src/chain/registry.ts: a stored record with its event, a cached run with
-- the loaded one, a provider's declaration, and a payment with its transfer on the chain.
use launch_proof.Shared.{
  ℕ, ◌*◌, pos, Bool, true, false, not, ◌&&◌, ◌||◌, ◌==◌, nat_eq, list_eq, ltb, Text, text,
  to_lower_case, truthy, is_some, all_exactly, is_hex, Option, none, some, List, [], ◌∷◌, ◌++◌,
  if◌then◌else◌,
}
use launch_proof.Domain.Json.{bool_beq}
use launch_proof.Domain.Types.{
  PaymentReference, VerificationState, verified, not_provided, invalid, ProviderDeclaration,
  CanonicalEvidence, RunRecord, complete,
}
use launch_proof.PassportGate.Amounts.{read_digits, show_nat}
use launch_proof.PassportGate.Platform.{Platform}
use launch_proof.PassportGate.Primitives.{is_bytes32}
use launch_proof.GateService.Request.{is_line_end}
use launch_proof.Evidence.Validate.{is_set}
use launch_proof.Patterns.{Regex, one, seq, many, literal, found, found_from}
use launch_proof.Evidence.Payments.{same_lower, is_settled}
use launch_proof.Registry.Client.{
  RpcError, Answer, answer, fails, ◌>>=◌, StoredChainRecord, PublishedArgs, Transfer, ChainLog,
  Receipt, Client, Digests, LoadedChainRun,
}

-- `/^0x[0-9a-fA-F]{64}$/`
abbrev pub is_bytes32_exact : Text → Bool
is_bytes32_exact (a ∷ b ∷ digits) = a == b'0' && (b == b'x' && all_exactly is_hex 64 digits)
is_bytes32_exact _ = false

abbrev pub all_hex : Text → Bool
all_hex [] = true
all_hex (c ∷ s) = is_hex c && all_hex s

abbrev pub is_hex_code : Text → Bool
is_hex_code (a ∷ b ∷ digits) = a == b'0' && ((b == b'x' || b == b'X') && all_hex digits)
is_hex_code _ = false

abbrev pub code_matches : Digests → Option Text → Option Text → Bool
code_matches digests (some code) (some expected) =
    not (code == text "0x")
    && (is_hex_code code && (is_bytes32 expected && same_lower (digests.keccak256 code) expected))
code_matches digests _ _ = false

unfoldable pub runtime_bytecode_matches : Digests → Option Text → Option Text → Bool
runtime_bytecode_matches digests code expected =
    code_matches digests (truthy code) (truthy expected)

unfoldable pub chain_record_matches_event : StoredChainRecord → StoredChainRecord → Bool
chain_record_matches_event stored args =
    stored.evidence_hash == args.evidence_hash
    && (stored.manifest_hash == args.manifest_hash
        && (stored.input_hash == args.input_hash
            && (stored.normalized_result_hash == args.normalized_result_hash
                && (stored.source_revision_hash == args.source_revision_hash
                    && (stored.payment_receipt_hash == args.payment_receipt_hash
                        && (stored.previous_run_id == args.previous_run_id
                            && (same_lower stored.provider args.provider
                                && (same_lower stored.anchored_by args.anchored_by
                                    && (stored.anchored_at == args.anchored_at
                                        && (stored.gate_bitmap == args.gate_bitmap
                                            && (stored.status == args.status
                                                && (bool_beq stored.provider_signature_verified
                                                      args.provider_signature_verified
                                                    && bool_beq stored.is_fixture
                                                        args.is_fixture))))))))))))

unfoldable pub cache_matches_loaded : RunRecord → LoadedChainRun → Bool
cache_matches_loaded cache loaded =
    same_lower cache.run_id loaded.args.run_id
    && (cache.canonical_evidence_jcs == loaded.canonical
        && (same_lower cache.evidence_hash loaded.args.fields.evidence_hash
            && (same_lower cache.manifest_hash loaded.args.fields.manifest_hash
                && (same_lower cache.input_hash loaded.args.fields.input_hash
                    && (same_lower cache.normalized_result_hash
                          loaded.args.fields.normalized_result_hash
                        && (same_lower cache.source_version_sha loaded.evidence.source_revision
                            && (same_lower cache.provider_declaration.provider_address
                                  loaded.args.fields.provider
                                && (cache.chain.published
                                    && same_lower cache.chain.evidence_transaction_hash
                                        loaded.transaction_hash))))))))

-- Whether the signature of a declaration is the address's, over the hash of the manifest.
abbrev pub valid_signature : Digests → ProviderDeclaration → Text → Option Text → Bool
valid_signature digests declaration manifest_hash none = false
valid_signature digests declaration manifest_hash (some signature) =
    is_set (digests.verify_message declaration.provider_address manifest_hash signature)

-- The state, the signature, whether it is valid, and the flag of the event.
abbrev pub state_matches : VerificationState → Bool → Bool → Bool → Bool
state_matches verified signed valid flagged = signed && (valid && flagged)
state_matches invalid signed valid flagged = signed && (not valid && not flagged)
state_matches not_provided signed valid flagged = not signed && not flagged

unfoldable pub declaration_matches : Digests → CanonicalEvidence → Text → StoredChainRecord → Bool
declaration_matches digests e manifest_hash args =
    let declaration = e.provider_declaration in
    let signature = truthy declaration.signature in
    declaration.manifest_hash == manifest_hash
    && (same_lower declaration.provider_address args.provider
        && state_matches declaration.verification_state (is_some signature)
            (valid_signature digests declaration manifest_hash signature)
            args.provider_signature_verified)

abbrev pub any : (ChainLog → Bool) → List ChainLog → Bool
any p [] = false
any p (l ∷ rest) = p l || any p rest

abbrev pub is_transfer : Text → Text → ℕ → Option Transfer → Bool
is_transfer payer recipient amount none = false
is_transfer payer recipient amount (some t) =
    same_lower t.sender payer && (same_lower t.recipient recipient && t.value == amount)

abbrev pub log_transfers : Text → Text → Text → ℕ → ChainLog → Bool
log_transfers asset payer recipient amount log =
    same_lower log.address asset && is_transfer payer recipient amount log.transfer

abbrev pub is_later_block : ℕ → Option ℕ → Bool
is_later_block block none = false
is_later_block block (some publication) = ltb publication block

-- `/transaction receipt.*not found/i`; `.` is any character but a line end.
abbrev pub receipt_not_found : Regex
receipt_not_found =
    seq (literal "transaction receipt")
      (seq (many (one (λ c. not (is_line_end c)))) (literal "not found"))

unfoldable pub is_missing_transaction_receipt : RpcError → Bool
unfolding found_from
is_missing_transaction_receipt e =
    e.name == text "TransactionReceiptNotFoundError"
    || found receipt_not_found (to_lower_case e.message)

-- The `catch` of `paymentTransferMatches`.
abbrev pub caught_unless : Bool → Answer Bool → Answer Bool
caught_unless preserve (answer b) = answer b
caught_unless preserve (fails e) =
    if preserve && not (is_missing_transaction_receipt e) then fails e else answer false

module _ (platform : Platform) (client : Client) where
  abbrev pub at_time : PaymentReference → ℕ → Answer Bool
  at_time payment seconds = answer (platform.iso_string (pos (seconds * 1000)) == payment.timestamp)

  abbrev pub receipt_transfers : PaymentReference → Text → Text → Option ℕ → Receipt → Answer Bool
  receipt_transfers payment payer recipient publication receipt =
      if not receipt.success || is_later_block receipt.block_number publication
      then answer false
      else if not (
          any (log_transfers payment.asset payer recipient (read_digits 0 payment.amount_atomic))
            receipt.logs)
      then answer false
      else client.get_block_time receipt.block_number >>= at_time payment

  abbrev pub transfer_of :
      PaymentReference → Option ℕ → Bool → Option Text → Option Text → Option Text → Answer Bool
  transfer_of payment publication preserve (some transaction) (some payer) (some recipient) =
      if is_settled payment.status
        && (same_lower payment.payment_id transaction && payment.amount == payment.amount_atomic)
      then caught_unless preserve
          (client.get_receipt transaction >>= receipt_transfers payment payer recipient publication)
      else answer false
  transfer_of payment publication preserve _ _ _ = answer false

  unfoldable pub payment_transfer_matches : PaymentReference → Option ℕ → Bool → Answer Bool
  unfolding is_missing_transaction_receipt
  payment_transfer_matches payment publication preserve =
      transfer_of payment publication preserve (truthy payment.settlement_transaction)
        (truthy payment.payer) (truthy payment.recipient)

-- `recordFromChain`
unfoldable pub record_from_chain :
    CanonicalEvidence → Text → PublishedArgs → Text → Text → Option ℕ → Text → RunRecord
record_from_chain e canonical args registry_address transaction_hash block_number explorer_url =
    record {
      run_id = args.run_id;
      idempotency_key = text "chain:" ++ args.run_id;
      state = complete;
      previous_run_id = e.previous_run_id;
      label = e.label;
      scope = text "structured-extraction-v1 only";
      passport_status = e.passport_status;
      gates = e.gates;
      canonical_evidence = e;
      canonical_evidence_jcs = canonical;
      evidence_hash = args.fields.evidence_hash;
      manifest_hash = args.fields.manifest_hash;
      input_hash = args.fields.input_hash;
      normalized_result_hash = args.fields.normalized_result_hash;
      source_version_sha = e.source_revision;
      build_commit_sha = e.build_commit;
      generated_at = e.generated_at;
      provider_declaration = e.provider_declaration;
      payment = e.launchproof_payment;
      target_payment = e.target_payment;
      chain = record {
        registry_address = registry_address;
        evidence_transaction_hash = transaction_hash;
        block_number = elim block_number [ none ↦ text "0" | some n ↦ show_nat n ];
        explorer_url = explorer_url ++ (text "/tx/" ++ transaction_hash);
        published = true;
      };
      remediation = e.remediation;
      limitations = e.limitations;
    }

-- ===== src/PassportGate/Evaluation/Trust.antt =====
-- When the checks of a Passport in packages/passport-gate/src/engine.ts report nothing.
use launch_proof.PassportGate.Reasons.{reason_eq}
use launch_proof.Shared.{true, ◌≡◌, refl, ◌↔◌, [], list_eq, nat_eq, list_beq_iff, to_lower_case}
use launch_proof.PassportGate.Platform.{Platform}
use launch_proof.PassportGate.Types.{
  inbound, provider, PassportGateConfig, PassportStatus, verified, needs_attention, not_rehearsable,
  VerificationChecks, GateResults, PassportProof, ContractIdentity,
}
use launch_proof.PassportGate.Engine.{
  verification_failures, gate_failures, status_failures, hash_failures, is_hash,
}
use launch_proof.PassportGate.Settlement.Laws.{
  both, passes, same, IsSettled, settlement_failures_iff,
}
use launch_proof.PassportGate.Evaluation.{passport_failures}

abbrev pub AllVerified : VerificationChecks → Type 0
AllVerified v =
    (v.chain_record_found ≡ true)
    × ((v.canonical_evidence_match ≡ true)
        × ((v.evidence_hash_match ≡ true)
            × ((v.manifest_hash_match ≡ true)
                × ((v.input_hash_match ≡ true)
                    × ((v.result_hash_match ≡ true)
                        × ((v.provider_signature_match ≡ true)
                            × ((v.contract_identity_match ≡ true)
                                × ((v.source_revision_match ≡ true)
                                    × ((v.registry_runtime_match ≡ true)
                                        × ((v.event_storage_match ≡ true)
                                            × ((v.publication_transaction_match ≡ true)
                                                × ((v.independently_verified ≡ true)))))))))))))

abbrev pub AllGates : GateResults → Type 0
AllGates g =
    (g.discoverable ≡ true)
    × ((g.contract_correct ≡ true)
        × ((g.fresh_challenge ≡ true) × ((g.safe_to_rehearse ≡ true) × ((g.paid_delivery ≡ true)))))

abbrev pub AllHashes : PassportProof → Type 0
AllHashes p =
    (is_hash p.publication_transaction_hash ≡ true)
    × ((is_hash p.evidence_hash ≡ true)
        × ((is_hash p.manifest_hash ≡ true)
            × ((is_hash p.input_hash ≡ true) × ((is_hash p.result_hash ≡ true)))))

verification_failures_iff :
    (v : VerificationChecks) → (verification_failures v ≡ []) ↔ AllVerified v
verification_failures_iff v = both (passes _ same) (
    both (passes _ same) (
      both (passes _ same) (
        both (passes _ same) (
          both (passes _ same) (
            both (passes _ same) (
              both (passes _ same) (
                both (passes _ same) (
                  both (passes _ same) (
                    both (passes _ same)
                      (both (passes _ same) (both (passes _ same) (passes _ same))))))))))))

gate_failures_iff : (g : GateResults) → (gate_failures g ≡ []) ↔ AllGates g
gate_failures_iff g =
    both (passes _ same)
      (both (passes _ same) (both (passes _ same) (both (passes _ same) (passes _ same))))

hash_failures_iff : (p : PassportProof) → (hash_failures p ≡ []) ↔ AllHashes p
hash_failures_iff p =
    both (passes _ same)
      (both (passes _ same) (both (passes _ same) (both (passes _ same) (passes _ same))))

status_failures_iff : (s : PassportStatus) → (status_failures s ≡ []) ↔ (s ≡ verified)
status_failures_iff verified = (λ e. refl, λ e. refl)
status_failures_iff needs_attention = (λ e. absurd (cc), λ e. absurd (cc))
status_failures_iff not_rehearsable = (λ e. absurd (cc), λ e. absurd (cc))

module _ (platform : Platform) where
  -- Everything but the time that a Passport must show to be trusted for a contract identity.
  abbrev pub IsTrusted : PassportGateConfig → ContractIdentity → PassportProof → Type 0
  IsTrusted config identity p =
      AllVerified p.verification
      × ((p.database_chain_match ≡ true)
          × ((p.identity.identity_hash ≡ identity.identity_hash)
              × (AllHashes p
                  × ((to_lower_case p.manifest_hash ≡ identity.manifest_hash)
                      × ((p.status ≡ verified)
                          × (AllGates p.gates
                              × (IsSettled platform p.inbound_settlement config
                                  × IsSettled platform p.provider_settlement config)))))))

  -- The checks of a Passport report nothing exactly when all thirteen verifications hold, the
  -- database agrees with the chain, the identity and manifest hashes are the current ones, the
  -- five hashes are well formed, the status is verified, all five gates passed and both payments
  -- are settled as expected.
  pub passport_failures_iff :
      (config : PassportGateConfig) (identity : ContractIdentity) (p : PassportProof)
      → (passport_failures platform config identity p ≡ []) ↔ IsTrusted config identity p
  unfolding passport_failures
  passport_failures_iff config identity p = both (verification_failures_iff p.verification) (
      both (passes _ same) (
        both (passes _ (list_beq_iff p.identity.identity_hash identity.identity_hash)) (
          both (hash_failures_iff p) (
            both (passes _ (list_beq_iff (to_lower_case p.manifest_hash) identity.manifest_hash)) (
              both (status_failures_iff p.status) (
                both (gate_failures_iff p.gates) (
                  both (settlement_failures_iff platform inbound p.inbound_settlement config)
                    (settlement_failures_iff platform provider p.provider_settlement config))))))))

-- ===== src/GateService/Confirmed.antt =====
-- What the engine's trust in a proof of backend/src/passport-gate/service.ts says of the verification
-- that the proof is made from.
use launch_proof.PassportGate.Primitives.{make_contract_identity}
use launch_proof.PassportGate.Validation.Bounds.{bind-returns}
use launch_proof.PassportGate.Evaluation.Trust.{IsTrusted}
use launch_proof.PassportGate.Evaluation.Stages.{decision_of}
use launch_proof.GateService.Proof.{
  evidence_identity, engine_status, proof_of, or_else, settlement_proof, proof_from_verification,
  is_true,
}
use launch_proof.Shared.{refl, none, some, true, false, ◌≡◌, list_eq, nat_eq, Option, Bool}
use launch_proof.Domain.Types.{
  CanonicalEvidence, RunRecord, PassportStatus, verified, needs_attention, not_rehearsable,
}
use launch_proof.PassportGate.Platform.{Platform}
use launch_proof.PassportGate.Types
use launch_proof.PassportGate.Types.{
  ValidatedPassportGateRequest, contract_fetch_unavailable, rpc_unavailable, index_unavailable,
  PassportGateResult, OperationalReasonCode, PassportGateRequest, PassportGateEvaluationInput,
  ContractIdentity, PassportGateConfig, CurrentLaunchContractProof, Outcome, returns, throws,
  PassportDecision, PassportProof, available, unavailable,
}
use launch_proof.GateService.World.{
  ServiceConfig, RegistryVerification, Hashing, Checked, checked, failed,
}

abbrev pub decision_in : Checked → Option PassportDecision
decision_in (checked r) = decision_of (returns r)
decision_in (failed e) = none

-- What a verification says that a trusted Passport needs.
abbrev pub IsConfirmed : RegistryVerification → Type 0
IsConfirmed v =
    (v.is_match ≡ true)
    × ((v.cache_match ≡ some true)
        × ((v.launch_payment_transfer_match ≡ true)
            × ((v.target_payment_transfer_match ≡ some true)
                × ((v.chain_record_found ≡ true) × (v.storage_match ≡ true)))))

is_true-some : (o : Option Bool) → is_true o ≡ true → o ≡ some true
is_true-some (some true) h = refl
is_true-some (some false) h = absurd (cc)
is_true-some none h = absurd (cc)

returns-inj : {A : Type 0} {a b : A} → returns a ≡ returns b → a ≡ b
returns-inj h = cc

-- The evidence that a proof is made from.
abbrev pub evidence_of : RunRecord → RegistryVerification → CanonicalEvidence
evidence_of c v = or_else v.canonical_evidence c.canonical_evidence

-- The verification confirms the run, and the run is verified.
abbrev pub IsGood : RunRecord → RegistryVerification → Type 0
IsGood c v = IsConfirmed v × ((evidence_of c v).passport_status ≡ verified)

engine_status_lem :
    (s : PassportStatus)
    → engine_status s ≡ launch_proof.PassportGate.Types.PassportStatus.verified
    → s ≡ verified
engine_status_lem verified h = refl
engine_status_lem needs_attention h = absurd (cc)
engine_status_lem not_rehearsable h = absurd (cc)

module _ (platform : Platform) (hashing : Hashing) (config : ServiceConfig) where
  trusted_confirms :
      (c : RunRecord) (v : RegistryVerification) (evidence : CanonicalEvidence)
      (own current identity : ContractIdentity) (gate : PassportGateConfig)
      → IsTrusted platform gate identity (proof_of platform hashing c v evidence config own current)
      → IsConfirmed v × (evidence.passport_status ≡ verified)
  unfolding settlement_proof
  trusted_confirms c v evidence own current identity gate
        (checks, (db, (ih, (hs, (mh, (st, (gs, ((pi, (a, ra, paid)), (pp, (b, rb, sent)))))))))) =
      let (found, (c2, (c3, (c4, (c5, (c6, (c7, (c8, (c9, (c10, (stored, (c12, matched)))))))))))) =
        checks in
      (
        (
          matched,
          (
            is_true-some v.cache_match db,
            (paid.0, (is_true-some v.target_payment_transfer_match sent.0, (found, stored))),
          ),
        ),
        engine_status_lem evidence.passport_status st,
      )

  pub moved :
      (gate : PassportGateConfig) (identity : ContractIdentity) (x y : PassportProof)
      → x ≡ y
      → IsTrusted platform gate identity y
      → IsTrusted platform gate identity x
  moved gate identity x y e h = rw e h

  pub proof_confirms :
      (c : RunRecord) (v : RegistryVerification) (current : CurrentLaunchContractProof)
      (p : PassportProof) (gate : PassportGateConfig) (identity : ContractIdentity)
      → proof_from_verification platform hashing c v current config ≡ returns p
      → IsTrusted platform gate identity p
      → IsGood c v
  unfolding proof_from_verification
  proof_confirms c v current p gate identity h trusted =
      let evidence = or_else v.canonical_evidence c.canonical_evidence in
      let (own, e, h1) = bind-returns (evidence_identity platform hashing evidence) _ p h in
      let (now, f, h2) =
        bind-returns
          (make_contract_identity platform current.launch_contract_url current.manifest_hash
            current.provider_address current.source_revision)
          _ p h1 in
      trusted_confirms c v evidence own now identity gate
        (moved gate identity _ p (returns-inj h2) trusted)

-- ===== src/Evidence/Laws.antt =====
-- What an evidence that matches in backend/src/evidence/validate.ts has shown.
use launch_proof.Shared.{
  ℕ, ℤ, Bool, true, nat_eq, list_eq, is_some, Text, truthy, Option, none, some, ◌≡◌, sym, ap, ◌∙◌,
  arith, and-eq-true,
}
use launch_proof.Domain.Contract.{PaymentMode, x402_optional}
use launch_proof.Domain.Types.{GateState, pass, Gates, PassportStatus, verified, CanonicalEvidence}
use launch_proof.Domain.Gates.{passport_status}
use launch_proof.PassportGate.Platform.{Url, Platform}
use launch_proof.Evidence.Policy.{EvidenceConfig, Libraries}
use launch_proof.Evidence.Recompute.{
  is_rehearsable, same_status, same_gates, same_state, pass_if, paid_state,
}
use launch_proof.Evidence.Payments.{launch_matches}
use launch_proof.Evidence.Validate.{
  validated, validate_canonical_evidence, located, judged, evidence_matches, expected_gates,
  expected_status, outcome_matches, context_matches,
}

same_state_lem : (a b : GateState) → same_state a b ≡ true → a ≡ b
same_state_lem a b h = ground arith

same_gates_lem : (a b : Gates) → same_gates a b ≡ true → a ≡ b
same_gates_lem a b h = ground (
  arith,
  same_state_lem a.discoverable b.discoverable,
  same_state_lem a.contract_correct b.contract_correct,
  same_state_lem a.fresh_challenge b.fresh_challenge,
  same_state_lem a.safe_to_rehearse b.safe_to_rehearse,
  same_state_lem a.paid_delivery b.paid_delivery,
)

pub same_status_lem : (a b : PassportStatus) → same_status a b ≡ true → a ≡ b
same_status_lem a b h = ground arith

validated-inj : {a b : Bool} → validated a ≡ validated b → a ≡ b
validated-inj h = cc

-- A Passport is verified only if every gate is passed.
pub verified_passes :
    (g : Gates) (b : Bool)
    → passport_status g b ≡ verified
    → (g.discoverable ≡ pass)
      × (g.contract_correct ≡ pass)
      × (g.fresh_challenge ≡ pass)
      × (g.safe_to_rehearse ≡ pass)
      × (g.paid_delivery ≡ pass)
unfolding passport_status
verified_passes g b h = ground arith

pub pass_if_lem : (b : Bool) → pass_if b ≡ pass → b ≡ true
pass_if_lem b h = ground arith

pub paid_state_lem :
    (m : PaymentMode) (b : Bool) → paid_state m b ≡ pass → (m ≡ x402_optional) × (b ≡ true)
paid_state_lem m b h = ground arith

module _ (platform : Platform) (libraries : Libraries) (config : EvidenceConfig) where
  judged_outcome :
      (e : CanonicalEvidence) (run_id : Text) (n : ℕ) (t : ℤ) (o f : Option Bool)
      → judged platform libraries config e run_id n t o f ≡ validated true
      → outcome_matches platform libraries config e ≡ true
  unfolding evidence_matches
  judged_outcome e run_id n t (some o) (some f) h =
      (and-eq-true (context_matches platform libraries config e run_id n t o f) _
        (validated-inj h)).1
  judged_outcome e run_id n t (some o) none h = absurd (cc)
  judged_outcome e run_id n t none f h = absurd (cc)

  located_outcome :
      (e : CanonicalEvidence) (run_id : Text) (n : ℕ) (a b : Option Url) (t : Option ℤ)
      → located platform libraries config e run_id n a b t ≡ validated true
      → outcome_matches platform libraries config e ≡ true
  located_outcome e run_id n (some a) (some b) (some t) h = judged_outcome e run_id n t _ _ h
  located_outcome e run_id n (some a) (some b) none h = absurd (cc)
  located_outcome e run_id n (some a) none t h = absurd (cc)
  located_outcome e run_id n none b t h = absurd (cc)

  outcome :
      (e : CanonicalEvidence) (run_id : Text) (n : ℕ)
      → validate_canonical_evidence platform libraries config e run_id n ≡ validated true
      → outcome_matches platform libraries config e ≡ true
  unfolding validate_canonical_evidence
  outcome e run_id n h = located_outcome e run_id n _ _ _ h

  -- Evidence that matches has the gates that its own invocations make, and the status that its gates
  -- make.
  pub matched_status :
      (e : CanonicalEvidence) (run_id : Text) (n : ℕ)
      → validate_canonical_evidence platform libraries config e run_id n ≡ validated true
      → (e.gates ≡ expected_gates platform libraries config e)
        × (e.passport_status ≡ passport_status e.gates (is_rehearsable e.passport_status))
  matched_status e run_id n h =
      let (launch, r1) =
        and-eq-true
          (launch_matches config (is_some (truthy e.previous_run_id)) e.launchproof_payment) _
          (outcome e run_id n h) in
      let (consistent, r2) = and-eq-true _ _ r1 in
      let (paid, r3) = and-eq-true _ _ r2 in
      let (gates, r4) =
        and-eq-true (same_gates e.gates (expected_gates platform libraries config e)) _ r3 in
      let (status, r5) =
        and-eq-true (same_status e.passport_status (expected_status platform libraries config e)) _
          r4 in
      let same = same_gates_lem _ _ gates in
      (
        same,
        same_status_lem _ _ status
            ∙ ap (λ g. passport_status g (is_rehearsable e.passport_status)) (sym same),
      )

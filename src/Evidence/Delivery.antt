-- ===== src/Evidence/Delivery.antt =====
-- What a verified evidence that matches in backend/src/evidence/validate.ts has shown of the run and
-- of the paid delivery.
use launch_proof.Shared.{
  ℕ, Bool, true, false, nat_eq, list_eq, list_beq_iff, Text, text, Option, none, some, ◌≡◌, refl,
  sym, ap, ◌∙◌, arith, and-eq-true,
}
use launch_proof.Domain.Contract.{PaymentTerms, PaymentMode, x402_optional}
use launch_proof.Domain.Types.{
  Gates, verified, PaymentReference, InvocationEvidence, CanonicalEvidence, settled, PaymentStatus,
}
use launch_proof.PassportGate.Platform.{Platform}
use launch_proof.Schema.SafeUse.{safe_use_claims_valid}
use launch_proof.Evidence.Policy.{EvidenceConfig, Libraries}
use launch_proof.Evidence.Recompute.{
  recompute_gates, is_rehearsable, contract_correct, challenge_pass, rejects_invalid, pass_if,
  paid_state, is_safe, delivery_matches, paid_delivery_evidence_matches, field_is,
}
use launch_proof.Evidence.Payments.{
  both_lower, target_payment_matches, optional_terms_match, terms_match_for, terms_match,
  is_settled, expected_payer,
}
use launch_proof.Evidence.Validate.{
  validated, validate_canonical_evidence, expected_gates, discovered, paid_delivery_matches,
}
use launch_proof.Evidence.Laws.{matched_status, verified_passes, pass_if_lem, paid_state_lem}

-- A payment to the provider, other than the payment of the rehearsal.
abbrev pub IsOwnPayment : PaymentTerms → PaymentReference → PaymentReference → Type 0
IsOwnPayment terms payment launch =
    (payment.status ≡ settled)
    × ((payment.amount_atomic ≡ terms.amount)
        × ((payment.route ≡ terms.resource_url)
            × ((both_lower payment.recipient (some terms.recipient) ≡ true)
                × (both_lower payment.settlement_transaction launch.settlement_transaction
                    ≡ false))))

settled_status : (s : PaymentStatus) → is_settled s ≡ true → s ≡ settled
settled_status s h = ground arith

terms_match-IsOwnPayment :
    (config : EvidenceConfig) (terms : PaymentTerms) (payment launch : PaymentReference)
    (payer : Option Text)
    → terms_match config terms payment launch payer ≡ true
    → IsOwnPayment terms payment launch
terms_match-IsOwnPayment config terms payment launch payer h = ground (
  arith,
  settled_status payment.status,
  list_beq_iff payment.amount_atomic terms.amount,
  list_beq_iff payment.route terms.resource_url,
)

-- The output of the paid call names the run and the source revision.
abbrev pub IsDelivered : CanonicalEvidence → InvocationEvidence → Type 0
IsDelivered e d =
    (d.classification ≡ none)
    × ((d.structured_error ≡ none)
        × ((field_is d.output (text "run_id") e.run_id ≡ true)
            × (field_is d.output (text "source_revision") e.source_revision ≡ true)))

delivery-IsDelivered :
    (e : CanonicalEvidence) (b : Bool) (d : InvocationEvidence)
    → delivery_matches e b (some d) ≡ true
    → (b ≡ true) × IsDelivered e d
delivery-IsDelivered e b d h = ground arith

abbrev pub HasDelivery : CanonicalEvidence → Type 0
HasDelivery e =
    (terms : PaymentTerms) × (payment : PaymentReference) × (d : InvocationEvidence)
    × (e.manifest.payment ≡ some terms)
    × (e.target_payment ≡ some payment)
    × (e.paid_delivery ≡ some d)
    × IsOwnPayment terms payment e.launchproof_payment
    × IsDelivered e d

module _ (libraries : Libraries) (config : EvidenceConfig) where
  terms_for-IsOwnPayment :
      (terms : PaymentTerms) (payment launch : PaymentReference) (o : Option (Option Text))
      → terms_match_for libraries config terms payment launch o ≡ true
      → IsOwnPayment terms payment launch
  terms_for-IsOwnPayment terms payment launch none h = absurd (cc)
  terms_for-IsOwnPayment terms payment launch (some payer) h =
      terms_match-IsOwnPayment config terms payment launch payer h

  delivered :
      (e : CanonicalEvidence) (t : Option PaymentTerms) (p : Option PaymentReference)
      (d : Option InvocationEvidence)
      → e.manifest.payment ≡ t
      → e.target_payment ≡ p
      → e.paid_delivery ≡ d
      → optional_terms_match libraries config t p e.launchproof_payment ≡ true
      → delivery_matches e true d ≡ true
      → HasDelivery e
  delivered e (some t) (some p) (some d) et ep ed h k = (
    t,
    p,
    d,
    et,
    ep,
    ed,
    terms_for-IsOwnPayment t p e.launchproof_payment (expected_payer libraries config) h,
    (delivery-IsDelivered e true d k).1,
  )
  delivered e none p d et ep ed h k = absurd (cc)
  delivered e (some t) none d et ep ed h k = absurd (cc)
  delivered e (some t) (some p) none et ep ed h k = absurd (cc)

  optional_mode :
      (e : CanonicalEvidence)
      → e.manifest.payment_mode ≡ x402_optional
      → target_payment_matches libraries config e.manifest e.target_payment e.launchproof_payment
        ≡ optional_terms_match libraries config e.manifest.payment e.target_payment
            e.launchproof_payment
  unfolding target_payment_matches
  optional_mode e h = rw h refl

  delivery_flag :
      (e : CanonicalEvidence) (b : Bool) (d : Option InvocationEvidence)
      → delivery_matches e b d ≡ true
      → (b ≡ true) × (delivery_matches e true d ≡ true)
  delivery_flag e b none h = absurd (cc)
  delivery_flag e true (some d) h = (refl, h)
  delivery_flag e false (some d) h = absurd (cc)

  paid-HasDelivery :
      (e : CanonicalEvidence)
      → e.manifest.payment_mode ≡ x402_optional
      → paid_delivery_evidence_matches e (
          target_payment_matches libraries config e.manifest e.target_payment e.launchproof_payment)
        ≡ true
      → HasDelivery e
  unfolding paid_delivery_evidence_matches
  paid-HasDelivery e m h =
      let (b, k) = delivery_flag e _ e.paid_delivery h in
      delivered e e.manifest.payment e.target_payment e.paid_delivery refl refl refl
        (sym (optional_mode e m) ∙ b) k

-- The gates of a run that took place.
abbrev pub normal_gates : CanonicalEvidence → PaymentMode → Bool → Bool → Gates
normal_gates e m paid found = record {
  discoverable = pass_if found;
  contract_correct = pass_if (contract_correct e);
  fresh_challenge = pass_if (challenge_pass e);
  safe_to_rehearse = pass_if (is_safe e found);
  paid_delivery = paid_state m paid;
}

recompute_normal :
    (e : CanonicalEvidence) (m : PaymentMode) (paid found : Bool)
    → is_rehearsable e.passport_status ≡ true
    → recompute_gates e m paid found ≡ normal_gates e m paid found
unfolding recompute_gates
recompute_normal e m paid found h = rw h refl

-- All that a verified evidence has shown.
module _ (platform : Platform) (libraries : Libraries) (config : EvidenceConfig) where
  abbrev pub IsProved : CanonicalEvidence → Type 0
  IsProved e =
      ((discovered platform libraries config e).discoverable ≡ true)
      × (contract_correct e ≡ true)
      × (challenge_pass e ≡ true)
      × (rejects_invalid e.invalid_input ≡ true)
      × (safe_use_claims_valid e.manifest.safe_use ≡ true)
      × HasDelivery e

  pub matched_verified :
      (e : CanonicalEvidence) (run_id : Text) (n : ℕ)
      → validate_canonical_evidence platform libraries config e run_id n ≡ validated true
      → e.passport_status ≡ verified
      → IsProved e
  unfolding expected_gates
  matched_verified e run_id n h v =
      let (gates, status) = matched_status platform libraries config e run_id n h in
      let normal =
        recompute_normal e e.manifest.payment_mode
          (paid_delivery_matches platform libraries config e)
          (discovered platform libraries config e).discoverable (ap is_rehearsable v) in
      let (found, contract, fresh, safe, paid) =
        verified_passes e.gates (is_rehearsable e.passport_status) (sym status ∙ v) in
      let same = sym (gates ∙ normal) in
      let (mode, delivery) = paid_state_lem _ _ (ap (λ g. g.paid_delivery) same ∙ paid) in
      let (claims_found, r) =
        and-eq-true _ _ (pass_if_lem _ (ap (λ g. g.safe_to_rehearse) same ∙ safe)) in
      let (rejects, claims) = and-eq-true (rejects_invalid e.invalid_input) _ r in
      (
        pass_if_lem _ (ap (λ g. g.discoverable) same ∙ found),
        pass_if_lem (contract_correct e) (ap (λ g. g.contract_correct) same ∙ contract),
        pass_if_lem (challenge_pass e) (ap (λ g. g.fresh_challenge) same ∙ fresh),
        rejects,
        claims,
        paid-HasDelivery libraries config e mode delivery,
      )

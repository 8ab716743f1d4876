-- ===== src/PassportGate/Evaluation/Errors.antt =====
-- What `evaluatePassportGate` of packages/passport-gate/src/engine.ts throws once its input is validated.
use launch_proof.PassportGate.Engine.{safe_current_identity, same_base_identity, evidence_view}
use launch_proof.PassportGate.Evaluation.{
  freshness_failures, in_date_range, case_of, ◌∷◌, passport_failures, false, List, Freshness,
  Option, judge_passport, judge_identity, judge_failures, judge_current, judge_checks,
  freshness_from, evaluate_contract, evaluate_available, Case, judge_age, decision, expects,
}
use launch_proof.PassportGate.Evaluation.Links.{IsUnlinkable, HasUnlinkable, decision_throws}
use launch_proof.PassportGate.Platform.{Platform}
use launch_proof.PassportGate.Reasons.{reason_eq}
use launch_proof.Shared.{
  ◌++◌, List, [], ◌∷◌, int_ltb, arith, ◌≡◌, ◌⊎◌, inl, inr, ◌==◌, not, Bool, true, if◌then◌else◌, ℤ,
  Text, list_eq, nat_eq, refl, none, some, ◌+ℤ◌,
}
use launch_proof.PassportGate.Types.{
  range_error, uri_error, PassportGateResult, PassportDecision, RehearsalAction, ReasonCode,
  OperationalFailure, PassportGateEvaluationInput, Outcome, CurrentLaunchContractProof,
  ValidatedPassportGateRequest, PassportProof, ContractIdentity, PassportGateConfig, Thrown, ◌>>=◌,
  returns, throws,
}

module _ (platform : Platform) where
  -- The time of the Passport is not in the future and its expiry is no date.
  abbrev pub HasNoExpiry : Text → ℤ → ℤ → Type 0
  HasNoExpiry anchored observed_at max_age =
      (t : ℤ) × (platform.parse_date anchored ≡ some t)
      × (int_ltb observed_at t ≡ false)
      × (in_date_range (t +ℤ max_age) ≡ false)

if_throws :
    {P : Type 0} (b : Bool) (x y : Outcome PassportGateResult) (e : Thrown)
    → (x ≡ throws e → P)
    → (y ≡ throws e → P)
    → (if b then x else y) ≡ throws e
    → P
if_throws true x y e f g h = f h
if_throws false x y e f g h = g h

module _ (platform : Platform) (e : Thrown) where
  -- The time of the Passport has no expiry, or a text of it cannot stand in a URL.
  abbrev pub HasFault : Option PassportProof → ℤ → ℤ → Type 0
  HasFault o observed_at max_age =
      (passport : PassportProof) × (o ≡ some passport)
      × (((e ≡ range_error)
            × HasNoExpiry platform passport.anchored_block_timestamp observed_at max_age)
          ⊎ ((e ≡ uri_error) × IsUnlinkable platform passport))

  unlinked :
      (o : Option PassportProof) (observed_at max_age : ℤ)
      → HasUnlinkable platform o e
      → HasFault o observed_at max_age
  unlinked o observed_at max_age (u, (p, at, n)) = (p, at, inr (u, n))

  -- A decision of a case throws what its view throws.
  decides :
      (c : Case) (action : Option RehearsalAction) (age : Option ℤ) (expiry : Option Text)
      (value : PassportDecision) (reasons : List ReasonCode) (explanation : Text)
      → decision (evidence_view platform c.view action age expiry) value reasons explanation
        ≡ throws e
      → HasFault c.view.passport c.observed_at c.request.max_age_hours
  decides c action age expiry value reasons explanation h =
      unlinked c.view.passport c.observed_at c.request.max_age_hours
        (decision_throws platform c.view action age expiry value reasons explanation e h)

  judge_age_throws :
      (c : Case) (passport : PassportProof) (f : Freshness)
      → judge_age platform c passport f ≡ throws e
      → HasFault c.view.passport c.observed_at c.request.max_age_hours
  unfolding judge_age
  judge_age_throws c passport f h =
      if_throws (int_ltb c.request.max_age_hours f.age) _ _ e (λ k. decides c _ _ _ _ _ _ k)
        (λ k.
          if_throws (int_ltb c.request.warn_age_hours f.age) _ _ e (λ g. decides c _ _ _ _ _ _ g)
            (λ g. decides c _ _ _ _ _ _ g) k)
        h

  judge_failures_throws :
      (c : Case) (passport : PassportProof) (o : Option Freshness) (failures : List ReasonCode)
      → judge_failures platform c passport o (failures ++ freshness_failures o) ≡ throws e
      → HasFault c.view.passport c.observed_at c.request.max_age_hours
  unfolding judge_failures
  judge_failures_throws c passport o (r ∷ rs) h = decides c _ _ _ _ _ _ h
  judge_failures_throws c passport none [] h = decides c _ _ _ _ _ _ h
  judge_failures_throws c passport (some f) [] h = judge_age_throws c passport f h

  freshness_from_throws :
      (o : Option ℤ) (observed_at max_age : ℤ)
      → freshness_from platform o observed_at max_age ≡ throws e
      → (e ≡ range_error)
        × ((t : ℤ) × (o ≡ some t)
            × (int_ltb observed_at t ≡ false)
            × (in_date_range (t +ℤ max_age) ≡ false))
  unfolding freshness_from
  freshness_from_throws none observed_at max_age h = absurd (cc)
  freshness_from_throws (some t) observed_at max_age h =
      (ground arith, (t, refl, ground arith, ground arith))

  judge_fresh_throws :
      (c : Case) (passport : PassportProof) (failures : List ReasonCode)
      (fresh : Outcome (Option Freshness))
      → (fresh >>= λ o. judge_failures platform c passport o (failures ++ freshness_failures o))
        ≡ throws e
      → (fresh ≡ throws e) ⊎ HasFault c.view.passport c.observed_at c.request.max_age_hours
  judge_fresh_throws c passport failures (throws x) h = inl (cc)
  judge_fresh_throws c passport failures (returns o) h =
      inr (judge_failures_throws c passport o failures h)

  judge_checks_throws :
      (c : Case) (identity : ContractIdentity) (passport : PassportProof)
      → c.view.passport ≡ some passport
      → judge_checks platform c identity passport ≡ throws e
      → HasFault c.view.passport c.observed_at c.request.max_age_hours
  unfolding judge_checks
  judge_checks_throws c identity passport at h =
      let time = platform.parse_date passport.anchored_block_timestamp in
      elim (judge_fresh_throws c passport
        (passport_failures platform c.view.config identity passport)
        (freshness_from platform time c.observed_at c.request.max_age_hours) h) [
          | inl x ↦ (
            passport,
            at,
            inl (freshness_from_throws time c.observed_at c.request.max_age_hours x),
          )
          | inr f ↦ f
        ]

  judge_identity_throws :
      (c : Case) (identity : ContractIdentity) (passport : PassportProof)
      (own : Outcome ContractIdentity)
      → c.view.passport ≡ some passport
      → judge_identity platform c identity passport own ≡ throws e
      → HasFault c.view.passport c.observed_at c.request.max_age_hours
  unfolding judge_identity
  judge_identity_throws c identity passport (throws x) at h = decides c _ _ _ _ _ _ h
  judge_identity_throws c identity passport (returns n) at h =
      if_throws (not (n.identity_hash == passport.identity.identity_hash)) _ _ e
        (λ k. decides c _ _ _ _ _ _ k)
        (λ k.
          if_throws (not (same_base_identity identity n)) _ _ e (λ g. decides c _ _ _ _ _ _ g)
            (λ g.
              if_throws (not (identity.source_revision == n.source_revision)) _ _ e
                (λ f. decides c _ _ _ _ _ _ f) (λ f. judge_checks_throws c identity passport at f)
                g)
            k)
        h

  judge_passport_throws :
      (c : Case) (identity : ContractIdentity) (o : Option PassportProof)
      → c.view.passport ≡ o
      → judge_passport platform c identity o ≡ throws e
      → HasFault c.view.passport c.observed_at c.request.max_age_hours
  unfolding judge_passport
  judge_passport_throws c identity none at h = decides c _ _ _ _ _ _ h
  judge_passport_throws c identity (some passport) at h =
      judge_identity_throws c identity passport _ at h

  judge_current_throws :
      (c : Case) (o : Option ContractIdentity) (failures : List ReasonCode)
      → judge_current platform c o failures ≡ throws e
      → HasFault c.view.passport c.observed_at c.request.max_age_hours
  unfolding judge_current
  judge_current_throws c none failures h = decides c _ _ _ _ _ _ h
  judge_current_throws c (some identity) (r ∷ rs) h = decides c _ _ _ _ _ _ h
  judge_current_throws c (some identity) [] h =
      if_throws (not (expects c.request.expected_provider_address identity.provider_address)) _ _ e
        (λ k. decides c _ _ _ _ _ _ k)
        (λ k.
          if_throws (not (expects c.request.expected_source_revision identity.source_revision)) _ _
            e (λ g. decides c _ _ _ _ _ _ g)
            (λ g. judge_passport_throws c identity c.view.passport refl g) k)
        h

  evaluate_contract_throws :
      (config : PassportGateConfig) (request : ValidatedPassportGateRequest) (observed_at : ℤ)
      (current : Option CurrentLaunchContractProof) (newest : Option PassportProof)
      → evaluate_contract platform config request observed_at current newest ≡ throws e
      → HasFault newest observed_at request.max_age_hours
  unfolding evaluate_contract
  evaluate_contract_throws config request observed_at none newest h = absurd (cc)
  evaluate_contract_throws config request observed_at (some proof) newest h =
      let s = safe_current_identity platform proof request.launch_contract_url in
      judge_current_throws (case_of platform config request observed_at s.0 newest) s.0 s.1 h

  available_cases :
      (config : PassportGateConfig) (request : ValidatedPassportGateRequest) (observed_at : ℤ)
      (input : PassportGateEvaluationInput) (o : Option OperationalFailure)
      → evaluate_available platform config request observed_at input o ≡ throws e
      → HasFault input.newest_relevant_passport observed_at request.max_age_hours
  unfolding evaluate_available
  available_cases config request observed_at input (some f) h = absurd (cc)
  available_cases config request observed_at input none h =
      evaluate_contract_throws config request observed_at input.current_contract
        input.newest_relevant_passport h

  -- Once configuration, request and time are validated, the engine throws only for a Passport that
  -- is given: the RangeError when the Passport is not from the future and its time of expiry, the
  -- anchored time plus the maximum age, is outside the range of a date; or the URIError when its run,
  -- its publication or one of its settlements has a text that a URL cannot encode. In particular the
  -- broken invariant is never thrown.
  pub evaluate_available_throws :
      (config : PassportGateConfig) (request : ValidatedPassportGateRequest) (observed_at : ℤ)
      (input : PassportGateEvaluationInput)
      → evaluate_available platform config request observed_at input input.operational_failure
        ≡ throws e
      → (passport : PassportProof) × (input.newest_relevant_passport ≡ some passport)
        × (((e ≡ range_error)
              × HasNoExpiry platform passport.anchored_block_timestamp observed_at
                  request.max_age_hours)
            ⊎ ((e ≡ uri_error) × IsUnlinkable platform passport))
  evaluate_available_throws config request observed_at input h =
      available_cases config request observed_at input input.operational_failure h

-- ===== src/PassportGate/Evaluation/Decisions.antt =====
-- What an accepting decision of `evaluatePassportGate` in packages/passport-gate/src/engine.ts is worth.
use launch_proof.PassportGate.Settlement.Laws.{same, passes, both}
use launch_proof.PassportGate.Evaluation.{
  case_of, expects, Option, evaluate_passport_gate, evaluate_contract, evaluate_available,
}
use launch_proof.PassportGate.Validation.{
  parse_observed_at, validate_passport_gate_request, validate_passport_gate_config,
}
use launch_proof.PassportGate.Primitives.{make_contract_identity}
use launch_proof.PassportGate.Evaluation.Stages.{
  judge_current_accepts, IsAccepted, decision_of, is_accepting,
}
use launch_proof.PassportGate.Engine.{url_failures, identity_of, safe_current_identity}
use launch_proof.PassportGate.Platform.{Platform}
use launch_proof.PassportGate.Reasons.{reason_eq}
use launch_proof.Shared.{
  refl, none, some, unique-eq_nil, sym, list_beq_iff, ℤ, [], true, some, ◌≡◌, Text, list_eq, nat_eq,
}
use launch_proof.PassportGate.Types.{
  launch_contract_invalid, PassportProof, OperationalFailure, PassportGateResult,
  ValidatedPassportGateRequest, PassportGateConfig, PassportGateEvaluationInput, ContractIdentity,
  PassportDecision, Outcome, CurrentLaunchContractProof, ◌>>=◌, returns, throws,
}

module _ (platform : Platform) where
  -- A signed, safely fetched contract of the URL that was asked for, and its identity.
  abbrev pub IsAuthentic : CurrentLaunchContractProof → Text → ContractIdentity → Type 0
  IsAuthentic proof requested identity =
      (make_contract_identity platform proof.launch_contract_url proof.manifest_hash
          proof.provider_address proof.source_revision
        ≡ returns identity)
      × ((identity.launch_contract_url ≡ requested)
          × ((proof.schema_valid ≡ true)
              × ((proof.signature_valid ≡ true)
                  × ((proof.manifest_hash_valid ≡ true) × (proof.safe_fetch_verified ≡ true)))))

  url_failures_none :
      (made : Outcome ContractIdentity) (requested : Text) (identity : ContractIdentity)
      → identity_of made ≡ some identity
      → url_failures made requested ≡ []
      → (made ≡ returns identity) × (identity.launch_contract_url ≡ requested)
  url_failures_none (throws e) requested identity h f = absurd (cc)
  url_failures_none (returns i) requested identity h f =
      let e = (passes launch_contract_invalid (list_beq_iff i.launch_contract_url requested)).0 f in
      (cc, cc)

  safe_current_identity-IsAuthentic :
      (proof : CurrentLaunchContractProof) (requested : Text) (identity : ContractIdentity)
      → (safe_current_identity platform proof requested).0 ≡ some identity
      → (safe_current_identity platform proof requested).1 ≡ []
      → IsAuthentic proof requested identity
  unfolding safe_current_identity
  safe_current_identity-IsAuthentic proof requested identity h f =
      let made =
        make_contract_identity platform proof.launch_contract_url proof.manifest_hash
          proof.provider_address proof.source_revision in
      let (u, (s, (g, (m, t)))) =
        (both same
            (both (passes _ same) (both (passes _ same) (both (passes _ same) (passes _ same))))).0
          (unique-eq_nil _ f) in
      let (e, r) = url_failures_none made requested identity h u in (e, (r, (s, (g, (m, t)))))

  module _ (d : PassportDecision) where
    -- What an evaluation that accepts has seen.
    abbrev pub HasEvidence :
        PassportGateEvaluationInput → PassportGateConfig → ValidatedPassportGateRequest → ℤ → Type 0
    HasEvidence input config request observed_at =
        (input.operational_failure ≡ none)
        × ((proof : CurrentLaunchContractProof) × (input.current_contract ≡ some proof)
            × ((identity : ContractIdentity) × IsAuthentic proof request.launch_contract_url
                  identity
                × (expects request.expected_provider_address identity.provider_address ≡ true)
                × (expects request.expected_source_revision identity.source_revision ≡ true)
                × ((passport : PassportProof) × (input.newest_relevant_passport ≡ some passport)
                    × IsAccepted platform d
                        (case_of platform config request observed_at (some identity)
                          (some passport))
                        identity passport)))

    abbrev pub IsJustified : PassportGateEvaluationInput → Type 0
    IsJustified input =
        (config : PassportGateConfig) × (validate_passport_gate_config platform input.config
          ≡ returns config)
        × ((request : ValidatedPassportGateRequest) × (validate_passport_gate_request platform
                input.request config
              ≡ returns request)
            × ((observed_at : ℤ) × (parse_observed_at platform input.observed_at
                  ≡ returns observed_at)
                × HasEvidence input config request observed_at))

  module _ (d : PassportDecision) (a : is_accepting d ≡ true) where
    evaluate_contract_accepts :
        (config : PassportGateConfig) (request : ValidatedPassportGateRequest) (observed_at : ℤ)
        (current : Option CurrentLaunchContractProof) (newest : Option PassportProof)
        → decision_of (evaluate_contract platform config request observed_at current newest)
          ≡ some d
        → (proof : CurrentLaunchContractProof) × (current ≡ some proof)
          × ((identity : ContractIdentity) × IsAuthentic proof request.launch_contract_url identity
              × (expects request.expected_provider_address identity.provider_address ≡ true)
              × (expects request.expected_source_revision identity.source_revision ≡ true)
              × ((passport : PassportProof) × (newest ≡ some passport)
                  × IsAccepted platform d
                      (case_of platform config request observed_at (some identity) (some passport))
                      identity
                      passport))
    unfolding evaluate_contract
    evaluate_contract_accepts config request observed_at none newest h = absurd (cc)
    evaluate_contract_accepts config request observed_at (some proof) newest h =
        let s = safe_current_identity platform proof request.launch_contract_url in
        let (identity, e, f, x, y, (passport, n, accepted)) =
          judge_current_accepts platform d a
            (case_of platform config request observed_at s.0 newest) s.0 s.1 h in
        (
          proof,
          refl,
          (
            identity,
            safe_current_identity-IsAuthentic proof request.launch_contract_url identity e f,
            x,
            y,
            (passport, n, accepted),
          ),
        )

    evaluate_available_accepts :
        (config : PassportGateConfig) (request : ValidatedPassportGateRequest) (observed_at : ℤ)
        (input : PassportGateEvaluationInput) (o : Option OperationalFailure)
        → o ≡ input.operational_failure
        → decision_of (evaluate_available platform config request observed_at input o) ≡ some d
        → HasEvidence d input config request observed_at
    unfolding evaluate_available
    evaluate_available_accepts config request observed_at input (some f) e h = absurd (cc)
    evaluate_available_accepts config request observed_at input none e h = (
      sym e,
      evaluate_contract_accepts config request observed_at input.current_contract
          input.newest_relevant_passport h,
    )

    returned :
        {A : Type 0} (o : Outcome A) (f : A → Outcome PassportGateResult)
        → decision_of (o >>= f) ≡ some d
        → (x : A) × (o ≡ returns x) × (decision_of (f x) ≡ some d)
    returned (returns x) f h = (x, refl, h)
    returned (throws e) f h = absurd (cc)

    -- An evaluation that ends in ALLOW or WARN read a valid configuration, request and time and no
    -- operational failure; the current contract was authentic and was what the caller expects; and
    -- the newest Passport has its identity, is trusted in every check, is not from the future, and
    -- is at its age what the decision says: not older than the maximum, and WARN exactly when it is
    -- older than the warning age.
    pub evaluate_passport_gate-IsJustified :
        (input : PassportGateEvaluationInput)
        → decision_of (evaluate_passport_gate platform input) ≡ some d
        → IsJustified d input
    unfolding evaluate_passport_gate
    evaluate_passport_gate-IsJustified input h =
        let (config, ec, h1) = returned (validate_passport_gate_config platform input.config) _ h in
        let (request, er, h2) =
          returned (validate_passport_gate_request platform input.request config) _ h1 in
        let (observed_at, eo, h3) = returned (parse_observed_at platform input.observed_at) _ h2 in
        (
          config,
          ec,
          (
            request,
            er,
            (
              observed_at,
              eo,
              evaluate_available_accepts config request observed_at input input.operational_failure
                  refl h3,
            ),
          ),
        )

-- ===== src/PassportGate/Evaluation/Reports.antt =====
-- What every decision of `evaluatePassportGate` in packages/passport-gate/src/engine.ts reports.
use launch_proof.PassportGate.Validation.{
  parse_observed_at, validate_passport_gate_request, validate_passport_gate_config,
}
use launch_proof.PassportGate.Engine.{
  same_base_identity, url_failures, safe_current_identity, identity_of, action_url, evidence_view,
  ViewInput, view_of, passport_url, explorer_links, optional,
}
use launch_proof.PassportGate.Evaluation.{
  freshness_from, expects, passport_failures, not, freshness_failures, judge_passport,
  judge_identity, judge_failures, judge_current, judge_checks, evaluate_passport_gate,
  evaluate_contract, evaluate_available, Freshness, Case, judge_age, decision,
}
use launch_proof.PassportGate.Platform.{Platform}
use launch_proof.PassportGate.Reasons.{reason_eq}
use launch_proof.Shared.{
  ◌==◌, ◌++◌, ℤ, Text, int_ltb, unique, truthy, Option, list_eq, nat_eq, refl, none, some, true,
  false, ◌≡◌, ◌≢◌, Bool, is_some, IsUnique, unique-IsUnique, List, [], ◌∷◌, ◌++◌, if-both,
}
use launch_proof.PassportGate.Types.{
  OperationalFailure, CurrentLaunchContractProof, passport_valid, passport_approaching_expiry,
  ValidatedPassportGateRequest, passport_expired, PassportGateConfig, PassportGateEvaluationInput,
  ContractIdentity, PassportProof, RehearsalAction, PassportGateResult, PassportGateDecisionResult,
  PassportDecision, Outcome, ◌>>=◌, returns, throws, available, unavailable, allow, warn, block,
  rehearsal_required, ReasonCode, PassportGateEvidenceView, RehearsalActionKind, ExplorerLinks,
}

abbrev pub is_rehearsal : PassportDecision → Bool
is_rehearsal rehearsal_required = true
is_rehearsal allow = false
is_rehearsal warn = false
is_rehearsal block = false

-- An action that is offered is never executed or paid for by the engine.
abbrev pub IsOffered : Option RehearsalAction → Type 0
IsOffered none = Unit
IsOffered (some action) =
    (action.requires_explicit_payment_approval ≡ true) × (action.automatically_executed ≡ false)

-- Reasons are given, none of them twice; an action is offered exactly when a rehearsal is required.
abbrev pub IsExplained : PassportGateDecisionResult → Type 0
IsExplained r =
    (r.reason_codes ≢ [])
    × (IsUnique r.reason_codes
        × ((is_some r.view.rehearsal_action ≡ is_rehearsal r.decision)
            × IsOffered r.view.rehearsal_action))

abbrev pub Explains : Outcome PassportGateResult → Type 0
Explains (returns (available r)) = IsExplained r
Explains (returns (unavailable r)) = Unit
Explains (throws e) = Unit

one_reason : (r : ReasonCode) → (r ∷ [] ≢ []) × IsUnique (r ∷ [])
one_reason r = (λ e. cc, (refl, tt))

unique_reasons :
    (r : ReasonCode) (rs : List ReasonCode) → (unique (r ∷ rs) ≢ []) × IsUnique (unique (r ∷ rs))
unfolding unique
unique_reasons r rs = (λ e. cc, unique-IsUnique (r ∷ rs))

-- A view that is made has this action.
abbrev Offers : Option RehearsalAction → Outcome PassportGateEvidenceView → Type 0
Offers action (returns v) = v.rehearsal_action ≡ action
Offers action (throws e) = Unit

view_of-Offers :
    (platform : Platform) (c : ViewInput) (action : Option RehearsalAction) (age : Option ℤ)
    (expiry : Option Text) (o : Outcome (Option Text)) (p : Outcome ExplorerLinks)
    → Offers action
        (o >>= λ page. p >>= λ links. returns (view_of platform c action age expiry page links))
view_of-Offers platform c action age expiry (throws e) p = tt
view_of-Offers platform c action age expiry (returns page) (throws e) = tt
view_of-Offers platform c action age expiry (returns page) (returns links) = refl

decision-Explains :
    (action : Option RehearsalAction) (o : Outcome PassportGateEvidenceView)
    (value : PassportDecision) (codes : List ReasonCode) (explanation : Text)
    → Offers action o
    → is_some action ≡ is_rehearsal value
    → IsOffered action
    → (codes ≢ []) × IsUnique codes
    → Explains (decision o value codes explanation)
unfolding decision
decision-Explains action (throws e) value codes explanation s h i g = tt
decision-Explains action (returns v) value codes explanation s h i (n, u) = (n, (u, rw s (h, i)))

module _ (platform : Platform) where
  evidence_view-Offers :
      (c : ViewInput) (action : Option RehearsalAction) (age : Option ℤ) (expiry : Option Text)
      → Offers action (evidence_view platform c action age expiry)
  unfolding evidence_view
  evidence_view-Offers c action age expiry =
      view_of-Offers platform c action age expiry
        (passport_url platform c.config.passport_base_url
          (truthy (optional (λ p. p.run_id) c.passport)))
        (explorer_links platform c.config c.passport)

  -- A decision without an action, and one that requires a rehearsal.
  plain :
      (c : ViewInput) (age : Option ℤ) (expiry : Option Text) (value : PassportDecision)
      (codes : List ReasonCode) (explanation : Text)
      → false ≡ is_rehearsal value
      → (codes ≢ []) × IsUnique codes
      → Explains (decision (evidence_view platform c none age expiry) value codes explanation)
  plain c age expiry value codes explanation h g =
      decision-Explains none _ value codes explanation (evidence_view-Offers c none age expiry) h tt
        g

  offer :
      (c : ViewInput) (config : PassportGateConfig) (url : Text) (kind : RehearsalActionKind)
      (previous : Option Text) (age : Option ℤ) (expiry : Option Text) (codes : List ReasonCode)
      (explanation : Text)
      → (codes ≢ []) × IsUnique codes
      → Explains (
          decision
            (evidence_view platform c
              (some (action_url platform config url kind previous))
              age
              expiry)
            rehearsal_required
            codes
            explanation)
  unfolding action_url
  offer c config url kind previous age expiry codes explanation g =
      let action = some (action_url platform config url kind previous) in
      decision-Explains action _ rehearsal_required codes explanation
        (evidence_view-Offers c action age expiry) refl (refl, refl) g

  judge_age-Explains :
      (c : Case) (passport : PassportProof) (f : Freshness)
      → Explains (judge_age platform c passport f)
  unfolding judge_age
  judge_age-Explains c passport f =
      if-both Explains (int_ltb c.request.max_age_hours f.age) _ _
        (λ e. offer _ _ _ _ _ _ _ _ _ (one_reason passport_expired))
        (λ e.
          if-both Explains (int_ltb c.request.warn_age_hours f.age) _ _
            (λ g. plain _ _ _ _ _ _ refl (one_reason passport_approaching_expiry))
            (λ g. plain _ _ _ _ _ _ refl (one_reason passport_valid)))

  judge_failures-Explains :
      (c : Case) (passport : PassportProof) (o : Option Freshness) (failures : List ReasonCode)
      → Explains (judge_failures platform c passport o failures)
  unfolding judge_failures
  judge_failures-Explains c passport o (r ∷ rs) = plain _ _ _ _ _ _ refl (unique_reasons r rs)
  judge_failures-Explains c passport none [] = tt
  judge_failures-Explains c passport (some f) [] = judge_age-Explains c passport f

  judge_fresh-Explains :
      (c : Case) (passport : PassportProof) (failures : List ReasonCode)
      (fresh : Outcome (Option Freshness))
      → Explains
          (fresh >>= λ o. judge_failures platform c passport o (failures ++ freshness_failures o))
  judge_fresh-Explains c passport failures (throws e) = tt
  judge_fresh-Explains c passport failures (returns o) =
      judge_failures-Explains c passport o (failures ++ freshness_failures o)

  judge_checks-Explains :
      (c : Case) (identity : ContractIdentity) (passport : PassportProof)
      → Explains (judge_checks platform c identity passport)
  unfolding judge_checks
  judge_checks-Explains c identity passport =
      judge_fresh-Explains c passport (passport_failures platform c.view.config identity passport) (
        freshness_from platform (platform.parse_date passport.anchored_block_timestamp)
          c.observed_at c.request.max_age_hours)

  judge_identity-Explains :
      (c : Case) (identity : ContractIdentity) (passport : PassportProof)
      (own : Outcome ContractIdentity)
      → Explains (judge_identity platform c identity passport own)
  unfolding judge_identity
  judge_identity-Explains c identity passport (throws e) = plain _ _ _ _ _ _ refl (one_reason _)
  judge_identity-Explains c identity passport (returns n) =
      if-both Explains (not (n.identity_hash == passport.identity.identity_hash)) _ _
        (λ e. plain _ _ _ _ _ _ refl (one_reason _))
        (λ e.
          if-both Explains (not (same_base_identity identity n)) _ _
            (λ g. offer _ _ _ _ _ _ _ _ _ (one_reason _))
            (λ g.
              if-both Explains (not (identity.source_revision == n.source_revision)) _ _
                (λ h. offer _ _ _ _ _ _ _ _ _ (one_reason _))
                (λ h. judge_checks-Explains c identity passport)))

  judge_passport-Explains :
      (c : Case) (identity : ContractIdentity) (o : Option PassportProof)
      → Explains (judge_passport platform c identity o)
  unfolding judge_passport
  judge_passport-Explains c identity none = offer _ _ _ _ _ _ _ _ _ (one_reason _)
  judge_passport-Explains c identity (some passport) = judge_identity-Explains c identity passport _

  judge_current-Explains :
      (c : Case) (o : Option ContractIdentity) (failures : List ReasonCode)
      → (is_some o ≡ false → failures ≢ [])
      → IsUnique failures
      → Explains (judge_current platform c o failures)
  unfolding judge_current
  judge_current-Explains c none failures h u = plain _ _ _ _ failures _ refl (h refl, u)
  judge_current-Explains c (some identity) (r ∷ rs) h u = plain _ _ _ _ (r ∷ rs) _ refl (λ e. cc, u)
  judge_current-Explains c (some identity) [] h u =
      if-both Explains (not (expects c.request.expected_provider_address identity.provider_address))
        _ _ (λ e. plain _ _ _ _ _ _ refl (one_reason _))
        (λ e.
          if-both Explains
            (not (expects c.request.expected_source_revision identity.source_revision)) _ _
            (λ g. plain _ _ _ _ _ _ refl (one_reason _))
            (λ g. judge_passport-Explains c identity c.view.passport))

  made_failures :
      (made : Outcome ContractIdentity) (requested : Text) (rest : List ReasonCode)
      → is_some (identity_of made) ≡ false
      → unique (url_failures made requested ++ rest) ≢ []
  unfolding unique
  made_failures (returns i) requested rest h e = cc
  made_failures (throws x) requested rest h e = cc

  evaluate_contract-Explains :
      (config : PassportGateConfig) (request : ValidatedPassportGateRequest) (observed_at : ℤ)
      (current : Option CurrentLaunchContractProof) (newest : Option PassportProof)
      → Explains (evaluate_contract platform config request observed_at current newest)
  unfolding evaluate_contract safe_current_identity
  evaluate_contract-Explains config request observed_at none newest = tt
  evaluate_contract-Explains config request observed_at (some proof) newest =
      judge_current-Explains _ _ _ (made_failures _ request.launch_contract_url _)
        (unique-IsUnique _)

  evaluate_available-Explains :
      (config : PassportGateConfig) (request : ValidatedPassportGateRequest) (observed_at : ℤ)
      (input : PassportGateEvaluationInput) (o : Option OperationalFailure)
      → Explains (evaluate_available platform config request observed_at input o)
  unfolding evaluate_available
  evaluate_available-Explains config request observed_at input (some f) = tt
  evaluate_available-Explains config request observed_at input none =
      evaluate_contract-Explains config request observed_at input.current_contract
        input.newest_relevant_passport

  then-Explains :
      {A : Type 0} (o : Outcome A) (f : A → Outcome PassportGateResult)
      → ((x : A) → Explains (f x))
      → Explains (o >>= f)
  then-Explains (returns x) f h = h x
  then-Explains (throws e) f h = tt

  evaluate-Explains :
      (input : PassportGateEvaluationInput) → Explains (evaluate_passport_gate platform input)
  unfolding evaluate_passport_gate
  evaluate-Explains input =
      then-Explains (validate_passport_gate_config platform input.config) _ (λ config.
        then-Explains (validate_passport_gate_request platform input.request config) _ (λ request.
          then-Explains (parse_observed_at platform input.observed_at) _ (λ observed_at.
            evaluate_available-Explains config request observed_at input
              input.operational_failure)))

  explained :
      (o : Outcome PassportGateResult) (r : PassportGateDecisionResult)
      → o ≡ returns (available r)
      → Explains o
      → IsExplained r
  explained o r h = rw h (λ e. e)

  -- Every decision gives at least one reason and none of them twice, and offers an action exactly
  -- when it requires a rehearsal; an action that is offered asks for an explicit approval of its
  -- payment and is not executed.
  pub evaluate_passport_gate-IsExplained :
      (input : PassportGateEvaluationInput) (r : PassportGateDecisionResult)
      → evaluate_passport_gate platform input ≡ returns (available r)
      → IsExplained r
  evaluate_passport_gate-IsExplained input r h =
      explained (evaluate_passport_gate platform input) r h (evaluate-Explains input)

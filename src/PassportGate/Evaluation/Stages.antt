-- ===== src/PassportGate/Evaluation/Stages.antt =====
-- The stages of `evaluatePassportGate` in packages/passport-gate/src/engine.ts, as far as they accept a
-- Passport.
use launch_proof.PassportGate.Primitives.{make_contract_identity}
use launch_proof.PassportGate.Evaluation.Trust.{passport_failures_iff, IsTrusted}
use launch_proof.PassportGate.Reasons.{reason_eq}
use launch_proof.Shared.{
  ap, sym, ℤ, Bool, true, false, not, ◌==◌, ◌≡◌, refl, ◌++◌, List, [], ◌∷◌, Text, list_eq, nat_eq,
  list_beq_iff, arith, int_ltb, if◌then◌else◌, Option, none, some, ◌-ℤ◌,
}
use launch_proof.PassportGate.Platform.{Platform}
use launch_proof.PassportGate.Types.{
  ◌>>=◌, Outcome, returns, throws, PassportGateResult, available, unavailable, PassportDecision,
  allow, warn, block, rehearsal_required, ReasonCode, PassportProof, ContractIdentity,
  ValidatedPassportGateRequest, PassportGateEvidenceView,
}
use launch_proof.PassportGate.Engine.{same_base_identity}
use launch_proof.PassportGate.Evaluation.{
  passport_failures, freshness_from, freshness_failures, Case, Freshness, expects, judge_age,
  judge_failures, judge_checks, judge_identity, judge_passport, judge_current, decision,
}
use launch_proof.PassportGate.Settlement.Laws.{both, same}

-- The decision that an evaluation ends in, if it ends in one.
abbrev pub decision_of : Outcome PassportGateResult → Option PassportDecision
decision_of (returns (available r)) = some r.decision
decision_of (returns (unavailable r)) = none
decision_of (throws e) = none

-- A client may go on after these decisions.
abbrev pub is_accepting : PassportDecision → Bool
is_accepting allow = true
is_accepting warn = true
is_accepting block = false
is_accepting rehearsal_required = false

abbrev pub decision_at : ValidatedPassportGateRequest → ℤ → PassportDecision
decision_at request age =
    if int_ltb request.max_age_hours age
    then rehearsal_required
    else if int_ltb request.warn_age_hours age
    then warn
    else allow

module _ (platform : Platform) (d : PassportDecision) where
  -- What is left of a Passport of the current identity: its checks and its time.
  abbrev pub IsTimely : ValidatedPassportGateRequest → ℤ → Text → Type 0
  IsTimely request observed_at anchored =
      (t : ℤ) × (platform.parse_date anchored ≡ some t)
      × (int_ltb observed_at t ≡ false)
      × (d ≡ decision_at request (observed_at -ℤ t))

  -- A Passport whose identity is the current one, that is trusted, and young enough.
  abbrev pub IsAccepted : Case → ContractIdentity → PassportProof → Type 0
  IsAccepted c identity passport =
      ((own : ContractIdentity) × (make_contract_identity platform
            passport.identity.launch_contract_url passport.identity.manifest_hash
            passport.identity.provider_address passport.identity.source_revision
          ≡ returns own)
        × (own.identity_hash ≡ passport.identity.identity_hash)
        × (same_base_identity identity own ≡ true)
        × (identity.source_revision ≡ own.source_revision))
      × (IsTrusted platform c.view.config identity passport
          × IsTimely c.request c.observed_at passport.anchored_block_timestamp)

module _ (platform : Platform) (d : PassportDecision) (a : is_accepting d ≡ true) where
  -- A decision that an evaluation ends in is the one that was taken.
  decided :
      (o : Outcome PassportGateEvidenceView) (value : PassportDecision) (reasons : List ReasonCode)
      (explanation : Text)
      → decision_of (decision o value reasons explanation) ≡ some d
      → d ≡ value
  unfolding decision
  decided (returns v) value reasons explanation h = cc
  decided (throws e) value reasons explanation h = absurd (cc)

  refuses :
      (o : Outcome PassportGateEvidenceView) (value : PassportDecision) (reasons : List ReasonCode)
      (explanation : Text)
      → is_accepting value ≡ false
      → ¬ (decision_of (decision o value reasons explanation) ≡ some d)
  refuses o value reasons explanation r h =
      let e = decided o value reasons explanation h in let k = ap (λ x. is_accepting x) e in cc

  -- Of two decisions the one that is accepted.
  if_decided :
      (b : Bool) (x y : Outcome PassportGateResult) (p q : PassportDecision)
      → (decision_of x ≡ some d → d ≡ p)
      → (decision_of y ≡ some d → d ≡ q)
      → decision_of (if b then x else y) ≡ some d
      → d ≡ (if b then p else q)
  if_decided true x y p q f g h = f h
  if_decided false x y p q f g h = g h

  if_refuses :
      (b : Bool) (x y : Outcome PassportGateResult)
      → ¬ (decision_of x ≡ some d)
      → decision_of (if b then x else y) ≡ some d
      → (b ≡ false) × (decision_of y ≡ some d)
  if_refuses true x y n h = absurd (n h)
  if_refuses false x y n h = (refl, h)

  judge_age-decision :
      (c : Case) (passport : PassportProof) (f : Freshness)
      → decision_of (judge_age platform c passport f) ≡ some d
      → d ≡ decision_at c.request f.age
  unfolding judge_age
  judge_age-decision c passport f h =
      if_decided (int_ltb c.request.max_age_hours f.age) _ _ rehearsal_required _
        (λ k. decided _ _ _ _ k)
        (λ k.
          if_decided (int_ltb c.request.warn_age_hours f.age) _ _ warn allow
            (λ g. decided _ _ _ _ g) (λ g. decided _ _ _ _ g) k)
        h

  judge_failures_accepts :
      (c : Case) (passport : PassportProof) (o : Option Freshness) (failures : List ReasonCode)
      → decision_of (judge_failures platform c passport o failures) ≡ some d
      → (failures ≡ []) × ((f : Freshness) × (o ≡ some f) × (d ≡ decision_at c.request f.age))
  unfolding judge_failures
  judge_failures_accepts c passport o (r ∷ rs) h = absurd (refuses _ _ _ _ refl h)
  judge_failures_accepts c passport none [] h = absurd (cc)
  judge_failures_accepts c passport (some f) [] h =
      (refl, (f, refl, judge_age-decision c passport f h))

  freshness_from-some :
      (o : Option ℤ) (observed_at max_age : ℤ) (f : Freshness)
      → freshness_from platform o observed_at max_age ≡ returns (some f)
      → (t : ℤ) × (o ≡ some t) × (int_ltb observed_at t ≡ false) × (f.age ≡ observed_at -ℤ t)
  unfolding freshness_from
  freshness_from-some none observed_at max_age f h = absurd (cc)
  freshness_from-some (some t) observed_at max_age f h = (t, refl, ground arith, ground arith)

  judge_fresh_accepts :
      (c : Case) (passport : PassportProof) (failures : List ReasonCode)
      (fresh : Outcome (Option Freshness))
      → decision_of
          (fresh >>= λ o. judge_failures platform c passport o (failures ++ freshness_failures o))
        ≡ some d
      → (failures ≡ [])
        × ((f : Freshness) × (fresh ≡ returns (some f)) × (d ≡ decision_at c.request f.age))
  judge_fresh_accepts c passport failures (throws e) h = absurd (cc)
  judge_fresh_accepts c passport failures (returns o) h =
      let (e, (f, g, r)) =
        judge_failures_accepts c passport o (failures ++ freshness_failures o) h in
      (((both same same).0 e).0, (f, ap returns g, r))

  judge_checks_accepts :
      (c : Case) (identity : ContractIdentity) (passport : PassportProof)
      → decision_of (judge_checks platform c identity passport) ≡ some d
      → IsTrusted platform c.view.config identity passport
        × IsTimely platform d c.request c.observed_at passport.anchored_block_timestamp
  unfolding judge_checks
  judge_checks_accepts c identity passport h =
      let (e, (f, g, r)) =
        judge_fresh_accepts c passport (passport_failures platform c.view.config identity passport)
          (freshness_from platform (platform.parse_date passport.anchored_block_timestamp)
            c.observed_at c.request.max_age_hours)
          h in
      let (t, p, q, s) =
        freshness_from-some (platform.parse_date passport.anchored_block_timestamp) c.observed_at
          c.request.max_age_hours f g in
      (
        (passport_failures_iff platform c.view.config identity passport).0 e,
        (t, p, q, rw (sym s) r),
      )

  judge_identity_accepts :
      (c : Case) (identity : ContractIdentity) (passport : PassportProof)
      (own : Outcome ContractIdentity)
      → decision_of (judge_identity platform c identity passport own) ≡ some d
      → (n : ContractIdentity) × (own ≡ returns n)
        × (n.identity_hash ≡ passport.identity.identity_hash)
        × (same_base_identity identity n ≡ true)
        × (identity.source_revision ≡ n.source_revision)
        × (decision_of (judge_checks platform c identity passport) ≡ some d)
  unfolding judge_identity
  judge_identity_accepts c identity passport (throws e) h = absurd (refuses _ _ _ _ refl h)
  judge_identity_accepts c identity passport (returns n) h =
      let hash = list_beq_iff n.identity_hash passport.identity.identity_hash in
      let revision = list_beq_iff identity.source_revision n.source_revision in
      let (x, h1) =
        if_refuses (not (n.identity_hash == passport.identity.identity_hash)) _ _
          (refuses _ _ _ _ refl) h in
      let (y, h2) =
        if_refuses (not (same_base_identity identity n)) _ _ (refuses _ _ _ _ refl) h1 in
      let (z, h3) =
        if_refuses (not (identity.source_revision == n.source_revision)) _ _ (refuses _ _ _ _ refl)
          h2 in
      (n, refl, ground arith, ground arith, ground arith, h3)

  judge_passport_accepts :
      (c : Case) (identity : ContractIdentity) (o : Option PassportProof)
      → decision_of (judge_passport platform c identity o) ≡ some d
      → (passport : PassportProof) × (o ≡ some passport) × IsAccepted platform d c identity passport
  unfolding judge_passport
  judge_passport_accepts c identity none h = absurd (refuses _ _ _ _ refl h)
  judge_passport_accepts c identity (some passport) h =
      let (n, e, hash, base, revision, g) = judge_identity_accepts c identity passport _ h in
      (passport, refl, ((n, e, hash, base, revision), judge_checks_accepts c identity passport g))

  pub judge_current_accepts :
      (c : Case) (o : Option ContractIdentity) (failures : List ReasonCode)
      → decision_of (judge_current platform c o failures) ≡ some d
      → (identity : ContractIdentity) × (o ≡ some identity)
        × (failures ≡ [])
        × (expects c.request.expected_provider_address identity.provider_address ≡ true)
        × (expects c.request.expected_source_revision identity.source_revision ≡ true)
        × ((passport : PassportProof) × (c.view.passport ≡ some passport)
            × IsAccepted platform d c identity passport)
  unfolding judge_current
  judge_current_accepts c none failures h = absurd (refuses _ _ _ _ refl h)
  judge_current_accepts c (some identity) (r ∷ rs) h = absurd (refuses _ _ _ _ refl h)
  judge_current_accepts c (some identity) [] h =
      let (x, h1) =
        if_refuses (not (expects c.request.expected_provider_address identity.provider_address)) _ _
          (refuses _ _ _ _ refl) h in
      let (y, h2) =
        if_refuses (not (expects c.request.expected_source_revision identity.source_revision)) _ _
          (refuses _ _ _ _ refl) h1 in
      (
        identity,
        refl,
        refl,
        ground arith,
        ground arith,
        judge_passport_accepts c identity c.view.passport h2,
      )

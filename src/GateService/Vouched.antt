-- ===== src/GateService/Vouched.antt =====
-- The Passport behind an accepting answer of `PassportGateService.check` in
-- backend/src/passport-gate/service.ts.
use launch_proof.GateService.Newest.{newest_of-IsNewest, time_of, Among, Among-filter, filter-Among}
use launch_proof.GateService.Target.{SameTarget, same_target-SameTarget, SameTarget-same_target}
use launch_proof.PassportGate.Evaluation.Decisions.{evaluate_passport_gate-IsJustified}
use launch_proof.PassportGate.Evaluation.{evaluate_passport_gate}
use launch_proof.GateService.Request.{operational_code}
use launch_proof.GateService.Check.{
  same_target, after_index, about, is_later, after_newest, newest_of, checked_of, Newest,
  unavailable_check,
}
use launch_proof.PassportGate.Evaluation.Stages.{is_accepting, decision_of}
use launch_proof.Shared.{
  refl, none, some, true, false, ◌≡◌, sym, ◌∙◌, inl, inr, list_eq, nat_eq, List, Option, Bool, Text,
  filter,
}
use launch_proof.Domain.Types.{RunRecord}
use launch_proof.PassportGate.Platform.{Platform}
use launch_proof.PassportGate.Types.{
  index_unavailable, PassportGateResult, OperationalReasonCode, PassportGateRequest,
  PassportGateEvaluationInput, PassportGateConfig, CurrentLaunchContractProof, Outcome, returns,
  throws, PassportDecision, PassportProof, available, unavailable,
}
use launch_proof.GateService.World.{
  Attempt, World, ServiceConfig, RegistryVerification, Hashing, done, broken,
}
use launch_proof.GateService.Confirmed.{decision_in, IsGood, moved, proof_confirms}

module _ (platform : Platform) (hashing : Hashing) (config : ServiceConfig)
    (gate : PassportGateConfig) (world : World) (d : PassportDecision)
    (a : is_accepting d ≡ true) where
  -- The engine accepts neither without a Passport nor after an operational failure.
  pub needs_passport :
      (input : PassportGateEvaluationInput)
      → input.newest_relevant_passport ≡ none
      → ¬ (decision_of (evaluate_passport_gate platform input) ≡ some d)
  needs_passport input n h =
      let (c, ec, (r, er, (o, eo, (f, (q, eq, (i, au, x, y, (p, ep, ac))))))) =
        evaluate_passport_gate-IsJustified platform d a input h in
      cc

  checked_decision :
      (o : Outcome PassportGateResult) → decision_in (checked_of platform o) ≡ decision_of o
  checked_decision (returns (available r)) = refl
  checked_decision (returns (unavailable r)) = refl
  checked_decision (throws e) = refl

  pub unavailable_accepts :
      (request : PassportGateRequest) (code : OperationalReasonCode) (t : Text)
      → ¬ (decision_in (unavailable_check platform world gate request code t) ≡ some d)
  unfolding unavailable_check
  unavailable_accepts request code t h =
      needs_passport
        (record {
          request = request;
          config = gate;
          observed_at = world.now;
          current_contract = none;
          newest_relevant_passport = none;
          operational_failure = some (record { code = code; explanation = t });
        })
        refl (sym (checked_decision _) ∙ h)

  -- The newest of a list of candidates: its verification on the chain confirms it, and no candidate
  -- is later.
  abbrev pub IsBest : List RunRecord → Type 0
  IsBest runs =
      (c : RunRecord) × (v : RegistryVerification) × Among c runs
      × (world.verify_strict c ≡ done v)
      × IsGood c v
      × ((e : RunRecord) (u : RegistryVerification)
          → Among e runs
          → world.verify_strict e ≡ done u
          → is_later (time_of platform hashing config gate world e u)
              (time_of platform hashing config gate world c v)
            ≡ false)

  some-proof : {x y : PassportProof} → some x ≡ some y → x ≡ y
  some-proof h = cc

  newest_vouches :
      (runs : List RunRecord) (current : CurrentLaunchContractProof) (request : PassportGateRequest)
      (a : Attempt (Option Newest))
      → newest_of platform hashing config gate world runs current none ≡ a
      → decision_in (after_newest platform hashing config gate world request current a) ≡ some d
      → IsBest runs
  newest_vouches runs current request (broken e) f h =
      absurd (unavailable_accepts request (operational_code e) _ h)
  newest_vouches runs current request (done none) f h = absurd (
      needs_passport (about platform world gate request current none) refl
        (sym (checked_decision _) ∙ h))
  newest_vouches runs current request (done (some n)) f h =
      let (
        cg,
        ec,
        (r, er, (o, eo, (x, (q, eq, (i, au, y, z, (p, ep, (own, (trusted, timely)))))))),
      ) =
        evaluate_passport_gate-IsJustified platform d a
          (about platform world gate request current (some n.proof))
          (sym (checked_decision _) ∙ h) in
      let (origin, (latest, after)) =
        newest_of-IsNewest platform hashing config gate world runs current none n f in
      elim origin [
        | inl e ↦ absurd (cc)
        | inr (c, v, among, (verified, (made, time))) ↦ (
          c,
          v,
          among,
          verified,
          proof_confirms platform hashing config c v current n.proof cg i made
              (moved platform hashing config cg i n.proof p (some-proof ep) trusted),
          λ e u m k. rw (sym time) (latest e u m k),
        )
      ]

  abbrev candidates : Text → List RunRecord → List RunRecord
  candidates url runs = filter (λ r. same_target platform r.canonical_evidence.target url) runs

  -- An accepted Passport: a run of the index for the same target, whose verification on the chain
  -- confirms it, with no such run that is later.
  abbrev pub IsVouched : Text → List RunRecord → Type 0
  IsVouched url runs =
      (c : RunRecord) × (v : RegistryVerification) × Among c runs
      × SameTarget platform c.canonical_evidence.target url
      × (world.verify_strict c ≡ done v)
      × IsGood c v
      × ((e : RunRecord) (u : RegistryVerification)
          → Among e runs
          → SameTarget platform e.canonical_evidence.target url
          → world.verify_strict e ≡ done u
          → is_later (time_of platform hashing config gate world e u)
              (time_of platform hashing config gate world c v)
            ≡ false)

  best_vouches :
      (url : Text) (runs : List RunRecord) → IsBest (candidates url runs) → IsVouched url runs
  best_vouches url runs (c, v, among, checked, good, latest) =
      let aimed : RunRecord → Bool = λ r. same_target platform r.canonical_evidence.target url in
      let (m, t) = Among-filter aimed c runs among in
      (
        c,
        v,
        m,
        same_target-SameTarget platform c.canonical_evidence.target url t,
        checked,
        good,
        λ e u n s k.
            latest e u
              (filter-Among aimed e runs n
                (SameTarget-same_target platform e.canonical_evidence.target url s))
              k,
      )

  pub index_vouches :
      (request : PassportGateRequest) (url : Text) (current : CurrentLaunchContractProof)
      (o : Option (List RunRecord))
      → decision_in (after_index platform hashing config gate world request url current o) ≡ some d
      → (runs : List RunRecord) × (o ≡ some runs) × IsVouched url runs
  index_vouches request url current none h =
      absurd (unavailable_accepts request index_unavailable _ h)
  index_vouches request url current (some runs) h = (
    runs,
    refl,
    best_vouches url runs (newest_vouches (candidates url runs) current request _ refl h),
  )

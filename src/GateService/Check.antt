-- ===== src/GateService/Check.antt =====
-- `PassportGateService.check` of backend/src/passport-gate/service.ts.
use launch_proof.Shared.{
  ℤ, int_ltb, int_eq, Bool, true, false, not, ◌||◌, ◌==◌, list_eq, nat_eq, Text, text, filter,
  Option, none, some, List, [], ◌∷◌, if◌then◌else◌,
}
use launch_proof.Domain.Contract.{LaunchContract}
use launch_proof.Domain.Types.{RunRecord}
use launch_proof.PassportGate.Platform.{Platform, Url}
use launch_proof.PassportGate.Types.{
  Outcome, returns, throws, Thrown, validation, PassportGateConfig, PassportGateRequest,
  ValidatedPassportGateRequest, CurrentLaunchContractProof, PassportProof, OperationalReasonCode,
  rpc_unavailable, index_unavailable, contract_fetch_unavailable, PassportGateResult, available,
  unavailable, block, PassportGateEvaluationInput,
}
use launch_proof.PassportGate.Primitives.{is_empty}
use launch_proof.PassportGate.Validation.{validate_passport_gate_request}
use launch_proof.PassportGate.Evaluation.{evaluate_passport_gate}
use launch_proof.GateService.World.{
  ServiceConfig, Hashing, RegistryVerification, Attempt, done, broken, Loaded, loaded, load_invalid,
  load_zod, load_failed, World, zod_error, contract_url_error, thrown, Checked, checked, failed,
}
use launch_proof.GateService.Proof.{proof_from_verification}
use launch_proof.GateService.Request.{is_request, operational_code}

abbrev pub is_blocked : PassportGateResult → Bool
is_blocked (unavailable r) = false
is_blocked (available r) = elim r.decision [ block ↦ true | _ ↦ false ]

-- The proof of a candidate and its time, with `none` for NaN.
pub record Newest : Type 0 where
  pub proof : PassportProof
  pub anchored_at : Option ℤ

-- `anchoredAt > newest.anchoredAt`
abbrev pub is_later : Option ℤ → Option ℤ → Bool
is_later (some a) (some b) = int_ltb b a
is_later _ _ = false

abbrev pub newer : Newest → Option Newest → Newest
newer n none = n
newer n (some old) = if is_later n.anchored_at old.anchored_at then n else old

module _ (platform : Platform) where
  -- `normalizeLaunchContractUrl` of backend/src/launch-contract/schema.ts; `none` is a throw.
  abbrev pub with_default_path : Url → Option Text
  with_default_path url =
      if not (is_empty url.username)
        || (not (is_empty url.password)
            || (not (is_empty url.search) || not (is_empty url.fragment)))
      then none
      else if url.pathname == text "/" || is_empty url.pathname
      then some (platform.href (record url { pathname = text "/.well-known/launch-contract.json" }))
      else some (platform.href url)

  unfoldable pub normalize_launch_contract_url : Text → Option Text
  normalize_launch_contract_url input = elim (platform.parse_url input) [
    | none ↦ none
    | some url ↦ with_default_path url
  ]

  abbrev pub same_normal : Option Text → Option Text → Bool
  same_normal (some a) (some b) = a == b
  same_normal _ _ = false

  unfoldable pub same_target : Text → Text → Bool
  unfolding normalize_launch_contract_url
  same_target left right =
      same_normal (normalize_launch_contract_url left) (normalize_launch_contract_url right)

  abbrev pub checked_of : Outcome PassportGateResult → Checked
  checked_of (returns r) = checked r
  checked_of (throws e) = failed (thrown e)

  -- The input of the engine about a contract, a Passport or none.
  abbrev pub about :
      World
      → PassportGateConfig
      → PassportGateRequest
      → CurrentLaunchContractProof
      → Option PassportProof
      → PassportGateEvaluationInput
  about world config request current newest = record {
    request = request;
    config = config;
    observed_at = world.now;
    current_contract = some current;
    newest_relevant_passport = newest;
    operational_failure = none;
  }

  unfoldable pub unavailable_check :
      World → PassportGateConfig → PassportGateRequest → OperationalReasonCode → Text → Checked
  unavailable_check world config request code explanation = checked_of (
      evaluate_passport_gate platform (record {
        request = request;
        config = config;
        observed_at = world.now;
        current_contract = none;
        newest_relevant_passport = none;
        operational_failure = some (record { code = code; explanation = explanation });
      }))

  module _ (hashing : Hashing) (config : ServiceConfig) (gate : PassportGateConfig)
      (world : World) where
    -- The time of a candidate: when it was anchored, or generated.
    abbrev pub candidate_time : RunRecord → RegistryVerification → Option ℤ
    candidate_time candidate v = elim v.anchored_at [
      | none ↦ platform.parse_date candidate.generated_at
      | some [] ↦ platform.parse_date candidate.generated_at
      | some (c ∷ s) ↦ platform.parse_date (c ∷ s)
    ]

    -- An error of the proof. Its message is one of primitives.ts, and none of them has a word that
    -- `operationalCode` looks for.
    abbrev pub error_text : Thrown → Option Text
    error_text e = some (text "PassportGateValidationError")

    abbrev pub proof_step :
        RunRecord → RegistryVerification → Outcome PassportProof → Option Newest → Attempt Newest
    proof_step candidate v (returns proof) newest =
        done (newer (record { proof = proof; anchored_at = candidate_time candidate v }) newest)
    proof_step candidate v (throws e) newest = broken (error_text e)

    abbrev pub candidate_step :
        RunRecord
        → CurrentLaunchContractProof
        → Attempt RegistryVerification
        → Option Newest
        → Attempt Newest
    candidate_step candidate current (broken e) newest = broken e
    candidate_step candidate current (done v) newest =
        proof_step candidate v (proof_from_verification platform hashing candidate v current config)
          newest

    -- The loop over the candidates.
    unfoldable pub newest_of :
        List RunRecord → CurrentLaunchContractProof → Option Newest → Attempt (Option Newest)
    newest_of [] current newest = done newest
    newest_of (c ∷ rest) current newest =
        elim (candidate_step c current (world.verify_strict c) newest) [
          | broken e ↦ broken e
          | done n ↦ newest_of rest current (some n)
        ]

    abbrev pub proof_in : Option Newest → Option PassportProof
    proof_in none = none
    proof_in (some n) = some n.proof

    abbrev pub after_newest :
        PassportGateRequest → CurrentLaunchContractProof → Attempt (Option Newest) → Checked
    after_newest request current (broken e) =
        unavailable_check world gate request (operational_code e)
          (text "Independent X Layer proof reconstruction is temporarily unavailable.")
    after_newest request current (done newest) =
        checked_of
          (evaluate_passport_gate platform (about world gate request current (proof_in newest)))

    abbrev pub after_index :
        PassportGateRequest → Text → CurrentLaunchContractProof → Option (List RunRecord) → Checked
    after_index request url current none =
        unavailable_check world gate request index_unavailable
          (text "The Passport discovery index is temporarily unavailable.")
    after_index request url current (some runs) =
        after_newest request current
          (newest_of (filter (λ r. same_target r.canonical_evidence.target url) runs) current none)

    abbrev pub after_available :
        PassportGateRequest
        → Text
        → CurrentLaunchContractProof
        → LaunchContract
        → Attempt (Unit {0})
        → Checked
    after_available request url current manifest (broken e) =
        unavailable_check world gate request (operational_code e)
          (text "The configured X Layer registry verification boundary is unavailable.")
    after_available request url current manifest (done u) =
        after_index request url current (world.index_of url manifest.provider_address)

    -- The contract alone decides if it has no manifest or is blocked.
    abbrev pub after_current :
        PassportGateRequest
        → Text
        → CurrentLaunchContractProof
        → Option LaunchContract
        → Outcome PassportGateResult
        → Checked
    after_current request url current manifest (throws e) = failed (thrown e)
    after_current request url current none (returns r) = checked r
    after_current request url current (some manifest) (returns r) =
        if is_blocked r
        then checked r
        else if not config.chain_ready
        then unavailable_check world gate request rpc_unavailable
            (text "Independent X Layer verification is not configured.")
        else after_available request url current manifest world.assert_available

    abbrev pub after_load : PassportGateRequest → Text → Loaded → Checked
    after_load request url (load_invalid code) = failed (thrown (validation code))
    after_load request url load_zod = failed zod_error
    after_load request url load_failed =
        unavailable_check world gate request contract_fetch_unavailable
          (text "The current Launch Contract could not be loaded safely.")
    after_load request url (loaded current manifest) =
        after_current request url current manifest
          (evaluate_passport_gate platform (about world gate request current none))

    abbrev pub after_validation :
        PassportGateRequest → Outcome ValidatedPassportGateRequest → Checked
    after_validation request (throws e) = failed (thrown e)
    after_validation request (returns valid) =
        after_load request valid.launch_contract_url (world.load_contract valid.launch_contract_url)

    abbrev pub after_url : PassportGateRequest → Option Text → Checked
    after_url request none = failed contract_url_error
    after_url request (some url) =
        let normalized = record request { launch_contract_url = url } in
        after_validation normalized (validate_passport_gate_request platform normalized gate)

    unfoldable pub check : PassportGateRequest → Checked
    unfolding normalize_launch_contract_url newest_of unavailable_check
    check request =
        if is_request request
        then after_url request (normalize_launch_contract_url request.launch_contract_url)
        else failed zod_error

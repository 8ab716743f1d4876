-- ===== src/GateService/Laws.antt =====
-- What an accepting answer of `PassportGateService.check` in backend/src/passport-gate/service.ts is worth.
use launch_proof.PassportGate.Validation.{validate_passport_gate_request}
use launch_proof.Domain.Contract.{LaunchContract}
use launch_proof.PassportGate.Validation.Bounds.{validate_passport_gate_request_parts}
use launch_proof.GateService.Target.{
  IsNormalOf, IsPublicOf, normalize_launch_contract_url-IsNormalOf,
  normalize_public_https_url-IsPublicOf,
}
use launch_proof.GateService.Vouched.{needs_passport, unavailable_accepts, IsVouched, index_vouches}
use launch_proof.PassportGate.Evaluation.{evaluate_passport_gate}
use launch_proof.GateService.Request.{is_request, operational_code}
use launch_proof.GateService.Check.{
  after_validation, normalize_launch_contract_url, after_url, after_load, is_blocked, check,
  after_current, after_available, about,
}
use launch_proof.PassportGate.Evaluation.Stages.{is_accepting, decision_of}
use launch_proof.Shared.{
  refl, none, some, true, false, ◌≡◌, ap, ◌∙◌, arith, list_eq, nat_eq, List, Option, Bool, Text,
  not, if◌then◌else◌,
}
use launch_proof.Domain.Types.{RunRecord}
use launch_proof.PassportGate.Platform.{Platform}
use launch_proof.PassportGate.Types.{
  ValidatedPassportGateRequest, contract_fetch_unavailable, rpc_unavailable, PassportGateResult,
  PassportGateRequest, PassportGateConfig, CurrentLaunchContractProof, Outcome, returns, throws,
  PassportDecision,
}
use launch_proof.GateService.World.{
  zod_error, Loaded, Attempt, World, ServiceConfig, Hashing, Checked, done, broken, failed, loaded,
  load_invalid, load_zod, load_failed,
}
use launch_proof.GateService.Confirmed.{decision_in}

module _ (platform : Platform) (hashing : Hashing) (config : ServiceConfig)
    (gate : PassportGateConfig) (world : World) (d : PassportDecision)
    (a : is_accepting d ≡ true) where
  if_rejects :
      (b : Bool) (x y : Checked)
      → decision_in (if b then x else y) ≡ some d
      → ¬ (decision_in x ≡ some d)
      → (b ≡ false) × (decision_in y ≡ some d)
  if_rejects true x y h n = absurd (n h)
  if_rejects false x y h n = (refl, h)

  -- All that an accepting check has asked for.
  abbrev pub IsChecked : Text → CurrentLaunchContractProof → LaunchContract → Type 0
  IsChecked url current manifest =
      (config.chain_ready ≡ true)
      × (world.assert_available ≡ done tt)
      × ((runs : List RunRecord) × (world.index_of url manifest.provider_address ≡ some runs)
          × IsVouched platform hashing config gate world d a url runs)

  available_vouches :
      (request : PassportGateRequest) (url : Text) (current : CurrentLaunchContractProof)
      (manifest : LaunchContract) (x : Attempt (Unit {0}))
      → decision_in
          (after_available platform hashing config gate world request url current manifest x)
        ≡ some d
      → (x ≡ done tt)
        × ((runs : List RunRecord) × (world.index_of url manifest.provider_address ≡ some runs)
            × IsVouched platform hashing config gate world d a url runs)
  available_vouches request url current manifest (broken e) h =
      absurd (
        unavailable_accepts platform hashing config gate world d a request (operational_code e) _ h)
  available_vouches request url current manifest (done tt) h = (
    refl,
    index_vouches platform hashing config gate world d a request url current
        (world.index_of url manifest.provider_address) h,
  )

  current_vouches :
      (request : PassportGateRequest) (url : Text) (current : CurrentLaunchContractProof)
      (o : Option LaunchContract) (r : Outcome PassportGateResult)
      → evaluate_passport_gate platform (about platform world gate request current none) ≡ r
      → decision_in (after_current platform hashing config gate world request url current o r)
        ≡ some d
      → (manifest : LaunchContract) × (o ≡ some manifest) × IsChecked url current manifest
  current_vouches request url current o (throws e) f h = absurd (cc)
  current_vouches request url current none (returns r) f h = absurd (
      needs_passport platform hashing config gate world d a
        (about platform world gate request current none) refl (ap (λ x. decision_of x) f ∙ h))
  current_vouches request url current (some manifest) (returns r) f h =
      let (b, h1) = if_rejects (is_blocked r) _ _ h (λ k.
        needs_passport platform hashing config gate world d a
          (about platform world gate request current none) refl (ap (λ x. decision_of x) f ∙ k)) in
      let (ready, h2) =
        if_rejects (not config.chain_ready) _ _ h1
          (unavailable_accepts platform hashing config gate world d a request rpc_unavailable _) in
      let (open_, rest) =
        available_vouches request url current manifest world.assert_available h2 in
      (manifest, refl, (ground arith, open_, rest))

  load_vouches :
      (request : PassportGateRequest) (url : Text) (l : Loaded)
      → decision_in (after_load platform hashing config gate world request url l) ≡ some d
      → (current : CurrentLaunchContractProof) × (manifest : LaunchContract) × (l
          ≡ loaded current (some manifest))
        × IsChecked url current manifest
  load_vouches request url (load_invalid code) h = absurd (cc)
  load_vouches request url load_zod h = absurd (cc)
  load_vouches request url load_failed h = absurd (
      unavailable_accepts platform hashing config gate world d a request contract_fetch_unavailable
        _ h)
  load_vouches request url (loaded current o) h =
      let (manifest, e, all) = current_vouches request url current o _ refl h in
      (current, manifest, ap (loaded current) e, all)

  -- An accepting check of a URL in the form in which it is fetched.
  abbrev IsFetched : Text → Type 0
  IsFetched normal =
      (url : Text) × (current : CurrentLaunchContractProof) × (manifest : LaunchContract)
      × IsPublicOf platform normal url
      × (world.load_contract url ≡ loaded current (some manifest))
      × IsChecked url current manifest

  validation_vouches :
      (request : PassportGateRequest) (o : Outcome ValidatedPassportGateRequest)
      → validate_passport_gate_request platform request gate ≡ o
      → decision_in (after_validation platform hashing config gate world request o) ≡ some d
      → IsFetched request.launch_contract_url
  validation_vouches request (throws e) f h = absurd (cc)
  validation_vouches request (returns valid) f h =
      let url = valid.launch_contract_url in
      let (current, manifest, e, all) = load_vouches request url (world.load_contract url) h in
      let same = (validate_passport_gate_request_parts platform request gate valid f).1 in
      (
        url,
        current,
        manifest,
        normalize_public_https_url-IsPublicOf platform request.launch_contract_url url same,
        e,
        all,
      )

  url_vouches :
      (request : PassportGateRequest) (o : Option Text)
      → normalize_launch_contract_url platform request.launch_contract_url ≡ o
      → decision_in (after_url platform hashing config gate world request o) ≡ some d
      → (normal : Text) × IsNormalOf platform request.launch_contract_url normal × IsFetched normal
  url_vouches request none e h = absurd (cc)
  url_vouches request (some normal) e h = (
    normal,
    normalize_launch_contract_url-IsNormalOf platform request.launch_contract_url normal e,
    validation_vouches (record request { launch_contract_url = normal }) _ refl h,
  )

  if_accepts :
      (b : Bool) (x : Checked)
      → decision_in (if b then x else failed zod_error) ≡ some d
      → (b ≡ true) × (decision_in x ≡ some d)
  if_accepts true x h = (refl, h)
  if_accepts false x h = absurd (cc)

  -- An answer ALLOW or WARN is given only to a request of the right shape whose URL has a normal
  -- form, of which the public form is fetched: the contract was loaded from there with its manifest,
  -- chain verification is configured and available, and the run index answered for that URL and the
  -- provider of the manifest. One of its runs for the same target was verified on the chain with a
  -- match of everything, of the database, of the transfers of both payments and of the stored event,
  -- with evidence of the status verified; no verified run of the index for that target is later.
  pub check_accepts :
      (request : PassportGateRequest)
      → decision_in (check platform hashing config gate world request) ≡ some d
      → (is_request request ≡ true)
        × ((normal : Text) × (url : Text) × (current : CurrentLaunchContractProof)
            × (manifest : LaunchContract) × IsNormalOf platform request.launch_contract_url normal
            × IsPublicOf platform normal url
            × (world.load_contract url ≡ loaded current (some manifest))
            × IsChecked url current manifest)
  unfolding check
  check_accepts request h =
      let (shaped, k) = if_accepts (is_request request) _ h in
      let (normal, own, (url, current, manifest, fetched, answered, all)) =
        url_vouches request _ refl k in
      (shaped, (normal, url, current, manifest, own, fetched, answered, all))

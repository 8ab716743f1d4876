-- ===== src/Registry/Gate.antt =====
-- The service of the gate over the registry: `PassportGateService.check` of
-- backend/src/passport-gate/service.ts with `verifyStrict` of backend/src/chain/registry.ts.
use launch_proof.Shared.{sym, ap, ◌∙◌, true, Text, some, List, ◌∷◌, ◌++◌, ◌≡◌}
use launch_proof.Domain.Contract.{LaunchContract}
use launch_proof.Domain.Types.{RunRecord, CanonicalEvidence, verified}
use launch_proof.PassportGate.Platform.{Platform}
use launch_proof.PassportGate.Types.{
  PassportDecision, PassportGateRequest, PassportGateConfig, CurrentLaunchContractProof,
}
use launch_proof.PassportGate.Evaluation.Stages.{is_accepting}
use launch_proof.GateService.World.{
  World, ServiceConfig, Hashing, Attempt, done, broken, RegistryVerification, loaded,
}
use launch_proof.GateService.Newest.{Among}
use launch_proof.GateService.Check.{check}
use launch_proof.Evidence.Delivery.{IsProved, matched_verified}
use launch_proof.GateService.Proof.{or_else}
use launch_proof.GateService.Confirmed.{evidence_of, decision_in, IsConfirmed}
use launch_proof.GateService.Target.{SameTarget, IsNormalOf, IsPublicOf}
use launch_proof.GateService.Laws.{check_accepts}
use launch_proof.Evidence.Policy.{EvidenceConfig, Libraries}
use launch_proof.Registry.Client.{Answer, answer, fails, Client, Digests, RegistryConfig}
use launch_proof.Registry.Verify.{verify_strict, hint_of}
use launch_proof.Registry.Laws.{IsAnchored, verify_strict-IsAnchored}

-- `${error.name} ${error.message}`
abbrev pub attempt_of : Answer RegistryVerification → Attempt RegistryVerification
attempt_of (answer v) = done v
attempt_of (fails e) = broken (some (e.name ++ (32 ∷ e.message)))

attempt_done :
    (a : Answer RegistryVerification) (v : RegistryVerification)
    → attempt_of a ≡ done v
    → a ≡ answer v
attempt_done (answer w) v h = cc
attempt_done (fails e) v h = absurd (cc)

module _ (platform : Platform) (libraries : Libraries) (policy : EvidenceConfig) (digests : Digests)
    (registry : RegistryConfig) (client : Client) where
  -- The registry of the service.
  abbrev pub with_registry : World → World
  with_registry world = record world {
    verify_strict = λ c.
        attempt_of
          (verify_strict platform libraries policy digests registry client c.run_id (some c));
  }

  -- The verified evidence, with all that it has shown.
  abbrev pub HasProof : RegistryVerification → Type 0
  HasProof v =
      (e : CanonicalEvidence) × (v.canonical_evidence ≡ some e)
      × (e.passport_status ≡ verified)
      × IsProved platform libraries policy e

  anchored-HasProof :
      (c : RunRecord) (v : RegistryVerification)
      → (evidence_of c v).passport_status ≡ verified
      → IsAnchored platform libraries policy digests registry client c.run_id (hint_of (some c)) v
      → HasProof v
  anchored-HasProof c v h
        (
          address, stored, log, args, e, place, got, event, published, own, hex, parsed, named,
          hash, gates, state, valid,
        ) =
      let status = sym (ap (λ o. (or_else o c.canonical_evidence).passport_status) own) ∙ h in
      (
        e,
        own,
        status,
        matched_verified platform libraries policy e args.run_id stored.anchored_at valid status,
      )

  -- A run of the index for the target of a URL that the chain confirms.
  abbrev pub HasAnchor : World → Text → Text → Type 0
  HasAnchor world url provider =
      (runs : List RunRecord) × (c : RunRecord) × (v : RegistryVerification) × (world.index_of url
          provider
        ≡ some runs)
      × Among c runs
      × SameTarget platform c.canonical_evidence.target url
      × (verify_strict platform libraries policy digests registry client c.run_id (some c)
          ≡ answer v)
      × IsConfirmed v
      × HasProof v
      × IsAnchored platform libraries policy digests registry client c.run_id (hint_of (some c)) v

  -- When the service answers ALLOW or WARN over this registry, the contract was loaded, with its
  -- manifest, from the public form of the normal form of the requested URL, and a run that the index
  -- has for that URL and the provider of the manifest is about the same target and has a strict
  -- verification that confirms it. The chain holds a stored record of that run and an event of it
  -- whose evidence is that of the verification: the stored hash, gate bitmap and status are those of
  -- the evidence, which validates with a match. The evidence is verified and has shown a discovered
  -- tool, a correct fixed sample, a rejected invalid input, three correct challenges, valid claims of
  -- safe use, and a delivery that was paid by a settlement of its own.
  pub check_accepts-IsAnchored :
      (hashing : Hashing) (config : ServiceConfig) (gate : PassportGateConfig) (world : World)
      (d : PassportDecision) (a : is_accepting d ≡ true) (request : PassportGateRequest)
      → decision_in (check platform hashing config gate (with_registry world) request) ≡ some d
      → (normal : Text) × (url : Text) × (current : CurrentLaunchContractProof)
        × (manifest : LaunchContract) × IsNormalOf platform request.launch_contract_url normal
        × IsPublicOf platform normal url
        × (world.load_contract url ≡ loaded current (some manifest))
        × HasAnchor world url manifest.provider_address
  check_accepts-IsAnchored hashing config gate world d a request h =
      let (
        shaped,
        (
          normal,
          url,
          current,
          manifest,
          own,
          fetched,
          answered,
          (
            ready,
            open_,
            (runs, indexed, (c, v, among, aimed, checked, (confirmed, status), latest)),
          ),
        ),
      ) =
        check_accepts platform hashing config gate (with_registry world) d a request h in
      let anchor =
        verify_strict-IsAnchored platform libraries policy digests registry client c.run_id (some c)
          v (attempt_done _ v checked) confirmed.0 in
      (
        normal,
        url,
        current,
        manifest,
        own,
        fetched,
        answered,
        (
          runs,
          c,
          v,
          indexed,
          among,
          aimed,
          attempt_done _ v checked,
          confirmed,
          anchored-HasProof c v status anchor,
          anchor,
        ),
      )

-- ===== src/Registry/Laws.antt =====
-- What a verification that matches in backend/src/chain/registry.ts has found on the chain.
use launch_proof.Shared.{
  Bool, true, truthy, ◌&&◌, ◌==◌, nat_eq, list_eq, list_beq_iff, Text, Option, none, some, ◌≡◌, sym,
  ap, ◌∙◌, arith, and-eq-true,
}
use launch_proof.Domain.Types.{CanonicalEvidence, RunRecord}
use launch_proof.Domain.Gates.{gate_bitmap, passport_status, contract_status}
use launch_proof.PassportGate.Platform.{Platform}
use launch_proof.GateService.World.{RegistryVerification}
use launch_proof.Evidence.Policy.{EvidenceConfig, Libraries}
use launch_proof.Evidence.Recompute.{same_status, is_rehearsable}
use launch_proof.Evidence.Payments.{same_lower}
use launch_proof.Evidence.Validate.{validated, validate_canonical_evidence}
use launch_proof.Evidence.Laws.{same_status_lem}
use launch_proof.Registry.Client.{
  answer, StoredChainRecord, PublishedArgs, ChainLog, Client, Digests, RegistryConfig,
  LoadedChainRun,
}
use launch_proof.Registry.Match.{chain_record_matches_event}
use launch_proof.Registry.Verify.{verification_of, verify_strict, hint_of}
use launch_proof.Registry.Load.{load, loaded_run, gate_status_match, not_false}
use launch_proof.Registry.Events.{bind_answers, IsEvent}
use launch_proof.Registry.Loading.{IsLoaded, load-IsLoaded}

verified-inj : {A : Type 0} {a b : A} → answer a ≡ answer b → a ≡ b
verified-inj h = cc

same_record :
    (stored args : StoredChainRecord)
    → chain_record_matches_event stored args ≡ true
    → (stored.evidence_hash ≡ args.evidence_hash)
      × (stored.gate_bitmap ≡ args.gate_bitmap)
      × (stored.status ≡ args.status)
      × (stored.anchored_at ≡ args.anchored_at)
unfolding chain_record_matches_event
same_record stored args h = ground (arith, list_beq_iff stored.evidence_hash args.evidence_hash)

-- Of the twelve comparisons of `match`, those that are used below.
all_match :
    (a b c d f g s t l m r : Bool)
    → (a && (b && (c && (d && (f && (g && (s && (t && (l && (m && r)))))))))) ≡ true
    → (a ≡ true) × (b ≡ true) × (s ≡ true) × (t ≡ true) × (l ≡ true) × (m ≡ true)
all_match a b c d f g s t l m r h = ground arith

module _ (platform : Platform) (libraries : Libraries) (policy : EvidenceConfig) (digests : Digests)
    (config : RegistryConfig) (client : Client) where
  -- The stored record of a run, and an event of it whose evidence has the stored hash as canonical
  -- text, has the stored gates and status, and validates with a match at the stored time.
  abbrev pub IsAnchored : Text → Option Text → RegistryVerification → Type 0
  IsAnchored run_id hint v =
      (address : Text) × (stored : StoredChainRecord) × (log : ChainLog) × (args : PublishedArgs)
      × (e : CanonicalEvidence) × (truthy config.registry_address ≡ some address)
      × (client.get_run run_id ≡ answer stored)
      × IsEvent config client address run_id hint stored.anchored_at log
      × (log.published ≡ some args)
      × (v.canonical_evidence ≡ some e)
      × (digests.hex_to_string args.canonical_evidence ≡ some (digests.jcs_evidence e))
      × (digests.parse_evidence (digests.jcs_evidence e) ≡ some e)
      × (same_lower e.run_id args.run_id ≡ true)
      × (digests.sha256 (digests.jcs_evidence e) ≡ stored.evidence_hash)
      × (gate_bitmap e.gates ≡ stored.gate_bitmap)
      × (contract_status e.passport_status ≡ stored.status)
      × (validate_canonical_evidence platform libraries policy e args.run_id stored.anchored_at
          ≡ validated true)

  status_matches :
      (e : CanonicalEvidence) (args : StoredChainRecord)
      → gate_status_match e args ≡ true
      → (gate_bitmap e.gates ≡ args.gate_bitmap) × (contract_status e.passport_status ≡ args.status)
  status_matches e args h =
      let recomputed = passport_status e.gates (is_rehearsable e.passport_status) in
      let (bitmap, r) = and-eq-true (gate_bitmap e.gates == args.gate_bitmap) _ h in
      let (same, status) = and-eq-true (same_status e.passport_status recomputed) _ r in
      (
        (nat_eq.beq_iff (gate_bitmap e.gates) args.gate_bitmap).0 bitmap,
        ap contract_status (same_status_lem _ _ same)
            ∙ (nat_eq.beq_iff (contract_status recomputed) args.status).0 status,
      )

  matched-IsAnchored :
      (run_id : Text) (cache : Option RunRecord) (hint : Option Text) (l : LoadedChainRun)
      → IsLoaded platform libraries policy digests config client run_id hint l
      → l.is_match ≡ true
      → IsAnchored run_id hint (verification_of platform cache (some l))
  matched-IsAnchored run_id cache hint l
        (
          address, stored, runtime, log, args, transaction, block, canonical, e, semantics, launch,
          target, place, got, event, published, hex, parsed, valid, same,
        )
        h =
      let r =
        loaded_run platform libraries policy digests config client address stored runtime args
          transaction block canonical e semantics launch target in
      let (jcs, hash, status, storage, links, semantic) =
        all_match r.canonical_jcs_match r.evidence_hash_match r.manifest_hash_match
          r.input_hash_match r.result_hash_match r.provider_signature_match r.gate_status_match
          r.storage_match r.link_fields_match r.evidence_semantics_match
          ((launch && not_false target) && runtime) (sym (ap (λ x. x.is_match) same) ∙ h) in
      let own = (list_beq_iff (digests.jcs_evidence e) canonical).0 jcs in
      let (stored_hash, stored_gates, stored_status, stored_time) =
        same_record stored args.fields storage in
      let (gates, state) = status_matches e args.fields status in
      (
        address,
        stored,
        log,
        args,
        e,
        place,
        got,
        event,
        published,
        ap (λ x. some x.evidence) same,
        hex ∙ ap (λ t. some t) (sym own),
        ap digests.parse_evidence own ∙ parsed,
        (and-eq-true (same_lower e.run_id args.run_id) _ links).0,
        ap digests.sha256 own
            ∙ ((list_beq_iff (digests.sha256 canonical) args.fields.evidence_hash).0 hash
                ∙ sym stored_hash),
        gates ∙ sym stored_gates,
        state ∙ sym stored_status,
        ap (λ t. validate_canonical_evidence platform libraries policy e args.run_id t) stored_time
            ∙ (valid ∙ ap validated semantic),
      )

  verification-IsAnchored :
      (run_id : Text) (cache : Option RunRecord) (o : Option LoadedChainRun)
      → load platform libraries policy digests config client run_id (hint_of cache) true ≡ answer o
      → (verification_of platform cache o).is_match ≡ true
      → IsAnchored run_id (hint_of cache) (verification_of platform cache o)
  verification-IsAnchored run_id cache none f h = absurd (cc)
  verification-IsAnchored run_id cache (some l) f h =
      matched-IsAnchored run_id cache (hint_of cache) l
        (load-IsLoaded platform libraries policy digests config client run_id (hint_of cache) true l
          f)
        h

  IsAnchored-moved :
      (run_id : Text) (hint : Option Text) (x v : RegistryVerification)
      → x ≡ v
      → v.is_match ≡ true
      → (x.is_match ≡ true → IsAnchored run_id hint x)
      → IsAnchored run_id hint v
  IsAnchored-moved run_id hint x v e m f = rw (sym e) (f (ap (λ y. y.is_match) e ∙ m))

  -- A strict verification that matches has read, at the configured registry, the stored record of the
  -- run and an event: one for the run in the successful receipt of the cached transaction, or the first
  -- that the registry's client gives for the run from a block of the stored time. The evidence of the
  -- verification is what the event holds, in its canonical form, and names the run of the event; the
  -- hash of that text is the stored one, its gate bitmap and status are the stored ones, and its
  -- validation at the stored time matches.
  pub verify_strict-IsAnchored :
      (run_id : Text) (cache : Option RunRecord) (v : RegistryVerification)
      → verify_strict platform libraries policy digests config client run_id cache ≡ answer v
      → v.is_match ≡ true
      → IsAnchored run_id (hint_of cache) v
  unfolding verify_strict
  verify_strict-IsAnchored run_id cache v h m =
      let (o, f, g) =
        bind_answers
          (load platform libraries policy digests config client run_id (hint_of cache) true) _ v
          h in
      IsAnchored-moved run_id (hint_of cache) _ v (verified-inj g) m
        (λ k. verification-IsAnchored run_id cache o f k)

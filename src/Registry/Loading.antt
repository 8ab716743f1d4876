-- ===== src/Registry/Loading.antt =====
-- What `load` of backend/src/chain/registry.ts has read when it returns a run.
use launch_proof.Shared.{
  ℕ, Bool, true, false, ◌&&◌, ◌==◌, nat_eq, list_eq, Text, truthy, Option, none, some, List, [],
  ◌∷◌, ◌≡◌, refl, sym, if◌then◌else◌,
}
use launch_proof.Domain.Types.{CanonicalEvidence}
use launch_proof.PassportGate.Platform.{Platform}
use launch_proof.Evidence.Policy.{EvidenceConfig, Libraries}
use launch_proof.Evidence.Validate.{
  Validation, validated, threw, unreadable, validate_canonical_evidence,
}
use launch_proof.Registry.Client.{
  RpcError, Answer, answer, fails, StoredChainRecord, PublishedArgs, ChainLog, Client, Digests,
  RegistryConfig, LoadedChainRun,
}
use launch_proof.Registry.Match.{payment_transfer_matches, is_bytes32_exact}
use launch_proof.Registry.Logs.{found_logs}
use launch_proof.Registry.Events.{bind_answers, IsEvent, found_logs-IsEvent}
use launch_proof.Registry.Load.{
  load, load_at, with_logs, with_log, with_evidence, with_validation, target_transfer, loaded_run,
}

then_some :
    {A : Type 0} (c : Bool) (x : Answer (Option A)) (a : A)
    → (if c then x else answer none) ≡ answer (some a)
    → x ≡ answer (some a)
then_some true x a h = h
then_some false x a h = absurd (cc)

else_some :
    {A : Type 0} (c : Bool) (x : Answer (Option A)) (a : A)
    → (if c then answer none else x) ≡ answer (some a)
    → x ≡ answer (some a)
else_some true x a h = absurd (cc)
else_some false x a h = h

loaded-inj : {A : Type 0} {a b : A} → answer (some a) ≡ answer (some b) → a ≡ b
loaded-inj h = cc

module _ (platform : Platform) (libraries : Libraries) (policy : EvidenceConfig) (digests : Digests)
    (config : RegistryConfig) (client : Client) where
  -- Where a loaded run comes from: the stored record, and an event of the run with evidence that
  -- validates.
  abbrev pub IsLoaded : Text → Option Text → LoadedChainRun → Type 0
  IsLoaded run_id hint l =
      (address : Text) × (stored : StoredChainRecord) × (runtime : Bool) × (log : ChainLog)
      × (args : PublishedArgs) × (transaction : Text) × (block : Option ℕ) × (canonical : Text)
      × (e : CanonicalEvidence) × (semantics : Bool) × (launch : Bool) × (target : Option Bool)
      × (truthy config.registry_address ≡ some address)
      × (client.get_run run_id ≡ answer stored)
      × IsEvent config client address run_id hint stored.anchored_at log
      × (log.published ≡ some args)
      × (digests.hex_to_string args.canonical_evidence ≡ some canonical)
      × (digests.parse_evidence canonical ≡ some e)
      × (validate_canonical_evidence platform libraries policy e args.run_id args.fields.anchored_at
          ≡ validated semantics)
      × (l
          ≡ loaded_run platform libraries policy digests config client address stored runtime args
              transaction block canonical e semantics launch target)

  module _ (run_id : Text) (hint : Option Text) (preserve : Bool) (l : LoadedChainRun)
      (address : Text) (place : truthy config.registry_address ≡ some address)
      (stored : StoredChainRecord) (got : client.get_run run_id ≡ answer stored) (runtime : Bool)
      (log : ChainLog) (event : IsEvent config client address run_id hint stored.anchored_at log)
      (transaction : Text) where
    validation_loads :
        (args : PublishedArgs) (canonical : Text) (e : CanonicalEvidence) (v : Validation)
        → log.published ≡ some args
        → digests.hex_to_string args.canonical_evidence ≡ some canonical
        → digests.parse_evidence canonical ≡ some e
        → validate_canonical_evidence platform libraries policy e args.run_id
            args.fields.anchored_at
          ≡ v
        → with_validation platform libraries policy digests config client address stored runtime
            args transaction log.block_number canonical e preserve v
          ≡ answer (some l)
        → IsLoaded run_id hint l
    validation_loads args canonical e unreadable d x p q h = absurd (cc)
    validation_loads args canonical e threw d x p q h = absurd (cc)
    validation_loads args canonical e (validated b) d x p q h =
        let block = log.block_number in
        let (launch, hl, h1) =
          bind_answers
            (payment_transfer_matches platform client e.launchproof_payment block preserve) _
            (some l) h in
        let (target, ht, h2) =
          bind_answers
            (target_transfer platform libraries policy digests config client e.target_payment block
              preserve)
            _ (some l) h1 in
        (
          address,
          stored,
          runtime,
          log,
          args,
          transaction,
          block,
          canonical,
          e,
          b,
          launch,
          target,
          place,
          got,
          event,
          d,
          x,
          p,
          q,
          sym (loaded-inj h2),
        )

    parse_loads :
        (args : PublishedArgs) (canonical : Text) (o : Option CanonicalEvidence)
        → log.published ≡ some args
        → digests.hex_to_string args.canonical_evidence ≡ some canonical
        → digests.parse_evidence canonical ≡ o
        → (elim o [
          | none ↦ answer none
          | some e ↦
              with_validation platform libraries policy digests config client address stored runtime
                args transaction log.block_number canonical e preserve
                (validate_canonical_evidence platform libraries policy e args.run_id
                  args.fields.anchored_at)
        ])
          ≡ answer (some l)
        → IsLoaded run_id hint l
    parse_loads args canonical none d x p h = absurd (cc)
    parse_loads args canonical (some e) d x p h = validation_loads args canonical e _ d x p refl h

    evidence_loads :
        (args : PublishedArgs) (o : Option Text)
        → log.published ≡ some args
        → digests.hex_to_string args.canonical_evidence ≡ o
        → with_evidence platform libraries policy digests config client address stored runtime args
            transaction log.block_number preserve o
          ≡ answer (some l)
        → IsLoaded run_id hint l
    evidence_loads args none d x h = absurd (cc)
    evidence_loads args (some canonical) d x h = parse_loads args canonical _ d x refl h

    published_loads :
        (o : Option PublishedArgs) (e : RpcError)
        → log.published ≡ o
        → (elim o [
          | none ↦ fails e
          | some args ↦
              with_evidence platform libraries policy digests config client address stored runtime
                args transaction log.block_number preserve
                (digests.hex_to_string args.canonical_evidence)
        ])
          ≡ answer (some l)
        → IsLoaded run_id hint l
    published_loads none e d h = absurd (cc)
    published_loads (some args) e d h = evidence_loads args _ d refl h

  module _ (run_id : Text) (hint : Option Text) (preserve : Bool) (l : LoadedChainRun)
      (address : Text) (place : truthy config.registry_address ≡ some address)
      (stored : StoredChainRecord) (got : client.get_run run_id ≡ answer stored)
      (runtime : Bool) where
    log_loads :
        (o : Option Text) (log : ChainLog)
        → IsEvent config client address run_id hint stored.anchored_at log
        → with_log platform libraries policy digests config client address stored runtime preserve o
            log
          ≡ answer (some l)
        → IsLoaded run_id hint l
    log_loads none log event h = absurd (cc)
    log_loads (some transaction) log event h =
        published_loads run_id hint preserve l address place stored got runtime log event
          transaction log.published _ refl h

    logs_load :
        (logs : List ChainLog)
        → found_logs config client address run_id hint stored.anchored_at ≡ answer logs
        → with_logs platform libraries policy digests config client address stored runtime preserve
            logs
          ≡ answer (some l)
        → IsLoaded run_id hint l
    logs_load [] f h = absurd (cc)
    logs_load (log ∷ rest) f h =
        log_loads (truthy log.transaction_hash) log
          (found_logs-IsEvent config client address run_id stored.anchored_at log rest hint f) h

  module _ (run_id : Text) (hint : Option Text) (preserve : Bool) (l : LoadedChainRun) where
    load_at-IsLoaded :
        (o : Option Text)
        → truthy config.registry_address ≡ o
        → load_at platform libraries policy digests config client run_id hint preserve o
          ≡ answer (some l)
        → IsLoaded run_id hint l
    load_at-IsLoaded none place h = absurd (cc)
    load_at-IsLoaded (some address) place h =
        let (stored, got, h1) =
          bind_answers (client.get_run run_id) _ (some l)
            (then_some (config.has_rpc_url && is_bytes32_exact run_id) _ l h) in
        let (code, hc, h2) = bind_answers client.get_code _ (some l) h1 in
        let (logs, hl, h3) =
          bind_answers (found_logs config client address run_id hint stored.anchored_at) _ (some l)
            (else_some (stored.anchored_at == 0) _ l h2) in
        logs_load run_id hint preserve l address place stored got _ logs hl h3

    pub load-IsLoaded :
        load platform libraries policy digests config client run_id hint preserve ≡ answer (some l)
        → IsLoaded run_id hint l
    unfolding load
    load-IsLoaded h = load_at-IsLoaded (truthy config.registry_address) refl h

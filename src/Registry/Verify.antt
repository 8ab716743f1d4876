-- ===== src/Registry/Verify.antt =====
-- `verifyStrict`, `verify` and `readPublishedRun` of backend/src/chain/registry.ts.
use launch_proof.Shared.{
  ◌*◌, pos, Bool, true, false, nat_eq, list_eq, Text, Option, none, some, if◌then◌else◌,
}
use launch_proof.Domain.Types.{RunRecord}
use launch_proof.PassportGate.Platform.{Platform}
use launch_proof.PassportGate.Amounts.{show_nat}
use launch_proof.GateService.World.{RegistryVerification}
use launch_proof.Evidence.Policy.{EvidenceConfig, Libraries}
use launch_proof.Registry.Client.{
  Answer, answer, fails, ◌>>=◌, Client, Digests, RegistryConfig, LoadedChainRun,
}
use launch_proof.Registry.Match.{cache_matches_loaded}
use launch_proof.Registry.Load.{load}

abbrev pub empty_verification : Bool → RegistryVerification
empty_verification found = record {
  chain_record_found = found;
  evidence_hash_match = false;
  canonical_jcs_match = false;
  manifest_hash_match = false;
  input_hash_match = false;
  result_hash_match = false;
  provider_signature_match = false;
  gate_status_match = false;
  storage_match = false;
  link_fields_match = false;
  evidence_semantics_match = false;
  launch_payment_transfer_match = false;
  target_payment_transfer_match = none;
  registry_runtime_match = false;
  cache_match = none;
  is_match = false;
  transaction_hash = none;
  block_number = none;
  anchored_at = none;
  canonical_evidence = none;
}

abbrev pub hint_of : Option RunRecord → Option Text
hint_of none = none
hint_of (some cache) = some cache.chain.evidence_transaction_hash

abbrev pub cache_match : Option RunRecord → LoadedChainRun → Option Bool
cache_match none loaded = none
cache_match (some cache) loaded = some (cache_matches_loaded cache loaded)

abbrev pub verification_of :
    Platform → Option RunRecord → Option LoadedChainRun → RegistryVerification
verification_of platform cache none = empty_verification false
verification_of platform cache (some loaded) = record {
  chain_record_found = true;
  evidence_hash_match = loaded.evidence_hash_match;
  canonical_jcs_match = loaded.canonical_jcs_match;
  manifest_hash_match = loaded.manifest_hash_match;
  input_hash_match = loaded.input_hash_match;
  result_hash_match = loaded.result_hash_match;
  provider_signature_match = loaded.provider_signature_match;
  gate_status_match = loaded.gate_status_match;
  storage_match = loaded.storage_match;
  link_fields_match = loaded.link_fields_match;
  evidence_semantics_match = loaded.evidence_semantics_match;
  launch_payment_transfer_match = loaded.launch_payment_transfer_match;
  target_payment_transfer_match = loaded.target_payment_transfer_match;
  registry_runtime_match = loaded.registry_runtime_match;
  cache_match = cache_match cache loaded;
  is_match = loaded.is_match;
  transaction_hash = some loaded.transaction_hash;
  block_number = elim loaded.block_number [ none ↦ none | some n ↦ some (show_nat n) ];
  anchored_at = some (platform.iso_string (pos (loaded.args.fields.anchored_at * 1000)));
  canonical_evidence = some loaded.evidence;
}

-- Every error is caught.
abbrev pub or_empty : Answer RegistryVerification → RegistryVerification
or_empty (answer v) = v
or_empty (fails e) = empty_verification false

abbrev pub published_record : Answer (Option LoadedChainRun) → Option RunRecord
published_record (answer (some loaded)) = if loaded.is_match then some loaded.chain_record else none
published_record _ = none

module _ (platform : Platform) (libraries : Libraries) (policy : EvidenceConfig) (digests : Digests)
    (config : RegistryConfig) (client : Client) where
  unfoldable pub verify_strict : Text → Option RunRecord → Answer RegistryVerification
  unfolding load cache_matches_loaded
  verify_strict run_id cache =
      load platform libraries policy digests config client run_id (hint_of cache) true
      >>= (λ l. answer (verification_of platform cache l))

  unfoldable pub verify : Text → Option RunRecord → RegistryVerification
  unfolding verify_strict
  verify run_id cache = or_empty (verify_strict run_id cache)

  unfoldable pub read_published_run : Text → Option RunRecord → Option RunRecord
  unfolding load
  read_published_run run_id cache =
      published_record
        (load platform libraries policy digests config client run_id (hint_of cache) false)

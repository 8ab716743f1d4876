-- ===== src/PassportGate/Engine.antt =====
-- `evaluatePassportGate` of packages/passport-gate/src/engine.ts.
use launch_proof.Shared.{
  ℕ, ℤ, Bool, true, false, ◌&&◌, Text, text, truthy, Option, none, some, List, [], ◌∷◌, ◌++◌, ◌==◌,
  nat_eq, list_eq, unique,
}
use launch_proof.PassportGate.Platform.{Platform}
use launch_proof.PassportGate.Types.{
  launch_contract_hash_mismatch, launch_contract_signature_invalid, PassportGateEvidenceView,
  ExplorerLinks, launch_contract_unsafe_url, SettlementReference, RehearsalAction,
  PassportGateConfig, CurrentLaunchContractProof, validation, unsafe_launch_contract_url, verified,
  needs_attention, not_rehearsable, RehearsalActionKind, renew, independent_verification_failed,
  registry_event_storage_mismatch, registry_runtime_mismatch, passport_source_revision_mismatch,
  passport_contract_identity_mismatch, provider_signature_mismatch, result_hash_mismatch,
  gate_paid_delivery_failed, input_hash_mismatch, gate_safe_to_rehearse_failed,
  manifest_hash_mismatch, gate_fresh_challenge_failed, passport_not_rehearsable,
  gate_contract_correct_failed, evidence_hash_mismatch, canonical_evidence_mismatch,
  publication_transaction_mismatch, passport_needs_attention, launch_contract_invalid,
  gate_discoverable_failed, chain_record_missing, ReasonCode, VerificationChecks, Thrown,
  PassportStatus, PassportProof, GateResults, ContractIdentity, Outcome, returns, throws, ◌>>=◌,
  uri_error,
}
use launch_proof.PassportGate.Primitives.{normalize_bytes32, make_contract_identity}
use launch_proof.PassportGate.Settlement.{fail_unless}
use launch_proof.PassportGate.Reasons.{reason_eq}

-- The range of a `Date`, in milliseconds either side of the epoch.
abbrev pub max_date : ℕ
max_date = 8640000000000000

abbrev pub same_base_identity : ContractIdentity → ContractIdentity → Bool
same_base_identity left right =
    (left.launch_contract_url == right.launch_contract_url)
    && ((left.manifest_hash == right.manifest_hash)
        && (left.provider_address == right.provider_address))

abbrev pub identity_failure : Thrown → ReasonCode
identity_failure (validation unsafe_launch_contract_url) = launch_contract_unsafe_url
identity_failure _ = launch_contract_invalid

abbrev pub identity_of : Outcome ContractIdentity → Option ContractIdentity
identity_of (returns identity) = some identity
identity_of (throws e) = none

abbrev pub url_failures : Outcome ContractIdentity → Text → List ReasonCode
url_failures (returns identity) requested =
    fail_unless (identity.launch_contract_url == requested) launch_contract_invalid
url_failures (throws e) requested = identity_failure e ∷ []

-- A condition that a map of names to flags fails: one code for each flag that is false.
abbrev pub verification_failures : VerificationChecks → List ReasonCode
verification_failures v =
    fail_unless v.chain_record_found chain_record_missing
    ++ (fail_unless v.canonical_evidence_match canonical_evidence_mismatch
        ++ (fail_unless v.evidence_hash_match evidence_hash_mismatch
            ++ (fail_unless v.manifest_hash_match manifest_hash_mismatch
                ++ (fail_unless v.input_hash_match input_hash_mismatch
                    ++ (fail_unless v.result_hash_match result_hash_mismatch
                        ++ (fail_unless v.provider_signature_match provider_signature_mismatch
                            ++ (fail_unless v.contract_identity_match
                                  passport_contract_identity_mismatch
                                ++ (fail_unless v.source_revision_match
                                      passport_source_revision_mismatch
                                    ++ (fail_unless v.registry_runtime_match
                                          registry_runtime_mismatch
                                        ++ (fail_unless v.event_storage_match
                                              registry_event_storage_mismatch
                                            ++ (fail_unless v.publication_transaction_match
                                                  publication_transaction_mismatch
                                                ++ fail_unless v.independently_verified
                                                    independent_verification_failed)))))))))))

abbrev pub gate_failures : GateResults → List ReasonCode
gate_failures g =
    fail_unless g.discoverable gate_discoverable_failed
    ++ (fail_unless g.contract_correct gate_contract_correct_failed
        ++ (fail_unless g.fresh_challenge gate_fresh_challenge_failed
            ++ (fail_unless g.safe_to_rehearse gate_safe_to_rehearse_failed
                ++ fail_unless g.paid_delivery gate_paid_delivery_failed)))

abbrev pub status_failures : PassportStatus → List ReasonCode
status_failures verified = []
status_failures needs_attention = passport_needs_attention ∷ []
status_failures not_rehearsable = passport_not_rehearsable ∷ []

-- `normalizeBytes32` does not throw.
abbrev pub is_hash : Text → Bool
is_hash value = elim (normalize_bytes32 value) [ returns h ↦ true | throws e ↦ false ]

abbrev pub hash_failures : PassportProof → List ReasonCode
hash_failures p =
    fail_unless (is_hash p.publication_transaction_hash) publication_transaction_mismatch
    ++ (fail_unless (is_hash p.evidence_hash) evidence_hash_mismatch
        ++ (fail_unless (is_hash p.manifest_hash) manifest_hash_mismatch
            ++ (fail_unless (is_hash p.input_hash) input_hash_mismatch
                ++ fail_unless (is_hash p.result_hash) result_hash_mismatch)))

-- A base with an encoded text.
abbrev pub joined : Text → Option Text → Outcome (Option Text)
joined base none = throws uri_error
joined base (some encoded) = returns (some (base ++ encoded))

module _ (platform : Platform) where
  abbrev pub transaction_url : Text → Option Text → Outcome (Option Text)
  transaction_url base none = returns none
  transaction_url base (some hash) =
      joined (base ++ text "/tx/") (platform.encode_uri_component hash)

  abbrev pub passport_url : Text → Option Text → Outcome (Option Text)
  passport_url base none = returns none
  passport_url base (some run_id) =
      joined (base ++ text "/passport/") (platform.encode_uri_component run_id)

  abbrev pub query_of : Text → RehearsalActionKind → Option Text → List (Text × Text)
  query_of url renew (some run_id) =
      (text "launch_contract_url", url) ∷ (text "previous_run_id", run_id) ∷ []
  query_of url _ _ = (text "launch_contract_url", url) ∷ []

  unfoldable pub action_url :
      PassportGateConfig → Text → RehearsalActionKind → Option Text → RehearsalAction
  action_url config url kind previous_run_id = record {
    kind = kind;
    url =
        platform.rehearse_url (config.rehearsal_base_url ++ text "/")
          (query_of url kind (truthy previous_run_id));
    requires_explicit_payment_approval = true;
    automatically_executed = false;
  }

  -- The identity of the current contract, and why it is not to be trusted.
  unfoldable pub safe_current_identity :
      CurrentLaunchContractProof → Text → Option ContractIdentity × List ReasonCode
  safe_current_identity proof requested =
      let made =
        make_contract_identity platform proof.launch_contract_url proof.manifest_hash
          proof.provider_address proof.source_revision in
      (
        identity_of made,
        unique (
            url_failures made requested
            ++ (fail_unless proof.schema_valid launch_contract_invalid
                ++ (fail_unless proof.signature_valid launch_contract_signature_invalid
                    ++ (fail_unless proof.manifest_hash_valid launch_contract_hash_mismatch
                        ++ fail_unless proof.safe_fetch_verified launch_contract_unsafe_url)))),
      )

abbrev pub reference_transaction : Option SettlementReference → Option Text
reference_transaction none = none
reference_transaction (some reference) = some reference.transaction_hash

-- A field of a Passport or of an identity that may be missing.
abbrev pub optional {ℓ κ} : {A : Type ℓ} {B : Type κ} → (A → B) → Option A → Option B
optional f none = none
optional f (some a) = some (f a)

abbrev pub chained {ℓ κ} : {A : Type ℓ} {B : Type κ} → (A → Option B) → Option A → Option B
chained f none = none
chained f (some a) = f a

abbrev pub or_else {ℓ} : {A : Type ℓ} → Option A → Option A → Option A
or_else (some a) other = some a
or_else none other = other

abbrev pub is_verified_by : Option PassportProof → Bool
is_verified_by none = false
is_verified_by (some p) = p.verification.independently_verified

-- What all views of an evaluation share.
pub record ViewInput : Type 0 where
  pub config : PassportGateConfig
  pub observed_at : Text
  pub warn_age_hours : ℤ
  pub max_age_hours : ℤ
  pub identity : Option ContractIdentity
  pub passport : Option PassportProof

module _ (platform : Platform) where
  abbrev pub explorer_links : PassportGateConfig → Option PassportProof → Outcome ExplorerLinks
  explorer_links config passport = do
    publication_url ←
        transaction_url platform config.explorer_base_url
          (truthy (optional (λ p. p.publication_transaction_hash) passport))
    inbound_url ←
        transaction_url platform config.explorer_base_url
          (truthy (chained (λ p. reference_transaction p.inbound_settlement.reference) passport))
    provider_url ←
        transaction_url platform config.explorer_base_url
          (truthy (chained (λ p. reference_transaction p.provider_settlement.reference) passport))
    returns (record {
      publication_transaction = publication_url;
      inbound_settlement = inbound_url;
      provider_settlement = provider_url;
    })

  -- The view, once its URLs are made.
  abbrev pub view_of :
      ViewInput
      → Option RehearsalAction
      → Option ℤ
      → Option Text
      → Option Text
      → ExplorerLinks
      → PassportGateEvidenceView
  view_of input action age expiry page links = record {
    observed_at = input.observed_at;
    passport_age_hours = age;
    warn_age_hours = input.warn_age_hours;
    max_age_hours = input.max_age_hours;
    expires_at = expiry;
    contract_identity = input.identity;
    provider_address = optional (λ i. i.provider_address) input.identity;
    source_revision = optional (λ i. i.source_revision) input.identity;
    run_id = optional (λ p. p.run_id) input.passport;
    passport_url = page;
    status = optional (λ p. p.status) input.passport;
    gates = optional (λ p. p.gates) input.passport;
    independent_verification = is_verified_by input.passport;
    database_chain_match = optional (λ p. p.database_chain_match) input.passport;
    inbound_settlement = chained (λ p. p.inbound_settlement.reference) input.passport;
    provider_settlement = chained (λ p. p.provider_settlement.reference) input.passport;
    evidence_publication_transaction =
        optional (λ p. p.publication_transaction_hash) input.passport;
    explorer_links = links;
    evidence_hash = optional (λ p. p.evidence_hash) input.passport;
    manifest_hash =
        or_else (optional (λ p. p.manifest_hash) input.passport)
          (optional (λ i. i.manifest_hash) input.identity);
    input_hash = optional (λ p. p.input_hash) input.passport;
    result_hash = optional (λ p. p.result_hash) input.passport;
    rehearsal_action = action;
  }

  unfoldable pub evidence_view :
      ViewInput → Option RehearsalAction → Option ℤ → Option Text → Outcome PassportGateEvidenceView
  evidence_view input action age expiry = do
    page ←
        passport_url platform input.config.passport_base_url
          (truthy (optional (λ p. p.run_id) input.passport))
    links ← explorer_links input.config input.passport
    returns (view_of input action age expiry page links)

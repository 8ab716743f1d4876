-- ===== src/GateService/Current.antt =====
-- `loadCurrentContract` and `invalidContractProof` of backend/src/passport-gate/service.ts, with
-- `parseLaunchContract` of backend/src/launch-contract/schema.ts after its schema.
use launch_proof.Shared.{
  ℕ, ltb, leb, Bool, true, false, ◌&&◌, ◌||◌, ◌==◌, nat_eq, list_eq, Text, text, to_lower_case,
  truthy, Option, none, some, if◌then◌else◌, ◌≡◌, refl, sym, ap, ◌∙◌,
}
use launch_proof.Domain.Json.{Json, str, obj, Fields, end}
use launch_proof.Domain.Contract.{LaunchContract, PaymentTerms}
use launch_proof.Assertions.{get_field}
use launch_proof.PassportGate.Types.{CurrentLaunchContractProof}
use launch_proof.GateService.World.{Loaded, loaded, load_failed}
use launch_proof.GateService.Proof.{is_evm_address, zero_address, manifest_signing_body}

pub record Fetched : Type 0 where
  pub status : ℕ
  pub body : Text

-- `safeRequest`, `JSON.parse`, the schema of a Launch Contract, `hashJcs` and `verifyMessage`; `none`
-- is a throw.
pub record Loading : Type 0 where
  pub fetch : Text → Option Fetched
  pub parse_json : Text → Option Json
  pub parse_schema : Json → Option LaunchContract
  pub hash_json : Json → Text
  pub hash_manifest : LaunchContract → Text
  pub verify_message : Text → Text → Text → Option Bool

-- The payment terms are those of the chain.
abbrev pub terms_on_chain : Text → Text → Option PaymentTerms → Bool
terms_on_chain network asset none = true
terms_on_chain network asset (some terms) =
    terms.network == network && to_lower_case terms.asset == to_lower_case asset

-- `none` is an error of the schema or of the payment terms.
abbrev pub on_chain : Text → Text → Option LaunchContract → Option LaunchContract
on_chain network asset none = none
on_chain network asset (some manifest) =
    if terms_on_chain network asset manifest.payment then some manifest else none

unfoldable pub parse_launch_contract : Loading → Text → Text → Json → Option LaunchContract
parse_launch_contract loading network asset raw = on_chain network asset (loading.parse_schema raw)

abbrev pub object_fields : Json → Fields
object_fields (obj fields) = fields
object_fields _ = end

abbrev pub address_or_zero : Option Json → Text
address_or_zero (some (str s)) = if is_evm_address s then s else zero_address
address_or_zero _ = zero_address

abbrev pub text_or_invalid : Option Json → Text
text_or_invalid (some (str s)) = s
text_or_invalid _ = text "invalid"

unfoldable pub invalid_contract_proof : Loading → Text → Json → CurrentLaunchContractProof
invalid_contract_proof loading url raw = record {
  launch_contract_url = url;
  manifest_hash = loading.hash_json raw;
  provider_address = address_or_zero (get_field (text "provider_address") (object_fields raw));
  source_revision = text_or_invalid (get_field (text "source_revision") (object_fields raw));
  schema_valid = false;
  signature_valid = false;
  manifest_hash_valid = true;
  safe_fetch_verified = true;
}

-- A signature that throws is not valid.
abbrev pub is_signed : Option Bool → Bool
is_signed (some true) = true
is_signed _ = false

abbrev pub signature_valid : Loading → LaunchContract → Text → Option Text → Bool
signature_valid loading manifest hash none = false
signature_valid loading manifest hash (some signature) =
    is_signed (loading.verify_message manifest.provider_address hash signature)

abbrev pub current_of : Loading → Text → LaunchContract → CurrentLaunchContractProof
current_of loading url manifest =
    let hash = loading.hash_manifest (manifest_signing_body manifest) in
    record {
      launch_contract_url = url;
      manifest_hash = hash;
      provider_address = manifest.provider_address;
      source_revision = manifest.source_revision;
      schema_valid = true;
      signature_valid =
          signature_valid loading manifest hash (truthy manifest.declaration_signature);
      manifest_hash_valid = true;
      safe_fetch_verified = true;
    }

abbrev pub parsed_contract : Loading → Text → Json → Option LaunchContract → Loaded
parsed_contract loading url raw none = loaded (invalid_contract_proof loading url raw) none
parsed_contract loading url raw (some manifest) =
    loaded (current_of loading url manifest) (some manifest)

abbrev pub read_contract : Loading → Text → Text → Text → Option Json → Loaded
read_contract loading network asset url none = load_failed
read_contract loading network asset url (some raw) =
    parsed_contract loading url raw (parse_launch_contract loading network asset raw)

abbrev pub fetched_contract : Loading → Text → Text → Text → Option Fetched → Loaded
fetched_contract loading network asset url none = load_failed
fetched_contract loading network asset url (some r) =
    if ltb r.status 200 || leb 300 r.status
    then load_failed
    else read_contract loading network asset url (loading.parse_json r.body)

unfoldable pub load_current_contract : Loading → Text → Text → Text → Loaded
unfolding parse_launch_contract invalid_contract_proof
load_current_contract loading network asset url =
    fetched_contract loading network asset url (loading.fetch url)

kept_if :
    (c : Bool) (x m : LaunchContract) → (if c then some x else none) ≡ some m → (c ≡ true) × (x ≡ m)
kept_if true x m h = (refl, cc)
kept_if false x m h = absurd (cc)

proof_in_loaded :
    (x y : CurrentLaunchContractProof) (m n : LaunchContract)
    → loaded x (some m) ≡ loaded y (some n)
    → (x ≡ y) × (m ≡ n)
proof_in_loaded x y m n h = (cc, cc)

module _ (loading : Loading) (network asset : Text) (url : Text)
    (current : CurrentLaunchContractProof) (manifest : LaunchContract) where
  -- A contract that is loaded with its manifest.
  abbrev pub IsCurrent : Type 0
  IsCurrent =
      (current ≡ current_of loading url manifest)
      × (terms_on_chain network asset manifest.payment ≡ true)

  on_chain-terms :
      (o : Option LaunchContract) (m : LaunchContract)
      → on_chain network asset o ≡ some m
      → terms_on_chain network asset m.payment ≡ true
  on_chain-terms none m h = absurd (cc)
  on_chain-terms (some x) m h =
      let (c, e) = kept_if (terms_on_chain network asset x.payment) x m h in
      sym (ap (λ y. terms_on_chain network asset y.payment) e) ∙ c

  parsed-IsCurrent :
      (raw : Json) (o p : Option LaunchContract)
      → on_chain network asset p ≡ o
      → parsed_contract loading url raw o ≡ loaded current (some manifest)
      → IsCurrent
  parsed-IsCurrent raw none p e h = absurd (cc)
  parsed-IsCurrent raw (some m) p e h =
      let (same, own) = proof_in_loaded (current_of loading url m) current m manifest h in
      (sym same ∙ ap (current_of loading url) own, on_chain-terms p manifest (e ∙ ap some own))

  read-IsCurrent :
      (o : Option Json)
      → read_contract loading network asset url o ≡ loaded current (some manifest)
      → IsCurrent
  unfolding parse_launch_contract
  read-IsCurrent none h = absurd (cc)
  read-IsCurrent (some raw) h = parsed-IsCurrent raw _ (loading.parse_schema raw) refl h

  failed_or_read :
      (c : Bool) (o : Option Json)
      → (if c then load_failed else read_contract loading network asset url o)
        ≡ loaded current (some manifest)
      → IsCurrent
  failed_or_read true o h = absurd (cc)
  failed_or_read false o h = read-IsCurrent o h

  fetched-IsCurrent :
      (o : Option Fetched)
      → fetched_contract loading network asset url o ≡ loaded current (some manifest)
      → IsCurrent
  fetched-IsCurrent none h = absurd (cc)
  fetched-IsCurrent (some r) h =
      failed_or_read (ltb r.status 200 || leb 300 r.status) (loading.parse_json r.body) h

  -- A contract that is loaded with its manifest has the identity of the manifest, and payment terms
  -- of the configured network and asset if any.
  load_current_contract-IsCurrent :
      load_current_contract loading network asset url ≡ loaded current (some manifest) → IsCurrent
  unfolding load_current_contract parse_launch_contract
  load_current_contract-IsCurrent h = fetched-IsCurrent (loading.fetch url) h

-- ===== src/PassportGate/Primitives.antt =====
-- packages/passport-gate/src/primitives.ts: normal forms of addresses, hashes, revisions and URLs, the
-- contract identity and the gate bitmap.
pub mod Bitmap
use Prim.Native.Nat.{bit_or, bit_and}
use launch_proof.Shared.{
  ℕ, ◌^◌, Bool, true, false, not, ◌&&◌, ◌||◌, Text, text, to_lower_case, trim, starts_with,
  ends_with, drop_last, all_exactly, is_hex, none, some, [], ◌∷◌, ◌==◌, nat_eq, list_eq,
  if◌then◌else◌,
}
use launch_proof.PassportGate.Platform.{Platform, Url}
use launch_proof.PassportGate.Types.{
  ValidationCode, invalid_configuration, invalid_launch_contract_url, unsafe_launch_contract_url,
  invalid_provider_address, invalid_source_revision, validation, Outcome, returns, throws, ◌>>=◌,
  GateResults, ContractIdentity,
}

abbrev pub fail {ℓ} : {A : Type ℓ} → ValidationCode → Outcome A
fail code = throws (validation code)

-- `/^0x0{40}$/i`
abbrev pub is_zero_address : Text → Bool
is_zero_address value = to_lower_case value == text "0x0000000000000000000000000000000000000000"

-- `/^0x[0-9a-f]{64}$/i`; the `x` may be a capital.
abbrev pub is_bytes32 : Text → Bool
is_bytes32 (a ∷ b ∷ digits) =
    (a == b'0') && ((b == b'x' || b == b'X') && all_exactly is_hex 64 digits)
is_bytes32 _ = false

module _ (platform : Platform) where
  unfoldable pub normalize_address : Text → Outcome Text
  normalize_address value =
      if not (platform.is_address value) || is_zero_address value
      then fail invalid_provider_address
      else returns (to_lower_case (platform.get_address value))

unfoldable pub normalize_bytes32 : Text → Outcome Text
normalize_bytes32 value =
    if is_bytes32 value then returns (to_lower_case value) else fail invalid_configuration

unfoldable pub normalize_source_revision : Text → Outcome Text
normalize_source_revision value =
    let normalized = to_lower_case (trim value) in
    if all_exactly is_hex 40 normalized then returns normalized else fail invalid_source_revision

-- `hostname.slice(1, -1)` of a hostname in brackets
abbrev pub tail : Text → Text
tail [] = []
tail (c ∷ s) = s

abbrev pub without_brackets : Text → Text
without_brackets hostname =
    if starts_with (text "[") hostname && ends_with (text "]") hostname
    then drop_last (tail hostname)
    else hostname

abbrev pub is_empty : Text → Bool
is_empty [] = true
is_empty (c ∷ s) = false

module _ (platform : Platform) where
  unfoldable pub is_public_literal_address : Text → Bool
  is_public_literal_address hostname =
      let candidate = without_brackets hostname in
      not (platform.is_ip candidate) || platform.is_unicast candidate

  unfoldable pub is_local_hostname : Text → Bool
  is_local_hostname hostname =
      hostname == text "localhost"
      || ends_with (text ".localhost") hostname
      || ends_with (text ".local") hostname
      || ends_with (text ".internal") hostname
      || not (is_public_literal_address hostname)

  unfoldable pub checked_url : Url → Outcome Text
  checked_url parsed =
      if not (parsed.protocol == text "https:")
      then fail unsafe_launch_contract_url
      else if not (is_empty parsed.username) || not (is_empty parsed.password)
      then fail unsafe_launch_contract_url
      else if not (is_empty parsed.port) && not (parsed.port == text "443")
      then fail unsafe_launch_contract_url
      else if not (is_empty parsed.search) || not (is_empty parsed.fragment)
      then fail invalid_launch_contract_url
      else if is_local_hostname (to_lower_case parsed.hostname)
      then fail unsafe_launch_contract_url
      else returns
          (platform.href (record parsed { hostname = to_lower_case parsed.hostname; port = [] }))

  unfoldable pub normalize_public_https_url : Text → Outcome Text
  unfolding checked_url
  normalize_public_https_url value = elim (platform.parse_url value) [
    | none ↦ fail invalid_launch_contract_url
    | some parsed ↦ checked_url parsed
  ]

  unfoldable pub make_contract_identity : Text → Text → Text → Text → Outcome ContractIdentity
  make_contract_identity url hash address revision = do
    launch_contract_url ← normalize_public_https_url url
    manifest_hash ← normalize_bytes32 hash
    provider_address ← normalize_address platform address
    source_revision ← normalize_source_revision revision
    returns (record {
      launch_contract_url = launch_contract_url;
      manifest_hash = manifest_hash;
      provider_address = provider_address;
      source_revision = source_revision;
      identity_hash = platform.hash_identity (record {
        launch_contract_url = launch_contract_url;
        manifest_hash = manifest_hash;
        provider_address = provider_address;
        source_revision = source_revision;
      });
    })

abbrev pub set_bit : Bool → ℕ → ℕ → ℕ
set_bit gate bit bitmap = if gate then bit_or bitmap (2 ^ bit) else bitmap

-- The reduction over the gate names, in their order.
unfoldable pub encode_gate_bitmap : GateResults → ℕ
encode_gate_bitmap g = set_bit g.paid_delivery 8 (
    set_bit g.safe_to_rehearse 6
      (set_bit g.fresh_challenge 4 (set_bit g.contract_correct 2 (set_bit g.discoverable 0 0))))

abbrev pub has_bit : ℕ → ℕ → Bool
has_bit bitmap bit = not (bit_and bitmap (2 ^ bit) == 0)

-- A bitmap that is not negative; the source throws a RangeError at any other.
unfoldable pub decode_gate_bitmap : ℕ → GateResults
decode_gate_bitmap bitmap = record {
  discoverable = has_bit bitmap 0;
  contract_correct = has_bit bitmap 2;
  fresh_challenge = has_bit bitmap 4;
  safe_to_rehearse = has_bit bitmap 6;
  paid_delivery = has_bit bitmap 8;
}

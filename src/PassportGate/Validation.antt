-- ===== src/PassportGate/Validation.antt =====
-- packages/passport-gate/src/validation.ts: the configuration and the request before they are used.
pub mod Bounds
use launch_proof.Shared.{
  suc, zero, ℕ, ℤ, pos, int_ltb, int_eq, Bool, true, false, not, ◌&&◌, ◌||◌, Text, text,
  to_lower_case, ends_with, starts_with, drop_last, is_digit, Option, none, some, [], ◌∷◌, ◌==◌,
  nat_eq, list_eq, if◌then◌else◌,
}
use launch_proof.PassportGate.Platform.{Platform, Url}
use launch_proof.PassportGate.Types.{
  invalid_configuration, invalid_freshness_thresholds, invalid_observed_at, Outcome, returns,
  throws, ◌>>=◌, Hours, millis, DeploymentMode, public_mode, local_mode, PassportGateConfig,
  PassportGateRequest, ValidatedPassportGateRequest,
}
use launch_proof.PassportGate.Primitives.{
  fail, is_empty, tail, normalize_address, normalize_source_revision, normalize_public_https_url,
}

-- The finite numbers of hours, in milliseconds.
unfoldable pub validate_thresholds : Hours → Hours → Outcome (ℤ × ℤ)
validate_thresholds (millis warn) (millis max) =
    if int_ltb warn (pos 0) || not (int_ltb warn max)
    then fail invalid_freshness_thresholds
    else returns (warn, max)
validate_thresholds _ _ = fail invalid_freshness_thresholds

abbrev pub strip_slash : Text → Text
strip_slash s = if ends_with (text "/") s then drop_last s else s

-- `replace(/^\[|\]$/g, "")`: each bracket goes on its own.
abbrev pub strip_brackets : Text → Text
strip_brackets s =
    let opened = if starts_with (text "[") s then tail s else s in
    if ends_with (text "]") opened then drop_last opened else opened

-- `(?:\.\d{1,3})` repeated `n` times up to the end
abbrev pub octets : ℕ → Text → Bool
octets zero [] = true
octets (suc n) (d ∷ a ∷ []) = (d == b'.') && (is_digit a && octets n [])
octets (suc n) (d ∷ a ∷ b ∷ []) =
    (d == b'.') && (is_digit a && ((is_digit b && octets n []) || octets n (b ∷ [])))
octets (suc n) (d ∷ a ∷ b ∷ c ∷ s) =
    (d == b'.')
    && (is_digit a
        && (octets n (b ∷ c ∷ s)
            || (is_digit b && (octets n (c ∷ s) || (is_digit c && octets n s)))))
octets _ _ = false

-- `/^127(?:\.\d{1,3}){3}$/`
abbrev pub is_loopback_v4 : Text → Bool
is_loopback_v4 (a ∷ b ∷ c ∷ s) = (a == b'1') && ((b == b'2') && ((c == b'7') && octets 3 s))
is_loopback_v4 _ = false

unfoldable pub is_loopback : Text → Bool
is_loopback hostname =
    hostname == text "localhost" || (hostname == text "::1" || is_loopback_v4 hostname)

module _ (platform : Platform) where
  unfoldable pub loopback_url : Url → Outcome Text
  loopback_url parsed =
      if not (is_loopback (to_lower_case (strip_brackets parsed.hostname)))
        || not (parsed.protocol == text "http:")
        || not (is_empty parsed.username)
        || not (is_empty parsed.password)
        || not (is_empty parsed.search)
        || not (is_empty parsed.fragment)
      then fail invalid_configuration
      else returns (strip_slash (platform.href parsed))

  unfoldable pub local_base_url : Text → Outcome Text
  local_base_url value = elim (platform.parse_url value) [
    | none ↦ fail invalid_configuration
    | some parsed ↦ loopback_url parsed
  ]

  -- A URL that is not public is caught in local mode, whatever was thrown.
  unfoldable pub normalize_base_url : Text → DeploymentMode → Outcome Text
  normalize_base_url value public_mode = do
    normalized ← normalize_public_https_url platform value
    returns (strip_slash normalized)
  normalize_base_url value local_mode = elim (normalize_public_https_url platform value) [
    | returns normalized ↦ returns (strip_slash normalized)
    | throws e ↦ local_base_url value
  ]

  abbrev pub mode_of : Option DeploymentMode → DeploymentMode
  mode_of none = public_mode
  mode_of (some mode) = mode

  -- The catch turns any error of the address into one of the configuration.
  abbrev pub asset_of : Outcome Text → Outcome Text
  asset_of (returns a) = returns a
  asset_of (throws e) = fail invalid_configuration

  unfoldable pub validate_passport_gate_config : PassportGateConfig → Outcome PassportGateConfig
  validate_passport_gate_config config =
      let mode = mode_of config.deployment_mode in
      if not (config.chain_id == 1952) || not (config.network == text "eip155:1952")
      then fail invalid_configuration
      else if int_ltb config.asset_decimals (pos 0) || int_ltb (pos 255) config.asset_decimals
      then fail invalid_configuration
      else do
        thresholds ← validate_thresholds config.default_warn_age_hours config.default_max_age_hours
        asset_address ← asset_of (normalize_address platform config.asset_address)
        explorer_base_url ← normalize_base_url config.explorer_base_url mode
        passport_base_url ← normalize_base_url config.passport_base_url mode
        rehearsal_base_url ← normalize_base_url config.rehearsal_base_url mode
        returns (record config {
          deployment_mode = some mode;
          asset_address = asset_address;
          explorer_base_url = explorer_base_url;
          passport_base_url = passport_base_url;
          rehearsal_base_url = rehearsal_base_url;
        })

  abbrev pub or_default : Option Hours → Hours → Hours
  or_default none default = default
  or_default (some hours) default = hours

  abbrev pub optionally : (Text → Outcome Text) → Option Text → Outcome (Option Text)
  optionally f none = returns none
  optionally f (some value) = do normalized ← f value; returns (some normalized)

  unfoldable pub validate_passport_gate_request :
      PassportGateRequest → PassportGateConfig → Outcome ValidatedPassportGateRequest
  validate_passport_gate_request request config = do
    thresholds ←
        validate_thresholds (or_default request.warn_age_hours config.default_warn_age_hours)
          (or_default request.max_age_hours config.default_max_age_hours)
    expected_provider_address ←
        optionally (normalize_address platform) request.expected_provider_address
    expected_source_revision ← optionally normalize_source_revision request.expected_source_revision
    launch_contract_url ← normalize_public_https_url platform request.launch_contract_url
    returns (record {
      launch_contract_url = launch_contract_url;
      warn_age_hours = thresholds.0;
      max_age_hours = thresholds.1;
      expected_provider_address = expected_provider_address;
      expected_source_revision = expected_source_revision;
    })

  unfoldable pub parse_observed_at : Text → Outcome ℤ
  parse_observed_at value = elim (platform.parse_date value) [
    | none ↦ fail invalid_observed_at
    | some timestamp ↦ returns timestamp
  ]

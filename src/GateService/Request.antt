-- ===== src/GateService/Request.antt =====
-- The schema of a request and the operational codes of backend/src/passport-gate/service.ts.
use launch_proof.Shared.{
  ℕ, pos, int_ltb, int_eq, Bool, true, false, not, ◌&&◌, ◌||◌, ◌==◌, list_eq, nat_eq, Text, text,
  to_lower_case, starts_with, all_exactly, is_hex, leb, length, Option, none, some, [], ◌∷◌,
  if◌then◌else◌,
}
use launch_proof.PassportGate.Types.{
  Hours, not_finite, millis, PassportGateRequest, OperationalReasonCode, rpc_unavailable,
  rpc_timeout, rpc_rate_limited, internal_unavailable,
}
use launch_proof.PassportGate.Primitives.{is_empty}
use launch_proof.GateService.Proof.{is_evm_address}

abbrev pub optionally_is {ℓ} : {A : Type ℓ} → (A → Bool) → Option A → Bool
optionally_is p none = true
optionally_is p (some a) = p a

abbrev pub is_nonnegative : Hours → Bool
is_nonnegative not_finite = false
is_nonnegative (millis h) = not (int_ltb h (pos 0))

abbrev pub is_positive : Hours → Bool
is_positive not_finite = false
is_positive (millis h) = int_ltb (pos 0) h

-- `passportGateRequestSchema`
unfoldable pub is_request : PassportGateRequest → Bool
is_request r =
    not (is_empty r.launch_contract_url)
    && (leb (length r.launch_contract_url) 2048
        && (optionally_is is_nonnegative r.warn_age_hours
            && (optionally_is is_positive r.max_age_hours
                && (optionally_is is_evm_address r.expected_provider_address
                    && optionally_is (all_exactly is_hex 40) r.expected_source_revision))))

-- A pattern is found in a text where it stands at some place of it.
abbrev pub found : (Text → Bool) → Text → Bool
found p [] = p []
found p (c ∷ s) = p (c ∷ s) || found p s

abbrev pub is_line_end : ℕ → Bool
is_line_end c = c == 10 || (c == 13 || (c == 0x2028 || c == 0x2029))

-- `.?limit`
abbrev pub then_limit : Text → Bool
then_limit [] = false
then_limit (c ∷ s) =
    starts_with (text "limit") (c ∷ s) || (not (is_line_end c) && starts_with (text "limit") s)

-- `rate.?limit`
abbrev pub is_rate_limit : Text → Bool
is_rate_limit (a ∷ b ∷ c ∷ d ∷ s) = starts_with (text "rate") (a ∷ b ∷ c ∷ d ∷ []) && then_limit s
is_rate_limit _ = false

abbrev pub has : Text → Text → Bool
has word message = found (starts_with word) message

abbrev pub classified_code : Text → OperationalReasonCode
classified_code message =
    if has (text "429") message || found is_rate_limit message
    then rpc_rate_limited
    else if has (text "timeout") message
        || (has (text "timed out") message || has (text "abort") message)
    then rpc_timeout
    else if has (text "rpc") message
        || (has (text "transport") message
            || (has (text "network") message
                || (has (text "fetch") message
                    || (has (text "socket") message || has (text "connect") message))))
    then rpc_unavailable
    else internal_unavailable

-- Name and message of the error, in any case of the letters.
unfoldable pub operational_code : Option Text → OperationalReasonCode
operational_code none = internal_unavailable
operational_code (some message) = classified_code (to_lower_case message)

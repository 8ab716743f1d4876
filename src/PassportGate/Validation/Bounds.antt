-- ===== src/PassportGate/Validation/Bounds.antt =====
-- What packages/passport-gate/src/validation.ts promises of a request that it lets through.
use launch_proof.PassportGate.Primitives.{
  fail, normalize_public_https_url, normalize_source_revision, normalize_address,
}
use launch_proof.PassportGate.Validation.{
  not, Bool, optionally, or_default, validate_passport_gate_request, validate_thresholds,
}
use launch_proof.PassportGate.Platform.{Platform}
use launch_proof.Shared.{
  sym, ◌||◌, if◌then◌else◌, int_ltb, ℤ, list_eq, nat_eq, refl, pos, true, false, ◌≡◌, arith,
}
use launch_proof.PassportGate.Types.{
  invalid_freshness_thresholds, ValidatedPassportGateRequest, PassportGateConfig,
  PassportGateRequest, Outcome, ◌>>=◌, returns, throws, millis, not_finite, Hours,
}

pub bind-returns :
    {A B : Type 0} (o : Outcome A) (f : A → Outcome B) (b : B)
    → o >>= f ≡ returns b
    → (x : A) × (o ≡ returns x) × (f x ≡ returns b)
bind-returns (returns x) f b h = (x, refl, h)
bind-returns (throws e) f b h = absurd (cc)

accepted_if :
    (b : Bool) (x t : ℤ × ℤ)
    → (if b then fail invalid_freshness_thresholds else returns x) ≡ returns t
    → (b ≡ false) × (x ≡ t)
accepted_if true x t h = absurd (cc)
accepted_if false x t h = (refl, cc)

validate_thresholds-returns :
    (warn max : Hours) (t : ℤ × ℤ)
    → validate_thresholds warn max ≡ returns t
    → (warn ≡ millis t.0)
      × (max ≡ millis t.1)
      × (int_ltb t.0 (pos 0) ≡ false)
      × (int_ltb t.0 t.1 ≡ true)
unfolding validate_thresholds
validate_thresholds-returns not_finite max t h = absurd (cc)
validate_thresholds-returns (millis w) not_finite t h = absurd (cc)
validate_thresholds-returns (millis w) (millis m) t h =
    let (b, e) = accepted_if (int_ltb w (pos 0) || not (int_ltb w m)) (w, m) t h in
    rw (sym e) (refl, refl, ground arith, ground arith)

same_result : (v r : ValidatedPassportGateRequest) → returns v ≡ returns r → v ≡ r
same_result v r h = cc

module _ (platform : Platform) where
  pub validate_passport_gate_request_parts :
      (request : PassportGateRequest) (config : PassportGateConfig)
      (r : ValidatedPassportGateRequest)
      → validate_passport_gate_request platform request config ≡ returns r
      → (validate_thresholds
            (or_default platform request.warn_age_hours config.default_warn_age_hours)
            (or_default platform request.max_age_hours config.default_max_age_hours)
          ≡ returns (r.warn_age_hours, r.max_age_hours))
        × (normalize_public_https_url platform request.launch_contract_url
            ≡ returns r.launch_contract_url)
  unfolding validate_passport_gate_request
  validate_passport_gate_request_parts request config r h =
      let (t, e, h1) =
        bind-returns
          (validate_thresholds
            (or_default platform request.warn_age_hours config.default_warn_age_hours)
            (or_default platform request.max_age_hours config.default_max_age_hours))
          _ r h in
      let (a, f, h2) =
        bind-returns
          (optionally platform (normalize_address platform) request.expected_provider_address) _ r
          h1 in
      let (b, g, h3) =
        bind-returns
          (optionally platform normalize_source_revision request.expected_source_revision) _ r h2 in
      let (u, k, h4) =
        bind-returns (normalize_public_https_url platform request.launch_contract_url) _ r h3 in
      rw (sym (same_result _ r h4)) (e, k)

  -- The thresholds of a request that is let through are those that it gives, or the configured
  -- ones where it gives none; they are finite, the warning age is not negative, and the maximum
  -- age is greater.
  pub validate_passport_gate_request-returns :
      (request : PassportGateRequest) (config : PassportGateConfig)
      (r : ValidatedPassportGateRequest)
      → validate_passport_gate_request platform request config ≡ returns r
      → (or_default platform request.warn_age_hours config.default_warn_age_hours
          ≡ millis r.warn_age_hours)
        × (or_default platform request.max_age_hours config.default_max_age_hours
            ≡ millis r.max_age_hours)
        × (int_ltb r.warn_age_hours (pos 0) ≡ false)
        × (int_ltb r.warn_age_hours r.max_age_hours ≡ true)
  validate_passport_gate_request-returns request config r h =
      validate_thresholds-returns _ _ (r.warn_age_hours, r.max_age_hours)
        (validate_passport_gate_request_parts request config r h).0

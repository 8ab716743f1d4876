-- ===== src/Evidence/Payments.antt =====
-- The payments of an evidence and the configured fixtures, in backend/src/evidence/validate.ts.
use launch_proof.Shared.{
  ℕ, zero, suc, ◌+◌, ◌-◌, Bool, true, false, not, ◌&&◌, ◌||◌, ◌==◌, nat_eq, list_eq, length, take,
  Text, text, to_lower_case, truthy, is_some, Option, none, some, List, [], ◌∷◌, if◌then◌else◌,
}
use launch_proof.Domain.Contract.{LaunchContract, PaymentMode, PaymentTerms, x402_optional}
use launch_proof.Domain.Types.{PaymentReference, PaymentKind, PaymentStatus, settled}
use launch_proof.PassportGate.Amounts.{pad_start, drop, strip_zeros, with_fraction}
use launch_proof.PassportGate.Platform.{Url, Platform}
use launch_proof.PassportGate.Primitives.{is_empty}
use launch_proof.Evidence.Policy.{EvidenceConfig, Libraries}

abbrev pub same_lower : Text → Text → Bool
same_lower a b = to_lower_case a == to_lower_case b

-- `a?.toLowerCase() === b?.toLowerCase()`
abbrev pub both_lower : Option Text → Option Text → Bool
both_lower none none = true
both_lower (some a) (some b) = same_lower a b
both_lower _ _ = false

abbrev pub is_launchproof : PaymentKind → Bool
is_launchproof PaymentKind.launchproof = true
is_launchproof PaymentKind.target = false

abbrev pub is_settled : PaymentStatus → Bool
is_settled settled = true
is_settled _ = false

-- `slice(0, -decimals)` and `slice(-decimals)`, where -0 is 0.
abbrev pub split_decimals : ℕ → Text → Text × Text
split_decimals zero s = ([], s)
split_decimals (suc n) s = (take (length s - suc n) s, drop (length s - suc n) s)

unfoldable pub format_atomic : Text → ℕ → Text
format_atomic value decimals =
    let (whole, fraction) = split_decimals decimals (pad_start (decimals + 1) value) in
    with_fraction whole (strip_zeros fraction)

abbrev pub launch_route_matches : Bool → Text → Bool
launch_route_matches true route = route == text "/api/renewals" || route == text "/mcp/renew"
launch_route_matches false route = route == text "/api/rehearsals" || route == text "/mcp/rehearse"

unfoldable pub launch_matches : EvidenceConfig → Bool → PaymentReference → Bool
launch_matches config renewal launch =
    is_launchproof launch.kind
    && (is_settled launch.status
        && (launch.amount == launch.amount_atomic
            && (launch.amount_atomic == (if renewal then text "100000" else text "10000")
                && (launch.amount_display == (if renewal then text "0.10" else text "0.01")
                    && (launch.asset_decimals == config.usdt0_decimals
                        && (same_lower launch.asset config.usdt0_address
                            && (launch.network == config.network
                                && ((is_some (truthy launch.payer)
                                      && (is_some (truthy launch.recipient)
                                          && is_some (truthy launch.settlement_transaction)))
                                    && (both_lower (some launch.payment_id)
                                          launch.settlement_transaction
                                        && (both_lower launch.recipient config.payout_address
                                            && launch_route_matches renewal launch.route))))))))))

-- `!expectedPayer || payment.payer?.toLowerCase() === expectedPayer.toLowerCase()`
abbrev pub payer_is : Option Text → Option Text → Bool
payer_is none payer = true
payer_is (some expected) payer = both_lower payer (some expected)

abbrev pub terms_match :
    EvidenceConfig → PaymentTerms → PaymentReference → PaymentReference → Option Text → Bool
terms_match config terms payment launch payer =
    not (is_launchproof payment.kind)
    && (is_settled payment.status
        && (payment.amount == payment.amount_atomic
            && (payment.amount_atomic == terms.amount
                && (payment.amount_display == format_atomic terms.amount config.usdt0_decimals
                    && (payment.asset_decimals == config.usdt0_decimals
                        && (same_lower payment.asset config.usdt0_address
                            && (payment.network == config.network
                                && (payment.route == terms.resource_url
                                    && (both_lower payment.recipient (some terms.recipient)
                                        && ((is_some (truthy payment.payer)
                                              && is_some (truthy payment.settlement_transaction))
                                            && (payer_is payer payment.payer
                                                && (both_lower (some payment.payment_id)
                                                      payment.settlement_transaction
                                                    && not (
                                                        both_lower payment.settlement_transaction
                                                          launch.settlement_transaction)))))))))))))

module _ (libraries : Libraries) where
  -- The payer that the configured key makes; `none` is a key that makes none.
  abbrev pub payer_of_key : Option Text → Option (Option Text)
  payer_of_key none = some none
  payer_of_key (some key) = elim (libraries.account_of key) [
    | none ↦ none
    | some account ↦ some (some account)
  ]

  abbrev pub expected_payer : EvidenceConfig → Option (Option Text)
  expected_payer config = payer_of_key (truthy config.target_payer_private_key)

  abbrev pub terms_match_for :
      EvidenceConfig
      → PaymentTerms
      → PaymentReference
      → PaymentReference
      → Option (Option Text)
      → Bool
  terms_match_for config terms payment launch none = false
  terms_match_for config terms payment launch (some payer) =
      terms_match config terms payment launch payer

  abbrev pub optional_terms_match :
      EvidenceConfig → Option PaymentTerms → Option PaymentReference → PaymentReference → Bool
  optional_terms_match config (some terms) (some payment) launch =
      terms_match_for config terms payment launch (expected_payer config)
  optional_terms_match config _ _ launch = false

  unfoldable pub target_payment_matches :
      EvidenceConfig → LaunchContract → Option PaymentReference → PaymentReference → Bool
  unfolding format_atomic
  target_payment_matches config manifest payment launch = elim manifest.payment_mode [
    | PaymentMode.none ↦ not (is_some payment)
    | x402_optional ↦ optional_terms_match config manifest.payment payment launch
  ]

module _ (platform : Platform) where
  abbrev pub with_manifest_path : Url → Text
  with_manifest_path url =
      if url.pathname == text "/" || is_empty url.pathname
      then platform.href (record url { pathname = text "/.well-known/launch-contract.json" })
      else platform.href url

  -- `none` is a throw.
  unfoldable pub normalize_manifest_url : Text → Option Text
  normalize_manifest_url value = elim (platform.parse_url value) [
    | none ↦ none
    | some url ↦ some (with_manifest_path url)
  ]

  abbrev pub is_strict : Url → Bool
  is_strict url =
      url.protocol == text "https:"
      && (is_empty url.username
          && (is_empty url.password && (is_empty url.search && is_empty url.fragment)))

  abbrev pub strict_part : Option Url → Option Url
  strict_part none = none
  strict_part (some url) = if is_strict url then some url else none

  unfoldable pub strict_public_url : Text → Option Url
  strict_public_url value = strict_part (platform.parse_url value)

  -- Both URLs are parsed, the configured one first; `rest` is the answer of the fixtures that follow.
  abbrev pub same_manifest_url : Option Text → Option Text → Option Bool → Option Bool
  same_manifest_url (some a) (some b) rest = if a == b then some true else rest
  same_manifest_url _ _ rest = none

  -- The loop over the fixtures, with the flag `configuredProviderMatch`; `none` is a throw.
  abbrev pub fixture_loop : Text → Text → List (Option Text × Option Text) → Bool → Option Bool
  fixture_loop target provider [] matched = some matched
  fixture_loop target provider ((url, address) ∷ rest) matched =
      let unmatched = fixture_loop target provider rest matched in
      let next = fixture_loop target provider rest true in
      elim (truthy url) [
        | none ↦ unmatched
        | some u ↦ elim (truthy address) [
          | none ↦ unmatched
          | some a ↦
              if same_lower a provider
              then same_manifest_url (normalize_manifest_url u) (normalize_manifest_url target) next
              else unmatched
        ]
      ]

  unfoldable pub configured_fixture_match : EvidenceConfig → Text → Text → Option Bool
  unfolding normalize_manifest_url
  configured_fixture_match config target provider =
      fixture_loop target provider config.fixtures false

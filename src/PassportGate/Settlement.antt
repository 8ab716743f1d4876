-- ===== src/PassportGate/Settlement.antt =====
-- The settlement checks of packages/passport-gate/src/engine.ts.
pub mod Laws
use launch_proof.PassportGate.Reasons.{reason_eq}
use launch_proof.Shared.{
  unique, ℕ, ℤ, Bool, true, false, not, ◌&&◌, ◌||◌, Text, text, truthy, all_some, is_digit, Option,
  none, some, List, [], ◌∷◌, ◌++◌, ◌==◌, nat_eq, list_eq, int_eq, if◌then◌else◌,
}
use launch_proof.PassportGate.Platform.{Platform}
use launch_proof.PassportGate.Types.{
  Outcome, returns, throws, Role, SettlementSuffix, missing, reverted, network_mismatch,
  asset_mismatch, amount_mismatch, decimals_mismatch, payer_mismatch, recipient_mismatch,
  transaction_mismatch, timestamp_mismatch, not_independently_verified, ReasonCode, settlement,
  PassportGateConfig, SettlementReference, SettlementExpectation, SettlementProof,
}
use launch_proof.PassportGate.Primitives.{normalize_address, normalize_bytes32}

-- `if (!passed) failures.push(code)`
abbrev pub fail_unless : Bool → ReasonCode → List ReasonCode
fail_unless true code = []
fail_unless false code = code ∷ []

-- Two normal forms agree; a throw on either side is caught and counts as a difference.
abbrev pub same_outcome : Outcome Text → Outcome Text → Bool
same_outcome (returns a) (returns b) = a == b
same_outcome _ _ = false

module _ (platform : Platform) where
  unfoldable pub addresses_match : Text → Text → Bool
  addresses_match left right =
      same_outcome (normalize_address platform left) (normalize_address platform right)

  unfoldable pub hashes_match : Text → Text → Bool
  hashes_match left right = same_outcome (normalize_bytes32 left) (normalize_bytes32 right)

  abbrev pub network_ok : PassportGateConfig → SettlementExpectation → SettlementReference → Bool
  network_ok config expected actual =
      (expected.network == config.network) && (actual.network == expected.network)

  abbrev pub asset_ok : PassportGateConfig → SettlementExpectation → SettlementReference → Bool
  asset_ok config expected actual =
      addresses_match expected.asset config.asset_address
      && addresses_match actual.asset expected.asset

  abbrev pub amount_ok : SettlementExpectation → SettlementReference → Bool
  amount_ok expected actual =
      all_some is_digit expected.amount_atomic && (actual.amount_atomic == expected.amount_atomic)

  abbrev pub decimals_ok : PassportGateConfig → SettlementExpectation → SettlementReference → Bool
  decimals_ok config expected actual =
      (expected.asset_decimals == config.asset_decimals)
      && (actual.asset_decimals == expected.asset_decimals)

  abbrev pub payer_ok : Option Text → SettlementReference → Bool
  payer_ok none actual = false
  payer_ok (some payer) actual = addresses_match actual.payer payer

  abbrev pub transaction_ok : Option Text → Option Text → SettlementReference → Bool
  transaction_ok (some payment_id) (some hash) actual =
      (actual.payment_id == payment_id) && hashes_match actual.transaction_hash hash
  transaction_ok _ _ actual = false

  abbrev pub is_date : Text → Bool
  is_date value = elim (platform.parse_date value) [ none ↦ false | some t ↦ true ]

  abbrev pub timestamp_ok : Option Text → SettlementReference → Bool
  timestamp_ok none actual = false
  timestamp_ok (some timestamp) actual = is_date timestamp && (actual.block_timestamp == timestamp)

  -- The codes of a settlement with a reference, in the order of the checks.
  abbrev pub reference_failures :
      Role → SettlementProof → PassportGateConfig → SettlementReference → List ReasonCode
  reference_failures role proof config actual =
      fail_unless proof.receipt_success (settlement role reverted)
      ++ (fail_unless (network_ok config proof.expected actual) (settlement role network_mismatch)
          ++ (fail_unless (asset_ok config proof.expected actual) (settlement role asset_mismatch)
              ++ (fail_unless (amount_ok proof.expected actual) (settlement role amount_mismatch)
                  ++ (fail_unless (decimals_ok config proof.expected actual)
                        (settlement role decimals_mismatch)
                      ++ (fail_unless (payer_ok (truthy proof.expected.payer) actual)
                            (settlement role payer_mismatch)
                          ++ (fail_unless
                                (addresses_match actual.recipient proof.expected.recipient)
                                (settlement role recipient_mismatch)
                              ++ (fail_unless
                                    (transaction_ok (truthy proof.expected.payment_id)
                                      (truthy proof.expected.transaction_hash) actual)
                                    (settlement role transaction_mismatch)
                                  ++ (fail_unless
                                        (timestamp_ok (truthy proof.expected.block_timestamp)
                                          actual)
                                        (settlement role timestamp_mismatch)
                                      ++ fail_unless proof.independently_verified
                                          (settlement role not_independently_verified)))))))))

  unfoldable pub failures_of :
      Bool
      → Option SettlementReference
      → Role
      → SettlementProof
      → PassportGateConfig
      → List ReasonCode
  failures_of true (some actual) role proof config =
      unique (reference_failures role proof config actual)
  failures_of _ _ role proof config = settlement role missing ∷ []

  unfoldable pub settlement_failures : Role → SettlementProof → PassportGateConfig → List ReasonCode
  unfolding failures_of
  settlement_failures role proof config =
      failures_of proof.present proof.reference role proof config

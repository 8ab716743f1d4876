-- ===== src/PassportGate/Settlement/Laws.antt =====
-- What the settlement checks of packages/passport-gate/src/engine.ts promise.
use launch_proof.PassportGate.Reasons.{reason_eq}
use launch_proof.Shared.{
  Bool, true, false, ◌≡◌, refl, ◌↔◌, ◌++◌, List, [], ◌∷◌, Text, Option, none, some, truthy,
  all_some, is_digit, unique, unique-eq_nil, arith, list_eq, list_beq_iff, int_eq, int_beq_iff,
  nat_eq,
}
use launch_proof.PassportGate.Platform.{Platform}
use launch_proof.PassportGate.Types.{
  Role, ReasonCode, PassportGateConfig, SettlementReference, SettlementProof, SettlementExpectation,
}
use launch_proof.PassportGate.Settlement.{
  fail_unless, addresses_match, hashes_match, reference_failures, settlement_failures, failures_of,
  network_ok, asset_ok, amount_ok, decimals_ok, payer_ok, transaction_ok, timestamp_ok, is_date,
}

-- Two lists of failures are both empty exactly when both of their conditions hold.
pub both :
    {X Y : Type 0} {xs ys : List ReasonCode}
    → (xs ≡ []) ↔ X
    → (ys ≡ []) ↔ Y
    → (xs ++ ys ≡ []) ↔ (X × Y)
both {xs = []} f g = (λ e. (f.0 refl, g.0 e), λ h. g.1 h.1)
both {xs = x ∷ xs} f g = (λ e. absurd (cc), λ h. absurd (let e = f.1 h.0 in cc))

pub passes :
    {B : Type 0} {b : Bool} (code : ReasonCode) → (b ≡ true) ↔ B → (fail_unless b code ≡ []) ↔ B
passes {b = true} code f = (λ e. f.0 refl, λ h. refl)
passes {b = false} code f = (λ e. absurd (cc), λ h. absurd (let e = f.1 h in cc))

pub same : {P : Type 0} → P ↔ P
same = (λ p. p, λ p. p)

some-inj : {a b : SettlementReference} → some a ≡ some b → a ≡ b
some-inj h = cc

unique-empty : (xs : List ReasonCode) → xs ≡ [] → unique xs ≡ []
unfolding unique
unique-empty [] h = refl
unique-empty (x ∷ xs) h = absurd (cc)

module _ (platform : Platform) where
  -- What a settlement must be: independently verified, with a successful receipt, paid on the
  -- configured network in the configured asset, with the amount, the parties, the transaction and
  -- the time that were expected, each of them known.
  abbrev pub IsPaidAs : SettlementProof → PassportGateConfig → SettlementReference → Type 0
  IsPaidAs proof config actual =
      let expected = proof.expected in
      (proof.receipt_success ≡ true)
      × (((expected.network ≡ config.network) × (actual.network ≡ expected.network))
          × (((addresses_match platform expected.asset config.asset_address ≡ true)
                × (addresses_match platform actual.asset expected.asset ≡ true))
              × (((all_some is_digit expected.amount_atomic ≡ true)
                    × (actual.amount_atomic ≡ expected.amount_atomic))
                  × (((expected.asset_decimals ≡ config.asset_decimals)
                        × (actual.asset_decimals ≡ expected.asset_decimals))
                      × (((payer : Text) × (truthy expected.payer ≡ some payer)
                            × (addresses_match platform actual.payer payer ≡ true))
                          × ((addresses_match platform actual.recipient expected.recipient ≡ true)
                              × (((id : Text) × (hash : Text) × (truthy expected.payment_id
                                      ≡ some id)
                                    × (truthy expected.transaction_hash ≡ some hash)
                                    × (actual.payment_id ≡ id)
                                    × (hashes_match platform actual.transaction_hash hash ≡ true))
                                  × (((timestamp : Text) × (truthy expected.block_timestamp
                                          ≡ some timestamp)
                                        × (is_date platform timestamp ≡ true)
                                        × (actual.block_timestamp ≡ timestamp))
                                      × (proof.independently_verified ≡ true)))))))))

  abbrev pub IsSettled : SettlementProof → PassportGateConfig → Type 0
  IsSettled proof config =
      (proof.present ≡ true)
      × ((actual : SettlementReference) × (proof.reference ≡ some actual)
          × IsPaidAs proof config actual)

  network_iff :
      (config : PassportGateConfig) (e : SettlementExpectation) (a : SettlementReference)
      → (network_ok platform config e a ≡ true)
        ↔ ((e.network ≡ config.network) × (a.network ≡ e.network))
  network_iff config e a =
      ground (arith, list_beq_iff e.network config.network, list_beq_iff a.network e.network)

  asset_iff :
      (config : PassportGateConfig) (e : SettlementExpectation) (a : SettlementReference)
      → (asset_ok platform config e a ≡ true) ↔ (
          (addresses_match platform e.asset config.asset_address ≡ true)
          × (addresses_match platform a.asset e.asset ≡ true))
  asset_iff config e a = ground arith

  amount_iff :
      (e : SettlementExpectation) (a : SettlementReference)
      → (amount_ok platform e a ≡ true)
        ↔ ((all_some is_digit e.amount_atomic ≡ true) × (a.amount_atomic ≡ e.amount_atomic))
  amount_iff e a = ground (arith, list_beq_iff a.amount_atomic e.amount_atomic)

  decimals_iff :
      (config : PassportGateConfig) (e : SettlementExpectation) (a : SettlementReference)
      → (decimals_ok platform config e a ≡ true)
        ↔ ((e.asset_decimals ≡ config.asset_decimals) × (a.asset_decimals ≡ e.asset_decimals))
  decimals_iff config e a = ground (
    arith,
    int_beq_iff e.asset_decimals config.asset_decimals,
    int_beq_iff a.asset_decimals e.asset_decimals,
  )

  payer_iff :
      (o : Option Text) (a : SettlementReference)
      → (payer_ok platform o a ≡ true)
        ↔ ((payer : Text) × (o ≡ some payer) × (addresses_match platform a.payer payer ≡ true))
  payer_iff none a = (λ e. absurd (cc), λ (p, e, h). absurd (cc))
  payer_iff (some p) a = (λ e. (p, refl, e), λ (q, e, h). cc)

  transaction_iff :
      (o h : Option Text) (a : SettlementReference)
      → (transaction_ok platform o h a ≡ true) ↔ (
          (id : Text) × (hash : Text) × (o ≡ some id)
          × (h ≡ some hash)
          × (a.payment_id ≡ id)
          × (hashes_match platform a.transaction_hash hash ≡ true))
  transaction_iff none h a = (λ e. absurd (cc), λ (i, x, e, f, g, r). absurd (cc))
  transaction_iff (some i) none a = (λ e. absurd (cc), λ (j, x, e, f, g, r). absurd (cc))
  transaction_iff (some i) (some x) a =
      let l = list_beq_iff a.payment_id i in
      (λ e. (i, x, refl, refl, ground arith, ground arith), λ (j, y, e, f, g, h). ground arith)

  timestamp_iff :
      (o : Option Text) (a : SettlementReference)
      → (timestamp_ok platform o a ≡ true) ↔ (
          (timestamp : Text) × (o ≡ some timestamp)
          × (is_date platform timestamp ≡ true)
          × (a.block_timestamp ≡ timestamp))
  timestamp_iff none a = (λ e. absurd (cc), λ (t, e, h, f). absurd (cc))
  timestamp_iff (some t) a =
      let l = list_beq_iff a.block_timestamp t in
      (λ e. (t, refl, ground arith, ground arith), λ (u, e, h, f). ground arith)

  reference_failures_iff :
      (role : Role) (proof : SettlementProof) (config : PassportGateConfig)
      (actual : SettlementReference)
      → (reference_failures platform role proof config actual ≡ []) ↔ IsPaidAs proof config actual
  reference_failures_iff role proof config actual =
      let e = proof.expected in
      both (passes _ same) (
        both (passes _ (network_iff config e actual)) (
          both (passes _ (asset_iff config e actual)) (
            both (passes _ (amount_iff e actual)) (
              both (passes _ (decimals_iff config e actual)) (
                both (passes _ (payer_iff (truthy e.payer) actual)) (
                  both (passes _ same) (
                    both
                      (passes _
                        (transaction_iff (truthy e.payment_id) (truthy e.transaction_hash) actual))
                      (both (passes _ (timestamp_iff (truthy e.block_timestamp) actual))
                        (passes _ same)))))))))

  failures_of_iff :
      (present : Bool) (reference : Option SettlementReference) (role : Role)
      (proof : SettlementProof) (config : PassportGateConfig)
      → (failures_of platform present reference role proof config ≡ []) ↔ (
          (present ≡ true)
          × ((actual : SettlementReference) × (reference ≡ some actual)
              × IsPaidAs proof config actual))
  unfolding failures_of
  failures_of_iff true (some actual) role proof config =
      let (f, g) = reference_failures_iff role proof config actual in
      (
        λ e. (refl, (actual, refl, f (unique-eq_nil _ e))),
        λ (e, (a, h, paid)). unique-empty _ (g (rw (some-inj h) paid)),
      )
  failures_of_iff true none role proof config = (λ e. absurd (cc), λ (e, (a, h, paid)). absurd (cc))
  failures_of_iff false o role proof config = (λ e. absurd (cc), λ (e, r). absurd (cc))

  -- The checks of a settlement report nothing exactly when it is present, successful, independently
  -- verified, and was paid on the configured network and asset with the amount, decimals, payer,
  -- recipient, payment, transaction and block time that were expected, each of them known.
  pub settlement_failures_iff :
      (role : Role) (proof : SettlementProof) (config : PassportGateConfig)
      → (settlement_failures platform role proof config ≡ []) ↔ IsSettled proof config
  unfolding settlement_failures
  settlement_failures_iff role proof config =
      failures_of_iff proof.present proof.reference role proof config

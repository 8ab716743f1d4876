-- ===== src/Store/State.antt =====
-- The records and the maps of backend/src/db/store.ts. An `async` method runs under its lock or in
-- one turn, so each is one function from the maps to a result and the maps that it leaves.
use launch_proof.Shared.{
  ℕ, Bool, true, false, Text, text, to_lower_case, truthy, Option, none, some, List, [], ◌&&◌, ◌==◌,
  nat_eq, list_eq, option_eq, lookup, insert,
}
use launch_proof.Domain.Json.{Json, json_eq}
use launch_proof.Domain.Types.{
  RunState, PaymentKind, launchproof, target, PaymentStatus, settled, local_only, PaymentReference,
  RunRecord,
}

pub data Operation : Type 0 where
  genesis renewal : Operation

pub record SettlementProgress : Type 0 where
  pub transaction_hash : Text
  pub payer : Text
  pub amount_atomic : Text
  pub route : Text
  pub observed_at : Text

pub record PublicationProgress : Type 0 where
  pub transaction_hash : Text
  pub evidence_hash : Text
  pub started_at : Text
  pub candidate : RunRecord

pub record TargetPaymentAttempt : Type 0 where
  pub asset : Text
  pub network : Text
  pub payer : Text
  pub recipient : Text
  pub amount_atomic : Text
  pub route : Text
  pub source_revision : Text
  pub authorization_nonce : Text
  pub authorization_valid_before : Text
  pub start_block : Text
  pub created_at : Text
  pub transaction_hash : Option Text
  pub payment_payload : Json

pub record RunProgress : Type 0 where
  pub run_id : Text
  pub idempotency_key : Text
  pub state : RunState
  pub target_url : Text
  pub operation : Operation
  pub previous_run_id : Option Text
  pub payment : Option PaymentReference
  pub capacity_lease_expires_at : Option Text
  pub settlement : Option SettlementProgress
  pub publication : Option PublicationProgress
  pub target_payment_attempt : Option TargetPaymentAttempt
  pub created_at : Text
  pub updated_at : Text
  pub error : Option Text

-- The test `"canonical_evidence" in run` tells the two apart.
pub data StoredRun : Type 0 where
  finalized : RunRecord → StoredRun
  in_progress : RunProgress → StoredRun

-- `PaymentReference & { run_id: string }`
pub record StoredPayment : Type 0 where
  pub payment : PaymentReference
  pub run_id : Text

pub record RunCapacity : Type 0 where
  pub since : Text
  pub limit : ℕ

-- One constructor for each message that the repository throws.
pub data StoreError : Type 0 where
  finalized_run_overwritten : StoreError
  payment_bound : StoreError
  transaction_bound : StoreError
  kind_bound : StoreError
  missing_reservation : StoreError
  payment_immutable : StoreError
  no_capacity_claim : StoreError
  run_capacity : StoreError
  claim_missing_run : StoreError
  not_awaiting_claim : StoreError
  settlement_missing_run : StoreError
  settlement_immutable : StoreError
  settlement_unclaimed : StoreError
  target_missing_run : StoreError
  target_authorization_immutable : StoreError
  target_unauthorized : StoreError
  target_transaction_immutable : StoreError

pub data Result {ℓ} (A : Type ℓ) : Type ℓ where
  ok : A → Result A
  err : StoreError → Result A

pub record MemoryRepository : Type 0 where
  pub runs : List (Text × StoredRun)
  pub idempotency : List (Text × Text)
  pub payments : List (Text × StoredPayment)
  pub payment_transactions : List (Text × Text)
  pub payment_kinds : List (Text × Text)
  pub chain_cursors : List (Text × ℕ)

abbrev pub empty_repository : MemoryRepository
empty_repository = record {
  runs = [];
  idempotency = [];
  payments = [];
  payment_transactions = [];
  payment_kinds = [];
  chain_cursors = [];
}

abbrev pub get_run : Text → MemoryRepository → Option StoredRun
get_run run_id s = lookup run_id s.runs

abbrev pub set_run : Text → RunProgress → MemoryRepository → MemoryRepository
set_run run_id p s = record s { runs = insert run_id (in_progress p) s.runs }

abbrev pub kind_eq : PaymentKind → PaymentKind → Bool
kind_eq launchproof launchproof = true
kind_eq target target = true
kind_eq _ _ = false

abbrev pub status_eq : PaymentStatus → PaymentStatus → Bool
status_eq settled settled = true
status_eq PaymentStatus.not_tested PaymentStatus.not_tested = true
status_eq local_only local_only = true
status_eq _ _ = false

-- `a?.toLowerCase() === b?.toLowerCase()`
abbrev pub lower_option : Option Text → Option Text
lower_option none = none
lower_option (some s) = some (to_lower_case s)

unfoldable pub same_payment : StoredPayment → PaymentReference → Text → Bool
same_payment existing payment run_id =
    (existing.run_id == run_id)
    && kind_eq e.kind payment.kind
    && (e.amount == payment.amount)
    && (e.amount_atomic == payment.amount_atomic)
    && (e.amount_display == payment.amount_display)
    && (e.asset_decimals == payment.asset_decimals)
    && (to_lower_case e.asset == to_lower_case payment.asset)
    && (e.network == payment.network)
    && (lower_option e.payer == lower_option payment.payer)
    && (lower_option e.recipient == lower_option payment.recipient)
    && (e.route == payment.route)
    && (lower_option e.settlement_transaction == lower_option payment.settlement_transaction)
    && status_eq e.status payment.status
    && (e.timestamp == payment.timestamp)
  where
    open existing use {payment as e}

unfoldable pub same_payment_reference : PaymentReference → PaymentReference → Bool
unfolding same_payment
same_payment_reference existing payment =
    (existing.payment_id == payment.payment_id)
    && same_payment (record { payment = existing; run_id = text "same" }) payment (text "same")

unfoldable pub same_settlement : Option SettlementProgress → SettlementProgress → Bool
same_settlement none candidate = false
same_settlement (some e) candidate =
    (to_lower_case e.transaction_hash == to_lower_case candidate.transaction_hash)
    && (to_lower_case e.payer == to_lower_case candidate.payer)
    && (e.amount_atomic == candidate.amount_atomic)
    && (e.route == candidate.route)

unfoldable pub matches_parts :
    SettlementProgress → PaymentReference → Option Text → Option Text → Bool
matches_parts s payment (some transaction) (some payer) =
    (to_lower_case s.transaction_hash == to_lower_case transaction)
    && (to_lower_case s.payer == to_lower_case payer)
    && (s.amount_atomic == payment.amount_atomic)
    && (s.route == payment.route)
matches_parts s payment _ _ = false

unfoldable pub settlement_matches_payment : Option SettlementProgress → PaymentReference → Bool
unfolding matches_parts
settlement_matches_payment none payment = false
settlement_matches_payment (some s) payment =
    matches_parts s payment (truthy payment.settlement_transaction) (truthy payment.payer)

-- `JSON.stringify(a) === JSON.stringify(b)`
unfoldable pub same_attempt : TargetPaymentAttempt → TargetPaymentAttempt → Bool
same_attempt a b =
    (a.asset == b.asset)
    && (a.network == b.network)
    && (a.payer == b.payer)
    && (a.recipient == b.recipient)
    && (a.amount_atomic == b.amount_atomic)
    && (a.route == b.route)
    && (a.source_revision == b.source_revision)
    && (a.authorization_nonce == b.authorization_nonce)
    && (a.authorization_valid_before == b.authorization_valid_before)
    && (a.start_block == b.start_block)
    && (a.created_at == b.created_at)
    && (a.transaction_hash == b.transaction_hash)
    && (a.payment_payload == b.payment_payload)

-- ===== src/Store/Payments.antt =====
-- `savePayment` of backend/src/db/store.ts: the three bindings of a payment.
pub mod Binding
pub mod Failure
use launch_proof.Shared.{
  Bool, false, not, Text, text, to_lower_case, truthy, Option, none, some, ◌++◌, ◌==◌, nat_eq,
  list_eq, lookup, insert, if◌then◌else◌,
}
use launch_proof.Domain.Types.{PaymentKind, launchproof, target, PaymentReference}
use launch_proof.Store.State.{
  StoredPayment, MemoryRepository, Result, ok, err, payment_bound, transaction_bound, kind_bound,
  same_payment,
}

abbrev pub kind_name : PaymentKind → Text
kind_name launchproof = text "launchproof"
kind_name target = text "target"

-- `${runId}:${payment.kind}`
unfoldable pub kind_key : Text → PaymentKind → Text
kind_key run_id kind = run_id ++ (text ":" ++ kind_name kind)

-- `owner && owner !== paymentId`
abbrev pub owned_by_other : Option Text → Text → Bool
owned_by_other owner payment_id = elim (truthy owner) [
  | none ↦ false
  | some o ↦ not (o == payment_id)
]

abbrev pub conflicts : Option StoredPayment → PaymentReference → Text → Bool
conflicts none payment run_id = false
conflicts (some existing) payment run_id = not (same_payment existing payment run_id)

-- The second half: the payment of this kind of the run, and the payment itself.
unfoldable pub bind_kind :
    PaymentReference → Text → MemoryRepository → Result (Unit {0}) × MemoryRepository
bind_kind payment run_id s =
    let key = kind_key run_id payment.kind in
    if owned_by_other (lookup key s.payment_kinds) payment.payment_id
    then (err kind_bound, s)
    else (
      ok tt,
      record s {
        payment_kinds = insert key payment.payment_id s.payment_kinds;
        payments =
            insert payment.payment_id (record { payment = payment; run_id = run_id }) s.payments;
      },
    )

-- The settlement transaction is bound before the kind is tested.
unfoldable pub bind_transaction :
    Text → PaymentReference → Text → MemoryRepository → Result (Unit {0}) × MemoryRepository
unfolding bind_kind
bind_transaction transaction payment run_id s =
    let key = to_lower_case transaction in
    if owned_by_other (lookup key s.payment_transactions) payment.payment_id
    then (err transaction_bound, s)
    else bind_kind payment run_id
        (record s { payment_transactions = insert key payment.payment_id s.payment_transactions })

abbrev pub bind_settlement :
    Option Text → PaymentReference → Text → MemoryRepository → Result (Unit {0}) × MemoryRepository
bind_settlement none payment run_id s = bind_kind payment run_id s
bind_settlement (some transaction) payment run_id s = bind_transaction transaction payment run_id s

unfoldable pub save_payment :
    PaymentReference → Text → MemoryRepository → Result (Unit {0}) × MemoryRepository
unfolding bind_kind bind_transaction
save_payment payment run_id s =
    if conflicts (lookup payment.payment_id s.payments) payment run_id
    then (err payment_bound, s)
    else bind_settlement (truthy payment.settlement_transaction) payment run_id s

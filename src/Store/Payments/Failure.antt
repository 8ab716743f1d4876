-- ===== src/Store/Payments/Failure.antt =====
-- What a failed `savePayment` of backend/src/db/store.ts leaves behind.
use launch_proof.Shared.{
  list_eq, nat_eq, list_beq_iff, lookup, lookup-insert, truthy, to_lower_case, ◌≡◌, some, none,
  Text, Option, arith,
}
use launch_proof.Domain.Types.{PaymentReference}
use launch_proof.Store.State.{MemoryRepository, err, kind_bound}
use launch_proof.Store.Payments.{save_payment, bind_transaction, bind_kind, bind_settlement}

bind_kind-transactions :
    (payment : PaymentReference) (k : Text) (s : MemoryRepository)
    → (bind_kind payment k s).1.payment_transactions ≡ s.payment_transactions
unfolding bind_kind
bind_kind-transactions payment k s = ground arith

bind_transaction-kind_bound :
    (t : Text) (payment : PaymentReference) (k : Text) (s : MemoryRepository)
    → (bind_transaction t payment k s).0 ≡ err kind_bound
    → lookup (to_lower_case t) (bind_transaction t payment k s).1.payment_transactions
      ≡ some payment.payment_id
unfolding bind_transaction bind_kind
bind_transaction-kind_bound t payment k s h =
    let j = to_lower_case t in
    ground (arith, lookup-insert j j payment.payment_id s.payment_transactions, list_beq_iff j j)

injected : (u t : Text) → some u ≡ some t → t ≡ u
injected u t e = cc

settlement-kind_bound :
    (o : Option Text) (payment : PaymentReference) (k t : Text) (s : MemoryRepository)
    → o ≡ some t
    → (bind_settlement o payment k s).0 ≡ err kind_bound
    → lookup (to_lower_case t) (bind_settlement o payment k s).1.payment_transactions
      ≡ some payment.payment_id
settlement-kind_bound none payment k t s e h = absurd (cc)
settlement-kind_bound (some u) payment k t s e h =
    rw (injected u t e) (bind_transaction-kind_bound u payment k s h)

-- A payment with a settlement transaction that is refused because its run has another payment of
-- the kind has become the owner of that transaction all the same.
pub save_payment-kind_bound :
    (payment : PaymentReference) (k t : Text) (s : MemoryRepository)
    → truthy payment.settlement_transaction ≡ some t
    → (save_payment payment k s).0 ≡ err kind_bound
    → lookup (to_lower_case t) (save_payment payment k s).1.payment_transactions
      ≡ some payment.payment_id
unfolding save_payment
save_payment-kind_bound payment k t s e h =
    ground (arith, settlement-kind_bound (truthy payment.settlement_transaction) payment k t s e)

-- ===== src/Store/Payments/Binding.antt =====
-- What `savePayment` of backend/src/db/store.ts binds: a payment to one run and kind, and a settlement
-- transaction to one payment.
use launch_proof.Domain.Types.{PaymentReference}
use launch_proof.Store.Payments.{
  conflicts, save_payment, bind_transaction, bind_settlement, bind_kind, owned_by_other, kind_key,
}
use launch_proof.Shared.{
  inl, inr, ◌⊎◌, List, List, false, Text, to_lower_case, truthy, Option, none, some, ◌≡◌, refl,
  arith, nat_eq, list_eq, ◌==◌, list_beq_iff, beq_refl, lookup, insert, lookup-insert, Bool-cases,
  if-both,
}
use launch_proof.Store.State.{
  payment_bound, transaction_bound, kind_bound, MemoryRepository, StoredPayment, Result, ok, err,
}

-- The first owner that a map names stays, if it is not the empty text.
keeps_owner :
    (m : List (Text × Text)) (key id k o : Text)
    → owned_by_other (lookup key m) id ≡ false
    → lookup k m ≡ some o
    → truthy (some o) ≡ some o
    → lookup k (insert key id m) ≡ some o
keeps_owner m key id k o free owned full = rw lookup-insert (elim (Bool-cases (key == k)) [
  | inl same ↦
      let at_key : lookup key m ≡ some o = rw ((list_beq_iff key k).0 same) owned in
      let free' : owned_by_other (some o) id ≡ false = rw at_key at free in
      rw same (ground (arith, free', full, list_beq_iff o id))
  | inr other ↦ rw other owned
])

-- What the three maps say of every stored payment.
pub record IsBound (s : MemoryRepository) : Type 0 where
  pub named :
      (id : Text) (x : StoredPayment)
      → lookup id s.payments ≡ some x
      → (x.payment.payment_id ≡ id) × (truthy (some id) ≡ some id)
  pub transaction_owner :
      (id : Text) (x : StoredPayment) (t : Text)
      → lookup id s.payments ≡ some x
      → truthy x.payment.settlement_transaction ≡ some t
      → lookup (to_lower_case t) s.payment_transactions ≡ some id
  pub kind_owner :
      (id : Text) (x : StoredPayment)
      → lookup id s.payments ≡ some x
      → lookup (kind_key x.run_id x.payment.kind) s.payment_kinds ≡ some id

stored_cases :
    {V : Type 0} (m : List (Text × V)) (id : Text) (x : V) (j : Text) (y : V)
    → lookup j (insert id x m) ≡ some y
    → ((id ≡ j) × (x ≡ y)) ⊎ (lookup j m ≡ some y)
stored_cases m id x j y h =
    let found = rw lookup-insert at h in
    elim (Bool-cases (id == j)) [
      | inl same ↦ inl ((list_beq_iff id j).0 same, cc (rw same at found))
      | inr other ↦ inr (rw other at found)
    ]

-- The maps after a save, field by field.
IsBound-after :
    (s : MemoryRepository) (key id : Text) (x : StoredPayment) (t : MemoryRepository)
    → t.payments ≡ insert id x s.payments
    → t.payment_kinds ≡ insert key id s.payment_kinds
    → t.payment_transactions ≡ s.payment_transactions
    → truthy (some id) ≡ some id
    → owned_by_other (lookup key s.payment_kinds) id ≡ false
    → x.payment.payment_id ≡ id
    → kind_key x.run_id x.payment.kind ≡ key
    → ((y : Text)
        → truthy x.payment.settlement_transaction ≡ some y
        → lookup (to_lower_case y) s.payment_transactions ≡ some id)
    → IsBound s
    → IsBound t
IsBound-after s key id x t ep ek et full free named keyed bound v = record {
  named = λ j y h. elim (stored_cases s.payments id x j y (rw ep at h)) [
    | inl (e, f) ↦ rw (← f, ← e) (named, full)
    | inr old ↦ v.named j y old
  ];
  transaction_owner = λ j y z h f. rw et (elim (stored_cases s.payments id x j y (rw ep at h)) [
    | inl (e, g) ↦ rw (← e) (bound z (rw g f))
    | inr old ↦ v.transaction_owner j y z old f
  ]);
  kind_owner = λ j y h. rw ek (elim (stored_cases s.payments id x j y (rw ep at h)) [
    | inl (e, g) ↦ rw (← e, ← g, keyed, lookup-insert, beq_refl)
    | inr old ↦
        keeps_owner s.payment_kinds key id (kind_key y.run_id y.payment.kind) j free
          (v.kind_owner j y old) (v.named j y old).1
  ]);
}

module _ (payment : PaymentReference) (run_id : Text) where
  -- The part of a save that binds the kind, once the transaction is bound.
  bind_kind-IsBound :
      (s : MemoryRepository)
      → truthy (some payment.payment_id) ≡ some payment.payment_id
      → ((t : Text)
          → truthy payment.settlement_transaction ≡ some t
          → lookup (to_lower_case t) s.payment_transactions ≡ some payment.payment_id)
      → IsBound s
      → IsBound (bind_kind payment run_id s).1
  unfolding bind_kind
  bind_kind-IsBound s full bound v =
      let key = kind_key run_id payment.kind in
      let id = payment.payment_id in
      let x : StoredPayment = record { payment = payment; run_id = run_id } in
      let t : MemoryRepository = record s {
        payment_kinds = insert key id s.payment_kinds;
        payments = insert id x s.payments;
      } in
      if-both (λ (r : Result (Unit {0}) × MemoryRepository). IsBound r.1)
        (owned_by_other (lookup key s.payment_kinds) id) (err kind_bound, s) (ok tt, t) (λ _. v)
        (λ free. IsBound-after s key id x t refl refl refl full free refl refl bound v)

  bind_transaction-IsBound :
      (s : MemoryRepository) (t : Text)
      → truthy (some payment.payment_id) ≡ some payment.payment_id
      → truthy payment.settlement_transaction ≡ some t
      → IsBound s
      → IsBound (bind_transaction t payment run_id s).1
  unfolding bind_transaction
  bind_transaction-IsBound s t full e v =
      let key = to_lower_case t in
      let id = payment.payment_id in
      let u : MemoryRepository = record s {
        payment_transactions = insert key id s.payment_transactions;
      } in
      if-both (λ (r : Result (Unit {0}) × MemoryRepository). IsBound r.1)
        (owned_by_other (lookup key s.payment_transactions) id) (err transaction_bound, s)
        (bind_kind payment run_id u) (λ _. v)
        (λ free.
          bind_kind-IsBound u full
            (λ y f. let same : t ≡ y = cc (e, f) in rw (← same, lookup-insert, beq_refl))
            (record {
              named = v.named;
              transaction_owner = λ j y z h f.
                  keeps_owner s.payment_transactions key id (to_lower_case z) j free
                    (v.transaction_owner j y z h f) (v.named j y h).1;
              kind_owner = v.kind_owner;
            }))

  bind_settlement-IsBound :
      (o : Option Text) (s : MemoryRepository)
      → truthy (some payment.payment_id) ≡ some payment.payment_id
      → truthy payment.settlement_transaction ≡ o
      → IsBound s
      → IsBound (bind_settlement o payment run_id s).1
  bind_settlement-IsBound none s full e v = bind_kind-IsBound s full (λ t f. cc (e, f)) v
  bind_settlement-IsBound (some t) s full e v = bind_transaction-IsBound s t full e v

  -- Whether it succeeds or throws, a save under a payment id that is not the empty text keeps the
  -- bindings of all stored payments.
  pub save_payment-IsBound :
      (s : MemoryRepository)
      → truthy (some payment.payment_id) ≡ some payment.payment_id
      → IsBound s
      → IsBound (save_payment payment run_id s).1
  unfolding save_payment
  save_payment-IsBound s full v =
      if-both (λ (r : Result (Unit {0}) × MemoryRepository). IsBound r.1)
        (conflicts (lookup payment.payment_id s.payments) payment run_id) (err payment_bound, s)
        (bind_settlement (truthy payment.settlement_transaction) payment run_id s) (λ _. v)
        (λ _. bind_settlement-IsBound (truthy payment.settlement_transaction) s full refl v)

-- A settlement transaction, in any case of its letters, pays for one payment at most.
pub one_payment_per_transaction :
    (s : MemoryRepository) (i j : Text) (x y : StoredPayment) (t u : Text)
    → IsBound s
    → lookup i s.payments ≡ some x
    → lookup j s.payments ≡ some y
    → truthy x.payment.settlement_transaction ≡ some t
    → truthy y.payment.settlement_transaction ≡ some u
    → to_lower_case t ≡ to_lower_case u
    → i ≡ j
one_payment_per_transaction s i j x y t u v hx hy ht hu e =
    let p = v.transaction_owner i x t hx ht in
    let q = v.transaction_owner j y u hy hu in cc (p, q, e)

-- A run has one payment of each kind at most.
pub one_payment_per_kind :
    (s : MemoryRepository) (i j : Text) (x y : StoredPayment)
    → IsBound s
    → lookup i s.payments ≡ some x
    → lookup j s.payments ≡ some y
    → x.run_id ≡ y.run_id
    → x.payment.kind ≡ y.payment.kind
    → i ≡ j
one_payment_per_kind s i j x y v hx hy e f =
    let p = v.kind_owner i x hx in let q = v.kind_owner j y hy in cc (p, q, e, f)

-- ===== src/Store/Steps/Bindings.antt =====
-- The bindings of payments under any calls of backend/src/db/store.ts.
use launch_proof.Store.Steps.Writing.{brings}
use launch_proof.Store.Payments.Binding.{
  one_payment_per_transaction, one_payment_per_kind, save_payment-IsBound, IsBound,
}
use launch_proof.Store.Steps.Books.{step-SameBooks, SamePayments, admit-SameBooks}
use launch_proof.Store.Lifecycle.{save_over, save_run, create_new, create_progress}
use launch_proof.Store.Capacity.{
  authorize_run, admit, settle, reauthorize, first_authorization, authorize_progress,
  authorize_current,
}
use launch_proof.Shared.{
  nat_eq, list_eq, true, Text, to_lower_case, truthy, Option, none, some, List, [], ◌∷◌, ◌≡◌, refl,
  arith, lookup, if-both,
}
use launch_proof.Domain.Types.{PaymentReference}
use launch_proof.Store.State.{
  payment_immutable, same_payment_reference, RunProgress, StoredRun, RunCapacity, finalized,
  in_progress, ok, err, Result, StoreError, empty_repository, get_run, StoredPayment,
  MemoryRepository,
}
use launch_proof.Store.Payments.{save_payment}
use launch_proof.Store.Steps.{Call, create, save, pay, authorize, step, run_calls}

IsBound-books : {s t : MemoryRepository} → SamePayments s t → IsBound s → IsBound t
IsBound-books e v = record {
  named = λ i x h. v.named i x (rw e.payments at h);
  transaction_owner =
      λ i x t h f. rw e.payment_transactions (v.transaction_owner i x t (rw e.payments at h) f);
  kind_owner = λ i x h. rw e.payment_kinds (v.kind_owner i x (rw e.payments at h));
}

abbrev HasName : PaymentReference → Type 0
HasName payment = truthy (some payment.payment_id) ≡ some payment.payment_id

module _ (payment : PaymentReference) (full : HasName payment) where
  reauthorize-IsBound :
      (x : PaymentReference) (k : Text) (s : MemoryRepository)
      → IsBound s
      → IsBound (reauthorize x payment k s).1
  unfolding reauthorize
  reauthorize-IsBound x k s v =
      if-both (λ (r : Result (Unit {0}) × MemoryRepository). IsBound r.1)
        (same_payment_reference x payment) (save_payment payment k s) (err payment_immutable, s)
        (λ _. save_payment-IsBound payment k s full v) (λ _. v)

  settle-IsBound :
      (r : Result (Unit {0}) × MemoryRepository) (p : RunProgress) (k now : Text)
      → IsBound r.1
      → IsBound (settle r p payment k now).1
  unfolding settle
  settle-IsBound (ok _, s) p k now v =
      IsBound-books {s = s}
        (record { payments = refl; payment_transactions = refl; payment_kinds = refl }) v
  settle-IsBound (err e, s) p k now v = v

  first_authorization-IsBound :
      (r : Option StoreError × MemoryRepository) (p : RunProgress) (k now : Text)
      → IsBound r.1
      → IsBound (first_authorization r p payment k now).1
  unfolding first_authorization
  first_authorization-IsBound (some e, s) p k now v = v
  first_authorization-IsBound (none, s) p k now v =
      settle-IsBound (save_payment payment k s) p k now (save_payment-IsBound payment k s full v)

  authorize_progress-IsBound :
      (o : Option PaymentReference) (p : RunProgress) (k : Text) (capacity : Option RunCapacity)
      (now : Text) (s : MemoryRepository)
      → IsBound s
      → IsBound (authorize_progress o p payment k capacity now s).1
  unfolding authorize_progress
  authorize_progress-IsBound (some x) p k capacity now s v = reauthorize-IsBound x k s v
  authorize_progress-IsBound none p k capacity now s v =
      first_authorization-IsBound (admit p payment capacity now s) p k now
        (IsBound-books (admit-SameBooks p payment capacity now s).payments_same v)

  authorize_current-IsBound :
      (o : Option StoredRun) (k : Text) (capacity : Option RunCapacity) (now : Text)
      (s : MemoryRepository)
      → IsBound s
      → IsBound (authorize_current o payment k capacity now s).1
  unfolding authorize_current
  authorize_current-IsBound none k capacity now s v = v
  authorize_current-IsBound (some (finalized r)) k capacity now s v =
      reauthorize-IsBound r.payment k s v
  authorize_current-IsBound (some (in_progress p)) k capacity now s v =
      authorize_progress-IsBound p.payment p k capacity now s v

bring-SamePayments : (c : Call) (s : MemoryRepository) → brings c ≡ true → SamePayments s (step c s)
unfolding step create_progress create_new save_run save_over
bring-SamePayments (create p) s h = ground arith
bring-SamePayments (save r) s h = ground arith
bring-SamePayments _ s h = cc

-- The payment that a call saves has a name.
abbrev pub PaysByName : Call → Type 0
PaysByName (pay payment k) = HasName payment
PaysByName (authorize payment k capacity now) = HasName payment
PaysByName _ = Unit

abbrev pub AllByName : List Call → Type 0
AllByName [] = Unit
AllByName (c ∷ cs) = PaysByName c × AllByName cs

step-IsBound : (c : Call) (s : MemoryRepository) → PaysByName c → IsBound s → IsBound (step c s)
step-IsBound (create p) s h v = IsBound-books (bring-SamePayments (create p) s refl) v
step-IsBound (save r) s h v = IsBound-books (bring-SamePayments (save r) s refl) v
step-IsBound (pay payment k) s h v = unfold step in save_payment-IsBound payment k s h v
step-IsBound (authorize payment k capacity now) s h v =
    unfold step authorize_run in
    authorize_current-IsBound payment h (get_run k s) k capacity now s v
step-IsBound c s h v = IsBound-books (step-SameBooks c s refl).payments_same v

run_calls-IsBound :
    (cs : List Call) (s : MemoryRepository) → AllByName cs → IsBound s → IsBound (run_calls cs s)
unfolding run_calls
run_calls-IsBound [] s h v = v
run_calls-IsBound (c ∷ cs) s h v = run_calls-IsBound cs (step c s) h.1 (step-IsBound c s h.0 v)

IsBound-empty : IsBound empty_repository
unfolding lookup
IsBound-empty = record {
  named = λ i x h. cc;
  transaction_owner = λ i x t h f. cc;
  kind_owner = λ i x h. cc;
}

-- After any calls of an empty repository, failed ones among them, two stored payments with the
-- same settlement transaction, in any case of its letters, are one payment. The calls that save a
-- payment give it an id that is not the empty text.
pub run_calls-one_payment :
    (cs : List Call) (i j : Text) (x y : StoredPayment) (t u : Text)
    → AllByName cs
    → lookup i (run_calls cs empty_repository).payments ≡ some x
    → lookup j (run_calls cs empty_repository).payments ≡ some y
    → truthy x.payment.settlement_transaction ≡ some t
    → truthy y.payment.settlement_transaction ≡ some u
    → to_lower_case t ≡ to_lower_case u
    → i ≡ j
run_calls-one_payment cs i j x y t u h hx hy ht hu e =
    one_payment_per_transaction (run_calls cs empty_repository) i j x y t u
      (run_calls-IsBound cs empty_repository h IsBound-empty) hx hy ht hu e

-- After any calls of an empty repository that save payments under ids that are not the empty text,
-- a run has one stored payment of each kind at most.
pub run_calls-one_kind :
    (cs : List Call) (i j : Text) (x y : StoredPayment)
    → AllByName cs
    → lookup i (run_calls cs empty_repository).payments ≡ some x
    → lookup j (run_calls cs empty_repository).payments ≡ some y
    → x.run_id ≡ y.run_id
    → x.payment.kind ≡ y.payment.kind
    → i ≡ j
run_calls-one_kind cs i j x y h hx hy e f =
    one_payment_per_kind (run_calls cs empty_repository) i j x y
      (run_calls-IsBound cs empty_repository h IsBound-empty) hx hy e f

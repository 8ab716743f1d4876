-- ===== src/Store/Steps/Books.antt =====
-- Which calls of backend/src/db/store.ts leave the payments, their bindings and the index of keys
-- alone, and that the others keep the bindings.
use launch_proof.Shared.{Bool, true, false, Text, Option, [], ◌∷◌, ◌≡◌, ◌∙◌, arith, if◌then◌else◌}
use launch_proof.Store.State.{MemoryRepository}
use launch_proof.Domain.Types.{PaymentReference}
use launch_proof.Store.State.{RunProgress, StoredRun, RunCapacity}
use launch_proof.Store.Writes.{Runs}
use launch_proof.Store.Capacity.{
  expire_entries, is_expired, release_capacity, expire_capacity_claims, admit, claim_run_capacity,
  release_expired_run_capacity,
}
use launch_proof.Store.Lifecycle.{
  update_state, mark_payment_ambiguous, record_payment_settlement, reset_payment_ambiguous,
  record_publication_attempt, record_target_payment_attempt, record_target_payment_transaction,
  clear_target_payment_attempt, save_chain_cursor,
}
use launch_proof.Store.Steps.{step, Call, create, save, pay, authorize, claim}

pub record SamePayments (s t : MemoryRepository) : Type 0 where
  pub payments : t.payments ≡ s.payments
  pub payment_transactions : t.payment_transactions ≡ s.payment_transactions
  pub payment_kinds : t.payment_kinds ≡ s.payment_kinds

pub record SameBooks (s t : MemoryRepository) : Type 0 where
  pub idempotency : t.idempotency ≡ s.idempotency
  pub payments_same : SamePayments s t

SameBooks-trans : {s t u : MemoryRepository} → SameBooks s t → SameBooks t u → SameBooks s u
SameBooks-trans a b = record {
  idempotency = b.idempotency ∙ a.idempotency;
  payments_same = record {
    payments = b.payments_same.payments ∙ a.payments_same.payments;
    payment_transactions =
        b.payments_same.payment_transactions ∙ a.payments_same.payment_transactions;
    payment_kinds = b.payments_same.payment_kinds ∙ a.payments_same.payment_kinds;
  };
}

release-SameBooks :
    (at now k : Text) (run : StoredRun) (s : MemoryRepository)
    → SameBooks s (if is_expired at run then release_capacity k now s else s)
unfolding release_capacity
release-SameBooks at now k run s = ground arith

expire_entries-SameBooks :
    (l : Runs) (at now : Text) (s : MemoryRepository) → SameBooks s (expire_entries l at now s)
unfolding expire_entries
expire_entries-SameBooks [] at now s = ground arith
expire_entries-SameBooks ((k, run) ∷ l) at now s =
    SameBooks-trans (release-SameBooks at now k run s) (
      expire_entries-SameBooks l at now (if is_expired at run then release_capacity k now s else s))

pub expire-SameBooks :
    (at now : Text) (s : MemoryRepository) → SameBooks s (expire_capacity_claims at now s)
unfolding expire_capacity_claims
expire-SameBooks at now s = expire_entries-SameBooks s.runs at now s

pub admit-SameBooks :
    (p : RunProgress) (payment : PaymentReference) (capacity : Option RunCapacity) (now : Text)
    (s : MemoryRepository)
    → SameBooks s (admit p payment capacity now s).1
unfolding admit
admit-SameBooks p payment capacity now s = let e = expire-SameBooks now now s in ground arith

-- The calls that save a payment, create a run or save its record.
abbrev pub keeps_books : Call → Bool
keeps_books (create p) = false
keeps_books (save r) = false
keeps_books (pay payment k) = false
keeps_books (authorize payment k capacity now) = false
keeps_books _ = true

pub step-SameBooks :
    (c : Call) (s : MemoryRepository) → keeps_books c ≡ true → SameBooks s (step c s)
unfolding step claim_run_capacity release_capacity release_expired_run_capacity update_state
    mark_payment_ambiguous record_payment_settlement reset_payment_ambiguous
    record_publication_attempt record_target_payment_attempt record_target_payment_transaction
    clear_target_payment_attempt save_chain_cursor
step-SameBooks (create p) s h = cc
step-SameBooks (claim k capacity lease now) s h = let e = expire-SameBooks now now s in ground arith
step-SameBooks _ s h = ground arith

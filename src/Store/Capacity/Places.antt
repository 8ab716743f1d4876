-- ===== src/Store/Capacity/Places.antt =====
-- The places that single calls of backend/src/db/store.ts take and free.
use launch_proof.Store.Writes.{runs-save_payment}
use launch_proof.Store.Payments.{save_payment}
use launch_proof.Store.Lifecycle.{
  settled_progress, transacted, attempted, record_ambiguous, transaction_current,
  transaction_attempt, record_current, attempt_current, update_progress, save_over, create_new,
}
use launch_proof.Shared.{
  ap, ℕ, ◌+◌, ◌≤◌, true, false, Text, Option, none, some, ◌≡◌, refl, arith, nat_eq, list_eq, lookup,
  text_leb,
}
use launch_proof.Domain.Types.{RunRecord, PaymentReference, settled, payment_required}
use launch_proof.Store.State.{
  SettlementProgress, TargetPaymentAttempt, StoredRun, RunProgress, finalized, in_progress,
  RunCapacity, MemoryRepository, Result, ok, err, get_run,
}
use launch_proof.Store.Capacity.{
  expire_capacity_claims, release_expired_current, is_settled, authorized, is_payment_required,
  count_runs, capacity_count, admit, first_authorization, settle, reauthorize,
}
use launch_proof.Store.Capacity.Bounds.{expire-count, release_capacity-count, place, count-insert}

module _ (since : Text) where
  pub update_progress-count :
      (f : RunProgress → RunProgress) (o : Option StoredRun) (k : Text) (s : MemoryRepository)
      → get_run k s ≡ o
      → ((p : RunProgress)
          → o ≡ some (in_progress p)
          → place since (in_progress (f p)) ≤ place since (in_progress p))
      → capacity_count since (update_progress f o k s) ≤ capacity_count since s
  unfolding capacity_count
  update_progress-count f none k s e h = omega arith
  update_progress-count f (some (finalized r)) k s e h = omega arith
  update_progress-count f (some (in_progress p)) k s e h =
      ground (arith, e, h p refl, count-insert since k (in_progress (f p)) s.runs)

  pub create_new-count :
      (o : Option Text) (p : RunProgress) (s : MemoryRepository)
      → p.state ≡ payment_required
      → capacity_count since (create_new o p s).1 ≤ capacity_count since s
  unfolding create_new capacity_count
  create_new-count (some id) p s h = omega arith
  create_new-count none p s h =
      ground (arith, h, count-insert since p.run_id (in_progress p) s.runs)

  pub save_over-count :
      (o : Option StoredRun) (r : RunRecord) (p : RunProgress) (s : MemoryRepository)
      → get_run r.run_id s ≡ some (in_progress p)
      → is_payment_required p.state ≡ false
      → (text_leb since r.generated_at ≡ true → text_leb since p.created_at ≡ true)
      → get_run r.run_id s ≡ o
      → capacity_count since (save_over o r s).1 ≤ capacity_count since s
  unfolding save_over capacity_count
  save_over-count none r p s e h w f = absurd (cc)
  save_over-count (some (finalized x)) r p s e h w f = absurd (cc)
  save_over-count (some (in_progress x)) r p s e h w f =
      ground (arith, e, w, count-insert since r.run_id (finalized r) s.runs)

module _ (since : Text) where
  pub record_current-count :
      (o : Option StoredRun) (k : Text) (x : SettlementProgress) (s : MemoryRepository)
      → get_run k s ≡ o
      → capacity_count since (record_current o k x s).1 ≤ capacity_count since s
  unfolding record_current record_ambiguous capacity_count
  record_current-count none k x s e = omega arith
  record_current-count (some (finalized r)) k x s e = omega arith
  record_current-count (some (in_progress p)) k x s e =
      ground (arith, e, count-insert since k (in_progress (settled_progress x p)) s.runs)

  pub attempt_current-count :
      (o : Option StoredRun) (k : Text) (x : TargetPaymentAttempt) (s : MemoryRepository)
      → get_run k s ≡ o
      → capacity_count since (attempt_current o k x s).1 ≤ capacity_count since s
  unfolding attempt_current capacity_count
  attempt_current-count none k x s e = omega arith
  attempt_current-count (some (finalized r)) k x s e = omega arith
  attempt_current-count (some (in_progress p)) k x s e =
      ground (arith, e, count-insert since k (in_progress (attempted x p)) s.runs)

  pub transaction_attempt-count :
      (o : Option TargetPaymentAttempt) (p : RunProgress) (k hash now : Text) (s : MemoryRepository)
      → get_run k s ≡ some (in_progress p)
      → capacity_count since (transaction_attempt o p k hash now s).1 ≤ capacity_count since s
  unfolding transaction_attempt capacity_count
  transaction_attempt-count none p k hash now s e = omega arith
  transaction_attempt-count (some a) p k hash now s e =
      ground (arith, e, count-insert since k (in_progress (transacted a hash now p)) s.runs)

  pub transaction_current-count :
      (o : Option StoredRun) (k hash now : Text) (s : MemoryRepository)
      → get_run k s ≡ o
      → capacity_count since (transaction_current o k hash now s).1 ≤ capacity_count since s
  unfolding transaction_current
  transaction_current-count none k hash now s e = omega arith
  transaction_current-count (some (finalized r)) k hash now s e = omega arith
  transaction_current-count (some (in_progress p)) k hash now s e =
      transaction_attempt-count p.target_payment_attempt p k hash now s e

  pub release_expired_current-count :
      (o : Option StoredRun) (k at now : Text) (s : MemoryRepository)
      → capacity_count since (release_expired_current o k at now s).1 ≤ capacity_count since s
  unfolding release_expired_current
  release_expired_current-count none k at now s = omega arith
  release_expired_current-count (some run) k at now s =
      ground (arith, release_capacity-count since k now s)

  pub save_payment-count :
      (payment : PaymentReference) (k : Text) (s : MemoryRepository)
      → capacity_count since (save_payment payment k s).1 ≡ capacity_count since s
  unfolding capacity_count
  save_payment-count payment k s = ap (count_runs since) (runs-save_payment payment k s)

  pub reauthorize-count :
      (x payment : PaymentReference) (k : Text) (s : MemoryRepository)
      → capacity_count since (reauthorize x payment k s).1 ≤ capacity_count since s
  unfolding reauthorize
  reauthorize-count x payment k s = ground (arith, save_payment-count payment k s)

  -- A place more than before at most.
  pub settle-count :
      (r : Result (Unit {0}) × MemoryRepository) (p : RunProgress) (payment : PaymentReference)
      (k now : Text)
      → capacity_count since (settle r p payment k now).1 ≤ capacity_count since r.1 + 1
  unfolding settle capacity_count
  settle-count (ok _, s) p payment k now =
      ground (arith, count-insert since k (in_progress (authorized payment now p)) s.runs)
  settle-count (err e, s) p payment k now = omega arith

  -- No place more, if the run had one.
  pub settle-count_started :
      (r : Result (Unit {0}) × MemoryRepository) (p : RunProgress) (payment : PaymentReference)
      (k now : Text)
      → lookup k r.1.runs ≡ some (in_progress p)
      → is_payment_required p.state ≡ false
      → capacity_count since (settle r p payment k now).1 ≤ capacity_count since r.1
  unfolding settle capacity_count
  settle-count_started (ok _, s) p payment k now e h =
      ground (arith, e, count-insert since k (in_progress (authorized payment now p)) s.runs)
  settle-count_started (err x, s) p payment k now e h = omega arith

module _ (since : Text) (limit : ℕ) (s : MemoryRepository)
    (within : capacity_count since s ≤ limit) where
  -- A settled payment needs a run that has started.
  pub first-settled :
      (p : RunProgress) (payment : PaymentReference) (k : Text) (capacity : Option RunCapacity)
      (now : Text)
      → payment.status ≡ settled
      → get_run k s ≡ some (in_progress p)
      → capacity_count since
          (first_authorization (admit p payment capacity now s) p payment k now).1
        ≤ limit
  unfolding first_authorization admit
  first-settled p payment k capacity now h e = ground (
    arith,
    save_payment-count since payment k s,
    runs-save_payment payment k s,
    settle-count_started since (save_payment payment k s) p payment k now,
  )

  pub first-capped :
      (p : RunProgress) (payment : PaymentReference) (k now : Text)
      → is_settled payment.status ≡ false
      → capacity_count since
          (first_authorization
            (admit p payment (some (record { since = since; limit = limit })) now s)
            p
            payment
            k
            now).1
        ≤ limit
  unfolding first_authorization admit
  first-capped p payment k now h =
      let t = expire_capacity_claims now now s in
      ground (
        arith,
        expire-count since now now s,
        save_payment-count since payment k t,
        settle-count since (save_payment payment k t) p payment k now,
      )

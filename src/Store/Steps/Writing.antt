-- ===== src/Store/Steps/Writing.antt =====
-- Which of the calls only write to runs that are in progress: all but the two that create a run and
-- save its record.
use launch_proof.Shared.{
  if◌then◌else◌, Bool, true, false, Text, Option, none, some, ◌≡◌, refl, if-both,
}
use launch_proof.Store.State.{
  target_transaction_immutable, target_authorization_immutable, settlement_unclaimed,
  settlement_immutable, SettlementProgress, TargetPaymentAttempt, RunProgress, StoredRun, finalized,
  in_progress, MemoryRepository, Result, ok, err, get_run, set_run, same_settlement,
}
use launch_proof.Store.Capacity.{is_settlement_claimed, is_payment_ambiguous}
use launch_proof.Store.Lifecycle.{
  reset_progress, ambiguous, save_chain_cursor, clear_target_payment_attempt,
  record_target_payment_transaction, transacted, record_target_payment_attempt, attempted,
  record_publication_attempt, reset_payment_ambiguous, other_transaction, other_attempt,
  settled_progress, record_payment_settlement, transaction_current, transaction_attempt,
  record_current, record_ambiguous, mark_payment_ambiguous, attempt_current, update_state,
}
use launch_proof.Store.Writes.{
  release_expired_run_capacity-Writes, release_capacity-Writes, claim_run_capacity-Writes,
  authorize_run-Writes, runs-save_payment, update_progress-Writes, WritesTo, Writes, kept, wrote,
}
use launch_proof.Store.Steps.{
  Call, create, save, pay, authorize, claim, release, release_expired, mark_ambiguous,
  record_settlement, reset_ambiguous, record_publication, record_attempt, record_transaction,
  clear_attempt, save_cursor, update, step,
}

module _ (s : MemoryRepository) where
  record_ambiguous-Writes :
      (o : Option SettlementProgress) (p : RunProgress) (k : Text) (x : SettlementProgress)
      → get_run k s ≡ some (in_progress p)
      → Writes s.runs (record_ambiguous o p k x s).1.runs
  unfolding record_ambiguous
  record_ambiguous-Writes none p k x e = wrote k p (settled_progress x p) kept e
  record_ambiguous-Writes (some y) p k x e =
      if-both (WritesTo s.runs) (same_settlement (some y) x) (ok tt, s)
        (err settlement_immutable, s) (λ _. kept) (λ _. kept)

  record_current-Writes :
      (o : Option StoredRun) (k : Text) (x : SettlementProgress)
      → get_run k s ≡ o
      → Writes s.runs (record_current o k x s).1.runs
  unfolding record_current
  record_current-Writes none k x e = kept
  record_current-Writes (some (finalized r)) k x e = kept
  record_current-Writes (some (in_progress p)) k x e =
      let settled : Result (Unit {0}) × MemoryRepository =
        (ok tt, set_run k (settled_progress x p) s) in
      let rest = if is_settlement_claimed p.state then settled else (err settlement_unclaimed, s) in
      if-both (WritesTo s.runs) (is_payment_ambiguous p.state)
        (record_ambiguous p.settlement p k x s) rest
        (λ _. record_ambiguous-Writes p.settlement p k x e)
        (λ _.
          if-both (WritesTo s.runs) (is_settlement_claimed p.state) settled
            (err settlement_unclaimed, s) (λ _. wrote k p (settled_progress x p) kept e)
            (λ _. kept))

  attempt_current-Writes :
      (o : Option StoredRun) (k : Text) (x : TargetPaymentAttempt)
      → get_run k s ≡ o
      → Writes s.runs (attempt_current o k x s).1.runs
  unfolding attempt_current
  attempt_current-Writes none k x e = kept
  attempt_current-Writes (some (finalized r)) k x e = kept
  attempt_current-Writes (some (in_progress p)) k x e =
      if-both (WritesTo s.runs) (other_attempt p.target_payment_attempt x)
        (err target_authorization_immutable, s) (ok tt, set_run k (attempted x p) s) (λ _. kept)
        (λ _. wrote k p (attempted x p) kept e)

  transaction_attempt-Writes :
      (o : Option TargetPaymentAttempt) (p : RunProgress) (k hash now : Text)
      → get_run k s ≡ some (in_progress p)
      → Writes s.runs (transaction_attempt o p k hash now s).1.runs
  unfolding transaction_attempt
  transaction_attempt-Writes none p k hash now e = kept
  transaction_attempt-Writes (some a) p k hash now e =
      if-both (WritesTo s.runs) (other_transaction a.transaction_hash hash)
        (err target_transaction_immutable, s) (ok tt, set_run k (transacted a hash now p) s)
        (λ _. kept) (λ _. wrote k p (transacted a hash now p) kept e)

  transaction_current-Writes :
      (o : Option StoredRun) (k hash now : Text)
      → get_run k s ≡ o
      → Writes s.runs (transaction_current o k hash now s).1.runs
  unfolding transaction_current
  transaction_current-Writes none k hash now e = kept
  transaction_current-Writes (some (finalized r)) k hash now e = kept
  transaction_current-Writes (some (in_progress p)) k hash now e =
      transaction_attempt-Writes p.target_payment_attempt p k hash now e

-- The two calls that bring in a run or its record.
abbrev pub brings : Call → Bool
brings (create p) = true
brings (save r) = true
brings _ = false

pub step-Writes :
    (c : Call) (s : MemoryRepository) → brings c ≡ false → Writes s.runs (step c s).runs
unfolding step update_state mark_payment_ambiguous record_payment_settlement reset_payment_ambiguous
    record_publication_attempt record_target_payment_attempt record_target_payment_transaction
    clear_target_payment_attempt save_chain_cursor
step-Writes (create p) s h = cc
step-Writes (save r) s h = cc
step-Writes (update k state error now) s h = update_progress-Writes s _ (get_run k s) k refl
step-Writes (pay payment k) s h = rw (runs-save_payment payment k s) kept
step-Writes (authorize payment k capacity now) s h = authorize_run-Writes payment k capacity now s
step-Writes (claim k capacity lease now) s h = claim_run_capacity-Writes k capacity lease now s
step-Writes (release k now) s h = release_capacity-Writes s k now
step-Writes (release_expired k at now) s h = release_expired_run_capacity-Writes k at now s
step-Writes (mark_ambiguous k error now) s h =
    update_progress-Writes s (ambiguous error now) (get_run k s) k refl
step-Writes (record_settlement k x) s h = record_current-Writes s (get_run k s) k x refl
step-Writes (reset_ambiguous k now) s h =
    update_progress-Writes s (reset_progress now) (get_run k s) k refl
step-Writes (record_publication k x) s h = update_progress-Writes s _ (get_run k s) k refl
step-Writes (record_attempt k x) s h = attempt_current-Writes s (get_run k s) k x refl
step-Writes (record_transaction k hash now) s h =
    transaction_current-Writes s (get_run k s) k hash now refl
step-Writes (clear_attempt k now) s h = update_progress-Writes s _ (get_run k s) k refl
step-Writes (save_cursor key block) s h = kept

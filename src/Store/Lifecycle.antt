-- ===== src/Store/Lifecycle.antt =====
-- The other writes of backend/src/db/store.ts: a run from its creation to its record.
use launch_proof.Shared.{
  ℕ, Bool, false, not, Text, to_lower_case, truthy, Option, none, some, ◌||◌, ◌==◌, nat_eq, list_eq,
  lookup, insert, take, if◌then◌else◌,
}
use launch_proof.Domain.Types.{
  RunState, payment_required, payment_ambiguous, payment_settled, publishing_on_chain, RunRecord,
}
use launch_proof.Store.State.{
  SettlementProgress, PublicationProgress, TargetPaymentAttempt, RunProgress, StoredRun, finalized,
  in_progress, MemoryRepository, Result, ok, err, finalized_run_overwritten, settlement_missing_run,
  settlement_immutable, settlement_unclaimed, target_missing_run, target_authorization_immutable,
  target_unauthorized, target_transaction_immutable, get_run, set_run, same_settlement,
  same_attempt,
}
use launch_proof.Store.Capacity.{is_settlement_claimed, is_payment_ambiguous}

unfoldable pub create_new :
    Option Text → RunProgress → MemoryRepository → Option StoredRun × MemoryRepository
create_new (some existing_id) p s = (get_run existing_id s, s)
create_new none p s = (
  some (in_progress p),
  record s {
    runs = insert p.run_id (in_progress p) s.runs;
    idempotency = insert p.idempotency_key p.run_id s.idempotency;
  },
)

-- The result is `undefined`, here `none`, where the index names a run that is not there.
unfoldable pub create_progress :
    RunProgress → MemoryRepository → Option StoredRun × MemoryRepository
unfolding create_new
create_progress p s = create_new (truthy (lookup p.idempotency_key s.idempotency)) p s

-- A write to a run that is in progress; a missing or finalized run is left as it is.
abbrev pub update_progress :
    (RunProgress → RunProgress) → Option StoredRun → Text → MemoryRepository → MemoryRepository
update_progress f none run_id s = s
update_progress f (some (finalized r)) run_id s = s
update_progress f (some (in_progress p)) run_id s = set_run run_id (f p) s

-- `error ? error.slice(0, 500) : current.error`
abbrev pub next_error : Option Text → Option Text → Option Text
next_error none current = current
next_error (some e) current = some (take 500 e)

unfoldable pub update_state :
    Text → RunState → Option Text → Text → MemoryRepository → MemoryRepository
update_state run_id state error now s =
    update_progress
      (λ p. record p { state = state; updated_at = now; error = next_error (truthy error) p.error })
      (get_run run_id s) run_id s

unfoldable pub save_record : RunRecord → MemoryRepository → MemoryRepository
save_record run s = record s {
  runs = insert run.run_id (finalized run) s.runs;
  idempotency = insert run.idempotency_key run.run_id s.idempotency;
}

unfoldable pub save_over :
    Option StoredRun → RunRecord → MemoryRepository → Result (Unit {0}) × MemoryRepository
unfolding save_record
save_over none run s = (ok tt, save_record run s)
save_over (some (in_progress p)) run s = (ok tt, save_record run s)
save_over (some (finalized r)) run s =
    if r.canonical_evidence_jcs == run.canonical_evidence_jcs
    then (ok tt, s)
    else (err finalized_run_overwritten, s)

unfoldable pub save_run : RunRecord → MemoryRepository → Result (Unit {0}) × MemoryRepository
unfolding save_over
save_run run s = save_over (get_run run.run_id s) run s

abbrev pub ambiguous : Text → Text → RunProgress → RunProgress
ambiguous error now p =
    if is_settlement_claimed p.state || is_payment_ambiguous p.state
    then record p {
      state = payment_ambiguous;
      capacity_lease_expires_at = none;
      updated_at = now;
      error = some (take 500 error);
    }
    else p

-- Writing the same run back is the same as not writing it.
unfoldable pub mark_payment_ambiguous : Text → Text → Text → MemoryRepository → MemoryRepository
mark_payment_ambiguous run_id error now s =
    update_progress (ambiguous error now) (get_run run_id s) run_id s

abbrev pub settled_progress : SettlementProgress → RunProgress → RunProgress
settled_progress settlement p = record p {
  state = payment_ambiguous;
  settlement = some settlement;
  capacity_lease_expires_at = none;
  updated_at = settlement.observed_at;
}

unfoldable pub record_ambiguous :
    Option SettlementProgress
    → RunProgress
    → Text
    → SettlementProgress
    → MemoryRepository
    → Result (Unit {0}) × MemoryRepository
record_ambiguous none p run_id settlement s =
    (ok tt, set_run run_id (settled_progress settlement p) s)
record_ambiguous (some e) p run_id settlement s =
    if same_settlement (some e) settlement then (ok tt, s) else (err settlement_immutable, s)

unfoldable pub record_current :
    Option StoredRun
    → Text
    → SettlementProgress
    → MemoryRepository
    → Result (Unit {0}) × MemoryRepository
unfolding record_ambiguous
record_current none run_id settlement s = (err settlement_missing_run, s)
record_current (some (finalized r)) run_id settlement s = (err settlement_missing_run, s)
record_current (some (in_progress p)) run_id settlement s =
    if is_payment_ambiguous p.state
    then record_ambiguous p.settlement p run_id settlement s
    else if is_settlement_claimed p.state
    then (ok tt, set_run run_id (settled_progress settlement p) s)
    else (err settlement_unclaimed, s)

unfoldable pub record_payment_settlement :
    Text → SettlementProgress → MemoryRepository → Result (Unit {0}) × MemoryRepository
unfolding record_current
record_payment_settlement run_id settlement s =
    record_current (get_run run_id s) run_id settlement s

abbrev pub reset_progress : Text → RunProgress → RunProgress
reset_progress now p =
    if is_payment_ambiguous p.state
    then record p {
      state = payment_required;
      settlement = none;
      capacity_lease_expires_at = none;
      updated_at = now;
      error = none;
    }
    else p

unfoldable pub reset_payment_ambiguous : Text → Text → MemoryRepository → MemoryRepository
reset_payment_ambiguous run_id now s =
    update_progress (reset_progress now) (get_run run_id s) run_id s

unfoldable pub record_publication_attempt :
    Text → PublicationProgress → MemoryRepository → MemoryRepository
record_publication_attempt run_id publication s =
    update_progress
      (λ p. record p {
        state = publishing_on_chain;
        publication = some publication;
        updated_at = publication.started_at;
      })
      (get_run run_id s) run_id s

abbrev pub other_attempt : Option TargetPaymentAttempt → TargetPaymentAttempt → Bool
other_attempt none attempt = false
other_attempt (some a) attempt = not (same_attempt a attempt)

abbrev pub attempted : TargetPaymentAttempt → RunProgress → RunProgress
attempted attempt p = record p {
  target_payment_attempt = some attempt;
  updated_at = attempt.created_at;
}

unfoldable pub attempt_current :
    Option StoredRun
    → Text
    → TargetPaymentAttempt
    → MemoryRepository
    → Result (Unit {0}) × MemoryRepository
attempt_current none run_id attempt s = (err target_missing_run, s)
attempt_current (some (finalized r)) run_id attempt s = (err target_missing_run, s)
attempt_current (some (in_progress p)) run_id attempt s =
    if other_attempt p.target_payment_attempt attempt
    then (err target_authorization_immutable, s)
    else (ok tt, set_run run_id (attempted attempt p) s)

unfoldable pub record_target_payment_attempt :
    Text → TargetPaymentAttempt → MemoryRepository → Result (Unit {0}) × MemoryRepository
unfolding attempt_current
record_target_payment_attempt run_id attempt s = attempt_current (get_run run_id s) run_id attempt s

-- `existing && existing.toLowerCase() !== transactionHash.toLowerCase()`
abbrev pub other_transaction : Option Text → Text → Bool
other_transaction existing transaction = elim (truthy existing) [
  | none ↦ false
  | some t ↦ not (to_lower_case t == to_lower_case transaction)
]

abbrev pub transacted : TargetPaymentAttempt → Text → Text → RunProgress → RunProgress
transacted a transaction now p = record p {
  target_payment_attempt = some (record a { transaction_hash = some transaction });
  updated_at = now;
}

unfoldable pub transaction_attempt :
    Option TargetPaymentAttempt
    → RunProgress
    → Text
    → Text
    → Text
    → MemoryRepository
    → Result (Unit {0}) × MemoryRepository
transaction_attempt none p run_id transaction now s = (err target_unauthorized, s)
transaction_attempt (some a) p run_id transaction now s =
    if other_transaction a.transaction_hash transaction
    then (err target_transaction_immutable, s)
    else (ok tt, set_run run_id (transacted a transaction now p) s)

unfoldable pub transaction_current :
    Option StoredRun → Text → Text → Text → MemoryRepository → Result (Unit {0}) × MemoryRepository
unfolding transaction_attempt
transaction_current none run_id transaction now s = (err target_unauthorized, s)
transaction_current (some (finalized r)) run_id transaction now s = (err target_unauthorized, s)
transaction_current (some (in_progress p)) run_id transaction now s =
    transaction_attempt p.target_payment_attempt p run_id transaction now s

unfoldable pub record_target_payment_transaction :
    Text → Text → Text → MemoryRepository → Result (Unit {0}) × MemoryRepository
unfolding transaction_current
record_target_payment_transaction run_id transaction now s =
    transaction_current (get_run run_id s) run_id transaction now s

unfoldable pub clear_target_payment_attempt : Text → Text → MemoryRepository → MemoryRepository
clear_target_payment_attempt run_id now s =
    update_progress
      (λ p. record p { state = payment_settled; target_payment_attempt = none; updated_at = now })
      (get_run run_id s) run_id s

unfoldable pub save_chain_cursor : Text → ℕ → MemoryRepository → MemoryRepository
save_chain_cursor key block s = record s { chain_cursors = insert key block s.chain_cursors }

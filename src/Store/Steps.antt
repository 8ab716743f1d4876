-- ===== src/Store/Steps.antt =====
-- Every write of backend/src/db/store.ts as a step from one repository to the next; a schedule of calls
-- is a list of steps. What a method without the lock does while another awaits is not modelled.
pub mod Writing
pub mod Permanence
pub mod Books
pub mod Bindings
pub mod Index
use launch_proof.Shared.{ℕ, Text, Option, List, [], ◌∷◌}
use launch_proof.Domain.Types.{RunState, PaymentReference, RunRecord}
use launch_proof.Store.State.{
  SettlementProgress, PublicationProgress, TargetPaymentAttempt, RunProgress, RunCapacity,
  MemoryRepository,
}
use launch_proof.Store.Payments.{save_payment}
use launch_proof.Store.Capacity.{
  claim_run_capacity, release_capacity, release_expired_run_capacity, authorize_run,
}
use launch_proof.Store.Lifecycle.{
  create_progress, update_state, save_run, mark_payment_ambiguous, record_payment_settlement,
  reset_payment_ambiguous, record_publication_attempt, record_target_payment_attempt,
  record_target_payment_transaction, clear_target_payment_attempt, save_chain_cursor,
}

-- A call with its arguments; the last text of most is the time that the clock shows.
pub data Call : Type 0 where
  create : RunProgress → Call
  update : Text → RunState → Option Text → Text → Call
  save : RunRecord → Call
  pay : PaymentReference → Text → Call
  authorize : PaymentReference → Text → Option RunCapacity → Text → Call
  claim : Text → RunCapacity → Text → Text → Call
  release : Text → Text → Call
  release_expired : Text → Text → Text → Call
  mark_ambiguous : Text → Text → Text → Call
  record_settlement : Text → SettlementProgress → Call
  reset_ambiguous : Text → Text → Call
  record_publication : Text → PublicationProgress → Call
  record_attempt : Text → TargetPaymentAttempt → Call
  record_transaction : Text → Text → Text → Call
  clear_attempt : Text → Text → Call
  save_cursor : Text → ℕ → Call

unfoldable pub step : Call → MemoryRepository → MemoryRepository
step (create p) s = (create_progress p s).1
step (update run_id state error now) s = update_state run_id state error now s
step (save run) s = (save_run run s).1
step (pay payment run_id) s = (save_payment payment run_id s).1
step (authorize payment run_id capacity now) s = (authorize_run payment run_id capacity now s).1
step (claim run_id capacity lease now) s = (claim_run_capacity run_id capacity lease now s).1
step (release run_id now) s = release_capacity run_id now s
step (release_expired run_id at now) s = (release_expired_run_capacity run_id at now s).1
step (mark_ambiguous run_id error now) s = mark_payment_ambiguous run_id error now s
step (record_settlement run_id settlement) s = (record_payment_settlement run_id settlement s).1
step (reset_ambiguous run_id now) s = reset_payment_ambiguous run_id now s
step (record_publication run_id publication) s = record_publication_attempt run_id publication s
step (record_attempt run_id attempt) s = (record_target_payment_attempt run_id attempt s).1
step (record_transaction run_id hash now) s =
    (record_target_payment_transaction run_id hash now s).1
step (clear_attempt run_id now) s = clear_target_payment_attempt run_id now s
step (save_cursor key block) s = save_chain_cursor key block s

unfoldable pub run_calls : List Call → MemoryRepository → MemoryRepository
unfolding step
run_calls [] s = s
run_calls (c ∷ cs) s = run_calls cs (step c s)

-- ===== src/Store/Tests.antt =====
-- Runs of the model of backend/src/db/store.ts at concrete calls.
use launch_proof.Store.Payments.Failure.{save_payment-kind_bound}
use launch_proof.Store.Steps.Permanence.{run_calls-finalized}
use launch_proof.Domain.Sample.{sample_run}
use launch_proof.Store.Steps.Index.{create_progress_again, create_progress-defined}
use launch_proof.Store.Steps.Bindings.{run_calls-one_payment, run_calls-one_kind}
use launch_proof.Store.Capacity.Window.{run_calls-within}
use launch_proof.Store.Capacity.Bounds.{release_capacity-claim_run_capacity}
use launch_proof.Store.Payments.{bind_kind, bind_transaction, kind_key, save_payment}
use launch_proof.Store.Capacity.{
  reauthorize, settle, first_authorization, authorize_progress, authorize_current, admit,
  count_runs, capacity_count, release_current, release_capacity, expire_entries,
  expire_capacity_claims, authorize_run, claim_current, claim_run_capacity,
}
use launch_proof.Store.Lifecycle.{save_record, save_over, save_run, create_new, create_progress}
use launch_proof.Shared.{
  text_leb, to_lower_case, list_beq, insert, ◌≤◌, true, Text, text, none, some, List, [], ◌∷◌, ◌≡◌,
  inl, inr, refl, is_some, arith, nat_eq, list_eq, lookup,
}
use launch_proof.Domain.Types.{payment_required, PaymentReference, launchproof, settled}
use launch_proof.Store.State.{
  finalized, same_payment_reference, same_payment, RunProgress, genesis, RunCapacity,
  MemoryRepository, empty_repository, get_run,
}
use launch_proof.Store.Steps.{Call, create, authorize, claim, run_calls}

abbrev run : RunProgress
run = record {
  run_id = text "0xa1";
  idempotency_key = text "key-1";
  state = payment_required;
  target_url = text "https://example.com/";
  operation = genesis;
  previous_run_id = none;
  payment = none;
  capacity_lease_expires_at = none;
  settlement = none;
  publication = none;
  target_payment_attempt = none;
  created_at = text "2026-07-20T01:00:00.000Z";
  updated_at = text "2026-07-20T01:00:00.000Z";
  error = none;
}

abbrev payment : PaymentReference
payment = record {
  payment_id = text "0xAB";
  kind = launchproof;
  amount = text "10000";
  amount_atomic = text "10000";
  amount_display = text "0.01";
  asset_decimals = 6;
  asset = text "0xcc";
  network = text "eip155:1952";
  payer = some (text "0xdd");
  recipient = some (text "0xee");
  route = text "/api/rehearsals";
  settlement_transaction = some (text "0xAB");
  status = settled;
  timestamp = text "2026-07-20T01:00:02.000Z";
}

abbrev window : RunCapacity
window = record { since = text "2026-07-20T00:00:00.000Z"; limit = 1 }

abbrev now : Text
now = text "2026-07-20T01:00:01.000Z"

abbrev lease : Text
lease = text "2026-07-20T01:05:00.000Z"

-- A run is created, claims the only place, and is authorized by its settled payment.
abbrev calls : List Call
calls =
    create run
    ∷ claim (text "0xa1") window lease now
    ∷ authorize payment (text "0xa1") none now
    ∷ []

-- The repository after the calls; to unfold it is to run them.
end : MemoryRepository
unfolding run_calls create_progress create_new claim_run_capacity claim_current authorize_run
    expire_capacity_claims expire_entries release_capacity release_current save_payment
    capacity_count count_runs kind_key same_payment lookup insert list_beq text to_lower_case
    text_leb admit authorize_current authorize_progress first_authorization settle
    same_payment_reference reauthorize
end = run_calls calls empty_repository

abbrev claiming : MemoryRepository
claiming = run_calls (create run ∷ []) empty_repository

stored_payment :
    lookup (text "0xAB") (run_calls calls empty_repository).payments
    ≡ some (record { payment = payment; run_id = text "0xa1" })
unfolding end
stored_payment = refl

full_window : 1 ≤ capacity_count window.since (run_calls calls empty_repository)
unfolding end
full_window = omega arith

run_calls-within_example : capacity_count window.since (run_calls calls empty_repository) ≤ 1
unfolding end
run_calls-within_example =
    run_calls-within window.since 1 calls empty_repository
      ((refl, inr refl), ((refl, refl), (inl refl, tt))) (omega arith)

run_calls-one_payment_example : ◌≡◌ {A = Text} (text "0xAB") (text "0xAB")
run_calls-one_payment_example =
    run_calls-one_payment calls (text "0xAB") (text "0xAB")
      (record { payment = payment; run_id = text "0xa1" })
      (record { payment = payment; run_id = text "0xa1" }) (text "0xAB") (text "0xAB")
      (tt, (tt, (unfold text in refl, tt))) stored_payment stored_payment (unfold text in refl)
      (unfold text in refl) refl

run_calls-one_kind_example : ◌≡◌ {A = Text} (text "0xAB") (text "0xAB")
run_calls-one_kind_example =
    run_calls-one_kind calls (text "0xAB") (text "0xAB")
      (record { payment = payment; run_id = text "0xa1" })
      (record { payment = payment; run_id = text "0xa1" }) (tt, (tt, (unfold text in refl, tt)))
      stored_payment stored_payment refl refl

release_capacity-claim_run_capacity_example :
    capacity_count now (
      release_capacity
        (text "0xa1")
        lease
        (claim_run_capacity (text "0xa1") window lease now claiming).1)
    ≡ capacity_count now (expire_capacity_claims now now claiming)
unfolding end
release_capacity-claim_run_capacity_example =
    release_capacity-claim_run_capacity (text "0xa1") window lease now lease now claiming refl

create_progress-defined_example :
    is_some (create_progress run (run_calls calls empty_repository)).0 ≡ true
create_progress-defined_example = create_progress-defined calls run

create_progress_again_example :
    create_progress run (create_progress run empty_repository).1
    ≡ create_progress run empty_repository
create_progress_again_example =
    create_progress_again run run empty_repository refl (unfold text in refl)

run_calls-finalized_example :
    get_run (text "0xa2") (run_calls calls (save_run sample_run empty_repository).1)
    ≡ some (finalized sample_run)
unfolding end save_run save_over save_record
run_calls-finalized_example =
    run_calls-finalized calls (save_run sample_run empty_repository).1 (text "0xa2") sample_run
      (inr refl, (tt, (tt, tt))) refl

-- Another payment of the run, of the same kind.
abbrev second_payment : PaymentReference
second_payment = record payment {
  payment_id = text "0xCD";
  settlement_transaction = some (text "0xCD");
}

abbrev paid_once : MemoryRepository
paid_once = (save_payment payment (text "0xa1") empty_repository).1

save_payment-kind_bound_example :
    lookup
      (to_lower_case (text "0xCD"))
      (save_payment second_payment (text "0xa1") paid_once).1.payment_transactions
    ≡ some (text "0xCD")
unfolding end save_payment bind_transaction bind_kind
save_payment-kind_bound_example =
    save_payment-kind_bound second_payment (text "0xa1") (text "0xCD") paid_once refl refl

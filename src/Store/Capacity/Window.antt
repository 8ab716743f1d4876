-- ===== src/Store/Capacity/Window.antt =====
-- The capacity window of backend/src/db/store.ts over any calls.
use launch_proof.Store.Capacity.Places.{
  transaction_current-count, attempt_current-count, record_current-count,
  release_expired_current-count, save_payment-count, update_progress-count, first-capped,
  save_over-count, first-settled, reauthorize-count, create_new-count,
}
use launch_proof.Store.Lifecycle.{
  reset_progress, ambiguous, next_error, save_chain_cursor, clear_target_payment_attempt,
  record_target_payment_transaction, record_target_payment_attempt, record_publication_attempt,
  reset_payment_ambiguous, record_payment_settlement, mark_payment_ambiguous, save_run,
  update_state, create_progress,
}
use launch_proof.Shared.{
  truthy, ℕ, ◌≤◌, true, false, Text, Option, none, some, List, [], ◌∷◌, ◌≡◌, ◌⊎◌, inl, inr, refl,
  arith, nat_eq, list_eq, lookup, Bool-cases, text_leb,
}
use launch_proof.Domain.Types.{
  payment_settled, publishing_on_chain, PaymentReference, settled, payment_required,
}
use launch_proof.Store.State.{
  StoredRun, RunProgress, finalized, in_progress, RunCapacity, MemoryRepository, get_run,
}
use launch_proof.Store.Capacity.{
  release_expired_run_capacity, claim_run_capacity, claimed, claim_current, expire_capacity_claims,
  is_settled, is_payment_required, capacity_count, authorize_run, authorize_current,
  authorize_progress,
}
use launch_proof.Store.Capacity.Bounds.{expire-count, release_capacity-count, count-insert}
use launch_proof.Store.Steps.{
  Call, create, save, pay, authorize, claim, release, release_expired, mark_ambiguous,
  record_settlement, reset_ambiguous, record_publication, record_attempt, record_transaction,
  clear_attempt, save_cursor, update, step, run_calls,
}
use launch_proof.Store.Steps.Permanence.{IsFresh}

-- The run awaits no payment any more.
abbrev pub HasStarted : Text → MemoryRepository → Type 0
HasStarted k s =
    (p : RunProgress) → get_run k s ≡ some (in_progress p) → is_payment_required p.state ≡ false

-- What the callers of the repository see to, for the window that begins at `since`: runs are created
-- unpaid under new ids; every claim and every authorization without a settlement is made with this
-- window; a run moves on only once it has started; and a record is saved of a run that started in
-- the window that it ends in.
abbrev pub IsAdmitted : Text → ℕ → Call → MemoryRepository → Type 0
IsAdmitted since limit (create p) s = (p.state ≡ payment_required) × IsFresh (create p) s
IsAdmitted since limit (save r) s =
    (p : RunProgress) × (get_run r.run_id s ≡ some (in_progress p))
    × (is_payment_required p.state ≡ false)
    × (text_leb since r.generated_at ≡ true → text_leb since p.created_at ≡ true)
IsAdmitted since limit (update k state error now) s = HasStarted k s
IsAdmitted since limit (record_publication k x) s = HasStarted k s
IsAdmitted since limit (clear_attempt k now) s = HasStarted k s
IsAdmitted since limit (claim k capacity lease now) s =
    (capacity.since ≡ since) × (capacity.limit ≡ limit)
IsAdmitted since limit (authorize payment k capacity now) s =
    (payment.status ≡ settled) ⊎ (capacity ≡ some (record { since = since; limit = limit }))
IsAdmitted since limit _ s = Unit

abbrev pub AllAdmitted : Text → ℕ → List Call → MemoryRepository → Type 0
AllAdmitted since limit [] s = Unit
AllAdmitted since limit (c ∷ cs) s =
    IsAdmitted since limit c s × AllAdmitted since limit cs (step c s)

authorize_progress-within :
    (since : Text) (limit : ℕ) (o : Option PaymentReference) (p : RunProgress)
    (payment : PaymentReference) (k : Text) (capacity : Option RunCapacity) (now : Text)
    (s : MemoryRepository)
    → (payment.status ≡ settled) ⊎ (capacity ≡ some (record { since = since; limit = limit }))
    → capacity_count since s ≤ limit
    → get_run k s ≡ some (in_progress p)
    → capacity_count since (authorize_progress o p payment k capacity now s).1 ≤ limit
unfolding authorize_progress
authorize_progress-within since limit (some x) p payment k capacity now s h w e =
    omega (arith, reauthorize-count since x payment k s)
authorize_progress-within since limit none p payment k capacity now s (inl h) w e =
    first-settled since limit s w p payment k capacity now h e
authorize_progress-within since limit none p payment k capacity now s (inr h) w e =
    elim (Bool-cases (is_settled payment.status)) [
      | inl paid ↦ first-settled since limit s w p payment k capacity now (ground arith) e
      | inr unpaid ↦ rw h (first-capped since limit s w p payment k now unpaid)
    ]

authorize_current-within :
    (since : Text) (limit : ℕ) (o : Option StoredRun) (payment : PaymentReference) (k : Text)
    (capacity : Option RunCapacity) (now : Text) (s : MemoryRepository)
    → (payment.status ≡ settled) ⊎ (capacity ≡ some (record { since = since; limit = limit }))
    → capacity_count since s ≤ limit
    → get_run k s ≡ o
    → capacity_count since (authorize_current o payment k capacity now s).1 ≤ limit
unfolding authorize_current
authorize_current-within since limit none payment k capacity now s h w e = w
authorize_current-within since limit (some (finalized r)) payment k capacity now s h w e =
    omega (arith, reauthorize-count since r.payment payment k s)
authorize_current-within since limit (some (in_progress p)) payment k capacity now s h w e =
    authorize_progress-within since limit p.payment p payment k capacity now s h w e

claim_current-within :
    (o : Option StoredRun) (k : Text) (capacity : RunCapacity) (lease now : Text)
    (s : MemoryRepository)
    → capacity_count capacity.since s ≤ capacity.limit
    → get_run k s ≡ o
    → capacity_count capacity.since (claim_current o k capacity lease now s).1 ≤ capacity.limit
unfolding claim_current capacity_count
claim_current-within none k capacity lease now s w e = w
claim_current-within (some (finalized r)) k capacity lease now s w e = w
claim_current-within (some (in_progress p)) k capacity lease now s w e =
    ground (arith, e, count-insert capacity.since k (in_progress (claimed lease now p)) s.runs)

step-within :
    (since : Text) (limit : ℕ) (c : Call) (s : MemoryRepository)
    → IsAdmitted since limit c s
    → capacity_count since s ≤ limit
    → capacity_count since (step c s) ≤ limit
unfolding step create_progress update_state save_run authorize_run claim_run_capacity
    release_expired_run_capacity mark_payment_ambiguous record_payment_settlement
    reset_payment_ambiguous record_publication_attempt record_target_payment_attempt
    record_target_payment_transaction clear_target_payment_attempt save_chain_cursor
step-within since limit (create p) s h w =
    omega (arith, create_new-count since (truthy (lookup p.idempotency_key s.idempotency)) p s h.0)
step-within since limit (save r) s h w =
    let (p, e, started, window) = h in
    omega (arith, save_over-count since (get_run r.run_id s) r p s e started window refl)
step-within since limit (update k state error now) s h w = omega (
  arith,
  update_progress-count since
      (λ p. record p { state = state; updated_at = now; error = next_error (truthy error) p.error })
      (get_run k s) k s refl (λ p e. ground (arith, h p e)),
)
step-within since limit (pay payment k) s h w = omega (arith, save_payment-count since payment k s)
step-within since limit (authorize payment k capacity now) s h w =
    authorize_current-within since limit (get_run k s) payment k capacity now s h w refl
step-within since limit (claim k capacity lease now) s h w =
    let t = expire_capacity_claims now now s in
    rw (← h.0, ← h.1)
      (claim_current-within (get_run k t) k capacity lease now t
        (rw (h.0, h.1) (omega (arith, expire-count since now now s))) refl)
step-within since limit (release k now) s h w = omega (arith, release_capacity-count since k now s)
step-within since limit (release_expired k at now) s h w =
    omega (arith, release_expired_current-count since (get_run k s) k at now s)
step-within since limit (mark_ambiguous k error now) s h w = omega (
  arith,
  update_progress-count since (ambiguous error now) (get_run k s) k s refl (λ p e. ground arith),
)
step-within since limit (record_settlement k x) s h w =
    omega (arith, record_current-count since (get_run k s) k x s refl)
step-within since limit (reset_ambiguous k now) s h w = omega (
  arith,
  update_progress-count since (reset_progress now) (get_run k s) k s refl (λ p e. ground arith),
)
step-within since limit (record_publication k x) s h w = omega (
  arith,
  update_progress-count since
      (λ p. record p {
        state = publishing_on_chain;
        publication = some x;
        updated_at = x.started_at;
      })
      (get_run k s) k s refl (λ p e. ground (arith, h p e)),
)
step-within since limit (record_attempt k x) s h w =
    omega (arith, attempt_current-count since (get_run k s) k x s refl)
step-within since limit (record_transaction k hash now) s h w =
    omega (arith, transaction_current-count since (get_run k s) k hash now s refl)
step-within since limit (clear_attempt k now) s h w = omega (
  arith,
  update_progress-count since
      (λ p. record p { state = payment_settled; target_payment_attempt = none; updated_at = now })
      (get_run k s) k s refl (λ p e. ground (arith, h p e)),
)
step-within since limit (save_cursor key block) s h w = unfold capacity_count in w

-- A window that is within its limit stays within it under any calls in which runs are created
-- unpaid under new ids, every claim and every authorization without a settlement is made with this
-- window, states, publications and cleared attempts are recorded only of runs that have started,
-- and a record is saved only of a run that has started, and was created in the window if it ends in
-- it.
pub run_calls-within :
    (since : Text) (limit : ℕ) (cs : List Call) (s : MemoryRepository)
    → AllAdmitted since limit cs s
    → capacity_count since s ≤ limit
    → capacity_count since (run_calls cs s) ≤ limit
unfolding run_calls
run_calls-within since limit [] s h w = w
run_calls-within since limit (c ∷ cs) s h w =
    run_calls-within since limit cs (step c s) h.1 (step-within since limit c s h.0 w)

-- ===== src/Store/Capacity.antt =====
-- The daily capacity of backend/src/db/store.ts: counting, claims, leases and authorization.
-- `now` is `new Date().toISOString()`, read once for an operation.
pub mod Bounds
pub mod Places
pub mod Window
use launch_proof.Shared.{
  ℕ, suc, Bool, true, false, not, Text, text_leb, truthy, Option, none, some, List, [], ◌∷◌, ◌&&◌,
  ◌||◌, leb, nat_eq, list_eq, is_some, if◌then◌else◌,
}
use launch_proof.Domain.Types.{
  RunState, payment_required, settlement_claimed, payment_ambiguous, payment_settled,
  PaymentReference, PaymentStatus, settled,
}
use launch_proof.Store.State.{
  RunProgress, StoredRun, finalized, in_progress, RunCapacity, MemoryRepository, Result, ok, err,
  StoreError, missing_reservation, payment_immutable, no_capacity_claim, run_capacity,
  claim_missing_run, not_awaiting_claim, get_run, set_run, same_payment_reference,
  settlement_matches_payment,
}
use launch_proof.Store.Payments.{save_payment}

abbrev pub is_payment_required : RunState → Bool
is_payment_required payment_required = true
is_payment_required _ = false

abbrev pub is_settlement_claimed : RunState → Bool
is_settlement_claimed settlement_claimed = true
is_settlement_claimed _ = false

abbrev pub is_payment_ambiguous : RunState → Bool
is_payment_ambiguous payment_ambiguous = true
is_payment_ambiguous _ = false

abbrev pub is_settled : PaymentStatus → Bool
is_settled settled = true
is_settled _ = false

-- Does the run take a place of the window that begins at `since`?
abbrev pub counts : Text → StoredRun → Bool
counts since (finalized r) = text_leb since r.generated_at
counts since (in_progress p) = not (is_payment_required p.state) && text_leb since p.created_at

unfoldable pub count_runs : Text → List (Text × StoredRun) → ℕ
count_runs since [] = 0
count_runs since ((k, r) ∷ m) = let n = count_runs since m in if counts since r then suc n else n

unfoldable pub capacity_count : Text → MemoryRepository → ℕ
unfolding count_runs
capacity_count since s = count_runs since s.runs

abbrev pub released : Text → RunProgress → RunProgress
released now p = record p {
  state = payment_required;
  capacity_lease_expires_at = none;
  updated_at = now;
}

unfoldable pub release_current :
    Option StoredRun → Text → Text → MemoryRepository → MemoryRepository
release_current none run_id now s = s
release_current (some (finalized r)) run_id now s = s
release_current (some (in_progress p)) run_id now s =
    if is_settlement_claimed p.state then set_run run_id (released now p) s else s

-- `releaseCapacity`, which `releaseRunCapacity` calls under the lock
unfoldable pub release_capacity : Text → Text → MemoryRepository → MemoryRepository
unfolding release_current
release_capacity run_id now s = release_current (get_run run_id s) run_id now s

-- `!lease || lease > observedAt` is false.
abbrev pub lease_over : Option Text → Text → Bool
lease_over lease observed_at = elim (truthy lease) [
  | none ↦ false
  | some t ↦ text_leb t observed_at
]

abbrev pub is_expired : Text → StoredRun → Bool
is_expired observed_at (finalized r) = false
is_expired observed_at (in_progress p) =
    is_settlement_claimed p.state && lease_over p.capacity_lease_expires_at observed_at

-- The loop over the entries. A release changes the value of the entry that is visited, no other.
unfoldable pub expire_entries :
    List (Text × StoredRun) → Text → Text → MemoryRepository → MemoryRepository
expire_entries [] observed_at now s = s
expire_entries ((run_id, run) ∷ rest) observed_at now s =
    expire_entries rest observed_at now
      (if is_expired observed_at run then release_capacity run_id now s else s)

unfoldable pub expire_capacity_claims : Text → Text → MemoryRepository → MemoryRepository
unfolding expire_entries
expire_capacity_claims observed_at now s = expire_entries s.runs observed_at now s

abbrev pub claimed : Text → Text → RunProgress → RunProgress
claimed lease now p = record p {
  state = settlement_claimed;
  capacity_lease_expires_at = some lease;
  updated_at = now;
}

unfoldable pub claim_current :
    Option StoredRun
    → Text
    → RunCapacity
    → Text
    → Text
    → MemoryRepository
    → Result (Unit {0}) × MemoryRepository
claim_current none run_id capacity lease now s = (err claim_missing_run, s)
claim_current (some (finalized r)) run_id capacity lease now s = (err claim_missing_run, s)
claim_current (some (in_progress p)) run_id capacity lease now s =
    if not (is_payment_required p.state) || is_some p.payment
    then (err not_awaiting_claim, s)
    else if leb capacity.limit (capacity_count capacity.since s)
    then (err run_capacity, s)
    else (ok tt, set_run run_id (claimed lease now p) s)

unfoldable pub claim_run_capacity :
    Text → RunCapacity → Text → Text → MemoryRepository → Result (Unit {0}) × MemoryRepository
unfolding claim_current
claim_run_capacity run_id capacity lease now s =
    let t = expire_capacity_claims now now s in
    claim_current (get_run run_id t) run_id capacity lease now t

unfoldable pub release_expired_current :
    Option StoredRun → Text → Text → Text → MemoryRepository → Bool × MemoryRepository
release_expired_current none run_id observed_at now s = (false, s)
release_expired_current (some run) run_id observed_at now s =
    if is_expired observed_at run then (true, release_capacity run_id now s) else (false, s)

unfoldable pub release_expired_run_capacity :
    Text → Text → Text → MemoryRepository → Bool × MemoryRepository
unfolding release_expired_current
release_expired_run_capacity run_id observed_at now s =
    release_expired_current (get_run run_id s) run_id observed_at now s

-- A run that already has its payment: only the same payment may be saved again.
unfoldable pub reauthorize :
    PaymentReference
    → PaymentReference
    → Text
    → MemoryRepository
    → Result (Unit {0}) × MemoryRepository
reauthorize existing payment run_id s =
    if same_payment_reference existing payment
    then save_payment payment run_id s
    else (err payment_immutable, s)

-- The guard of a run without a payment: an error, or the repository to go on with.
unfoldable pub admit_capacity :
    Option RunCapacity → Text → MemoryRepository → Option StoreError × MemoryRepository
admit_capacity none now s = (none, s)
admit_capacity (some capacity) now s =
    let t = expire_capacity_claims now now s in
    if leb capacity.limit (capacity_count capacity.since t)
    then (some run_capacity, t)
    else (none, t)

unfoldable pub admit :
    RunProgress
    → PaymentReference
    → Option RunCapacity
    → Text
    → MemoryRepository
    → Option StoreError × MemoryRepository
unfolding admit_capacity
admit p payment capacity now s =
    if is_settled payment.status
    then (
      (if is_settlement_claimed p.state
            || (is_payment_ambiguous p.state && settlement_matches_payment p.settlement payment)
          then none
          else some no_capacity_claim),
      s,
    )
    else admit_capacity capacity now s

abbrev pub authorized : PaymentReference → Text → RunProgress → RunProgress
authorized payment now p = record p {
  payment = some payment;
  state = payment_settled;
  capacity_lease_expires_at = none;
  updated_at = now;
}

-- `current` was read before the guard, and is what the update spreads.
unfoldable pub settle :
    Result (Unit {0}) × MemoryRepository
    → RunProgress
    → PaymentReference
    → Text
    → Text
    → Result (Unit {0}) × MemoryRepository
settle (err e, s) p payment run_id now = (err e, s)
settle (ok _, s) p payment run_id now = (ok tt, set_run run_id (authorized payment now p) s)

unfoldable pub first_authorization :
    Option StoreError × MemoryRepository
    → RunProgress
    → PaymentReference
    → Text
    → Text
    → Result (Unit {0}) × MemoryRepository
unfolding settle
first_authorization (some e, s) p payment run_id now = (err e, s)
first_authorization (none, s) p payment run_id now =
    settle (save_payment payment run_id s) p payment run_id now

unfoldable pub authorize_progress :
    Option PaymentReference
    → RunProgress
    → PaymentReference
    → Text
    → Option RunCapacity
    → Text
    → MemoryRepository
    → Result (Unit {0}) × MemoryRepository
unfolding reauthorize first_authorization
authorize_progress (some existing) p payment run_id capacity now s =
    reauthorize existing payment run_id s
authorize_progress none p payment run_id capacity now s =
    first_authorization (admit p payment capacity now s) p payment run_id now

unfoldable pub authorize_current :
    Option StoredRun
    → PaymentReference
    → Text
    → Option RunCapacity
    → Text
    → MemoryRepository
    → Result (Unit {0}) × MemoryRepository
unfolding reauthorize authorize_progress
authorize_current none payment run_id capacity now s = (err missing_reservation, s)
authorize_current (some (finalized r)) payment run_id capacity now s =
    reauthorize r.payment payment run_id s
authorize_current (some (in_progress p)) payment run_id capacity now s =
    authorize_progress p.payment p payment run_id capacity now s

unfoldable pub authorize_run :
    PaymentReference
    → Text
    → Option RunCapacity
    → Text
    → MemoryRepository
    → Result (Unit {0}) × MemoryRepository
unfolding authorize_current
authorize_run payment run_id capacity now s =
    authorize_current (get_run run_id s) payment run_id capacity now s

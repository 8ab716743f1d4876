-- ===== src/Store/Writes.antt =====
-- How the writes of backend/src/db/store.ts change the map of runs: they replace the value of a run
-- that is in progress.
use launch_proof.Shared.{
  Bool-cases, not, ◌||◌, leb, inl, inr, Bool, true, false, Text, Option, none, some, List, [], ◌∷◌,
  ◌≡◌, refl, arith, nat_eq, list_eq, ◌==◌, list_beq_iff, lookup, insert, lookup-insert, if-both,
  if◌then◌else◌, is_some,
}
use launch_proof.Domain.Types.{PaymentReference, RunRecord}
use launch_proof.Store.State.{
  run_capacity, not_awaiting_claim, RunProgress, StoredRun, finalized, in_progress,
  MemoryRepository, set_run, payment_immutable, same_payment_reference, RunCapacity, StoreError,
  Result, ok, err, get_run,
}
use launch_proof.Store.Payments.{save_payment}
use launch_proof.Store.Capacity.{
  release_current, released, claimed, authorized, is_settlement_claimed, is_settled,
  is_payment_required, capacity_count, release_capacity, expire_entries, expire_capacity_claims,
  claim_current, claim_run_capacity, is_expired, release_expired_current,
  release_expired_run_capacity, reauthorize, admit_capacity, admit, settle, first_authorization,
  authorize_progress, authorize_current, authorize_run,
}
use launch_proof.Store.Lifecycle.{update_progress}

abbrev pub Runs : Type 0
Runs = List (Text × StoredRun)

pub data Writes (m : Runs) : Runs → Type 0 where
  kept : Writes m m
  wrote :
      {n : Runs} (k : Text) (p q : RunProgress)
      → Writes m n
      → lookup k n ≡ some (in_progress p)
      → Writes m (insert k (in_progress q) n)

-- A finalized run is never written.
pub Writes-finalized :
    {m n : Runs} (id : Text) (r : RunRecord)
    → Writes m n
    → lookup id m ≡ some (finalized r)
    → lookup id n ≡ some (finalized r)
Writes-finalized id r kept h = h
Writes-finalized id r (wrote {n = n} k p q w e) h =
    let ih = Writes-finalized id r w h in
    rw lookup-insert (ground (arith, ih, e, list_beq_iff k id))

-- No run is removed.
pub Writes-present :
    {m n : Runs} (id : Text)
    → Writes m n
    → is_some (lookup id m) ≡ true
    → is_some (lookup id n) ≡ true
Writes-present id kept h = h
Writes-present id (wrote {n = n} k p q w e) h =
    let ih = Writes-present id w h in rw lookup-insert (ground (arith, ih))

pub Writes-trans : {m n o : Runs} → Writes m n → Writes n o → Writes m o
Writes-trans w kept = w
Writes-trans w (wrote k p q v e) = wrote k p q (Writes-trans w v) e

abbrev WritesOf : Runs → MemoryRepository → Type 0
WritesOf m s = Writes m s.runs

abbrev pub WritesTo : Runs → Result (Unit {0}) × MemoryRepository → Type 0
WritesTo m r = Writes m r.1.runs

module _ (s : MemoryRepository) where
  pub update_progress-Writes :
      (f : RunProgress → RunProgress) (o : Option StoredRun) (k : Text)
      → get_run k s ≡ o
      → Writes s.runs (update_progress f o k s).runs
  update_progress-Writes f none k e = kept
  update_progress-Writes f (some (finalized r)) k e = kept
  update_progress-Writes f (some (in_progress p)) k e = wrote k p (f p) kept e

  release_current-Writes :
      (o : Option StoredRun) (k now : Text)
      → get_run k s ≡ o
      → Writes s.runs (release_current o k now s).runs
  unfolding release_current
  release_current-Writes none k now e = kept
  release_current-Writes (some (finalized r)) k now e = kept
  release_current-Writes (some (in_progress p)) k now e =
      if-both (WritesOf s.runs) (is_settlement_claimed p.state) (set_run k (released now p) s) s
        (λ _. wrote k p (released now p) kept e) (λ _. kept)

  pub release_capacity-Writes : (k now : Text) → Writes s.runs (release_capacity k now s).runs
  unfolding release_capacity
  release_capacity-Writes k now = release_current-Writes (get_run k s) k now refl

expire_entries-Writes :
    (l : Runs) (at now : Text) (s : MemoryRepository)
    → Writes s.runs (expire_entries l at now s).runs
unfolding expire_entries
expire_entries-Writes [] at now s = kept
expire_entries-Writes ((k, run) ∷ l) at now s =
    Writes-trans
      (if-both (WritesOf s.runs) (is_expired at run) (release_capacity k now s) s
        (λ _. release_capacity-Writes s k now) (λ _. kept))
      (expire_entries-Writes l at now (if is_expired at run then release_capacity k now s else s))

pub expire_capacity_claims-Writes :
    (at now : Text) (s : MemoryRepository) → Writes s.runs (expire_capacity_claims at now s).runs
unfolding expire_capacity_claims
expire_capacity_claims-Writes at now s = expire_entries-Writes s.runs at now s

module _ (s : MemoryRepository) where
  claim_current-Writes :
      (o : Option StoredRun) (k : Text) (capacity : RunCapacity) (lease now : Text)
      → get_run k s ≡ o
      → Writes s.runs (claim_current o k capacity lease now s).1.runs
  unfolding claim_current
  claim_current-Writes none k capacity lease now e = kept
  claim_current-Writes (some (finalized r)) k capacity lease now e = kept
  claim_current-Writes (some (in_progress p)) k capacity lease now e =
      let done : Result (Unit {0}) × MemoryRepository =
        (ok tt, set_run k (claimed lease now p) s) in
      let full = leb capacity.limit (capacity_count capacity.since s) in
      if-both (WritesTo s.runs) (not (is_payment_required p.state) || is_some p.payment)
        (err not_awaiting_claim, s) (if full then (err run_capacity, s) else done) (λ _. kept)
        (λ _.
          if-both (WritesTo s.runs) full (err run_capacity, s) done (λ _. kept)
            (λ _. wrote k p (claimed lease now p) kept e))

  release_expired_current-Writes :
      (o : Option StoredRun) (k at now : Text)
      → Writes s.runs (release_expired_current o k at now s).1.runs
  unfolding release_expired_current
  release_expired_current-Writes none k at now = kept
  release_expired_current-Writes (some run) k at now =
      if-both (λ (r : Bool × MemoryRepository). Writes s.runs r.1.runs) (is_expired at run)
        (true, release_capacity k now s) (false, s) (λ _. release_capacity-Writes s k now)
        (λ _. kept)

pub claim_run_capacity-Writes :
    (k : Text) (capacity : RunCapacity) (lease now : Text) (s : MemoryRepository)
    → Writes s.runs (claim_run_capacity k capacity lease now s).1.runs
unfolding claim_run_capacity
claim_run_capacity-Writes k capacity lease now s =
    let t = expire_capacity_claims now now s in
    Writes-trans (expire_capacity_claims-Writes now now s)
      (claim_current-Writes t (get_run k t) k capacity lease now refl)

pub release_expired_run_capacity-Writes :
    (k at now : Text) (s : MemoryRepository)
    → Writes s.runs (release_expired_run_capacity k at now s).1.runs
unfolding release_expired_run_capacity
release_expired_run_capacity-Writes k at now s =
    release_expired_current-Writes s (get_run k s) k at now

-- Saving a payment leaves the runs alone.
pub runs-save_payment :
    (payment : PaymentReference) (run_id : Text) (s : MemoryRepository)
    → (save_payment payment run_id s).1.runs ≡ s.runs
unfolding save_payment
runs-save_payment payment run_id s = ground arith

-- A run in progress stays in progress.
Writes-in_progress :
    {m n : Runs} (id : Text) (p : RunProgress)
    → Writes m n
    → lookup id m ≡ some (in_progress p)
    → (q : RunProgress) × (lookup id n ≡ some (in_progress q))
Writes-in_progress id p kept h = (p, h)
Writes-in_progress id p (wrote {n = n} k o q w e) h =
    let (r, ih) = Writes-in_progress id p w h in
    elim (Bool-cases (k == id)) [
      | inl same ↦ (q, rw (lookup-insert, same))
      | inr other ↦ (r, rw (lookup-insert, other) ih)
    ]

reauthorize-Writes :
    (existing payment : PaymentReference) (k : Text) (s : MemoryRepository)
    → Writes s.runs (reauthorize existing payment k s).1.runs
unfolding reauthorize
reauthorize-Writes existing payment k s =
    if-both (WritesTo s.runs) (same_payment_reference existing payment) (save_payment payment k s)
      (err payment_immutable, s) (λ _. rw (runs-save_payment payment k s) kept) (λ _. kept)

settle-Writes :
    (m : Runs) (r : Result (Unit {0}) × MemoryRepository) (p q : RunProgress)
    (payment : PaymentReference) (k now : Text)
    → Writes m r.1.runs
    → lookup k r.1.runs ≡ some (in_progress q)
    → Writes m (settle r p payment k now).1.runs
unfolding settle
settle-Writes m (ok _, s) p q payment k now w e = wrote k q (authorized payment now p) w e
settle-Writes m (err x, s) p q payment k now w e = w

first_authorization-Writes :
    (m : Runs) (r : Option StoreError × MemoryRepository) (p : RunProgress)
    (payment : PaymentReference) (k now : Text)
    → Writes m r.1.runs
    → lookup k m ≡ some (in_progress p)
    → Writes m (first_authorization r p payment k now).1.runs
unfolding first_authorization
first_authorization-Writes m (some e, s) p payment k now w h = w
first_authorization-Writes m (none, s) p payment k now w h =
    let (q, e) = Writes-in_progress k p w h in
    settle-Writes m (save_payment payment k s) p q payment k now
      (rw (runs-save_payment payment k s) w) (rw (runs-save_payment payment k s) e)

admit_capacity-Writes :
    (capacity : Option RunCapacity) (now : Text) (s : MemoryRepository)
    → Writes s.runs (admit_capacity capacity now s).1.runs
unfolding admit_capacity
admit_capacity-Writes none now s = kept
admit_capacity-Writes (some c) now s =
    let t = expire_capacity_claims now now s in
    if-both (λ (r : Option StoreError × MemoryRepository). Writes s.runs r.1.runs)
      (leb c.limit (capacity_count c.since t)) (some run_capacity, t) (none, t)
      (λ _. expire_capacity_claims-Writes now now s) (λ _. expire_capacity_claims-Writes now now s)

admit-Writes :
    (p : RunProgress) (payment : PaymentReference) (capacity : Option RunCapacity) (now : Text)
    (s : MemoryRepository)
    → Writes s.runs (admit p payment capacity now s).1.runs
unfolding admit
admit-Writes p payment capacity now s = elim (Bool-cases (is_settled payment.status)) [
  | inl e ↦ rw e kept
  | inr e ↦ rw e (admit_capacity-Writes capacity now s)
]

authorize_progress-Writes :
    (o : Option PaymentReference) (p : RunProgress) (payment : PaymentReference) (k : Text)
    (capacity : Option RunCapacity) (now : Text) (s : MemoryRepository)
    → get_run k s ≡ some (in_progress p)
    → Writes s.runs (authorize_progress o p payment k capacity now s).1.runs
unfolding authorize_progress
authorize_progress-Writes (some x) p payment k capacity now s e = reauthorize-Writes x payment k s
authorize_progress-Writes none p payment k capacity now s e =
    first_authorization-Writes s.runs (admit p payment capacity now s) p payment k now
      (admit-Writes p payment capacity now s) e

authorize_current-Writes :
    (o : Option StoredRun) (payment : PaymentReference) (k : Text) (capacity : Option RunCapacity)
    (now : Text) (s : MemoryRepository)
    → get_run k s ≡ o
    → Writes s.runs (authorize_current o payment k capacity now s).1.runs
unfolding authorize_current
authorize_current-Writes none payment k capacity now s e = kept
authorize_current-Writes (some (finalized r)) payment k capacity now s e =
    reauthorize-Writes r.payment payment k s
authorize_current-Writes (some (in_progress p)) payment k capacity now s e =
    authorize_progress-Writes p.payment p payment k capacity now s e

pub authorize_run-Writes :
    (payment : PaymentReference) (k : Text) (capacity : Option RunCapacity) (now : Text)
    (s : MemoryRepository)
    → Writes s.runs (authorize_run payment k capacity now s).1.runs
unfolding authorize_run
authorize_run-Writes payment k capacity now s =
    authorize_current-Writes (get_run k s) payment k capacity now s refl

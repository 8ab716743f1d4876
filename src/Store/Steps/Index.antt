-- ===== src/Store/Steps/Index.antt =====
-- The index of backend/src/db/store.ts from idempotency keys to runs.
use launch_proof.Store.Steps.Books.{step-SameBooks, admit-SameBooks}
use launch_proof.Store.Writes.{Writes-present, Writes}
use launch_proof.Domain.Types.{RunRecord, PaymentReference}
use launch_proof.Shared.{
  beq_refl, if-both, ◌∙◌, true, false, Text, truthy, Option, none, some, List, [], ◌∷◌, is_some,
  ◌≡◌, refl, arith, nat_eq, list_eq, ◌==◌, list_beq_iff, lookup, insert, lookup-insert,
}
use launch_proof.Store.State.{
  finalized_run_overwritten, err, ok, Result, StoreError, RunCapacity, RunProgress, StoredRun,
  finalized, in_progress, MemoryRepository, empty_repository, get_run,
}
use launch_proof.Store.Capacity.{
  first_authorization, authorize_progress, authorize_current, admit, authorize_run,
}
use launch_proof.Store.Payments.{save_payment}
use launch_proof.Store.Lifecycle.{save_run, save_over, create_progress, create_new}
use launch_proof.Store.Steps.{Call, create, save, step, run_calls, authorize, pay}
use launch_proof.Store.Steps.Writing.{brings, step-Writes}

idempotency-save_payment :
    (payment : PaymentReference) (k : Text) (s : MemoryRepository)
    → (save_payment payment k s).1.idempotency ≡ s.idempotency
unfolding save_payment
idempotency-save_payment payment k s = ground arith

idempotency-first_authorization :
    (r : Option StoreError × MemoryRepository) (p : RunProgress) (payment : PaymentReference)
    (k now : Text)
    → (first_authorization r p payment k now).1.idempotency ≡ r.1.idempotency
unfolding first_authorization
idempotency-first_authorization (some e, s) p payment k now = refl
idempotency-first_authorization (none, s) p payment k now =
    ground (arith, idempotency-save_payment payment k s)

idempotency-authorize_progress :
    (o : Option PaymentReference) (p : RunProgress) (payment : PaymentReference) (k : Text)
    (capacity : Option RunCapacity) (now : Text) (s : MemoryRepository)
    → (authorize_progress o p payment k capacity now s).1.idempotency ≡ s.idempotency
unfolding authorize_progress
idempotency-authorize_progress (some x) p payment k capacity now s =
    ground (arith, idempotency-save_payment payment k s)
idempotency-authorize_progress none p payment k capacity now s =
    idempotency-first_authorization (admit p payment capacity now s) p payment k now
    ∙ (admit-SameBooks p payment capacity now s).idempotency

idempotency-authorize_current :
    (o : Option StoredRun) (payment : PaymentReference) (k : Text) (capacity : Option RunCapacity)
    (now : Text) (s : MemoryRepository)
    → (authorize_current o payment k capacity now s).1.idempotency ≡ s.idempotency
unfolding authorize_current
idempotency-authorize_current none payment k capacity now s = refl
idempotency-authorize_current (some (finalized r)) payment k capacity now s =
    ground (arith, idempotency-save_payment payment k s)
idempotency-authorize_current (some (in_progress p)) payment k capacity now s =
    idempotency-authorize_progress p.payment p payment k capacity now s

idempotency-step :
    (c : Call) (s : MemoryRepository) → brings c ≡ false → (step c s).idempotency ≡ s.idempotency
unfolding step authorize_run
idempotency-step (create p) s h = cc
idempotency-step (save r) s h = cc
idempotency-step (authorize payment k capacity now) s h =
    idempotency-authorize_current (get_run k s) payment k capacity now s
idempotency-step (pay payment k) s h = idempotency-save_payment payment k s
idempotency-step c s h = (step-SameBooks c s refl).idempotency

-- Every key of the index names a run that is there.
pub record IsIndexed (s : MemoryRepository) : Type 0 where
  pub names : (key id : Text) → lookup key s.idempotency ≡ some id → is_some (get_run id s) ≡ true

IsIndexed-kept :
    (s t : MemoryRepository)
    → Writes s.runs t.runs
    → t.idempotency ≡ s.idempotency
    → IsIndexed s
    → IsIndexed t
IsIndexed-kept s t w e v = record {
  names = λ key id h. Writes-present id w (v.names key id (rw (← e) h));
}

-- A run stored under its id and its key keeps the index whole.
IsIndexed-insert :
    (s : MemoryRepository) (key id : Text) (x : StoredRun)
    → IsIndexed s
    → IsIndexed (record s { runs = insert id x s.runs; idempotency = insert key id s.idempotency })
IsIndexed-insert s key id x v = record {
  names = λ k j h.
      let found = rw lookup-insert at h in
      rw lookup-insert (ground (arith, found, v.names k j, list_beq_iff key k, list_beq_iff id j));
}

create_new-IsIndexed :
    (o : Option Text) (p : RunProgress) (s : MemoryRepository)
    → IsIndexed s
    → IsIndexed (create_new o p s).1
unfolding create_new
create_new-IsIndexed (some k) p s v = v
create_new-IsIndexed none p s v = IsIndexed-insert s p.idempotency_key p.run_id (in_progress p) v

save_over-IsIndexed :
    (o : Option StoredRun) (r : RunRecord) (s : MemoryRepository)
    → IsIndexed s
    → IsIndexed (save_over o r s).1
unfolding save_over
save_over-IsIndexed none r s v = IsIndexed-insert s r.idempotency_key r.run_id (finalized r) v
save_over-IsIndexed (some (in_progress p)) r s v =
    IsIndexed-insert s r.idempotency_key r.run_id (finalized r) v
save_over-IsIndexed (some (finalized x)) r s v =
    if-both (λ (t : Result (Unit {0}) × MemoryRepository). IsIndexed t.1)
      (x.canonical_evidence_jcs == r.canonical_evidence_jcs) (ok tt, s)
      (err finalized_run_overwritten, s) (λ _. v) (λ _. v)

step-IsIndexed : (c : Call) (s : MemoryRepository) → IsIndexed s → IsIndexed (step c s)
unfolding step create_progress save_run
step-IsIndexed (create p) s v =
    create_new-IsIndexed (truthy (lookup p.idempotency_key s.idempotency)) p s v
step-IsIndexed (save r) s v = save_over-IsIndexed (get_run r.run_id s) r s v
step-IsIndexed c s v =
    IsIndexed-kept s (step c s) (step-Writes c s refl) (idempotency-step c s refl) v

truthy-some : (o : Option Text) (id : Text) → truthy o ≡ some id → o ≡ some id
truthy-some none id h = cc
truthy-some (some []) id h = cc
truthy-some (some (c ∷ t)) id h = h

run_calls-IsIndexed :
    (cs : List Call) (s : MemoryRepository) → IsIndexed s → IsIndexed (run_calls cs s)
unfolding run_calls
run_calls-IsIndexed [] s v = v
run_calls-IsIndexed (c ∷ cs) s v = run_calls-IsIndexed cs (step c s) (step-IsIndexed c s v)

IsIndexed-empty : IsIndexed empty_repository
unfolding lookup
IsIndexed-empty = record { names = λ key id h. cc }

create_new-defined :
    (o : Option Text) (p : RunProgress) (s : MemoryRepository)
    → ((id : Text) → o ≡ some id → is_some (get_run id s) ≡ true)
    → is_some (create_new o p s).0 ≡ true
unfolding create_new
create_new-defined none p s h = refl
create_new-defined (some id) p s h = h id refl

-- Whatever calls were made of an empty repository, `createProgress` then returns a run: the index
-- never names a run that is missing.
pub create_progress-defined :
    (cs : List Call) (p : RunProgress)
    → is_some (create_progress p (run_calls cs empty_repository)).0 ≡ true
unfolding create_progress
create_progress-defined cs p =
    let s = run_calls cs empty_repository in
    create_new-defined (truthy (lookup p.idempotency_key s.idempotency)) p s (λ id e.
      (run_calls-IsIndexed cs empty_repository IsIndexed-empty).names p.idempotency_key id
        (truthy-some _ id e))

create_new_again :
    (o : Option Text) (p q : RunProgress) (s : MemoryRepository)
    → q.idempotency_key ≡ p.idempotency_key
    → truthy (some p.run_id) ≡ some p.run_id
    → truthy (lookup p.idempotency_key s.idempotency) ≡ o
    → create_new
        (truthy (lookup q.idempotency_key (create_new o p s).1.idempotency))
        q
        (create_new o p s).1
      ≡ create_new o p s
unfolding create_new
create_new_again (some id) p q s e h f = rw (e, f)
create_new_again none p q s e h f = rw (e, lookup-insert, beq_refl, h, lookup-insert, beq_refl)

-- A second request under the same idempotency key is answered with the run that the first one
-- created or found, and changes nothing. The run's id is not the empty text.
pub create_progress_again :
    (p q : RunProgress) (s : MemoryRepository)
    → q.idempotency_key ≡ p.idempotency_key
    → truthy (some p.run_id) ≡ some p.run_id
    → create_progress q (create_progress p s).1 ≡ create_progress p s
unfolding create_progress
create_progress_again p q s e h =
    create_new_again (truthy (lookup p.idempotency_key s.idempotency)) p q s e h refl

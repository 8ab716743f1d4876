-- ===== src/Store/Steps/Permanence.antt =====
-- What no call of backend/src/db/store.ts undoes: finalized runs and the index of runs by key.
use launch_proof.Shared.{
  true, Text, truthy, Option, none, some, List, [], ◌∷◌, is_some, ◌≡◌, ◌⊎◌, refl, arith, nat_eq,
  list_eq, list_beq_iff, lookup, lookup-insert,
}
use launch_proof.Domain.Types.{RunRecord}
use launch_proof.Store.State.{
  RunProgress, StoredRun, finalized, in_progress, MemoryRepository, get_run,
}
use launch_proof.Store.Lifecycle.{create_progress, create_new, save_run, save_over}
use launch_proof.Store.Writes.{Writes-finalized}
use launch_proof.Store.Steps.{Call, create, save, step, run_calls}
use launch_proof.Store.Steps.Writing.{step-Writes}

-- A run is created under a key that is known, or under an id that no run has.
abbrev pub IsFresh : Call → MemoryRepository → Type 0
IsFresh (create p) s =
    (is_some (truthy (lookup p.idempotency_key s.idempotency)) ≡ true) ⊎ (get_run p.run_id s ≡ none)
IsFresh _ s = Unit

abbrev pub AllFresh : List Call → MemoryRepository → Type 0
AllFresh [] s = Unit
AllFresh (c ∷ cs) s = IsFresh c s × AllFresh cs (step c s)

create_new-finalized :
    (o : Option Text) (p : RunProgress) (id : Text) (r : RunRecord) (s : MemoryRepository)
    → (is_some o ≡ true) ⊎ (get_run p.run_id s ≡ none)
    → get_run id s ≡ some (finalized r)
    → get_run id (create_new o p s).1 ≡ some (finalized r)
unfolding create_new
create_new-finalized (some k) p id r s f h = h
create_new-finalized none p id r s f h =
    rw lookup-insert (ground (arith, h, list_beq_iff p.run_id id))

save_over-finalized :
    (o : Option StoredRun) (x : RunRecord) (id : Text) (r : RunRecord) (s : MemoryRepository)
    → get_run x.run_id s ≡ o
    → get_run id s ≡ some (finalized r)
    → get_run id (save_over o x s).1 ≡ some (finalized r)
unfolding save_over
save_over-finalized none x id r s e h =
    rw lookup-insert (ground (arith, h, e, list_beq_iff x.run_id id))
save_over-finalized (some (in_progress p)) x id r s e h =
    rw lookup-insert (ground (arith, h, e, list_beq_iff x.run_id id))
save_over-finalized (some (finalized y)) x id r s e h = ground (arith, h)

step-finalized :
    (c : Call) (s : MemoryRepository) (id : Text) (r : RunRecord)
    → IsFresh c s
    → get_run id s ≡ some (finalized r)
    → get_run id (step c s) ≡ some (finalized r)
unfolding step create_progress save_run
step-finalized (create p) s id r f h =
    create_new-finalized (truthy (lookup p.idempotency_key s.idempotency)) p id r s f h
step-finalized (save x) s id r f h = save_over-finalized (get_run x.run_id s) x id r s refl h
step-finalized c s id r f h = Writes-finalized id r (step-Writes c s refl) h

-- Whatever calls follow, with runs created under new ids, a finalized run stays as it was saved.
pub run_calls-finalized :
    (cs : List Call) (s : MemoryRepository) (id : Text) (r : RunRecord)
    → AllFresh cs s
    → get_run id s ≡ some (finalized r)
    → get_run id (run_calls cs s) ≡ some (finalized r)
unfolding run_calls
run_calls-finalized [] s id r f h = h
run_calls-finalized (c ∷ cs) s id r f h =
    run_calls-finalized cs (step c s) id r f.1 (step-finalized c s id r f.0 h)

-- ===== src/Store/Capacity/Bounds.antt =====
-- The capacity window of backend/src/db/store.ts: what a claim and an authorization admit.
use launch_proof.Shared.{
  ℕ, ◌+◌, ◌≤◌, Text, Option, none, some, List, [], ◌∷◌, ◌≡◌, refl, arith, nat_eq, list_eq,
  list_beq_iff, lookup, insert, lookup-insert, if◌then◌else◌,
}
use launch_proof.Store.State.{
  StoredRun, finalized, in_progress, RunCapacity, MemoryRepository, ok, get_run,
}
use launch_proof.Store.Capacity.{
  claim_run_capacity, claimed, released, is_expired, release_current, release_capacity,
  expire_entries, expire_capacity_claims, claim_current, counts, count_runs, capacity_count,
}

-- Does a stored run take a place?
abbrev pub place : Text → StoredRun → ℕ
place since r = if counts since r then 1 else 0

abbrev pub place_of : Text → Option StoredRun → ℕ
place_of since none = 0
place_of since (some r) = place since r

-- Storing a run changes the count by the place of the run that was there.
pub count-insert :
    (since k : Text) (r : StoredRun) (m : List (Text × StoredRun))
    → count_runs since (insert k r m) + place_of since (lookup k m)
      ≡ count_runs since m + place since r
unfolding count_runs insert lookup
count-insert since k r [] = ground arith
count-insert since k r ((j, x) ∷ m) = ground (arith, count-insert since k r m)

module _ (since : Text) where
  release_current-count :
      (o : Option StoredRun) (k now : Text) (s : MemoryRepository)
      → get_run k s ≡ o
      → capacity_count since (release_current o k now s) ≤ capacity_count since s
  unfolding release_current capacity_count
  release_current-count none k now s e = omega arith
  release_current-count (some (finalized r)) k now s e = omega arith
  release_current-count (some (in_progress p)) k now s e =
      ground (arith, e, count-insert since k (in_progress (released now p)) s.runs)

  -- A release frees places and takes none.
  pub release_capacity-count :
      (k now : Text) (s : MemoryRepository)
      → capacity_count since (release_capacity k now s) ≤ capacity_count since s
  unfolding release_capacity
  release_capacity-count k now s = release_current-count (get_run k s) k now s refl

  expire_entries-count :
      (l : List (Text × StoredRun)) (at now : Text) (s : MemoryRepository)
      → capacity_count since (expire_entries l at now s) ≤ capacity_count since s
  unfolding expire_entries
  expire_entries-count [] at now s = omega arith
  expire_entries-count ((k, run) ∷ l) at now s =
      let t = if is_expired at run then release_capacity k now s else s in
      ground (arith, expire_entries-count l at now t, release_capacity-count k now s)

  pub expire-count :
      (at now : Text) (s : MemoryRepository)
      → capacity_count since (expire_capacity_claims at now s) ≤ capacity_count since s
  unfolding expire_capacity_claims
  expire-count at now s = expire_entries-count s.runs at now s

-- The claim of a run that awaits a payment, and its release.
claim_current_released :
    (o : Option StoredRun) (k : Text) (capacity : RunCapacity) (lease now later since : Text)
    (s : MemoryRepository)
    → get_run k s ≡ o
    → (claim_current o k capacity lease now s).0 ≡ ok tt
    → capacity_count since (release_capacity k later (claim_current o k capacity lease now s).1)
      ≡ capacity_count since s
unfolding claim_current capacity_count release_capacity release_current
claim_current_released none k capacity lease now later since s e h = absurd (cc)
claim_current_released (some (finalized r)) k capacity lease now later since s e h = absurd (cc)
claim_current_released (some (in_progress p)) k capacity lease now later since s e h =
    let held = in_progress (claimed lease now p) in
    ground (
      arith,
      e,
      lookup-insert k k held s.runs,
      list_beq_iff k k,
      count-insert since k held s.runs,
      count-insert since k (in_progress (released later (claimed lease now p)))
          (insert k held s.runs),
    )

-- A claim that succeeds and a release of the same run give the places back: in every window as many
-- runs are counted as before the claim, once expired leases were given back.
pub release_capacity-claim_run_capacity :
    (k : Text) (capacity : RunCapacity) (lease now later since : Text) (s : MemoryRepository)
    → (claim_run_capacity k capacity lease now s).0 ≡ ok tt
    → capacity_count since (release_capacity k later (claim_run_capacity k capacity lease now s).1)
      ≡ capacity_count since (expire_capacity_claims now now s)
unfolding claim_run_capacity
release_capacity-claim_run_capacity k capacity lease now later since s h =
    let t = expire_capacity_claims now now s in
    claim_current_released (get_run k t) k capacity lease now later since t refl h

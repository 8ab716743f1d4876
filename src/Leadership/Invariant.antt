-- ===== src/Leadership/Invariant.antt =====
-- What holds of the coordinator of backend/src/leadership/leader.ts at any time, however the tasks of
-- its calls are interleaved.
use launch_proof.Leadership.Coordinator.{
  poll_owning, poll_creating, poll_trying, poll_fencing, poll_announcing, telling, polling, answers,
  closing, calls, flag, new_process, go_on, drop_task, assert_owning, waiting, run_events, nth_task,
  happen, granted, Process, Event, Call, stop, Answer, assert_leader, Task, start, lose_failed,
  is_leader, Caller, resume, poll_now, lose_leadership, begin, Coordinator,
}
use launch_proof.Shared.{
  ℕ, zero, suc, ◌+◌, Bool, true, false, not, ◌&&◌, ◌≡◌, refl, Option, none, some, List, [], ◌∷◌,
  is_some, if◌then◌else◌, arith,
}

-- A fence is held exactly by a leader, and the signal of a leader is not aborted.
abbrev pub is_coherent : Coordinator → Bool
is_coherent c =
    if is_leader c.phase then is_some c.fence && not c.aborted else not (is_some c.fence)

lose_leadership_coherent :
    (w : Caller) (c : Coordinator)
    → is_coherent c ≡ true
    → is_coherent (lose_leadership w c).after ≡ true
unfolding lose_leadership
lose_leadership_coherent w c h = ground arith

begin_coherent :
    (k : Call) (c : Coordinator) → is_coherent c ≡ true → is_coherent (begin k c).after ≡ true
unfolding begin start poll_now assert_leader stop lose_leadership
begin_coherent k c h = ground arith

resume_coherent :
    (t : Task) (a : Answer) (c : Coordinator)
    → is_coherent c ≡ true
    → is_coherent (resume t a c).after ≡ true
unfolding resume lose_leadership lose_failed
resume_coherent t a c h = ground arith

abbrev pub bit : Bool → ℕ
bit b = if b then 1 else 0

-- A task of `pollNow`.
abbrev pub is_poll : Task → Bool
is_poll poll_owning = true
is_poll poll_creating = true
is_poll poll_trying = true
is_poll poll_fencing = true
is_poll poll_announcing = true
is_poll (closing (polling caught) was_leader) = true
is_poll (telling (polling caught)) = true
is_poll _ = false

abbrev pub polls : List Task → ℕ
polls [] = 0
polls (t ∷ ts) = bit (is_poll t) + polls ts

abbrev pub polls_of : Option Task → ℕ
polls_of none = 0
polls_of (some t) = bit (is_poll t)

begin_polls :
    (k : Call) (c : Coordinator)
    → bit (begin k c).after.ticking ≡ bit c.ticking + polls_of (begin k c).task
unfolding begin start poll_now assert_leader stop lose_leadership
begin_polls k c = ground arith

resume_polls :
    (t : Task) (a : Answer) (c : Coordinator)
    → (is_poll t ≡ true → c.ticking ≡ true)
    → bit (resume t a c).after.ticking + bit (is_poll t)
      ≡ bit c.ticking + polls_of (resume t a c).task
unfolding resume lose_leadership lose_failed
resume_polls t a c h = ground arith

pub polls-drop_task :
    (n : ℕ) (ts : List Task) (t : Task)
    → nth_task n ts ≡ some t
    → polls ts ≡ bit (is_poll t) + polls (drop_task n ts)
polls-drop_task n [] t h = absurd (cc)
polls-drop_task zero (u ∷ ts) t h = ground arith
polls-drop_task (suc n) (u ∷ ts) t h = omega (arith, polls-drop_task n ts t h)

pub polls-waiting :
    (o : Option Task) (ts : List Task) → polls (waiting o ts) ≡ polls_of o + polls ts
polls-waiting none ts = omega arith
polls-waiting (some t) ts = refl

-- Coherent, and the flag of a running poll tells how many polls wait.
abbrev pub IsSound : Process → Type 0
IsSound p = (is_coherent p.coordinator ≡ true) × (polls p.tasks ≡ bit p.coordinator.ticking)

go_on-IsSound :
    (o : Option Task) (n : ℕ) (a : Answer) (p : Process)
    → nth_task n p.tasks ≡ o
    → IsSound p
    → IsSound (go_on o a p (drop_task n p.tasks))
go_on-IsSound none n a p e h = h
go_on-IsSound (some t) n a p e (h, k) =
    let d = polls-drop_task n p.tasks t e in
    let r = resume_polls t a p.coordinator (λ f. ground arith) in
    let w = polls-waiting (resume t a p.coordinator).task (drop_task n p.tasks) in
    (resume_coherent t a p.coordinator h, omega arith)

happen-IsSound : (e : Event) (p : Process) → IsSound p → IsSound (happen e p)
unfolding happen
happen-IsSound (calls k) p (h, b) =
    let w = polls-waiting (begin k p.coordinator).task p.tasks in
    let r = begin_polls k p.coordinator in (begin_coherent k p.coordinator h, omega arith)
happen-IsSound (answers n a) p h = go_on-IsSound (nth_task n p.tasks) n a p refl h

pub run_events-IsSound_from :
    (es : List Event) (p : Process) → IsSound p → IsSound (run_events es p)
unfolding run_events
run_events-IsSound_from [] p h = h
run_events-IsSound_from (e ∷ es) p h =
    run_events-IsSound_from es (happen e p) (happen-IsSound e p h)

-- However the calls of a coordinator and the answers that they wait for are interleaved, it holds a
-- fence exactly while it is the leader, the signal of a leader is not aborted, and at most one poll
-- is under way, which the flag of a running poll tells.
pub run_events-IsSound : (es : List Event) → IsSound (run_events es new_process)
run_events-IsSound es = run_events-IsSound_from es new_process (refl, refl)

granted_from :
    (t : Task) (a : Answer) (n : ℕ) (c : Coordinator)
    → is_coherent c ≡ true
    → (resume t a c).reply ≡ some (granted (some n))
    → (t ≡ assert_owning)
      × (a ≡ flag true)
      × (is_leader c.phase ≡ true)
      × (c.fence ≡ some n)
      × (c.aborted ≡ false)
unfolding resume lose_leadership lose_failed
granted_from t a n c h g = ground arith

-- At any time, `assertLeader` resolves to a fence only when the session has just answered that it
-- owns the lock, and then the coordinator is the leader with that fence and its signal is not aborted.
pub granted_fence :
    (es : List Event) (t : Task) (a : Answer) (n : ℕ)
    → let c = (run_events es new_process).coordinator in
      (resume t a c).reply ≡ some (granted (some n))
      → (t ≡ assert_owning)
        × (a ≡ flag true)
        × (is_leader c.phase ≡ true)
        × (c.fence ≡ some n)
        × (c.aborted ≡ false)
granted_fence es t a n h =
    granted_from t a n (run_events es new_process).coordinator (run_events-IsSound es).0 h

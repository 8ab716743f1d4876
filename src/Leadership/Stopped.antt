-- ===== src/Leadership/Stopped.antt =====
-- `stop` of backend/src/leadership/leader.ts, with and without a poll under way.
use launch_proof.Leadership.Invariant.{polls-waiting, polls-drop_task, polls_of, is_poll, polls}
use launch_proof.Leadership.Coordinator.{
  assert_call, granted, epoch, flag, leader, drop_task, created, assert_owning, go_on, answers,
  stop_call, poll_creating, nth_task, Call, poll_now, lose_failed, calls, assert_leader,
  Coordinator, Answer, stop, start, lose_leadership, is_stopped, Task, Event, run_events, resume,
  happen, begin, Process,
}
use launch_proof.Shared.{[], ◌∷◌, List, ℕ, Option, refl, none, some, true, false, ◌≡◌, arith}

-- Stopped, with no poll under way.
abbrev pub IsRetired : Process → Type 0
IsRetired p =
    (is_stopped p.coordinator.phase ≡ true)
    × ((p.coordinator.ticking ≡ false) × (polls p.tasks ≡ 0))

begin_retired :
    (k : Call) (c : Coordinator)
    → is_stopped c.phase ≡ true
    → c.ticking ≡ false
    → (is_stopped (begin k c).after.phase ≡ true)
      × ((begin k c).after.ticking ≡ false)
      × (polls_of (begin k c).task ≡ 0)
unfolding begin start poll_now assert_leader stop lose_leadership
begin_retired k c h t = ground arith

resume_retired :
    (t : Task) (a : Answer) (c : Coordinator)
    → is_poll t ≡ false
    → is_stopped c.phase ≡ true
    → c.ticking ≡ false
    → (is_stopped (resume t a c).after.phase ≡ true)
      × ((resume t a c).after.ticking ≡ false)
      × (polls_of (resume t a c).task ≡ 0)
unfolding resume lose_leadership lose_failed
resume_retired t a c p h e = ground arith

go_on-IsRetired :
    (o : Option Task) (n : ℕ) (a : Answer) (p : Process)
    → nth_task n p.tasks ≡ o
    → IsRetired p
    → IsRetired (go_on o a p (drop_task n p.tasks))
go_on-IsRetired none n a p e h = h
go_on-IsRetired (some t) n a p e (h, (k, z)) =
    let d = polls-drop_task n p.tasks t e in
    let (s, i, q) = resume_retired t a p.coordinator (ground arith) h k in
    let w = polls-waiting (resume t a p.coordinator).task (drop_task n p.tasks) in
    (s, (i, omega arith))

happen-IsRetired : (e : Event) (p : Process) → IsRetired p → IsRetired (happen e p)
unfolding happen
happen-IsRetired (calls k) p (h, (b, z)) =
    let w = polls-waiting (begin k p.coordinator).task p.tasks in
    let (s, i, q) = begin_retired k p.coordinator h b in (s, (i, omega arith))
happen-IsRetired (answers n a) p h = go_on-IsRetired (nth_task n p.tasks) n a p refl h

-- A coordinator that is stopped while no poll is under way stays stopped whatever happens then.
pub run_events-IsRetired :
    (es : List Event) (p : Process) → IsRetired p → IsRetired (run_events es p)
unfolding run_events
run_events-IsRetired [] p h = h
run_events-IsRetired (e ∷ es) p h = run_events-IsRetired es (happen e p) (happen-IsRetired e p h)

-- The coordinator is stopped while a poll creates a session, and then the answers of the poll come.
abbrev pub stop_in_creation : ℕ → ℕ → List Event
stop_in_creation s n =
    calls stop_call
    ∷ answers 1 (created s)
    ∷ answers 0 (flag true)
    ∷ answers 0 (epoch n)
    ∷ calls assert_call
    ∷ []

-- A coordinator that is stopped while a poll waits for its new session, and nothing else waits, is
-- the leader all the same once the session is made, the lock is acquired and the fence is drawn:
-- a call of `assertLeader` then goes as far as to ask the session, and is granted the fence.
pub stopped_leads :
    (c : Coordinator) (s n : ℕ)
    → c.session ≡ none
    → let p =
        run_events
          (stop_in_creation s n)
          (record { coordinator = c; tasks = poll_creating ∷ [] }) in
      (p.coordinator.phase ≡ leader)
      × (p.coordinator.session ≡ some s)
      × (nth_task 0 p.tasks ≡ some assert_owning)
      × ((resume assert_owning (flag true) p.coordinator).reply ≡ some (granted (some n)))
unfolding run_events happen begin stop assert_leader resume
stopped_leads c s n h = ground arith

-- When the coordinator is stopped while `assertLeader` waits for the session, an answer that the lock
-- is owned makes it resolve to no fence instead of being rejected.
pub stopped_grants :
    (c : Coordinator) (ts : List Task)
    → let p =
        run_events
          (calls stop_call ∷ [])
          (record { coordinator = c; tasks = assert_owning ∷ ts }) in
      (nth_task 1 p.tasks ≡ some assert_owning)
      × ((resume assert_owning (flag true) p.coordinator).reply ≡ some (granted none))
unfolding run_events happen begin stop resume
stopped_grants c ts = ground arith

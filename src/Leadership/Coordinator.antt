-- ===== src/Leadership/Coordinator.antt =====
-- `LeaderCoordinator` of backend/src/leadership/leader.ts. An asynchronous method runs up to its next
-- `await` and leaves a task there; a task goes on with the answer that it waited for, at any later
-- time and between the tasks of other calls. The timer of `start` is a source of polls.
use launch_proof.Shared.{
  ℕ, zero, suc, Bool, true, false, ◌&&◌, ◌||◌, Option, none, some, List, [], ◌∷◌, is_some,
  if◌then◌else◌,
}

pub data Phase : Type 0 where
  disabled standby leader lost stopped : Phase

abbrev pub is_leader : Phase → Bool
is_leader leader = true
is_leader _ = false

abbrev pub is_stopped : Phase → Bool
is_stopped stopped = true
is_stopped _ = false

-- The snapshot, the state of the abort signal, the session, and the flag of a running poll.
pub record Coordinator : Type 0 where
  pub phase : Phase
  pub fence : Option ℕ
  pub aborted : Bool
  pub session : Option ℕ
  pub ticking : Bool

abbrev pub new_coordinator : Coordinator
new_coordinator = record {
  phase = standby;
  fence = none;
  aborted = true;
  session = none;
  ticking = false;
}

-- Who called `loseLeadership`; the flag says that the call stands in a `catch`.
pub data Caller : Type 0 where
  polling : Bool → Caller
  asserting : Bool → Caller

-- What an `await` waits for: the query on the lock, the new session, `tryAcquire`, `nextFence`, the
-- listeners, and, in `loseLeadership` and `stop`, the end of the session.
pub data Task : Type 0 where
  poll_owning poll_creating poll_trying poll_fencing poll_announcing : Task
  assert_owning : Task
  closing : Caller → Bool → Task
  telling : Caller → Task
  stop_releasing stop_closing stop_telling : Task

-- `rejected` is a promise that is rejected; an answer of another kind does not come, and is taken
-- for one.
pub data Answer : Type 0 where
  rejected fulfilled : Answer
  flag : Bool → Answer
  created : ℕ → Answer
  epoch : ℕ → Answer

-- How a call ends. `granted` has the value that `assertLeader` resolves to.
pub data Reply : Type 0 where
  polled poll_failed start_refused : Reply
  granted : Option ℕ → Reply
  refused stop_done stop_failed : Reply

-- Where a stretch without `await` ends.
pub record Turn : Type 0 where
  pub after : Coordinator
  pub task : Option Task
  pub reply : Option Reply

abbrev pub waits : Coordinator → Task → Turn
waits c t = record { after = c; task = some t; reply = none }

abbrev pub ends : Coordinator → Reply → Turn
ends c r = record { after = c; task = none; reply = some r }

-- The `finally` of `pollNow`.
abbrev pub end_poll : Coordinator → Reply → Turn
end_poll c r = ends (record c { ticking = false }) r

-- `loseLeadership` has returned to its caller.
abbrev pub lose_returned : Caller → Coordinator → Turn
lose_returned (polling caught) c = end_poll c polled
lose_returned (asserting caught) c = ends c refused

abbrev pub lose_settled : Caller → Coordinator → Turn
lose_settled w c =
    lose_returned w (if is_stopped c.phase then c else record c { phase = standby; fence = none })

abbrev pub lose_closed : Caller → Bool → Coordinator → Turn
lose_closed w was_leader c = if was_leader then waits c (telling w) else lose_settled w c

abbrev pub after_close : Caller → Bool → Option ℕ → Coordinator → Turn
after_close w was_leader (some session) c = waits c (closing w was_leader)
after_close w was_leader none c = lose_closed w was_leader c

unfoldable pub lose_leadership : Caller → Coordinator → Turn
lose_leadership w c =
    if is_stopped c.phase
    then lose_returned w c
    else after_close w (is_leader c.phase) c.session (record c {
      aborted = true;
      session = none;
      phase = if is_leader c.phase then lost else standby;
      fence = none;
    })

-- A listener has thrown in `loseLeadership`: the `catch` of the caller, if it does not stand in it.
unfoldable pub lose_failed : Caller → Coordinator → Turn
unfolding lose_leadership
lose_failed (polling false) c = lose_leadership (polling true) c
lose_failed (polling true) c = end_poll c poll_failed
lose_failed (asserting false) c = lose_leadership (asserting true) c
lose_failed (asserting true) c = ends c refused

abbrev pub acquire : Coordinator → Turn
acquire c = elim c.session [ none ↦ waits c poll_creating | some s ↦ waits c poll_trying ]

abbrev pub check_owner : Option ℕ → Coordinator → Turn
check_owner none c = lose_leadership (polling false) c
check_owner (some s) c = waits c poll_owning

unfoldable pub poll_now : Coordinator → Turn
unfolding lose_leadership
poll_now c =
    if c.ticking || is_stopped c.phase
    then ends c polled
    else if is_leader c.phase
    then check_owner c.session (record c { ticking = true })
    else acquire (record c { ticking = true })

unfoldable pub start : Coordinator → Turn
unfolding poll_now
start c = if is_stopped c.phase then ends c start_refused else poll_now c

unfoldable pub assert_leader : Coordinator → Turn
assert_leader c =
    if is_leader c.phase && (is_some c.fence && is_some c.session)
    then waits c assert_owning
    else ends c refused

unfoldable pub stop : Coordinator → Turn
stop c =
    waits (record c { aborted = true; session = none; phase = stopped; fence = none })
      (if is_some c.session then stop_releasing else stop_telling)

-- The rest of `acquire` once the lock is held: `this.session` is read again.
abbrev pub fence_next : Option ℕ → Coordinator → Turn
fence_next none c = lose_leadership (polling true) c
fence_next (some s) c = waits c poll_fencing

unfoldable pub resume : Task → Answer → Coordinator → Turn
unfolding lose_leadership lose_failed
resume poll_owning (flag true) c = end_poll c polled
resume poll_owning (flag false) c = lose_leadership (polling false) c
resume poll_owning _ c = lose_leadership (polling true) c
resume poll_creating (created s) c = waits (record c { session = some s }) poll_trying
resume poll_creating _ c = lose_leadership (polling true) c
resume poll_trying (flag true) c = fence_next c.session c
resume poll_trying (flag false) c = end_poll c polled
resume poll_trying _ c = lose_leadership (polling true) c
resume poll_fencing (epoch n) c =
    waits (record c { aborted = false; phase = leader; fence = some n }) poll_announcing
resume poll_fencing _ c = lose_leadership (polling true) c
resume poll_announcing fulfilled c = end_poll c polled
resume poll_announcing _ c = lose_leadership (polling true) c
resume assert_owning (flag true) c = ends c (granted c.fence)
resume assert_owning (flag false) c = lose_leadership (asserting false) c
resume assert_owning _ c = lose_leadership (asserting true) c
resume (closing w was_leader) a c = lose_closed w was_leader c
resume (telling w) fulfilled c = lose_settled w c
resume (telling w) _ c = lose_failed w c
resume stop_releasing a c = waits c stop_closing
resume stop_closing a c = waits c stop_telling
resume stop_telling fulfilled c = ends c stop_done
resume stop_telling _ c = ends c stop_failed

pub data Call : Type 0 where
  start_call poll_call assert_call stop_call : Call

unfoldable pub begin : Call → Coordinator → Turn
unfolding start poll_now assert_leader stop
begin start_call c = start c
begin poll_call c = poll_now c
begin assert_call c = assert_leader c
begin stop_call c = stop c

-- The process: the coordinator and the tasks that wait.
pub record Process : Type 0 where
  pub coordinator : Coordinator
  pub tasks : List Task

abbrev pub new_process : Process
new_process = record { coordinator = new_coordinator; tasks = [] }

-- A call is made, or the task at a place goes on.
pub data Event : Type 0 where
  calls : Call → Event
  answers : ℕ → Answer → Event

abbrev pub nth_task : ℕ → List Task → Option Task
nth_task n [] = none
nth_task zero (t ∷ ts) = some t
nth_task (suc n) (t ∷ ts) = nth_task n ts

abbrev pub drop_task : ℕ → List Task → List Task
drop_task n [] = []
drop_task zero (t ∷ ts) = ts
drop_task (suc n) (t ∷ ts) = t ∷ drop_task n ts

abbrev pub waiting : Option Task → List Task → List Task
waiting none ts = ts
waiting (some t) ts = t ∷ ts

abbrev pub turned : Turn → List Task → Process
turned t ts = record { coordinator = t.after; tasks = waiting t.task ts }

abbrev pub go_on : Option Task → Answer → Process → List Task → Process
go_on none a p ts = p
go_on (some t) a p ts = turned (resume t a p.coordinator) ts

unfoldable pub happen : Event → Process → Process
unfolding begin resume
happen (calls k) p = turned (begin k p.coordinator) p.tasks
happen (answers n a) p = go_on (nth_task n p.tasks) a p (drop_task n p.tasks)

unfoldable pub run_events : List Event → Process → Process
unfolding happen
run_events [] p = p
run_events (e ∷ es) p = run_events es (happen e p)

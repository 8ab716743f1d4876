-- ===== src/Leadership/Sequential.antt =====
-- A poll of backend/src/leadership/leader.ts that nothing interrupts: how leadership is gained, and
-- gained again after the lock was lost.
use launch_proof.Shared.{
  ap, ◌∙◌, refl, none, some, true, false, ◌≡◌, arith, ℕ, Option, List, [], ◌∷◌, ◌++◌,
}
use launch_proof.Leadership.Coordinator.{
  lose_leadership, resume, poll_now, is_leader, begin, new_coordinator, leader, is_stopped, happen,
  Process, run_events, Task, Event, Coordinator, calls, answers, flag, epoch, created, fulfilled,
  poll_call,
}

-- A poll, and the answers of a database whose lock is free; a session is created if there is none.
abbrev pub leading_events : Option ℕ → ℕ → ℕ → List Event
leading_events none s n =
    calls poll_call
    ∷ answers 0 (created s)
    ∷ answers 0 (flag true)
    ∷ answers 0 (epoch n)
    ∷ answers 0 fulfilled
    ∷ []
leading_events (some old) s n =
    calls poll_call ∷ answers 0 (flag true) ∷ answers 0 (epoch n) ∷ answers 0 fulfilled ∷ []

-- A poll that finds the lock lost, the end of its session, and the listeners.
abbrev pub losing_events : List Event
losing_events =
    calls poll_call ∷ answers 0 (flag false) ∷ answers 0 fulfilled ∷ answers 0 fulfilled ∷ []

abbrev pub session_or : Option ℕ → ℕ → ℕ
session_or none s = s
session_or (some old) s = old

abbrev pub leading : ℕ → ℕ → Coordinator
leading s n = record {
  phase = leader;
  fence = some n;
  aborted = false;
  session = some s;
  ticking = false;
}

gains :
    (o : Option ℕ) (c : Coordinator) (ts : List Task) (s n : ℕ)
    → o ≡ c.session
    → c.ticking ≡ false
    → is_stopped c.phase ≡ false
    → is_leader c.phase ≡ false
    → run_events (leading_events o s n) (record { coordinator = c; tasks = ts })
      ≡ record { coordinator = leading (session_or o s) n; tasks = ts }
unfolding run_events happen begin poll_now resume
gains o c ts s n e t h l = ground arith

-- A coordinator that is not stopped, not the leader and not polling becomes the leader, with the
-- fence that is drawn and a signal that is not aborted, in one poll of a database whose lock is free;
-- the tasks of other calls are as before.
pub poll_leads :
    (c : Coordinator) (ts : List Task) (s n : ℕ)
    → c.ticking ≡ false
    → is_stopped c.phase ≡ false
    → is_leader c.phase ≡ false
    → run_events (leading_events c.session s n) (record { coordinator = c; tasks = ts })
      ≡ record { coordinator = leading (session_or c.session s) n; tasks = ts }
poll_leads c ts s n = gains c.session c ts s n refl

loses :
    (ts : List Task) (s n : ℕ)
    → run_events losing_events (record { coordinator = leading s n; tasks = ts })
      ≡ record { coordinator = new_coordinator; tasks = ts }
unfolding run_events happen begin poll_now resume lose_leadership
loses ts s n = refl

run_events-append :
    (es fs : List Event) (p : Process) → run_events (es ++ fs) p ≡ run_events fs (run_events es p)
unfolding run_events
run_events-append [] fs p = refl
run_events-append (e ∷ es) fs p = run_events-append es fs (happen e p)

-- A leader whose session no longer owns the lock gives up session, fence and signal in its next poll,
-- and in the poll after that leads again with a new session and the new fence.
pub poll_recovers :
    (ts : List Task) (s t n m : ℕ)
    → (run_events losing_events (record { coordinator = leading s n; tasks = ts })
        ≡ record { coordinator = new_coordinator; tasks = ts })
      × (run_events
            (losing_events ++ leading_events none t m)
            (record { coordinator = leading s n; tasks = ts })
          ≡ record { coordinator = leading t m; tasks = ts })
poll_recovers ts s t n m = (
  loses ts s n,
  run_events-append losing_events (leading_events none t m) _
      ∙ (ap (run_events (leading_events none t m)) (loses ts s n)
          ∙ gains none new_coordinator ts t m refl refl refl refl),
)

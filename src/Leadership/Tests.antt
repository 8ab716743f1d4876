-- ===== src/Leadership/Tests.antt =====
-- The model of backend/src/leadership/leader.ts at concrete runs.
use launch_proof.Leadership.Stopped.{
  stopped_leads, stopped_grants, run_events-IsRetired, stop_in_creation, IsRetired,
}
use launch_proof.Leadership.Sequential.{
  poll_recovers, poll_leads, leading, losing_events, leading_events,
}
use launch_proof.Leadership.Invariant.{granted_fence, run_events-IsSound, IsSound}
use launch_proof.Shared.{◌++◌, refl, none, some, true, false, ◌≡◌, List, [], ◌∷◌}
use launch_proof.Leadership.Coordinator.{
  is_leader, Answer, Task, resume, poll_now, nth_task, leader, begin, stop_call, new_process,
  new_coordinator, happen, stop, run_events, Process, Event, Coordinator, calls, flag,
  poll_creating, assert_owning, granted,
}

-- The first poll, and `stop` between the poll's session and its lock.
abbrev first_poll : List Event
first_poll = leading_events none 1 7

abbrev led : Process
led = run_events first_poll new_process

run_events-IsSound_example : IsSound led
run_events-IsSound_example = run_events-IsSound first_poll

granted_fence_example :
    (◌≡◌ {A = Task} assert_owning assert_owning)
    × (◌≡◌ {A = Answer} (flag true) (flag true))
    × (is_leader led.coordinator.phase ≡ true)
    × (led.coordinator.fence ≡ some 7)
    × (led.coordinator.aborted ≡ false)
unfolding run_events happen begin poll_now resume
granted_fence_example = granted_fence first_poll assert_owning (flag true) 7 refl

run_events-IsRetired_example :
    IsRetired
      (run_events first_poll (record { coordinator = (stop (leading 1 7)).after; tasks = [] }))
unfolding stop
run_events-IsRetired_example =
    run_events-IsRetired first_poll
      (record { coordinator = (stop (leading 1 7)).after; tasks = [] }) (refl, (refl, refl))

abbrev creating : Coordinator
creating = record new_coordinator { ticking = true }

stopped_leads_example :
    let p =
      run_events
        (stop_in_creation 3 9)
        (record { coordinator = creating; tasks = poll_creating ∷ [] }) in
    (p.coordinator.phase ≡ leader)
    × (p.coordinator.session ≡ some 3)
    × (nth_task 0 p.tasks ≡ some assert_owning)
    × ((resume assert_owning (flag true) p.coordinator).reply ≡ some (granted (some 9)))
stopped_leads_example = stopped_leads creating 3 9 refl

stopped_grants_example :
    let p =
      run_events
        (calls stop_call ∷ [])
        (record { coordinator = leading 1 7; tasks = assert_owning ∷ [] }) in
    (nth_task 1 p.tasks ≡ some assert_owning)
    × ((resume assert_owning (flag true) p.coordinator).reply ≡ some (granted none))
stopped_grants_example = stopped_grants (leading 1 7) []

poll_leads_example :
    run_events first_poll new_process ≡ record { coordinator = leading 1 7; tasks = [] }
poll_leads_example = poll_leads new_coordinator [] 1 7 refl refl refl

poll_recovers_example :
    (run_events losing_events (record { coordinator = leading 1 7; tasks = [] })
      ≡ record { coordinator = new_coordinator; tasks = [] })
    × (run_events
          (losing_events ++ leading_events none 2 8)
          (record { coordinator = leading 1 7; tasks = [] })
        ≡ record { coordinator = leading 2 8; tasks = [] })
poll_recovers_example = poll_recovers [] 1 2 7 8

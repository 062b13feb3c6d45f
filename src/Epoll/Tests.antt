-- ===== src/Epoll/Tests.antt =====
-- The theorems at a loop with two events, whose callbacks are named by numbers, and runs of it.
use marine_robotics_hil_sea.Base.{
  get_elem?, ℕ, ◌+◌, ◌≡◌, ◌≢◌, refl, Bool, true, false, Option, none, some, Option-cases, inl, inr,
  List, [], ◌∷◌, arith, ◌==◌, if◌then◌else◌,
}
use marine_robotics_hil_sea.Base.Int.{pos, negsuc}
use marine_robotics_hil_sea.Epoll.Defs.{
  Triggered, EventLoop, finished, crashed, waiting, empty_loop, context_at, free, register_event,
  drop_event, deregister_event, deregister_found, handle, dispatch, run_until_empty,
}
use marine_robotics_hil_sea.Epoll.Event.{EpollEvent, event_init, event_deinit, on_trigger}
use marine_robotics_hil_sea.Epoll.Registry.{
  Call, registers, deregisters, loop_of, run, step, view, view_of, spec_run, run-spec_run,
}
use marine_robotics_hil_sea.Epoll.Safety.{NoDangling, run-NoDangling, run_until_empty-crashed}
use marine_robotics_hil_sea.Epoll.Counting.{deregister_all, call_of, run_until_empty-unfinished}

-- Two registrations, and the loop that they leave.
abbrev registrations : List (Call ℕ)
registrations = registers true 5 0 ∷ registers false 6 1 ∷ registers true 7 1 ∷ []

abbrev pub two_events : EventLoop ℕ
two_events = record {
  contexts = (1, record { fd = 7; callback = 1 }) ∷ (0, record { fd = 5; callback = 0 }) ∷ [];
  next = 2;
  n_events = 2;
  triggered_events = [];
}

run_two : run empty_loop registrations ≡ some two_events
unfolding run step register_event
run_two = refl

run-spec_run_example :
    view_of (run two_events (deregisters true (some 0) ∷ registrations))
    ≡ spec_run (view two_events) (deregisters true (some 0) ∷ registrations)
run-spec_run_example = run-spec_run two_events (deregisters true (some 0) ∷ registrations)

-- The batch of both events, before and after the second is deregistered.
abbrev batch : List Triggered
batch = record { ptr = some 0; events = 1 } ∷ record { ptr = some 1; events = 1 } ∷ []

abbrev dispatching : EventLoop ℕ
dispatching = record two_events { triggered_events = batch }

abbrev dropped : EventLoop ℕ
dropped = record {
  contexts = (0, record { fd = 5; callback = 0 }) ∷ [];
  next = 2;
  n_events = 2;
  triggered_events = record { ptr = some 0; events = 1 } ∷ record { ptr = none; events = 1 } ∷ [];
}

dropped_by_run : run dispatching (deregisters true (some 1) ∷ []) ≡ some dropped
unfolding run step deregister_event deregister_found drop_event context_at free
dropped_by_run = refl

points_0 : (p : ℕ) → ◌≡◌ {A = Option ℕ} (some 0) (some p) → context_at two_events.contexts p ≢ none
unfolding context_at
points_0 p e = ground arith

points_1 : (p : ℕ) → ◌≡◌ {A = Option ℕ} (some 1) (some p) → context_at two_events.contexts p ≢ none
unfolding context_at
points_1 p e = ground arith

run-NoDangling_example : NoDangling dropped
run-NoDangling_example =
    run-NoDangling dispatching dropped (deregisters true (some 1) ∷ []) (points_0, (points_1, tt))
      dropped_by_run

-- The callback 0 deregisters the second event, any other nothing.
abbrev body : ℕ → ℕ → List (Bool × Option ℕ)
body c mask = if c == 0 then (true, some 1) ∷ [] else []

call_deregisters :
    (s : EventLoop ℕ) → call_of body 0 1 s ≡ loop_of (deregister_event true (some 1) s)
unfolding deregister_all
call_deregisters s = elim (Option-cases (loop_of (deregister_event true (some 1) s))) [
  | inl e ↦ ground arith
  | inr (m, e) ↦ ground arith
]

at_0 : context_at two_events.contexts 0 ≡ some (record { fd = 5; callback = 0 })
unfolding context_at
at_0 = refl

at_1 : context_at two_events.contexts 1 ≡ some (record { fd = 7; callback = 1 })
unfolding context_at
at_1 = refl

run_until_empty-crashed_example :
    (s1 : EventLoop ℕ) × (handle
        (call_of body)
        (record { ptr = some 0; events = 1 })
        (record two_events { triggered_events = batch })
      ≡ some s1)
    × (get_elem? s1.triggered_events 1 ≡ some (record { ptr = none; events = 1 }))
    × (context_at s1.contexts 1 ≡ none)
    × (run_until_empty (call_of body) (some batch ∷ []) two_events ≡ crashed)
run_until_empty-crashed_example =
    run_until_empty-crashed (call_of body) two_events 0 1 1 1 (record { fd = 5; callback = 0 })
      (record { fd = 7; callback = 1 }) [] [] (omega arith) (omega arith) at_0 at_1 call_deregisters

-- One event at a time, the same callbacks run, and the loop waits on.
run_until_empty-unfinished_example :
    run_until_empty (call_of body) (some (record { ptr = some 0; events = 1 } ∷ []) ∷ []) two_events
    ≢ finished dropped
run_until_empty-unfinished_example =
    run_until_empty-unfinished body (some (record { ptr = some 0; events = 1 } ∷ []) ∷ [])
      two_events dropped (omega arith)

run_waits :
    run_until_empty (call_of body) (some (record { ptr = some 0; events = 1 } ∷ []) ∷ []) two_events
    ≡ waiting (record dropped { triggered_events = record { ptr = some 0; events = 1 } ∷ [] })
unfolding run_until_empty dispatch handle deregister_all deregister_event deregister_found
    drop_event context_at free
run_waits = refl

-- An event that the loop refuses is closed, and deinit takes an event off the loop.
abbrev event_0 : EpollEvent
event_0 = record { fd = negsuc 0; evt = none }

init_refused : event_init (some 9) false 3 event_0 two_events ≡ record {
  event = record { fd = pos 9; evt = none };
  loop = two_events;
  closed = pos 9 ∷ [];
  succeeded = false;
}
unfolding event_init register_event
init_refused = refl

deinit_last :
    event_deinit true (record { fd = pos 7; evt = some 1 }) dispatching
    ≡ some (record {
      event = record { fd = negsuc 0; evt = some 1 };
      loop = dropped;
      closed = pos 7 ∷ [];
      succeeded = true;
    })
unfolding event_deinit deregister_event deregister_found drop_event context_at free
deinit_last = refl

triggered_twice : on_trigger true (λ m (n : ℕ). n + m) 3 (on_trigger false (λ m n. n + m) 3 0) ≡ 3
unfolding on_trigger
triggered_twice = refl

-- ===== src/Socket/Tests.antt =====
-- The theorems of the socket at concrete inputs, and runs of it.
use marine_robotics_hil_sea.Base.{
  ℕ, ◌≡◌, refl, true, false, none, some, List, [], ◌∷◌, arith, ◌==◌, if◌then◌else◌,
}
use marine_robotics_hil_sea.Base.Int.{ℤ, pos, negsuc}
use marine_robotics_hil_sea.Epoll.{
  context_at, free, register_event, drop_event, deregister_event, deregister_found,
}
use marine_robotics_hil_sea.Epoll.Tests.{two_events}
use marine_robotics_hil_sea.Socket.Defs.{
  Session, Setup, Probe, Received, nothing, message, init, init_created, init_registered, deinit,
  send_can_frame, read_nonblocking, drain, finish_event, on_socket_event,
}
use marine_robotics_hil_sea.Socket.Lifecycle.{all_succeed, Settled, init-Settled, deinit-init}
use marine_robotics_hil_sea.Socket.Drain.{process_all, whole, drain-process_all}

-- The client counts in a list the frames that it has seen.
abbrev session : Session ℕ (List ℕ)
session = record {
  socket = record { socket_id = negsuc 0; socket_evt_id = none; broken = false };
  loop = two_events;
  closed = [];
  client = [];
}

abbrev setup : Setup
setup = record {
  created = some 8;
  index_found = true;
  bound = true;
  probe = Probe.would_block;
  added = true;
}

init-Settled_example :
    ((init setup 4 session).1 ≡ all_succeed setup)
    × Settled 4 session setup.created (init setup 4 session)
init-Settled_example = init-Settled setup 4 session

init_succeeds : (init setup 4 session).1 ≡ true
unfolding init init_created init_registered register_event
init_succeeds = refl

-- Without the interface the descriptor is closed, and the loop is not touched.
init_fails : init (record setup { index_found = false }) 4 session ≡ (
  record session {
    socket = record { socket_id = pos 8; socket_evt_id = none; broken = false };
    closed = pos 8 ∷ [];
  },
  false,
)
unfolding init init_created
init_fails = refl

deinit-init_example :
    (fd : ℕ) × (s' : Session ℕ (List ℕ)) × (setup.created ≡ some fd)
    × (deinit false (init setup 4 session).0 ≡ some s')
    × (s'.closed ≡ pos fd ∷ [])
    × (s'.socket.broken ≡ true)
    × (context_at s'.loop.contexts 1 ≡ (
        if 2 == 1
        then some (record { fd = 9; callback = 4 })
        else context_at two_events.contexts 1))
    × (s'.loop.n_events ≡ 3)
deinit-init_example = deinit-init false setup 4 session 1 refl init_succeeds

-- Three messages, the second too short.
abbrev received : ℕ → Received ℕ
received i =
    if i == 0
    then message 16 7
    else if i == 1
    then message 8 5
    else if i == 2
    then message 16 9
    else nothing

abbrev see : ℕ → List ℕ → List ℕ
see frame seen = frame ∷ seen

drain-process_all_example :
    drain see false received 5 0 []
    ≡ some (process_all see (whole ((16, 7) ∷ (8, 5) ∷ (16, 9) ∷ [])) [])
drain-process_all_example =
    drain-process_all see received ((16, 7) ∷ (8, 5) ∷ (16, 9) ∷ []) 0 5 []
      (refl, (refl, (refl, refl))) (omega arith)

seen_frames : drain see false received 4 0 [] ≡ some (9 ∷ 7 ∷ [])
unfolding drain read_nonblocking
seen_frames = refl

-- An error on the bus ends the session, and a deinit after it closes the descriptor once more.
broken_twice :
    (elim (on_socket_event see 4
        (record { epollin = true; epollerr = true; other = false })
        received
        true
        (record session {
          socket = record { socket_id = pos 7; socket_evt_id = some 1; broken = false };
        }))
      as (λ r. List ℤ) [ none ↦ [] | some s ↦ s.closed ])
    ≡ pos 7 ∷ []
unfolding on_socket_event finish_event drain read_nonblocking deinit deregister_event
    deregister_found drop_event context_at free
broken_twice = refl

sent : (send_can_frame (some 3) ≡ true) × (send_can_frame none ≡ false)
unfolding send_can_frame
sent = (refl, refl)

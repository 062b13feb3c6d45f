-- ===== src/Socket/Lifecycle.antt =====
-- What `init` leaves on every path, and `deinit` after it.
use marine_robotics_hil_sea.Base.{
  ℕ, ◌+◌, ◌%◌, ◌^◌, ◌≡◌, refl, ap, ◌∙◌, Bool, true, false, not, ◌&&◌, Option, none, some,
  Option-cases, inl, inr, ◌∷◌, arith, ◌==◌, if◌then◌else◌,
}
use marine_robotics_hil_sea.Base.Int.{pos}
use marine_robotics_hil_sea.Epoll.{
  context_at, free, register_event, drop_event, deregister_event, deregister_found,
}
use marine_robotics_hil_sea.Epoll.Registry.{context_at-free}
use marine_robotics_hil_sea.Socket.Defs.{
  Session, Setup, is_broken_pipe, init, init_created, init_registered, deinit,
}

-- All system calls of `init` succeed.
abbrev pub all_succeed : Setup → Bool
all_succeed c = elim c.created [
  | none ↦ false
  | some fd ↦ c.index_found && (c.bound && (not (is_broken_pipe c.probe) && c.added))
]

module _ {C S : Type 0} where
  -- The result of `init` by whether it succeeds and by the descriptor that was created.
  abbrev pub Settled : C → Session C S → Option ℕ → Session C S × Bool → Type 0
  Settled callback s none (s', ok) = (ok ≡ false) × (s'.closed ≡ s.closed) × (s'.loop ≡ s.loop)
  Settled callback s (some fd) (s', false) =
      (s'.closed ≡ pos fd ∷ s.closed)
      × (s'.loop ≡ s.loop)
      × (s'.socket.socket_evt_id ≡ s.socket.socket_evt_id)
  Settled callback s (some fd) (s', true) =
      (s'.closed ≡ s.closed)
      × (s'.socket.socket_id ≡ pos fd)
      × (s'.socket.socket_evt_id ≡ some s.loop.next)
      × (context_at s'.loop.contexts s.loop.next ≡ some (record { fd = fd; callback = callback }))
      × (s'.loop.n_events ≡ (s.loop.n_events + 1) % 2 ^ 64)

  -- init succeeds exactly if all its system calls do. Then the socket is open and its event, with
  -- the socket's descriptor and callback, is on the loop, and nothing was closed. If it fails, the
  -- loop is as before, and the descriptor is closed, once, exactly if one was created.
  pub init-Settled :
      (c : Setup) (callback : C) (s : Session C S)
      → ((init c callback s).1 ≡ all_succeed c) × Settled callback s c.created (init c callback s)
  unfolding init init_created init_registered register_event context_at
  init-Settled c callback s = ground arith

  -- The session that an init of descriptor fd leaves if it succeeds, and that deinit leaves of it.
  abbrev opened : ℕ → C → Session C S → Session C S
  opened fd callback s = record s {
    socket = record s.socket { socket_id = pos fd; socket_evt_id = some s.loop.next };
    loop = (register_event true fd callback s.loop).0;
  }

  abbrev shut : Bool → ℕ → C → Session C S → Session C S
  shut removed fd callback s =
      let added = (register_event true fd callback s.loop).0 in
      let dropped = drop_event s.loop.next added in
      record s {
        socket = record { socket_id = pos fd; socket_evt_id = some s.loop.next; broken = true };
        loop =
            if removed
            then record dropped { contexts = free dropped.contexts s.loop.next }
            else added;
        closed = pos fd ∷ s.closed;
      }

  init-opened :
      (c : Setup) (callback : C) (s : Session C S)
      → (init c callback s).1 ≡ true
      → (fd : ℕ) × (c.created ≡ some fd) × ((init c callback s).0 ≡ opened fd callback s)
  unfolding init init_created init_registered register_event
  init-opened c callback s h = elim (Option-cases c.created) [
    | inl e ↦ absurd (ground arith)
    | inr (fd, e) ↦ (fd, e, ground arith)
  ]

  deinit-opened :
      (removed : Bool) (fd : ℕ) (callback : C) (s : Session C S)
      → s.socket.broken ≡ false
      → deinit removed (opened fd callback s) ≡ some (shut removed fd callback s)
  unfolding register_event deinit deregister_event deregister_found drop_event context_at
  deinit-opened true fd callback s b = ground arith
  deinit-opened false fd callback s b = ground arith

  -- deinit after an init that succeeded, of a socket that is not broken, does not crash, whatever
  -- epoll_ctl answers: it closes the descriptor and marks the socket as broken. If epoll_ctl accepts,
  -- it takes exactly the socket's event off the loop; if not, that event stays, and all others do.
  -- The loop's count of events stays one too high.
  pub deinit-init :
      (removed : Bool) (c : Setup) (callback : C) (s : Session C S) (q : ℕ)
      → s.socket.broken ≡ false
      → (init c callback s).1 ≡ true
      → (fd : ℕ) × (s' : Session C S) × (c.created ≡ some fd)
        × (deinit removed (init c callback s).0 ≡ some s')
        × (s'.closed ≡ pos fd ∷ s.closed)
        × (s'.socket.broken ≡ true)
        × (context_at s'.loop.contexts q ≡ (
            if s.loop.next == q
            then (if removed then none else some (record { fd = fd; callback = callback }))
            else context_at s.loop.contexts q))
        × (s'.loop.n_events ≡ (s.loop.n_events + 1) % 2 ^ 64)
  unfolding register_event drop_event context_at
  deinit-init true c callback s q b h =
      let (fd, e, o) = init-opened c callback s h in
      let contexts = (s.loop.next, record { fd = fd; callback = callback }) ∷ s.loop.contexts in
      (
        fd,
        shut true fd callback s,
        e,
        ap (deinit true) o ∙ deinit-opened true fd callback s b,
        refl,
        refl,
        ground (arith, context_at-free contexts s.loop.next q),
        refl,
      )
  deinit-init false c callback s q b h =
      let (fd, e, o) = init-opened c callback s h in
      (
        fd,
        shut false fd callback s,
        e,
        ap (deinit false) o ∙ deinit-opened false fd callback s b,
        refl,
        refl,
        refl,
        refl,
      )

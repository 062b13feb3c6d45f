-- ===== src/Epoll/Safety.antt =====
-- The pointers of a batch: what registrations and deregistrations leave of it, and a callback that
-- deregisters a later event of its own batch.
use marine_robotics_hil_sea.Base.{
  ℕ, ◌≡◌, ◌≢◌, Bool, true, false, Option, none, some, Option-cases, inl, inr, List, [], ◌∷◌, map,
  get_elem?, All, arith,
}
use mathlib.Core.Path.{subst}
use marine_robotics_hil_sea.Epoll.Defs.{
  EventContext, Triggered, EventLoop, crashed, context_at, free, register_event, drop_one,
  drop_event, deregister_event, deregister_found, handle, dispatch, run_until_empty,
}
use marine_robotics_hil_sea.Epoll.Registry.{
  Call, registers, deregisters, step, loop_of, run, context_at-free,
}

module _ {C : Type 0} where
  -- A pointer of a batch is null or that of a context.
  abbrev pub Points : List (ℕ × EventContext C) → Triggered → Type 0
  Points cs t = (p : ℕ) → t.ptr ≡ some p → context_at cs p ≢ none

  abbrev pub NoDangling : EventLoop C → Type 0
  NoDangling s = All (Points s.contexts) s.triggered_events

  moved :
      (s s' : EventLoop C)
      → ◌≡◌ {A = Option (EventLoop C)} (some s) (some s')
      → NoDangling s
      → NoDangling s'
  moved s s' e h = subst (λ o. (elim o [ none ↦ Unit {0} | some x ↦ NoDangling x ])) e h

  Points-added :
      (cs : List (ℕ × EventContext C)) (k : ℕ) (c : EventContext C) (ts : List Triggered)
      → All (Points cs) ts
      → All (Points ((k, c) ∷ cs)) ts
  unfolding context_at
  Points-added cs k c [] h = tt
  Points-added cs k c (t ∷ ts) (h, hs) = (λ p e. ground (arith, h p e), Points-added cs k c ts hs)

  Points-drop_one :
      (cs : List (ℕ × EventContext C)) (p : ℕ) (t : Triggered)
      → Points cs t
      → Points (free cs p) (drop_one p t)
  Points-drop_one cs p t h q e = ground (arith, context_at-free cs p q, h q)

  Points-dropped :
      (cs : List (ℕ × EventContext C)) (p : ℕ) (ts : List Triggered)
      → All (Points cs) ts
      → All (Points (free cs p)) (map (drop_one p) ts)
  Points-dropped cs p [] h = tt
  Points-dropped cs p (t ∷ ts) (h, hs) = (Points-drop_one cs p t h, Points-dropped cs p ts hs)

  deregister_found-NoDangling :
      (removed : Bool) (p : ℕ) (o : Option (EventContext C)) (s s' : EventLoop C)
      → NoDangling s
      → loop_of (deregister_found removed p o s) ≡ some s'
      → NoDangling s'
  unfolding deregister_found drop_event
  deregister_found-NoDangling removed p none s s' h e = ground arith
  deregister_found-NoDangling false p (some c) s s' h e = moved _ s' e h
  deregister_found-NoDangling true p (some c) s s' h e =
      moved _ s' e (Points-dropped s.contexts p s.triggered_events h)

  step-NoDangling :
      (s s' : EventLoop C) (c : Call C) → NoDangling s → step s c ≡ some s' → NoDangling s'
  unfolding step register_event deregister_event
  step-NoDangling s s' (registers false fd callback) h e = moved _ s' e h
  step-NoDangling s s' (registers true fd callback) h e =
      moved _ s' e (Points-added s.contexts s.next _ s.triggered_events h)
  step-NoDangling s s' (deregisters removed none) h e = moved _ s' e h
  step-NoDangling s s' (deregisters removed (some p)) h e =
      deregister_found-NoDangling removed p (context_at s.contexts p) s s' h e

  -- No sequence of registrations and deregistrations, accepted by the kernel or not, that ends
  -- leaves a pointer of the current batch to a freed context: if each was null or pointed to a
  -- registered context before, so it is afterwards.
  pub run-NoDangling :
      (s s' : EventLoop C) (cs : List (Call C)) → NoDangling s → run s cs ≡ some s' → NoDangling s'
  unfolding run
  run-NoDangling s s' [] h e = moved _ s' e h
  run-NoDangling s s' (c ∷ cs) h e = elim (Option-cases (step s c)) [
    | inl f ↦ ground arith
    | inr (m, f) ↦ run-NoDangling m s' cs (step-NoDangling s m c h f) (ground arith)
  ]

  -- A batch with the events p and q, both registered and distinct, of which the callback of p
  -- deregisters q: after that callback the second entry of the batch is null, with its mask, q is no
  -- longer a context, and the call crashes: its next round follows that pointer.
  pub run_until_empty-crashed :
      (call : C → ℕ → EventLoop C → Option (EventLoop C)) (s : EventLoop C) (p q i j : ℕ)
      (cp cq : EventContext C) (ts : List Triggered) (waits : List (Option (List Triggered)))
      → s.n_events ≢ 0
      → p ≢ q
      → context_at s.contexts p ≡ some cp
      → context_at s.contexts q ≡ some cq
      → ((s' : EventLoop C) → call cp.callback i s' ≡ loop_of (deregister_event true (some q) s'))
      → (s1 : EventLoop C) × (handle call
            (record { ptr = some p; events = i })
            (record s {
              triggered_events =
                  record { ptr = some p; events = i } ∷ record { ptr = some q; events = j } ∷ ts;
            })
          ≡ some s1)
        × (get_elem? s1.triggered_events 1 ≡ some (record { ptr = none; events = j }))
        × (context_at s1.contexts q ≡ none)
        × (run_until_empty call
              (some (record { ptr = some p; events = i } ∷ record { ptr = some q; events = j } ∷ ts)
                ∷ waits)
              s
            ≡ crashed)
  unfolding run_until_empty dispatch handle deregister_event deregister_found drop_event context_at
      free
  run_until_empty-crashed call s p q i j cp cq ts waits n d hp hq h =
      let s0 : EventLoop C = record s {
        triggered_events =
            record { ptr = some p; events = i } ∷ record { ptr = some q; events = j } ∷ ts;
      } in
      let s1 : EventLoop C = record s0 {
        triggered_events = map (drop_one q) s0.triggered_events;
        contexts = free s.contexts q;
      } in
      (
        s1,
        ground (arith, hp, hq, h s0),
        ground (arith, d),
        ground (arith, context_at-free s.contexts q q),
        ground (arith, hp, hq, h s0),
      )

-- ===== src/Epoll/Registry.antt =====
-- The event loop as a registry: a map from pointers to contexts, the next pointer, and a count.
use marine_robotics_hil_sea.Base.{
  ℕ, ◌+◌, ◌%◌, ◌^◌, ◌≡◌, refl, ap, ◌∙◌, fun_ext, Bool, true, false, Option, none, some, List, [],
  ◌∷◌, arith, ◌==◌, if◌then◌else◌,
}
use marine_robotics_hil_sea.Epoll.Defs.{
  EventContext, EventLoop, context_at, free, register_event, drop_event, deregister_event,
  deregister_found,
}

-- A call of the loop, with what epoll_ctl answers.
pub data Call (C : Type 0) : Type 0 where
  registers : Bool → ℕ → C → Call C
  deregisters : Bool → Option ℕ → Call C

-- What a client knows of the loop.
pub record Registry (C : Type 0) : Type 0 where
  pub lookup : ℕ → Option (EventContext C)
  pub next : ℕ
  pub count : ℕ

module _ {C : Type 0} where
  abbrev pub loop_of : Option (EventLoop C × Bool) → Option (EventLoop C)
  loop_of none = none
  loop_of (some (s, done)) = some s

  unfoldable pub step : EventLoop C → Call C → Option (EventLoop C)
  step s (registers added fd callback) = some (register_event added fd callback s).0
  step s (deregisters removed evt) = loop_of (deregister_event removed evt s)

  unfoldable pub run : EventLoop C → List (Call C) → Option (EventLoop C)
  run s [] = some s
  run s (c ∷ cs) = elim (step s c) [ none ↦ none | some s' ↦ run s' cs ]

  unfoldable pub view : EventLoop C → Registry C
  view s = record { lookup = context_at s.contexts; next = s.next; count = s.n_events }

  unfoldable pub spec_remove : Bool → ℕ → Option (EventContext C) → Registry C → Option (Registry C)
  spec_remove removed p none r = none
  spec_remove false p (some c) r = some r
  spec_remove true p (some c) r =
      some (record r { lookup = λ q. if p == q then none else r.lookup q })

  -- The specification: a registration adds its context at the next pointer, a deregistration of a
  -- registered pointer removes it, of null it does nothing, and any other is a fault.
  unfoldable pub spec_step : Registry C → Call C → Option (Registry C)
  spec_step r (registers false fd callback) = some r
  spec_step r (registers true fd callback) = some (record {
    lookup =
        λ p. if r.next == p then some (record { fd = fd; callback = callback }) else r.lookup p;
    next = r.next + 1;
    count = (r.count + 1) % 2 ^ 64;
  })
  spec_step r (deregisters removed none) = some r
  spec_step r (deregisters removed (some p)) = spec_remove removed p (r.lookup p) r

  unfoldable pub spec_run : Registry C → List (Call C) → Option (Registry C)
  spec_run r [] = some r
  spec_run r (c ∷ cs) = elim (spec_step r c) [ none ↦ none | some r' ↦ spec_run r' cs ]

  abbrev pub view_of : Option (EventLoop C) → Option (Registry C)
  view_of none = none
  view_of (some s) = some (view s)

  pub context_at-free :
      (cs : List (ℕ × EventContext C)) (p q : ℕ)
      → context_at (free cs p) q ≡ (if p == q then none else context_at cs q)
  unfolding context_at free
  context_at-free [] p q = ground arith
  context_at-free ((k, c) ∷ cs) p q = ground (arith, context_at-free cs p q)

  deregister_found-spec_remove :
      (s : EventLoop C) (p : ℕ) (removed : Bool) (o : Option (EventContext C))
      → view_of (loop_of (deregister_found removed p o s)) ≡ spec_remove removed p o (view s)
  unfolding view deregister_found spec_remove drop_event
  deregister_found-spec_remove s p removed none = refl
  deregister_found-spec_remove s p false (some c) = refl
  deregister_found-spec_remove s p true (some c) =
      ap (λ f. some (record { lookup = f; next = s.next; count = s.n_events }))
        (fun_ext (context_at-free s.contexts p))

  step-spec_step : (s : EventLoop C) (c : Call C) → view_of (step s c) ≡ spec_step (view s) c
  unfolding step view spec_step register_event deregister_event context_at
  step-spec_step s (registers false fd callback) = refl
  step-spec_step s (registers true fd callback) = refl
  step-spec_step s (deregisters removed none) = refl
  step-spec_step s (deregisters removed (some p)) =
      deregister_found-spec_remove s p removed (context_at s.contexts p)

  continue :
      (cs : List (Call C)) (o : Option (EventLoop C))
      → ((s : EventLoop C) → view_of (run s cs) ≡ spec_run (view s) cs)
      → view_of (elim o [ none ↦ none | some s ↦ run s cs ])
        ≡ (elim (view_of o) [ none ↦ none | some r ↦ spec_run r cs ])
  continue cs none rest = refl
  continue cs (some s) rest = rest s

  -- The loop implements the registry: any sequence of registrations and deregistrations, accepted
  -- by the kernel or not, ends in a state with the view that the specification gives, and crashes
  -- exactly where the specification has a fault.
  pub run-spec_run :
      (s : EventLoop C) (cs : List (Call C)) → view_of (run s cs) ≡ spec_run (view s) cs
  unfolding run spec_run
  run-spec_run s [] = refl
  run-spec_run s (c ∷ cs) =
      continue cs (step s c) (λ s'. run-spec_run s' cs)
      ∙ ap (λ r. elim r [ none ↦ none | some r' ↦ spec_run r' cs ]) (step-spec_step s c)

-- ===== src/Epoll/Counting.antt =====
-- The counter by which run_until_empty ends.
use marine_robotics_hil_sea.Base.{
  ℕ, zero, suc, ◌+◌, ◌≡◌, ◌≢◌, ◌∙◌, Bool, true, false, Option, none, some, Option-cases, inl, inr,
  List, [], ◌∷◌, get_elem?, length, arith,
}
use marine_robotics_hil_sea.Epoll.Defs.{
  EventContext, Triggered, EventLoop, finished, context_at, drop_event, deregister_event,
  deregister_found, handle, dispatch, run_until_empty,
}
use marine_robotics_hil_sea.Epoll.Registry.{loop_of}

module _ {C : Type 0} where
  -- A callback that deregisters events in sequence, with what epoll_ctl answers.
  unfoldable pub deregister_all : List (Bool × Option ℕ) → EventLoop C → Option (EventLoop C)
  deregister_all [] s = some s
  deregister_all ((removed, evt) ∷ es) s = elim (loop_of (deregister_event removed evt s)) [
    | none ↦ none
    | some s' ↦ deregister_all es s'
  ]

  deregister_found-n_events :
      (removed : Bool) (p : ℕ) (o : Option (EventContext C)) (s s' : EventLoop C)
      → loop_of (deregister_found removed p o s) ≡ some s'
      → s'.n_events ≡ s.n_events
  unfolding deregister_found drop_event
  deregister_found-n_events removed p none s s' e = ground arith
  deregister_found-n_events false p (some c) s s' e = ground arith
  deregister_found-n_events true p (some c) s s' e = ground arith

  deregister_event-n_events :
      (removed : Bool) (evt : Option ℕ) (s s' : EventLoop C)
      → loop_of (deregister_event removed evt s) ≡ some s'
      → s'.n_events ≡ s.n_events
  unfolding deregister_event
  deregister_event-n_events removed none s s' e = ground arith
  deregister_event-n_events removed (some p) s s' e =
      deregister_found-n_events removed p (context_at s.contexts p) s s' e

  deregister_all-n_events :
      (es : List (Bool × Option ℕ)) (s s' : EventLoop C)
      → deregister_all es s ≡ some s'
      → s'.n_events ≡ s.n_events
  unfolding deregister_all
  deregister_all-n_events [] s s' e = ground arith
  deregister_all-n_events ((removed, evt) ∷ es) s s' e =
      elim (Option-cases (loop_of (deregister_event removed evt s))) [
        | inl f ↦ ground arith
        | inr (m, f) ↦
            deregister_all-n_events es m s' (ground arith)
            ∙ deregister_event-n_events removed evt s m f
      ]

  module _ (body : C → ℕ → List (Bool × Option ℕ)) where
    abbrev pub call_of : C → ℕ → EventLoop C → Option (EventLoop C)
    call_of c mask s = deregister_all (body c mask) s

    handle-n_events :
        (t : Triggered) (s s' : EventLoop C)
        → handle call_of t s ≡ some s'
        → s'.n_events ≡ s.n_events
    unfolding handle
    handle-n_events t s s' e = elim (Option-cases t.ptr) [
      | inl f ↦ ground arith
      | inr (p, f) ↦ elim (Option-cases (context_at s.contexts p)) [
        | inl g ↦ ground arith
        | inr (c, g) ↦ deregister_all-n_events (body c.callback t.events) s s' (ground arith)
      ]
    ]

    dispatch-n_events :
        (k i : ℕ) (s s' : EventLoop C) → dispatch call_of k i s ≡ some s' → s'.n_events ≡ s.n_events
    unfolding dispatch
    dispatch-n_events zero i s s' e = ground arith
    dispatch-n_events (suc k) i s s' e = elim (Option-cases (get_elem? s.triggered_events i)) [
      | inl f ↦ ground arith
      | inr (t, f) ↦ elim (Option-cases (handle call_of t s)) [
        | inl g ↦ ground arith
        | inr (m, g) ↦ dispatch-n_events k (i + 1) m s' (ground arith) ∙ handle-n_events t s m g
      ]
    ]

    -- Once an event is registered, a loop whose callbacks deregister any events in any order never
    -- returns that it is empty, whatever epoll_wait returns and however often.
    pub run_until_empty-unfinished :
        (waits : List (Option (List Triggered))) (s s' : EventLoop C)
        → s.n_events ≢ 0
        → run_until_empty call_of waits s ≢ finished s'
    unfolding run_until_empty
    run_until_empty-unfinished [] s s' n e = ground arith
    run_until_empty-unfinished (none ∷ waits) s s' n e = ground arith
    run_until_empty-unfinished (some ts ∷ waits) s s' n e =
        let s0 : EventLoop C = record s { triggered_events = ts } in
        elim (Option-cases (dispatch call_of (length ts) 0 s0)) [
          | inl f ↦ ground arith
          | inr (m, f) ↦
              run_until_empty-unfinished waits m s'
                (ground (arith, dispatch-n_events (length ts) 0 s0 m f)) (ground arith)
        ]

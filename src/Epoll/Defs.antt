-- ===== src/Epoll/Defs.antt =====
-- `class EpollEventLoop`. A pointer to an `EventContext` is a number, and the contexts that are
-- allocated stand in a list. What epoll_ctl and epoll_wait return is an argument: the kernel's
-- epoll set is not part of the repository.
use marine_robotics_hil_sea.Base.{
  ℕ, zero, suc, ◌+◌, ◌%◌, ◌^◌, Bool, true, false, Option, none, some, List, [], ◌∷◌, map, ◌==◌,
  length, get_elem?, if◌then◌else◌,
}

-- `struct EventContext`, with the type of the callbacks.
pub record EventContext (C : Type 0) : Type 0 where
  pub fd : ℕ
  pub callback : C

-- One of the `triggered_events_`: the pointer, null where the event was dropped, and the mask.
pub record Triggered : Type 0 where
  pub ptr : Option ℕ
  pub events : ℕ

-- `next` is the pointer that the next `new` returns.
pub record EventLoop (C : Type 0) : Type 0 where
  pub contexts : List (ℕ × EventContext C)
  pub next : ℕ
  pub n_events : ℕ
  pub triggered_events : List Triggered

-- How a call of `run_until_empty` ends, if it does.
pub data Exit (C : Type 0) : Type 0 where
  finished : EventLoop C → Exit C
  failed : EventLoop C → Exit C
  crashed : Exit C
  waiting : EventLoop C → Exit C

-- One round of `drop_event`.
abbrev pub drop_one : ℕ → Triggered → Triggered
drop_one p t = elim t.ptr [ none ↦ t | some q ↦ if q == p then record t { ptr = none } else t ]

module _ {C : Type 0} where
  unfoldable pub context_at : List (ℕ × EventContext C) → ℕ → Option (EventContext C)
  context_at [] p = none
  context_at ((q, c) ∷ cs) p = if q == p then some c else context_at cs p

  -- `delete`
  unfoldable pub free : List (ℕ × EventContext C) → ℕ → List (ℕ × EventContext C)
  free [] p = []
  free ((q, c) ∷ cs) p = if q == p then free cs p else (q, c) ∷ free cs p

  abbrev pub empty_loop : EventLoop C
  empty_loop = record { contexts = []; next = 0; n_events = 0; triggered_events = [] }

  -- `added` says whether epoll_ctl accepts. The result is the pointer, or none for `false`.
  unfoldable pub register_event : Bool → ℕ → C → EventLoop C → EventLoop C × Option ℕ
  register_event false fd callback s = (s, none)
  register_event true fd callback s = (
    record s {
      contexts = (s.next, record { fd = fd; callback = callback }) ∷ s.contexts;
      next = s.next + 1;
      n_events = (s.n_events + 1) % 2 ^ 64;
    },
    some s.next,
  )

  unfoldable pub drop_event : ℕ → EventLoop C → EventLoop C
  drop_event p s = record s { triggered_events = map (drop_one p) s.triggered_events }

  -- The rest of `deregister_event`, at the context that `evt` points to: none is a read of `evt->fd`
  -- of a freed context. `removed` says whether epoll_ctl accepts.
  unfoldable pub deregister_found :
      Bool → ℕ → Option (EventContext C) → EventLoop C → Option (EventLoop C × Bool)
  deregister_found removed p none s = none
  deregister_found false p (some c) s = some (s, false)
  deregister_found true p (some c) s =
      let dropped = drop_event p s in
      some (record dropped { contexts = free dropped.contexts p }, true)

  unfoldable pub deregister_event : Bool → Option ℕ → EventLoop C → Option (EventLoop C × Bool)
  deregister_event removed none s = some (s, false)
  deregister_event removed (some p) s = deregister_found removed p (context_at s.contexts p) s

  -- The callbacks: what `handler->callback(events)` does to the loop, `none` for a crash.
  module _ (call : C → ℕ → EventLoop C → Option (EventLoop C)) where
    -- The handler of one entry; a null or a dangling pointer crashes.
    unfoldable pub handle : Triggered → EventLoop C → Option (EventLoop C)
    handle t s = elim t.ptr [
      | none ↦ none
      | some p ↦ elim (context_at s.contexts p) [
        | none ↦ none
        | some c ↦ call c.callback t.events s
      ]
    ]

    -- The `for` loop: `k` rounds from index `i` on, each of which reads the array anew.
    unfoldable pub dispatch : ℕ → ℕ → EventLoop C → Option (EventLoop C)
    dispatch zero i s = some s
    dispatch (suc k) i s = elim (get_elem? s.triggered_events i) [
      | none ↦ none
      | some t ↦ elim (handle t s) [ none ↦ none | some s' ↦ dispatch k (i + 1) s' ]
    ]

    -- `run_until_empty`, on the results of epoll_wait in their order: `none` is -1, after which the
    -- array counts as empty. Where the results end the call waits.
    unfoldable pub run_until_empty : List (Option (List Triggered)) → EventLoop C → Exit C
    run_until_empty [] s = if s.n_events == 0 then finished s else waiting s
    run_until_empty (none ∷ waits) s =
        if s.n_events == 0 then finished s else failed (record s { triggered_events = [] })
    run_until_empty (some ts ∷ waits) s = elim (s.n_events == 0) [
      | true ↦ finished s
      | false ↦ elim (dispatch (length ts) 0 (record s { triggered_events = ts })) [
        | none ↦ crashed
        | some s' ↦ run_until_empty waits s'
      ]
    ]

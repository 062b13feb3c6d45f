-- ===== src/Epoll/Event.antt =====
-- `class EpollEvent`: an eventfd on an event loop. What the system calls return is an argument; the
-- descriptors that are closed are part of the result.
use marine_robotics_hil_sea.Base.{ℕ, Bool, true, false, Option, none, some, List, [], ◌∷◌, ◌==◌}
use marine_robotics_hil_sea.Base.Int.{ℤ, pos, negsuc}
use marine_robotics_hil_sea.Epoll.Defs.{EventLoop, register_event, deregister_event}

pub record EpollEvent : Type 0 where
  pub fd : ℤ
  pub evt : Option ℕ

-- What a call of `init` or `deinit` leaves, the descriptors that it closed, and its result.
pub record EventResult (C : Type 0) : Type 0 where
  pub event : EpollEvent
  pub loop : EventLoop C
  pub closed : List ℤ
  pub succeeded : Bool

module _ {C : Type 0} where
  -- `created` is what eventfd returns, `none` for an error.
  unfoldable pub event_init : Option ℕ → Bool → C → EpollEvent → EventLoop C → EventResult C
  event_init none added on_trigger e s = record {
    event = record e { fd = negsuc 0 };
    loop = s;
    closed = [];
    succeeded = false;
  }
  event_init (some fd) added on_trigger e s =
      let (s', p) = register_event added fd on_trigger s in
      elim p [
        | none ↦ record {
          event = record e { fd = pos fd };
          loop = s';
          closed = pos fd ∷ [];
          succeeded = false;
        }
        | some q ↦ record {
          event = record { fd = pos fd; evt = some q };
          loop = s';
          closed = [];
          succeeded = true;
        }
      ]

  -- The result of `deregister_event` is ignored; `none` is its crash.
  unfoldable pub event_deinit : Bool → EpollEvent → EventLoop C → Option (EventResult C)
  event_deinit removed e s = elim (deregister_event removed e.evt s) [
    | none ↦ none
    | some (s', done) ↦ some (record {
      event = record e { fd = negsuc 0 };
      loop = s';
      closed = e.fd ∷ [];
      succeeded = true;
    })
  ]

-- `set`: whether `write` wrote the eight bytes, given what it returned, none for -1.
unfoldable pub event_set : Option ℕ → Bool
event_set none = false
event_set (some written) = written == 8

-- `on_trigger`: the callback runs if the eight bytes are read.
unfoldable pub on_trigger : {S : Type 0} → Bool → (ℕ → S → S) → ℕ → S → S
on_trigger false callback event_id s = s
on_trigger true callback event_id s = callback event_id s

-- ===== src/Socket/Defs.antt =====
-- `class SocketCanIntf`. What the system calls return is an argument; the descriptors that the code
-- closes are part of the state, the last one first.
use marine_robotics_hil_sea.Base.{
  ℕ, zero, suc, ◌+◌, Bool, true, false, not, ◌&&◌, Option, none, some, List, ◌∷◌, ltb,
  if◌then◌else◌,
}
use marine_robotics_hil_sea.Base.Int.{ℤ, pos, negsuc}
use marine_robotics_hil_sea.Epoll.{EventLoop, register_event, deregister_event}

-- Before the first `init` that succeeds the pointer is indeterminate: the field is any pointer.
pub record SocketCan : Type 0 where
  pub socket_id : ℤ
  pub socket_evt_id : Option ℕ
  pub broken : Bool

-- The socket with what it acts on: the event loop, the descriptors closed, and the state of the
-- client that the frame processor changes.
pub record Session (C S : Type 0) : Type 0 where
  pub socket : SocketCan
  pub loop : EventLoop C
  pub closed : List ℤ
  pub client : S

-- What `recvmsg` of a message without buffers returns in `init`: -1 with another errno than EAGAIN
-- and EWOULDBLOCK is `broken_pipe`.
pub data Probe : Type 0 where
  readable would_block broken_pipe : Probe

-- The system calls of `init`: the descriptor of the socket, and whether ioctl and bind succeed.
pub record Setup : Type 0 where
  pub created : Option ℕ
  pub index_found : Bool
  pub bound : Bool
  pub probe : Probe
  pub added : Bool

-- What `recvmsg` of a frame returns: -1, or a length with the frame.
pub data Received (M : Type 0) : Type 0 where
  nothing : Received M
  message : ℕ → M → Received M

-- The tests `mask & EPOLLIN`, `mask & EPOLLERR` and `mask & ~(EPOLLIN | EPOLLERR)`.
pub record EventMask : Type 0 where
  pub epollin : Bool
  pub epollerr : Bool
  pub other : Bool

-- `sizeof(struct can_frame)` of Linux
abbrev pub size_of_can_frame : ℕ
size_of_can_frame = 16

abbrev pub is_broken_pipe : Probe → Bool
is_broken_pipe Probe.broken_pipe = true
is_broken_pipe _ = false

-- `close(socket_id_)`, and the same with `socket_id_ = 0` after it.
abbrev pub close_socket : {C S : Type 0} → Session C S → Session C S
close_socket s = record s { closed = s.socket.socket_id ∷ s.closed }

abbrev pub close_and_clear : {C S : Type 0} → Session C S → Session C S
close_and_clear s = record s {
  closed = s.socket.socket_id ∷ s.closed;
  socket = record s.socket { socket_id = pos 0 };
}

module _ {C S : Type 0} where
  -- The registration at the end of `init`.
  unfoldable pub init_registered : EventLoop C × Option ℕ → Session C S → Session C S × Bool
  init_registered (loop, none) s = (close_and_clear (record s { loop = loop }), false)
  init_registered (loop, some evt) s =
      (record s { loop = loop; socket = record s.socket { socket_evt_id = some evt } }, true)

  -- The steps of `init` once the socket is created, in their order.
  unfoldable pub init_created : Setup → C → ℕ → Session C S → Session C S × Bool
  init_created c on_socket_event fd s =
      if not c.index_found
      then (close_socket s, false)
      else if not c.bound
      then (close_socket s, false)
      else if is_broken_pipe c.probe
      then (close_and_clear s, false)
      else init_registered (register_event c.added fd on_socket_event s.loop) s

  unfoldable pub init : Setup → C → Session C S → Session C S × Bool
  init c on_socket_event s = elim c.created [
    | none ↦ (record s { socket = record s.socket { socket_id = negsuc 0 } }, false)
    | some fd ↦
        init_created c on_socket_event fd
          (record s { socket = record s.socket { socket_id = pos fd } })
  ]

  abbrev pub finish_deinit : Session C S → Session C S
  finish_deinit s = record s {
    closed = s.socket.socket_id ∷ s.closed;
    socket = record s.socket { broken = true };
  }

  -- `removed` says whether epoll_ctl accepts; none is a crash of `deregister_event`.
  unfoldable pub deinit : Bool → Session C S → Option (Session C S)
  deinit removed s =
      if s.socket.broken
      then some (finish_deinit s)
      else elim (deregister_event removed s.socket.socket_evt_id s.loop) [
        | none ↦ none
        | some (loop, done) ↦ some (finish_deinit (record s { loop = loop }))
      ]

-- `write` returned `written`, none for -1: a short write counts as sent.
unfoldable pub send_can_frame : Option ℕ → Bool
send_can_frame none = false
send_can_frame (some written) = true

-- `on_socket_event` after the loop.
unfoldable pub finish_event : {C S : Type 0} → EventMask → Bool → Session C S → Option (Session C S)
finish_event mask removed s =
    if mask.epollerr then deinit removed s else if mask.other then deinit removed s else some s

module _ {M S : Type 0} (process : M → S → S) where
  unfoldable pub read_nonblocking : Received M → S → S × Bool
  read_nonblocking nothing client = (client, false)
  read_nonblocking (message n frame) client =
      (if ltb n size_of_can_frame then client else process frame client, true)

  -- `while (read_nonblocking() && !broken_)` on fuel, where the i-th call of recvmsg returns
  -- `received i`; none is out of fuel. The frame processor does not touch the socket.
  unfoldable pub drain : Bool → (ℕ → Received M) → ℕ → ℕ → S → Option S
  drain broken received zero i client = none
  drain broken received (suc fuel) i client =
      let (client', more) = read_nonblocking (received i) client in
      let rest = drain broken received fuel (i + 1) client' in
      if more && not broken then rest else some client'

  unfoldable pub on_socket_event :
      {C : Type 0} → ℕ → EventMask → (ℕ → Received M) → Bool → Session C S → Option (Session C S)
  on_socket_event fuel mask received removed s =
      if mask.epollin
      then elim (drain s.socket.broken received fuel 0 s.client) [
        | none ↦ none
        | some client ↦ finish_event mask removed (record s { client = client })
      ]
      else finish_event mask removed s

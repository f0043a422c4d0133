-- ===== src/Socket/Accept.antt =====
-- `accept_op` of epoll_socket.cpp. After `begin_accept` the operation is in the queue of the service, with the error code
-- that `post_operation` stored, or it waits for EPOLLIN; in the end it has called back.
pub mod Accepted
mod Tests
use jnet_lib.Base.{ℕ, ◌≡◌, Bool, true, false, not, ◌&&◌, if◌then◌else◌}
use jnet_lib.Errors.{ErrorCode, is_error}
use jnet_lib.Posix.{Fd}
use jnet_lib.Posix.Sockets.{Sockets}
use jnet_lib.Socket.{accept_socket}
use jnet_lib.Socket.Send.{would_block}

pub record AcceptOp : Type 0 where
  pub acceptor : Fd
  pub socket : Fd
  pub accepted : Bool

abbrev pub new_accept_op : Fd → Fd → AcceptOp
new_accept_op acceptor socket = record { acceptor = acceptor; socket = socket; accepted = false }

pub data Phase : Type 0 where
  posted : ErrorCode → Phase
  waiting : Phase
  finished : ErrorCode → Phase

module _ (os : Sockets) where
  open os use {State}

  pub record Accepting : Type 0 where
    pub state : State
    pub op : AcceptOp
    pub phase : Phase

  abbrev pub begun : AcceptOp → State × ErrorCode × Fd → Accepting
  begun op (st, ec, fd) =
      if would_block ec
      then record { state = st; op = record op { socket = fd; accepted = false }; phase = waiting }
      else record { state = st; op = record op { socket = fd; accepted = true }; phase = posted ec }

  pub begin_accept : State → AcceptOp → Accepting
  begin_accept st op = begun op (accept_socket os st op.acceptor op.socket)

  abbrev pub ended : AcceptOp → State × ErrorCode × Fd → Accepting
  ended op (st, ec, fd) = record { state = st; op = record op { socket = fd }; phase = finished ec }

  pub on_complete : State → AcceptOp → ErrorCode → Accepting
  on_complete st op ec =
      if not (is_error ec) && not op.accepted
      then ended op (accept_socket os st op.acceptor op.socket)
      else ended op (st, ec, op.socket)

  -- The service completes what was posted, an event comes with an error or without one, and others change the system.
  pub data Steps (st : State) (op : AcceptOp) : Accepting → Type 0 where
    start : Steps st op (begin_accept st op)
    completes :
        {t : Accepting} (ec : ErrorCode)
        → Steps st op t
        → t.phase ≡ posted ec
        → Steps st op (on_complete t.state t.op ec)
    event :
        {t : Accepting} (ec : ErrorCode)
        → Steps st op t
        → t.phase ≡ waiting
        → Steps st op (on_complete t.state t.op ec)
    elapses : {t : Accepting} (st' : State) → Steps st op t → Steps st op (record t { state = st' })

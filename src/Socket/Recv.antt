-- ===== src/Socket/Recv.antt =====
-- `recv_op` of epoll_socket.cpp. After `begin_recv` the operation is in the queue of the service, with what
-- `post_operation` stored into it, or it waits for EPOLLIN, or `on_post` is to call back at once; in the end
-- it has called back.
pub mod Bytes
pub mod Eof
mod Tests
use jnet_lib.Base.{
  ℕ, ◌+◌, ◌%◌, ◌^◌, ◌≡◌, Bool, true, false, not, ◌&&◌, ◌||◌, List, [], write_at, ltb, ◌==◌,
  if◌then◌else◌,
}
use jnet_lib.Errors.{ErrorCode, no_error, frame_error, is_error}
use jnet_lib.Errors.Code
use jnet_lib.Buffer.{MutableBuffer, append, remain}
use jnet_lib.Posix.{Fd}
use jnet_lib.Posix.Sockets.{Sockets}
use jnet_lib.Socket.Calls.{recv}
use jnet_lib.Socket.Send.{would_block}

abbrev pub epollrdhup : ℕ
epollrdhup = 0x2000

-- `memory` is what the caller's buffer holds; `received` is `recv_`.
pub record RecvOp : Type 0 where
  pub fd : Fd
  pub buffer : MutableBuffer
  pub memory : List ℕ
  pub some : Bool
  pub received : Bool

pub data Phase : Type 0 where
  posted : ErrorCode → ℕ → Phase
  empty : Phase
  waiting : Phase
  finished : ErrorCode → ℕ → Phase

-- `asyn_recv` and, with `some`, `asyn_recv_some`.
abbrev pub asyn_recv : Fd → List ℕ → ℕ → Bool → RecvOp
asyn_recv fd memory len some = record {
  fd = fd;
  buffer = record { raw_pos = 0; size = len; len = 0 };
  memory = memory;
  some = some;
  received = false;
}

-- The error code after the second test of `on_complete`.
pub or_eof : ErrorCode → ℕ → RecvOp → ErrorCode
or_eof ec n op =
    if not (is_error ec) && ((n == 0) && ltb 0 (remain op.buffer)) then frame_error Code.eof else ec

-- EPOLLRDHUP alone is no error: what the other side sent is still there.
abbrev pub event_error : ErrorCode → ℕ → ErrorCode
event_error ec flags =
    if (ec.value == Code.epoll_flag) && (flags == epollrdhup) then record ec { value = 0 } else ec

module _ (os : Sockets) where
  open os use {State}

  pub record Receiving : Type 0 where
    pub state : State
    pub op : RecvOp
    pub phase : Phase

  -- `socket_ops::recv` of what remains, whose length is an `unsigned int`, into the caller's memory.
  pub recv_part : State → RecvOp → State × ErrorCode × ℕ × RecvOp
  recv_part st op =
      let (st', ec, n, bs) = recv os st op.fd (remain op.buffer % 2 ^ 32) in
      (st', ec, n, record op { memory = write_at op.memory op.buffer.raw_pos bs })

  abbrev pub begun : State × ErrorCode × ℕ × RecvOp → Receiving
  begun (st, ec, n, op) =
      if would_block ec
      then record { state = st; op = record op { received = false }; phase = waiting }
      else record { state = st; op = record op { received = true }; phase = posted ec n }

  pub begin_recv : State → RecvOp → Receiving
  begin_recv st op =
      if remain op.buffer == 0
      then record { state = st; op = op; phase = empty }
      else begun (recv_part st op)

  -- The rest of `on_complete`. It waits by `socket_ops::begin_recv`, which leaves `recv_` as it is.
  pub settle : ErrorCode → ℕ → State → RecvOp → Receiving
  settle ec n st op =
      let op' = record op { buffer = append op.buffer n } in
      if not (is_error ec)
      then if not op.some && ltb 0 (remain op'.buffer)
        then record { state = st; op = op'; phase = waiting }
        else record { state = st; op = op'; phase = finished ec op'.buffer.len }
      else if would_block ec
      then record { state = st; op = op; phase = waiting }
      else record { state = st; op = op; phase = finished ec op.buffer.len }

  -- `on_complete` after its own `recv`, if it made one.
  pub received_then : State × ErrorCode × ℕ × RecvOp → Receiving
  received_then (st, ec, n, op) = settle (or_eof ec n op) n st op

  pub on_complete : State → RecvOp → ErrorCode → ℕ → ℕ → Receiving
  on_complete st op ec_ flags bytes =
      let ec = event_error ec_ flags in
      if not (is_error ec) && (not (remain op.buffer % 2 ^ 32 == 0) && not op.received)
      then received_then (recv_part st op)
      else received_then (st, ec, bytes, op)

  -- What the service does with the operation, and what others do to the system meanwhile: `log`
  -- is what came in through the socket.
  pub data Step (log : State → Fd → List ℕ) (t t' : Receiving) : Type 0 where
    completes :
        (ec : ErrorCode) (n : ℕ)
        → t.phase ≡ posted ec n
        → t' ≡ on_complete t.state t.op ec 0 n
        → Step log t t'
    event :
        (ec : ErrorCode) (flags : ℕ)
        → t.phase ≡ waiting
        → t' ≡ on_complete t.state t.op ec flags 0
        → Step log t t'
    posts : t.phase ≡ empty → t' ≡ record t { phase = finished no_error 0 } → Step log t t'
    elapses :
        (st : State)
        → log st t.op.fd ≡ log t.state t.op.fd
        → t' ≡ record t { state = st }
        → Step log t t'

  pub data Steps (log : State → Fd → List ℕ) (t : Receiving) : Receiving → Type 0 where
    here : Steps log t t
    next : {u v : Receiving} → Steps log t u → Step log u v → Steps log t v

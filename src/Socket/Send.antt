-- ===== src/Socket/Send.antt =====
-- `send_op` of epoll_socket.cpp. After `begin_send` the operation is in the queue of the service, with what
-- `post_operation` stored into it, or it waits for EPOLLOUT; in the end it has called back.
pub mod Bytes
mod Tests
use jnet_lib.Base.{
  ℕ, ◌+◌, ◌*◌, ◌%◌, ◌^◌, ◌≡◌, Bool, true, false, not, ◌&&◌, ◌||◌, List, [], take, drop, ltb, ◌==◌,
  if◌then◌else◌,
}
use jnet_lib.Errors.{ErrorCode, is_error}
use jnet_lib.Buffer.{ConstBuffer, consume}
use jnet_lib.Posix.{Fd}
use jnet_lib.Posix.Errno
use jnet_lib.Posix.Sockets.{Sockets}
use jnet_lib.Socket.Calls.{send}

abbrev pub max_send_buffer_size : ℕ
max_send_buffer_size = 64 * 1024

-- `memory` is what the caller wants sent; `raw` of the buffer counts from its start.
pub record SendOp : Type 0 where
  pub fd : Fd
  pub buffer : ConstBuffer
  pub memory : List ℕ
  pub sent : Bool

pub data Phase : Type 0 where
  posted : ErrorCode → ℕ → Phase
  waiting : Phase
  finished : ErrorCode → ℕ → Phase

abbrev pub asyn_send : Fd → List ℕ → ℕ → SendOp
asyn_send fd memory len = record {
  fd = fd;
  buffer = record { raw = 0; len = len };
  memory = memory;
  sent = false;
}

-- `EAGAIN` or `EINPROGRESS`
abbrev pub would_block : ErrorCode → Bool
would_block ec = (ec.value == Errno.again) || (ec.value == Errno.in_progress)

-- The length that is passed to `send`, an `unsigned int`.
abbrev pub part : ℕ → ℕ
part len = let n = len % 2 ^ 32 in if ltb max_send_buffer_size n then max_send_buffer_size else n

module _ (os : Sockets) where
  open os use {State}

  pub record Sending : Type 0 where
    pub state : State
    pub op : SendOp
    pub phase : Phase

  -- `socket_ops::send` of the next part.
  pub send_part : State → SendOp → State × ErrorCode × ℕ
  send_part st op = send os st op.fd (take (part op.buffer.len) (drop op.buffer.raw op.memory))

  abbrev pub begun : SendOp → State × ErrorCode × ℕ → Sending
  begun op (st, ec, n) =
      if would_block ec
      then record { state = st; op = record op { sent = false }; phase = waiting }
      else record { state = st; op = record op { sent = true }; phase = posted ec n }

  pub begin_send : State → SendOp → Sending
  begin_send st op = begun op (send_part st op)

  -- `on_complete` after its own `send`, if it made one.
  pub sent_then : SendOp → State × ErrorCode × ℕ → Sending
  sent_then op (st, ec, n) =
      let op' = record op { buffer = consume op.buffer n } in
      if not (is_error ec)
      then if op'.buffer.len == 0
        then record { state = st; op = op'; phase = finished ec op'.buffer.raw }
        else begin_send st op'
      else if would_block ec
      then begin_send st op
      else record { state = st; op = op; phase = finished ec op.buffer.raw }

  pub on_complete : State → SendOp → ErrorCode → ℕ → Sending
  on_complete st op ec bytes =
      if not (is_error ec) && (not (op.buffer.len % 2 ^ 32 == 0) && not op.sent)
      then sent_then op (send_part st op)
      else sent_then op (st, ec, bytes)

  -- What the service does with the operation, and what others do to the system meanwhile: `log`
  -- is what went out through the socket.
  pub data Step (log : State → Fd → List ℕ) (t t' : Sending) : Type 0 where
    completes :
        (ec : ErrorCode) (n : ℕ)
        → t.phase ≡ posted ec n
        → t' ≡ on_complete t.state t.op ec n
        → Step log t t'
    event :
        (ec : ErrorCode) → t.phase ≡ waiting → t' ≡ on_complete t.state t.op ec 0 → Step log t t'
    elapses :
        (st : State)
        → log st t.op.fd ≡ log t.state t.op.fd
        → t' ≡ record t { state = st }
        → Step log t t'

  pub data Steps (log : State → Fd → List ℕ) (t : Sending) : Sending → Type 0 where
    here : Steps log t t
    next : {u v : Sending} → Steps log t u → Step log u v → Steps log t v

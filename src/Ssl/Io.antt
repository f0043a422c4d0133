-- ===== src/Ssl/Io.antt =====
-- `ssl_base_op` of ssl_socket.cpp and the operations of ssl_socket.h: a call of the engine is repeated, with what it
-- wants sent or received in between, until it is done.
pub mod Flow
pub mod Count
mod Tests
use jnet_lib.Base.{
  ℕ, zero, suc, ◌+◌, ◌-◌, ◌*◌, ◌^◌, Bool, true, false, not, ◌&&◌, ◌||◌, Option, none, some, List,
  [], ◌∷◌, ◌++◌, length, take, drop, write_at, ltb, leb, ◌==◌, if◌then◌else◌,
}
use jnet_lib.Errors.{ErrorCode, no_error, is_error}
use jnet_lib.Buffer.{ConstBuffer, consume, MutableBuffer, append, remain, size_sub}
use jnet_lib.Ssl.{
  OpenSsl, Want, want_input_and_retry, want_output_and_retry, want_nothing, want_output, do_accept,
  do_connect, do_read, do_write, Performed, perform, engine_shutdown, get_output, put_input,
  map_error_code,
}

abbrev pub ssl_buffer_size : ℕ
ssl_buffer_size = 16 * 1024

-- `memory` is the caller's; `client` is `type_ == ssl::client`.
pub data SslOp : Type 0 where
  handshake : (client : Bool) → SslOp
  send : (buffer : ConstBuffer) → (memory : List ℕ) → SslOp
  recv : (some_ : Bool) → (buffer : MutableBuffer) → (memory : List ℕ) → SslOp
  shutdown : SslOp

abbrev pub asyn_send : List ℕ → ℕ → SslOp
asyn_send memory len = send (record { raw = 0; len = len }) memory

abbrev pub asyn_recv : Bool → List ℕ → ℕ → SslOp
asyn_recv some_ memory len = recv some_ (record { raw_pos = 0; size = len; len = 0 }) memory

module _ (os : OpenSsl) where
  open os use {State}

  -- An operation, with what its `ssl_socket` holds; `input` is the first part of `input_buffer_`, of
  -- `input_buffer_len_` bytes.
  pub record Io : Type 0 where
    pub engine : State
    pub input : List ℕ
    pub input_flag : Bool
    pub output_flag : Bool
    pub op : SslOp
    pub want : Want
    pub ec : ErrorCode
    pub bytes_transferred : ℕ

  pub new_io : State → List ℕ → SslOp → Want → Io
  new_io s input op want = record {
    engine = s;
    input = input;
    input_flag = false;
    output_flag = false;
    op = op;
    want = want;
    ec = no_error;
    bytes_transferred = 0;
  }

  -- The result of the engine, and the operation after it.
  abbrev pub with_result : Io → Performed os → ℕ → SslOp → Io
  with_result io r n op = record io {
    engine = r.state;
    want = r.want;
    ec = r.ec;
    bytes_transferred = n;
    op = op;
  }

  abbrev pub advances : Performed os → Bool
  advances r = not (is_error r.ec) && ltb 0 r.bytes

  -- `handshake_op`, `send_op`, `receive_op` and `shutdown_op`.
  abbrev pub call_op : SslOp → Io → Io
  call_op (handshake client) io =
      with_result io (perform os (if client then do_connect else do_accept) io.engine 0)
        io.bytes_transferred (handshake client)
  call_op (send b memory) io =
      let r =
        perform os (do_write (take b.len (drop b.raw memory)) b.len) io.engine
          io.bytes_transferred in
      with_result io r r.bytes (send (if advances r then consume b r.bytes else b) memory)
  call_op (recv some_ b memory) io =
      let r = perform os (do_read (remain b)) io.engine io.bytes_transferred in
      with_result io r r.bytes (
        recv some_ (if advances r then append b r.bytes else b)
          (write_at memory b.raw_pos r.stored))
  call_op shutdown io =
      with_result io (engine_shutdown os io.engine 0) io.bytes_transferred shutdown

  -- The operation receives so many bytes at most, sends, is posted to the service, is completed; it
  -- waits for nothing; an assertion fails; it moves bytes that are outside of the buffer; or the
  -- loop has no fuel left.
  pub data Phase : Type 0 where
    receiving : Io → ℕ → Phase
    sending : Io → List ℕ → Phase
    posted : Io → Phase
    completed : Io → ErrorCode → ℕ → Phase
    stalled : Io → Phase
    still_receiving : Phase
    still_sending : Phase
    overrun : Phase
    spinning : Phase

  -- What the engine takes goes away from the front of the input.
  pub feed : Io → Option Io
  feed io =
      let (s, n) = put_input os io.engine io.input in
      if leb n (length io.input)
      then some (record io { engine = s; input = drop n io.input })
      else none

  abbrev pub failed : Io → Phase
  failed io = completed io (map_error_code os io.engine io.ec) 0

  abbrev pub finished : Io → Phase
  finished io =
      let ec = map_error_code os io.engine io.ec in
      completed (record io { ec = ec }) ec (if is_error ec then 0 else io.bytes_transferred)

  -- The end of the body of the loop, and its test.
  abbrev pub retry : (Io → Phase) → Io → Phase
  retry loop io = if is_error io.ec then failed io else loop io

  abbrev pub retry_fed : (Io → Phase) → Option Io → Phase
  retry_fed loop none = overrun
  retry_fed loop (some io) = retry loop io

  abbrev pub begin_receive : Io → Phase
  begin_receive io =
      if io.input_flag
      then still_receiving
      else receiving (record io { input_flag = true }) (size_sub ssl_buffer_size (length io.input))

  abbrev pub begin_send : Io → Phase
  begin_send io =
      let (s, n, bs) = get_output os io.engine ssl_buffer_size in
      if io.output_flag
      then still_sending
      else if ltb 0 n
      then sending (record io { engine = s; output_flag = true }) bs
      else stalled (record io { engine = s })

  -- The error of the callback counts if there was none before.
  abbrev pub with_error : ErrorCode → ℕ → Io → Io
  with_error ec n io =
      if not (n == 2 ^ 64 - 1) && not (is_error io.ec) then record io { ec = ec } else io

  abbrev pub input_wanted : (Io → Phase) → List ℕ → Io → Phase
  input_wanted loop [] io = begin_receive io
  input_wanted loop (_ ∷ _) io = retry_fed loop (feed io)

  -- The branches by what the engine wants.
  abbrev pub wanted : (Io → Phase) → (start : Bool) → ErrorCode → ℕ → Want → Io → Phase
  wanted loop start ec n want_input_and_retry io = input_wanted loop io.input io
  wanted loop start ec n want_output_and_retry io = begin_send io
  wanted loop start ec n want_output io = begin_send io
  wanted loop start ec n want_nothing io =
      if start then posted io else finished (with_error ec n io)

  -- The body of the loop, from the call of `op_` on.
  pub turn : ℕ → (start : Bool) → ErrorCode → ℕ → Io → Phase
  turn zero start ec n io = spinning
  turn (suc fuel) start ec n io_ =
      let io = call_op io_.op io_ in wanted (turn fuel start ec n) start ec n io.want io

  -- The branches of an output that was sent: the next part of it, or the end.
  abbrev pub sent_then : (Io → Phase) → Io → Phase
  sent_then next io =
      let (s, n, bs) = get_output os io.engine ssl_buffer_size in
      if ltb 0 n
      then sending (record io { engine = s }) bs
      else next (record io { engine = s; output_flag = false })

  abbrev pub resume_wanted : (Io → Phase) → Want → Io → Phase
  resume_wanted loop want_input_and_retry io =
      retry_fed loop (feed (record io { input_flag = false }))
  resume_wanted loop want_output_and_retry io = sent_then (retry loop) io
  resume_wanted loop want_output io = sent_then finished io
  resume_wanted loop want_nothing io = finished io

  -- `io_operation` in a callback.
  pub resume : ℕ → ErrorCode → ℕ → Io → Phase
  resume fuel ec n io_ =
      let io = with_error ec n io_ in resume_wanted (turn fuel false ec n) io.want io

  abbrev pub do_ssl_operation : ℕ → Io → Phase
  do_ssl_operation fuel io = turn fuel true no_error 0 io

  abbrev pub receive_callback : ℕ → Io → ErrorCode → List ℕ → Phase
  receive_callback fuel io ec bs = resume fuel ec (length bs) (record io { input = io.input ++ bs })

  abbrev pub send_callback : ℕ → Io → ErrorCode → ℕ → Phase
  send_callback fuel io ec n = resume fuel ec n io

  abbrev pub post_callback : Io → Phase
  post_callback io = completed io io.ec io.bytes_transferred

  -- `on_complete` of the four operations.
  pub data Next : Type 0 where
    again : Phase → Next
    called : SslOp → ErrorCode → ℕ → Next

  pub on_complete : ℕ → SslOp → Io → ErrorCode → Next
  on_complete fuel (handshake client) io ec = called (handshake client) ec 0
  on_complete fuel (send b memory) io ec =
      if not (is_error ec) && not (b.len == 0)
      then again (do_ssl_operation fuel io)
      else called (send b memory) ec b.raw
  on_complete fuel (recv some_ b memory) io ec =
      if not (is_error ec) && (not some_ && not (remain b == 0))
      then again (do_ssl_operation fuel io)
      else called (recv some_ b memory) ec b.len
  on_complete fuel shutdown io ec =
      called shutdown (if ec.value == os.short_read then record ec { value = 0 } else ec) 0

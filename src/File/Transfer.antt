-- ===== src/File/Transfer.antt =====
-- `read_op` and `write_op` of epoll_file.cpp: a transfer of a whole buffer in parts of 64 KiB at most.
-- The file thread runs `do_read` or `do_write`, the service then runs `on_complete`, which asks for
-- the next part or calls back; `read_all` and `write_all` are these rounds in turn, on fuel. `again` is
-- `reset` and `begin_read`, `finish` is the callback with its error and count, and `delete op`.
pub mod Read
pub mod Write
mod Tests
use jnet_lib.Base.{
  ℕ, zero, suc, ◌+◌, ◌-◌, ◌*◌, ◌≡◌, Option, none, some, List, [], true, false, take, drop, write_at,
  ltb, ◌==◌, ◌&&◌, if◌then◌else◌,
}
use jnet_lib.Errors.{ErrorCode, no_error, frame_error, is_error}
use jnet_lib.Errors.Code
use jnet_lib.Buffer.{ConstBuffer, MutableBuffer, consume, append, remain}
use jnet_lib.Posix.{Fd, Files}
use jnet_lib.File.Calls.{read_file, write_file}

abbrev pub max_buffer_size : ℕ
max_buffer_size = 64 * 1024

abbrev pub epollrdhup : ℕ
epollrdhup = 0x2000

-- `memory` is what the caller's buffer holds.
pub record ReadOp : Type 0 where
  pub fd : Fd
  pub buffer : MutableBuffer
  pub memory : List ℕ
  pub epoll_flags : ℕ

-- `memory` is what the caller wants written.
pub record WriteOp : Type 0 where
  pub fd : Fd
  pub buffer : ConstBuffer
  pub memory : List ℕ

pub data Next (Op : Type 0) : Type 0 where
  again : Op → Next Op
  finish : ErrorCode → ℕ → Op → Next Op

-- `asyn_read` and `asyn_write` of `file`: the constructors of the operations.
pub asyn_read : Fd → List ℕ → ℕ → ReadOp
asyn_read fd memory len = record {
  fd = fd;
  buffer = record { raw_pos = 0; size = len; len = 0 };
  memory = memory;
  epoll_flags = 0;
}

pub asyn_write : Fd → List ℕ → ℕ → WriteOp
asyn_write fd memory len = record {
  fd = fd;
  buffer = record { raw = 0; len = len };
  memory = memory;
}

abbrev pub part : ℕ → ℕ
part len = if ltb max_buffer_size len then max_buffer_size else len

-- The error code after the two tests at the head of `read_op::on_complete`.
pub read_error : ReadOp → ErrorCode → ℕ → ErrorCode
read_error op ec bytes =
    let ec' =
      if (ec.value == Code.epoll_flag) && (op.epoll_flags == epollrdhup)
      then record ec { value = 0 }
      else ec in
    if is_error ec'
    then ec'
    else if (bytes == 0) && ltb 0 (remain op.buffer)
    then frame_error Code.eof
    else ec'

pub read_complete : ReadOp → ErrorCode → ℕ → Next ReadOp
unfolding read_error
read_complete op ec_ bytes =
    let ec = read_error op ec_ bytes in
    let op' = record op { buffer = append op.buffer bytes } in
    if is_error ec
    then finish ec op.buffer.len op
    else if ltb 0 (remain op'.buffer)
    then again (record op' { epoll_flags = 0 })
    else finish ec op'.buffer.len op'

pub write_complete : WriteOp → ErrorCode → ℕ → Next WriteOp
write_complete op ec bytes =
    let op' = record op { buffer = consume op.buffer bytes } in
    if is_error ec
    then finish ec op.buffer.raw op
    else if ltb 0 op'.buffer.len
    then again op'
    else finish ec op'.buffer.raw op'

module _ (os : Files) where
  open os use {State}

  pub do_read : State → ReadOp → State × ErrorCode × ℕ × ReadOp
  do_read st op =
      let len = part (remain op.buffer) in
      let (st', ec, n, bs) = read_file os st op.fd len in
      if ltb 0 len
      then (st', ec, n, record op { memory = write_at op.memory op.buffer.raw_pos bs })
      else (st, no_error, 0, op)

  pub do_write : State → WriteOp → State × ErrorCode × ℕ
  do_write st op =
      let len = part op.buffer.len in
      let (st', ec, n) = write_file os st op.fd (take len (drop op.buffer.raw op.memory)) in
      if ltb 0 len then (st', ec, n) else (st, no_error, 0)

  -- The end of an operation: the state of the system, and what the callback is given.
  pub record Ended (Op : Type 0) : Type 0 where
    pub state : State
    pub ec : ErrorCode
    pub count : ℕ
    pub op : Op

  -- After `on_complete`: the next round, `resume`, or the end.
  abbrev after :
      {Op : Type 0} → (State → Op → Option (Ended Op)) → State → Next Op → Option (Ended Op)
  after resume st (again op) = resume st op
  after resume st (finish ec n op) = some (record { state = st; ec = ec; count = n; op = op })

  pub read_all : ℕ → State → ReadOp → Option (Ended ReadOp)
  read_all zero st op = none
  read_all (suc fuel) st op =
      let (st', ec, n, op') = do_read st op in after (read_all fuel) st' (read_complete op' ec n)

  pub write_all : ℕ → State → WriteOp → Option (Ended WriteOp)
  write_all zero st op = none
  write_all (suc fuel) st op =
      let (st', ec, n) = do_write st op in after (write_all fuel) st' (write_complete op ec n)

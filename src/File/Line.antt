-- ===== src/File/Line.antt =====
-- `read_line_op` of epoll_file.cpp. The file thread runs `do_read`; `on_complete` looks for the end of line in
-- what was read, gives back what it does not need, and calls back or asks for the next part.
pub mod Split
mod Tests
use jnet_lib.Base.{
  ℕ, ◌+◌, ◌-◌, ◌%◌, ◌^◌, ◌≡◌, Bool, true, false, not, ◌&&◌, ◌||◌, Option, none, some, List, length,
  take, drop, write_at, ltb, ◌==◌, if◌then◌else◌,
}
use jnet_lib.Base.Int.{ℤ}
use jnet_lib.Errors.{ErrorCode, no_error, frame_error, is_error}
use jnet_lib.Errors.Code
use jnet_lib.Buffer.{size_add, size_sub}
use jnet_lib.Posix.{Fd, Files}
use jnet_lib.File.Calls.{read_file, seek, seek_cur}
use jnet_lib.File.Control.{to_seek}
use jnet_lib.File.Kmp.{find_eol}
use jnet_lib.File.Transfer.{Next, again, finish, part, max_buffer_size, epollrdhup}

-- `memory` is what the caller's buffer holds, from `buffer_` on; `buffer_pos` counts from there.
pub record LineOp : Type 0 where
  pub fd : Fd
  pub memory : List ℕ
  pub buffer_pos : ℕ
  pub remain_length : ℕ
  pub eol : List ℕ
  pub inc_eol : Bool
  pub epoll_flags : ℕ

abbrev pub asyn_read_line : Fd → List ℕ → ℕ → List ℕ → Bool → LineOp
asyn_read_line fd memory len eol inc_eol = record {
  fd = fd;
  memory = memory;
  buffer_pos = 0;
  remain_length = len;
  eol = eol;
  inc_eol = inc_eol;
  epoll_flags = 0;
}

-- The error code after the two tests at the head of `on_complete`.
unfoldable pub line_error : LineOp → ErrorCode → ℕ → ErrorCode
line_error op ec_ bytes =
    let ec =
      if (ec_.value == Code.epoll_flag) && (op.epoll_flags == epollrdhup)
      then record ec_ { value = 0 }
      else ec_ in
    if not (is_error ec) && ((bytes == 0) && ltb 0 op.remain_length)
    then frame_error Code.eof
    else ec

-- The position and the length after `bytes` bytes.
abbrev pub advance : LineOp → ℕ → LineOp
advance op bytes = record op {
  buffer_pos = size_add op.buffer_pos bytes;
  remain_length = size_sub op.remain_length bytes;
}

-- What the callback reports when the end of line was found.
abbrev pub line_length : LineOp → ℕ
line_length op = size_sub op.buffer_pos (if op.inc_eol then 0 else length op.eol)

-- The three cases at the end of `on_complete`, for the operation with its new position: `found` is the
-- place of the end of line, `bytes` what the position was moved by.
unfoldable pub line_next : LineOp → ErrorCode → (found bytes : ℕ) → Next LineOp
line_next op ec found bytes =
    if ltb found bytes
    then finish ec (line_length op) op
    else if (op.remain_length == 0)
        || (not (bytes == max_buffer_size) && not (op.remain_length == 0))
    then finish (frame_error Code.eof) op.buffer_pos op
    else again (record op { epoll_flags = 0 })

-- The position, and the rest of `on_complete`.
abbrev pub line_then : LineOp → ErrorCode → (found bytes : ℕ) → Next LineOp
line_then op ec found bytes = line_next (advance op bytes) ec found bytes

module _ (os : Files) where
  open os use {State}

  pub do_read : State → LineOp → State × ErrorCode × ℕ × LineOp
  do_read st op =
      let len = part op.remain_length in
      let (st', ec, n, bs) = read_file os st op.fd len in
      if ltb 0 len
      then (st', ec, n, record op { memory = write_at op.memory op.buffer_pos bs })
      else (st, no_error, 0, op)

  -- The call of `seek`, whose result is not looked at, and the rest.
  unfoldable pub give_back : State → LineOp → ErrorCode → ℕ → ℕ × ℕ → State × Next LineOp
  give_back st op ec bytes (found, last) =
      if ltb found bytes
      then (
        (seek os st op.fd (to_seek (size_sub (size_add found (length op.eol)) bytes)) seek_cur).0,
        line_then op ec found (size_add found (length op.eol)),
      )
      else (
        (seek os st op.fd (to_seek (size_sub 0 last)) seek_cur).0,
        line_then op ec found (size_sub bytes last),
      )

  abbrev pub settled :
      State → LineOp → ErrorCode → ℕ → Option (ℕ × ℕ) → Option (State × Next LineOp)
  settled st op ec bytes none = none
  settled st op ec bytes (some r) = some (give_back st op ec bytes r)

  -- `block` is what `malloc` returns in `build_kmp_table`; `none` as in File.Kmp.
  unfoldable pub on_complete :
      List ℤ → State → LineOp → ErrorCode → ℕ → Option (State × Next LineOp)
  unfolding line_error give_back
  on_complete block st op ec_ bytes =
      let ec = line_error op ec_ bytes in
      if is_error ec || (bytes == 0)
      then some (st, finish ec op.buffer_pos op)
      else settled st op ec bytes
          (find_eol op.eol block (take bytes (drop op.buffer_pos op.memory)) 0)

-- ===== src/Iocp/Line.antt =====
-- `read_line_op` of iocp_file.cpp. Its `find_eol` and `build_kmp_table` have the text of those of epoll_file.cpp, which
-- File.Kmp models. A read on Windows is at an offset and does not move the file, so that `on_complete` moves it by what it
-- takes; and it starts the operation again as it is, without `reset`.
pub mod Same
pub mod Twice
mod Tests
use jnet_lib.Base.{
  ℕ, ◌+◌, ◌-◌, ◌%◌, ◌^◌, ◌≡◌, Bool, true, false, not, ◌&&◌, ◌||◌, Option, none, some, List, [], ◌∷◌,
  ◌++◌, length, take, drop, update, ltb, ◌==◌, if◌then◌else◌,
}
use jnet_lib.Base.Int.{ℤ}
use jnet_lib.Errors.{ErrorCode, no_error, frame_error, is_error}
use jnet_lib.Errors.Code
use jnet_lib.Buffer.{size_add, size_sub}
use jnet_lib.File.Kmp.{find_eol}
use jnet_lib.File.Transfer.{Next, again, finish, max_buffer_size}
use jnet_lib.Iocp.{Service, Result, work_started, started}

-- `memory` is what the caller's buffer holds, from `buffer_` on; `buffer_pos` counts from there.
pub record LineOp : Type 0 where
  pub memory : List ℕ
  pub buffer_pos : ℕ
  pub remain_length : ℕ
  pub eol : List ℕ
  pub inc_eol : Bool

abbrev pub asyn_read_line : List ℕ → ℕ → List ℕ → Bool → LineOp
asyn_read_line memory len eol inc_eol = record {
  memory = memory;
  buffer_pos = 0;
  remain_length = len;
  eol = eol;
  inc_eol = inc_eol;
}

abbrev pub error_handle_eof : ℕ
error_handle_eof = 38

-- The error code of the callback after a read that failed or gave nothing.
pub end_error : ErrorCode → ErrorCode
end_error ec = if ec.value == error_handle_eof then frame_error Code.eof else ec

-- What the position and the file are moved by, after `find_eol`.
pub taken_bytes : LineOp → (bytes found last : ℕ) → ℕ
taken_bytes op bytes found last =
    if ltb found bytes then size_add found (length op.eol) else size_sub bytes last

abbrev pub advance : LineOp → ℕ → LineOp
advance op bytes = record op {
  buffer_pos = size_add op.buffer_pos bytes;
  remain_length = size_sub op.remain_length bytes;
}

abbrev pub line_length : LineOp → ℕ
line_length op = size_sub op.buffer_pos (if op.inc_eol then 0 else length op.eol)

-- The three cases at the end of `on_complete`, as in File.Line.
pub line_next : LineOp → ErrorCode → (found bytes : ℕ) → Next LineOp
line_next op ec found bytes =
    if ltb found bytes
    then finish ec (line_length op) op
    else if (op.remain_length == 0)
        || (not (bytes == max_buffer_size) && not (op.remain_length == 0))
    then finish (frame_error Code.eof) op.buffer_pos op
    else again op

-- With the distance of its `seek`, whose result is not looked at.
abbrev pub line_then : LineOp → ErrorCode → (found bytes : ℕ) → ℕ × Next LineOp
line_then op ec found bytes = (bytes, line_next (advance op bytes) ec found bytes)

abbrev pub searched : LineOp → ErrorCode → ℕ → Option (ℕ × ℕ) → Option (ℕ × Next LineOp)
searched op ec bytes none = none
searched op ec bytes (some r) = some (line_then op ec r.0 (taken_bytes op bytes r.0 r.1))

-- `block` and `none` as in File.Kmp.
pub on_complete : List ℤ → LineOp → ErrorCode → ℕ → Option (ℕ × Next LineOp)
on_complete block op ec bytes =
    if is_error ec || (bytes == 0)
    then some (0, finish (end_error ec) op.buffer_pos op)
    else searched op ec bytes (find_eol op.eol block (take bytes (drop op.buffer_pos op.memory)) 0)

-- What the service makes of `file_ops::read` in `on_complete`: it is `begin_overlapped` for an operation that was not reset. The offset
-- of the read and the kernel overwrite the OVERLAPPED structure, which then holds `left`.
pub read_again : ℕ → Result → (left : Result) → Service → Service
read_again k r left s =
    let s' = work_started (record (started k r s) { stored = update s.stored k left }) in
    record s' { accepted = update s.accepted k true; starting = update s.starting k true }

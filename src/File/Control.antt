-- ===== src/File/Control.antt =====
-- `iocp::file` and the functions of `file_ops` that it calls (epoll_file.h and epoll_file.cpp): opening,
-- closing and moving about. The system, the descriptor and the error code go in and out; an
-- argument by reference or pointer that is only written is returned.
pub mod Resize
pub mod Protocol
mod Tests
use Prim.Native.String.{String}
use jnet_lib.Base.{
  ℕ, ◌-◌, ◌^◌, Bool, true, false, not, ◌&&◌, Option, none, some, ltb, ◌==◌, if◌then◌else◌,
}
use jnet_lib.Base.Int.{ℤ, pos, negsuc}
use jnet_lib.Errors.{ErrorCode, frame_error, is_error}
use jnet_lib.Errors.Code
use jnet_lib.Posix.{Fd, Files}
use jnet_lib.File.Calls.{file, close_file, seek, file_length, set_eof, seek_set, seek_cur, seek_end}

-- `creation_mode`, with the flags of `open` on Linux.
pub data CreationMode : Type 0 where
  create_always create_new open_always open_existing truncate_existing : CreationMode

abbrev pub mode_flags : CreationMode → ℕ
mode_flags create_always = 0x240
mode_flags create_new = 0xc0
mode_flags open_always = 0x40
mode_flags open_existing = 0
mode_flags truncate_existing = 0x200

-- The conversion of a `point_type` into a `seek_type`.
abbrev pub to_seek : ℕ → ℤ
to_seek n = if ltb n (2 ^ 63) then pos n else negsuc (2 ^ 64 - 1 - n)

abbrev pub or_max : Option ℕ → ℕ
or_max none = 2 ^ 64 - 1
or_max (some n) = n

module _ (os : Files) where
  open os use {State}

  pub advance_open : State → Fd → String → ℕ → CreationMode → State × Fd × ErrorCode
  advance_open st (some fd) name access_mode mode = (st, some fd, frame_error Code.already_open)
  advance_open st none name access_mode mode = file os st name access_mode (mode_flags mode)

  pub close : State → Fd → State × Fd × ErrorCode
  close st none = (st, none, frame_error Code.not_open)
  close st (some fd) = close_file os st (some fd)

  -- The two forms of `length`.
  pub length_into : State → Fd → State × ErrorCode × Option ℕ
  length_into st fd = file_length os st fd

  pub length : State → Fd → State × ℕ
  length st fd = let (st', ec, n) = length_into st fd in (st', or_max n)

  pub set_pos : State → Fd → ℕ → State × ErrorCode × Option ℕ
  set_pos st fd p = seek os st fd (to_seek p) seek_set

  pub move_pos : State → Fd → ℤ → State × ErrorCode × Option ℕ
  move_pos st fd offset = seek os st fd offset seek_cur

  -- The two forms of `tell`.
  pub tell_into : State → Fd → State × ErrorCode × Option ℕ
  tell_into st fd = seek os st fd (pos 0) seek_cur

  pub tell : State → Fd → State × ℕ
  tell st fd = let (st', ec, n) = tell_into st fd in (st', or_max n)

  pub rewind : State → Fd → State × ErrorCode × Option ℕ
  rewind st fd = seek os st fd (pos 0) seek_set

  abbrev pub eof_unless : Fd → State × ErrorCode × Option ℕ → State × ErrorCode
  eof_unless fd (st, ec, p) = if not (is_error ec) then set_eof os st fd else (st, ec)

  pub truncate : State → Fd → State × ErrorCode
  unfolding rewind
  truncate st fd = eof_unless fd (rewind st fd)

  pub extend_to : State → Fd → ℕ → State × ErrorCode
  extend_to st fd size = eof_unless fd (seek os st fd (to_seek size) seek_set)

  -- `ec = seek(0, 0, file::by_end)`
  abbrev to_end : State × Fd × ErrorCode → State × Fd × ErrorCode
  to_end (st, fd, ec) = let (st', ec', p) = seek os st fd (pos 0) seek_end in (st', fd, ec')

  abbrev pub to_end_if : Bool → State × Fd × ErrorCode → State × Fd × ErrorCode
  to_end_if append (st, fd, ec) =
      if append && not (is_error ec) then to_end (st, fd, ec) else (st, fd, ec)

  -- After the first attempt of `create`.
  pub create_existing : String → ℕ → Bool → State × Fd × ErrorCode → State × Fd × ErrorCode
  create_existing name access_mode append (st, fd, ec) =
      if is_error ec && (ec.value == Code.already_exists)
      then to_end_if append (advance_open st fd name access_mode open_existing)
      else (st, fd, ec)

  pub create :
      State → Fd → String → (create_anyway truncate append : Bool) → ℕ → State × Fd × ErrorCode
  unfolding create_existing
  create st fd name create_anyway truncate append access_mode =
      if not create_anyway
      then advance_open st fd name access_mode create_new
      else if truncate
      then advance_open st fd name access_mode create_always
      else create_existing name access_mode append (advance_open st fd name access_mode create_new)

  abbrev with_fd : Fd → State × ErrorCode → State × Fd × ErrorCode
  with_fd fd (st, ec) = (st, fd, ec)

  -- After `file_ops::file` in `open`.
  pub open_then : (truncate append : Bool) → State × Fd × ErrorCode → State × Fd × ErrorCode
  unfolding truncate
  open_then cut append (st, fd, ec) =
      if is_error ec
      then (st, fd, ec)
      else if cut
      then with_fd fd (truncate st fd)
      else to_end_if append (st, fd, ec)

  pub open_file :
      State → Fd → String → (open_anyway truncate append : Bool) → ℕ → State × Fd × ErrorCode
  unfolding open_then
  open_file st fd name open_anyway cut append access_mode =
      if not open_anyway && cut
      then advance_open st fd name access_mode truncate_existing
      else if not open_anyway
      then open_then cut append (advance_open st fd name access_mode open_existing)
      else open_then cut append (advance_open st fd name access_mode open_always)

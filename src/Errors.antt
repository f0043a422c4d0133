-- ===== src/Errors.antt =====
-- iocp_error.h and iocp_error.cpp: an error is a number with the function that describes it. The
-- number is an `int`, kept as its bit pattern; the code only tests it for equality.
pub mod Code
use Code
use Prim.Native.String.{String}
use jnet_lib.Base.{ℕ, Bool, not, ◌==◌, if◌then◌else◌}

-- `describer_type`: the four functions that the library passes.
pub data Describer : Type 0 where
  frame system ssl http : Describer

pub record ErrorCode : Type 0 where
  pub value : ℕ
  pub describer : Describer

abbrev pub no_error : ErrorCode
no_error = record { value = 0; describer = frame }

abbrev pub system_error : ℕ → ErrorCode
system_error n = record { value = n; describer = system }

abbrev pub frame_error : ℕ → ErrorCode
frame_error n = record { value = n; describer = frame }

-- `operator bool`
abbrev pub is_error : ErrorCode → Bool
is_error ec = not (ec.value == 0)

pub frame_error_describer : ℕ → String
frame_error_describer n =
    if n == 0
    then "no error"
    else if n == Code.eof
    then "eof"
    else if n == Code.already_open
    then "handle already open"
    else if n == Code.not_open
    then "handle has not open"
    else if n == Code.already_exists
    then "file already exits"
    else if n == Code.epoll_flag
    then "some unexpected epoll_wait flag set"
    else "unknown error"

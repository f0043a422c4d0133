-- ===== src/Operation.antt =====
-- iocp_operation.h on Linux: what every operation holds. `kind` stands for the fields of the derived
-- class, with the function that completes it.
use jnet_lib.Base.{ℕ}
use jnet_lib.Errors.{ErrorCode, no_error}

pub record Op (A : Type 0) : Type 0 where
  pub kind : A
  pub ready : ℕ
  pub ec : ErrorCode
  pub bytes_transferred : ℕ
  pub epoll_flags : ℕ

-- The constructor, which calls `reset`.
abbrev pub new_op : {A : Type 0} → A → Op A
new_op a = record { kind = a; ready = 0; ec = no_error; bytes_transferred = 0; epoll_flags = 0 }

abbrev pub reset : {A : Type 0} → Op A → Op A
reset op = new_op op.kind

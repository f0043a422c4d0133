-- ===== src/Errors/Code.antt =====
-- The codes of iocp_error.h that the library itself gives.
use jnet_lib.Base.{ℕ}

abbrev pub eof : ℕ
eof = 1

abbrev pub already_open : ℕ
already_open = 2

abbrev pub not_open : ℕ
not_open = 3

abbrev pub already_exists : ℕ
already_exists = 4

abbrev pub epoll_flag : ℕ
epoll_flag = 5

-- ===== src/Posix/Errno.antt =====
-- The values of `errno` that the code compares with, as Linux defines them.
use jnet_lib.Base.{ℕ}

abbrev pub intr : ℕ
intr = 4

abbrev pub again : ℕ
again = 11

abbrev pub exist : ℕ
exist = 17

abbrev pub in_progress : ℕ
in_progress = 115

-- ===== src/File/Calls.antt =====
-- The file calls of `iocp::service` (epoll_service.cpp, the section "file service"). Each returns the
-- new state of the system with the error code; an argument by reference is returned too.
use Prim.Native.String.{String}
use Prim.Native.Nat.{bit_or}
use jnet_lib.Base.{
  ℕ, ◌-◌, ◌^◌, ◌<◌, ◌≡◌, refl, arith, take-length, Option, none, some, List, [], length, take, ltb,
  ◌==◌, if◌then◌else◌,
}
use jnet_lib.Base.Int.{ℤ, pos}
use jnet_lib.Errors.{ErrorCode, system_error, frame_error}
use jnet_lib.Errors.Code
use jnet_lib.Posix.{Outcome, done, failed, Fd, Files}
use jnet_lib.Posix.Errno

abbrev pub seek_set : ℕ
seek_set = 0

abbrev pub seek_cur : ℕ
seek_cur = 1

abbrev pub seek_end : ℕ
seek_end = 2

abbrev pub ssize_max : ℕ
ssize_max = 2 ^ 63 - 1

-- `ec.set_value(errno)` where the call failed.
abbrev pub to_error {ℓ} : {A : Type ℓ} → Outcome A → ErrorCode
to_error (done a) = system_error 0
to_error (failed e) = system_error e

module _ (os : Files) where
  open os use {State, open_file, close, lseek, fstat_size, ftruncate, fsync, read, write}

  pub opened : Outcome ℕ → Fd × ErrorCode
  opened (done fd) = (some fd, system_error 0)
  opened (failed e) =
      (none, if e == Errno.exist then frame_error Code.already_exists else system_error e)

  pub file : State → String → (access_mode creation_mode : ℕ) → State × Fd × ErrorCode
  unfolding opened
  file st name access_mode creation_mode =
      let (st', r) = open_file st name (bit_or access_mode creation_mode) in
      (st', (opened r).0, (opened r).1)

  pub file-failed :
      {st st' : State} (name : String) (access_mode creation_mode e : ℕ)
      → open_file st name (bit_or access_mode creation_mode) ≡ (st', failed e)
      → file st name access_mode creation_mode
        ≡ (st', none, if e == Errno.exist then frame_error Code.already_exists else system_error e)
  unfolding file opened
  file-failed name access_mode creation_mode e r = rw r refl

  pub close_file : State → Fd → State × Fd × ErrorCode
  close_file st fd = let (st', r) = close st fd in (st', none, to_error r)

  pub close_file-fd : (st : State) (fd : Fd) → (close_file st fd).1 ≡ none
  unfolding close_file
  close_file-fd st fd = refl

  -- `new_point` is a pointer that may be null: what it points at is returned if the call succeeds.
  abbrev pub point : Outcome ℕ → Option ℕ
  point (done p) = some p
  point (failed e) = none

  pub seek : State → Fd → ℤ → ℕ → State × ErrorCode × Option ℕ
  seek st fd distance whence =
      let (st', r) = lseek st fd distance whence in (st', to_error r, point r)

  pub file_length : State → Fd → State × ErrorCode × Option ℕ
  file_length st fd = let (st', r) = fstat_size st fd in (st', to_error r, point r)

  truncate_at : State → Fd → Outcome ℕ → State × ErrorCode
  truncate_at st fd (done off) = let (st', r) = ftruncate st fd off in (st', to_error r)
  truncate_at st fd (failed e) = (st, system_error e)

  pub set_eof : State → Fd → State × ErrorCode
  unfolding truncate_at
  set_eof st fd = let (st', r) = lseek st fd (pos 0) seek_cur in truncate_at st' fd r

  pub flush : State → Fd → State × ErrorCode
  flush st fd = let (st', r) = fsync st fd in (st', to_error r)

  abbrev clamp : ℕ → ℕ
  clamp bytes = if ltb ssize_max bytes then ssize_max else bytes

  -- `bytes` keeps its value when the call fails.
  abbrev written : ℕ → Outcome ℕ → ℕ
  written bytes (done n) = n
  written bytes (failed e) = bytes

  pub write_file : State → Fd → List ℕ → State × ErrorCode × ℕ
  write_file st fd bytes =
      let n = clamp (length bytes) in
      let (st', r) = write st fd (take n bytes) in (st', to_error r, written n r)

  abbrev got : Outcome (List ℕ) → List ℕ
  got (done bs) = bs
  got (failed e) = []

  abbrev count : ℕ → Outcome (List ℕ) → ℕ
  count bytes (done bs) = length bs
  count bytes (failed e) = bytes

  -- The last part is what the call put into the caller's memory.
  pub read_file : State → Fd → ℕ → State × ErrorCode × ℕ × List ℕ
  read_file st fd bytes =
      let n = clamp bytes in let (st', r) = read st fd n in (st', to_error r, count n r, got r)

  -- The counts that the library passes are below the clamp.
  module _ {st st' : State} {fd : Fd} (n : ℕ) (small : n < 2 ^ 63) where
    pub read_file-done :
        (bs : List ℕ)
        → read st fd n ≡ (st', done bs)
        → read_file st fd n ≡ (st', system_error 0, length bs, bs)
    unfolding read_file
    read_file-done bs e = ground arith

    pub read_file-failed :
        (e : ℕ) → read st fd n ≡ (st', failed e) → read_file st fd n ≡ (st', system_error e, n, [])
    unfolding read_file
    read_file-failed e r = ground arith

  clamped : (bytes : List ℕ) → length bytes < 2 ^ 63 → take (clamp (length bytes)) bytes ≡ bytes
  clamped bytes small = ground (arith, take-length bytes)

  module _ {st st' : State} {fd : Fd} (bytes : List ℕ) (small : length bytes < 2 ^ 63) where
    pub write_file-done :
        (n : ℕ)
        → write st fd bytes ≡ (st', done n)
        → write_file st fd bytes ≡ (st', system_error 0, n)
    unfolding write_file
    write_file-done n e = rw (clamped bytes small, e)

    pub write_file-failed :
        (e : ℕ)
        → write st fd bytes ≡ (st', failed e)
        → write_file st fd bytes ≡ (st', system_error e, length bytes)
    unfolding write_file
    write_file-failed e r = rw (clamped bytes small, r) (ground arith)

  module _ {st st' : State} {fd : Fd} where
    pub seek_lem :
        (d : ℤ) (whence : ℕ) (r : Outcome ℕ)
        → lseek st fd d whence ≡ (st', r)
        → seek st fd d whence ≡ (st', to_error r, point r)
    unfolding seek
    seek_lem d whence r e = rw e refl

    pub set_eof-failed :
        (e : ℕ)
        → lseek st fd (pos 0) seek_cur ≡ (st', failed e)
        → set_eof st fd ≡ (st', system_error e)
    unfolding set_eof truncate_at
    set_eof-failed e r = rw r refl

    pub set_eof-done :
        (off : ℕ) {st'' : State} (r : Outcome (Unit {0}))
        → lseek st fd (pos 0) seek_cur ≡ (st', done off)
        → ftruncate st' fd off ≡ (st'', r)
        → set_eof st fd ≡ (st'', to_error r)
    unfolding set_eof truncate_at
    set_eof-done off r e d = rw (e, d) refl

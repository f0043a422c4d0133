-- ===== src/Socket/Calls.antt =====
-- The socket calls of `iocp::service` (epoll_service.cpp, the section "socket service" and the
-- three calls of `epoll_ctl`). Each returns the new state of the system with the error code; an
-- argument by reference is returned too.
use jnet_lib.Base.{ℕ, ◌≡◌, refl, none, some, List, [], length, ◌==◌, if◌then◌else◌}
use jnet_lib.Errors.{ErrorCode, system_error}
use jnet_lib.Posix.{Outcome, done, failed, Fd}
use jnet_lib.Posix.Errno
use jnet_lib.Posix.Sockets.{Sockets}

abbrev pub to_error {ℓ} : {A : Type ℓ} → Outcome A → ErrorCode
to_error (done a) = system_error 0
to_error (failed e) = system_error e

-- A descriptor that a call returned, or what the variable held.
abbrev pub fd_or : Fd → Outcome ℕ → Fd
fd_or old (done fd) = some fd
fd_or old (failed e) = old

abbrev pub number_or : ℕ → Outcome ℕ → ℕ
number_or old (done n) = n
number_or old (failed e) = old

abbrev pub count_or : ℕ → Outcome (List ℕ) → ℕ
count_or old (done bs) = length bs
count_or old (failed e) = old

abbrev pub received : Outcome (List ℕ) → List ℕ
received (done bs) = bs
received (failed e) = []

-- `EINPROGRESS` is no error of `connect`.
abbrev pub unless_in_progress : ErrorCode → ErrorCode
unless_in_progress ec = if ec.value == Errno.in_progress then system_error 0 else ec

abbrev pub ctl_add : ℕ
ctl_add = 1

abbrev pub ctl_del : ℕ
ctl_del = 2

abbrev pub ctl_mod : ℕ
ctl_mod = 3

module _ (os : Sockets) where
  open os use {State}

  unfoldable pub register_event : State → Fd → ℕ → State × ErrorCode
  register_event st fd events =
      let (st', r) = os.epoll_ctl st ctl_add fd events in (st', to_error r)

  pub modify_event : State → Fd → ℕ → State × ErrorCode
  modify_event st fd events = let (st', r) = os.epoll_ctl st ctl_mod fd events in (st', to_error r)

  pub delete_event : State → Fd → ℕ → State × ErrorCode
  delete_event st fd events = let (st', r) = os.epoll_ctl st ctl_del fd events in (st', to_error r)

  -- The test of `getsockopt` has an empty body, so that `errno` is stored after success too.
  pub so_error : State → Fd → State × ErrorCode × ℕ
  so_error st fd =
      let (st', r) = os.so_error st fd in (st', system_error (os.errno st'), number_or 0 r)

  pub socket : State → State × ErrorCode × Fd
  socket st = let (st', r) = os.socket st in (st', to_error r, fd_or none r)

  pub close_socket : State → Fd → State × ErrorCode × Fd
  close_socket st fd = let (st', r) = os.close st fd in (st', to_error r, none)

  pub bind : State → Fd → (address port : ℕ) → State × ErrorCode
  bind st fd address port = let (st', r) = os.bind st fd address port in (st', to_error r)

  pub listen : State → Fd → ℕ → State × ErrorCode
  listen st fd backlog = let (st', r) = os.listen st fd backlog in (st', to_error r)

  -- `fd` is what `socket` holds before the call.
  unfoldable pub accept : State → Fd → Fd → State × ErrorCode × Fd
  accept st acceptor fd = let (st', r) = os.accept st acceptor in (st', to_error r, fd_or fd r)

  pub connect : State → Fd → (address port : ℕ) → State × ErrorCode
  connect st fd address port =
      let (st', r) = os.connect st fd address port in (st', unless_in_progress (to_error r))

  unfoldable pub send : State → Fd → List ℕ → State × ErrorCode × ℕ
  send st fd bytes =
      let (st', r) = os.send st fd bytes in (st', to_error r, number_or (length bytes) r)

  -- The last part is what the call put into the caller's memory.
  unfoldable pub recv : State → Fd → ℕ → State × ErrorCode × ℕ × List ℕ
  recv st fd len = let (st', r) = os.recv st fd len in (st', to_error r, count_or len r, received r)

  module _ {st st' : State} {fd : Fd} where
    pub send_lem :
        (bytes : List ℕ) (r : Outcome ℕ)
        → os.send st fd bytes ≡ (st', r)
        → send st fd bytes ≡ (st', to_error r, number_or (length bytes) r)
    unfolding send
    send_lem bytes r e = rw e refl

    pub recv_lem :
        (len : ℕ) (r : Outcome (List ℕ))
        → os.recv st fd len ≡ (st', r)
        → recv st fd len ≡ (st', to_error r, count_or len r, received r)
    unfolding recv
    recv_lem len r e = rw e refl

  pub accept_lem :
      {st st' : State} {fd : Fd} (old : Fd) (r : Outcome ℕ)
      → os.accept st fd ≡ (st', r)
      → accept st fd old ≡ (st', to_error r, fd_or old r)
  unfolding accept
  accept_lem old r e = rw e refl

-- ===== src/Socket.antt =====
-- epoll_socket.cpp: what `socket_ops` does with a descriptor. The operations are in the child modules.
pub mod Calls
pub mod Send
pub mod Recv
pub mod Accept
use jnet_lib.Base.{ℕ, ◌+◌, Option, none, some, not, ◌||◌, ◌==◌, if◌then◌else◌}
use jnet_lib.Errors.{ErrorCode, no_error, frame_error, is_error}
use jnet_lib.Errors.Code
use jnet_lib.Posix.{Fd}
use jnet_lib.Posix.Sockets.{Sockets}
use jnet_lib.Socket.Calls.{register_event, delete_event, socket, close_socket, bind, listen, accept}

-- `EPOLLERR | EPOLLHUP | EPOLLRDHUP | EPOLLET`, as the constructor sets `event_.events`.
abbrev pub no_events : ℕ
no_events = 0x8 + 0x10 + 0x2000 + 0x80000000

module _ (os : Sockets) where
  open os use {State}

  abbrev registered : State × ErrorCode × Fd → State × ErrorCode × Fd
  registered (st, ec, fd) =
      let (st', ec') = register_event os st fd no_events in
      if not (is_error ec) then (st', ec', fd) else (st, ec, fd)

  pub open_socket : State → Fd → State × ErrorCode × Fd
  open_socket st (some fd) = (st, frame_error Code.already_open, some fd)
  open_socket st none = registered (socket os st)

  pub close : State → Fd → ℕ → State × ErrorCode × Fd
  close st none events = (st, frame_error Code.not_open, none)
  close st (some fd) events =
      let (st', ec) = delete_event os st (some fd) events in close_socket os st' (some fd)

  abbrev bound : Fd → (address port : ℕ) → State × ErrorCode × Fd → State × ErrorCode × Fd
  bound old address port (st, ec, fd) =
      let (st', ec') = bind os st fd address port in
      if not (is_error ec) || (ec.value == Code.already_open) then (st', ec', fd) else (st, ec, fd)

  abbrev listening : ℕ → State × ErrorCode × Fd → State × ErrorCode × Fd
  listening backlog (st, ec, fd) =
      let (st', ec') = listen os st fd backlog in
      if not (is_error ec) then (st', ec', fd) else (st, ec, fd)

  pub bind_and_listen : State → Fd → (address port backlog : ℕ) → State × ErrorCode × Fd
  unfolding open_socket
  bind_and_listen st fd address port backlog =
      listening backlog (bound fd address port (open_socket st fd))

  pub accept_socket : State → Fd → Fd → State × ErrorCode × Fd
  accept_socket st acceptor fd = registered (accept os st acceptor fd)

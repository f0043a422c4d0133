-- ===== src/Socket/Accept/Tests.antt =====
-- A port at which a number of clients wait.
use jnet_lib.Base.{ℕ, zero, suc, ◌≡◌, refl, false, some, none, ◌==◌, arith}
use jnet_lib.Errors.{no_error, system_error}
use jnet_lib.Posix.{Outcome, done, failed}
use jnet_lib.Posix.Sockets.{Sockets}
use jnet_lib.Socket.{accept_socket}
use jnet_lib.Socket.Calls.{accept, register_event}
use jnet_lib.Socket.Accept.{
  Accepting, new_accept_op, finished, begin_accept, on_complete, Steps, start, event, elapses,
}
use jnet_lib.Socket.Accept.Accepted.{Gives, asyn_accept-Gives}

abbrev take_client : ℕ → ℕ × Outcome ℕ
take_client zero = (0, failed 11)
take_client (suc n) = (n, done 4)

abbrev port : Sockets
port = record {
  State = ℕ;
  errno = λ d. 0;
  socket = λ d. (d, done 3);
  close = λ d fd. (d, done tt);
  bind = λ d fd a p. (d, done tt);
  listen = λ d fd n. (d, done tt);
  accept = λ d fd. take_client d;
  connect = λ d fd a p. (d, done tt);
  send = λ d fd bs. (d, failed 11);
  recv = λ d fd n. (d, failed 11);
  so_error = λ d fd. (d, done 0);
  epoll_ctl = λ d k fd e. (d, done tt);
}

take_client_fails : (n n' e : ℕ) → take_client n ≡ (n', failed e) → (e == 0) ≡ false
take_client_fails zero n' e h = ground (arith, h)
take_client_fails (suc n) n' e h = ground (arith, h)

abbrev accepted_one : Accepting port
accepted_one = record {
  state = 0;
  op = record { acceptor = some 3; socket = some 4; accepted = false };
  phase = finished (system_error 0);
}

accepted_one-Steps : Steps port 0 (new_accept_op (some 3) none) accepted_one
unfolding begin_accept on_complete accept_socket accept register_event
accepted_one-Steps = event no_error (elapses 1 start) refl

asyn_accept-Gives_example : Gives port (some 3) (system_error 0) (some 4)
asyn_accept-Gives_example =
    asyn_accept-Gives port (λ n n' a e h. take_client_fails n n' e h) (system_error 0)
      accepted_one-Steps refl

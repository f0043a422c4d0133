-- ===== src/Socket/Recv/Tests.antt =====
-- A socket that has `unread` bytes, and blocks when there are none.
use jnet_lib.Base.{
  ℕ, ◌≤◌, ◌≡◌, ◌≢◌, refl, some, List, [], ◌∷◌, ◌++◌, length, append-nil, arith, false,
  if◌then◌else◌, ltb,
}
use jnet_lib.Errors.{no_error, system_error, frame_error}
use jnet_lib.Errors.Code
use jnet_lib.Posix.{Outcome, done, failed}
use jnet_lib.Posix.Sockets.{Sockets}
use jnet_lib.Socket.Calls.{recv}
use jnet_lib.Socket.Recv.{
  Receiving, posted, waiting, finished, begin_recv, asyn_recv, on_complete, recv_part, settle,
  or_eof, received_then, Steps, here, next, completes, event,
}
use jnet_lib.Socket.Recv.Bytes.Part.{RecvLaws, IsReceiving}
use jnet_lib.Socket.Recv.Bytes.{asyn_recv-Receives}
use jnet_lib.Socket.Recv.Eof.{asyn_recv_early_eof}

record Wire : Type 0 where
  unread : List ℕ
  log : List ℕ

-- One byte at a time.
abbrev get : Wire → List ℕ → ℕ → Wire × Outcome (List ℕ)
get d [] n = (d, failed 11)
get d (b ∷ bs) n =
    if ltb 0 n
    then (record { unread = bs; log = d.log ++ (b ∷ []) }, done (b ∷ []))
    else (d, done [])

abbrev wire : Sockets
wire = record {
  State = Wire;
  errno = λ d. 0;
  socket = λ d. (d, done 3);
  close = λ d fd. (d, done tt);
  bind = λ d fd a p. (d, done tt);
  listen = λ d fd n. (d, done tt);
  accept = λ d fd. (d, failed 11);
  connect = λ d fd a p. (d, done tt);
  send = λ d fd bs. (d, failed 11);
  recv = λ d fd n. get d d.unread n;
  so_error = λ d fd. (d, done 0);
  epoll_ctl = λ d k fd e. (d, done tt);
}

get_gives :
    (d d' : Wire) (xs : List ℕ) (n : ℕ) (bs : List ℕ)
    → get d xs n ≡ (d', done bs)
    → (d'.log ≡ d.log ++ bs) × (length bs ≤ n)
get_gives d d' [] n bs e = ground (arith, e)
get_gives d d' (b ∷ xs) n bs e = ground (arith, e, append-nil d.log)

get_fails :
    (d d' : Wire) (xs : List ℕ) (n k : ℕ) → get d xs n ≡ (d', failed k) → (d'.log ≡ d.log) × (k ≢ 0)
get_fails d d' [] n k e = ground (arith, e)
get_fails d d' (b ∷ xs) n k e = ground (arith, e)

wire_laws : RecvLaws wire
wire_laws = record {
  log = λ d fd. d.log;
  gives = λ d d' fd n bs e. get_gives d d' d.unread n bs e;
  fails = λ d d' fd n k e. get_fails d d' d.unread n k e;
}

abbrev full : Wire
full = record { unread = 5 ∷ 6 ∷ []; log = [] }

abbrev first : Receiving wire
first = begin_recv wire full (asyn_recv (some 3) (0 ∷ 0 ∷ []) 2 false)

abbrev second : Receiving wire
second = on_complete wire first.state first.op (system_error 0) 0 1

abbrev third : Receiving wire
third = on_complete wire second.state second.op no_error 0 0

third_test : third.phase ≡ finished (frame_error Code.eof) 1
unfolding begin_recv on_complete recv_part settle or_eof received_then recv
third_test = refl

run_test : Steps wire wire_laws.log first third
unfolding wire_laws begin_recv on_complete recv_part settle or_eof received_then recv
run_test = next (next here (completes (system_error 0) 1 refl refl)) (event no_error 0 refl refl)

asyn_recv-Receives_example : IsReceiving wire wire_laws [] 2 third
unfolding wire_laws
asyn_recv-Receives_example =
    asyn_recv-Receives wire wire_laws (some 3) (0 ∷ 0 ∷ []) 2 false full (omega arith) (omega arith)
      run_test

asyn_recv_early_eof_example :
    (first.phase ≡ posted (system_error 0) 1)
    × (second.phase ≡ waiting)
    × ((on_complete wire full second.op no_error 0 0).phase ≡ finished (frame_error Code.eof) 1)
asyn_recv_early_eof_example =
    asyn_recv_early_eof wire (some 3) (0 ∷ 0 ∷ []) 2 (5 ∷ []) refl (omega arith) (omega arith)
      (omega arith) first second full refl refl

-- ===== src/Socket/Send/Tests.antt =====
-- A socket that takes a byte at a time, and blocks when `free` is 0.
use jnet_lib.Base.{
  ℕ, ◌≤◌, ◌≡◌, ◌≢◌, ◌-◌, refl, some, List, [], ◌∷◌, ◌++◌, length, append-nil, take, ltb,
  if◌then◌else◌, arith,
}
use jnet_lib.Errors.{no_error, system_error}
use jnet_lib.Posix.{Outcome, done, failed}
use jnet_lib.Posix.Sockets.{Sockets}
use jnet_lib.Socket.Calls.{send}
use jnet_lib.Socket.Send.{
  Sending, finished, begin_send, asyn_send, on_complete, Steps, here, next, completes, event,
  elapses, send_part, sent_then,
}
use jnet_lib.Socket.Send.Bytes.{SendLaws, IsSending, asyn_send-Sends}

record Wire : Type 0 where
  free : ℕ
  log : List ℕ

abbrev put : Wire → List ℕ → Wire × Outcome ℕ
put d [] = (d, done 0)
put d (b ∷ bs) =
    if ltb 0 d.free
    then (record { free = d.free - 1; log = d.log ++ (b ∷ []) }, done 1)
    else (d, failed 11)

abbrev number : Outcome ℕ → ℕ
number (done n) = n
number (failed e) = 0

put_takes :
    (d d' : Wire) (bs : List ℕ) (n : ℕ)
    → put d bs ≡ (d', done n)
    → (d'.log ≡ d.log ++ take n bs) × (n ≤ length bs)
put_takes d d' [] n e = ground (arith, e, append-nil d.log)
put_takes d d' (b ∷ bs) n e = ground (arith, e)

put_fails :
    (d d' : Wire) (bs : List ℕ) (k : ℕ) → put d bs ≡ (d', failed k) → (d'.log ≡ d.log) × (k ≢ 0)
put_fails d d' [] k e = ground (arith, e)
put_fails d d' (b ∷ bs) k e = ground (arith, e)

abbrev wire : Sockets
wire = record {
  State = Wire;
  errno = λ d. 0;
  socket = λ d. (d, done 3);
  close = λ d fd. (d, done tt);
  bind = λ d fd a p. (d, done tt);
  listen = λ d fd n. (d, done tt);
  accept = λ d fd. (d, failed 11);
  connect = λ d fd a p. (d, done tt);
  send = λ d fd bs. put d bs;
  recv = λ d fd n. (d, failed 11);
  so_error = λ d fd. (d, done 0);
  epoll_ctl = λ d k fd e. (d, done tt);
}

wire_laws : SendLaws wire
wire_laws = record {
  log = λ d fd. d.log;
  takes = λ d d' fd bs n e. put_takes d d' bs n e;
  fails = λ d d' fd bs k e. put_fails d d' bs k e;
}

abbrev tight : Wire
tight = record { free = 1; log = [] }

abbrev one_sent : Sending wire
one_sent = begin_send wire tight (asyn_send (some 3) (5 ∷ 6 ∷ []) 2)

abbrev blocked : Sending wire
blocked = on_complete wire one_sent.state one_sent.op (system_error 0) 1

abbrev drained : Sending wire
drained = record blocked { state = record { free = 1; log = 5 ∷ [] } }

abbrev all_sent : Sending wire
all_sent = on_complete wire drained.state drained.op no_error 0

all_sent_test : all_sent.phase ≡ finished (system_error 0) 2
unfolding begin_send on_complete send_part sent_then send
all_sent_test = refl

run_test : Steps wire wire_laws.log one_sent all_sent
unfolding wire_laws begin_send on_complete send_part sent_then send
run_test =
    next
      (next (next here (completes (system_error 0) 1 refl refl))
        (elapses (record { free = 1; log = 5 ∷ [] }) refl refl))
      (event no_error refl refl)

asyn_send-Sends_example : IsSending wire wire_laws [] 2 all_sent
unfolding wire_laws
asyn_send-Sends_example =
    asyn_send-Sends wire wire_laws (some 3) (5 ∷ 6 ∷ []) 2 tight (omega arith) (omega arith)
      run_test

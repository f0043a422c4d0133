-- ===== src/Socket/Send/Bytes.antt =====
-- What a `send_op` has sent when it calls back.
use jnet_lib.Base.{
  ℕ, ◌+◌, ◌%◌, ◌^◌, ◌≤◌, ◌<◌, ◌≡◌, ◌≢◌, ◌⊎◌, inl, inr, refl, sym, ◌∙◌, ap, subst, Bool, true, false,
  not, ◌&&◌, List, ◌++◌, length, take, drop, ◌==◌, arith, append_assoc, append-nil, take-take,
  take-add, length-take, Bool-cases, ==_iff,
}
use jnet_lib.Errors.{ErrorCode, is_error}
use jnet_lib.Buffer.{consume}
use jnet_lib.Posix.{done, failed, Outcome-cases, Fd}
use jnet_lib.Posix.Sockets.{Sockets}
use jnet_lib.Socket.Calls.{send_lem}
use jnet_lib.Socket.Send.{
  SendOp, Phase, posted, waiting, finished, would_block, part, Sending, send_part, begun,
  begin_send, sent_then, on_complete, Step, completes, event, elapses, Steps, here, next, asyn_send,
}

-- What `send` is documented to do on a stream: `log` is what went out through the socket. A call
-- sends a prefix of the bytes; one that fails sends none and sets `errno`.
module _ (os : Sockets) where
  open os use {State}

  pub record SendLaws : Type 0 where
    pub log : State → Fd → List ℕ
    pub takes :
        (st st' : State) (fd : Fd) (bs : List ℕ) (n : ℕ)
        → os.send st fd bs ≡ (st', done n)
        → (log st' fd ≡ log st fd ++ take n bs) × (n ≤ length bs)
    pub fails :
        (st st' : State) (fd : Fd) (bs : List ℕ) (e : ℕ)
        → os.send st fd bs ≡ (st', failed e)
        → (log st' fd ≡ log st fd) × (e ≢ 0)

module _ (os : Sockets) (laws : SendLaws os) (base : List ℕ) (total : ℕ) where
  open os use {State}
  open laws use {log}

  pub record IsOpen (op : SendOp) : Type 0 where
    pub at : op.buffer.raw + op.buffer.len ≡ total
    pub size : total ≤ length op.memory
    pub small : total < 2 ^ 64

  -- The first `k` bytes of the memory went out, and no others.
  abbrev pub Out : SendOp → State → ℕ → Type 0
  Out op st k = log st op.fd ≡ base ++ take k op.memory

  -- After a call of `send`: `n` bytes more, or an error and none.
  abbrev pub Went : SendOp → State × ErrorCode × ℕ → Type 0
  Went op (st, ec, n) =
      ((is_error ec ≡ false) × (n ≤ op.buffer.len) × Out op st (op.buffer.raw + n))
      ⊎ ((is_error ec ≡ true) × Out op st op.buffer.raw)

  abbrev pub At : SendOp → State → Phase → Type 0
  At op st (posted ec n) = (op.sent ≡ true) × Went op (st, ec, n)
  At op st waiting = Out op st op.buffer.raw
  At op st (finished ec n) = (n ≤ total) × Out op st n × ((is_error ec ≡ true) ⊎ (n ≡ total))

  pub record IsSending (t : Sending os) : Type 0 where
    pub is_open : IsOpen t.op
    pub bytes : At t.op t.state t.phase

  part_le : (len : ℕ) → part len ≤ len
  part_le len = ground arith

  module _ {op : SendOp} (v : IsOpen op) where
    in_part :
        (n : ℕ)
        → n ≤ length (take (part op.buffer.len) (drop op.buffer.raw op.memory))
        → n ≤ part op.buffer.len
    in_part n h = omega (arith, length-take (part op.buffer.len) (drop op.buffer.raw op.memory))

    sent_bytes :
        (st st' : State) (n : ℕ)
        → Out op st op.buffer.raw
        → n ≤ part op.buffer.len
        → log st' op.fd
          ≡ log st op.fd ++ take n (take (part op.buffer.len) (drop op.buffer.raw op.memory))
        → Out op st' (op.buffer.raw + n)
    sent_bytes st st' n o l e =
        e
        ∙ ap (λ bs. bs ++ take n (take (part op.buffer.len) rest)) o
        ∙ ap (λ bs. (base ++ take op.buffer.raw op.memory) ++ bs)
            (take-take n (part op.buffer.len) rest l)
        ∙ append_assoc base (take op.buffer.raw op.memory) (take n rest)
        ∙ ap (λ bs. base ++ bs) (take-add op.buffer.raw n op.memory)
      where
        rest : List ℕ
        rest = drop op.buffer.raw op.memory

    send_part-Went : (st : State) → Out op st op.buffer.raw → Went op (send_part os st op)
    unfolding send_part
    send_part-Went st o =
        elim (Outcome-cases
          (os.send st op.fd (take (part op.buffer.len) (drop op.buffer.raw op.memory)))) [
            | inl (s, n, e) ↦ rw (send_lem os _ (done n) e) (
                let l = in_part n (laws.takes st s op.fd _ n e).1 in
                inl (
                  refl,
                  omega (arith, l, part_le op.buffer.len),
                  sent_bytes st s n o l (laws.takes st s op.fd _ n e).0,
                ))
            | inr (s, k, e) ↦ rw (send_lem os _ (failed k) e) (
                inr (
                  ground (arith, (laws.fails st s op.fd _ k e).1),
                  (laws.fails st s op.fd _ k e).0 ∙ o,
                ))
          ]

    -- An error that would block is an error.
    blocked-Out :
        (st : State) (ec : ErrorCode) (n : ℕ)
        → would_block ec ≡ true
        → Went op (st, ec, n)
        → Out op st op.buffer.raw
    blocked-Out st ec n b (inr w) = w.1
    blocked-Out st ec n b (inl w) = absurd (ground (arith, b, w.0))

    begun-IsSending : (r : State × ErrorCode × ℕ) → Went op r → IsSending (begun os op r)
    begun-IsSending (st, ec, n) w = elim (Bool-cases (would_block ec)) [
      | inl y ↦ rw y (record {
        is_open = record { at = v.at; size = v.size; small = v.small };
        bytes = blocked-Out st ec n y w;
      })
      | inr y ↦ rw y (record {
        is_open = record { at = v.at; size = v.size; small = v.small };
        bytes = (refl, w);
      })
    ]

    begin_send-IsSending : (st : State) → Out op st op.buffer.raw → IsSending (begin_send os st op)
    unfolding begin_send
    begin_send-IsSending st o = begun-IsSending (send_part os st op) (send_part-Went st o)

  abbrev consumed : SendOp → ℕ → SendOp
  consumed op n = record op { buffer = consume op.buffer n }

  module _ {op : SendOp} (n : ℕ) (v : IsOpen op) (l : n ≤ op.buffer.len) where
    consume-IsOpen : IsOpen (consumed op n)
    consume-IsOpen = record { at = omega (arith, v.at, v.small); size = v.size; small = v.small }

    consume-Out :
        (st : State)
        → Out op st (op.buffer.raw + n)
        → Out (consumed op n) st (consumed op n).buffer.raw
    consume-Out st o =
        subst (Out op st)
          (let e : op.buffer.raw + n ≡ (op.buffer.raw + n) % 2 ^ 64 =
              omega (arith, v.at, v.small) in
            e)
          o

    consumed_all : (consumed op n).buffer.len ≡ 0 → (consumed op n).buffer.raw ≡ total
    consumed_all e = omega (arith, e, v.at, v.small)

    consumed_le : (consumed op n).buffer.raw ≤ total
    consumed_le = omega (arith, v.at, v.small)

  sent_then-IsSending :
      {op : SendOp} (r : State × ErrorCode × ℕ)
      → IsOpen op
      → Went op r
      → IsSending (sent_then os op r)
  unfolding sent_then
  sent_then-IsSending {op} (st, ec, n) v (inl w) =
      elim (Bool-cases ((consumed op n).buffer.len == 0)) [
        | inl y ↦
            rw (w.0, y)
              (record {
                is_open = consume-IsOpen n v w.1;
                bytes = (
                  consumed_le n v w.1,
                  consume-Out n v w.1 st w.2,
                  inr (consumed_all n v w.1 ((==_iff _ 0).0 y)),
                );
              })
        | inr y ↦
            rw (w.0, y)
              (begin_send-IsSending (consume-IsOpen n v w.1) st (consume-Out n v w.1 st w.2))
      ]
  sent_then-IsSending {op} (st, ec, n) v (inr w) = elim (Bool-cases (would_block ec)) [
    | inl y ↦ rw (w.0, y) (begin_send-IsSending v st w.1)
    | inr y ↦ rw (w.0, y) (record { is_open = v; bytes = (omega (arith, v.at), w.1, inl w.0) })
  ]

  -- With the result of the `send` in `begin_send`, and with an event.
  posted-IsSending :
      {op : SendOp} (st : State) (ec : ErrorCode) (n : ℕ)
      → IsOpen op
      → op.sent ≡ true
      → Went op (st, ec, n)
      → IsSending (on_complete os st op ec n)
  unfolding on_complete
  posted-IsSending {op} st ec n v s w =
      rw (no_send (not (is_error ec)) (not (op.buffer.len % 2 ^ 32 == 0)) op.sent s)
        (sent_then-IsSending (st, ec, n) v w)
    where
      no_send : (a b c : Bool) → c ≡ true → (a && (b && not c)) ≡ false
      no_send a b c e = ground (arith, e)

  event-IsSending :
      {op : SendOp} (st : State) (ec : ErrorCode)
      → IsOpen op
      → Out op st op.buffer.raw
      → IsSending (on_complete os st op ec 0)
  unfolding on_complete
  event-IsSending {op} st ec v o =
      elim (Bool-cases (not (is_error ec) && (not (op.buffer.len % 2 ^ 32 == 0) && not op.sent))) [
        | inl y ↦ rw y (sent_then-IsSending (send_part os st op) v (send_part-Went v st o))
        | inr y ↦ rw y (sent_then-IsSending (st, ec, 0) v (untouched (Bool-cases (is_error ec))))
      ]
    where
      untouched : (is_error ec ≡ true) ⊎ (is_error ec ≡ false) → Went op (st, ec, 0)
      untouched (inl e) = inr (e, o)
      untouched (inr e) = inl (
        e,
        omega arith,
        subst (Out op st) (let z : op.buffer.raw ≡ op.buffer.raw + 0 = omega arith in z) o,
      )

  -- Others may change the system, as long as nothing goes out through the socket.
  At-elapse :
      (op : SendOp) (st st' : State) (ph : Phase)
      → log st' op.fd ≡ log st op.fd
      → At op st ph
      → At op st' ph
  At-elapse op st st' (posted ec n) e (s, inl w) = (s, inl (w.0, w.1, e ∙ w.2))
  At-elapse op st st' (posted ec n) e (s, inr w) = (s, inr (w.0, e ∙ w.1))
  At-elapse op st st' waiting e w = e ∙ w
  At-elapse op st st' (finished ec n) e w = (w.0, e ∙ w.1, w.2)

  At-phase : (t : Sending os) (ph : Phase) → IsSending t → t.phase ≡ ph → At t.op t.state ph
  At-phase t ph v e = subst (At t.op t.state) e v.bytes

  Step-IsSending : (t t' : Sending os) → IsSending t → Step os log t t' → IsSending t'
  Step-IsSending t t' v (completes ec n p e) = subst IsSending (sym e) (
      posted-IsSending t.state ec n v.is_open (At-phase t (posted ec n) v p).0
        (At-phase t (posted ec n) v p).1)
  Step-IsSending t t' v (event ec p e) =
      subst IsSending (sym e) (event-IsSending t.state ec v.is_open (At-phase t waiting v p))
  Step-IsSending t t' v (elapses st same e) =
      subst IsSending (sym e)
        (record { is_open = v.is_open; bytes = At-elapse t.op t.state st t.phase same v.bytes })

  pub Steps-IsSending : {t t' : Sending os} → IsSending t → Steps os log t t' → IsSending t'
  Steps-IsSending v here = v
  Steps-IsSending v (next {u} {v = w} h s) = Step-IsSending u w (Steps-IsSending v h) s

module _ (os : Sockets) (laws : SendLaws os) where
  open os use {State}
  open laws use {log}

  -- In every history of a send of the first len bytes of a memory that holds them, below 2^64,
  -- whatever the socket blocks, fails or takes in part and whatever events come: what went out
  -- is a prefix of the memory, of raw bytes while the operation waits; when it calls back, of
  -- the count that it reports, which is len if it reports no error.
  pub asyn_send-Sends :
      (fd : Fd) (memory : List ℕ) (len : ℕ) (st : State)
      → len ≤ length memory
      → len < 2 ^ 64
      → {t : Sending os} → Steps os log (begin_send os st (asyn_send fd memory len)) t
      → IsSending os laws (log st fd) len t
  asyn_send-Sends fd memory len st fits small run =
      Steps-IsSending os laws (log st fd) len
        (begin_send-IsSending os laws (log st fd) len
          (record { at = omega arith; size = fits; small = small }) st
          (sym (append-nil (log st fd))))
        run

-- ===== src/Socket/Recv/Bytes/Part.antt =====
-- What a `recv_op` has received after a call of `recv`.
use jnet_lib.Base.{
  ℕ, ◌+◌, ◌-◌, ◌%◌, ◌^◌, ◌≤◌, ◌<◌, ◌≡◌, ◌≢◌, ◌⊎◌, inl, inr, refl, sym, ◌∙◌, ap, subst, Bool, true,
  false, List, [], ◌++◌, length, take, write_at, ◌==◌, arith, append_assoc, take-write_at,
  length-write_at, write_at-nil, Bool-cases, ==_iff,
}
use jnet_lib.Errors.{ErrorCode, system_error, is_error}
use jnet_lib.Buffer.{remain}
use jnet_lib.Posix.{done, failed, Outcome-cases, Fd}
use jnet_lib.Posix.Sockets.{Sockets}
use jnet_lib.Socket.Calls.{recv_lem}
use jnet_lib.Socket.Send.{would_block}
use jnet_lib.Socket.Recv.{
  RecvOp, Phase, posted, empty, waiting, finished, Receiving, recv_part, begun, begin_recv,
}

-- What `recv` is documented to do on a stream: `log` is what came in through the socket. A call
-- takes as many bytes as asked for at most; one that fails takes none and sets `errno`.
module _ (os : Sockets) where
  open os use {State}

  pub record RecvLaws : Type 0 where
    pub log : State → Fd → List ℕ
    pub gives :
        (st st' : State) (fd : Fd) (n : ℕ) (bs : List ℕ)
        → os.recv st fd n ≡ (st', done bs)
        → (log st' fd ≡ log st fd ++ bs) × (length bs ≤ n)
    pub fails :
        (st st' : State) (fd : Fd) (n e : ℕ)
        → os.recv st fd n ≡ (st', failed e)
        → (log st' fd ≡ log st fd) × (e ≢ 0)

module _ (os : Sockets) (laws : RecvLaws os) (base : List ℕ) (total : ℕ) where
  open os use {State}
  open laws use {log}

  pub record IsOpen (op : RecvOp) : Type 0 where
    pub at : op.buffer.raw_pos ≡ op.buffer.len
    pub within : op.buffer.len ≤ total
    pub size : op.buffer.size ≡ total
    pub fits : total ≤ length op.memory
    pub small : total < 2 ^ 64

  -- The bytes that came in are the first `k` of the memory.
  abbrev pub In : RecvOp → State → ℕ → Type 0
  In op st k = log st op.fd ≡ base ++ take k op.memory

  -- After a call of `recv`: `n` bytes more, or an error and none.
  abbrev pub Came : State × ErrorCode × ℕ × RecvOp → Type 0
  Came (st, ec, n, op) =
      ((is_error ec ≡ false) × (op.buffer.len + n ≤ total) × In op st (op.buffer.len + n))
      ⊎ ((is_error ec ≡ true) × In op st op.buffer.len)

  abbrev pub At : RecvOp → State → Phase → Type 0
  At op st (posted ec n) = (op.received ≡ true) × Came (st, ec, n, op)
  At op st empty = (0 ≡ total) × In op st 0
  At op st waiting = In op st op.buffer.len
  At op st (finished ec n) =
      (n ≤ total) × In op st n × ((is_error ec ≡ true) ⊎ ((op.some ≡ true) ⊎ (n ≡ total)))

  pub record IsReceiving (t : Receiving os) : Type 0 where
    pub is_open : IsOpen t.op
    pub bytes : At t.op t.state t.phase

  pub remain_lem : {op : RecvOp} → IsOpen op → remain op.buffer ≡ total - op.buffer.len
  remain_lem v = omega (arith, v.size, v.within, v.small)

  module _ {op : RecvOp} (v : IsOpen op) (st st' : State) (i : In op st op.buffer.len) where
    Came-done :
        (bs : List ℕ)
        → length bs ≤ remain op.buffer % 2 ^ 32
        → log st' op.fd ≡ log st op.fd ++ bs
        → Came (
          st',
          system_error 0,
          length bs,
          record op { memory = write_at op.memory op.buffer.raw_pos bs },
        )
          × IsOpen (record op { memory = write_at op.memory op.buffer.raw_pos bs })
    Came-done bs l e = (
      inl (
        refl,
        omega (arith, l, remain_lem v, v.within),
        e
            ∙ ap (λ xs. xs ++ bs) i
            ∙ append_assoc base (take op.buffer.len op.memory) bs
            ∙ ap (λ xs. base ++ xs) (sym placed),
      ),
      record {
        at = v.at;
        within = v.within;
        size = v.size;
        fits = omega (
          arith,
          v.fits,
          v.at,
          length-write_at op.memory op.buffer.raw_pos bs (omega (arith, v.at, room)),
        );
        small = v.small;
      },
    )
      where
        room : op.buffer.len + length bs ≤ length op.memory
        room = omega (arith, l, remain_lem v, v.within, v.fits)

        placed :
            take (op.buffer.len + length bs) (write_at op.memory op.buffer.raw_pos bs)
            ≡ take op.buffer.len op.memory ++ bs
        placed =
            subst
              (λ p.
                take (op.buffer.len + length bs) (write_at op.memory p bs)
                ≡ take op.buffer.len op.memory ++ bs)
              (sym v.at) (take-write_at op.memory op.buffer.len bs room)

    Came-failed :
        (k : ℕ) (n : ℕ)
        → k ≢ 0
        → log st' op.fd ≡ log st op.fd
        → Came
            (st', system_error k, n, record op { memory = write_at op.memory op.buffer.raw_pos [] })
          × IsOpen (record op { memory = write_at op.memory op.buffer.raw_pos [] })
    Came-failed k n h e = (
      inr (ground (arith, h), e ∙ i ∙ ap (λ m. base ++ take op.buffer.len m) (sym same)),
      record {
        at = v.at;
        within = v.within;
        size = v.size;
        fits = subst (λ m. total ≤ length m) (sym same) v.fits;
        small = v.small;
      },
    )
      where
        same : write_at op.memory op.buffer.raw_pos [] ≡ op.memory
        same = write_at-nil op.memory op.buffer.raw_pos

  -- The operation that `recv_part` returns is open too.
  abbrev pub CameOpen : State × ErrorCode × ℕ × RecvOp → Type 0
  CameOpen (st, ec, n, op) = Came (st, ec, n, op) × IsOpen op

  pub recv_part-CameOpen :
      {op : RecvOp} (st : State)
      → IsOpen op
      → In op st op.buffer.len
      → CameOpen (recv_part os st op)
  unfolding recv_part
  recv_part-CameOpen {op} st v i =
      elim (Outcome-cases (os.recv st op.fd (remain op.buffer % 2 ^ 32))) [
        | inl (s, bs, e) ↦ rw (recv_lem os _ (done bs) e) (
            Came-done v st s i bs (laws.gives st s op.fd _ bs e).1 (laws.gives st s op.fd _ bs e).0)
        | inr (s, k, e) ↦ rw (recv_lem os _ (failed k) e) (
            Came-failed v st s i k _ (laws.fails st s op.fd _ k e).1
              (laws.fails st s op.fd _ k e).0)
      ]

  -- An error that would block is an error.
  blocked-In :
      (st : State) (ec : ErrorCode) (n : ℕ) (op : RecvOp)
      → would_block ec ≡ true
      → Came (st, ec, n, op)
      → In op st op.buffer.len
  blocked-In st ec n op b (inr w) = w.1
  blocked-In st ec n op b (inl w) = absurd (ground (arith, b, w.0))

  flagged : {op : RecvOp} (b : Bool) → IsOpen op → IsOpen (record op { received = b })
  flagged b v = record {
    at = v.at;
    within = v.within;
    size = v.size;
    fits = v.fits;
    small = v.small;
  }

  begun-IsReceiving : (r : State × ErrorCode × ℕ × RecvOp) → CameOpen r → IsReceiving (begun os r)
  begun-IsReceiving (st, ec, n, op) w = elim (Bool-cases (would_block ec)) [
    | inl y ↦ rw y (record { is_open = flagged false w.1; bytes = blocked-In st ec n op y w.0 })
    | inr y ↦ rw y (record { is_open = flagged true w.1; bytes = (refl, w.0) })
  ]

  pub begin_recv-IsReceiving :
      {op : RecvOp} (st : State)
      → IsOpen op
      → In op st op.buffer.len
      → op.buffer.len ≡ 0
      → IsReceiving (begin_recv os st op)
  unfolding begin_recv
  begin_recv-IsReceiving {op} st v i z = elim (Bool-cases (remain op.buffer == 0)) [
    | inl y ↦ rw y (record {
      is_open = v;
      bytes = (omega (arith, (==_iff _ 0).0 y, remain_lem v, v.within), subst (In op st) z i);
    })
    | inr y ↦ rw y (begun-IsReceiving (recv_part os st op) (recv_part-CameOpen st v i))
  ]

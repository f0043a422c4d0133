-- ===== src/Socket/Recv/Bytes.antt =====
-- What a `recv_op` has received when it calls back.
pub mod Part
use jnet_lib.Base.{
  ℕ, ◌+◌, ◌-◌, ◌%◌, ◌^◌, ◌≤◌, ◌<◌, ◌≡◌, ◌≢◌, ◌⊎◌, inl, inr, refl, sym, ◌∙◌, ap, subst, Bool, true,
  false, not, ◌&&◌, List, [], ◌++◌, length, take, write_at, ltb, ◌==◌, arith, append_assoc,
  append-nil, take-write_at, length-write_at, write_at-nil, Bool-cases, ==_iff, ltb→le,
}
use jnet_lib.Errors.{ErrorCode, system_error, is_error}
use jnet_lib.Buffer.{append, remain}
use jnet_lib.Posix.{done, failed, Outcome-cases, Fd}
use jnet_lib.Posix.Sockets.{Sockets}
use jnet_lib.Socket.Calls.{recv_lem}
use jnet_lib.Socket.Send.{would_block}
use jnet_lib.Socket.Recv.{
  RecvOp, Phase, posted, empty, waiting, finished, Receiving, recv_part, begun, begin_recv, or_eof,
  settle, received_then, event_error, on_complete, Step, completes, event, posts, elapses, Steps,
  here, next, asyn_recv,
}
use jnet_lib.Socket.Recv.Bytes.Part.{
  IsOpen, In, Came, At, IsReceiving, remain_lem, CameOpen, recv_part-CameOpen,
  begin_recv-IsReceiving, RecvLaws,
}

module _ (os : Sockets) (laws : RecvLaws os) (base : List ℕ) (total : ℕ) where
  open os use {State}
  open laws use {log}

  or_eof-Came :
      (st : State) (ec : ErrorCode) (n : ℕ) (op : RecvOp)
      → Came os laws base total (st, ec, n, op)
      → Came os laws base total (st, or_eof ec n op, n, op)
  unfolding or_eof
  or_eof-Came st ec n op (inr w) = rw w.0 (inr w)
  or_eof-Came st ec n op (inl w) = elim (Bool-cases ((n == 0) && ltb 0 (remain op.buffer))) [
    | inl y ↦ rw (w.0, y) (inr (refl, subst (In os laws base total op st) (nothing y) w.2))
    | inr y ↦ rw (w.0, y) (inl w)
  ]
    where
      nothing : ((n == 0) && ltb 0 (remain op.buffer)) ≡ true → op.buffer.len + n ≡ op.buffer.len
      nothing y = ground (arith, y)

  abbrev appended : RecvOp → ℕ → RecvOp
  appended op n = record op { buffer = append op.buffer n }

  module _ {op : RecvOp} (n : ℕ) (v : IsOpen os laws base total op)
      (l : op.buffer.len + n ≤ total) where
    append-IsOpen : IsOpen os laws base total (appended op n)
    append-IsOpen = record {
      at = omega (arith, v.at, v.small);
      within = omega (arith, v.small);
      size = v.size;
      fits = v.fits;
      small = v.small;
    }

    append-In :
        (st : State)
        → In os laws base total op st (op.buffer.len + n)
        → In os laws base total (appended op n) st (appended op n).buffer.len
    append-In st i =
        subst (In os laws base total op st)
          (let e : op.buffer.len + n ≡ (op.buffer.len + n) % 2 ^ 64 = omega (arith, v.small) in e) i

    append_all :
        (not op.some && ltb 0 (remain (appended op n).buffer)) ≡ false
        → (op.some ≡ true) ⊎ ((appended op n).buffer.len ≡ total)
    append_all e = elim (Bool-cases op.some) [
      | inl y ↦ inl y
      | inr y ↦ inr (
          omega (
            arith,
            (remain_lem os laws base total) append-IsOpen,
            append-IsOpen.within,
            ltb→le 0 (remain (appended op n).buffer) (ground (arith, e, y)),
          ))
    ]

  settle-IsReceiving :
      {op : RecvOp} (ec : ErrorCode) (n : ℕ) (st : State)
      → IsOpen os laws base total op
      → Came os laws base total (st, ec, n, op)
      → IsReceiving os laws base total (settle os ec n st op)
  unfolding settle
  settle-IsReceiving {op} ec n st v (inl w) =
      elim (Bool-cases (not op.some && ltb 0 (remain (appended op n).buffer))) [
        | inl y ↦
            rw (w.0, y)
              (record { is_open = append-IsOpen n v w.1; bytes = append-In n v w.1 st w.2 })
        | inr y ↦
            rw (w.0, y)
              (record {
                is_open = append-IsOpen n v w.1;
                bytes = (
                  (append-IsOpen n v w.1).within,
                  append-In n v w.1 st w.2,
                  inr (append_all n v w.1 y),
                );
              })
      ]
  settle-IsReceiving {op} ec n st v (inr w) = elim (Bool-cases (would_block ec)) [
    | inl y ↦ rw (w.0, y) (record { is_open = v; bytes = w.1 })
    | inr y ↦ rw (w.0, y) (record { is_open = v; bytes = (v.within, w.1, inl w.0) })
  ]

  received_then-IsReceiving :
      (r : State × ErrorCode × ℕ × RecvOp)
      → CameOpen os laws base total r
      → IsReceiving os laws base total (received_then os r)
  unfolding received_then
  received_then-IsReceiving (st, ec, n, op) w =
      settle-IsReceiving (or_eof ec n op) n st w.1 (or_eof-Came st ec n op w.0)

  -- With the result of the `recv` in `begin_recv`, and with an event.
  posted-IsReceiving :
      {op : RecvOp} (st : State) (ec : ErrorCode) (n : ℕ)
      → IsOpen os laws base total op
      → op.received ≡ true
      → Came os laws base total (st, ec, n, op)
      → IsReceiving os laws base total (on_complete os st op ec 0 n)
  unfolding on_complete
  posted-IsReceiving {op} st ec n v s w =
      rw
        (no_recv (not (is_error (event_error ec 0))) (not (remain op.buffer % 2 ^ 32 == 0))
          op.received s)
        (received_then-IsReceiving (st, event_error ec 0, n, op)
          (subst (λ k. (Came os laws base total) (st, k, n, op)) (sym (no_flags ec)) w, v))
    where
      no_recv : (a b c : Bool) → c ≡ true → (a && (b && not c)) ≡ false
      no_recv a b c e = ground (arith, e)

      no_flags : (ec : ErrorCode) → event_error ec 0 ≡ ec
      no_flags ec = ground arith

  event-IsReceiving :
      {op : RecvOp} (st : State) (ec : ErrorCode) (flags : ℕ)
      → IsOpen os laws base total op
      → In os laws base total op st op.buffer.len
      → IsReceiving os laws base total (on_complete os st op ec flags 0)
  unfolding on_complete
  event-IsReceiving {op} st ec flags v i =
      elim (Bool-cases (
        not (is_error (event_error ec flags))
        && (not (remain op.buffer % 2 ^ 32 == 0) && not op.received))) [
          | inl y ↦ rw y (
              received_then-IsReceiving (recv_part os st op)
                (recv_part-CameOpen os laws base total st v i))
          | inr y ↦ rw y (
              received_then-IsReceiving (st, event_error ec flags, 0, op)
                (
                  untouched (event_error ec flags) (Bool-cases (is_error (event_error ec flags))),
                  v,
                ))
        ]
    where
      untouched :
          (ec : ErrorCode)
          → (is_error ec ≡ true) ⊎ (is_error ec ≡ false)
          → Came os laws base total (st, ec, 0, op)
      untouched ec (inl e) = inr (e, i)
      untouched ec (inr e) = inl (
        e,
        omega (arith, v.within),
        subst (In os laws base total op st)
            (let z : op.buffer.len ≡ op.buffer.len + 0 = omega arith in z) i,
      )

  At-elapse :
      (op : RecvOp) (st st' : State) (ph : Phase)
      → log st' op.fd ≡ log st op.fd
      → At os laws base total op st ph
      → At os laws base total op st' ph
  At-elapse op st st' (posted ec n) e (s, inl w) = (s, inl (w.0, w.1, e ∙ w.2))
  At-elapse op st st' (posted ec n) e (s, inr w) = (s, inr (w.0, e ∙ w.1))
  At-elapse op st st' empty e w = (w.0, e ∙ w.1)
  At-elapse op st st' waiting e w = e ∙ w
  At-elapse op st st' (finished ec n) e w = (w.0, e ∙ w.1, w.2)

  At-phase :
      (t : Receiving os) (ph : Phase)
      → IsReceiving os laws base total t
      → t.phase ≡ ph
      → At os laws base total t.op t.state ph
  At-phase t ph v e = subst (At os laws base total t.op t.state) e v.bytes

  Step-IsReceiving :
      (t t' : Receiving os)
      → IsReceiving os laws base total t
      → Step os log t t'
      → IsReceiving os laws base total t'
  Step-IsReceiving t t' v (completes ec n p e) = subst (IsReceiving os laws base total) (sym e) (
      posted-IsReceiving t.state ec n v.is_open (At-phase t (posted ec n) v p).0
        (At-phase t (posted ec n) v p).1)
  Step-IsReceiving t t' v (event ec flags p e) =
      subst (IsReceiving os laws base total) (sym e)
        (event-IsReceiving t.state ec flags v.is_open (At-phase t waiting v p))
  Step-IsReceiving t t' v (posts p e) =
      let (all, i) = At-phase t empty v p in
      subst (IsReceiving os laws base total) (sym e)
        (record { is_open = v.is_open; bytes = (omega arith, i, inr (inr all)) })
  Step-IsReceiving t t' v (elapses st same e) =
      subst (IsReceiving os laws base total) (sym e)
        (record { is_open = v.is_open; bytes = At-elapse t.op t.state st t.phase same v.bytes })

  pub Steps-IsReceiving :
      {t t' : Receiving os}
      → IsReceiving os laws base total t
      → Steps os log t t'
      → IsReceiving os laws base total t'
  Steps-IsReceiving v here = v
  Steps-IsReceiving v (next {u} {v = w} h s) = Step-IsReceiving u w (Steps-IsReceiving v h) s

module _ (os : Sockets) (laws : RecvLaws os) where
  open os use {State}
  open laws use {log}

  -- In every history of a receive of len bytes, below 2^64, into a memory that holds them,
  -- with asyn_recv or asyn_recv_some: what came in stands at the start of the memory, of as
  -- many bytes as the callback reports, and asyn_recv reports fewer than len only with an
  -- error.
  pub asyn_recv-Receives :
      (fd : Fd) (memory : List ℕ) (len : ℕ) (some : Bool) (st : State)
      → len ≤ length memory
      → len < 2 ^ 64
      → {t : Receiving os} → Steps os log (begin_recv os st (asyn_recv fd memory len some)) t
      → IsReceiving os laws (log st fd) len t
  asyn_recv-Receives fd memory len some st fits small run =
      Steps-IsReceiving os laws (log st fd) len
        (begin_recv-IsReceiving os laws (log st fd) len st
          (record { at = refl; within = omega arith; size = refl; fits = fits; small = small })
          (sym (append-nil (log st fd))) refl)
        run

-- ===== src/Socket/Accept/Accepted.antt =====
-- What an accept gives to its callback.
use jnet_lib.Base.{
  ℕ, ◌≡◌, ◌⊎◌, inl, inr, refl, subst, Bool, true, false, not, ◌&&◌, Bool-cases, some, ◌==◌, arith,
}
use jnet_lib.Errors.{ErrorCode, is_error}
use jnet_lib.Posix.{done, failed, Outcome-cases, Fd}
use jnet_lib.Posix.Sockets.{Sockets}
use jnet_lib.Socket.{accept_socket, no_events}
use jnet_lib.Socket.Calls.{accept_lem, register_event}
use jnet_lib.Socket.Send.{would_block}
use jnet_lib.Socket.Accept.{
  AcceptOp, new_accept_op, Phase, posted, waiting, finished, Accepting, begin_accept, on_complete,
  Steps, start, completes, event, elapses,
}

module _ (os : Sockets) where
  open os use {State}

  -- A call of `accept` has given the descriptor, and it was registered.
  pub record IsAccepted (acceptor fd : Fd) : Type 0 where
    pub before : State
    pub after : State
    pub number : ℕ
    pub accepts : os.accept before acceptor ≡ (after, done number)
    pub is_fd : fd ≡ some number
    pub registers : is_error (register_event os after (some number) no_events).1 ≡ false

  abbrev pub Gives : Fd → ErrorCode → Fd → Type 0
  Gives acceptor ec fd = (is_error ec ≡ true) ⊎ IsAccepted acceptor fd

  registered-Gives :
      (st st' : State) (acceptor : Fd) (n : ℕ)
      → os.accept st acceptor ≡ (st', done n)
      → (b : Bool) → is_error (register_event os st' (some n) no_events).1 ≡ b
      → Gives acceptor (register_event os st' (some n) no_events).1 (some n)
  registered-Gives st st' acceptor n e true r = inl r
  registered-Gives st st' acceptor n e false r =
      inr
        (record { before = st; after = st'; number = n; accepts = e; is_fd = refl; registers = r })

  -- A call that fails leaves an error.
  abbrev pub AcceptFails : Type 0
  AcceptFails =
      (st st' : State) (acceptor : Fd) (e : ℕ)
      → os.accept st acceptor ≡ (st', failed e)
      → (e == 0) ≡ false

  module _ (fails : AcceptFails) where
    accept_socket-Gives :
        (st : State) (acceptor old : Fd)
        → Gives acceptor (accept_socket os st acceptor old).1 (accept_socket os st acceptor old).2
    unfolding accept_socket
    accept_socket-Gives st acceptor old = elim (Outcome-cases (os.accept st acceptor)) [
      | inl (st', n, e) ↦
          rw (accept_lem os old (done n) e) (registered-Gives st st' acceptor n e _ refl)
      | inr (st', k, e) ↦
          rw
            (
              accept_lem os old (failed k) e,
              let z : (k == 0) ≡ false = fails st st' acceptor k e in z,
            )
            (inl (ground (arith, fails st st' acceptor k e)))
    ]

    -- What holds of an operation in each phase.
    abbrev pub Holds : AcceptOp → Phase → Type 0
    Holds op (posted ec) = (op.accepted ≡ true) × Gives op.acceptor ec op.socket
    Holds op waiting = op.accepted ≡ false
    Holds op (finished ec) = Gives op.acceptor ec op.socket

    begin_accept-Holds :
        (st : State) (op : AcceptOp)
        → Holds (begin_accept os st op).op (begin_accept os st op).phase
    unfolding begin_accept
    begin_accept-Holds st op =
        elim (Bool-cases (would_block (accept_socket os st op.acceptor op.socket).1)) [
          | inl b ↦ rw b refl
          | inr b ↦ rw b (refl, accept_socket-Gives st op.acceptor op.socket)
        ]

    on_complete-Holds :
        (st : State) (op : AcceptOp) (ec : ErrorCode)
        → (op.accepted ≡ false) ⊎ Gives op.acceptor ec op.socket
        → Holds (on_complete os st op ec).op (on_complete os st op ec).phase
    unfolding on_complete
    on_complete-Holds st op ec h = elim (Bool-cases (not (is_error ec) && not op.accepted)) [
      | inl b ↦ rw b (accept_socket-Gives st op.acceptor op.socket)
      | inr b ↦ rw b (given b h)
    ]
      where
        given :
            not (is_error ec) && not op.accepted ≡ false
            → (op.accepted ≡ false) ⊎ Gives op.acceptor ec op.socket
            → Gives op.acceptor ec op.socket
        given b (inl a) = inl (ground (arith, a, b))
        given b (inr g) = g

    Steps-Holds :
        {st : State} {op : AcceptOp} {t : Accepting os} → Steps os st op t → Holds t.op t.phase
    Steps-Holds {st} {op} start = begin_accept-Holds st op
    Steps-Holds (completes {t} ec h e) =
        on_complete-Holds t.state t.op ec (inr (subst (Holds t.op) e (Steps-Holds h)).1)
    Steps-Holds (event {t} ec h e) =
        on_complete-Holds t.state t.op ec (inl (subst (Holds t.op) e (Steps-Holds h)))
    Steps-Holds (elapses st' h) = Steps-Holds h

    -- If a call of accept that fails leaves an error number that is not 0, then in every
    -- history of an accept, whatever it waits for and whatever else happens to the system, its
    -- callback gets an error, or the socket has a descriptor that a call of accept on this
    -- acceptor returned and that was registered at the service right after.
    pub asyn_accept-Gives :
        {st : State} {acceptor old : Fd} {t : Accepting os} (ec : ErrorCode)
        → Steps os st (new_accept_op acceptor old) t
        → t.phase ≡ finished ec
        → Gives t.op.acceptor ec t.op.socket
    asyn_accept-Gives {t} ec h e = subst (Holds t.op) e (Steps-Holds h)

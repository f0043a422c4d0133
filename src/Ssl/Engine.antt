-- ===== src/Ssl/Engine.antt =====
-- What the engine and the transport rely on in OpenSSL, and what `perform` and `op_` answer then.
use jnet_lib.Base.{
  ℕ, ◌%◌, ◌^◌, ◌≤◌, ◌<◌, ◌≡◌, refl, not, ◌&&◌, List, length, min, arith, Bool-cases, ltb, ◌==◌,
  if◌then◌else◌, inl, inr,
}
use jnet_lib.Base.Int.{ℤ, pos}
use jnet_lib.Ssl.{
  OpenSsl, Want, want_input_and_retry, want_output_and_retry, want_nothing, want_output, Call,
  do_accept, do_connect, do_shutdown, is_read, is_failure, settled, outcome, positive, no_input,
  call, perform,
}
use jnet_lib.Ssl.Io.{SslOp, handshake, send, recv, shutdown, Io, call_op}

module _ (os : OpenSsl) where
  open os use {State}

  -- The state after a call and ERR_get_error.
  abbrev pub after : Call → State → State
  after c s = (os.take_error (call os c s).0).0

  abbrev pub error_of : Call → State → ℕ
  error_of c s = os.get_error (call os c s).0 (call os c s).1

  -- After SSL_ERROR_WANT_READ the BIO takes input, a byte at least if there is one; after
  -- SSL_ERROR_WANT_WRITE there is output; and output that is pending can be read.
  pub record IsOpenSsl : Type 1 where
    pub TakesInput : State → Type 0
    pub wants_read : (c : Call) (s : State) → error_of c s ≡ 2 → TakesInput (after c s)
    pub wants_write : (c : Call) (s : State) → error_of c s ≡ 3 → 0 < os.pending (after c s)
    pub bio_write :
        (s : State) (bs : List ℕ)
        → TakesInput s
        → (n : ℕ) × (n ≤ length bs) × (min 1 (length bs) ≤ n) × ((os.bio_write s bs).1 ≡ pos n)
    pub bio_read :
        (s : State) (len : ℕ)
        → 0 < os.pending s
        → 0 < len
        → (n : ℕ) × (0 < n) × (n ≤ len) × ((os.bio_read s len).1 ≡ pos n)

  module _ (laws : IsOpenSsl) where
    -- What the answer of the engine promises.
    pub data Ready (s : State) : Want → Type 0 where
      for_input : laws.TakesInput s → Ready s want_input_and_retry
      for_retry : 0 < os.pending s → Ready s want_output_and_retry
      for_output : 0 < os.pending s → Ready s want_output
      for_nothing : Ready s want_nothing

    outcome-Ready :
        (c : Call) (e before : ℕ) (result : ℤ) (s : State)
        → (settled e ≡ 2 → laws.TakesInput s)
        → (settled e ≡ 3 → 0 < os.pending s)
        → Ready s (outcome c (settled e) result before (os.pending s) (os.received_shutdown s)).0
    unfolding outcome
    outcome-Ready c e before result s i o = elim (Bool-cases (settled e == 3)) [
      | inl x ↦ rw x (for_retry (o (ground (arith, x))))
      | inr x ↦ elim (Bool-cases (ltb before (os.pending s) && not (is_read c))) [
        | inl y ↦ elim (Bool-cases (ltb 0 (positive result))) [
          | inl z ↦ rw (x, y, z) (for_output (ground (arith, y)))
          | inr z ↦ rw (x, y, z) (for_retry (ground (arith, y)))
        ]
        | inr y ↦ elim (Bool-cases (settled e == 2)) [
          | inl z ↦ rw (x, y, z) (for_input (i (ground (arith, z))))
          | inr z ↦ elim (Bool-cases (os.received_shutdown s)) [
            | inl w ↦ rw (x, y, z, w) for_nothing
            | inr w ↦ rw (x, y, z, w) for_nothing
          ]
        ]
      ]
    ]

    pub perform-Ready :
        (c : Call) (s : State) (bytes : ℕ)
        → Ready (perform os c s bytes).state (perform os c s bytes).want
    unfolding perform
    perform-Ready c s bytes =
        elim (Bool-cases
          (is_failure c (error_of c s) ((os.take_error (call os c s).0).1 % 2 ^ 32))) [
            | inl f ↦ rw f for_nothing
            | inr f ↦ rw f (
                outcome-Ready c (error_of c s) (os.pending s) (call os c s).1 (after c s)
                  (λ e. laws.wants_read c s (ground (arith, e)))
                  (λ e. laws.wants_write c s (ground (arith, e))))
          ]

    no_input-Ready : (s : State) (w : Want) → Ready s w → Ready s (no_input w)
    no_input-Ready s want_input_and_retry (for_input t) = for_nothing
    no_input-Ready s want_output_and_retry (for_retry p) = for_retry p
    no_input-Ready s want_nothing for_nothing = for_nothing
    no_input-Ready s want_output (for_output p) = for_output p

    -- The answer to an operation; its call changes nothing of the buffer and the flags.
    pub call_op-Ready :
        (op : SslOp) (io : Io os) → Ready (call_op os op io).engine (call_op os op io).want
    call_op-Ready (handshake client) io =
        perform-Ready (if client then do_connect else do_accept) io.engine 0
    call_op-Ready (send b memory) io = perform-Ready _ io.engine io.bytes_transferred
    call_op-Ready (recv some_ b memory) io = perform-Ready _ io.engine io.bytes_transferred
    call_op-Ready shutdown io = no_input-Ready _ _ (perform-Ready do_shutdown io.engine 0)

  pub call_op-input : (op : SslOp) (io : Io os) → (call_op os op io).input ≡ io.input
  call_op-input (handshake client) io = refl
  call_op-input (send b memory) io = refl
  call_op-input (recv some_ b memory) io = refl
  call_op-input shutdown io = refl

  pub call_op-input_flag : (op : SslOp) (io : Io os) → (call_op os op io).input_flag ≡ io.input_flag
  call_op-input_flag (handshake client) io = refl
  call_op-input_flag (send b memory) io = refl
  call_op-input_flag (recv some_ b memory) io = refl
  call_op-input_flag shutdown io = refl

  pub call_op-output_flag :
      (op : SslOp) (io : Io os) → (call_op os op io).output_flag ≡ io.output_flag
  call_op-output_flag (handshake client) io = refl
  call_op-output_flag (send b memory) io = refl
  call_op-output_flag (recv some_ b memory) io = refl
  call_op-output_flag shutdown io = refl

-- ===== src/Ssl/Io/Flow.antt =====
-- The histories of an SSL operation that is alone on its socket.
pub mod Turn
use jnet_lib.Base.{
  ℕ, zero, suc, ◌+◌, ◌-◌, ◌^◌, ◌≤◌, ◌<◌, ◌≡◌, ◌⊎◌, refl, sym, ap, ◌∙◌, subst, Bool, true, false,
  not, ◌&&◌, some, List, [], ◌∷◌, ◌++◌, length, length-drop, drop, min, arith, Bool-cases, ltb, leb,
  ◌==◌, inl, inr,
}
use jnet_lib.Errors.{ErrorCode, no_error, is_error}
use jnet_lib.Ssl.{
  OpenSsl, Want, want_input_and_retry, want_output_and_retry, want_nothing, want_output, get_output,
  put_input,
}
use jnet_lib.Ssl.Io.{
  SslOp, Io, call_op, ssl_buffer_size, Phase, receiving, sending, posted, completed, feed, finished,
  failed, retry, retry_fed, begin_send, with_error, input_wanted, wanted, turn, resume_wanted,
  resume, do_ssl_operation, receive_callback, send_callback, post_callback, sent_then, Next, again,
  called, on_complete, handshake, send, recv, shutdown,
}
use jnet_lib.Buffer.{remain}
use jnet_lib.Ssl.Engine.{
  IsOpenSsl, Ready, for_input, for_retry, for_output, for_nothing, call_op-Ready, call_op-input,
  call_op-input_flag, call_op-output_flag,
}
use jnet_lib.Ssl.Io.Flow.Turn.{
  IsClear, Settled, finished-Settled, GoesOn, retry-Settled, retry_fed-Settled, turn-Settled,
  with_error-keeps, receives, sends, is_posted, completes,
}

module _ (os : OpenSsl) (laws : IsOpenSsl os) where
  sent_then-Settled :
      (next : Io os → Phase os) (k : ℕ)
      → GoesOn os laws next k
      → (io : Io os) → (io.want ≡ want_output_and_retry) ⊎ (io.want ≡ want_output)
      → io.input_flag ≡ false
      → io.output_flag ≡ true
      → length io.input < k
      → Settled os laws (sent_then os next io)
  sent_then-Settled next k g io w i o l =
      elim (Bool-cases (ltb 0 (get_output os io.engine ssl_buffer_size).1)) [
        | inl e ↦ rw e (sends _ _ w i o)
        | inr e ↦ rw e (g _ (i, refl) l)
      ]

  module _ (fuel : ℕ) (ec : ErrorCode) (n : ℕ) where
    abbrev loop : Io os → Phase os
    loop = turn os fuel false ec n

    resume_input :
        (io : Io os) {w : Want}
        → w ≡ want_input_and_retry
        → laws.TakesInput io.engine
        → io.output_flag ≡ false
        → length io.input < fuel
        → Settled os laws (resume_wanted os loop w io)
    resume_input io e t o l =
        subst (λ w. (Settled os laws) (resume_wanted os loop w io)) (sym e)
          (retry_fed-Settled os laws loop fuel (turn-Settled os laws fuel false ec n)
            (record io { input_flag = false }) t (refl, o) (omega (arith, l)))

    resume_output :
        (io : Io os) {w : Want}
        → (io.want ≡ want_output_and_retry) ⊎ (io.want ≡ want_output)
        → io.want ≡ w
        → io.input_flag ≡ false
        → io.output_flag ≡ true
        → length io.input < fuel
        → Settled os laws (resume_wanted os loop w io)
    resume_output io (inl e) e' i o l =
        subst (λ w. (Settled os laws) (resume_wanted os loop w io)) (sym e ∙ e')
          (sent_then-Settled (retry os loop) fuel
            (retry-Settled os laws loop fuel (turn-Settled os laws fuel false ec n)) io (inl e) i o
            l)
    resume_output io (inr e) e' i o l =
        subst (λ w. (Settled os laws) (resume_wanted os loop w io)) (sym e ∙ e')
          (sent_then-Settled (finished os) fuel (λ io' c l'. (finished-Settled os laws) io' c) io
            (inr e) i o l)

  receive_callback-Settled :
      (fuel : ℕ) (io : Io os) (ec : ErrorCode) (bs : List ℕ)
      → io.want ≡ want_input_and_retry
      → laws.TakesInput io.engine
      → io.output_flag ≡ false
      → io.input ≡ []
      → length bs < fuel
      → Settled os laws (receive_callback os fuel io ec bs)
  unfolding resume
  receive_callback-Settled fuel io ec bs w t o e l =
      let l' : length (io.input ++ bs) < fuel = subst (λ xs. length (xs ++ bs) < fuel) (sym e) l in
      (with_error-keeps os laws)
        (λ io. (Settled os laws) (resume_wanted os (turn os fuel false ec (length bs)) io.want io))
        ec (length bs) (record io { input = io.input ++ bs })
        (resume_input fuel ec (length bs) _ w t o l') (resume_input fuel ec (length bs) _ w t o l')

  send_callback-Settled :
      (fuel : ℕ) (io : Io os) (ec : ErrorCode) (n : ℕ)
      → (io.want ≡ want_output_and_retry) ⊎ (io.want ≡ want_output)
      → io.input_flag ≡ false
      → io.output_flag ≡ true
      → length io.input < fuel
      → Settled os laws (send_callback os fuel io ec n)
  unfolding resume
  send_callback-Settled fuel io ec n w i o l =
      (with_error-keeps os laws)
        (λ io. (Settled os laws) (resume_wanted os (turn os fuel false ec n) io.want io)) ec n io
        (resume_output fuel ec n _ w refl i o l) (resume_output fuel ec n _ w refl i o l)

  -- Each call of `io_operation` has fuel for the bytes of its input.
  pub data Steps (io₀ : Io os) : Next os → Type 0 where
    start : (fuel : ℕ) → length io₀.input < fuel → Steps io₀ (again (do_ssl_operation os fuel io₀))
    received :
        {io : Io os} {len : ℕ}
        → Steps io₀ (again (receiving io len))
        → (fuel : ℕ) (ec : ErrorCode) (bs : List ℕ) → length bs < fuel
        → Steps io₀ (again (receive_callback os fuel io ec bs))
    sent :
        {io : Io os} {bs : List ℕ}
        → Steps io₀ (again (sending io bs))
        → (fuel : ℕ) (ec : ErrorCode) (n : ℕ) → length io.input < fuel
        → Steps io₀ (again (send_callback os fuel io ec n))
    called_back :
        {io : Io os} → Steps io₀ (again (posted io)) → Steps io₀ (again (post_callback os io))
    complete :
        {io : Io os} {ec : ErrorCode} {n : ℕ}
        → Steps io₀ (again (completed io ec n))
        → (fuel : ℕ) → length io.input < fuel
        → Steps io₀ (on_complete os fuel io.op io ec)

  pub data IsSettled : Next os → Type 0 where
    goes_on : {ph : Phase os} → Settled os laws ph → IsSettled (again ph)
    reports : (op : SslOp) (ec : ErrorCode) (n : ℕ) → IsSettled (called op ec n)

  on_complete-IsSettled :
      (fuel : ℕ) (op : SslOp) (io : Io os) (ec : ErrorCode)
      → IsClear os laws io
      → length io.input < fuel
      → IsSettled (on_complete os fuel op io ec)
  unfolding on_complete
  on_complete-IsSettled fuel (handshake client) io ec c l = reports _ _ _
  on_complete-IsSettled fuel (send b memory) io ec c l =
      elim (Bool-cases (not (is_error ec) && not (b.len == 0))) [
        | inl e ↦ rw e (goes_on (turn-Settled os laws fuel true no_error 0 io c l))
        | inr e ↦ rw e (reports _ _ _)
      ]
  on_complete-IsSettled fuel (recv some_ b memory) io ec c l =
      elim (Bool-cases (not (is_error ec) && (not some_ && not (remain b == 0)))) [
        | inl e ↦ rw e (goes_on (turn-Settled os laws fuel true no_error 0 io c l))
        | inr e ↦ rw e (reports _ _ _)
      ]
  on_complete-IsSettled fuel shutdown io ec c l = reports _ _ _

  -- If OpenSSL takes input after SSL_ERROR_WANT_READ and gives the output that is pending, and
  -- some is pending after SSL_ERROR_WANT_WRITE, then in every history of an SSL operation that
  -- is alone on its socket, with the flags clear at first and in each call more fuel than
  -- bytes of input, whatever the transport does: each call of io_operation ends, with the
  -- operation receiving, sending, posted or completed; it never waits for nothing, fails no
  -- assertion and moves no bytes outside of the buffer; and input_flag and output_flag are set
  -- exactly while a receive or a send is under way.
  pub Steps-IsSettled : {io : Io os} {r : Next os} → IsClear os laws io → Steps io r → IsSettled r
  Steps-IsSettled {io} c (start fuel l) = goes_on (turn-Settled os laws fuel true no_error 0 io c l)
  Steps-IsSettled c (received s fuel ec bs l) = elim (Steps-IsSettled c s) [
    | goes_on (receives io _ w t i o e) ↦ goes_on (receive_callback-Settled fuel io ec bs w t o e l)
  ]
  Steps-IsSettled c (sent s fuel ec n l) = elim (Steps-IsSettled c s) [
    | goes_on (sends io _ w i o) ↦ goes_on (send_callback-Settled fuel io ec n w i o l)
  ]
  Steps-IsSettled c (called_back s) = elim (Steps-IsSettled c s) [
    | goes_on (is_posted io c') ↦ goes_on (completes _ _ _ c')
  ]
  Steps-IsSettled c (complete {io} s fuel l) = elim (Steps-IsSettled c s) [
    | goes_on (completes io _ _ c') ↦ on_complete-IsSettled fuel io.op io _ c' l
  ]

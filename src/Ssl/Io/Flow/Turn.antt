-- ===== src/Ssl/Io/Flow/Turn.antt =====
-- How `io_operation` ends.
use jnet_lib.Base.{
  ℕ, zero, suc, ◌+◌, ◌-◌, ◌^◌, ◌≤◌, ◌<◌, ◌≡◌, ◌⊎◌, refl, sym, ap, ◌∙◌, subst, Bool, true, false,
  not, ◌&&◌, some, List, [], ◌∷◌, length, length-drop, drop, min, arith, Bool-cases, ltb, leb, ◌==◌,
  inl, inr,
}
use jnet_lib.Errors.{ErrorCode, is_error}
use jnet_lib.Ssl.{
  OpenSsl, Want, want_input_and_retry, want_output_and_retry, want_nothing, want_output, get_output,
  put_input,
}
use jnet_lib.Ssl.Io.{
  Io, call_op, ssl_buffer_size, Phase, receiving, sending, posted, completed, feed, finished,
  failed, retry, retry_fed, begin_send, with_error, input_wanted, wanted, turn,
}
use jnet_lib.Ssl.Engine.{
  IsOpenSsl, Ready, for_input, for_retry, for_output, for_nothing, call_op-Ready, call_op-input,
  call_op-input_flag, call_op-output_flag,
}

module _ (os : OpenSsl) (laws : IsOpenSsl os) where
  -- No receive and no send is under way.
  abbrev pub IsClear : Io os → Type 0
  IsClear io = (io.input_flag ≡ false) × (io.output_flag ≡ false)

  -- The flags say what is under way, and the engine can take what comes.
  pub data Settled : Phase os → Type 0 where
    receives :
        (io : Io os) (len : ℕ)
        → io.want ≡ want_input_and_retry
        → laws.TakesInput io.engine
        → io.input_flag ≡ true
        → io.output_flag ≡ false
        → io.input ≡ []
        → Settled (receiving io len)
    sends :
        (io : Io os) (bs : List ℕ)
        → (io.want ≡ want_output_and_retry) ⊎ (io.want ≡ want_output)
        → io.input_flag ≡ false
        → io.output_flag ≡ true
        → Settled (sending io bs)
    is_posted : (io : Io os) → IsClear io → Settled (posted io)
    completes : (io : Io os) (ec : ErrorCode) (n : ℕ) → IsClear io → Settled (completed io ec n)

  -- What `feed` leaves.
  record Fed (io io' : Io os) : Type 0 where
    pub less : length io'.input + min 1 (length io.input) ≤ length io.input
    pub input_flag : io'.input_flag ≡ io.input_flag
    pub output_flag : io'.output_flag ≡ io.output_flag

  feed-Fed :
      (io : Io os)
      → laws.TakesInput io.engine
      → (io' : Io os) × (feed os io ≡ some io') × Fed io io'
  unfolding feed put_input
  feed-Fed io t =
      let (n, fits, some_, e) = laws.bio_write io.engine io.input t in
      (
        record io { engine = (os.bio_write io.engine io.input).0; input = drop n io.input },
        rw (e, let l : leb n (length io.input) ≡ true = ground (arith, fits) in l) refl,
        record {
          less = omega (arith, length-drop n io.input, fits, some_);
          input_flag = refl;
          output_flag = refl;
        },
      )

  -- Output that is pending comes out.
  get_output-some :
      (s : os.State) → 0 < os.pending s → ltb 0 (get_output os s ssl_buffer_size).1 ≡ true
  unfolding get_output
  get_output-some s p =
      let (n, some_, fits, e) = laws.bio_read s ssl_buffer_size p (omega arith) in
      rw (let l : ltb 0 (os.pending s) ≡ true = ground (arith, p) in l, e) (ground (arith, some_))

  abbrev clear_flags : {io io' : Io os} → Fed io io' → IsClear io → IsClear io'
  clear_flags f (i, o) = (f.input_flag ∙ i, f.output_flag ∙ o)

  failed-Settled : (io : Io os) → IsClear io → Settled (failed os io)
  failed-Settled io c = completes _ _ _ c

  pub finished-Settled : (io : Io os) → IsClear io → Settled (finished os io)
  finished-Settled io c = completes _ _ _ c

  with_error-IsClear :
      (ec : ErrorCode) (n : ℕ) (io : Io os) → IsClear io → IsClear (with_error os ec n io)
  with_error-IsClear ec n io c = elim (Bool-cases (not (n == 2 ^ 64 - 1) && not (is_error io.ec))) [
    | inl e ↦ rw e c
    | inr e ↦ rw e c
  ]

  -- A loop that goes on with so much input at most.
  abbrev pub GoesOn : (Io os → Phase os) → ℕ → Type 0
  GoesOn loop k = (io : Io os) → IsClear io → length io.input < k → Settled (loop io)

  pub retry-Settled : (loop : Io os → Phase os) (k : ℕ) → GoesOn loop k → GoesOn (retry os loop) k
  retry-Settled loop k g io c l = elim (Bool-cases (is_error io.ec)) [
    | inl e ↦ rw e (failed-Settled io c)
    | inr e ↦ rw e (g io c l)
  ]

  pub retry_fed-Settled :
      (loop : Io os → Phase os) (k : ℕ)
      → GoesOn loop k
      → (io : Io os) → laws.TakesInput io.engine
      → IsClear io
      → length io.input - min 1 (length io.input) < k
      → Settled (retry_fed os loop (feed os io))
  retry_fed-Settled loop k g io t c l =
      let (io', e, f) = feed-Fed io t in
      subst (λ r. Settled (retry_fed os loop r)) (sym e)
        (retry-Settled loop k g io' (clear_flags f c) (omega (arith, f.less)))

  begin_send-Settled :
      (io : Io os)
      → 0 < os.pending io.engine
      → (io.want ≡ want_output_and_retry) ⊎ (io.want ≡ want_output)
      → IsClear io
      → Settled (begin_send os io)
  begin_send-Settled io p w (i, o) = rw (o, get_output-some io.engine p) (sends _ _ w i refl)

  input_wanted-Settled :
      (loop : Io os → Phase os) (k : ℕ)
      → GoesOn loop k
      → (io : Io os) (bs : List ℕ) → io.input ≡ bs
      → io.want ≡ want_input_and_retry
      → laws.TakesInput io.engine
      → IsClear io
      → length io.input < suc k
      → Settled (input_wanted os loop bs io)
  input_wanted-Settled loop k g io [] e w t (i, o) l = rw i (receives _ _ w t refl o e)
  input_wanted-Settled loop k g io (b ∷ bs) e w t c l =
      retry_fed-Settled loop k g io t c (omega (arith, l, ap length e))

  wanted-Settled :
      (loop : Io os → Phase os) (k : ℕ)
      → GoesOn loop k
      → (start : Bool) (ec : ErrorCode) (n : ℕ) (io : Io os) (w : Want) → io.want ≡ w
      → Ready os laws io.engine w
      → IsClear io
      → length io.input < suc k
      → Settled (wanted os loop start ec n w io)
  wanted-Settled loop k g start ec n io want_input_and_retry e (for_input t) c l =
      input_wanted-Settled loop k g io io.input refl e t c l
  wanted-Settled loop k g start ec n io want_output_and_retry e (for_retry p) c l =
      begin_send-Settled io p (inl e) c
  wanted-Settled loop k g start ec n io want_output e (for_output p) c l =
      begin_send-Settled io p (inr e) c
  wanted-Settled loop k g true ec n io want_nothing e for_nothing c l = is_posted io c
  wanted-Settled loop k g false ec n io want_nothing e for_nothing c l =
      finished-Settled (with_error os ec n io) (with_error-IsClear ec n io c)

  pub turn-Settled :
      (fuel : ℕ) (start : Bool) (ec : ErrorCode) (n : ℕ) → GoesOn (turn os fuel start ec n) fuel
  unfolding turn
  turn-Settled zero start ec n io c l = absurd (omega (arith, l))
  turn-Settled (suc fuel) start ec n io (i, o) l =
      wanted-Settled (turn os fuel start ec n) fuel (turn-Settled fuel start ec n) start ec n
        (call_op os io.op io) (call_op os io.op io).want refl (call_op-Ready os laws io.op io)
        (call_op-input_flag os io.op io ∙ i, call_op-output_flag os io.op io ∙ o)
        (omega (arith, l, ap length (call_op-input os io.op io)))

  pub with_error-keeps {ℓ} :
      (P : Io os → Type ℓ) (ec : ErrorCode) (n : ℕ) (io : Io os)
      → P io
      → P (record io { ec = ec })
      → P (with_error os ec n io)
  with_error-keeps P ec n io p q =
      elim (Bool-cases (not (n == 2 ^ 64 - 1) && not (is_error io.ec))) [
        | inl e ↦ rw e q
        | inr e ↦ rw e p
      ]

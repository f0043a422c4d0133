-- ===== src/Ssl/Io/Tests.antt =====
-- A connection that counts bytes: what is pending for the transport, and what came from it.
use jnet_lib.Base.{
  ℕ, zero, suc, ◌+◌, ◌-◌, ◌≡◌, refl, true, false, List, [], ◌∷◌, length, min, arith,
}
use jnet_lib.Base.Int.{ℤ, pos, negsuc}
use jnet_lib.Errors.{no_error, is_error}
use jnet_lib.Ssl.{OpenSsl, call, outcome, perform, want_input_and_retry, want_nothing, ssl_code}
use jnet_lib.Ssl.Io.{Io, send, call_op, new_io, asyn_recv, receiving, again, receive_callback, turn}
use jnet_lib.Ssl.Io.Flow.{Steps, start, received, IsSettled, Steps-IsSettled}
use jnet_lib.Ssl.Engine.{IsOpenSsl}
use jnet_lib.Ssl.Io.Count.{call_op-stale}

abbrev answer : ℤ → ℕ
answer (pos n) = 0
answer (negsuc n) = 2

abbrev read_from : ℕ × ℕ → ℕ → (ℕ × ℕ) × ℤ × List ℕ
read_from (p, zero) n = ((p, 0), negsuc 0, [])
read_from (p, suc a) n = ((p, suc a - min (suc a) n), pos (min (suc a) n), [])

abbrev counting : OpenSsl
counting = record {
  State = ℕ × ℕ;
  accept = λ s. (s, pos 1);
  connect = λ s. (s, pos 1);
  shutdown = λ s. (s, pos 1);
  read = read_from;
  write = λ (p, a) bs n. ((p + n + 5, a), pos n);
  get_error = λ s r. answer r;
  take_error = λ s. (s, 0);
  bio_read = λ (p, a) n. ((p - min p n, a), pos (min p n), []);
  bio_write = λ (p, a) bs. ((p, a + length bs), pos (length bs));
  pending = λ (p, a). p;
  wpending = λ (p, a). 0;
  received_shutdown = λ s. false;
  is_version_2 = λ s. false;
  short_read = 9;
}

answer_ne : (r : ℤ) → answer r ≡ 3 → ⊥
answer_ne (pos n) e = absurd (omega (arith, e))
answer_ne (negsuc n) e = absurd (omega (arith, e))

counting-IsOpenSsl : IsOpenSsl counting
counting-IsOpenSsl = record {
  TakesInput = λ s. s ≡ s;
  wants_read = λ c s e. refl;
  wants_write = λ c s e. absurd (answer_ne (call counting c s).1 e);
  bio_write = λ (p, a) bs t. (length bs, omega arith, omega arith, refl);
  bio_read = λ (p, a) len l l'. (min p len, omega (arith, l, l'), omega arith, refl);
}

abbrev reading : Io counting
reading = new_io counting (0, 0) [] (asyn_recv true (0 ∷ 0 ∷ 0 ∷ []) 3) want_nothing

abbrev waiting : Io counting
waiting = record reading { want = want_input_and_retry; ec = ssl_code 0; input_flag = true }

reading-Steps : Steps counting counting-IsOpenSsl reading (again (receiving waiting 16384))
unfolding turn new_io perform call outcome
reading-Steps = start 1 (omega arith)

Steps-IsSettled_example :
    IsSettled counting counting-IsOpenSsl
      (again (receive_callback counting 3 waiting no_error (7 ∷ 8 ∷ [])))
unfolding new_io
Steps-IsSettled_example =
    Steps-IsSettled counting counting-IsOpenSsl (refl, refl)
      (received reading-Steps 3 no_error (7 ∷ 8 ∷ []) (omega arith))

abbrev broken : OpenSsl
broken = record counting { write = λ s bs n. (s, negsuc 0); get_error = λ s r. 5 }

-- Two of the five bytes have gone out.
abbrev half : Io broken
half = record {
  engine = (0, 0);
  input = [];
  input_flag = false;
  output_flag = false;
  op = send (record { raw = 2; len = 3 }) (1 ∷ 2 ∷ 3 ∷ 4 ∷ 5 ∷ []);
  want = want_nothing;
  ec = no_error;
  bytes_transferred = 2;
}

call_op-stale_example :
    ((call_op broken (send (record { raw = 2; len = 3 }) (1 ∷ 2 ∷ 3 ∷ 4 ∷ 5 ∷ [])) half).op
      ≡ send (record { raw = 4; len = 1 }) (1 ∷ 2 ∷ 3 ∷ 4 ∷ 5 ∷ []))
    × (is_error
          (call_op broken (send (record { raw = 2; len = 3 }) (1 ∷ 2 ∷ 3 ∷ 4 ∷ 5 ∷ [])) half).ec
        ≡ false)
    × ((call_op broken (send (record { raw = 2; len = 3 }) (1 ∷ 2 ∷ 3 ∷ 4 ∷ 5 ∷ [])) half).want
        ≡ want_nothing)
call_op-stale_example =
    call_op-stale broken half (record { raw = 2; len = 3 }) (1 ∷ 2 ∷ 3 ∷ 4 ∷ 5 ∷ []) refl refl
      (omega arith)

-- ===== src/Iocp/Send/Race.antt =====
-- A send on Windows where two threads run the service.
use jnet_lib.Base.{
  ℕ, ◌-◌, ◌^◌, ◌≤◌, ◌<◌, ◌≡◌, refl, ap, subst, true, false, List, [], ◌∷◌, ◌++◌, ◌==◌, arith,
}
use jnet_lib.Errors.{ErrorCode, no_error}
use jnet_lib.Buffer.{ConstBuffer, consume}
use jnet_lib.Iocp.Send.{
  Sending, shrink_to, wsa_len, max_send_buffer_size, asyn_send, send_rest, call_back, completes,
  goes_on, Steps, here, next,
}

-- Where it goes wrong: what one thread reads of the operation after it has restarted it, another has deleted.
abbrev pub ReadsDeleted : ℕ → Sending → Type 0
ReadsDeleted len t =
    (t.called ≡ (no_error, len) ∷ [])
    × (t.tails ≡ no_error ∷ [])
    × ((call_back no_error [] t).called ≡ (no_error, len) ∷ (no_error, len) ∷ [])

module _ (len k : ℕ) where
  abbrev first : ConstBuffer
  first = consume (record { raw = 0; len = len }) k

  abbrev last : ConstBuffer
  last = consume first (len - k)

  abbrev halfway : Sending
  halfway = record {
    buffer = first;
    wsa = shrink_to (wsa_len first.len) max_send_buffer_size;
    under_way = true;
    tails = no_error ∷ [];
    called = [];
  }

  abbrev sent : (tails : List ErrorCode) (called : List (ErrorCode × ℕ)) → Sending
  sent tails called = record {
    buffer = last;
    wsa = shrink_to (wsa_len first.len) max_send_buffer_size;
    under_way = false;
    tails = tails;
    called = called;
  }

  module _ (some_left : k < len) (fits : len < 2 ^ 64) where
    first_part : send_rest no_error k (asyn_send len) ≡ halfway
    unfolding send_rest
    first_part = let d : (first.len == 0) ≡ false = ground (arith, some_left, fits) in rw d refl

    last_part : send_rest no_error (len - k) halfway ≡ sent (no_error ∷ no_error ∷ []) []
    unfolding send_rest
    last_part = let d : (last.len == 0) ≡ true = ground (arith, some_left, fits) in rw d refl

    call_last :
        (rest : List ErrorCode) (called : List (ErrorCode × ℕ))
        → call_back no_error rest (sent (no_error ∷ rest) called)
          ≡ sent rest (called ++ ((no_error, len) ∷ []))
    unfolding call_back
    call_last rest called =
        let d : (last.len == 0) ≡ true = ground (arith, some_left, fits) in
        let e : last.raw ≡ len = omega (arith, some_left, fits) in
        rw d (ap (λ r. sent rest (called ++ ((no_error, r) ∷ []))) e)

    reached :
        k ≤ shrink_to (wsa_len len) max_send_buffer_size
        → len - k ≤ shrink_to (wsa_len first.len) max_send_buffer_size
        → Steps (asyn_send len) (sent (no_error ∷ []) ((no_error, len) ∷ []))
    reached a b = subst (Steps (asyn_send len)) (call_last (no_error ∷ []) []) (
        next
          (subst (Steps (asyn_send len)) last_part (
            next
              (subst (Steps (asyn_send len)) first_part (next here (completes no_error k refl a)))
              (completes no_error (len - k) refl b)))
          (goes_on no_error (no_error ∷ []) [] refl))

-- On Windows, for a send whose first part is shorter than the whole and whose rest fits one
-- part, of which one thread completes the first part and another the rest, there is an order
-- of their steps after which the callback has been called and the operation deleted while the
-- first thread is still to read it; if the memory is as it was, the callback is called a
-- second time.
pub send-ReadsDeleted :
    (len k : ℕ)
    → k < len
    → k ≤ 65536
    → len - k ≤ 65536
    → (t : Sending) × Steps (asyn_send len) t × ReadsDeleted len t
send-ReadsDeleted len k q r s =
    let fits : len < 2 ^ 64 = omega (arith, q, r, s) in
    (
      sent len k (no_error ∷ []) ((no_error, len) ∷ []),
      reached len k q fits (ground (arith, q, r, s)) (ground (arith, q, r, s)),
      (refl, refl, ap (λ t. t.called) (call_last len k q fits [] ((no_error, len) ∷ []))),
    )

-- ===== src/Iocp/Send/Single.antt =====
-- A send on Windows where one thread runs the service.
use jnet_lib.Base.{
  ℕ, ◌+◌, ◌^◌, ◌≤◌, ◌<◌, ◌≡◌, ◌⊎◌, inl, inr, refl, sym, ap, subst, true, false, [], ◌∷◌, ◌++◌, ◌==◌,
  ◌∙◌, arith, Bool-cases, ==_iff,
}
use jnet_lib.Errors.{ErrorCode, is_error}
use jnet_lib.Buffer.{consume}
use jnet_lib.Iocp.Send.{
  Sending, shrink_to, wsa_len, max_send_buffer_size, asyn_send, send_rest, call_back, on_complete,
  moved, Turns, none_yet, turn,
}

pub wsa_le : (len : ℕ) → shrink_to (wsa_len len) max_send_buffer_size ≤ len
wsa_le len = ground arith

-- What a whole `on_complete` does, in the three cases.
module _ (ec : ErrorCode) (n : ℕ) (t : Sending) where
  failed_lem :
      is_error ec ≡ true
      → on_complete ec n t
        ≡ record t { under_way = false; called = t.called ++ ((ec, t.buffer.raw) ∷ []) }
  unfolding send_rest call_back
  failed_lem e = rw e refl

  sent_lem :
      is_error ec ≡ false
      → ((consume t.buffer n).len == 0) ≡ true
      → on_complete ec n t ≡ record t {
        buffer = consume t.buffer n;
        under_way = false;
        called = t.called ++ ((ec, (consume t.buffer n).raw) ∷ []);
      }
  unfolding send_rest call_back
  sent_lem e d = rw e (rw d (rw d refl))

  restarted_lem :
      is_error ec ≡ false
      → ((consume t.buffer n).len == 0) ≡ false
      → on_complete ec n t ≡ record t {
        buffer = consume t.buffer n;
        wsa = shrink_to (wsa_len (consume t.buffer n).len) max_send_buffer_size;
        under_way = true;
      }
  unfolding send_rest call_back
  restarted_lem e d = rw e (rw d (rw d refl))

module _ (total : ℕ) where
  -- `i` of the `total` bytes have been sent, and `buffer` says what remains. The operation is under way, or it has called
  -- back, once.
  pub record IsSending (i : ℕ) (t : Sending) : Type 0 where
    pub sent : t.buffer.raw ≡ i
    pub at : i + t.buffer.len ≡ total
    pub wsa : (t.under_way ≡ false) ⊎ (t.wsa ≤ t.buffer.len)
    pub alone : t.tails ≡ []
    pub once :
        ((t.under_way ≡ true) × (t.called ≡ []))
        ⊎ ((t.under_way ≡ false)
            × ((ec : ErrorCode) × (t.called ≡ (ec, i) ∷ []) × ((is_error ec ≡ true) ⊎ (i ≡ total))))

  on_complete-IsSending :
      (i : ℕ) (ec : ErrorCode) (n : ℕ) (t : Sending)
      → total < 2 ^ 64
      → IsSending i t
      → t.called ≡ []
      → t.under_way ≡ true
      → n ≤ t.wsa
      → IsSending (i + moved ec n) (on_complete ec n t)
  on_complete-IsSending i ec n t small v c y w =
      let q : t.wsa ≤ t.buffer.len = elim v.wsa [ inl z ↦ absurd (cc (y, z)) | inr z ↦ z ] in
      elim (Bool-cases (is_error ec)) [
        | inl e ↦
            let same : i + moved ec n ≡ i = rw e (omega arith) in
            subst (IsSending (i + moved ec n)) (sym (failed_lem ec n t e)) (record {
              sent = omega (arith, v.sent, same);
              at = omega (arith, v.at, same);
              wsa = inl refl;
              alone = v.alone;
              once = inr (
                refl,
                (
                  ec,
                  ap (λ l. l ++ ((ec, t.buffer.raw) ∷ [])) c
                      ∙ ap (λ r. (ec, r) ∷ []) (v.sent ∙ sym same),
                  inl e,
                ),
              );
            })
        | inr e ↦
            let more : i + moved ec n ≡ i + n = rw e refl in
            let sent' : (consume t.buffer n).raw ≡ i + moved ec n =
              omega (arith, v.at, v.sent, q, w, small, more) in
            let at' : (i + moved ec n) + (consume t.buffer n).len ≡ total =
              omega (arith, v.at, q, w, small, more) in
            elim (Bool-cases ((consume t.buffer n).len == 0)) [
              | inl d ↦ subst (IsSending (i + moved ec n)) (sym (sent_lem ec n t e d)) (record {
                sent = sent';
                at = at';
                wsa = inl refl;
                alone = v.alone;
                once = inr (
                  refl,
                  (
                    ec,
                    ap (λ l. l ++ ((ec, (consume t.buffer n).raw) ∷ [])) c
                        ∙ ap (λ r. (ec, r) ∷ []) sent',
                    inr (omega (arith, at', (==_iff _ 0).0 d)),
                  ),
                );
              })
              | inr d ↦
                  subst (IsSending (i + moved ec n)) (sym (restarted_lem ec n t e d)) (record {
                    sent = sent';
                    at = at';
                    wsa = inr (wsa_le (consume t.buffer n).len);
                    alone = v.alone;
                    once = inl (refl, c);
                  })
            ]
      ]

  -- On Windows, where one thread runs the service, a send of fewer than 2^64 bytes is under
  -- way, or it has called back once: with an error, or after all of them. While it is under
  -- way the buffer has gone forward by the sum of the bytes that Winsock reported in
  -- completions without error, and the callback is told this sum; no part is longer than what
  -- remains.
  pub Turns-IsSending :
      (i : ℕ) (t : Sending) → total < 2 ^ 64 → Turns (asyn_send total) i t → IsSending i t
  Turns-IsSending i t small none_yet = record {
    sent = refl;
    at = omega arith;
    wsa = inr (wsa_le total);
    alone = refl;
    once = inl (refl, refl);
  }
  Turns-IsSending i t small (turn {i = j} {u = s} ec n h y w) =
      let v = Turns-IsSending j s small h in
      elim v.once [
        | inl (z, c) ↦ on_complete-IsSending j ec n s small v c y w
        | inr (z, x) ↦ absurd (cc (y, z))
      ]

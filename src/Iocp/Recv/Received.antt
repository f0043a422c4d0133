-- ===== src/Iocp/Recv/Received.antt =====
-- What a receive on Windows has received when it calls back, and after how many completions.
use jnet_lib.Base.{
  ℕ, ◌+◌, ◌-◌, ◌^◌, ◌≤◌, ◌<◌, ◌≡◌, ◌⊎◌, inl, inr, refl, sym, ap, subst, Bool, true, false, not,
  ◌&&◌, ◌||◌, [], ◌∷◌, ◌++◌, ◌∙◌, ltb, ◌==◌, arith, Bool-cases, if◌then◌else◌,
}
use jnet_lib.Errors.{ErrorCode, is_error, frame_error}
use jnet_lib.Errors.Code
use jnet_lib.Buffer.{append, remain}
use jnet_lib.Iocp.Send.{moved}
use jnet_lib.Iocp.Recv.{
  recv_len, Receiving, asyn_recv, or_eof, settle, on_complete, Steps, here, completes,
}

recv_len_le : (n : ℕ) → recv_len n ≤ n
recv_len_le n = ground arith

-- An error code that `or_eof` leaves without an error stands for a byte at least, or for an empty buffer.
or_eof_lem :
    (ec : ErrorCode) (n : ℕ) (t : Receiving)
    → is_error (or_eof ec n t) ≡ false
    → (0 < n) ⊎ (remain t.buffer ≡ 0)
unfolding or_eof
or_eof_lem ec n t e = elim (Bool-cases ((n == 0) && ltb 0 (remain t.buffer))) [
  | inr d ↦ not_both d
  | inl d ↦ elim (Bool-cases (is_error ec)) [
    | inl q ↦ absurd (
        let y : is_error (
              if not (is_error ec) && ((n == 0) && ltb 0 (remain t.buffer))
              then frame_error Code.eof
              else ec)
            ≡ true =
          rw q q in
        cc (y, e))
    | inr q ↦ absurd (
        let y : is_error (
              if not (is_error ec) && ((n == 0) && ltb 0 (remain t.buffer))
              then frame_error Code.eof
              else ec)
            ≡ true =
          rw q (rw d refl) in
        cc (y, e))
  ]
]
  where
    not_both : ((n == 0) && ltb 0 (remain t.buffer)) ≡ false → (0 < n) ⊎ (remain t.buffer ≡ 0)
    not_both d = ground (arith, d)

-- An error code that `or_eof` makes stands for no byte.
moved_lem : (ec : ErrorCode) (n : ℕ) (t : Receiving) → moved (or_eof ec n t) n ≡ moved ec n
unfolding or_eof
moved_lem ec n t = elim (Bool-cases (is_error ec)) [
  | inl e ↦ rw e (rw e refl)
  | inr e ↦ elim (Bool-cases ((n == 0) && ltb 0 (remain t.buffer))) [
    | inl d ↦ rw e (rw d (nothing d))
    | inr d ↦ rw e (rw d (rw e refl))
  ]
]
  where
    nothing : ((n == 0) && ltb 0 (remain t.buffer)) ≡ true → 0 ≡ n
    nothing d = ground (arith, d)

more_left : (b : Bool) (r : ℕ) → (not b && ltb 0 r) ≡ true → 0 < r
more_left b r d = ground (arith, d)

none_left : (b : Bool) (r : ℕ) → (not b && ltb 0 r) ≡ false → (b ≡ true) ⊎ (r ≡ 0)
none_left b r d = ground (arith, d)

some_or_all : (b : Bool) (r : ℕ) → (not b && ltb 0 r) ≡ false → (b || (r == 0)) ≡ true
some_or_all b r d = ground (arith, d)

module _ (ec : ErrorCode) (n : ℕ) (t : Receiving) where
  failed_lem :
      is_error ec ≡ true
      → settle ec n t
        ≡ record t { under_way = false; called = t.called ++ ((ec, t.buffer.len) ∷ []) }
  unfolding settle
  failed_lem e = rw e refl

  restarted_lem :
      is_error ec ≡ false
      → (not t.some && ltb 0 (remain (append t.buffer n))) ≡ true
      → settle ec n t
        ≡ record t { buffer = append t.buffer n; wsa = recv_len (remain (append t.buffer n)) }
  unfolding settle
  restarted_lem e d = rw e (rw d refl)

  received_lem :
      is_error ec ≡ false
      → (not t.some && ltb 0 (remain (append t.buffer n))) ≡ false
      → settle ec n t ≡ record t {
        buffer = append t.buffer n;
        under_way = false;
        called = t.called ++ ((ec, (append t.buffer n).len) ∷ []);
      }
  unfolding settle
  received_lem e d =
      let z : (t.some || (remain (append t.buffer n) == 0)) ≡ true =
        some_or_all t.some (remain (append t.buffer n)) d in
      rw e (rw d (rw z refl))

module _ (total : ℕ) where
  -- After `i` completions, which gave `b` bytes. The operation is under way, or it has called back, once.
  pub record IsReceiving (i b : ℕ) (t : Receiving) : Type 0 where
    pub came : t.buffer.len ≡ b
    pub size : t.buffer.size ≡ total
    pub within : b ≤ total
    pub at : t.buffer.raw_pos ≡ t.buffer.len
    pub once :
        ((t.under_way ≡ true) × (t.called ≡ []) × (i ≤ b) × (t.wsa ≤ total - b))
        ⊎ ((t.under_way ≡ false)
            × ((ec : ErrorCode) × (t.called ≡ (ec, b) ∷ [])
                × ((is_error ec ≡ true) ⊎ ((t.some ≡ true) ⊎ (b ≡ total))))
            × (i ≤ b + 1))

  module _ (small : total < 2 ^ 64) where
    settle-IsReceiving :
        (i b : ℕ) (ec : ErrorCode) (n : ℕ) (t : Receiving)
        → IsReceiving i b t
        → t.under_way ≡ true
        → t.called ≡ []
        → i ≤ b
        → n ≤ total - b
        → (is_error ec ≡ true) ⊎ ((0 < n) ⊎ (remain t.buffer ≡ 0))
        → IsReceiving (i + 1) (b + moved ec n) (settle ec n t)
    settle-IsReceiving i b ec n t v y c j w g = elim (Bool-cases (is_error ec)) [
      | inl e ↦
          let same : b + moved ec n ≡ b = rw e (omega arith) in
          subst (IsReceiving (i + 1) (b + moved ec n)) (sym (failed_lem ec n t e)) (record {
            came = v.came ∙ sym same;
            size = v.size;
            within = omega (arith, v.within, same);
            at = v.at;
            once = inr (
              refl,
              (
                ec,
                ap (λ l. l ++ ((ec, t.buffer.len) ∷ [])) c
                    ∙ ap (λ r. (ec, r) ∷ []) (v.came ∙ sym same),
                inl e,
              ),
              omega (arith, j, same),
            );
          })
      | inr e ↦
          let len' : (append t.buffer n).len ≡ t.buffer.len + n =
            omega (arith, v.within, v.came, w, small) in
          let more_bytes : b + moved ec n ≡ b + n = rw e refl in
          let came' : (append t.buffer n).len ≡ b + moved ec n =
            omega (arith, len', v.came, more_bytes) in
          let pos' : (append t.buffer n).raw_pos ≡ (append t.buffer n).len =
            omega (arith, v.at, v.within, v.came, w, small) in
          let left : remain (append t.buffer n) ≡ total - (append t.buffer n).len =
            omega (arith, v.size, v.within, v.came, w, small) in
          let within' : b + moved ec n ≤ total = omega (arith, v.within, w, small, more_bytes) in
          elim (Bool-cases (not t.some && ltb 0 (remain (append t.buffer n)))) [
            | inl d ↦
                let more : 0 < remain (append t.buffer n) =
                  more_left t.some (remain (append t.buffer n)) d in
                let came : 0 < n = elim g [
                  | inl x ↦ absurd (cc (x, e))
                  | inr (inl p) ↦ p
                  | inr (inr r) ↦ omega (arith, r, more, v.size, v.within, v.came, w, small)
                ] in
                subst (IsReceiving (i + 1) (b + moved ec n)) (sym (restarted_lem ec n t e d))
                  (record {
                    came = came';
                    size = v.size;
                    within = within';
                    at = pos';
                    once = inl (
                      y,
                      c,
                      omega (arith, j, more_bytes, came),
                      omega (arith, left, came', recv_len_le (remain (append t.buffer n))),
                    );
                  })
            | inr d ↦
                subst (IsReceiving (i + 1) (b + moved ec n)) (sym (received_lem ec n t e d))
                  (record {
                    came = came';
                    size = v.size;
                    within = within';
                    at = pos';
                    once = inr (
                      refl,
                      (
                        ec,
                        ap (λ l. l ++ ((ec, (append t.buffer n).len) ∷ [])) c
                            ∙ ap (λ r. (ec, r) ∷ []) came',
                        inr (elim (none_left t.some (remain (append t.buffer n)) d) [
                          | inl x ↦ inl x
                          | inr r ↦ inr (omega (arith, left, r, within', came'))
                        ]),
                      ),
                      omega (arith, j, more_bytes),
                    );
                  })
          ]
    ]

  -- On Windows, whatever its completions bring, a receive of fewer than 2^64 bytes is under
  -- way, or it has called back once: with an error, for asyn_recv_some, or with all the bytes.
  -- While it is under way the buffer has gone forward by the sum of the bytes that Winsock
  -- reported in completions without error, and the callback is told this sum, never more than
  -- the buffer holds. Each completion but the last brings a byte at least, so that there are
  -- at most as many completions as bytes, and one more.
  pub Steps-IsReceiving :
      (some : Bool) (i b : ℕ) (t : Receiving)
      → total < 2 ^ 64
      → Steps (asyn_recv total some) i b t
      → IsReceiving i b t
  unfolding on_complete
  Steps-IsReceiving some i b t small here = record {
    came = refl;
    size = refl;
    within = omega arith;
    at = refl;
    once = inl (refl, refl, omega arith, omega (arith, recv_len_le total));
  }
  Steps-IsReceiving some i b t small (completes {i = j} {b = a} {u = u} ec n h y w) =
      let v = Steps-IsReceiving some j a u small h in
      elim v.once [
        | inl (z, c, k, r) ↦
            (let w' : n ≤ total - a = omega (arith, w, r) in
              subst (λ m. IsReceiving (j + 1) (a + m) (settle (or_eof ec n u) n u))
                (moved_lem ec n u)
                (settle-IsReceiving small j a (or_eof ec n u) n u v y c k w'
                  (elim (Bool-cases (is_error (or_eof ec n u))) [
                    | inl e ↦ inl e
                    | inr e ↦ inr (or_eof_lem ec n u e)
                  ])))
        | inr (z, x, k) ↦ absurd (cc (y, z))
      ]

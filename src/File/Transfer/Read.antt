-- ===== src/File/Transfer/Read.antt =====
-- What a finished `read_op` has delivered.
pub mod Part
use jnet_lib.Base.{
  ℕ, zero, suc, ◌+◌, ◌-◌, ◌^◌, ◌≤◌, ◌<◌, ◌≡◌, ◌≢◌, refl, sym, ◌∙◌, ap, ap₂, some, List, [], ◌∷◌,
  ◌++◌, false, length, take, drop, write_at, arith, take-write_at, write_at-nil,
  drop-write_at_after, length-write_at, append_assoc, lt→ltb, dec_lt,
}
use jnet_lib.Errors.{ErrorCode, no_error, system_error, frame_error, is_error}
use jnet_lib.Errors.Code
use jnet_lib.Buffer.{append, remain}
use jnet_lib.Posix.{Outcome, done, failed, Fd, Files}
use jnet_lib.File.Calls.{read_file-done, read_file-failed}
use jnet_lib.File.Transfer.{
  ReadOp, again, finish, asyn_read, part, read_complete, do_read, Ended, read_all,
}
use jnet_lib.File.Transfer.Read.Part.{
  IsOpen, Delivers, piece, piece_lem, do_read-done, do_read-idle, do_read-failed, grown, end,
  complete-part, complete-full, complete-end, complete-failed, IsOpen-write, IsOpen-append,
  Delivers-placed, Delivers-stop_at, Delivers-full, grown_lem, ReadLaws, at_end, broken,
}

module _ (os : Files) (laws : ReadLaws os) where
  open os use {State, read}
  open laws use {rest}

  Finished : ℕ → State → ReadOp → Type 0
  Finished fuel st op =
      (r : Ended os ReadOp) × (read_all os fuel st op ≡ some r) × Delivers os laws st op r

  module _ (fuel : ℕ) (st : State) (op : ReadOp) (v : IsOpen os laws op)
      (h : op.buffer.len < op.buffer.size) where
    w :
        (0 < (piece os laws) op)
        × (piece os laws op ≤ op.buffer.size - op.buffer.len)
        × (piece os laws op < 2 ^ 63)
    w = piece_lem os laws v h

    -- The round whose call fails, meets the end of the file, fills the buffer, or leaves more to read.
    round-failed :
        {st' : State} (n : ℕ)
        → read st op.fd (piece os laws op) ≡ (st', failed n)
        → Finished (suc fuel) st op
    unfolding Finished read_all
    round-failed {st'} n e =
        let f = laws.fails st st' op.fd (piece os laws op) n e in
        (
          (end os laws) st' (system_error n) op.buffer.len op,
          rw (
            do_read-failed os laws op n w.0 w.2 e,
            complete-failed os laws n (piece os laws op) v f.1,
          ),
          (Delivers-stop_at os laws) st' (system_error n) f.0
              (broken st (piece os laws op) n e f.1 refl h),
        )

    round-end :
        {st' : State}
        → read st op.fd (piece os laws op) ≡ (st', done [])
        → Finished (suc fuel) st op
    unfolding Finished read_all
    round-end {st'} e =
        let all = laws.ends st st' op.fd (piece os laws op) w.0 e in
        let none_left = sym (laws.gives st st' op.fd (piece os laws op) [] e).0 in
        (
          (end os laws) st' (frame_error Code.eof) op.buffer.len op,
          rw (
            (do_read-done os laws) op [] w.0 w.2 e,
            write_at-nil op.memory op.buffer.raw_pos,
            (complete-end os laws) v h,
          ),
          (Delivers-stop_at os laws) st' (frame_error Code.eof) none_left
              (at_end refl h (none_left ∙ all)),
        )

    module _ {st' : State} (bs : List ℕ)
        (e : read st op.fd (piece os laws op) ≡ (st', done bs)) where
      abbrev filled : ReadOp
      filled = record op { memory = write_at op.memory op.buffer.raw_pos bs }

      fits : op.buffer.len + length bs ≤ op.buffer.size
      fits = omega (arith, w.1, (laws.gives st st' op.fd (piece os laws op) bs e).1)

      round-full : op.buffer.len + length bs ≡ op.buffer.size → Finished (suc fuel) st op
      unfolding Finished read_all
      round-full l =
          let last = record filled { buffer = append op.buffer (length bs) } in
          (
            (end os laws) st' (system_error 0) op.buffer.size last,
            rw (
              (do_read-done os laws) op bs w.0 w.2 e,
              (complete-full os laws) (length bs) (system_error 0) (IsOpen-write os laws bs v fits)
                  refl l,
            ),
            (Delivers-placed os laws) v bs fits (laws.gives st st' op.fd (piece os laws op) bs e).0
                (Delivers-full os laws st' (system_error 0) last refl refl
                  (grown_lem os laws bs v fits ∙ l) refl),
          )

      round-more :
          0 < length bs
          → op.buffer.len + length bs < op.buffer.size
          → Finished fuel st' (grown os laws op bs)
          → Finished (suc fuel) st op
      unfolding Finished read_all
      round-more p l (r, q, d) = (
        r,
        rw
            (
              do_read-done os laws op bs w.0 w.2 e,
              complete-part os laws (length bs) (IsOpen-write os laws bs v fits) p l,
            )
            q,
        (Delivers-placed os laws) v bs fits (laws.gives st st' op.fd (piece os laws op) bs e).0 d,
      )

  read_all-idle :
      (fuel : ℕ) (st : State) (op : ReadOp)
      → IsOpen os laws op
      → op.buffer.len ≡ op.buffer.size
      → Finished (suc fuel) st op
  unfolding Finished read_all
  read_all-idle fuel st op v e =
      let last = record op { buffer = append op.buffer 0 } in
      (
        (end os laws) st no_error op.buffer.size last,
        rw (
          (do_read-idle os laws) st op (ground (arith, v.small)),
          (complete-full os laws) 0 no_error v refl (omega arith),
        ),
        (Delivers-full os laws) st no_error last refl refl e refl,
      )

  round :
      (fuel : ℕ) (st : State) (op : ReadOp)
      → IsOpen os laws op
      → op.buffer.len < op.buffer.size
      → (x : State × Outcome (List ℕ)) → read st op.fd (piece os laws op) ≡ x
      → op.buffer.size < suc fuel + op.buffer.len
      → ((st' : State) (op' : ReadOp)
          → IsOpen os laws op'
          → op'.buffer.size < fuel + op'.buffer.len
          → Finished fuel st' op')
      → Finished (suc fuel) st op
  round fuel st op v h (st', failed n) e f more = round-failed fuel st op v h n e
  round fuel st op v h (st', done []) e f more = round-end fuel st op v h e
  round fuel st op v h (st', done (b ∷ bs)) e f more =
      let c = fits fuel st op v h (b ∷ bs) e in
      elim (dec_lt (op.buffer.len + length (b ∷ bs)) op.buffer.size) [
        | no ge ↦ round-full fuel st op v h (b ∷ bs) e (omega arith)
        | yes l ↦ round-more fuel st op v h (b ∷ bs) e (omega arith) l (
            more st' (grown os laws op (b ∷ bs))
              (IsOpen-append os laws (length (b ∷ bs)) (IsOpen-write os laws (b ∷ bs) v c) c)
              (omega (arith, grown_lem os laws (b ∷ bs) v c)))
      ]

  -- Every read that succeeds brings a byte nearer to the end, so `size` rounds and one are enough.
  read_all-Finished :
      (fuel : ℕ) (st : State) (op : ReadOp)
      → IsOpen os laws op
      → op.buffer.size < fuel + op.buffer.len
      → Finished fuel st op
  read_all-Finished zero st op v f = absurd (omega (arith, v.within))
  read_all-Finished (suc fuel) st op v f = elim (dec_lt op.buffer.len op.buffer.size) [
    | no ge ↦ read_all-idle fuel st op v (omega (arith, v.within))
    | yes h ↦
        round fuel st op v h (read st op.fd (piece os laws op)) refl f (read_all-Finished fuel)
  ]

  -- With len + 1 rounds of fuel asyn_read of len bytes into a memory that holds them, below
  -- 2^63, calls back: the bytes that it reports are the next bytes of the file, at the start
  -- of the memory, whose other bytes are as before; it reports len bytes and no error, or
  -- fewer and then end of file with nothing left to read, or the error of the last call of
  -- read, which failed.
  pub asyn_read-Delivers :
      (st : State) (fd : Fd) (memory : List ℕ) (len : ℕ)
      → len ≤ length memory
      → len < 2 ^ 63
      → (r : Ended os ReadOp) × (read_all os (len + 1) st (asyn_read fd memory len) ≡ some r)
        × Delivers os laws st (asyn_read fd memory len) r
  unfolding asyn_read Finished
  asyn_read-Delivers st fd memory len h s =
      read_all-Finished (len + 1) st (asyn_read fd memory len)
        (record { at = refl; within = omega arith; size = h; small = s; flags = refl })
        (omega arith)

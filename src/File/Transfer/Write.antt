-- ===== src/File/Transfer/Write.antt =====
-- What a finished `write_op` has written.
pub mod Part
use jnet_lib.Base.{
  ℕ, zero, suc, ◌+◌, ◌-◌, ◌^◌, ◌≤◌, ◌<◌, ◌≡◌, ◌≢◌, refl, sym, ◌∙◌, ap, ap₂, some, List, ◌++◌, false,
  length, take, drop, arith, append_assoc, append-nil, length-take, length-drop, take-take,
  take-add, drop-drop, lt→ltb, dec_lt,
}
use jnet_lib.Errors.{ErrorCode, no_error, system_error, is_error}
use jnet_lib.Buffer.{consume}
use jnet_lib.Posix.{Outcome, done, failed, Fd, Files}
use jnet_lib.File.Calls.{write_file-done, write_file-failed}
use jnet_lib.File.Transfer.{
  WriteOp, again, finish, asyn_write, part, write_complete, do_write, Ended, write_all,
}
use jnet_lib.File.Transfer.Write.Part.{
  IsOpen, EndsBy, piece, Finished, length-piece, part_pos, do_write-done, do_write-failed,
  do_write-idle, complete-more, complete-full, complete-failed, end, advanced, advanced_lem,
  IsOpen-advanced, WriteLaws, full, broken,
}

module _ (os : Files) (laws : WriteLaws os) where
  open os use {State, write}
  open laws use {written}

  module _ {total : ℕ} (fuel : ℕ) (st : State) (op : WriteOp) (v : IsOpen os laws total op) where
    round-idle : op.buffer.len ≡ 0 → Finished os laws total (suc fuel) st op
    unfolding write_all
    round-idle e = (
      (end os laws) st no_error total (advanced os laws op 0),
      rw (do_write-idle os laws st op e, complete-full os laws 0 no_error v refl (sym e)),
      record {
        bytes =
            sym (append-nil _)
            ∙ ap (λ n. written st op.fd ++ take n (drop op.buffer.raw op.memory))
                (let z : 0 ≡ total - op.buffer.raw = omega (arith, v.at) in z);
        more = omega (arith, v.at);
        ends_by = full refl refl;
      },
    )

    round-failed :
        {st' : State} (e : ℕ)
        → 0 < op.buffer.len
        → write st op.fd (piece os laws op) ≡ (st', failed e)
        → Finished os laws total (suc fuel) st op
    unfolding write_all
    round-failed {st'} e h r =
        let f = laws.fails st st' op.fd (piece os laws op) e r in
        (
          (end os laws) st' (system_error e) op.buffer.raw op,
          rw (
            do_write-failed os laws op e v h r,
            complete-failed os laws op e (length (piece os laws op)) f.1,
          ),
          record {
            bytes =
                f.0
                ∙ sym (append-nil _)
                ∙ ap (λ n. written st op.fd ++ take n (drop op.buffer.raw op.memory))
                    (let z : 0 ≡ op.buffer.raw - op.buffer.raw = omega arith in z);
            more = omega arith;
            ends_by = broken st (piece os laws op) e r f.1 refl (omega (arith, v.at));
          },
        )

    module _ {st' : State} (n : ℕ) (h : 0 < op.buffer.len)
        (e : write st op.fd (piece os laws op) ≡ (st', done n)) where
      taken : n ≤ part op.buffer.len
      taken =
          omega (arith, length-piece os laws v, (laws.takes st st' op.fd (piece os laws op) n e).1)

      progress : 0 < n
      progress =
          (laws.takes st st' op.fd (piece os laws op) n e).2
            (omega (arith, length-piece os laws v, part_pos os laws op h))

      fits : n ≤ op.buffer.len
      fits = let p : part op.buffer.len ≤ op.buffer.len = ground arith in omega (arith, taken)

      wrote : written st' op.fd ≡ written st op.fd ++ take n (drop op.buffer.raw op.memory)
      wrote =
          (laws.takes st st' op.fd (piece os laws op) n e).0
          ∙ ap (λ xs. written st op.fd ++ xs)
              (take-take n (part op.buffer.len) (drop op.buffer.raw op.memory) taken)

      round-full : n ≡ op.buffer.len → Finished os laws total (suc fuel) st op
      unfolding write_all
      round-full l = (
        (end os laws) st' (system_error 0) total (advanced os laws op n),
        rw (do_write-done os laws op n v h e, complete-full os laws n (system_error 0) v refl l),
        record {
          bytes =
              wrote
              ∙ ap (λ k. written st op.fd ++ take k (drop op.buffer.raw op.memory))
                  (let z : n ≡ total - op.buffer.raw = omega (arith, v.at) in z);
          more = omega (arith, v.at);
          ends_by = full refl refl;
        },
      )

      round-more :
          n < op.buffer.len
          → Finished os laws total fuel st' (advanced os laws op n)
          → Finished os laws total (suc fuel) st op
      unfolding write_all
      round-more l (r, q, d) = (
        r,
        rw (do_write-done os laws op n v h e, complete-more os laws n v l) q,
        record {
          bytes =
              d.bytes
              ∙ ap (λ xs. xs ++ later) wrote
              ∙ append_assoc (written st op.fd) (take n (drop op.buffer.raw op.memory)) later
              ∙ ap (λ xs. written st op.fd ++ xs) joined;
          more = omega (arith, d.more, (advanced_lem os laws n v fits).0);
          ends_by = d.ends_by;
        },
      )
        where
          later : List ℕ
          later =
              take (r.count - (advanced os laws op n).buffer.raw)
                (drop (advanced os laws op n).buffer.raw op.memory)

          beyond : ℕ
          beyond = r.count - (op.buffer.raw + n)

          at : (advanced os laws op n).buffer.raw ≡ op.buffer.raw + n
          at = (advanced_lem os laws n v fits).0

          left : r.count - (advanced os laws op n).buffer.raw ≡ beyond
          left = omega (arith, at)

          total_eq : n + beyond ≡ r.count - op.buffer.raw
          total_eq = omega (arith, d.more, at)

          joined :
              take n (drop op.buffer.raw op.memory) ++ later
              ≡ take (r.count - op.buffer.raw) (drop op.buffer.raw op.memory)
          joined =
              ap₂ (λ i k. take n (drop op.buffer.raw op.memory) ++ take i (drop k op.memory)) left
                at
              ∙ ap (λ xs. take n (drop op.buffer.raw op.memory) ++ take beyond xs)
                  (sym (drop-drop n op.buffer.raw op.memory))
              ∙ take-add n beyond (drop op.buffer.raw op.memory)
              ∙ ap (λ k. take k (drop op.buffer.raw op.memory)) total_eq

  round :
      {total : ℕ} (fuel : ℕ) (st : State) (op : WriteOp)
      → IsOpen os laws total op
      → (x : State × Outcome ℕ) → write st op.fd (piece os laws op) ≡ x
      → 0 < op.buffer.len
      → op.buffer.len < suc fuel
      → ((st' : State) (op' : WriteOp)
          → IsOpen os laws total op'
          → op'.buffer.len < fuel
          → Finished os laws total fuel st' op')
      → Finished os laws total (suc fuel) st op
  round fuel st op v (st', failed n) e h f more = round-failed fuel st op v n h e
  round fuel st op v (st', done n) e h f more =
      let c = fits fuel st op v n h e in
      let p = progress fuel st op v n h e in
      elim (dec_lt n op.buffer.len) [
        | no ge ↦ round-full fuel st op v n h e (omega arith)
        | yes l ↦ round-more fuel st op v n h e l (
            more st' (advanced os laws op n) (IsOpen-advanced os laws n v c)
              (omega (arith, (advanced_lem os laws n v c).1)))
      ]

  -- Every write that succeeds takes a byte, so a round for each byte and one are enough.
  write_all-Finished :
      {total : ℕ} (fuel : ℕ) (st : State) (op : WriteOp)
      → IsOpen os laws total op
      → op.buffer.len < fuel
      → Finished os laws total fuel st op
  write_all-Finished zero st op v f = absurd (omega arith)
  write_all-Finished (suc fuel) st op v f = elim (dec_lt 0 op.buffer.len) [
    | no ge ↦ round-idle fuel st op v (omega arith)
    | yes h ↦
        round fuel st op v (write st op.fd (piece os laws op)) refl h f (write_all-Finished fuel)
  ]

  -- With len + 1 rounds of fuel asyn_write of the first len bytes of a memory, len below 2^63,
  -- calls back; what went to the descriptor is the prefix of the memory that it reports the
  -- length of: len bytes and no error, or fewer and the error of the last call of write, which
  -- failed.
  pub asyn_write-Writes :
      (st : State) (fd : Fd) (memory : List ℕ) (len : ℕ)
      → len ≤ length memory
      → len < 2 ^ 63
      → (r : Ended os WriteOp) × (write_all os (len + 1) st (asyn_write fd memory len) ≡ some r)
        × (written r.state fd ≡ written st fd ++ take r.count memory)
        × EndsBy os laws len r.ec r.count r.state fd
  unfolding asyn_write
  asyn_write-Writes st fd memory len h s =
      let v : IsOpen os laws len (asyn_write fd memory len) = record {
        at = omega arith;
        size = h;
        small = s;
      } in
      let (r, q, d) = write_all-Finished (len + 1) st (asyn_write fd memory len) v (omega arith) in
      let whole : r.count - 0 ≡ r.count = omega arith in
      (r, q, d.bytes ∙ ap (λ n. written st fd ++ take n memory) whole, d.ends_by)

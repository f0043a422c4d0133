-- ===== src/File/Transfer/Write/Part.antt =====
-- What a round of a `write_op` writes.
use jnet_lib.Base.{
  ℕ, ◌+◌, ◌-◌, ◌^◌, ◌≤◌, ◌<◌, ◌≡◌, ◌≢◌, some, List, ◌++◌, false, length, take, drop, arith,
  length-take, length-drop, lt→ltb,
}
use jnet_lib.Errors.{ErrorCode, no_error, system_error, is_error}
use jnet_lib.Buffer.{consume}
use jnet_lib.Posix.{done, failed, Fd, Files}
use jnet_lib.File.Calls.{write_file-done, write_file-failed}
use jnet_lib.File.Transfer.{
  WriteOp, again, finish, part, write_complete, do_write, Ended, write_all,
}

module _ (os : Files) where
  open os use {State, write}

  -- What `write` is documented to do on a file: `written` is what went to the descriptor. A write takes a
  -- prefix of the bytes, of one byte at least if there is one; one that fails takes none.
  pub record WriteLaws : Type 0 where
    pub written : State → Fd → List ℕ
    pub takes :
        (st st' : State) (fd : Fd) (bs : List ℕ) (n : ℕ)
        → write st fd bs ≡ (st', done n)
        → (written st' fd ≡ written st fd ++ take n bs) × (n ≤ length bs) × (0 < length bs → 0 < n)
    pub fails :
        (st st' : State) (fd : Fd) (bs : List ℕ) (e : ℕ)
        → write st fd bs ≡ (st', failed e)
        → (written st' fd ≡ written st fd) × (e ≢ 0)

module _ (os : Files) (laws : WriteLaws os) where
  open os use {State, write}
  open laws use {written}

  pub record IsOpen (total : ℕ) (op : WriteOp) : Type 0 where
    pub at : op.buffer.raw + op.buffer.len ≡ total
    pub size : total ≤ length op.memory
    pub small : total < 2 ^ 63

  -- How a transfer of `len` bytes to `fd` ends, in the state `st`: in full, or by a call of `write` that failed, the last
  -- one, whose error it reports.
  pub data EndsBy (len : ℕ) (ec : ErrorCode) (count : ℕ) (st : State) (fd : Fd) : Type 0 where
    full : is_error ec ≡ false → count ≡ len → EndsBy len ec count st fd
    broken :
        (before : State) (bs : List ℕ) (e : ℕ)
        → write before fd bs ≡ (st, failed e)
        → e ≢ 0
        → ec ≡ system_error e
        → count < len
        → EndsBy len ec count st fd

  -- From an operation with `total` bytes in all, at `st`, to its end.
  pub record Writes (total : ℕ) (st : State) (op : WriteOp) (r : Ended os WriteOp) : Type 0 where
    pub bytes :
        written r.state op.fd
        ≡ written st op.fd ++ take (r.count - op.buffer.raw) (drop op.buffer.raw op.memory)
    pub more : op.buffer.raw ≤ r.count
    pub ends_by : EndsBy total r.ec r.count r.state op.fd

  abbrev pub piece : WriteOp → List ℕ
  piece op = take (part op.buffer.len) (drop op.buffer.raw op.memory)

  abbrev pub Finished : ℕ → ℕ → State → WriteOp → Type 0
  Finished total fuel st op =
      (r : Ended os WriteOp) × (write_all os fuel st op ≡ some r) × Writes total st op r

  pub length-piece :
      {total : ℕ} {op : WriteOp} → IsOpen total op → length (piece op) ≡ part op.buffer.len
  length-piece {total} {op} v =
      let p : part op.buffer.len ≤ op.buffer.len = ground arith in
      omega (
        arith,
        v.at,
        v.size,
        length-take (part op.buffer.len) (drop op.buffer.raw op.memory),
        length-drop op.buffer.raw op.memory,
      )

  piece_small : {total : ℕ} {op : WriteOp} → IsOpen total op → length (piece op) < 2 ^ 63
  piece_small {op = op} v =
      let p : part op.buffer.len ≤ op.buffer.len = ground arith in
      omega (arith, length-piece v, v.at, v.small)

  pub part_pos : (op : WriteOp) → 0 < op.buffer.len → 0 < part op.buffer.len
  part_pos op h = ground arith

  pub do_write-done :
      {total : ℕ} {st st' : State} (op : WriteOp) (n : ℕ)
      → IsOpen total op
      → 0 < op.buffer.len
      → write st op.fd (piece op) ≡ (st', done n)
      → do_write os st op ≡ (st', system_error 0, n)
  unfolding do_write
  do_write-done op n v h e = rw (
    write_file-done os (piece op) (piece_small v) n e,
    lt→ltb 0 (part op.buffer.len) (part_pos op h),
  )

  pub do_write-failed :
      {total : ℕ} {st st' : State} (op : WriteOp) (e : ℕ)
      → IsOpen total op
      → 0 < op.buffer.len
      → write st op.fd (piece op) ≡ (st', failed e)
      → do_write os st op ≡ (st', system_error e, length (piece op))
  unfolding do_write
  do_write-failed op e v h r = rw (
    write_file-failed os (piece op) (piece_small v) e r,
    lt→ltb 0 (part op.buffer.len) (part_pos op h),
  )

  pub do_write-idle :
      (st : State) (op : WriteOp) → op.buffer.len ≡ 0 → do_write os st op ≡ (st, no_error, 0)
  unfolding do_write
  do_write-idle st op e = rw e

  pub complete-more :
      {total : ℕ} {op : WriteOp} (n : ℕ)
      → IsOpen total op
      → n < op.buffer.len
      → write_complete op (system_error 0) n ≡ again (record op { buffer = consume op.buffer n })
  unfolding write_complete
  complete-more n v h = ground (arith, v.small, v.at)

  pub complete-full :
      {total : ℕ} {op : WriteOp} (n : ℕ) (ec : ErrorCode)
      → IsOpen total op
      → ec.value ≡ 0
      → n ≡ op.buffer.len
      → write_complete op ec n ≡ finish ec total (record op { buffer = consume op.buffer n })
  unfolding write_complete
  complete-full n ec v z h = ground (arith, v.small, v.at)

  pub complete-failed :
      (op : WriteOp) (e n : ℕ)
      → e ≢ 0
      → write_complete op (system_error e) n ≡ finish (system_error e) op.buffer.raw op
  unfolding write_complete
  complete-failed op e n ne = ground arith

  abbrev pub end : State → ErrorCode → ℕ → WriteOp → Ended os WriteOp
  end st ec n op = record { state = st; ec = ec; count = n; op = op }

  abbrev pub advanced : WriteOp → ℕ → WriteOp
  advanced op n = record op { buffer = consume op.buffer n }

  pub advanced_lem :
      {total : ℕ} {op : WriteOp} (n : ℕ)
      → IsOpen total op
      → n ≤ op.buffer.len
      → ((advanced op n).buffer.raw ≡ op.buffer.raw + n)
        × ((advanced op n).buffer.len ≡ op.buffer.len - n)
  advanced_lem n v h = omega (arith, v.at, v.small)

  pub IsOpen-advanced :
      {total : ℕ} {op : WriteOp} (n : ℕ)
      → IsOpen total op
      → n ≤ op.buffer.len
      → IsOpen total (advanced op n)
  IsOpen-advanced n v h = record {
    at = omega (arith, v.at, v.small);
    size = v.size;
    small = v.small;
  }

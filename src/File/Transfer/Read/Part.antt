-- ===== src/File/Transfer/Read/Part.antt =====
-- What a round of a `read_op` delivers.
use jnet_lib.Base.{
  ℕ, ◌+◌, ◌-◌, ◌^◌, ◌≤◌, ◌<◌, ◌≡◌, ◌≢◌, refl, sym, ◌∙◌, ap, ap₂, List, [], ◌++◌, false, length,
  take, drop, write_at, arith, take-write_at, write_at-nil, drop-write_at_after, length-write_at,
  append_assoc, lt→ltb,
}
use jnet_lib.Errors.{ErrorCode, no_error, system_error, frame_error, is_error}
use jnet_lib.Errors.Code
use jnet_lib.Buffer.{append, remain}
use jnet_lib.Posix.{done, failed, Fd, Files}
use jnet_lib.File.Calls.{read_file-done, read_file-failed}
use jnet_lib.File.Transfer.{ReadOp, again, finish, part, read_complete, do_read, Ended}

-- What `read` is documented to do: `rest` is what the descriptor has yet to give. A read gives the next
-- bytes, at most as many as asked for, and none only at the end; one that fails takes none.
module _ (os : Files) where
  open os use {State, read}

  pub record ReadLaws : Type 0 where
    pub rest : State → Fd → List ℕ
    pub gives :
        (st st' : State) (fd : Fd) (n : ℕ) (bs : List ℕ)
        → read st fd n ≡ (st', done bs)
        → (rest st fd ≡ bs ++ rest st' fd) × (length bs ≤ n)
    pub ends :
        (st st' : State) (fd : Fd) (n : ℕ) → 0 < n → read st fd n ≡ (st', done []) → rest st fd ≡ []
    pub fails :
        (st st' : State) (fd : Fd) (n e : ℕ)
        → read st fd n ≡ (st', failed e)
        → (rest st' fd ≡ rest st fd) × (e ≢ 0)

module _ (os : Files) (laws : ReadLaws os) where
  open os use {State, read}
  open laws use {rest}

  -- An operation between two rounds.
  pub record IsOpen (op : ReadOp) : Type 0 where
    pub at : op.buffer.raw_pos ≡ op.buffer.len
    pub within : op.buffer.len ≤ op.buffer.size
    pub size : op.buffer.size ≤ length op.memory
    pub small : op.buffer.size < 2 ^ 63
    pub flags : op.epoll_flags ≡ 0

  -- How a transfer of `len` bytes from `fd` ends, in the state `st`: in full, at the end of the file, or by a call of
  -- `read` that failed, the last one, whose error it reports.
  pub data EndsBy (len : ℕ) (ec : ErrorCode) (count : ℕ) (st : State) (fd : Fd) : Type 0 where
    full : is_error ec ≡ false → count ≡ len → EndsBy len ec count st fd
    at_end : ec ≡ frame_error Code.eof → count < len → rest st fd ≡ [] → EndsBy len ec count st fd
    broken :
        (before : State) (n e : ℕ)
        → read before fd n ≡ (st, failed e)
        → e ≢ 0
        → ec ≡ system_error e
        → count < len
        → EndsBy len ec count st fd

  -- From an operation at `st` to its end `r`.
  pub record Delivers (st : State) (op : ReadOp) (r : Ended os ReadOp) : Type 0 where
    pub fd : r.op.fd ≡ op.fd
    pub bytes :
        take op.buffer.len op.memory ++ rest st op.fd
        ≡ take r.count r.op.memory ++ rest r.state op.fd
    pub kept : drop r.count r.op.memory ≡ drop r.count op.memory
    pub length_kept : length r.op.memory ≡ length op.memory
    pub more : op.buffer.len ≤ r.count
    pub ends_by : EndsBy op.buffer.size r.ec r.count r.state op.fd

  abbrev pub piece : ReadOp → ℕ
  piece op = part (remain op.buffer)

  pub piece_lem :
      {op : ReadOp}
      → IsOpen op
      → op.buffer.len < op.buffer.size
      → (0 < piece op) × (piece op ≤ op.buffer.size - op.buffer.len) × (piece op < 2 ^ 63)
  piece_lem v h = ground (arith, v.small, v.within)

  pub do_read-done :
      {st st' : State} (op : ReadOp) (bs : List ℕ)
      → 0 < piece op
      → piece op < 2 ^ 63
      → read st op.fd (piece op) ≡ (st', done bs)
      → do_read os st op ≡ (
        st',
        system_error 0,
        length bs,
        record op { memory = write_at op.memory op.buffer.raw_pos bs },
      )
  unfolding do_read
  do_read-done op bs h s e = rw (read_file-done os (piece op) s bs e, lt→ltb 0 (piece op) h)

  pub do_read-idle :
      (st : State) (op : ReadOp) → piece op ≡ 0 → do_read os st op ≡ (st, no_error, 0, op)
  unfolding do_read
  do_read-idle st op e = rw e

  pub do_read-failed :
      {st st' : State} (op : ReadOp) (e : ℕ)
      → 0 < piece op
      → piece op < 2 ^ 63
      → read st op.fd (piece op) ≡ (st', failed e)
      → do_read os st op ≡ (st', system_error e, piece op, op)
  unfolding do_read
  do_read-failed op e h s r = rw (
    read_file-failed os (piece op) s e r,
    lt→ltb 0 (piece op) h,
    write_at-nil op.memory op.buffer.raw_pos,
  )

  abbrev pub grown : ReadOp → List ℕ → ReadOp
  grown op bs = record op {
    buffer = append op.buffer (length bs);
    memory = write_at op.memory op.buffer.raw_pos bs;
    epoll_flags = 0;
  }

  abbrev pub end : State → ErrorCode → ℕ → ReadOp → Ended os ReadOp
  end st ec n op = record { state = st; ec = ec; count = n; op = op }

  -- `on_complete` after a part, at the end of the file, after a failed call.
  pub complete-part :
      {op : ReadOp} (n : ℕ)
      → IsOpen op
      → 0 < n
      → op.buffer.len + n < op.buffer.size
      → read_complete op (system_error 0) n
        ≡ again (record op { buffer = append op.buffer n; epoll_flags = 0 })
  unfolding read_complete
  complete-part n v p l = ground (arith, v.small, v.flags)

  pub complete-full :
      {op : ReadOp} (n : ℕ) (ec : ErrorCode)
      → IsOpen op
      → ec.value ≡ 0
      → op.buffer.len + n ≡ op.buffer.size
      → read_complete op ec n ≡ finish ec op.buffer.size (record op { buffer = append op.buffer n })
  unfolding read_complete
  complete-full n ec v z l = ground (arith, v.small, v.flags)

  pub complete-end :
      {op : ReadOp}
      → IsOpen op
      → op.buffer.len < op.buffer.size
      → read_complete op (system_error 0) 0 ≡ finish (frame_error Code.eof) op.buffer.len op
  unfolding read_complete
  complete-end v l = ground (arith, v.small, v.flags)

  pub complete-failed :
      {op : ReadOp} (e n : ℕ)
      → IsOpen op
      → e ≢ 0
      → read_complete op (system_error e) n ≡ finish (system_error e) op.buffer.len op
  unfolding read_complete
  complete-failed e n v ne = ground (arith, v.flags)

  pub IsOpen-write :
      {op : ReadOp} (bs : List ℕ)
      → IsOpen op
      → op.buffer.len + length bs ≤ op.buffer.size
      → IsOpen (record op { memory = write_at op.memory op.buffer.raw_pos bs })
  IsOpen-write {op} bs v h = record {
    at = v.at;
    within = v.within;
    size =
        let fits : op.buffer.raw_pos + length bs ≤ length op.memory = omega (arith, v.at, v.size) in
        omega (arith, v.size, length-write_at op.memory op.buffer.raw_pos bs fits);
    small = v.small;
    flags = v.flags;
  }

  pub IsOpen-append :
      {op : ReadOp} (n : ℕ)
      → IsOpen op
      → op.buffer.len + n ≤ op.buffer.size
      → IsOpen (record op { buffer = append op.buffer n; epoll_flags = 0 })
  IsOpen-append n v h = record {
    at = omega (arith, v.at, v.small);
    within = omega (arith, v.small);
    size = v.size;
    small = v.small;
    flags = refl;
  }

  module _ {st st' : State} {op : ReadOp} (v : IsOpen op) (bs : List ℕ) where
    -- What a read that succeeds adds to the delivery.
    pub Delivers-placed :
        {r : Ended os ReadOp}
        → op.buffer.len + length bs ≤ op.buffer.size
        → rest st op.fd ≡ bs ++ rest st' op.fd
        → Delivers st' (grown op bs) r
        → Delivers st op r
    Delivers-placed {r} fits e d = record {
      fd = d.fd;
      bytes =
          ap (λ xs. take op.buffer.len op.memory ++ xs) e
          ∙ sym (append_assoc (take op.buffer.len op.memory) bs (rest st' op.fd))
          ∙ ap (λ xs. xs ++ rest st' op.fd) (sym taken)
          ∙ d.bytes;
      kept =
          d.kept
          ∙ drop-write_at_after op.memory op.buffer.raw_pos bs r.count room
              (omega (arith, d.more, v.at, len_eq));
      length_kept = d.length_kept ∙ length-write_at op.memory op.buffer.raw_pos bs room;
      more = omega (arith, d.more, len_eq);
      ends_by = d.ends_by;
    }
      where
        len_eq : (grown op bs).buffer.len ≡ op.buffer.len + length bs
        len_eq = omega (arith, v.small)

        room : op.buffer.raw_pos + length bs ≤ length op.memory
        room = omega (arith, v.at, v.size)

        taken :
            take (grown op bs).buffer.len (grown op bs).memory ≡ take op.buffer.len op.memory ++ bs
        taken =
            ap (λ n. take n (grown op bs).memory)
              (let e' : (grown op bs).buffer.len ≡ op.buffer.raw_pos + length bs =
                  omega (arith, v.at, len_eq) in
                e')
            ∙ take-write_at op.memory op.buffer.raw_pos bs room
            ∙ ap (λ n. take n op.memory ++ bs) v.at

  Delivers-stop :
      {st : State} {op : ReadOp} (ec : ErrorCode)
      → EndsBy op.buffer.size ec op.buffer.len st op.fd
      → Delivers st op (end st ec op.buffer.len op)
  Delivers-stop ec b = record {
    fd = refl;
    bytes = refl;
    kept = refl;
    length_kept = refl;
    more = omega arith;
    ends_by = b;
  }

  pub Delivers-stop_at :
      {st : State} {op : ReadOp} (st' : State) (ec : ErrorCode)
      → rest st' op.fd ≡ rest st op.fd
      → EndsBy op.buffer.size ec op.buffer.len st' op.fd
      → Delivers st op (end st' ec op.buffer.len op)
  Delivers-stop_at {op = op} st' ec e b = record {
    fd = refl;
    bytes = ap (λ xs. take op.buffer.len op.memory ++ xs) (sym e);
    kept = refl;
    length_kept = refl;
    more = omega arith;
    ends_by = b;
  }

  pub Delivers-full :
      {op : ReadOp} (st : State) (ec : ErrorCode) (last : ReadOp)
      → last.fd ≡ op.fd
      → last.memory ≡ op.memory
      → op.buffer.len ≡ op.buffer.size
      → is_error ec ≡ false
      → Delivers st op (end st ec op.buffer.size last)
  Delivers-full {op} st ec last f m l no_err = record {
    fd = f;
    bytes = ap₂ (λ n xs. take n xs ++ rest st op.fd) l (sym m);
    kept = ap (drop op.buffer.size) m;
    length_kept = ap length m;
    more = omega arith;
    ends_by = full no_err refl;
  }

  -- The `unsigned int` and `size_t` arithmetic of a round does not wrap.
  pub grown_lem :
      {op : ReadOp} (bs : List ℕ)
      → IsOpen op
      → op.buffer.len + length bs ≤ op.buffer.size
      → (grown op bs).buffer.len ≡ op.buffer.len + length bs
  grown_lem bs v h = omega (arith, v.small)

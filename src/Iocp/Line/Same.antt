-- ===== src/Iocp/Line/Same.antt =====
-- `read_line_op` on Windows and on Linux.
use jnet_lib.Base.{
  ℕ, ◌^◌, ◌<◌, ◌≤◌, ◌≡◌, length-take, inl, inr, refl, ap, ◌∙◌, Bool, true, false, not, ◌&&◌, ◌||◌,
  Option, some, List, length, take, drop, ltb, ◌==◌, arith, Bool-cases, if◌then◌else◌,
}
use jnet_lib.Base.Int.{ℤ}
use jnet_lib.Errors.{ErrorCode, frame_error, is_error}
use jnet_lib.Errors.Code
use jnet_lib.Buffer.{size_add, size_sub}
use jnet_lib.Posix.{Fd, Files}
use jnet_lib.File.Calls.{seek, seek_cur}
use jnet_lib.File.Control.{to_seek}
use jnet_lib.File.Kmp.{find_eol}
use jnet_lib.File.Kmp.Search.{Finds, find_eol-Finds}
use jnet_lib.File.Line
use jnet_lib.File.Transfer.{Next, again, finish, max_buffer_size}
use jnet_lib.Iocp.Line.{LineOp, taken_bytes, advance, line_next, searched, on_complete}

-- The operation on Linux, at the descriptor `fd`.
abbrev pub on_linux : Fd → LineOp → Line.LineOp
on_linux fd op = record {
  fd = fd;
  memory = op.memory;
  buffer_pos = op.buffer_pos;
  remain_length = op.remain_length;
  eol = op.eol;
  inc_eol = op.inc_eol;
  epoll_flags = 0;
}

abbrev pub next_on_linux : Fd → Next LineOp → Next Line.LineOp
next_on_linux fd (again op) = again (on_linux fd op)
next_on_linux fd (finish ec n op) = finish ec n (on_linux fd op)

module _ (os : Files) (fd : Fd) (op : LineOp) (ec : ErrorCode) where
  open os use {State}

  -- Both return, with the same `next`. Windows moves the file by `moved` from where the read began; Linux, which is
  -- `bytes` behind that place, by `back`, modulo 2^64.
  pub record SameNext (st : State) (bytes : ℕ) (l : Option (State × Next Line.LineOp))
      (w : Option (ℕ × Next LineOp)) : Type 0 where
    pub next : Next LineOp
    pub moved : ℕ
    pub back : ℕ
    pub windows : w ≡ some (moved, next)
    pub linux : l ≡ some ((seek os st fd (to_seek back) seek_cur).0, next_on_linux fd next)
    pub position : size_add bytes back ≡ moved

  line_next-Same :
      (found bytes : ℕ)
      → Line.line_next (Line.advance (on_linux fd op) bytes) ec found bytes
        ≡ next_on_linux fd (line_next (advance op bytes) ec found bytes)
  unfolding line_next Line.line_next
  line_next-Same found bytes = elim (Bool-cases (ltb found bytes)) [
    | inl d ↦ rw d refl
    | inr d ↦
        elim (Bool-cases (
          (size_sub op.remain_length bytes == 0)
          || (not (bytes == max_buffer_size) && not (size_sub op.remain_length bytes == 0)))) [
            | inl e ↦ rw d (rw e refl)
            | inr e ↦ rw d (rw e refl)
          ]
  ]

  searched-Same :
      (st : State) (bytes found last : ℕ)
      → bytes < 2 ^ 64
      → last ≤ bytes
      → SameNext st bytes
          (Line.settled os st (on_linux fd op) ec bytes (some (found, last)))
          (searched op ec bytes (some (found, last)))
  unfolding Line.give_back taken_bytes
  searched-Same st bytes found last small within = elim (Bool-cases (ltb found bytes)) [
    | inl d ↦
        (let n = size_add found (length op.eol) in
          record {
            next = line_next (advance op n) ec found n;
            moved = n;
            back = size_sub n bytes;
            windows = rw d refl;
            linux = rw d (
                ap (λ x. some ((seek os st fd (to_seek (size_sub n bytes)) seek_cur).0, x))
                  (line_next-Same found n));
            position = omega (arith, small);
          })
    | inr d ↦
        (let n = size_sub bytes last in
          record {
            next = line_next (advance op n) ec found n;
            moved = n;
            back = size_sub 0 last;
            windows = rw d refl;
            linux = rw d (
                ap (λ x. some ((seek os st fd (to_seek (size_sub 0 last)) seek_cur).0, x))
                  (line_next-Same found n));
            position = omega (arith, small, within);
          })
  ]

  last_within : (text : List ℕ) {r : ℕ × ℕ} → Finds op.eol text 0 r → r.1 ≤ length text
  last_within text (Finds.found o n) = omega arith
  last_within text (Finds.absent n e m) = omega (arith, e.at)

  line_error_lem :
      (bytes : ℕ) → (bytes == 0) ≡ false → Line.line_error (on_linux fd op) ec bytes ≡ ec
  unfolding Line.line_error
  line_error_lem bytes d = elim (Bool-cases (ec.value == Code.epoll_flag)) [
    | inl c ↦ rw c (and_false ec (not (is_error ec)) bytes d)
    | inr c ↦ rw c (and_false ec (not (is_error ec)) bytes d)
  ]
    where
      and_false :
          (e : ErrorCode) (b : Bool) (n : ℕ)
          → (n == 0) ≡ false
          → (if b && ((n == 0) && ltb 0 op.remain_length) then frame_error Code.eof else e) ≡ e
      and_false e true n d = rw d refl
      and_false e false n d = refl

-- For an end of line of two bytes or more and a block of its length, after a read without an
-- error that gave some bytes, fewer than 2^64, on_complete of a read_line_op on Windows and on
-- Linux (where epoll_flags_ is 0) both return: they call back with the same error code and
-- length, or both go on to read with the same position and remaining length; and they leave
-- the file at the same place, modulo 2^64.
pub on_complete-SameNext :
    (os : Files) (block : List ℤ) (st : os.State) (fd : Fd) (op : LineOp) (ec : ErrorCode)
    (bytes : ℕ)
    → is_error ec ≡ false
    → 0 < bytes
    → bytes < 2 ^ 64
    → 2 ≤ length op.eol
    → length block ≡ length op.eol
    → SameNext os fd op ec st bytes
        (Line.on_complete os block st (on_linux fd op) ec bytes)
        (on_complete block op ec bytes)
unfolding on_complete Line.on_complete
on_complete-SameNext os block st fd op ec bytes e p small two room =
    let d : (bytes == 0) ≡ false = ground (arith, p) in
    let text = take bytes (drop op.buffer_pos op.memory) in
    let found = find_eol op.eol block text 0 in
    let (r, q, w) = find_eol-Finds op.eol text block 0 two room in
    let linux : Line.on_complete os block st (on_linux fd op) ec bytes
        ≡ Line.settled os st (on_linux fd op) ec bytes found =
      ap
        (λ c.
          if is_error c || (bytes == 0)
          then some (st, finish c op.buffer_pos (on_linux fd op))
          else Line.settled os st (on_linux fd op) c bytes found)
        (line_error_lem os fd op ec bytes d)
      ∙ ap
          (λ b.
            if b
            then some (st, finish ec op.buffer_pos (on_linux fd op))
            else Line.settled os st (on_linux fd op) ec bytes found)
          (ap (λ b. b || (bytes == 0)) e ∙ d) in
    let windows : on_complete block op ec bytes ≡ searched op ec bytes found = rw e (rw d refl) in
    let s = searched-Same os fd op ec st bytes r.0 r.1 small (
      omega (
        arith,
        last_within os fd op ec text w,
        length-take bytes (drop op.buffer_pos op.memory),
      )) in
    record {
      next = s.next;
      moved = s.moved;
      back = s.back;
      windows = windows ∙ ap (searched op ec bytes) q ∙ s.windows;
      linux = linux ∙ ap (Line.settled os st (on_linux fd op) ec bytes) q ∙ s.linux;
      position = s.position;
    }

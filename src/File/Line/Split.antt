-- ===== src/File/Line/Split.antt =====
-- What `on_complete` of a `read_line_op` makes of the bytes that were read.
use jnet_lib.Base.{
  ℕ, zero, suc, ◌+◌, ◌-◌, ◌%◌, ◌^◌, ◌≤◌, ◌<◌, ◌≡◌, ◌≢◌, ◌⊎◌, refl, sym, ap, ap₂, ◌∙◌, Bool, true,
  false, not, ◌&&◌, ◌||◌, some, List, length, take, drop, length-take, length-drop, ltb, ◌==◌,
  if◌then◌else◌, arith, Bool-cases, ==_ne, subst, lt→ltb, inl, inr,
}
use jnet_lib.Base.Int.{ℤ, pos, negsuc}
use jnet_lib.Errors.{ErrorCode, frame_error, is_error}
use jnet_lib.Errors.Code
use jnet_lib.Buffer.{size_add, size_sub}
use jnet_lib.Posix.{Files}
use jnet_lib.File.Calls.{seek, seek_cur}
use jnet_lib.File.Control.{to_seek}
use jnet_lib.File.Kmp.Search.{Finds, found, absent, Occurs, EndsWith, find_eol-Finds}
use jnet_lib.File.Transfer.{Next, again, finish, max_buffer_size}
use jnet_lib.File.Line.{LineOp, line_error, advance, line_next, line_then, give_back, on_complete}

-- `k` bytes back.
abbrev pub back : ℕ → ℤ
back zero = pos 0
back (suc k) = negsuc k

-- The operation `n` bytes further, in numbers that do not wrap.
abbrev pub moved : LineOp → ℕ → LineOp
moved op n = record op { buffer_pos = op.buffer_pos + n; remain_length = op.remain_length - n }

abbrev pub text : LineOp → ℕ → List ℕ
text op bytes = take bytes (drop op.buffer_pos op.memory)

to_seek-back : (a b : ℕ) → a ≤ b → b < 2 ^ 63 → to_seek (size_sub a b) ≡ back (b - a)
to_seek-back a b h l = by_gap (b - a) refl
  where
    by_gap : (d : ℕ) → b - a ≡ d → to_seek (size_sub a b) ≡ back d
    by_gap zero e = ground (arith, e)
    by_gap (suc d) e = ground (arith, e)

-- What is known of an operation to which `bytes` bytes were read.
pub record HasRead (op : LineOp) (bytes : ℕ) : Type 0 where
  pub eol : 2 ≤ length op.eol
  pub some : 0 < bytes
  pub within : bytes ≤ op.remain_length
  pub small : op.buffer_pos + op.remain_length < 2 ^ 63
  pub fits : op.buffer_pos + bytes ≤ length op.memory

length-text : {op : LineOp} {bytes : ℕ} → HasRead op bytes → length (text op bytes) ≡ bytes
length-text {op} {bytes} h = omega (
  arith,
  h.fits,
  length-take bytes (drop op.buffer_pos op.memory),
  length-drop op.buffer_pos op.memory,
)

advance-moved :
    {op : LineOp} {bytes : ℕ} (n : ℕ) → HasRead op bytes → n ≤ bytes → advance op n ≡ moved op n
advance-moved {op} n h l =
    ap₂ (λ a b. record op { buffer_pos = a; remain_length = b })
      (let e : (op.buffer_pos + n) % 2 ^ 64 ≡ op.buffer_pos + n =
          omega (arith, h.small, h.within) in
        e)
      (let e : (op.remain_length + 2 ^ 64 - n) % 2 ^ 64 ≡ op.remain_length - n =
          omega (arith, h.small, h.within) in
        e)

module _ (os : Files) (st : os.State) (op : LineOp) (ec : ErrorCode) (bytes : ℕ) where
  -- The descriptor `k` bytes further back.
  abbrev pub given : ℕ → os.State
  given k = (seek os st op.fd (back k) seek_cur).0

  -- A line that ends at the first end of line in the text; a full part of a longer
  -- line; and the end of the file or of the buffer. In the last two what may be the beginning of an end
  -- of line is given back.
  pub data Split (r : os.State × Next LineOp) : Type 0 where
    line :
        (p : ℕ)
        → Occurs op.eol (text op bytes) p
        → ((q : ℕ) → q < p → ¬ Occurs op.eol (text op bytes) q)
        → r ≡ (
          given (bytes - (p + length op.eol)),
          finish ec
              (op.buffer_pos + p + (if op.inc_eol then length op.eol else 0))
              (moved op (p + length op.eol)),
        )
        → Split r
    more :
        (k : ℕ)
        → ((q : ℕ) → ¬ Occurs op.eol (text op bytes) q)
        → EndsWith op.eol (text op bytes) k
        → ((m : ℕ) → EndsWith op.eol (text op bytes) m → m ≤ k)
        → bytes - k ≡ max_buffer_size
        → bytes - k < op.remain_length
        → r ≡ (given k, again (record (moved op (bytes - k)) { epoll_flags = 0 }))
        → Split r
    end :
        (k : ℕ)
        → ((q : ℕ) → ¬ Occurs op.eol (text op bytes) q)
        → EndsWith op.eol (text op bytes) k
        → ((m : ℕ) → EndsWith op.eol (text op bytes) m → m ≤ k)
        → (bytes - k ≢ max_buffer_size) ⊎ (bytes - k ≡ op.remain_length)
        → r ≡ (
          given k,
          finish (frame_error Code.eof) (op.buffer_pos + (bytes - k)) (moved op (bytes - k)),
        )
        → Split r

module _ (os : Files) (st : os.State) {op : LineOp} (ec : ErrorCode) {bytes : ℕ}
    (h : HasRead op bytes) where
  line_next-found :
      (p : ℕ)
      → p + length op.eol ≤ bytes
      → line_then op ec p (p + length op.eol)
        ≡ finish ec
            (op.buffer_pos + p + (if op.inc_eol then length op.eol else 0))
            (moved op (p + length op.eol))
  unfolding line_next
  line_next-found p l =
      ap (λ o. line_next o ec p (p + length op.eol)) (advance-moved (p + length op.eol) h l)
      ∙ rw (lt→ltb p (p + length op.eol) (omega (arith, h.eol)))
          (ap (λ n. finish ec n (moved op (p + length op.eol))) reported)
    where
      reported :
          size_sub (op.buffer_pos + (p + length op.eol)) (if op.inc_eol then 0 else length op.eol)
          ≡ op.buffer_pos + p + (if op.inc_eol then length op.eol else 0)
      reported = ground (arith, h.small, h.within, l)

  give_back-line :
      (p : ℕ)
      → p + length op.eol ≤ bytes
      → give_back os st op ec bytes (p, 0) ≡ (
        given os st op ec bytes (bytes - (p + length op.eol)),
        finish ec
            (op.buffer_pos + p + (if op.inc_eol then length op.eol else 0))
            (moved op (p + length op.eol)),
      )
  unfolding give_back
  give_back-line p l = rw (lt→ltb p bytes (omega (arith, h.eol, l))) (
      ap₂ (λ d n. ((seek os st op.fd (to_seek (size_sub d bytes)) seek_cur).0, line_then op ec p n))
        whole whole
      ∙ ap₂ (λ d n. ((seek os st op.fd d seek_cur).0, n))
          (to_seek-back (p + length op.eol) bytes l (omega (arith, h.small, h.within)))
          (line_next-found p l))
    where
      whole : size_add p (length op.eol) ≡ p + length op.eol
      whole = omega (arith, h.small, h.within, l)

  give_back-rest :
      (k : ℕ)
      → k ≤ bytes
      → give_back os st op ec bytes (bytes, k)
        ≡ (given os st op ec bytes k, line_then op ec bytes (bytes - k))
  unfolding give_back
  give_back-rest k l = rw (let e : ltb bytes bytes ≡ false = ground arith in e) (
      ap₂ (λ d n. ((seek os st op.fd d seek_cur).0, line_then op ec bytes n))
        (to_seek-back 0 k (omega arith) (omega (arith, h.small, h.within))
          ∙ ap back (let e : k - 0 ≡ k = omega arith in e))
        (let e : size_sub bytes k ≡ bytes - k = omega (arith, h.small, h.within, l) in e))

  abbrev ended : ℕ → Bool
  ended n =
      (op.remain_length - n == 0) || (not (n == max_buffer_size) && not (op.remain_length - n == 0))

  line_next-rest :
      (n : ℕ)
      → n ≤ bytes
      → line_then op ec bytes n ≡ (
          if ended n
          then finish (frame_error Code.eof) (op.buffer_pos + n) (moved op n)
          else again (record (moved op n) { epoll_flags = 0 }))
  unfolding line_next
  line_next-rest n l =
      ap (λ o. line_next o ec bytes n) (advance-moved n h l)
      ∙ rw (let e : ltb bytes n ≡ false = ground (arith, l) in e) refl

  -- The two cases without an end of line.
  rest-Split :
      (k : ℕ)
      → ((q : ℕ) → ¬ Occurs op.eol (text op bytes) q)
      → EndsWith op.eol (text op bytes) k
      → ((m : ℕ) → EndsWith op.eol (text op bytes) m → m ≤ k)
      → Split os st op ec bytes (give_back os st op ec bytes (bytes, k))
  rest-Split k nowhere e longest = elim (Bool-cases (ended (bytes - k))) [
    | inl y ↦ end k nowhere e longest (at_end y) (
        give_back-rest k l
        ∙ ap (λ r. (given os st op ec bytes k, r))
            (line_next-rest (bytes - k) (omega arith) ∙ rw y refl))
    | inr y ↦ more k nowhere e longest (full y) (left y) (
        give_back-rest k l
        ∙ ap (λ r. (given os st op ec bytes k, r))
            (line_next-rest (bytes - k) (omega arith) ∙ rw y refl))
  ]
    where
      l : k ≤ bytes
      l = omega (arith, e.at, length-text h)

      at_end :
          ended (bytes - k) ≡ true → (bytes - k ≢ max_buffer_size) ⊎ (bytes - k ≡ op.remain_length)
      at_end y = elim (Bool-cases (bytes - k == max_buffer_size)) [
        | inl e ↦ inr (ground (arith, y, e, h.within))
        | inr e ↦ inl (==_ne _ _ e)
      ]

      full : ended (bytes - k) ≡ false → bytes - k ≡ max_buffer_size
      full y = ground (arith, y)

      left : ended (bytes - k) ≡ false → bytes - k < op.remain_length
      left y = ground (arith, y, h.within)

  Finds-Split :
      (r : ℕ × ℕ)
      → Finds op.eol (text op bytes) 0 r
      → Split os st op ec bytes (give_back os st op ec bytes r)
  Finds-Split r (found {p} o first) =
      line p o first (give_back-line p (omega (arith, o.fits, length-text h)))
  Finds-Split r (absent {k} nowhere e longest) =
      subst (λ n. Split os st op ec bytes (give_back os st op ec bytes (n, k)))
        (sym (length-text h)) (rest-Split k nowhere e longest)

  line_error-none : is_error ec ≡ false → line_error op ec bytes ≡ ec
  unfolding line_error
  line_error-none ok = ground (arith, ok, h.some)

  -- For an end of line of two bytes or more, and after a read without error of some bytes that
  -- fit the buffer (position and remaining length below 2^63 together), on_complete of a
  -- read_line_op returns and does one of three things. It reports the bytes before the first
  -- end of line (with inc_eol, this too) without error, and moves the descriptor back to just
  -- behind it. Or there is none, and it moves the descriptor back by the longest beginning of
  -- an end of line that the bytes end with: then, if exactly 64 KiB are left over and there is
  -- room, it asks for more, else it reports end of file.
  pub on_complete-Split :
      (block : List ℤ)
      → length block ≡ length op.eol
      → is_error ec ≡ false
      → (r : os.State × Next LineOp) × (on_complete os block st op ec bytes ≡ some r)
        × Split os st op ec bytes r
  unfolding on_complete
  on_complete-Split block b ok =
      let (r, e, f) = find_eol-Finds op.eol (text op bytes) block 0 h.eol b in
      (
        give_back os st op ec bytes r,
        rw (line_error-none ok, ok, e, let z : (bytes == 0) ≡ false = ground (arith, h.some) in z)
            refl,
        Finds-Split r f,
      )

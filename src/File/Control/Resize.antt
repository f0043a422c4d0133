-- ===== src/File/Control/Resize.antt =====
-- What `truncate` and `extend_to` do to the file.
use jnet_lib.Base.{
  ℕ, ◌^◌, ◌<◌, ◌≡◌, ◌≢◌, ◌⊎◌, inl, inr, refl, subst, lt→ltb, ◌∙◌, true, false, arith,
}
use jnet_lib.Base.Int.{ℤ, pos}
use jnet_lib.Errors.{ErrorCode, system_error, is_error}
use jnet_lib.Posix.{done, failed, Outcome-cases, Fd, Files}
use jnet_lib.File.Calls.{seek, set_eof, seek_lem, set_eof-done, set_eof-failed, seek_set, seek_cur}
use jnet_lib.File.Control.{eof_unless, extend_to, truncate, rewind}

-- What `lseek` and `ftruncate` are documented to do to a regular file: its length, and where the
-- descriptor stands. A call that fails changes neither, and sets `errno`.
module _ (os : Files) where
  open os use {State, lseek, ftruncate}

  pub record SizeLaws : Type 0 where
    pub size : State → Fd → ℕ
    pub offset : State → Fd → ℕ
    pub moves :
        (st st' : State) (fd : Fd) (n r : ℕ)
        → lseek st fd (pos n) seek_set ≡ (st', done r)
        → (size st' fd ≡ size st fd) × (offset st' fd ≡ n)
    pub stays :
        (st st' : State) (fd : Fd) (r : ℕ)
        → lseek st fd (pos 0) seek_cur ≡ (st', done r)
        → (size st' fd ≡ size st fd) × (offset st' fd ≡ offset st fd) × (r ≡ offset st fd)
    pub cuts :
        (st st' : State) (fd : Fd) (n : ℕ)
        → ftruncate st fd n ≡ (st', done tt)
        → (size st' fd ≡ n) × (offset st' fd ≡ offset st fd)
    pub seek_fails :
        (st st' : State) (fd : Fd) (d : ℤ) (w e : ℕ)
        → lseek st fd d w ≡ (st', failed e)
        → (size st' fd ≡ size st fd) × (e ≢ 0)
    pub cut_fails :
        (st st' : State) (fd : Fd) (n e : ℕ)
        → ftruncate st fd n ≡ (st', failed e)
        → (size st' fd ≡ size st fd) × (e ≢ 0)

module _ (os : Files) (laws : SizeLaws os) where
  open os use {State, lseek, ftruncate}
  open laws use {size, offset}

  -- The file has the length `n`, and the descriptor stands at its end; or a call failed
  -- and the length is as before.
  pub Resized : Fd → ℕ → State → State × ErrorCode → Type 0
  Resized fd n st (st', ec) =
      ((is_error ec ≡ false) × (size st' fd ≡ n) × (offset st' fd ≡ n))
      ⊎ ((is_error ec ≡ true) × (size st' fd ≡ size st fd))

  broken : {e : ℕ} → e ≢ 0 → is_error (system_error e) ≡ true
  broken h = ground (arith, h)

  -- From where the descriptor stands.
  set_eof-Resized :
      (fd : Fd) (st st' : State)
      → size st' fd ≡ size st fd
      → Resized fd (offset st' fd) st (set_eof os st' fd)
  unfolding Resized
  set_eof-Resized fd st st' same = elim (Outcome-cases (lseek st' fd (pos 0) seek_cur)) [
    | inr (s, e, r) ↦ rw (set_eof-failed os e r) (
        inr (
          broken (laws.seek_fails st' s fd _ _ e r).1,
          (laws.seek_fails st' s fd _ _ e r).0 ∙ same,
        ))
    | inl (s, off, r) ↦ elim (Outcome-cases (ftruncate s fd off)) [
      | inl (u, a, t) ↦ rw (set_eof-done os off (done tt) r t) (
          inl (
            refl,
            (laws.cuts s u fd off t).0 ∙ (laws.stays st' s fd off r).2,
            (laws.cuts s u fd off t).1 ∙ (laws.stays st' s fd off r).1,
          ))
      | inr (u, e, t) ↦ rw (set_eof-done os off (failed e) r t) (
          inr (
            broken (laws.cut_fails s u fd off e t).1,
            (laws.cut_fails s u fd off e t).0 ∙ (laws.stays st' s fd off r).0 ∙ same,
          ))
    ]
  ]

  -- `truncate` and `extend_to`: a move to `n`, and the end of the file is set there.
  moved-Resized :
      (fd : Fd) (st : State) (n : ℕ)
      → Resized fd n st (eof_unless os fd (seek os st fd (pos n) seek_set))
  unfolding Resized
  moved-Resized fd st n = elim (Outcome-cases (lseek st fd (pos n) seek_set)) [
    | inl (s, r, e) ↦ rw (seek_lem os (pos n) seek_set (done r) e) (
        subst (λ k. Resized fd k st (set_eof os s fd)) (laws.moves st s fd n r e).1
          (set_eof-Resized fd st s (laws.moves st s fd n r e).0))
    | inr (s, k, e) ↦
        rw (seek_lem os (pos n) seek_set (failed k) e, broken (laws.seek_fails st s fd _ _ k e).1)
          (inr (broken (laws.seek_fails st s fd _ _ k e).1, (laws.seek_fails st s fd _ _ k e).0))
  ]

  truncate-Resized : (fd : Fd) (st : State) → Resized fd 0 st (truncate os st fd)
  unfolding truncate rewind
  truncate-Resized fd st = moved-Resized fd st 0

  extend_to-Resized :
      (fd : Fd) (st : State) (n : ℕ) → n < 2 ^ 63 → Resized fd n st (extend_to os st fd n)
  unfolding extend_to
  extend_to-Resized fd st n small = rw (lt→ltb n (2 ^ 63) small) (moved-Resized fd st n)

  -- For a size below 2^63 extend_to leaves a file of this length with the descriptor at its
  -- end and no error, or an error and the length as it was; truncate leaves an empty file with
  -- the descriptor at 0 and no error, or an error and the length as it was.
  pub resize-Resized :
      (fd : Fd) (st : State) (n : ℕ)
      → n < 2 ^ 63
      → Resized fd n st (extend_to os st fd n) × Resized fd 0 st (truncate os st fd)
  resize-Resized fd st n small = (extend_to-Resized fd st n small, truncate-Resized fd st)

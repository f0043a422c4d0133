-- ===== src/File/Control/Tests.antt =====
-- A system with one open file, of which only the length and the offset count.
use jnet_lib.Base.{
  ℕ, ◌≡◌, ◌≢◌, refl, ap, sym, ◌∙◌, Bool, true, false, none, some, [], ◌==◌, if◌then◌else◌, arith,
}
use jnet_lib.Base.Int.{ℤ, pos, negsuc}
use jnet_lib.Errors.{frame_error}
use jnet_lib.Errors.Code
use jnet_lib.Posix.{Outcome, done, failed, Files}
use jnet_lib.File.Control.{
  open_existing, create, truncate, close, extend_to, open_file, advance_open, to_end_if,
}
use jnet_lib.File.Control.Resize.{SizeLaws, Resized, resize-Resized}
use jnet_lib.File.Control.Protocol.{opens-Refused, create-intr}

record Plain : Type 0 where
  size : ℕ
  offset : ℕ

abbrev move : Plain → ℤ → ℕ → Plain × Outcome ℕ
move d (negsuc n) w = (d, failed 22)
move d (pos n) w =
    if w == 0
    then (record d { offset = n }, done n)
    else if w == 1
    then (d, done d.offset)
    else (d, failed 22)

abbrev plain : Files
plain = record {
  State = Plain;
  open_file = λ d name flags. (d, failed 4);
  close = λ d fd. (d, done tt);
  lseek = λ d fd n w. move d n w;
  fstat_size = λ d fd. (d, done d.size);
  ftruncate = λ d fd n. (record d { size = n }, done tt);
  fsync = λ d fd. (d, done tt);
  read = λ d fd n. (d, done []);
  write = λ d fd bs. (d, done 0);
}

abbrev error_of : {A : Type 0} → Outcome A → ℕ
error_of (done a) = 0
error_of (failed e) = e

abbrev is_done : {A : Type 0} → Outcome A → Bool
is_done (done a) = true
is_done (failed e) = false

abbrev value_of : Outcome ℕ → ℕ
value_of (done a) = a
value_of (failed e) = 0

-- A move changes no length, and fails with `EINVAL`.
move-size : (d : Plain) (n : ℤ) (w : ℕ) → (move d n w).0.size ≡ d.size
move-size d (negsuc n) w = refl
move-size d (pos n) w = ground arith

move-error : (d d' : Plain) (n : ℤ) (w e : ℕ) → move d n w ≡ (d', failed e) → e ≢ 0
move-error d d' (negsuc n) w e h z = cc (ap (λ p. error_of p.1) h, z)
move-error d d' (pos n) w e h z = ground (arith, h)

plain_sizes : SizeLaws plain
plain_sizes = record {
  size = λ d fd. d.size;
  offset = λ d fd. d.offset;
  moves = λ d d' fd n r e. (ap (λ p. p.0.size) (sym e), ap (λ p. p.0.offset) (sym e));
  stays = λ d d' fd r e.
      (ap (λ p. p.0.size) (sym e), ap (λ p. p.0.offset) (sym e), ap (λ p. value_of p.1) (sym e));
  cuts = λ d d' fd n e. (ap (λ p. p.0.size) (sym e), ap (λ p. p.0.offset) (sym e));
  seek_fails =
      λ d d' fd n w e h. (ap (λ p. p.0.size) (sym h) ∙ move-size d n w, move-error d d' n w e h);
  cut_fails = λ d d' fd n e h. absurd (cc (ap (λ p. is_done p.1) h));
}

abbrev small_file : Plain
small_file = record { size = 10; offset = 4 }

resize-Resized_example :
    Resized plain plain_sizes (some 3) 100 small_file (extend_to plain small_file (some 3) 100)
    × Resized plain plain_sizes (some 3) 0 small_file (truncate plain small_file (some 3))
resize-Resized_example = resize-Resized plain plain_sizes (some 3) small_file 100 (omega arith)

opens-Refused_example :
    (create plain small_file (some 3) "log" false true false 0
      ≡ (small_file, some 3, frame_error Code.already_open))
    × (open_file plain small_file (some 3) "log" false true false 0
        ≡ (small_file, some 3, frame_error Code.already_open))
    × (close plain small_file none ≡ (small_file, none, frame_error Code.not_open))
    × ((close plain small_file (some 3)).1 ≡ none)
opens-Refused_example = opens-Refused plain small_file 3 "log" false true false 0

create-intr_example :
    create plain small_file none "log" true false true 1
    ≡ to_end_if plain true (advance_open plain small_file none "log" 1 open_existing)
create-intr_example = create-intr plain small_file small_file "log" true 1 refl

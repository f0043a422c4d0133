-- ===== src/File/Line/Tests.antt =====
-- A line of two bytes, and the first byte of the next.
use jnet_lib.Base.{ℕ, ◌+◌, ◌-◌, ◌≡◌, refl, false, some, List, [], ◌∷◌, arith}
use jnet_lib.Base.Int.{ℤ, pos, negsuc}
use jnet_lib.Errors.{no_error}
use jnet_lib.Posix.{done, failed, Files}
use jnet_lib.File.Transfer.{Next}
use jnet_lib.File.Line.{LineOp, on_complete, asyn_read_line}
use jnet_lib.File.Line.Split.{Split, on_complete-Split}

-- The descriptor's offset, which only `lseek` changes.
abbrev move : ℕ → ℤ → ℕ
move d (pos n) = d + n
move d (negsuc n) = d - (n + 1)

abbrev tape : Files
tape = record {
  State = ℕ;
  open_file = λ d name flags. (d, failed 2);
  close = λ d fd. (d, done tt);
  lseek = λ d fd n w. (move d n, done (move d n));
  fstat_size = λ d fd. (d, done 0);
  ftruncate = λ d fd n. (d, done tt);
  fsync = λ d fd. (d, done tt);
  read = λ d fd n. (d, done []);
  write = λ d fd bs. (d, done 0);
}

abbrev block : List ℤ
block = pos 7 ∷ pos 7 ∷ []

abbrev two_lines : LineOp
two_lines = asyn_read_line (some 3) (97 ∷ 98 ∷ 13 ∷ 10 ∷ 99 ∷ 0 ∷ []) 6 (13 ∷ 10 ∷ []) false

on_complete-Split_example :
    (r : ℕ × Next LineOp) × (on_complete tape block 105 two_lines no_error 5 ≡ some r)
    × Split tape 105 two_lines no_error 5 r
on_complete-Split_example =
    on_complete-Split tape 105 no_error
      (record {
        eol = omega arith;
        some = omega arith;
        within = omega arith;
        small = omega arith;
        fits = omega arith;
      })
      block refl refl

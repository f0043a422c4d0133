-- ===== src/Iocp/Line/Tests.antt =====
-- Lines read on Windows.
use jnet_lib.Base.{ℕ, ◌≡◌, refl, true, false, none, some, List, [], ◌∷◌, ◌++◌, arith}
use jnet_lib.Base.Int.{ℤ, pos}
use jnet_lib.Errors.{no_error}
use jnet_lib.Posix.{done, failed, Files}
use jnet_lib.File.Line
use jnet_lib.Iocp.{
  Service, new_service, begin_overlapped, end_overlapped, on_pending, work_started, take_packet,
  claim, from_kernel, kernel_completes, Steps,
}
use jnet_lib.Iocp.Line.{LineOp, on_complete, read_again, asyn_read_line}
use jnet_lib.Iocp.Line.Same.{on_linux, SameNext, on_complete-SameNext}
use jnet_lib.Iocp.Line.Twice.{IsCompleting, read_again-Twice}

-- "ab\r\nc" in a buffer of 8 bytes.
abbrev line : LineOp
line = asyn_read_line (97 ∷ 98 ∷ 13 ∷ 10 ∷ 99 ∷ 0 ∷ 0 ∷ 0 ∷ []) 8 (13 ∷ 10 ∷ []) false

abbrev block : List ℤ
block = pos 7 ∷ pos 7 ∷ []

-- A file that has nothing to read.
abbrev empty_file : Files
empty_file = record {
  State = ℕ;
  open_file = λ d name flags. (d, failed 2);
  close = λ d fd. (d, done tt);
  lseek = λ d fd n w. (d, done 0);
  fstat_size = λ d fd. (d, done 0);
  ftruncate = λ d fd n. (d, done tt);
  fsync = λ d fd. (d, done tt);
  read = λ d fd n. (d, done []);
  write = λ d fd bs. (d, done 0);
}

on_complete-SameNext_example :
    SameNext empty_file
      (some 3)
      line
      no_error
      0
      5
      (Line.on_complete empty_file block 0 (on_linux (some 3) line) no_error 5)
      (on_complete block line no_error 5)
on_complete-SameNext_example =
    on_complete-SameNext empty_file block 0 (some 3) line no_error 5 refl (omega arith)
      (omega arith) (omega arith) refl

abbrev part_done : Service
part_done =
    claim 1 (no_error, 5) []
      (take_packet none (from_kernel 1) [] (
        kernel_completes 1
          (end_overlapped true 1 (begin_overlapped 1 (no_error, 5) (new_service false))))).0

part_done-IsCompleting : IsCompleting 1 part_done
unfolding new_service begin_overlapped end_overlapped on_pending work_started take_packet claim
part_done-IsCompleting = record { ready = refl; port = refl; held = refl }

read_again-Twice_example :
    (t : Service) × Steps (read_again 1 (no_error, 7) (no_error, 0) part_done) t
    × (t.begun 1 ≡ part_done.begun 1 ++ ((no_error, 7) ∷ []))
    × (t.completed 1 ≡ part_done.completed 1 ++ ((no_error, 0) ∷ (no_error, 7) ∷ []))
read_again-Twice_example =
    read_again-Twice 1 (no_error, 7) (no_error, 0) part_done part_done-IsCompleting

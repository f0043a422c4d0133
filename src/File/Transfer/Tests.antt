-- ===== src/File/Transfer/Tests.antt =====
-- Transfers on a system with one file, which reads three bytes and writes two at a time at most.
use jnet_lib.Base.{
  ℕ, zero, suc, ◌<◌, ◌≡◌, refl, sym, ap, ◌∙◌, subst, some, List, [], ◌∷◌, ◌++◌, length, take, drop,
  min, take-nil, take-append-drop, length-take, arith,
}
use jnet_lib.Posix.{Outcome, done, failed, Files}
use jnet_lib.File.Transfer.{Ended, ReadOp, WriteOp, asyn_read, asyn_write, read_all, write_all}
use jnet_lib.File.Transfer.Read.Part.{ReadLaws, Delivers}
use jnet_lib.File.Transfer.Read.{asyn_read-Delivers}
use jnet_lib.File.Transfer.Write.Part.{WriteLaws, EndsBy}
use jnet_lib.File.Transfer.Write.{asyn_write-Writes}

record Disk : Type 0 where
  unread : List ℕ
  log : List ℕ

abbrev toy : Files
toy = record {
  State = Disk;
  open_file = λ d name flags. (d, failed 2);
  close = λ d fd. (d, done tt);
  lseek = λ d fd n w. (d, done 0);
  fstat_size = λ d fd. (d, done 0);
  ftruncate = λ d fd n. (d, done tt);
  fsync = λ d fd. (d, done tt);
  read = λ d fd n. (record d { unread = drop (min n 3) d.unread }, done (take (min n 3) d.unread));
  write = λ d fd bs. (record d { log = d.log ++ take 2 bs }, done (min 2 (length bs)));
}

abbrev taken : Outcome (List ℕ) → List ℕ
taken (done bs) = bs
taken (failed e) = []

abbrev number : Outcome ℕ → ℕ
number (done n) = n
number (failed e) = 0

take-min : (k : ℕ) (bs : List ℕ) → take k bs ≡ take (min k (length bs)) bs
take-min zero bs = ap (λ k. take k bs) (let e : zero ≡ min zero (length bs) = omega arith in e)
take-min (suc k) [] = sym (take-nil (min (suc k) 0))
take-min (suc k) (b ∷ bs) =
    ap (◌∷◌ b) (take-min k bs)
    ∙ ap (λ n. take n (b ∷ bs))
        (let e : suc (min k (length bs)) ≡ min (suc k) (suc (length bs)) = omega arith in e)

eq-nil_of_take : (k : ℕ) (bs : List ℕ) → 0 < k → take k bs ≡ [] → bs ≡ []
eq-nil_of_take zero bs h e = elim h [ ]
eq-nil_of_take (suc k) [] h e = refl
eq-nil_of_take (suc k) (b ∷ bs) h e = cc

toy_reads : ReadLaws toy
toy_reads = record {
  rest = λ d fd. d.unread;
  gives = λ d d' fd n bs e. (
    let b : take (min n 3) d.unread ≡ bs = ap (λ p. taken p.1) e in
        let r : drop (min n 3) d.unread ≡ d'.unread = ap (λ p. p.0.unread) e in
        subst (λ xs. d.unread ≡ xs ++ d'.unread) b
          (subst (λ xs. d.unread ≡ take (min n 3) d.unread ++ xs) r
            (sym (take-append-drop (min n 3) d.unread))),
    omega (arith, length-take (min n 3) d.unread, ap (λ p. length (taken p.1)) e),
  );
  ends = λ d d' fd n h e. eq-nil_of_take (min n 3) d.unread (omega arith) (ap (λ p. taken p.1) e);
  fails = λ d d' fd n k e. cc;
}

toy_writes : WriteLaws toy
toy_writes = record {
  written = λ d fd. d.log;
  takes = λ d d' fd bs n e. (
    let k : min 2 (length bs) ≡ n = ap (λ p. number p.1) e in
        sym (ap (λ p. p.0.log) e) ∙ ap (λ xs. d.log ++ xs) (take-min 2 bs ∙ ap (λ i. take i bs) k),
    omega (arith, ap (λ p. number p.1) e),
    λ h. omega (arith, ap (λ p. number p.1) e),
  );
  fails = λ d d' fd bs k e. cc;
}

abbrev start : Disk
start = record { unread = 1 ∷ 2 ∷ 3 ∷ 4 ∷ []; log = [] }

abbrev room : List ℕ
room = 0 ∷ 0 ∷ 0 ∷ 0 ∷ 0 ∷ []

asyn_read-Delivers_example :
    (r : Ended toy ReadOp) × (read_all toy 6 start (asyn_read (some 4) room 5) ≡ some r)
    × Delivers toy toy_reads start (asyn_read (some 4) room 5) r
asyn_read-Delivers_example =
    asyn_read-Delivers toy toy_reads start (some 4) room 5 (omega arith) (omega arith)

asyn_write-Writes_example :
    (r : Ended toy WriteOp) × (write_all toy 6 start
        (asyn_write (some 4) (7 ∷ 8 ∷ 9 ∷ 10 ∷ 11 ∷ []) 5)
      ≡ some r)
    × (toy_writes.written r.state (some 4)
        ≡ toy_writes.written start (some 4) ++ take r.count (7 ∷ 8 ∷ 9 ∷ 10 ∷ 11 ∷ []))
    × EndsBy toy toy_writes 5 r.ec r.count r.state (some 4)
asyn_write-Writes_example =
    asyn_write-Writes toy toy_writes start (some 4) (7 ∷ 8 ∷ 9 ∷ 10 ∷ 11 ∷ []) 5 (omega arith)
      (omega arith)

-- ===== src/Ssl/Io/Count.antt =====
-- What an SSL operation makes of a failure that leaves no error in the queue.
use jnet_lib.Base.{ℕ, ◌<◌, ◌≡◌, refl, true, false, List, take, drop, arith, ltb}
use jnet_lib.Errors.{is_error}
use jnet_lib.Buffer.{ConstBuffer, consume}
use jnet_lib.Ssl.{OpenSsl, want_nothing, call, perform, Call, do_write}
use jnet_lib.Ssl.Io.{send, Io, call_op}
use jnet_lib.Ssl.Engine.{error_of}

-- A write that SSL_get_error calls SSL_ERROR_SYSCALL, with no error in the queue.
module _ (os : OpenSsl) (io : Io os) (b : ConstBuffer) (memory : List ℕ) where
  abbrev pub writes : Call
  writes = do_write (take b.len (drop b.raw memory)) b.len

  -- If SSL_get_error calls a write SSL_ERROR_SYSCALL and the error queue is empty, as at an
  -- end of file without a shutdown, and bytes_transferred_ is not 0, the operation is done
  -- without an error, and its buffer goes forward by the count of the write before, although
  -- nothing was written.
  pub call_op-stale :
      error_of os writes io.engine ≡ 5
      → (os.take_error (call os writes io.engine).0).1 ≡ 0
      → 0 < io.bytes_transferred
      → ((call_op os (send b memory) io).op ≡ send (consume b io.bytes_transferred) memory)
        × (is_error (call_op os (send b memory) io).ec ≡ false)
        × ((call_op os (send b memory) io).want ≡ want_nothing)
  unfolding perform
  call_op-stale e q l =
      let g : ltb 0 io.bytes_transferred ≡ true = ground (arith, l) in
      (rw (e, q, g) refl, rw (e, q) refl, rw e refl)

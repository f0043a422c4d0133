-- ===== src/Socket/Recv/Eof.antt =====
-- `asyn_recv` of more bytes than the socket has at once.
use jnet_lib.Base.{
  ℕ, ◌+◌, ◌-◌, ◌%◌, ◌^◌, ◌<◌, ◌≡◌, refl, ap, ◌∙◌, true, false, List, length, write_at, ◌==◌, arith,
}
use jnet_lib.Errors.{no_error, system_error, frame_error}
use jnet_lib.Errors.Code
use jnet_lib.Buffer.{append}
use jnet_lib.Posix.{done, Fd}
use jnet_lib.Posix.Sockets.{Sockets}
use jnet_lib.Socket.Calls.{recv_lem}
use jnet_lib.Socket.Recv.{
  RecvOp, Receiving, posted, waiting, finished, asyn_recv, recv_part, begin_recv, or_eof, settle,
  received_then, on_complete,
}

module _ (os : Sockets) {st st' : os.State} (fd : Fd) (memory : List ℕ) (len : ℕ) (bs : List ℕ)
    (got : os.recv st fd len ≡ (st', done bs)) (more : 0 < length bs) (less : length bs < len)
    (small : len < 2 ^ 32) where
  abbrev first_part : RecvOp
  first_part = record (asyn_recv fd memory len false) {
    memory = write_at memory 0 bs;
    received = true;
  }

  first_posted :
      begin_recv os st (asyn_recv fd memory len false)
      ≡ record { state = st'; op = first_part; phase = posted (system_error 0) (length bs) }
  unfolding begin_recv recv_part
  first_posted =
      rw
        (
          let z : ((len + 2 ^ 64 - 0) % 2 ^ 64 == 0) ≡ false = ground (arith, more, less, small) in
              z,
          let z : (len + 2 ^ 64 - 0) % 2 ^ 64 % 2 ^ 32 ≡ len = omega (arith, small) in z,
          recv_lem os len (done bs) got,
        )
        refl

  abbrev waits_op : RecvOp
  waits_op = record first_part { buffer = append first_part.buffer (length bs) }

  first_waits :
      on_complete os st' first_part (system_error 0) 0 (length bs)
      ≡ record { state = st'; op = waits_op; phase = waiting }
  unfolding on_complete received_then or_eof settle
  first_waits = ground (arith, more, less, small)

  second_ends :
      (u : os.State)
      → (on_complete os u waits_op no_error 0 0).phase ≡ finished (frame_error Code.eof) (length bs)
  unfolding on_complete received_then or_eof settle
  second_ends u = ground (arith, more, less, small)

  -- If the first recv of asyn_recv gives some bytes but fewer than len, and len is below 2^32,
  -- the operation waits, and at the next event without an error it reports end of file,
  -- whatever has come in by then.
  pub asyn_recv_early_eof :
      (first waits : Receiving os) (u : os.State)
      → first ≡ begin_recv os st (asyn_recv fd memory len false)
      → waits ≡ on_complete os first.state first.op (system_error 0) 0 (length bs)
      → (first.phase ≡ posted (system_error 0) (length bs))
        × (waits.phase ≡ waiting)
        × ((on_complete os u waits.op no_error 0 0).phase
            ≡ finished (frame_error Code.eof) (length bs))
  asyn_recv_early_eof first waits u e d = (
    ap (λ r. r.phase) posts,
    ap (λ r. r.phase) blocks,
    ap (λ r. (on_complete os u r.op no_error 0 0).phase) blocks ∙ second_ends u,
  )
    where
      posts :
          first
          ≡ record { state = st'; op = first_part; phase = posted (system_error 0) (length bs) }
      posts = e ∙ first_posted

      blocks : waits ≡ record { state = st'; op = waits_op; phase = waiting }
      blocks =
          d
          ∙ ap (λ r. on_complete os r.state r.op (system_error 0) 0 (length bs)) posts
          ∙ first_waits

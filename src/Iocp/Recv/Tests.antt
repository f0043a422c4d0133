-- ===== src/Iocp/Recv/Tests.antt =====
-- Receives on Windows, of 10 bytes and of 4 GiB.
use jnet_lib.Base.{◌^◌, ◌≡◌, refl, false, [], ◌∷◌, arith}
use jnet_lib.Errors.{no_error, frame_error}
use jnet_lib.Errors.Code
use jnet_lib.Iocp.Recv.{Receiving, asyn_recv, or_eof, settle, on_complete, Steps, here, completes}
use jnet_lib.Iocp.Recv.Received.{IsReceiving, Steps-IsReceiving}

abbrev ends_early : Receiving
ends_early = on_complete no_error 0 (on_complete no_error 4 (asyn_recv 10 false))

ends_early-called : ends_early.called ≡ (frame_error Code.eof, 4) ∷ []
unfolding or_eof settle on_complete
ends_early-called = refl

ends_early-Steps : Steps (asyn_recv 10 false) 2 4 ends_early
unfolding or_eof settle on_complete
ends_early-Steps =
    completes no_error 0 (completes no_error 4 here refl (omega arith)) refl (omega arith)

Steps-IsReceiving_example : IsReceiving 10 2 4 ends_early
Steps-IsReceiving_example = Steps-IsReceiving 10 false 2 4 ends_early (omega arith) ends_early-Steps

-- A buffer of 4 GiB has a WSABUF without bytes, which completes as at the end of the stream.
four_gib :
    (on_complete no_error 0 (asyn_recv (2 ^ 32) false)).called ≡ (frame_error Code.eof, 0) ∷ []
unfolding or_eof settle on_complete
four_gib = refl

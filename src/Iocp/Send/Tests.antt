-- ===== src/Iocp/Send/Tests.antt =====
-- Sends on Windows, of 10 bytes and of 4 GiB.
use jnet_lib.Base.{◌^◌, ◌≡◌, refl, [], ◌∷◌, arith}
use jnet_lib.Errors.{no_error}
use jnet_lib.Iocp.Send.{
  Sending, asyn_send, send_rest, call_back, on_complete, Steps, Turns, none_yet, turn,
}
use jnet_lib.Iocp.Send.Single.{IsSending, Turns-IsSending}
use jnet_lib.Iocp.Send.Race.{ReadsDeleted, send-ReadsDeleted}

abbrev two_parts : Sending
two_parts = on_complete no_error 6 (on_complete no_error 4 (asyn_send 10))

two_parts-called : two_parts.called ≡ (no_error, 10) ∷ []
unfolding send_rest call_back
two_parts-called = refl

two_parts-Turns : Turns (asyn_send 10) 10 two_parts
unfolding send_rest call_back
two_parts-Turns = turn no_error 6 (turn no_error 4 none_yet refl (omega arith)) refl (omega arith)

Turns-IsSending_example : IsSending 10 10 two_parts
Turns-IsSending_example = Turns-IsSending 10 10 two_parts (omega arith) two_parts-Turns

send-ReadsDeleted_example : (t : Sending) × Steps (asyn_send 10) t × ReadsDeleted 10 t
send-ReadsDeleted_example = send-ReadsDeleted 10 4 (omega arith) (omega arith) (omega arith)

-- A buffer of 4 GiB has a WSABUF without bytes: what completes it at once starts it again as it was.
four_gib : on_complete no_error 0 (asyn_send (2 ^ 32)) ≡ asyn_send (2 ^ 32)
unfolding send_rest call_back
four_gib = refl

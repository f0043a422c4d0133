-- ===== src/Iocp/Calls/Tests.antt =====
-- Calls that are refused.
use jnet_lib.Base.{◌≡◌, refl, some, [], ◌∷◌}
use jnet_lib.Errors.{no_error, system_error}
use jnet_lib.Iocp.Calls.{pending, completed, no_op, send, recv, transfer, extended}

reset_by_peer :
    recv (100 ∷ []) (record { result = 1; last_error = 64; bytes = 0 })
    ≡ completed (system_error 10054) 0
unfolding recv no_op
reset_by_peer = refl

nothing_to_send :
    send (0 ∷ 0 ∷ []) (record { result = 0; last_error = 0; bytes = 0 }) ≡ completed no_error 0
unfolding send no_op
nothing_to_send = refl

read_later : transfer 10 (record { result = 0; last_error = 997; bytes = 0 }) ≡ pending
unfolding transfer
read_later = refl

no_extension :
    extended (some 10022) (record { result = 1; last_error = 0; bytes = 0 })
    ≡ completed (system_error 10022) 0
unfolding extended
no_extension = refl

-- ===== src/Web/Tests.antt =====
-- A server that reads from each client, answers, and refuses one that fails.
use jnet_lib.Base.{◌+◌, ◌≡◌, ◌⊎◌, refl, true, false, Option, none, some, [], ◌∷◌, length, arith}
use jnet_lib.Errors.{no_error, frame_error, is_error}
use jnet_lib.Web.{
  Context, https, receiving, sending, begin_shutdown, recvs, sends, Server, notify, close, handler,
  on_accept, on_send, recv, perform, perform_all, send, destroy, Completion, check_and_delete,
  on_receive, completes, Steps, here, next,
}
use jnet_lib.Web.Counted.{
  IsCounted, IsQuiet, IsSound, live, handler-IsSound, History, begins, handles, History-IsSound,
}
use jnet_lib.Web.Closing.{completed, Steps_after_close, shutdown_race}
use jnet_lib.Web.Accept.{Listens, on_accept_lem}

abbrev reader : Server
reader = record {
  on_connected = some (λ c. (recvs ∷ [], false));
  on_handshaked = none;
  on_received_bytes = some (λ c. (sends ∷ [], is_error c.ec));
  on_sent_bytes = none;
  on_closed = none;
}

reader-IsQuiet : IsQuiet reader
reader-IsQuiet f c e = cc

abbrev fine : Completion
fine = record { ec = no_error; bytes_transferred = 12 }

abbrev ended : Completion
ended = record { ec = frame_error 1; bytes_transferred = 0 }

-- A client of an HTTPS server whose request is being read.
abbrev serving : Context
serving = record {
  stream_type = https;
  ref = 1;
  shutdown_flag = 0;
  close_flag = 0;
  ec = no_error;
  bytes_transferred = 0;
  pending = receiving ∷ [];
  closings = 0;
  deleted = false;
}

serving-IsSound : IsSound serving
serving-IsSound =
    live (record { count = refl; flag = omega arith; alive = refl; unclosed = refl }) (omega arith)

abbrev serving_closed : Context
serving_closed = record serving { close_flag = 1 }

serving_closed-IsSound : IsSound serving_closed
serving_closed-IsSound =
    live (record { count = refl; flag = omega arith; alive = refl; unclosed = refl }) (omega arith)

abbrev answering : Context
answering = record serving { pending = sending ∷ []; bytes_transferred = 12 }

abbrev serving_again : Context
serving_again = record serving { bytes_transferred = 12 }

abbrev drained : Context
drained = record {
  stream_type = https;
  ref = 0;
  shutdown_flag = 0;
  close_flag = 1;
  ec = frame_error 1;
  bytes_transferred = 0;
  pending = [];
  closings = 1;
  deleted = true;
}

-- The read of a closed connection ends.
drain : Steps reader serving_closed drained
unfolding handler on_receive perform_all perform send close check_and_delete destroy
drain = next here (completes receiving ended [] [] refl refl)

-- A client that has just been accepted.
abbrev accepted : Context
accepted = record serving { pending = [] }

-- A request is read, and an answer is on its way.
answered : Steps reader serving answering
unfolding handler on_receive perform_all perform send check_and_delete
answered = next here (completes receiving fine [] [] refl refl)

handler-IsSound_example :
    (c' : Context) × (handler reader receiving fine (record serving { pending = [] }) ≡ some c')
    × IsSound c'
handler-IsSound_example =
    handler-IsSound reader reader-IsQuiet serving receiving fine [] [] serving-IsSound refl
      (λ e. cc)

-- Then the answer has been sent, with other callbacks.
abbrev silent : Server
silent = record {
  on_connected = none;
  on_handshaked = none;
  on_received_bytes = none;
  on_sent_bytes = some (λ c. (recvs ∷ [], false));
  on_closed = none;
}

silent-IsQuiet : IsQuiet silent
silent-IsQuiet f c e = cc

read_and_answered : History serving serving_again
unfolding handler on_receive on_send perform_all perform send recv check_and_delete
read_and_answered =
    handles silent silent-IsQuiet
      (handles reader reader-IsQuiet begins (completes receiving fine [] [] refl refl))
      (completes sending fine [] [] refl refl)

History-IsSound_example : IsSound serving_again
History-IsSound_example = History-IsSound read_and_answered serving-IsSound

shutdown_race_example :
    let c' = begin_shutdown (begin_shutdown serving) in
    (c'.ref ≡ 2) × (length c'.pending ≡ 3) × ¬ IsCounted 0 c'
shutdown_race_example =
    shutdown_race serving
      (record { count = refl; flag = omega arith; alive = refl; unclosed = refl }) refl

Steps_after_close_example :
    (length drained.pending + completed reader drain ≡ 1)
    × (completed reader drain ≡ 1 → (drained.deleted ≡ true) × (drained.closings ≡ 1))
Steps_after_close_example =
    Steps_after_close reader reader-IsQuiet serving_closed-IsSound refl drain

on_accept_lem_example :
    ((is_error fine.ec ≡ true)
      × (on_accept reader https fine accepted ≡ some (record accepted { deleted = true }, none)))
    ⊎ ((is_error fine.ec ≡ false)
        × ((c' : Context) × (fresh : Option Context) × (on_accept reader https fine accepted
              ≡ some (c', fresh))
            × IsSound c'
            × ((notify reader.on_connected accepted).1 ≡ true → fresh ≡ none)
            × ((notify reader.on_connected accepted).1 ≡ false → Listens fresh)))
on_accept_lem_example =
    on_accept_lem reader https reader-IsQuiet fine accepted
      (record { count = refl; flag = omega arith; alive = refl; unclosed = refl })

-- ===== src/FiberWeb.antt =====
-- fiber_http_server.h and fiber_http_server.cpp: `FiberConContext`, whose calls a fiber makes one after another, and the
-- loops of the server that accept. `stream` answers the calls of `tcp_stream_` or `ssl_stream_`: with an error code, and
-- the bytes for those that transfer.
pub mod Orderly
mod Tests
use jnet_lib.Base.{ℕ, ◌≡◌, Bool, true, false, not, ◌&&◌, ◌||◌, List, [], ◌∷◌, ◌==◌, if◌then◌else◌}
use jnet_lib.Errors.{ErrorCode, no_error, is_error}
use jnet_lib.Web.{StreamType, tcp, http, ssl, https, uses_ssl, is_https}

pub data HandshakeType : Type 0 where
  client server : HandshakeType

pub data Call : Type 0 where
  connects shuts_down closes : Call
  handshakes : HandshakeType → Call
  receives sends : ℕ → Call

-- `log` are the calls of the stream, the last one first.
pub record Context (S : Type 0) : Type 0 where
  pub stream_type : StreamType
  pub shutdown_flag : ℕ
  pub close_flag : ℕ
  pub stream : S
  pub log : List Call

pub make : {S : Type 0} → StreamType → S → Context S
make t s = record { stream_type = t; shutdown_flag = 0; close_flag = 0; stream = s; log = [] }

pub check_closed : {S : Type 0} → Context S → Bool
check_closed c =
    if c.close_flag == 1 then true else uses_ssl c.stream_type && (c.shutdown_flag == 1)

abbrev pub handshake_type : StreamType → HandshakeType
handshake_type t = if is_https t then server else client

-- What a fiber calls; a length for the two transfers.
pub data Request : Type 0 where
  connect handshake shutdown close : Request
  recv send : ℕ → Request

module _ {S : Type 0} (stream : S → Call → S × ErrorCode × ℕ) where
  abbrev pub answered : Call → Context S → S × ErrorCode × ℕ → Context S × ErrorCode × ℕ
  answered k c (s, ec, n) = (record c { stream = s; log = k ∷ c.log }, ec, n)

  abbrev pub call : Call → Context S → Context S × ErrorCode × ℕ
  call k c = answered k c (stream c.stream k)

  -- `bytes_transferred` of a call that transfers none, and of one that is not made, stays `n`.
  abbrev pub keeps : ℕ → Context S × ErrorCode × ℕ → Context S × ErrorCode × ℕ
  keeps n (c, ec, m) = (c, ec, n)

  -- The operations of a context, with what the caller's `bytes_transferred` holds before and after.
  pub perform : Request → ℕ → Context S → Context S × ErrorCode × ℕ
  perform connect n c = if not (check_closed c) then keeps n (call connects c) else (c, no_error, n)
  perform handshake n c =
      if not (check_closed c) && uses_ssl c.stream_type
      then keeps n (call (handshakes (handshake_type c.stream_type)) c)
      else (c, no_error, n)
  perform shutdown n c =
      if not (check_closed c) && uses_ssl c.stream_type
      then if c.shutdown_flag == 0
        then keeps n (call shuts_down (record c { shutdown_flag = 1 }))
        else (c, no_error, n)
      else (c, no_error, n)
  perform (recv len) n c = if check_closed c then (c, no_error, n) else call (receives len) c
  perform (send len) n c = if check_closed c then (c, no_error, n) else call (sends len) c
  perform close n c = keeps n (call closes (record c { close_flag = 1 }))

  -- The calls of a routine, each with the `bytes_transferred` that it is given.
  pub performs : List (Request × ℕ) → Context S → Context S
  performs [] c = c
  performs (r ∷ rs) c = performs rs (perform r.0 r.1 c).0

-- `http_acceptor_proc` and `https_acceptor_proc`: the contexts whose routines are started, each with its `accept_ec_`, where
-- `accept` gives these error codes in turn.
pub acceptor_proc : StreamType → List ErrorCode → List (StreamType × ErrorCode)
acceptor_proc t [] = []
acceptor_proc t (ec ∷ ecs) =
    let rest = acceptor_proc t ecs in if is_error ec then (t, ec) ∷ [] else (t, ec) ∷ rest

-- ===== src/Web.antt =====
-- http_server.h and http_server.cpp: a connection lives as long as operations on it are under way, which
-- `ref_` counts. The stream's operations are known by what they do to the connection: `pending` lists
-- those that were started and have not called back. `ref_` is a number without a bound, since each
-- count stands for an object in memory; the assertion `ret >= 0` of `CheckAndDelete` that fails is `none`.
-- The user's callbacks are functions from the connection to the calls that they make on it, in order,
-- and whether they return a value other than 0.
pub mod Counted
pub mod Closing
pub mod Accept
mod Tests
use jnet_lib.Base.{
  ℕ, zero, suc, ◌+◌, ◌-◌, Bool, true, false, not, ◌&&◌, ◌||◌, Option, none, some, List, [], ◌∷◌,
  ◌++◌, ◌==◌, ◌≡◌, if◌then◌else◌,
}
use jnet_lib.Errors.{ErrorCode, no_error, is_error}

pub data StreamType : Type 0 where
  tcp http ssl https : StreamType

-- `type_ & ssl`
abbrev pub uses_ssl : StreamType → Bool
uses_ssl tcp = false
uses_ssl http = false
uses_ssl ssl = true
uses_ssl https = true

abbrev pub is_https : StreamType → Bool
is_https https = true
is_https _ = false

abbrev pub is_ssl : StreamType → Bool
is_ssl ssl = true
is_ssl _ = false

-- The operations of a stream.
pub data Pending : Type 0 where
  accepting connecting handshaking shutting_down receiving sending : Pending

-- `ConnectionContext`. `closings` counts how often the code comes to
-- `cbOnClosed`; `deleted` is set by `delete`.
pub record Context : Type 0 where
  pub stream_type : StreamType
  pub ref : ℕ
  pub shutdown_flag : ℕ
  pub close_flag : ℕ
  pub ec : ErrorCode
  pub bytes_transferred : ℕ
  pub pending : List Pending
  pub closings : ℕ
  pub deleted : Bool

pub make : StreamType → Context
make t = record {
  stream_type = t;
  ref = 0;
  shutdown_flag = 0;
  close_flag = 0;
  ec = no_error;
  bytes_transferred = 0;
  pending = [];
  closings = 0;
  deleted = false;
}

abbrev pub check_closed : Context → Bool
check_closed c = (c.close_flag == 1) || (uses_ssl c.stream_type && (c.shutdown_flag == 1))

-- `sync_inc(&ref_)`, and the call that starts the operation.
abbrev pub start : Pending → Context → Context
start k c = record c { ref = c.ref + 1; pending = c.pending ++ (k ∷ []) }

pub connect : Context → Context
connect c = if check_closed c then c else start connecting c

pub handshake : Context → Context
handshake c = if not (check_closed c) && uses_ssl c.stream_type then start handshaking c else c

-- The two statements under the test of `Shutdown`: only the increment depends on the exchange.
pub begin_shutdown : Context → Context
begin_shutdown c =
    let c' = if c.shutdown_flag == 0 then record c { shutdown_flag = 1; ref = c.ref + 1 } else c in
    record c' { pending = c'.pending ++ (shutting_down ∷ []) }

pub shutdown : Context → Context
shutdown c = if not (check_closed c) && uses_ssl c.stream_type then begin_shutdown c else c

pub recv : Context → Context
recv c = if check_closed c then c else start receiving c

pub send : Context → Context
send c = if check_closed c then c else start sending c

pub close : Context → Context
close c = record c { close_flag = 1 }

-- The methods that a callback may call.
pub data Call : Type 0 where
  connects handshakes shuts_down recvs sends closes : Call

pub perform : Call → Context → Context
perform connects c = connect c
perform handshakes c = handshake c
perform shuts_down c = shutdown c
perform recvs c = recv c
perform sends c = send c
perform closes c = close c

pub perform_all : List Call → Context → Context
perform_all [] c = c
perform_all (k ∷ ks) c = perform_all ks (perform k c)

abbrev pub Callback : Type 0
Callback = Context → List Call × Bool

-- `IOCPWebServer`, of which a connection sees the callbacks; `none` is a null pointer.
pub record Server : Type 0 where
  pub on_connected : Option Callback
  pub on_handshaked : Option Callback
  pub on_received_bytes : Option Callback
  pub on_sent_bytes : Option Callback
  pub on_closed : Option Callback

-- `if (callback) ret = callback(ctx)`
abbrev pub notify : Option Callback → Context → Context × Bool
notify none c = (c, false)
notify (some f) c = let (calls, ret) = f c in (perform_all calls c, ret)

pub destroy : Server → Context → Context
destroy s c =
    let c' = (notify s.on_closed (record c { closings = c.closings + 1 })).0 in
    record c' { deleted = true }

pub check_and_delete : Server → Context → Option Context
check_and_delete s c =
    let c' = record c { ref = c.ref - 1 } in
    if c.ref == 0
    then none
    else if not (c'.ref == 0)
    then some c'
    else if is_https c'.stream_type && (not (c'.close_flag == 1) && not (c'.shutdown_flag == 1))
    then some (shutdown c')
    else some (destroy s c')

-- `if (ret) ctx->Close()`
abbrev pub close_if : Context × Bool → Context
close_if (c, ret) = if ret then close c else c

-- What an operation hands to its callback.
pub record Completion : Type 0 where
  pub ec : ErrorCode
  pub bytes_transferred : ℕ

pub on_connect : Server → Completion → Context → Option Context
on_connect s d c =
    let (c', ret) = notify s.on_connected (record c { ec = d.ec }) in
    check_and_delete s
      (if ret then close c' else if is_ssl c'.stream_type then handshake c' else c')

pub on_handshake : Server → Completion → Context → Option Context
on_handshake s d c = check_and_delete s (close_if (notify s.on_handshaked (record c { ec = d.ec })))

pub on_shutdown : Server → Completion → Context → Option Context
on_shutdown s d c = check_and_delete s c

pub on_send : Server → Completion → Context → Option Context
on_send s d c = check_and_delete s (
    close_if
      (notify s.on_sent_bytes (record c { ec = d.ec; bytes_transferred = d.bytes_transferred })))

pub on_receive : Server → Completion → Context → Option Context
on_receive s d c = check_and_delete s (
    close_if (
      notify s.on_received_bytes (record c { ec = d.ec; bytes_transferred = d.bytes_transferred })))

abbrev pub beside : Option Context → Option Context → Option (Context × Option Context)
beside fresh none = none
beside fresh (some c) = some (c, fresh)

-- `on_http_accept` and `on_https_accept`: the connection, and the one that waits for the next client.
pub on_accept : Server → StreamType → Completion → Context → Option (Context × Option Context)
on_accept s t d c =
    let (c', ret) = notify s.on_connected c in
    let c'' = if ret then close c' else if is_https t then handshake c' else c' in
    let fresh =
      if ret then none else some (record (make t) { ref = 1; pending = accepting ∷ [] }) in
    if is_error d.ec
    then some (record c { deleted = true }, none)
    else beside fresh (check_and_delete s c'')

-- The callback of an operation on an open connection.
pub handler : Server → Pending → Completion → Context → Option Context
handler s accepting d c = none
handler s connecting d c = on_connect s d c
handler s handshaking d c = on_handshake s d c
handler s shutting_down d c = on_shutdown s d c
handler s receiving d c = on_receive s d c
handler s sending d c = on_send s d c

-- One of the operations under way completes, whichever it is; `accept` has its own handler. The whole
-- handler is one step, as where one thread runs the service: the handlers of a connection run one after
-- another.
pub data Step (s : Server) (c c' : Context) : Type 0 where
  completes :
      (k : Pending) (d : Completion) (before behind : List Pending)
      → c.pending ≡ before ++ (k ∷ behind)
      → handler s k d (record c { pending = before ++ behind }) ≡ some c'
      → Step s c c'

pub data Steps (s : Server) : Context → Context → Type 0 where
  here : {c : Context} → Steps s c c
  next : {c c' c'' : Context} → Steps s c c' → Step s c' c'' → Steps s c c''

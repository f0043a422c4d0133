-- ===== src/Iocp/Calls.antt =====
-- The initiating functions of iocp_service.cpp, from the call of Windows on: whether the operation is pending with the kernel or
-- `on_completion` is called, and with what. An `Answer` is what the call returned, with its last error and count of bytes.
mod Tests
use jnet_lib.Base.{
  ℕ, ◌≡◌, refl, Bool, true, false, not, ◌&&◌, Option, none, some, List, [], ◌∷◌, update_self, ◌==◌,
  if◌then◌else◌,
}
use jnet_lib.Errors.{ErrorCode, no_error, system_error}
use jnet_lib.Iocp.{
  Service, Result, begin_overlapped, begin_completed, end_overlapped, work_started, begins, fails,
  returns, Steps, here, next,
}

pub record Answer : Type 0 where
  pub result : ℕ
  pub last_error : ℕ
  pub bytes : ℕ

pub data Handed : Type 0 where
  pending : Handed
  completed : ErrorCode → ℕ → Handed

-- WSA_IO_PENDING, which is ERROR_IO_PENDING.
abbrev pub io_pending : ℕ
io_pending = 997

-- ERROR_PORT_UNREACHABLE is WSAECONNREFUSED for the program, ERROR_NETNAME_DELETED is WSAECONNRESET.
abbrev pub send_error : ℕ → ℕ
send_error e = if e == 1234 then 10061 else e

abbrev pub recv_error : ℕ → ℕ
recv_error e = if e == 64 then 10054 else if e == 1234 then 10061 else e

-- No buffer has a byte.
pub no_op : List ℕ → Bool
no_op [] = true
no_op (len ∷ lens) = let rest = no_op lens in if len == 0 then rest else false

abbrev pub handed : Bool → (error bytes : ℕ) → Handed
handed has_failed e n =
    if has_failed && not (e == io_pending) then completed (system_error e) n else pending

pub send : List ℕ → Answer → Handed
send lens a =
    if no_op lens
    then completed no_error 0
    else handed (not (a.result == 0)) (send_error a.last_error) a.bytes

pub recv : List ℕ → Answer → Handed
recv lens a =
    if no_op lens
    then completed no_error 0
    else handed (not (a.result == 0)) (recv_error a.last_error) a.bytes

-- `read` and `write`, of files.
pub transfer : ℕ → Answer → Handed
transfer bytes a =
    if bytes == 0 then completed no_error 0 else handed (a.result == 0) a.last_error a.bytes

-- `accept` and `connect`: `extension` is the error of WSAIoctl, if the function is not known and cannot be found.
pub extended : (extension : Option ℕ) → Answer → Handed
extended none a = handed (a.result == 0) a.last_error 0
extended (some e) a = completed (system_error e) 0

-- What becomes of the operation at `k`, from the count of its work on: `r` is what the kernel will make of it.
pub initiate : Handed → Bool → ℕ → Result → Service → Service
initiate pending ok k r s = end_overlapped ok k (begin_overlapped k r s)
initiate (completed ec n) ok k r s = begin_completed ok k (ec, n) s

-- An initiating function is a history of the service.
pub initiate-Steps :
    (h : Handed) (ok : Bool) (k : ℕ) (r : Result) (s : Service)
    → s.begun k ≡ s.completed k
    → Steps s (initiate h ok k r s)
unfolding initiate begin_overlapped work_started
initiate-Steps pending ok k r s e =
    next (next here (begins k r e)) (returns ok k (update_self s.starting k true))
initiate-Steps (completed ec n) ok k r s e = next here (fails ok k (ec, n) e)

-- ===== src/Iocp/Recv.antt =====
-- `recv_op` of iocp_socket.cpp. `on_complete` does not touch the operation after it has restarted it, so that a completion is
-- one step, whichever thread runs it.
pub mod Received
mod Tests
use jnet_lib.Base.{
  ℕ, ◌+◌, ◌%◌, ◌^◌, ◌≤◌, ◌≡◌, Bool, true, false, not, ◌&&◌, ◌||◌, List, [], ◌∷◌, ◌++◌, ltb, ◌==◌,
  if◌then◌else◌,
}
use jnet_lib.Errors.{ErrorCode, frame_error, is_error}
use jnet_lib.Errors.Code
use jnet_lib.Buffer.{MutableBuffer, append, remain}
use jnet_lib.Iocp.Send.{wsa_len, shrink_to, moved}

abbrev pub max_recv_buffer_size : ℕ
max_recv_buffer_size = 65536

-- What is asked for, when `n` bytes remain.
abbrev pub recv_len : ℕ → ℕ
recv_len n = shrink_to (wsa_len n) (if ltb max_recv_buffer_size n then max_recv_buffer_size else n)

-- As in Iocp.Send; `some` is `some_`.
pub record Receiving : Type 0 where
  pub buffer : MutableBuffer
  pub wsa : ℕ
  pub some : Bool
  pub under_way : Bool
  pub called : List (ErrorCode × ℕ)

-- `asyn_recv` and, with `some`, `asyn_recv_some`.
abbrev pub asyn_recv : ℕ → Bool → Receiving
asyn_recv len some = record {
  buffer = record { raw_pos = 0; size = len; len = 0 };
  wsa = recv_len len;
  some = some;
  under_way = true;
  called = [];
}

-- The error code after the first test of `on_complete`.
pub or_eof : ErrorCode → ℕ → Receiving → ErrorCode
or_eof ec n t =
    if not (is_error ec) && ((n == 0) && ltb 0 (remain t.buffer)) then frame_error Code.eof else ec

abbrev pub call_back : ErrorCode → Receiving → Receiving
call_back ec t =
    if is_error ec || (t.some || (remain t.buffer == 0))
    then record t { called = t.called ++ ((ec, t.buffer.len) ∷ []) }
    else t

-- `on_complete` after its first test.
pub settle : ErrorCode → ℕ → Receiving → Receiving
settle ec n t =
    let b = append t.buffer n in
    let t' = record t { under_way = false } in
    if is_error ec
    then call_back ec t'
    else if not t.some && ltb 0 (remain b)
    then record t { buffer = b; wsa = recv_len (remain b) }
    else call_back ec (record t' { buffer = b })

pub on_complete : ErrorCode → ℕ → Receiving → Receiving
on_complete ec n t = settle (or_eof ec n t) n t

-- The completions of an operation, with their number and that of the bytes that Winsock has given.
pub data Steps (t : Receiving) : ℕ → ℕ → Receiving → Type 0 where
  here : Steps t 0 0 t
  completes :
      {i b : ℕ} {u : Receiving} (ec : ErrorCode) (n : ℕ)
      → Steps t i b u
      → u.under_way ≡ true
      → n ≤ u.wsa
      → Steps t (i + 1) (b + moved ec n) (on_complete ec n u)

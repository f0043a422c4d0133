-- ===== src/Iocp/Send.antt =====
-- `send_op` of iocp_socket.cpp, and `wsabuf_wrapper` of iocp_buffer.h. `on_complete` sends what remains before it tests
-- the operation a second time, so that another thread can complete that part in between: the two halves are steps of
-- their own. An operation that is started completes once (Iocp.Delivery).
pub mod Single
pub mod Race
mod Tests
use jnet_lib.Base.{
  ℕ, ◌+◌, ◌%◌, ◌^◌, ◌≤◌, ◌≡◌, Bool, true, false, not, ◌||◌, List, [], ◌∷◌, ◌++◌, ltb, ◌==◌,
  if◌then◌else◌,
}
use jnet_lib.Errors.{ErrorCode, is_error}
use jnet_lib.Buffer.{ConstBuffer, consume}

-- The `len` of a WSABUF, an `unsigned long`, and `shrink_to`.
abbrev pub wsa_len : ℕ → ℕ
wsa_len length = length % 2 ^ 32

abbrev pub shrink_to : ℕ → ℕ → ℕ
shrink_to len s_size = if ltb s_size len then s_size % 2 ^ 32 else len

abbrev pub max_send_buffer_size : ℕ
max_send_buffer_size = 65536

-- `wsa` is `wsa_buffer_.len`, and `under_way` says that the operation is started and not complete. `tails` are the
-- threads between the two halves of `on_complete`, with the error code of each. `called` are the calls of the callback,
-- after each of which the operation is deleted.
pub record Sending : Type 0 where
  pub buffer : ConstBuffer
  pub wsa : ℕ
  pub under_way : Bool
  pub tails : List ErrorCode
  pub called : List (ErrorCode × ℕ)

abbrev pub asyn_send : ℕ → Sending
asyn_send len = record {
  buffer = record { raw = 0; len = len };
  wsa = shrink_to (wsa_len len) max_send_buffer_size;
  under_way = true;
  tails = [];
  called = [];
}

-- The first `if` of `on_complete`.
pub send_rest : ErrorCode → ℕ → Sending → Sending
send_rest ec n t =
    let b = consume t.buffer n in
    let t' = record t { under_way = false; tails = t.tails ++ (ec ∷ []) } in
    if is_error ec then t' else if b.len == 0 then record t' { buffer = b } else record t' {
      buffer = b;
      wsa = shrink_to (wsa_len b.len) max_send_buffer_size;
      under_way = true;
    }

-- The second one, of a thread that completed without or with the error code; `rest` are the other threads.
pub call_back : ErrorCode → (rest : List ErrorCode) → Sending → Sending
call_back ec rest t =
    if is_error ec || (t.buffer.len == 0)
    then record t { tails = rest; called = t.called ++ ((ec, t.buffer.raw) ∷ []) }
    else record t { tails = rest }

-- `on_complete` without another thread in between.
abbrev pub on_complete : ErrorCode → ℕ → Sending → Sending
on_complete ec n t = call_back ec t.tails (send_rest ec n t)

-- Winsock sends as many bytes as it was given at most.
pub data Step (t : Sending) : Sending → Type 0 where
  completes : (ec : ErrorCode) (n : ℕ) → t.under_way ≡ true → n ≤ t.wsa → Step t (send_rest ec n t)
  goes_on :
      (ec : ErrorCode) (before after : List ErrorCode)
      → t.tails ≡ before ++ (ec ∷ after)
      → Step t (call_back ec (before ++ after) t)

pub data Steps (t : Sending) : Sending → Type 0 where
  here : Steps t t
  next : {u v : Sending} → Steps t u → Step u v → Steps t v

-- What a completion has moved: Winsock moves nothing for an operation that fails.
abbrev pub moved : ErrorCode → ℕ → ℕ
moved ec n = if is_error ec then 0 else n

-- The same where one thread runs the service, with the number of bytes that Winsock has sent.
pub data Turns (t : Sending) : ℕ → Sending → Type 0 where
  none_yet : Turns t 0 t
  turn :
      {i : ℕ} {u : Sending} (ec : ErrorCode) (n : ℕ)
      → Turns t i u
      → u.under_way ≡ true
      → n ≤ u.wsa
      → Turns t (i + moved ec n) (on_complete ec n u)

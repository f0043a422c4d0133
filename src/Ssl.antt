-- ===== src/Ssl.antt =====
-- `engine` of ssl_socket.cpp: one call of OpenSSL, and what the transport has to do for it.
pub mod Io
pub mod Engine
use jnet_lib.Base.{
  ℕ, ◌%◌, ◌^◌, ◌+◌, ◌-◌, ◌≡◌, Bool, true, false, not, ◌&&◌, ◌||◌, Option, none, some, List, [], min,
  ltb, ◌==◌, if◌then◌else◌,
}
use jnet_lib.Base.Int.{ℤ, pos, negsuc}
use jnet_lib.Errors.{ErrorCode, frame_error, ssl}
use jnet_lib.Errors.Code

-- What the code uses of OpenSSL: SSL_accept and the other calls, SSL_get_error, ERR_get_error, BIO_read, BIO_write, BIO_ctrl_pending
-- and BIO_ctrl_wpending on the external end, the tests of SSL_get_shutdown and of the version.
pub record OpenSsl : Type 1 where
  pub State : Type 0
  pub accept : State → State × ℤ
  pub connect : State → State × ℤ
  pub shutdown : State → State × ℤ
  pub read : State → ℕ → State × ℤ × List ℕ
  pub write : State → List ℕ → ℕ → State × ℤ
  pub get_error : State → ℤ → ℕ
  pub take_error : State → State × ℕ
  pub bio_read : State → ℕ → State × ℤ × List ℕ
  pub bio_write : State → List ℕ → State × ℤ
  pub pending : State → ℕ
  pub wpending : State → ℕ
  pub received_shutdown : State → Bool
  pub is_version_2 : State → Bool
  pub short_read : ℕ

-- SSL_ERROR_SSL and the others.
abbrev pub ssl_error_ssl : ℕ
ssl_error_ssl = 1

abbrev pub ssl_error_want_read : ℕ
ssl_error_want_read = 2

abbrev pub ssl_error_want_write : ℕ
ssl_error_want_write = 3

abbrev pub ssl_error_syscall : ℕ
ssl_error_syscall = 5

abbrev pub int_max : ℕ
int_max = 0x7fffffff

pub data Want : Type 0 where
  want_input_and_retry want_output_and_retry want_nothing want_output : Want

-- The functions that `perform` is called with; a write has the bytes.
pub data Call : Type 0 where
  do_accept do_connect do_shutdown : Call
  do_read : ℕ → Call
  do_write : List ℕ → ℕ → Call

abbrev pub is_shutdown : Call → Bool
is_shutdown do_accept = false
is_shutdown do_connect = false
is_shutdown do_shutdown = true
is_shutdown (do_read n) = false
is_shutdown (do_write bs n) = false

abbrev pub is_read : Call → Bool
is_read do_accept = false
is_read do_connect = false
is_read do_shutdown = false
is_read (do_read n) = true
is_read (do_write bs n) = false

-- An `int` that is positive, or 0; and an `int` as a size_t.
abbrev pub positive : ℤ → ℕ
positive (pos n) = n
positive (negsuc n) = 0

abbrev pub to_size : ℤ → ℕ
to_size (pos n) = n
to_size (negsuc n) = 2 ^ 64 - (n + 1)

abbrev is_zero : ℤ → Bool
is_zero (pos n) = n == 0
is_zero (negsuc n) = false

abbrev pub ssl_code : ℕ → ErrorCode
ssl_code n = record { value = n; describer = ssl }

-- By the result of SSL_get_error and the number of ERR_get_error.
abbrev pub is_failure : Call → ℕ → ℕ → Bool
is_failure c e sys =
    (e == ssl_error_ssl) || ((e == ssl_error_syscall) && not (is_shutdown c && (sys == 0)))

abbrev pub settled : ℕ → ℕ
settled e = if e == ssl_error_syscall then 0 else e

-- What the other side returns does not matter.
abbrev pub no_input : Want → Want
no_input want_input_and_retry = want_nothing
no_input want_output_and_retry = want_output_and_retry
no_input want_nothing = want_nothing
no_input want_output = want_output

-- The branches of `perform`, by the result of SSL_get_error.
pub outcome : Call → ℕ → ℤ → (before after : ℕ) → Bool → Want × ErrorCode
outcome c e result before after received =
    if e == ssl_error_want_write
    then (want_output_and_retry, ssl_code 0)
    else if ltb before after && not (is_read c)
    then (if ltb 0 (positive result) then want_output else want_output_and_retry, ssl_code 0)
    else if e == ssl_error_want_read
    then (want_input_and_retry, ssl_code 0)
    else if received
    then (want_nothing, frame_error Code.eof)
    else (want_nothing, ssl_code e)

module _ (os : OpenSsl) where
  open os use {State}

  -- The third component is what a read stored.
  pub call : Call → State → State × ℤ × List ℕ
  call do_accept s = let (s', r) = os.accept s in (s', r, [])
  call do_connect s = let (s', r) = os.connect s in (s', r, [])
  call do_shutdown s =
      let (s', r) = os.shutdown s in
      let (s'', r') = os.shutdown s' in if is_zero r then (s'', r', []) else (s', r, [])
  call (do_read n) s = os.read s (min n int_max)
  call (do_write bs n) s = let (s', r) = os.write s bs (min n int_max) in (s', r, [])

  -- `bytes` is `*bytes_transferred`.
  pub record Performed : Type 0 where
    pub state : State
    pub want : Want
    pub ec : ErrorCode
    pub bytes : ℕ
    pub stored : List ℕ

  pub perform : Call → State → ℕ → Performed
  perform c s bytes =
      let (s₁, result, bs) = call c s in
      let e = os.get_error s₁ result in
      let (s₂, sys_) = os.take_error s₁ in
      let sys = sys_ % 2 ^ 32 in
      let (want, ec) =
        outcome c (settled e) result (os.pending s) (os.pending s₂) (os.received_shutdown s₂) in
      if is_failure c e sys
      then record { state = s₂; want = want_nothing; ec = ssl_code sys; bytes = bytes; stored = bs }
      else record { state = s₂; want = want; ec = ec; bytes = positive result; stored = bs }

  abbrev pub engine_shutdown : State → ℕ → Performed
  engine_shutdown s bytes =
      let r = perform do_shutdown s bytes in record r { want = no_input r.want }

  pub get_output : State → ℕ → State × ℕ × List ℕ
  get_output s len =
      let (s', n, bs) = os.bio_read s len in
      if ltb 0 (os.pending s) then (s', to_size n, bs) else (s, 0, [])

  pub put_input : State → List ℕ → State × ℕ
  put_input s bs = let (s', n) = os.bio_write s bs in (s', to_size n)

  pub map_error_code : State → ErrorCode → ErrorCode
  map_error_code s ec =
      if not (ec.value == Code.eof)
      then ec
      else if ltb 0 (os.wpending s)
      then ssl_code os.short_read
      else if os.is_version_2 s
      then ec
      else ssl_code os.short_read

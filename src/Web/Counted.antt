-- ===== src/Web/Counted.antt =====
-- The count of a connection is right, so that it is deleted once, and with nothing under way.
use jnet_lib.Base.{
  ℕ, ◌+◌, ◌-◌, ◌≤◌, ◌<◌, ◌≡◌, ◌≢◌, refl, sym, ap, ◌∙◌, subst, inl, inr, Bool, true, false, not,
  ◌&&◌, Option, none, some, List, [], ◌∷◌, ◌++◌, ◌==◌, if◌then◌else◌, length, length-append, arith,
  Bool-cases, Option-cases,
}
use jnet_lib.Errors.{ErrorCode}
use jnet_lib.Web.{
  Context, Pending, is_https, is_ssl, shutting_down, start, connect, handshake, begin_shutdown,
  shutdown, recv, send, close, Call, connects, handshakes, shuts_down, recvs, sends, closes,
  perform, perform_all, Callback, Server, notify, close_if, accepting, connecting, handshaking,
  receiving, sending, destroy, check_and_delete, on_connect, on_handshake, on_shutdown, on_send,
  on_receive, handler, Completion, Step, completes, Steps, here, next,
}

-- `n` handlers are running.
pub record IsCounted (n : ℕ) (c : Context) : Type 0 where
  pub count : c.ref ≡ length c.pending + n
  pub flag : c.shutdown_flag ≤ 1
  pub alive : c.deleted ≡ false
  pub unclosed : c.closings ≡ 0

module _ {n : ℕ} {c : Context} (v : IsCounted n c) where
  start-IsCounted : (k : Pending) → IsCounted n (start k c)
  start-IsCounted k = record {
    count = omega (arith, v.count, length-append c.pending (k ∷ []));
    flag = v.flag;
    alive = v.alive;
    unclosed = v.unclosed;
  }

  shutdown-IsCounted : IsCounted n (shutdown c)
  unfolding shutdown begin_shutdown
  shutdown-IsCounted =
      ground
        (arith, v.count, v.flag, v.alive, v.unclosed, length-append c.pending (shutting_down ∷ []))

  -- Every method keeps the count.
  pub perform-IsCounted : (k : Call) → IsCounted n (perform k c)
  unfolding perform connect handshake recv send close
  perform-IsCounted connects = ground (arith, v, start-IsCounted connecting)
  perform-IsCounted handshakes = ground (arith, v, start-IsCounted handshaking)
  perform-IsCounted shuts_down = shutdown-IsCounted
  perform-IsCounted recvs = ground (arith, v, start-IsCounted receiving)
  perform-IsCounted sends = ground (arith, v, start-IsCounted sending)
  perform-IsCounted closes = ground (arith, v)

pub perform_all-IsCounted :
    {n : ℕ} (ks : List Call) {c : Context} → IsCounted n c → IsCounted n (perform_all ks c)
unfolding perform_all
perform_all-IsCounted [] v = v
perform_all-IsCounted (k ∷ ks) v = perform_all-IsCounted ks (perform-IsCounted v k)

pub notify-IsCounted :
    {n : ℕ} (f : Option Callback) {c : Context} → IsCounted n c → IsCounted n (notify f c).0
notify-IsCounted none v = v
notify-IsCounted (some f) {c} v = perform_all-IsCounted (f c).0 v

pub close-IsCounted : {n : ℕ} {c : Context} → IsCounted n c → IsCounted n (close c)
unfolding close perform
close-IsCounted v = perform-IsCounted v closes

pub handshake-IsCounted : {n : ℕ} {c : Context} → IsCounted n c → IsCounted n (handshake c)
unfolding handshake perform
handshake-IsCounted v = perform-IsCounted v handshakes

-- A callback that only closes.
abbrev pub OnlyCloses : List Call → Type 0
OnlyCloses [] = Unit
OnlyCloses (closes ∷ ks) = OnlyCloses ks
OnlyCloses (connects ∷ ks) = ⊥
OnlyCloses (handshakes ∷ ks) = ⊥
OnlyCloses (shuts_down ∷ ks) = ⊥
OnlyCloses (recvs ∷ ks) = ⊥
OnlyCloses (sends ∷ ks) = ⊥

-- `cbOnClosed` starts nothing on the connection that is about to be deleted.
abbrev pub IsQuiet : Server → Type 0
IsQuiet s = (f : Callback) (c : Context) → s.on_closed ≡ some f → OnlyCloses (f c).0

perform_all-closes :
    (ks : List Call) (c : Context)
    → OnlyCloses ks
    → ((perform_all ks c).pending ≡ c.pending)
      × ((perform_all ks c).closings ≡ c.closings)
      × ((perform_all ks c).stream_type ≡ c.stream_type)
unfolding perform_all perform close
perform_all-closes [] c h = (refl, refl, refl)
perform_all-closes (closes ∷ ks) c h = perform_all-closes ks (close c) h
perform_all-closes (connects ∷ ks) c h = elim h [ ]
perform_all-closes (handshakes ∷ ks) c h = elim h [ ]
perform_all-closes (shuts_down ∷ ks) c h = elim h [ ]
perform_all-closes (recvs ∷ ks) c h = elim h [ ]
perform_all-closes (sends ∷ ks) c h = elim h [ ]

-- Between two completions: either the connection is open, and its count is that of the operations under
-- way, of which there is one at least; or it is deleted, `cbOnClosed` has had its turn once, and
-- nothing is under way.
pub data IsSound (c : Context) : Type 0 where
  live : IsCounted 0 c → 0 < length c.pending → IsSound c
  gone : c.deleted ≡ true → c.pending ≡ [] → c.closings ≡ 1 → IsSound c

eq-nil_of_length : {A : Type 0} (xs : List A) → length xs ≡ 0 → xs ≡ []
eq-nil_of_length [] e = refl
eq-nil_of_length (x ∷ xs) e = absurd (omega (arith, e))

-- The test of `CheckAndDelete` for a connection that is shut down first.
abbrev wants_shutdown : Context → Bool
wants_shutdown c = is_https c.stream_type && (not (c.close_flag == 1) && not (c.shutdown_flag == 1))

-- `Shutdown` then finds the connection open, and starts the operation.
shutdown_starts : (c : Context) → wants_shutdown c ≡ true → 0 < length (shutdown c).pending
unfolding shutdown begin_shutdown
shutdown_starts c h = ground (arith, length-append c.pending (shutting_down ∷ []))

module _ (s : Server) (quiet : IsQuiet s) where
  destroy_lem :
      (c : Context)
      → ((destroy s c).deleted ≡ true)
        × ((destroy s c).pending ≡ c.pending)
        × ((destroy s c).closings ≡ c.closings + 1)
  unfolding destroy
  destroy_lem c = elim (Option-cases s.on_closed) [
    | inl e ↦ rw e (refl, refl, refl)
    | inr (f, e) ↦
        let c' = record c { closings = c.closings + 1 } in
        let p = perform_all-closes (f c').0 c' (quiet f c' e) in rw e (refl, p.0, p.1)
  ]

  abbrev pub Settles : Option Context → Type 0
  Settles r = (c' : Context) × (r ≡ some c') × IsSound c'

  pub check_and_delete-Settles : {c : Context} → IsCounted 1 c → Settles (check_and_delete s c)
  unfolding check_and_delete
  check_and_delete-Settles {c} v =
      let c' = record c { ref = c.ref - 1 } in
      let w : IsCounted 0 c' = record {
        count = omega (arith, v.count);
        flag = v.flag;
        alive = v.alive;
        unclosed = v.unclosed;
      } in
      let held : (c.ref == 0) ≡ false = ground (arith, v.count) in
      rw held (elim (Bool-cases (c'.ref == 0)) [
        | inr busy ↦ (c', rw busy, live w (ground (arith, w.count)))
        | inl idle ↦ elim (Bool-cases (wants_shutdown c')) [
          | inl first ↦ (
            shutdown c',
            rw (idle, first),
            live (shutdown-IsCounted w) (shutdown_starts c' first),
          )
          | inr over ↦
              let d = destroy_lem c' in
              (
                destroy s c',
                rw (idle, over),
                gone d.0 (d.1 ∙ eq-nil_of_length c.pending (ground (arith, w.count)))
                    (d.2 ∙ ap (λ k. k + 1) v.unclosed),
              )
        ]
      ])

  on_connect-Settles : (d : Completion) {c : Context} → IsCounted 1 c → Settles (on_connect s d c)
  unfolding on_connect
  on_connect-Settles d {c} v =
      let told : IsCounted 1 (record c { ec = d.ec }) = record {
        count = v.count;
        flag = v.flag;
        alive = v.alive;
        unclosed = v.unclosed;
      } in
      check_and_delete-Settles
        (choose (notify s.on_connected _) (notify-IsCounted s.on_connected told))
    where
      choose :
          {n : ℕ} (x : Context × Bool)
          → IsCounted n x.0
          → IsCounted n
              (if x.1 then close x.0 else if is_ssl x.0.stream_type then handshake x.0 else x.0)
      choose (e, true) w = close-IsCounted w
      choose (e, false) w = elim (Bool-cases (is_ssl e.stream_type)) [
        | inl q ↦ rw q (handshake-IsCounted w)
        | inr q ↦ rw q w
      ]

  close_if-IsCounted : {n : ℕ} (x : Context × Bool) → IsCounted n x.0 → IsCounted n (close_if x)
  close_if-IsCounted (e, true) w = close-IsCounted w
  close_if-IsCounted (e, false) w = w

  -- If cbOnClosed starts nothing, then on a sound connection (open, with ref_ equal to the
  -- number of operations under way, one at least; or deleted, with none under way and after
  -- one turn of cbOnClosed) the callback of any operation under way but an accept returns,
  -- with no failed assertion, and leaves the connection sound, whatever the other user
  -- callbacks do.
  pub handler-IsSound :
      (c : Context) (k : Pending) (d : Completion) (before behind : List Pending)
      → IsSound c
      → c.pending ≡ before ++ (k ∷ behind)
      → k ≢ accepting
      → (c' : Context) × (handler s k d (record c { pending = before ++ behind }) ≡ some c')
        × IsSound c'
  unfolding handler on_handshake on_shutdown on_send on_receive
  handler-IsSound c k d before behind (gone _ e _) p ne =
      absurd (omega (arith, ap length (sym e ∙ p), length-append before (k ∷ behind)))
  handler-IsSound c k d before behind (live v _) p ne = run k ne
    where
      c₁ : Context
      c₁ = record c { pending = before ++ behind }

      w : IsCounted 1 c₁
      w = record {
        count = omega (
          arith,
          v.count,
          ap length p,
          length-append before (k ∷ behind),
          length-append before behind,
        );
        flag = v.flag;
        alive = v.alive;
        unclosed = v.unclosed;
      }

      told : (e : ErrorCode) (b : ℕ) → IsCounted 1 (record c₁ { ec = e; bytes_transferred = b })
      told e b = record { count = w.count; flag = w.flag; alive = w.alive; unclosed = w.unclosed }

      run : (j : Pending) → j ≢ accepting → Settles (handler s j d c₁)
      run accepting ne = absurd (ne refl)
      run connecting ne = on_connect-Settles d w
      run handshaking ne =
          check_and_delete-Settles (
            close_if-IsCounted _ (notify-IsCounted s.on_handshaked (told d.ec c.bytes_transferred)))
      run shutting_down ne = check_and_delete-Settles w
      run receiving ne = check_and_delete-Settles (
          close_if-IsCounted _
            (notify-IsCounted s.on_received_bytes (told d.ec d.bytes_transferred)))
      run sending ne =
          check_and_delete-Settles (
            close_if-IsCounted _ (notify-IsCounted s.on_sent_bytes (told d.ec d.bytes_transferred)))

  is_ordinary :
      (c c' : Context) (k : Pending) (d : Completion) → handler s k d c ≡ some c' → k ≢ accepting
  unfolding handler
  is_ordinary c c' accepting d e = cc
  is_ordinary c c' connecting d e = λ q. cc
  is_ordinary c c' handshaking d e = λ q. cc
  is_ordinary c c' shutting_down d e = λ q. cc
  is_ordinary c c' receiving d e = λ q. cc
  is_ordinary c c' sending d e = λ q. cc

  pub Step-IsSound : {c c' : Context} → Step s c c' → IsSound c → IsSound c'
  Step-IsSound {c} {c'} (completes k d before behind p e) v =
      let (x, q, w) = handler-IsSound c k d before behind v p (is_ordinary _ c' k d e) in
      let same : x ≡ c' = cc in subst IsSound same w

  pub Steps-IsSound : {c c' : Context} → Steps s c c' → IsSound c → IsSound c'
  Steps-IsSound here v = v
  Steps-IsSound (next r st) v = Step-IsSound st (Steps-IsSound r v)

-- The histories of a connection whose handlers run one after another. What the user callbacks do can differ from one
-- handler to the next.
pub data History (c : Context) : Context → Type 0 where
  begins : History c c
  handles :
      {c' c'' : Context} (s : Server) → IsQuiet s → History c c' → Step s c' c'' → History c c''

-- Every history of completions whose handlers run one after another, as where one thread runs
-- the service, with user callbacks that can do something else each time but of which
-- cbOnClosed starts nothing, leaves a sound connection sound: it is deleted once at most,
-- never while an operation is under way, and as long as it is not deleted an operation is.
pub History-IsSound : {c c' : Context} → History c c' → IsSound c → IsSound c'
History-IsSound begins v = v
History-IsSound (handles s quiet r st) v = Step-IsSound s quiet st (History-IsSound r v)

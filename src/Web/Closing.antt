-- ===== src/Web/Closing.antt =====
-- How a connection comes to its end: after `Close` nothing is started, so the operations under way drain.
use jnet_lib.Base.{
  ℕ, suc, ◌+◌, ◌-◌, ◌≡◌, refl, ap, ◌∙◌, Bool, true, false, Option, none, some, List, [], ◌∷◌, ◌++◌,
  if◌then◌else◌, length, length-append, arith,
}
use jnet_lib.Errors.{ErrorCode}
use jnet_lib.Web.{
  Context, Pending, is_ssl, shutting_down, connect, handshake, begin_shutdown, shutdown, recv, send,
  close, Call, connects, handshakes, shuts_down, recvs, sends, closes, perform, perform_all,
  Callback, Server, notify, close_if, accepting, connecting, handshaking, receiving, sending,
  destroy, check_and_delete, on_connect, on_handshake, on_shutdown, on_send, on_receive, handler,
  Completion, Step, completes, Steps, here, next,
}
use jnet_lib.Web.Counted.{IsCounted, IsQuiet, IsSound, live, gone, Steps-IsSound}

-- `c'` comes from the closed connection `c`, and nothing was started.
record Keeps (c c' : Context) : Type 0 where
  closed : c'.close_flag ≡ 1
  same : c'.pending ≡ c.pending

Keeps-refl : {c : Context} → c.close_flag ≡ 1 → Keeps c c
Keeps-refl h = record { closed = h; same = refl }

Keeps-trans : {a b c : Context} → Keeps a b → Keeps b c → Keeps a c
Keeps-trans k l = record { closed = l.closed; same = l.same ∙ k.same }

perform-Keeps : (k : Call) (c : Context) → c.close_flag ≡ 1 → Keeps c (perform k c)
unfolding perform connect handshake shutdown recv send close
perform-Keeps connects c h = ground arith
perform-Keeps handshakes c h = ground arith
perform-Keeps shuts_down c h = ground arith
perform-Keeps recvs c h = ground arith
perform-Keeps sends c h = ground arith
perform-Keeps closes c h = ground arith

perform_all-Keeps : (ks : List Call) (c : Context) → c.close_flag ≡ 1 → Keeps c (perform_all ks c)
unfolding perform_all
perform_all-Keeps [] c h = Keeps-refl h
perform_all-Keeps (k ∷ ks) c h =
    let p = perform-Keeps k c h in Keeps-trans p (perform_all-Keeps ks (perform k c) p.closed)

notify-Keeps : (f : Option Callback) (c : Context) → c.close_flag ≡ 1 → Keeps c (notify f c).0
notify-Keeps none c h = Keeps-refl h
notify-Keeps (some f) c h = perform_all-Keeps (f c).0 c h

close_if-Keeps : {c : Context} (x : Context × Bool) → Keeps c x.0 → Keeps c (close_if x)
unfolding close
close_if-Keeps (e, true) k = record { closed = refl; same = k.same }
close_if-Keeps (e, false) k = k

module _ (s : Server) where
  destroy-Keeps : (c : Context) → c.close_flag ≡ 1 → Keeps c (destroy s c)
  unfolding destroy
  destroy-Keeps c h =
      let k = notify-Keeps s.on_closed (record c { closings = c.closings + 1 }) h in
      record { closed = k.closed; same = k.same }

  check_and_delete-Keeps :
      (c c' : Context) → c.close_flag ≡ 1 → check_and_delete s c ≡ some c' → Keeps c c'
  unfolding check_and_delete
  check_and_delete-Keeps c c' h e =
      let k = destroy-Keeps (record c { ref = c.ref - 1 }) h in ground arith

  settle-Keeps :
      {c e : Context} (c' : Context) → Keeps c e → check_and_delete s e ≡ some c' → Keeps c c'
  settle-Keeps {e = e} c' k q = Keeps-trans k (check_and_delete-Keeps e c' k.closed q)

  told-Keeps :
      {c : Context} (f : Option Callback) (ec : ErrorCode) (n : ℕ)
      → c.close_flag ≡ 1
      → Keeps c (close_if (notify f (record c { ec = ec; bytes_transferred = n })))
  told-Keeps {c} f ec n h =
      let k = notify-Keeps f (record c { ec = ec; bytes_transferred = n }) h in
      close_if-Keeps (notify f (record c { ec = ec; bytes_transferred = n }))
        (record { closed = k.closed; same = k.same })

  choose-Keeps :
      {c : Context} (x : Context × Bool)
      → Keeps c x.0
      → Keeps c (if x.1 then close x.0 else if is_ssl x.0.stream_type then handshake x.0 else x.0)
  unfolding close handshake
  choose-Keeps (e, true) k = record { closed = refl; same = k.same }
  choose-Keeps (e, false) k = ground (arith, k.closed, k.same)

  handler-Keeps :
      (k : Pending) (d : Completion) (c c' : Context)
      → c.close_flag ≡ 1
      → handler s k d c ≡ some c'
      → Keeps c c'
  unfolding handler on_connect on_handshake on_shutdown on_send on_receive
  handler-Keeps accepting d c c' h e = cc
  handler-Keeps connecting d c c' h e =
      let k = notify-Keeps s.on_connected (record c { ec = d.ec }) h in
      settle-Keeps c'
        (choose-Keeps (notify s.on_connected (record c { ec = d.ec }))
          (record { closed = k.closed; same = k.same }))
        e
  handler-Keeps handshaking d c c' h e =
      settle-Keeps c' (told-Keeps s.on_handshaked d.ec c.bytes_transferred h) e
  handler-Keeps shutting_down d c c' h e = check_and_delete-Keeps c c' h e
  handler-Keeps receiving d c c' h e =
      settle-Keeps c' (told-Keeps s.on_received_bytes d.ec d.bytes_transferred h) e
  handler-Keeps sending d c c' h e =
      settle-Keeps c' (told-Keeps s.on_sent_bytes d.ec d.bytes_transferred h) e

  Step-drains :
      {c c' : Context}
      → Step s c c'
      → c.close_flag ≡ 1
      → (c'.close_flag ≡ 1) × (length c'.pending + 1 ≡ length c.pending)
  Step-drains {c} {c'} (completes k d before behind p e) h =
      let kept = handler-Keeps k d (record c { pending = before ++ behind }) c' h e in
      (
        kept.closed,
        omega (
          arith,
          ap length p,
          ap length kept.same,
          length-append before (k ∷ behind),
          length-append before behind,
        ),
      )

  abbrev pub completed : {c c' : Context} → Steps s c c' → ℕ
  completed here = 0
  completed (next r st) = suc (completed r)

  Steps-drain :
      {c c' : Context} (r : Steps s c c')
      → c.close_flag ≡ 1
      → (c'.close_flag ≡ 1) × (length c'.pending + completed r ≡ length c.pending)
  Steps-drain here h = (h, omega arith)
  Steps-drain (next r st) h =
      let i = Steps-drain r h in let j = Step-drains st i.0 in (j.0, omega (arith, i.1, j.1))

  -- If cbOnClosed starts nothing, then in every history of completions on a sound connection
  -- after Close each completion takes one operation away and none is added, and once as many
  -- have completed as were under way the connection is deleted, with one turn of cbOnClosed.
  pub Steps_after_close :
      {c c' : Context}
      → IsQuiet s
      → IsSound c
      → c.close_flag ≡ 1
      → (r : Steps s c c')
      → (length c'.pending + completed r ≡ length c.pending)
        × (completed r ≡ length c.pending → (c'.deleted ≡ true) × (c'.closings ≡ 1))
  Steps_after_close {c} {c'} quiet v h r =
      let n = (Steps-drain r h).1 in (n, λ all. over n all (Steps-IsSound s quiet r v))
    where
      over :
          length c'.pending + completed r ≡ length c.pending
          → completed r ≡ length c.pending
          → IsSound c'
          → (c'.deleted ≡ true) × (c'.closings ≡ 1)
      over n all (live w p) = absurd (omega arith)
      over n all (gone d p k) = (d, k)

-- If two threads have passed the test of Shutdown on a connection whose shutdown_flag is 0,
-- then after both have gone on ref_ has grown by one and the operations under way by two, so
-- that ref_ does not count them.
pub shutdown_race :
    {n : ℕ} (c : Context)
    → IsCounted n c
    → c.shutdown_flag ≡ 0
    → let c' = begin_shutdown (begin_shutdown c) in
      (c'.ref ≡ c.ref + 1) × (length c'.pending ≡ length c.pending + 2) × ¬ IsCounted n c'
unfolding begin_shutdown
shutdown_race c v z = (ground arith, two, λ w. ground (arith, w.count, v.count, two))
  where
    two : length (begin_shutdown (begin_shutdown c)).pending ≡ length c.pending + 2
    two = ground (
      arith,
      length-append c.pending (shutting_down ∷ []),
      length-append (c.pending ++ (shutting_down ∷ [])) (shutting_down ∷ []),
    )

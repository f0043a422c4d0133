-- ===== src/Service/Balance.antt =====
-- `outstanding_work_` of the service (epoll_service.cpp) counts the operations that are queued, wait for an
-- event, or are being completed.
pub mod Loop
use jnet_lib.Base.{
  ℕ, zero, suc, ◌+◌, ◌-◌, ◌*◌, ◌%◌, ◌^◌, ◌<◌, ◌≡◌, ◌≢◌, refl, subst, sym, ==_ne, inl, inr, ◌⊎◌, ap,
  ◌∙◌, Bool, true, false, not, ◌&&◌, Option, none, some, List, [], ◌∷◌, ◌++◌, get_elem?, set, ◌==◌,
  if◌then◌else◌, arith, Option-cases, Bool-cases,
}
use jnet_lib.Errors.{ErrorCode}
use jnet_lib.Operation.{Op, new_op}
use jnet_lib.Service.{
  Socket, Service, mark_ready, post_deferred_completion, on_completion, work_started, stop,
  work_finished, post, post_error,
}
use jnet_lib.Service.Events.{
  Event, reported, put, deliver, on_in, on_out, then_out, handle_event, handle_events,
}

module _ {A : Type 0} where
  abbrev pub held : Option (Op A) → ℕ
  held none = 0
  held (some op) = 1

  abbrev pub queued : List (Option (Op A)) → ℕ
  queued [] = 0
  queued (o ∷ q) = held o + queued q

  abbrev pub weight : Socket A → ℕ
  weight k = held k.in_op + held k.out_op

  abbrev pub registered : List (Socket A) → ℕ
  registered [] = 0
  registered (k ∷ ks) = weight k + registered ks

  abbrev pub AreReady : List (Option (Op A)) → Type 0
  AreReady [] = Unit
  AreReady (none ∷ q) = AreReady q
  AreReady (some op ∷ q) = (op.ready ≡ 1) × AreReady q

  -- `n` operations are neither queued nor registered: they are being completed. The count has
  -- gone `w` times past the 64 bits of `std::size_t`.
  pub record IsCounted (w n : ℕ) (s : Service A) : Type 0 where
    pub balance :
        s.outstanding_work + 2 ^ 64 * w ≡ queued s.completed_ops + registered s.sockets + n
    pub small : s.outstanding_work < 2 ^ 64
    pub ready : AreReady s.completed_ops

  -- It has not.
  abbrev pub IsBalanced : ℕ → Service A → Type 0
  IsBalanced n s = IsCounted 0 n s

  abbrev found : Option (Socket A) → ℕ
  found none = 0
  found (some k) = weight k

  pub held-mark_ready : (o : Option (Op A)) → held (mark_ready o) ≡ held o
  held-mark_ready none = refl
  held-mark_ready (some op) = refl

  pub queued-append :
      (q : List (Option (Op A))) (o : Option (Op A)) → queued (q ++ (o ∷ [])) ≡ queued q + held o
  queued-append [] o = omega arith
  queued-append (p ∷ q) o = omega (arith, queued-append q o)

  append-AreReady :
      (q : List (Option (Op A))) (o : Option (Op A))
      → AreReady q
      → AreReady (q ++ (mark_ready o ∷ []))
  append-AreReady [] none r = tt
  append-AreReady [] (some op) r = (refl, tt)
  append-AreReady (none ∷ q) o r = append-AreReady q o r
  append-AreReady (some p ∷ q) o r = (r.0, append-AreReady q o r.1)

  registered-set :
      (ks : List (Socket A)) (i : ℕ) {k : Socket A} (k' : Socket A)
      → get_elem? ks i ≡ some k
      → registered (set ks i k') + weight k ≡ registered ks + weight k'
  registered-set [] i k' e = absurd (cc e)
  registered-set (x ∷ ks) zero {k} k' e = omega (arith, ap found e)
  registered-set (x ∷ ks) (suc i) k' e = omega (arith, registered-set ks i k' e)

  -- An operation that was being completed, and is handed in.
  pub post_deferred_completion-IsBalanced :
      {w n : ℕ} (o : Option (Op A)) {s : Service A}
      → IsCounted w (n + held o) s
      → IsCounted w n (post_deferred_completion o s)
  unfolding post_deferred_completion
  post_deferred_completion-IsBalanced o {s} v = record {
    balance =
        omega (arith, v.balance, queued-append s.completed_ops (mark_ready o), held-mark_ready o);
    small = v.small;
    ready = append-AreReady s.completed_ops o v.ready;
  }

  pub post_null-IsBalanced :
      {w n : ℕ} {s : Service A} → IsCounted w n s → IsCounted w n (post_deferred_completion none s)
  post_null-IsBalanced v =
      post_deferred_completion-IsBalanced none
        (record { balance = omega (arith, v.balance); small = v.small; ready = v.ready })

  pub stop-IsBalanced : {w n : ℕ} {s : Service A} → IsCounted w n s → IsCounted w n (stop s)
  unfolding stop post_deferred_completion
  stop-IsBalanced {w} {n} {s} v = elim (Bool-cases (s.stopped == 0)) [
    | inl e ↦
        rw e
          (post_null-IsBalanced (record { balance = v.balance; small = v.small; ready = v.ready }))
    | inr e ↦ rw e v
  ]

  pub work_started-IsBalanced :
      {w n : ℕ} {s : Service A}
      → s.outstanding_work + 1 < 2 ^ 64
      → IsCounted w n s
      → IsCounted w (n + 1) (work_started s)
  unfolding work_started
  work_started-IsBalanced h v = record {
    balance = omega (arith, v.balance);
    small = omega (arith, v.small);
    ready = v.ready;
  }

  -- One of the operations that are being completed is done.
  pub work_finished-IsCounted :
      {w n : ℕ} {s : Service A}
      → IsCounted w (suc n) s
      → (w' : ℕ) × IsCounted w' n (work_finished s)
  unfolding work_finished
  work_finished-IsCounted {w} {n} {s} v =
      elim (Bool-cases ((s.outstanding_work + 2 ^ 64 - 1) % 2 ^ 64 == 0)) [
        | inl e ↦ rw e (less.0, stop-IsBalanced less.1)
        | inr e ↦ rw e less
      ]
    where
      less :
          (w' : ℕ) × IsCounted w' n
            (record s { outstanding_work = (s.outstanding_work + 2 ^ 64 - 1) % 2 ^ 64 })
      less = elim (Bool-cases (s.outstanding_work == 0)) [
        | inl e ↦ (
          w - 1,
          record {
            balance = ground (arith, e, v.balance, v.small);
            small = omega (arith, v.small);
            ready = v.ready;
          },
        )
        | inr e ↦ (
          w,
          record {
            balance = ground (arith, e, v.balance, v.small);
            small = omega (arith, v.small);
            ready = v.ready;
          },
        )
      ]

  pub stop-stopped : (s : Service A) → (stop s).stopped ≢ 0
  unfolding stop post_deferred_completion
  stop-stopped s e = ground arith

  stop_if-stopped :
      (s : Service A)
      → ((if s.outstanding_work == 0 then stop s else s).outstanding_work ≢ 0)
        ⊎ ((if s.outstanding_work == 0 then stop s else s).stopped ≢ 0)
  stop_if-stopped s = elim (Bool-cases (s.outstanding_work == 0)) [
    | inl e ↦ rw e (inr (stop-stopped s))
    | inr e ↦ rw e (inl (==_ne _ 0 e))
  ]

  -- The service is stopped when the last of them is done.
  pub work_finished-stopped :
      (s : Service A) → ((work_finished s).outstanding_work ≢ 0) ⊎ ((work_finished s).stopped ≢ 0)
  unfolding work_finished
  work_finished-stopped s =
      stop_if-stopped (record s { outstanding_work = (s.outstanding_work + 2 ^ 64 - 1) % 2 ^ 64 })

  pub post-IsBalanced :
      {w n : ℕ} (a : A) {s : Service A}
      → s.outstanding_work + 1 < 2 ^ 64
      → IsCounted w n s
      → IsCounted w n (post a s)
  unfolding post
  post-IsBalanced a h v =
      post_deferred_completion-IsBalanced (some (new_op a)) (work_started-IsBalanced h v)

  work_started-IsCounted :
      {w n : ℕ} {s : Service A} → IsCounted w n s → (w' : ℕ) × IsCounted w' (n + 1) (work_started s)
  unfolding work_started
  work_started-IsCounted {w} {n} {s} v = elim (Bool-cases (s.outstanding_work == 2 ^ 64 - 1)) [
    | inl e ↦ (
      suc w,
      record { balance = ground (arith, e, v.balance); small = omega arith; ready = v.ready },
    )
    | inr e ↦ (
      w,
      record {
        balance = ground (arith, e, v.balance, v.small);
        small = omega arith;
        ready = v.ready;
      },
    )
  ]

  -- A handler is posted, whatever the count is.
  pub post-IsCounted :
      {w n : ℕ} (a : A) {s : Service A} → IsCounted w n s → (w' : ℕ) × IsCounted w' n (post a s)
  unfolding post
  post-IsCounted a v =
      let started = work_started-IsCounted v in
      (started.0, post_deferred_completion-IsBalanced (some (new_op a)) started.1)

  -- Every service that a part of the event loop leaves behind; there is none after a null write.
  abbrev pub Leaves : ℕ → ℕ → Option (Service A) → Type 0
  Leaves w n none = Unit
  Leaves w n (some s) = IsCounted w n s

  pub put-IsBalanced :
      {w n : ℕ} (m i : ℕ) {k₀ : Socket A} (k : Socket A) {s : Service A}
      → IsCounted w n s
      → get_elem? s.sockets i ≡ some k₀
      → n + weight k₀ ≡ m + weight k
      → IsCounted w m (put i k s)
  put-IsBalanced m i k {s} v at w = record {
    balance = omega (arith, v.balance, w, registered-set s.sockets i k at);
    small = v.small;
    ready = v.ready;
  }

  deliver-Leaves :
      {w n : ℕ} (e : Event) (o : Option (Op A)) {k₀ : Socket A} (k : Socket A) {s : Service A}
      → IsCounted w n s
      → get_elem? s.sockets e.socket ≡ some k₀
      → weight k₀ ≡ weight k + held o
      → Leaves w n (deliver e o k s)
  unfolding deliver
  deliver-Leaves {w} {n} e (some op) k v at d =
      post_deferred_completion-IsBalanced (some (reported e op))
        (put-IsBalanced (n + 1) e.socket k v at (omega (arith, d)))
  deliver-Leaves {w} {n} e none k v at d = elim (Bool-cases e.is_err) [
    | inl y ↦ rw y tt
    | inr y ↦ rw y (put-IsBalanced n e.socket k v at (omega (arith, d)))
  ]

  on_in-Leaves :
      {w n : ℕ} (e : Event) (o : Option (Socket A)) {s : Service A}
      → IsCounted w n s
      → get_elem? s.sockets e.socket ≡ o
      → Leaves w n (on_in e o s)
  unfolding on_in
  on_in-Leaves e none v at = tt
  on_in-Leaves e (some k) v at = elim (Bool-cases e.is_in) [
    | inl y ↦ rw y (deliver-Leaves e k.in_op _ v at (omega arith))
    | inr y ↦ rw y v
  ]

  on_out-Leaves :
      {w n : ℕ} (e : Event) (o : Option (Socket A)) {s : Service A}
      → IsCounted w n s
      → get_elem? s.sockets e.socket ≡ o
      → Leaves w n (on_out e o s)
  unfolding on_out
  on_out-Leaves e none v at = tt
  on_out-Leaves e (some k) v at = elim (Bool-cases e.is_out) [
    | inl y ↦ rw y (deliver-Leaves e k.out_op _ v at (omega arith))
    | inr y ↦ rw y v
  ]

  then_out-Leaves :
      (w n : ℕ) (e : Event) (o : Option (Service A)) → Leaves w n o → Leaves w n (then_out e o)
  then_out-Leaves w n e none v = tt
  then_out-Leaves w n e (some s) v = on_out-Leaves e _ v refl

  pub handle_event-Leaves :
      {w n : ℕ} (e : Event) {s : Service A} → IsCounted w n s → Leaves w n (handle_event e s)
  unfolding handle_event
  handle_event-Leaves {w} {n} e v = then_out-Leaves w n e _ (on_in-Leaves e _ v refl)

  pub handle_events-Leaves :
      (w n : ℕ) (es : List Event) (o : Option (Service A))
      → Leaves w n o
      → Leaves w n (handle_events es o)
  unfolding handle_events
  handle_events-Leaves w n [] none v = tt
  handle_events-Leaves w n (e ∷ es) none v = tt
  handle_events-Leaves w n [] (some s) v = v
  handle_events-Leaves w n (e ∷ es) (some s) v =
      handle_events-Leaves w n es _ (handle_event-Leaves e v)

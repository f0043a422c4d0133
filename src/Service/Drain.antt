-- ===== src/Service/Drain.antt =====
-- What `run` of epoll_service.cpp does with the queue: it takes the operations from the front, and returns
-- when all work is done.
use jnet_lib.Base.{
  ℕ, zero, suc, ◌+◌, ◌-◌, ◌%◌, ◌^◌, ◌<◌, ◌≡◌, ◌≢◌, refl, sym, ap, ◌∙◌, inl, inr, Bool, true, false,
  Option, none, some, List, [], ◌∷◌, ◌++◌, length, map, append-nil, append_assoc, ◌==◌,
  if◌then◌else◌, arith, Bool-cases,
}
use jnet_lib.Errors.{no_error}
use jnet_lib.Operation.{Op, new_op}
use jnet_lib.Posix.{done}
use jnet_lib.Service.{
  Service, new_service, wait, wait_loop, popped, work_started, work_finished, stop,
  post_deferred_completion, post,
}
use jnet_lib.Service.Events.{handle_events}
use jnet_lib.Service.Loop.{
  Round, Result, returned, dispatch, take_turn, after_events, polled, turn, do_one, run_loop, run,
  entered, leave, count_one,
}

-- A turn in which nothing else happens.
abbrev pub idle : {A : Type 0} → Round A
idle = record { meanwhile = λ s. s; epoll_wait = λ t. done []; wakes = [] }

abbrev pub claimed : {A : Type 0} → ℕ → Service A → Service A
claimed thd s = if s.demultiplexing_thread == 0 then record s { demultiplexing_thread = thd } else s

module _ {A : Type 0} (complete : Op A → Service A → Service A) where
  abbrev waited : (Service A → Result A) → Service A → Result A
  waited resume s = take_turn complete resume idle s

  turn-idle :
      (thd : ℕ) (resume : Service A → Result A) (s : Service A)
      → turn complete thd resume idle s ≡ waited resume (claimed thd s)
  unfolding turn polled after_events handle_events
  turn-idle thd resume s = elim (Bool-cases (s.demultiplexing_thread == 0)) [
    | inl y ↦ rw y refl
    | inr y ↦ rw y (either (s.demultiplexing_thread == thd))
  ]
    where
      either : (b : Bool) → (if b then waited resume s else waited resume s) ≡ waited resume s
      either true = refl
      either false = refl

  claimed-ops : (thd : ℕ) (s : Service A) → (claimed thd s).completed_ops ≡ s.completed_ops
  claimed-ops thd s = ground arith

  waited_front :
      (resume : Service A → Result A) (s : Service A) (op : Op A) (q : List (Option (Op A)))
      → s.completed_ops ≡ some op ∷ q
      → op.ready ≡ 1
      → waited resume s
        ≡ returned true
            (some no_error)
            (work_finished (complete op (record s { completed_ops = q })))
  unfolding wait wait_loop popped dispatch
  waited_front resume s op q e r =
      rw e (rw (let z : (op.ready == 0) ≡ false = ground (arith, r) in z) refl)

  -- In a turn in which nothing else happens, do_one takes a ready operation from the front of
  -- the queue, completes it, counts it as finished and returns 1 without error.
  pub do_one_front :
      (thd : ℕ) (rs : List (Round A)) (s : Service A) (op : Op A) (q : List (Option (Op A)))
      → s.completed_ops ≡ some op ∷ q
      → op.ready ≡ 1
      → do_one complete thd (idle ∷ rs) s
        ≡ returned true
            (some no_error)
            (work_finished (complete op (record (claimed thd s) { completed_ops = q })))
  unfolding do_one
  do_one_front thd rs s op q e r =
      turn-idle thd _ s ∙ waited_front _ (claimed thd s) op q (claimed-ops thd s ∙ e) r

  -- `wait` hands out the null pointer that `stop` posts.
  waited_null :
      (resume : Service A → Result A) (s : Service A) (q : List (Option (Op A)))
      → s.completed_ops ≡ none ∷ q
      → (s.stopped == 0) ≡ false
      → waited resume s
        ≡ returned false
            (some no_error)
            (post_deferred_completion none (record s { completed_ops = q }))
  unfolding wait wait_loop popped dispatch
  waited_null resume s q e r = rw e (rw r refl)

==_zero : (k : ℕ) → k ≢ 0 → (k == 0) ≡ false
==_zero k h = ground (arith, h)

-- A queued handler.
abbrev pub item : {A : Type 0} → A → Option (Op A)
item a = some (record (new_op a) { ready = 1 })

abbrev pub post_all : {A : Type 0} → List A → Service A → Service A
post_all [] s = s
post_all (a ∷ hs) s = post_all hs (post a s)

-- A call of `do_one` for each of `n` operations, and one that finds the service stopped.
abbrev pub calls : {A : Type 0} → ℕ → List (List (Round A))
calls zero = (idle ∷ []) ∷ []
calls (suc n) = (idle ∷ []) ∷ calls n

-- The handler does not use the service.
abbrev pub leaves_alone : {A : Type 0} → Op A → Service A → Service A
leaves_alone op s = s

module _ {A : Type 0} where
  -- The handlers `hs` are queued, and there is no other work.
  record IsWorking (hs : List A) (s : Service A) : Type 0 where
    pub queue : s.completed_ops ≡ map item hs
    pub work : s.outstanding_work ≡ length hs
    pub small : length hs < 2 ^ 64
    pub running : s.stopped ≡ 0

  pub record IsOver (s : Service A) : Type 0 where
    pub queue : s.completed_ops ≡ none ∷ []
    pub work : s.outstanding_work ≡ 0
    pub stopped : s.stopped ≢ 0

  -- A `run` that has returned after `n` operations.
  abbrev pub Drained : ℕ → Option (ℕ × Service A) → Type 0
  Drained n none = ⊥
  Drained n (some (k, s)) = (k ≡ n) × IsOver s

  claimed-IsWorking :
      (thd : ℕ) {hs : List A} {s : Service A} → IsWorking hs s → IsWorking hs (claimed thd s)
  claimed-IsWorking thd w = ground (arith, w)

  claimed-IsOver : (thd : ℕ) {s : Service A} → IsOver s → IsOver (claimed thd s)
  claimed-IsOver thd w = ground (arith, w)

  work_finished-IsWorking :
      {a b : A} {hs : List A} {s : Service A}
      → IsWorking (a ∷ b ∷ hs) s
      → IsWorking (b ∷ hs) (work_finished (record s { completed_ops = map item (b ∷ hs) }))
  unfolding work_finished
  work_finished-IsWorking {s = s} w =
      rw
        (let z : ((s.outstanding_work + 2 ^ 64 - 1) % 2 ^ 64 == 0) ≡ false =
            ground (arith, w.work, w.small) in
          z)
        (record {
          queue = refl;
          work = omega (arith, w.work, w.small);
          small = omega (arith, w.small);
          running = w.running;
        })

  work_finished-IsOver :
      {a : A} {s : Service A}
      → IsWorking (a ∷ []) s
      → IsOver (work_finished (record s { completed_ops = [] }))
  unfolding work_finished stop post_deferred_completion
  work_finished-IsOver {s = s} w =
      rw
        (let z : ((s.outstanding_work + 2 ^ 64 - 1) % 2 ^ 64 == 0) ≡ true =
            ground (arith, w.work) in
          z)
        (rw (let z : (s.stopped == 0) ≡ true = ground (arith, w.running) in z)
          (record { queue = refl; work = omega (arith, w.work); stopped = λ e. omega arith }))

  do_one-IsOver :
      (thd : ℕ) {s : Service A}
      → IsOver s
      → (s' : Service A) × (do_one leaves_alone thd (idle ∷ []) s
          ≡ returned false (some no_error) s')
        × IsOver s'
  unfolding do_one post_deferred_completion
  do_one-IsOver thd {s} w = (
    post_deferred_completion none (record (claimed thd s) { completed_ops = [] }),
    turn-idle leaves_alone thd _ s
        ∙ waited_null leaves_alone _ (claimed thd s) [] c.queue (==_zero _ c.stopped),
    record { queue = refl; work = c.work; stopped = c.stopped },
  )
    where
      c : IsOver (claimed thd s)
      c = claimed-IsOver thd w

  count_one-Drained :
      (n : ℕ) (o : Option (ℕ × Service A)) → Drained n o → Drained (suc n) (count_one o)
  count_one-Drained n none d = d
  count_one-Drained n (some (k, s)) d = (ap suc d.0, d.1)

  leave-Drained : (thd n : ℕ) (o : Option (ℕ × Service A)) → Drained n o → Drained n (leave thd o)
  leave-Drained thd n none d = d
  leave-Drained thd n (some (k, s)) d =
      (d.0, record { queue = d.1.queue; work = d.1.work; stopped = d.1.stopped })

  over-Drained :
      (thd : ℕ) {s : Service A} → IsOver s → Drained 0 (run_loop leaves_alone thd (calls 0) s)
  unfolding run_loop
  over-Drained thd w = let (s', e, v) = do_one-IsOver thd w in rw e (refl, v)

  working-Drained :
      (thd : ℕ) (h : A) (hs : List A) {s : Service A}
      → IsWorking (h ∷ hs) s
      → Drained (suc (length hs)) (run_loop leaves_alone thd (calls (suc (length hs))) s)
  unfolding run_loop
  working-Drained thd h [] {s} w =
      rw (do_one_front leaves_alone thd [] s (record (new_op h) { ready = 1 }) [] w.queue refl)
        (count_one-Drained 0 _ (over-Drained thd (work_finished-IsOver (claimed-IsWorking thd w))))
  working-Drained thd h (g ∷ hs) {s} w =
      rw
        (do_one_front leaves_alone thd [] s (record (new_op h) { ready = 1 }) (map item (g ∷ hs))
          w.queue refl)
        (count_one-Drained (suc (length hs)) _
          (working-Drained thd g hs (work_finished-IsWorking (claimed-IsWorking thd w))))

  -- What the posts add to a service.
  record IsPosted (hs : List A) (s s' : Service A) : Type 0 where
    pub queue : s'.completed_ops ≡ s.completed_ops ++ map item hs
    pub work : s'.outstanding_work ≡ s.outstanding_work + length hs
    pub flag : s'.stopped ≡ s.stopped

  post-IsPosted :
      (h : A) {hs : List A} {s s' : Service A}
      → s.outstanding_work + suc (length hs) < 2 ^ 64
      → IsPosted hs (post h s) s'
      → IsPosted (h ∷ hs) s s'
  unfolding post work_started post_deferred_completion
  post-IsPosted h {hs} {s} l rest = record {
    queue = rest.queue ∙ append_assoc s.completed_ops (item h ∷ []) (map item hs);
    work = omega (arith, rest.work, l);
    flag = rest.flag;
  }

  post_all-IsPosted :
      (hs : List A) (s : Service A)
      → s.outstanding_work + length hs < 2 ^ 64
      → IsPosted hs s (post_all hs s)
  unfolding post work_started post_deferred_completion
  post_all-IsPosted [] s l = record {
    queue = sym (append-nil s.completed_ops);
    work = omega arith;
    flag = refl;
  }
  post_all-IsPosted (h ∷ hs) s l =
      post-IsPosted h l (post_all-IsPosted hs (post h s) (omega (arith, l)))

  entered-IsWorking :
      {h : A} {hs : List A} {s : Service A} → IsWorking (h ∷ hs) s → IsWorking (h ∷ hs) (entered s)
  entered-IsWorking {s = s} w =
      rw (==_zero s.outstanding_work (λ e. omega (arith, w.work)))
        (record { queue = w.queue; work = w.work; small = w.small; running = w.running })

  -- On a fresh service with fewer than 2^64 posted handlers that do not use it, with nothing
  -- else to happen, run returns the number of the handlers, after one call of do_one for each
  -- and one that finds the service stopped, and leaves no work.
  pub run-post_all :
      (thd : ℕ) (hs : List A)
      → length hs < 2 ^ 64
      → Drained (length hs) (run leaves_alone thd (calls (length hs)) (post_all hs new_service))
  unfolding run stop post_deferred_completion
  run-post_all thd [] l =
      leave-Drained thd 0 _
        (over-Drained thd (record { queue = refl; work = refl; stopped = λ e. omega arith }))
  run-post_all thd (h ∷ hs) l = leave-Drained thd _ _ (
      working-Drained thd h hs (
        entered-IsWorking {s = post_all (h ∷ hs) new_service}
          (record { queue = p.queue; work = omega (arith, p.work); small = l; running = p.flag })))
    where
      p : IsPosted (h ∷ hs) new_service (post_all (h ∷ hs) new_service)
      p = post_all-IsPosted (h ∷ hs) new_service (omega (arith, l))

-- ===== src/Service/Balance/Loop.antt =====
-- What `service::do_one` of epoll_service.cpp leaves behind: the count of outstanding work is right, and
-- the service is stopped when there is none.
use jnet_lib.Base.{
  ℕ, zero, suc, ◌≡◌, ◌≢◌, refl, ap, inl, inr, ◌⊎◌, subst, Bool, true, false, ◌||◌, Option, none,
  some, List, [], ◌∷◌, ◌==◌, if◌then◌else◌, arith, Bool-cases,
}
use jnet_lib.Base.Int.{ℤ, pos, negsuc}
use jnet_lib.Operation.{Op}
use jnet_lib.Posix.{Outcome, done, failed}
use jnet_lib.Posix.Errno
use jnet_lib.Service.{Service, Wake, Taken, wait, wait_loop, popped}
use jnet_lib.Service.Events.{Event}
use jnet_lib.Service.Loop.{
  Round, Result, returned, blocked, crashed, dispatch, take_turn, after_events, polled, turn,
  do_one,
}
use jnet_lib.Service.Balance.{
  AreReady, queued, IsCounted, Leaves, post_null-IsBalanced, work_finished-IsCounted,
  work_finished-stopped, handle_events-Leaves,
}

-- `n` operations are being completed, and `outstanding_work` counts with them what is queued and what is
-- registered, modulo 2^64.
module _ {A : Type 0} where
  abbrev pub Counts : ℕ → Service A → Type 0
  Counts n s = (w : ℕ) × IsCounted w n s

  -- An operation that `wait` hands out is ready, and counts as one that is being completed.
  abbrev pub TakenCounts : ℕ → Option (Taken A) → Type 0
  TakenCounts n none = Unit
  TakenCounts n (some (none, nop, s)) = Counts n s
  TakenCounts n (some (some op, nop, s)) = (op.ready ≡ 1) × Counts (suc n) s

  pub front-TakenCounts :
      {n : ℕ} (o : Option (Op A)) (q : List (Option (Op A))) (nop : ℤ) {s : Service A}
      → s.completed_ops ≡ o ∷ q
      → Counts n s
      → TakenCounts n (some (o, nop, record s { completed_ops = q }))
  front-TakenCounts none q nop e (w, v) = (
    w,
    record {
      balance = omega (arith, v.balance, ap queued e);
      small = v.small;
      ready = subst AreReady e v.ready;
    },
  )
  front-TakenCounts (some op) q nop e (w, v) = (
    (subst AreReady e v.ready).0,
    (
      w,
      record {
        balance = omega (arith, v.balance, ap queued e);
        small = v.small;
        ready = (subst AreReady e v.ready).1;
      },
    ),
  )

  popped-TakenCounts :
      {n : ℕ} (ret : ℕ) (q : List (Option (Op A))) {s : Service A}
      → s.completed_ops ≡ q
      → Counts n s
      → TakenCounts n (some (popped ret q s))
  unfolding popped
  popped-TakenCounts ret [] e v = v
  popped-TakenCounts ret (o ∷ q) e v = elim (Bool-cases (ret == 0)) [
    | inl y ↦ rw y (front-TakenCounts o q _ e v)
    | inr y ↦ rw y v
  ]

  claim-IsCounted :
      {w n : ℕ} (b : Bool) (thd : ℕ) {s : Service A}
      → IsCounted w n s
      → IsCounted w n (if b then record s { demultiplexing_thread = thd } else s)
  claim-IsCounted true thd v = record { balance = v.balance; small = v.small; ready = v.ready }
  claim-IsCounted false thd v = v

-- `May m n`: when other threads are completing `m` operations, then after some of their steps it may be
-- `n`. A thread that takes an operation from the queue, or starts one, completes one more, and one that
-- is done with an operation, or hands it in, one fewer.
-- `May n m`: when other threads are completing `n` operations, then after some of their steps it may be
-- `m`. A thread that takes an operation from the queue, or starts one, completes one more, and one that
-- is done with an operation, or hands it in, one fewer.
module _ {A : Type 0} (May : ℕ → ℕ → Type 0) where
  -- What other threads do keeps the count.
  abbrev pub Keeps : (Service A → Service A) → Type 0
  Keeps f = (n : ℕ) (s : Service A) → Counts n s → (m : ℕ) × May n m × Counts m (f s)

  abbrev pub AllKeep : List (Wake A) → Type 0
  AllKeep [] = Unit
  AllKeep (w ∷ ws) = Keeps w.meanwhile × AllKeep ws

  abbrev pub RoundsKeep : List (Round A) → Type 0
  RoundsKeep [] = Unit
  RoundsKeep (r ∷ rs) = (Keeps r.meanwhile × AllKeep r.wakes) × RoundsKeep rs

  -- The completion of an operation that is this thread's own.
  abbrev pub Completes : (Op A → Service A → Service A) → Type 0
  Completes complete =
      (op : Op A) (n : ℕ) (s : Service A)
      → Counts (suc n) s
      → (m : ℕ) × May n m × Counts (suc m) (complete op s)

  -- What is known when `do_one` ends, or waits: after an operation was completed, a service
  -- that has no work left is stopped.
  abbrev pub Ends : ℕ → Result A → Type 0
  Ends n (returned true ec s) =
      (m : ℕ) × May n m × Counts m s × ((s.outstanding_work ≢ 0) ⊎ (s.stopped ≢ 0))
  Ends n (returned false ec s) = (m : ℕ) × May n m × Counts m s
  Ends n (blocked s) = (m : ℕ) × May n m × Counts m s
  Ends n crashed = Unit

module _ {A : Type 0} (May : ℕ → ℕ → Type 0) (same : (n : ℕ) → May n n)
    (after : (l m n : ℕ) → May l m → May m n → May l n) where
  wait_loop-TakenCounts :
      (ws : List (Wake A)) (n ret : ℕ) (q : List (Option (Op A))) {s : Service A}
      → AllKeep May ws
      → s.completed_ops ≡ q
      → Counts n s
      → (m : ℕ) × May n m × TakenCounts m (wait_loop ws ret q s)
  unfolding wait_loop
  wait_loop-TakenCounts ws n ret (o ∷ q) k e v = (n, same n, popped-TakenCounts ret (o ∷ q) e v)
  wait_loop-TakenCounts [] n ret [] k e v = elim (Bool-cases (ret == 0)) [
    | inl y ↦ rw y (n, same n, tt)
    | inr y ↦ rw y (n, same n, popped-TakenCounts ret [] e v)
  ]
  wait_loop-TakenCounts (w ∷ ws) n ret [] {s} k e v = elim (Bool-cases (ret == 0)) [
    | inl y ↦
        let moved = k.0 n s v in
        let rest = wait_loop-TakenCounts ws moved.0 w.ret _ k.1 refl moved.2 in
        rw y (rest.0, after n moved.0 rest.0 moved.1 rest.1, rest.2)
    | inr y ↦ rw y (n, same n, popped-TakenCounts ret [] e v)
  ]

  Ends-after : (l m : ℕ) (r : Result A) → May l m → Ends May m r → Ends May l r
  Ends-after l m (returned true ec s) h (n, i, e, z) = (n, after l m n h i, e, z)
  Ends-after l m (returned false ec s) h (n, i, e) = (n, after l m n h i, e)
  Ends-after l m (blocked s) h (n, i, e) = (n, after l m n h i, e)
  Ends-after l m crashed h e = tt

  module _ (complete : Op A → Service A → Service A) (completes : Completes May complete) where
    -- `resume` runs the turns that follow.
    module _ (resume : Service A → Result A)
        (go : (n : ℕ) (s : Service A) → Counts n s → Ends May n (resume s)) where
      dispatch-Ends :
          (n m : ℕ) (t : Option (Taken A)) {s : Service A}
          → May n m
          → TakenCounts m t
          → Counts n s
          → Ends May n (dispatch complete resume t s)
      unfolding dispatch
      dispatch-Ends n m none h t v = (n, same n, v)
      dispatch-Ends n m (some (some op, nop, s')) h (ready, t) v =
          let own = completes op m s' t in
          rw (let z : (op.ready == 0) ≡ false = ground (arith, ready) in z) (
            own.0,
            after n m own.0 h own.1,
            work_finished-IsCounted own.2.1,
            work_finished-stopped _,
          )
      dispatch-Ends n m (some (none, pos zero, s')) h t v = Ends-after n m _ h (go m s' t)
      dispatch-Ends n m (some (none, negsuc k, s')) h t v = (m, h, t)
      dispatch-Ends n m (some (none, pos (suc k), s')) h t v = elim (Bool-cases (s'.stopped == 0)) [
        | inl y ↦ rw y (Ends-after n m _ h (go m s' t))
        | inr y ↦ rw y (m, h, (t.0, post_null-IsBalanced t.1))
      ]

      take_turn-Ends :
          (n : ℕ) (r : Round A) {s : Service A}
          → AllKeep May r.wakes
          → Counts n s
          → Ends May n (take_turn complete resume r s)
      unfolding wait
      take_turn-Ends n r k v =
          let taken = wait_loop-TakenCounts r.wakes n 0 _ k refl v in
          dispatch-Ends n taken.0 _ taken.1 taken.2 v

      after_events-Ends :
          (w n : ℕ) (r : Round A) (o : Option (Service A))
          → AllKeep May r.wakes
          → Leaves w n o
          → Ends May n (after_events complete resume r o)
      unfolding after_events
      after_events-Ends w n r none k v = tt
      after_events-Ends w n r (some s) k v = take_turn-Ends n r k (w, v)

      polled-Ends :
          (n : ℕ) (r : Round A) (a : Outcome (List Event)) {s : Service A}
          → AllKeep May r.wakes
          → Counts n s
          → Ends May n (polled complete resume r a s)
      unfolding polled
      polled-Ends n r (done es) {s} k (w, v) =
          after_events-Ends w n r _ k (handle_events-Leaves w n es (some s) v)
      polled-Ends n r (failed e) k v = elim (Bool-cases (e == Errno.intr)) [
        | inl y ↦ rw y (take_turn-Ends n r k v)
        | inr y ↦ rw y (n, same n, v)
      ]

      turn-Ends :
          (n thd : ℕ) (r : Round A) {s : Service A}
          → Keeps May r.meanwhile
          → AllKeep May r.wakes
          → Counts n s
          → Ends May n (turn complete thd resume r s)
      unfolding turn
      turn-Ends n thd r {s} keep k (w, v) =
          elim (Bool-cases ((s.demultiplexing_thread == 0) || (s.demultiplexing_thread == thd))) [
            | inl y ↦
                let moved = keep n _ (w, claim-IsCounted (s.demultiplexing_thread == 0) thd v) in
                rw y (Ends-after n moved.0 _ moved.1 (polled-Ends moved.0 r _ k moved.2))
            | inr y ↦ rw y (take_turn-Ends n r k (w, v))
          ]

    -- Let outstanding_work count, modulo 2^64, the operations that are queued, registered at a
    -- socket or being completed, and the queued ones be ready; and let the steps of other
    -- threads (posts, registrations, operations taken and finished) keep this, with any change
    -- of the number that they are completing that a reflexive and transitive relation allows,
    -- and the completion of each operation too. Then in every service that do_one leaves,
    -- whether it returns or waits, the count is right, for a number that the relation allows,
    -- unless do_one writes through a null pointer; and after it has completed an operation,
    -- and counted it off, there is work left or the service is stopped.
    pub do_one-Ends :
        (thd : ℕ) (rs : List (Round A)) (n : ℕ) {s : Service A}
        → RoundsKeep May rs
        → Counts n s
        → Ends May n (do_one complete thd rs s)
    unfolding do_one
    do_one-Ends thd [] n k v = (n, same n, v)
    do_one-Ends thd (r ∷ rs) n k v =
        turn-Ends _ (λ m s w. do_one-Ends thd rs m k.1 w) n thd r k.0.0 k.0.1 v

-- ===== src/Service.antt =====
-- epoll_service.h and epoll_service.cpp: the queue of completed operations, and the count of
-- outstanding work. An operation has one owner, a socket that waits for its event or the queue, so that
-- the model passes it by value; a null pointer is `none`.
pub mod Events
pub mod Loop
pub mod Balance
pub mod Drain
pub mod Register
pub mod NullWrite
mod Tests
use jnet_lib.Base.{
  ℕ, zero, suc, ◌+◌, ◌-◌, ◌%◌, ◌^◌, Bool, true, false, Option, none, some, List, [], ◌∷◌, ◌++◌,
  length, ◌==◌, if◌then◌else◌,
}
use jnet_lib.Base.Int.{ℤ, pos, negsuc}
use jnet_lib.Errors.{ErrorCode}
use jnet_lib.Operation.{Op, new_op}

-- `socket_base`, as the service sees it: `wants_in` and `wants_out` are the bits EPOLLIN and EPOLLOUT of
-- `event_.events`.
pub record Socket (A : Type 0) : Type 0 where
  pub wants_in : Bool
  pub wants_out : Bool
  pub in_op : Option (Op A)
  pub out_op : Option (Op A)

-- A socket is known by its place in `sockets`. `outstanding_work_` is a `long`, kept as its bit pattern.
pub record Service (A : Type 0) : Type 0 where
  pub outstanding_work : ℕ
  pub stopped : ℕ
  pub nthread : ℕ
  pub demultiplexing_thread : ℕ
  pub completed_ops : List (Option (Op A))
  pub sockets : List (Socket A)

abbrev pub new_service : {A : Type 0} → Service A
new_service = record {
  outstanding_work = 0;
  stopped = 0;
  nthread = 0;
  demultiplexing_thread = 0;
  completed_ops = [];
  sockets = [];
}

-- One turn of `pthread_cond_timedwait`: what other threads do meanwhile, and what it returns.
pub record Wake (A : Type 0) : Type 0 where
  pub meanwhile : Service A → Service A
  pub ret : ℕ

abbrev pub etimedout : ℕ
etimedout = 110

-- What `wait` hands out: the operation, its result, and the service.
abbrev pub Taken : Type 0 → Type 0
Taken A = Option (Op A) × ℤ × Service A

module _ {A : Type 0} where
  -- The end of `wait` with the queue not empty or `ret` not 0.
  pub popped : ℕ → List (Option (Op A)) → Service A → Taken A
  popped ret [] s = (none, if ret == etimedout then pos 0 else negsuc 0, s)
  popped ret (op ∷ q) s =
      if ret == 0
      then (op, pos (suc (length q)), record s { completed_ops = q })
      else (none, if ret == etimedout then pos 0 else negsuc 0, s)

  -- The loop of `wait` with a timeout; `none` is a thread that still waits when the turns are used up.
  pub wait_loop : List (Wake A) → ℕ → List (Option (Op A)) → Service A → Option (Taken A)
  unfolding popped
  wait_loop ws ret (op ∷ q) s = some (popped ret (op ∷ q) s)
  wait_loop [] ret [] s = if ret == 0 then none else some (popped ret [] s)
  wait_loop (w ∷ ws) ret [] s =
      let s' = w.meanwhile s in
      let woken = wait_loop ws w.ret s'.completed_ops s' in
      if ret == 0 then woken else some (popped ret [] s)

  -- `wait` with a timeout above 0, as `do_one` calls it.
  pub wait : List (Wake A) → Service A → Option (Taken A)
  unfolding wait_loop
  wait ws s = wait_loop ws 0 s.completed_ops s

  abbrev pub mark_ready : Option (Op A) → Option (Op A)
  mark_ready none = none
  mark_ready (some op) = some (record op { ready = 1 })

  pub post_deferred_completion : Option (Op A) → Service A → Service A
  post_deferred_completion op s = record s {
    completed_ops = s.completed_ops ++ (mark_ready op ∷ []);
  }

  pub on_completion : Op A → ErrorCode → ℕ → Service A → Service A
  unfolding post_deferred_completion
  on_completion op ec bytes s =
      post_deferred_completion (some (record op { ec = ec; bytes_transferred = bytes })) s

  pub work_started : Service A → Service A
  work_started s = record s { outstanding_work = (s.outstanding_work + 1) % 2 ^ 64 }

  pub stop : Service A → Service A
  unfolding post_deferred_completion
  stop s = if s.stopped == 0 then post_deferred_completion none (record s { stopped = 1 }) else s

  pub work_finished : Service A → Service A
  unfolding stop
  work_finished s =
      let s' = record s { outstanding_work = (s.outstanding_work + 2 ^ 64 - 1) % 2 ^ 64 } in
      if s'.outstanding_work == 0 then stop s' else s'

  -- The two forms of `post`.
  pub post : A → Service A → Service A
  unfolding work_started post_deferred_completion
  post a s = post_deferred_completion (some (new_op a)) (work_started s)

  pub post_error : A → ErrorCode → Service A → Service A
  unfolding work_started on_completion
  post_error a ec s = on_completion (new_op a) ec 0 (work_started s)

  pub get_epoll_timeout : Service A → ℕ
  get_epoll_timeout s =
      if s.nthread == 1 then (if length s.completed_ops == 0 then 100 else 0) else 0

-- ===== src/Service/Loop.antt =====
-- `service::do_one` and `service::run` of epoll_service.cpp. What the thread cannot decide itself comes in
-- rounds, one for each turn of the loop in `do_one`: what `epoll_wait` answers, and what
-- other threads do meanwhile. A list of rounds that is used up leaves the thread waiting: `blocked`.
use jnet_lib.Base.{
  ℕ, zero, suc, ◌+◌, ◌-◌, Bool, true, false, ◌||◌, Option, none, some, List, [], ◌∷◌, ◌==◌,
  if◌then◌else◌,
}
use jnet_lib.Base.Int.{pos, negsuc}
use jnet_lib.Errors.{ErrorCode, no_error, system_error}
use jnet_lib.Operation.{Op}
use jnet_lib.Posix.{Outcome, done, failed}
use jnet_lib.Posix.Errno
use jnet_lib.Service.{
  Service, Wake, Taken, wait, stop, post_deferred_completion, work_finished, get_epoll_timeout,
}
use jnet_lib.Service.Events.{Event, handle_events}

pub record Round (A : Type 0) : Type 0 where
  pub meanwhile : Service A → Service A
  pub epoll_wait : ℕ → Outcome (List Event)
  pub wakes : List (Wake A)

-- `returned` has the result of `do_one` and its error code, if it sets one.
pub data Result (A : Type 0) : Type 0 where
  returned : Bool → Option ErrorCode → Service A → Result A
  blocked : Service A → Result A
  crashed : Result A

module _ {A : Type 0} where
  abbrev pub entered : Service A → Service A
  entered s =
      let s' = if s.outstanding_work == 0 then stop s else s in
      record s' { nthread = s'.nthread + 1 }

  abbrev pub left : ℕ → Service A → Service A
  left thd s = record s {
    nthread = s.nthread - 1;
    demultiplexing_thread = if s.demultiplexing_thread == thd then 0 else s.demultiplexing_thread;
  }

  abbrev pub count_one : Option (ℕ × Service A) → Option (ℕ × Service A)
  count_one none = none
  count_one (some (n, s)) = some (suc n, s)

  -- After a call of `do_one`; `resume` makes the next ones.
  abbrev pub next_one : (Service A → Option (ℕ × Service A)) → Result A → Option (ℕ × Service A)
  next_one resume (returned true ec s) = count_one (resume s)
  next_one resume (returned false ec s) = some (0, s)
  next_one resume (blocked s) = none
  next_one resume crashed = none

  abbrev pub leave : ℕ → Option (ℕ × Service A) → Option (ℕ × Service A)
  leave thd none = none
  leave thd (some (n, s)) = some (n, left thd s)

-- `complete` of the operations, which may use the service.
module _ {A : Type 0} (complete : Op A → Service A → Service A) where
  -- What follows `wait`; `resume` is the next turn of the loop.
  unfoldable pub dispatch : (Service A → Result A) → Option (Taken A) → Service A → Result A
  dispatch resume none s = blocked s
  dispatch resume (some (some op, nop, s')) s =
      if op.ready == 0
      then resume s'
      else returned true (some no_error) (work_finished (complete op s'))
  dispatch resume (some (none, pos zero, s')) s = resume s'
  dispatch resume (some (none, negsuc n, s')) s = returned false none s'
  dispatch resume (some (none, pos (suc n), s')) s =
      if s'.stopped == 0
      then resume s'
      else returned false (some no_error) (post_deferred_completion none s')

  abbrev pub take_turn : (Service A → Result A) → Round A → Service A → Result A
  take_turn resume r s = dispatch resume (wait r.wakes s) s

  unfoldable pub after_events : (Service A → Result A) → Round A → Option (Service A) → Result A
  after_events resume r none = crashed
  after_events resume r (some s) = take_turn resume r s

  -- What follows `epoll_wait`.
  unfoldable pub polled :
      (Service A → Result A) → Round A → Outcome (List Event) → Service A → Result A
  polled resume r (done es) s = after_events resume r (handle_events es (some s))
  polled resume r (failed e) s =
      if e == Errno.intr then take_turn resume r s else returned false (some (system_error e)) s

  -- One turn of the loop of `do_one`, on the thread `thd`.
  unfoldable pub turn : ℕ → (Service A → Result A) → Round A → Service A → Result A
  turn thd resume r s =
      let old = s.demultiplexing_thread in
      let s' = if old == 0 then record s { demultiplexing_thread = thd } else s in
      if (old == 0) || (old == thd)
      then polled resume r (r.epoll_wait (get_epoll_timeout s')) (r.meanwhile s')
      else take_turn resume r s

  unfoldable pub do_one : ℕ → List (Round A) → Service A → Result A
  do_one thd [] s = blocked s
  do_one thd (r ∷ rs) s = turn thd (do_one thd rs) r s

  -- `while (do_one(ec)) ++n`, with the rounds of each call; `none` is a thread that has not returned.
  unfoldable pub run_loop : ℕ → List (List (Round A)) → Service A → Option (ℕ × Service A)
  unfolding do_one
  run_loop thd [] s = none
  run_loop thd (rs ∷ rss) s = next_one (run_loop thd rss) (do_one thd rs s)

  unfoldable pub run : ℕ → List (List (Round A)) → Service A → Option (ℕ × Service A)
  unfolding run_loop
  run thd rss s = leave thd (run_loop thd rss (entered s))

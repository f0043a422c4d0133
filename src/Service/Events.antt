-- ===== src/Service/Events.antt =====
-- The events of sockets: the part of `service::do_one` in epoll_service.cpp under `epoll_wait`, and
-- `wait_for_epollin` and `wait_for_epollout`. A write through a null pointer is `none`. The calls of `epoll_ctl`
-- tell the kernel what `wants_in` and `wants_out` hold; only the second pair reads their answer.
use jnet_lib.Base.{
  ℕ, ◌+◌, Bool, true, false, not, ◌&&◌, Option, none, some, List, [], ◌∷◌, get_elem?, set, ◌==◌,
  if◌then◌else◌,
}
use jnet_lib.Errors.{system_error, frame_error}
use jnet_lib.Errors.Code
use jnet_lib.Operation.{Op}
use jnet_lib.Service.{Socket, Service, post_deferred_completion, on_completion}

-- What `epoll_wait` reports of one socket, and the error that `so_error` then gives.
pub record Event : Type 0 where
  pub socket : ℕ
  pub is_in : Bool
  pub is_out : Bool
  pub is_err : Bool
  pub is_hup : Bool
  pub is_rdhup : Bool
  pub error : ℕ

-- `events & (EPOLLERR | EPOLLHUP | EPOLLRDHUP)`
abbrev pub flags : Event → ℕ
flags e =
    (if e.is_err then 0x8 else 0)
    + (if e.is_hup then 0x10 else 0)
    + (if e.is_rdhup then 0x2000 else 0)

module _ {A : Type 0} where
  -- What the event writes into the operation.
  unfoldable pub reported : Event → Op A → Op A
  reported e op =
      let op' = record op {
        ec = if e.is_err then system_error e.error else op.ec;
        epoll_flags = flags e;
      } in
      if not (flags e == 0) && not e.is_err
      then record op' { ec = frame_error Code.epoll_flag }
      else op'

  abbrev pub put : ℕ → Socket A → Service A → Service A
  put i k s = record s { sockets = set s.sockets i k }

  -- The operation that the exchange took, and the socket without it.
  unfoldable pub deliver : Event → Option (Op A) → Socket A → Service A → Option (Service A)
  unfolding reported
  deliver e none k s = if e.is_err then none else some (put e.socket k s)
  deliver e (some op) k s =
      some (post_deferred_completion (some (reported e op)) (put e.socket k s))

  unfoldable pub on_in : Event → Option (Socket A) → Service A → Option (Service A)
  unfolding deliver
  on_in e none s = none
  on_in e (some k) s =
      if e.is_in then deliver e k.in_op (record k { in_op = none; wants_in = false }) s else some s

  unfoldable pub on_out : Event → Option (Socket A) → Service A → Option (Service A)
  unfolding deliver
  on_out e none s = none
  on_out e (some k) s =
      if e.is_out
      then deliver e k.out_op (record k { out_op = none; wants_out = false }) s
      else some s

  abbrev pub then_out : Event → Option (Service A) → Option (Service A)
  then_out e none = none
  then_out e (some s) = on_out e (get_elem? s.sockets e.socket) s

  unfoldable pub handle_event : Event → Service A → Option (Service A)
  unfolding on_in
  handle_event e s = then_out e (on_in e (get_elem? s.sockets e.socket) s)

  unfoldable pub handle_events : List Event → Option (Service A) → Option (Service A)
  unfolding handle_event
  handle_events es none = none
  handle_events [] (some s) = some s
  handle_events (e ∷ es) (some s) = handle_events es (handle_event e s)

  -- `ret` is the answer of `epoll_ctl`, 0 or an errno, where it is called.
  unfoldable pub wait_for_epollin : ℕ → Op A → ℕ → Socket A → Service A → Service A × Bool
  wait_for_epollin i op ret k s =
      let s' = put i (record k { wants_in = true }) s in
      if not k.wants_in && not (ret == 0)
      then (on_completion op (system_error ret) 0 s', false)
      else (s', true)

  unfoldable pub wait_for_epollout : ℕ → Op A → ℕ → Socket A → Service A → Service A × Bool
  wait_for_epollout i op ret k s =
      let s' = put i (record k { wants_out = true }) s in
      if not k.wants_out && not (ret == 0)
      then (on_completion op (system_error ret) 0 s', false)
      else (s', true)

-- ===== src/Service/Register.antt =====
-- `socket_ops::begin_recv` and `begin_send` of epoll_socket.cpp: an operation waits for the event of a
-- socket. `i` is the place of the socket `k`, and `ret` the answer of `epoll_ctl`, as in Service.Events.
use jnet_lib.Base.{
  ℕ, ◌+◌, ◌^◌, ◌<◌, ◌≡◌, ap, inl, inr, ◌↔◌, true, false, not, ◌&&◌, none, some, get_elem?, ◌==◌,
  arith, Bool-cases,
}
use jnet_lib.Errors.{ErrorCode, system_error}
use jnet_lib.Operation.{Op}
use jnet_lib.Service.{Socket, Service, work_started, on_completion, post_deferred_completion}
use jnet_lib.Service.Events.{put, wait_for_epollin, wait_for_epollout}
use jnet_lib.Service.Balance.{
  IsBalanced, queued-append, held, put-IsBalanced, work_started-IsBalanced,
}

module _ {A : Type 0} where
  pub begin_recv : ℕ → Op A → ℕ → Socket A → Service A → Service A
  begin_recv i op ret k s =
      (wait_for_epollin i op ret (record k { in_op = some op }) (work_started s)).0

  pub begin_send : ℕ → Op A → ℕ → Socket A → Service A → Service A
  begin_send i op ret k s =
      (wait_for_epollout i op ret (record k { out_op = some op }) (work_started s)).0

  work_started-at :
      (i : ℕ) {k : Socket A} (s : Service A)
      → get_elem? s.sockets i ≡ some k
      → get_elem? (work_started s).sockets i ≡ some k
  unfolding work_started
  work_started-at i s at = at

  on_completion_unbalanced :
      {n : ℕ} (op : Op A) (ec : ErrorCode) {s : Service A}
      → IsBalanced n s
      → ¬ IsBalanced n (on_completion op ec 0 s)
  unfolding on_completion post_deferred_completion
  on_completion_unbalanced op ec {s} v w = omega (
    arith,
    v.balance,
    w.balance,
    queued-append s.completed_ops (some (record op { ready = 1; ec = ec; bytes_transferred = 0 })),
  )

  module _ {n : ℕ} (i : ℕ) (op : Op A) (ret : ℕ) {k : Socket A} {s : Service A} (v : IsBalanced n s)
      (room : s.outstanding_work + 1 < 2 ^ 64) (at : get_elem? s.sockets i ≡ some k) where
    -- On a balanced service with room for one more operation and a socket with no pending
    -- read, begin_recv leaves the service balanced exactly if epoll_ctl is not called or
    -- succeeds.
    pub begin_recv_lem :
        k.in_op ≡ none
        → IsBalanced n (begin_recv i op ret k s) ↔ ((not k.wants_in && not (ret == 0)) ≡ false)
    unfolding begin_recv wait_for_epollin
    begin_recv_lem e = (
      λ w. elim (Bool-cases (not k.wants_in && not (ret == 0))) [
        | inl y ↦ absurd (
            (let z : ¬ IsBalanced n (begin_recv i op ret k s) =
                  rw (begin_recv, wait_for_epollin, y)
                    (on_completion_unbalanced op (system_error ret) p) in
                z)
              w)
        | inr y ↦ y
      ],
      λ y. rw (begin_recv, wait_for_epollin, y) p,
    )
      where
        p : IsBalanced n (put i (record k { in_op = some op; wants_in = true }) (work_started s))
        p =
            put-IsBalanced n i _ (work_started-IsBalanced room v) (work_started-at i s at)
              (omega (arith, ap held e))

    pub begin_send_lem :
        k.out_op ≡ none
        → IsBalanced n (begin_send i op ret k s) ↔ ((not k.wants_out && not (ret == 0)) ≡ false)
    unfolding begin_send wait_for_epollout
    begin_send_lem e = (
      λ w. elim (Bool-cases (not k.wants_out && not (ret == 0))) [
        | inl y ↦ absurd (
            (let z : ¬ IsBalanced n (begin_send i op ret k s) =
                  rw (begin_send, wait_for_epollout, y)
                    (on_completion_unbalanced op (system_error ret) p) in
                z)
              w)
        | inr y ↦ y
      ],
      λ y. rw (begin_send, wait_for_epollout, y) p,
    )
      where
        p : IsBalanced n (put i (record k { out_op = some op; wants_out = true }) (work_started s))
        p =
            put-IsBalanced n i _ (work_started-IsBalanced room v) (work_started-at i s at)
              (omega (arith, ap held e))

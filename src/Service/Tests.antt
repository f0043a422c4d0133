-- ===== src/Service/Tests.antt =====
-- A service with a socket that waits for data, and one with three posted handlers, all numbers.
use jnet_lib.Base.{
  ℕ, suc, ◌≡◌, ◌≤◌, ◌↔◌, Option, List, refl, true, false, not, ◌&&◌, ◌||◌, none, some, [], ◌∷◌,
  ◌==◌, arith,
}
use jnet_lib.Base.Int.{pos}
use jnet_lib.Operation.{Op, new_op}
use jnet_lib.Posix.{done}
use jnet_lib.Service.{Socket, Service, new_service, post}
use jnet_lib.Service.Events.{Event, handle_event}
use jnet_lib.Service.NullWrite.{is_none, handle_event_null}
use jnet_lib.Service.Loop.{Round, do_one, run}
use jnet_lib.Service.Balance.{IsBalanced, post-IsCounted}
use jnet_lib.Service.Balance.Loop.{Counts, Ends, front-TakenCounts, do_one-Ends}
use jnet_lib.Service.Drain.{post_all, calls, leaves_alone, Drained, run-post_all}
use jnet_lib.Service.Register.{begin_recv, begin_recv_lem}

abbrev unused : Socket ℕ
unused = record { wants_in = false; wants_out = false; in_op = none; out_op = none }

abbrev waiting : Socket ℕ
waiting = record unused { wants_in = true; in_op = some (new_op 5) }

abbrev listening : Service ℕ
listening = record new_service { outstanding_work = 1; sockets = waiting ∷ [] }

abbrev readable : Event
readable = record {
  socket = 0;
  is_in = true;
  is_out = false;
  is_err = false;
  is_hup = false;
  is_rdhup = true;
  error = 0;
}

-- Another thread takes the operation at the front, and a callback posts a handler.
abbrev take_front : List (Option (Op ℕ)) → Service ℕ → Service ℕ
take_front (some op ∷ q) s = record s { completed_ops = q }
take_front (none ∷ q) s = s
take_front [] s = s

abbrev takes : Service ℕ → Service ℕ
takes s = take_front s.completed_ops s

abbrev posts : Op ℕ → Service ℕ → Service ℕ
posts op s = post 9 s

takes-Keeps : (n : ℕ) (s : Service ℕ) → Counts n s → (m : ℕ) × (n ≤ m) × Counts m (takes s)
takes-Keeps n s v = kept s.completed_ops refl
  where
    kept :
        (q : List (Option (Op ℕ)))
        → s.completed_ops ≡ q
        → (m : ℕ) × (n ≤ m) × Counts m (take_front q s)
    kept (some op ∷ q) e = (suc n, omega arith, (front-TakenCounts (some op) q (pos 0) e v).1)
    kept (none ∷ q) e = (n, omega arith, v)
    kept [] e = (n, omega arith, v)

abbrev hears : Round ℕ
hears = record { meanwhile = takes; epoll_wait = λ t. done (readable ∷ []); wakes = [] }

abbrev busy : Service ℕ
busy = record listening {
  outstanding_work = 2;
  completed_ops = some (record (new_op 4) { ready = 1 }) ∷ [];
}

do_one-Ends_example : Ends ◌≤◌ 0 (do_one posts 7 (hears ∷ []) busy)
do_one-Ends_example =
    do_one-Ends ◌≤◌ (λ n. omega arith) (λ l m n h i. omega (arith, h, i)) posts
      (λ op n s v. (n, omega arith, post-IsCounted 9 v.1)) 7 (hears ∷ []) 0 ((takes-Keeps, tt), tt)
      (0, record { balance = refl; small = omega arith; ready = (refl, tt) })

run-post_all_example :
    Drained 3 (run leaves_alone 7 (calls 3) (post_all (3 ∷ 1 ∷ 4 ∷ []) (new_service {A = ℕ})))
run-post_all_example = run-post_all 7 (3 ∷ 1 ∷ 4 ∷ []) (omega arith)

abbrev connected : Service ℕ
connected = record new_service { sockets = unused ∷ [] }

begin_recv_lem_example :
    IsBalanced 0 (begin_recv 0 (new_op 5) 2 unused connected)
    ↔ ((not false && not (2 == 0)) ≡ false)
begin_recv_lem_example =
    begin_recv_lem 0 (new_op 5) 2 (record { balance = refl; small = omega arith; ready = tt })
      (omega arith) refl refl

abbrev broken : Event
broken = record readable { is_err = true }

handle_event_null_example :
    is_none (handle_event broken connected)
    ≡ (true && ((true && is_none {A = Op ℕ} none) || (false && is_none {A = Op ℕ} none)))
handle_event_null_example = handle_event_null broken connected unused refl

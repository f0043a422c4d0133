-- ===== src/Fiber.antt =====
-- fiber_scheduler.cpp and fiber_socket.cpp: a fiber that waits for the operations of its socket, and the callbacks that
-- switch to it. The switch of the stack is a call of the platform; here it is a change of the stage.
pub mod Resumed
pub mod Progress
mod Tests
use jnet_lib.Base.{
  ℕ, ◌+◌, ◌-◌, ◌<◌, ◌≡◌, ◌⊎◌, Bool, true, false, Option, none, some, List, [], ◌∷◌, ◌++◌,
  if◌then◌else◌,
}
use jnet_lib.Errors.{ErrorCode, no_error}

-- `invoker` is the scheduler of the thread that switched to the fiber.
pub record Scheduler : Type 0 where
  pub invoker : Option ℕ
  pub free_flag : Bool
  pub freed : Bool

abbrev pub new_scheduler : Scheduler
new_scheduler = record { invoker = none; free_flag = false; freed = false }

-- The exchange at the head of `zwitch`; `none` when it fails.
pub acquire : ℕ → Scheduler → Option Scheduler
acquire t f = elim f.invoker [ none ↦ some (record f { invoker = some t }) | some _ ↦ none ]

-- The end of `zwitch`, after the fiber has switched back.
pub release : Scheduler → Scheduler
release f = if f.free_flag then record f { freed = true } else record f { invoker = none }

-- Where the fiber is: it was not switched to yet; it runs; it has started an operation and is to yield; it has
-- yielded; its routine has returned; it was switched to while it ran, or after it was freed.
pub data Stage : Type 0 where
  fresh running awaiting yielded returned corrupt : Stage

-- `operations` and `posts` count the operations and the calls of `on_post` that are to come. `completed` is what the
-- operations have completed with, and `results` what the calls of the fiber have returned.
pub record FiberSocket : Type 0 where
  pub fiber : Scheduler
  pub stage : Stage
  pub ec : ErrorCode
  pub bytes_transferred : ℕ
  pub operations : ℕ
  pub posts : ℕ
  pub completed : List (ErrorCode × ℕ)
  pub results : List (ErrorCode × ℕ)

pub new_fiber_socket : FiberSocket
new_fiber_socket = record {
  fiber = new_scheduler;
  stage = fresh;
  ec = no_error;
  bytes_transferred = 0;
  operations = 0;
  posts = 0;
  completed = [];
  results = [];
}

-- The fiber goes on: behind `yield` its call returns what the socket holds.
pub run_fiber : FiberSocket → Stage → FiberSocket
run_fiber s fresh = record s { stage = running }
run_fiber s yielded = record s {
  stage = running;
  results = s.results ++ ((s.ec, s.bytes_transferred) ∷ []);
}
run_fiber s running = record s { stage = corrupt }
run_fiber s awaiting = record s { stage = corrupt }
run_fiber s returned = record s { stage = corrupt }
run_fiber s corrupt = record s { stage = corrupt }

-- The first part of `switch_to`, up to the switch; when it fails the callback posts `on_post`.
abbrev pub switched : FiberSocket → Option Scheduler → FiberSocket
switched s none = record s { posts = s.posts + 1 }
switched s (some f) = run_fiber (record s { fiber = f }) s.stage

pub switch_to : ℕ → FiberSocket → FiberSocket
switch_to t s =
    if s.fiber.freed then record s { stage = corrupt } else switched s (acquire t s.fiber)

-- `on_sent` and `on_received`, on the thread `t`.
pub on_done : ℕ → ErrorCode → ℕ → FiberSocket → FiberSocket
on_done t ec n s = switch_to t (record s {
  ec = ec;
  bytes_transferred = n;
  operations = s.operations - 1;
  completed = s.completed ++ ((ec, n) ∷ []);
})

-- `on_connected` leaves the number of bytes as it is.
abbrev pub on_connected : ℕ → ErrorCode → FiberSocket → FiberSocket
on_connected t ec s = on_done t ec s.bytes_transferred s

pub on_post : ℕ → FiberSocket → FiberSocket
on_post t s = switch_to t (record s { posts = s.posts - 1 })

-- What the threads and the fiber do. A connect ends as any operation, with the number of bytes of the one before.
pub data Step (s : FiberSocket) : FiberSocket → Type 0 where
  invoke : (t : ℕ) → s.stage ≡ fresh → s.fiber.invoker ≡ none → Step s (switch_to t s)
  start_operation :
      s.stage ≡ running → Step s (record s { stage = awaiting; operations = s.operations + 1 })
  yield : s.stage ≡ awaiting → Step s (record s { stage = yielded })
  return :
      s.stage ≡ running
      → Step s (record s { stage = returned; fiber = record s.fiber { free_flag = true } })
  switch_back :
      (t : ℕ)
      → (s.stage ≡ yielded) ⊎ (s.stage ≡ returned)
      → s.fiber.invoker ≡ some t
      → s.fiber.freed ≡ false
      → Step s (record s { fiber = release s.fiber })
  done : (t : ℕ) (ec : ErrorCode) (n : ℕ) → 0 < s.operations → Step s (on_done t ec n s)
  post : (t : ℕ) → 0 < s.posts → Step s (on_post t s)

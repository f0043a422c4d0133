-- ===== src/Fiber/Tests.antt =====
-- An operation that completes before its fiber has yielded.
use jnet_lib.Base.{◌≡◌, ◌⊎◌, refl, false, some, [], ◌∷◌, inl, arith}
use jnet_lib.Errors.{no_error}
use jnet_lib.Fiber.{
  FiberSocket, new_fiber_socket, running, awaiting, returned, acquire, release, run_fiber,
  switch_to, on_done, on_post, invoke, start_operation, yield, switch_back, done, post,
}
use jnet_lib.Fiber.Progress.{CanRun, Steps-CanRun}
use jnet_lib.Fiber.Resumed.{IsScheduled, Steps, start, next, Steps-IsScheduled}

abbrev resumed : FiberSocket
resumed = record {
  fiber = record { invoker = some 2; free_flag = false; freed = false };
  stage = running;
  ec = no_error;
  bytes_transferred = 5;
  operations = 0;
  posts = 0;
  completed = (no_error, 5) ∷ [];
  results = (no_error, 5) ∷ [];
}

resumed-Steps : Steps new_fiber_socket resumed
unfolding new_fiber_socket acquire release run_fiber switch_to on_done on_post
resumed-Steps =
    next
      (next
        (next
          (next (next (next start (invoke 1 refl refl)) (start_operation refl))
            (done 2 no_error 5 (omega arith)))
          (yield refl))
        (switch_back 1 (inl refl) refl refl))
      (post 2 (omega arith))

Steps-IsScheduled_example : IsScheduled resumed
Steps-IsScheduled_example = Steps-IsScheduled resumed-Steps

-- The fiber has started a receive.
abbrev receiving : FiberSocket
receiving = record new_fiber_socket {
  fiber = record { invoker = some 1; free_flag = false; freed = false };
  stage = awaiting;
  operations = 1;
}

receiving-Steps : Steps new_fiber_socket receiving
unfolding new_fiber_socket acquire run_fiber switch_to
receiving-Steps = next (next start (invoke 1 refl refl)) (start_operation refl)

Steps-CanRun_example : (awaiting ≡ returned) ⊎ CanRun receiving
Steps-CanRun_example = Steps-CanRun receiving-Steps

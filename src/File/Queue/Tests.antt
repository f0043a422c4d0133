-- ===== src/File/Queue/Tests.antt =====
-- Two entries, of which the file thread has handled the first.
use jnet_lib.Base.{◌≡◌, refl, true, List, ℕ, [], ◌∷◌}
use jnet_lib.File.Queue.{
  Thread, begin, pop, wake, take_entry, handle, Steps, here, next, begins, wakes, takes, handles,
  idle_thread,
}
use jnet_lib.File.Queue.Order.{IsInOrder, Steps-IsInOrder}

abbrev one : Thread
one = record idle_thread { queue = begin 7 idle_thread.queue; begun = 7 ∷ [] }

abbrev two : Thread
two = record one { queue = begin 9 one.queue; begun = 7 ∷ 9 ∷ [] }

abbrev half : Thread
half = handle 7 (take_entry (wake two))

half_test : half.handled ≡ 7 ∷ []
unfolding handle take_entry wake
half_test = refl

signaled_test : half.queue.signaled ≡ true
unfolding handle take_entry wake begin pop
signaled_test = refl

run_test : Steps idle_thread half
unfolding handle take_entry wake begin pop
run_test =
    next
      (next
        (next (next (next here (begins 7 refl refl)) (begins 9 refl refl)) (wakes refl refl refl))
        (takes refl refl))
      (handles 7 refl refl)

Steps-IsInOrder_example : (xs : List ℕ) × IsInOrder half xs
Steps-IsInOrder_example = Steps-IsInOrder run_test

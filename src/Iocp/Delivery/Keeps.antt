-- ===== src/Iocp/Delivery/Keeps.antt =====
-- AllSound step of the threads and the kernel keeps every operation where it can be.
use jnet_lib.Base.{
  ℕ, ◌+◌, ◌-◌, ◌<◌, ◌≡◌, inl, inr, refl, sym, ap, ap₂, ◌∙◌, Bool, true, false, not, Bool-cases,
  Option, none, some, List, [], ◌∷◌, ◌++◌, ◌==◌, arith,
}
use jnet_lib.Iocp.{
  Packet, from_kernel, contains_result, interrupt, wake_for_dispatch, Service, new_service, stop,
  acquire_dispatch, dispatch_completed, take_interrupt, take_packet, finish, Step, begins, fails,
  posts, kernel, returns, takes, claims, finishes, acquires, dispatches, stops, Steps, here, next,
}
use jnet_lib.Iocp.Delivery.{
  bit, fresh_in, result_in, count, view, IsSound, is_complete, in_kernel, is_taken, is_caught,
  waits,
}
use jnet_lib.Iocp.Delivery.Post.{==_same}
use jnet_lib.Iocp.Delivery.Begin.{
  AllSound, at_each, unseen, begin_overlapped-AllSound, begin_completed-AllSound,
  begin_posted-AllSound, kernel_completes-AllSound,
}
use jnet_lib.Iocp.Delivery.Moves.{
  quiet_append, end_overlapped-AllSound, claim-AllSound, stop-view, work_finished-view,
  acquire_dispatch-view, post_deferred_completions-view,
}

dispatch_completed-AllSound : (n : ℕ) (s : Service) → AllSound s → AllSound (dispatch_completed n s)
unfolding dispatch_completed
dispatch_completed-AllSound n s h =
    unseen s (dispatch_completed n s)
      (λ j.
        post_deferred_completions-view n s.completed_ops
          (record s { completed_ops = []; dispatchers = s.dispatchers - 1 }) j
          (λ l. listed j l (h j))
        ∙ ap (λ n. record (view s j) { results = n }) (omega arith))
      h
  where
    listed : (j : ℕ) → 0 < count j s.completed_ops → IsSound (view s j) → s.ready j ≡ true
    listed j l (is_complete a f c h u) = absurd (omega (arith, c, l))
    listed j l (in_kernel a f c h u) = absurd (omega (arith, c, l))
    listed j l (is_taken a f c h d u) = absurd (omega (arith, c, l))
    listed j l (is_caught a b f c h d u) = b
    listed j l (waits a b f c h d u) = b

module _ (error : Option ℕ) (ps : List Packet) (s : Service) where
  take_kernel-AllSound :
      (k : ℕ)
      → s.port ≡ from_kernel k ∷ ps
      → AllSound s
      → AllSound (take_packet error (from_kernel k) ps s).0
  unfolding take_packet
  take_kernel-AllSound k e h =
      at_each s (take_packet error (from_kernel k) ps s).0 k (own (h k)) other h
    where
      in_port : (j : ℕ) → fresh_in j s.port ≡ bit (j == k) + fresh_in j ps
      in_port j = ap (fresh_in j) e

      results_in_port : (j : ℕ) → result_in j s.port ≡ result_in j ps
      results_in_port j = ap (result_in j) e

      own : IsSound (view s k) → IsSound (view (take_packet error (from_kernel k) ps s).0 k)
      own (is_complete a f c l u) = absurd (omega (arith, f, in_port k, ap bit (==_same k)))
      own (in_kernel a f c l u) = rw (==_same k) (
          is_taken a (omega (arith, f, in_port k, ap bit (==_same k)))
            (omega (arith, c, results_in_port k)) (ap (λ l. l ++ (s.outcome k ∷ [])) l) refl u)
      own (is_taken a f c l d u) = absurd (omega (arith, f, in_port k, ap bit (==_same k)))
      own (is_caught a b f c l d u) = absurd (omega (arith, f, in_port k, ap bit (==_same k)))
      own (waits a b f c l d u) = absurd (omega (arith, f, in_port k, ap bit (==_same k)))

      other :
          (j : ℕ) → (j == k) ≡ false → view (take_packet error (from_kernel k) ps s).0 j ≡ view s j
      other j d = rw d (
          ap₂ (λ n m. record (view s j) { fresh = n; results = m })
            (omega (arith, in_port j, ap bit d)) (omega (arith, results_in_port j)))

  take_result-AllSound :
      (k : ℕ)
      → s.port ≡ contains_result k ∷ ps
      → AllSound s
      → AllSound (take_packet error (contains_result k) ps s).0
  unfolding take_packet
  take_result-AllSound k e h =
      at_each s (take_packet error (contains_result k) ps s).0 k (own (h k)) other h
    where
      in_port : (j : ℕ) → fresh_in j s.port ≡ fresh_in j ps
      in_port j = ap (fresh_in j) e

      results_in_port : (j : ℕ) → result_in j s.port ≡ bit (j == k) + result_in j ps
      results_in_port j = ap (result_in j) e

      own : IsSound (view s k) → IsSound (view (take_packet error (contains_result k) ps s).0 k)
      own (is_complete a f c l u) = absurd (omega (arith, c, results_in_port k, ap bit (==_same k)))
      own (in_kernel a f c l u) = absurd (omega (arith, c, results_in_port k, ap bit (==_same k)))
      own (is_taken a f c l d u) = absurd (omega (arith, c, results_in_port k, ap bit (==_same k)))
      own (is_caught a b f c l d u) =
          absurd (omega (arith, c, results_in_port k, ap bit (==_same k)))
      own (waits a b f c l d u) = rw (==_same k) (
          is_taken (a ∙ sym (ap not b)) (omega (arith, f, in_port k))
            (omega (arith, c, results_in_port k, ap bit (==_same k)))
            (ap₂ (λ l r. l ++ (r ∷ [])) l d) d u)

      other :
          (j : ℕ)
          → (j == k) ≡ false
          → view (take_packet error (contains_result k) ps s).0 j ≡ view s j
      other j d = rw d (
          ap₂ (λ n m. record (view s j) { fresh = n; results = m }) (omega (arith, in_port j))
            (omega (arith, results_in_port j, ap bit d)))

  -- A packet without an operation is gone.
  quiet_take :
      (p : Packet) (j : ℕ)
      → fresh_in j (p ∷ ps) ≡ fresh_in j ps
      → result_in j (p ∷ ps) ≡ result_in j ps
      → s.port ≡ p ∷ ps
      → view (record s { port = ps }) j ≡ view s j
  quiet_take p j f r e =
      ap₂ (λ n m. record (view s j) { fresh = n; results = m })
        (omega (arith, f, ap (fresh_in j) e)) (omega (arith, r, ap (result_in j) e))

take_interrupt-view :
    (error : Option ℕ) (ps : List Packet) (s : Service) (j : ℕ)
    → s.port ≡ interrupt ∷ ps
    → view (take_packet error interrupt ps s).0 j ≡ view s j
unfolding take_packet take_interrupt
take_interrupt-view none ps s j e = elim (Bool-cases s.stopped) [
  | inl d ↦ rw d (
      quiet_append (record s { port = ps }) j interrupt refl refl
      ∙ quiet_take none ps s interrupt j refl refl e)
  | inr d ↦ rw d (quiet_take none ps s interrupt j refl refl e)
]
take_interrupt-view (some n) ps s j e = elim (Bool-cases s.stopped) [
  | inl d ↦ rw d (quiet_take none ps s interrupt j refl refl e)
  | inr d ↦ rw d (quiet_take none ps s interrupt j refl refl e)
]

pub Step-AllSound : {s s' : Service} → Step s s' → AllSound s → AllSound s'
unfolding take_packet finish
Step-AllSound {s} (begins k r e) h = begin_overlapped-AllSound k r s e h
Step-AllSound {s} (fails ok k r e) h = begin_completed-AllSound ok k r s e h
Step-AllSound {s} (posts ok k e) h = begin_posted-AllSound ok k s e h
Step-AllSound {s} (kernel k e) h = kernel_completes-AllSound k s e h
Step-AllSound {s} (returns ok k e) h = end_overlapped-AllSound ok k s e h
Step-AllSound {s} (takes error (from_kernel k) ps e) h = take_kernel-AllSound error ps s k e h
Step-AllSound {s} (takes error (contains_result k) ps e) h = take_result-AllSound error ps s k e h
Step-AllSound {s} (takes error interrupt ps e) h =
    unseen s (take_packet error interrupt ps s).0 (λ j. take_interrupt-view error ps s j e) h
Step-AllSound {s} (takes error wake_for_dispatch ps e) h =
    unseen s (take_packet error wake_for_dispatch ps s).0
      (λ j. quiet_take error ps s wake_for_dispatch j refl refl e) h
Step-AllSound {s} (claims k r rest e) h = claim-AllSound k r rest s e h
Step-AllSound {s} (finishes error l) h =
    unseen s (finish error s)
      (λ j. work_finished-view error (record s { finishing = s.finishing - 1 }) j) h
Step-AllSound {s} acquires h = unseen s (acquire_dispatch s) (acquire_dispatch-view s) h
Step-AllSound {s} (dispatches n l) h = dispatch_completed-AllSound n s h
Step-AllSound {s} (stops error) h = unseen s (stop error s).0 (stop-view error s) h

-- In every history of the Windows service, whatever the kernel does, however the threads
-- interleave and whichever calls of PostQueuedCompletionStatus fail: each operation that was
-- started has been completed as often as it was started or once less, with the results that
-- the kernel or on_completion gave it, in their order; and one that is not complete is in
-- exactly one place: with the kernel or in its packet, taken by a thread, caught before its
-- initiating function returned, or its result waits in the port or in completed_ops_.
pub Steps-AllSound : (b : Bool) {s : Service} → Steps (new_service b) s → AllSound s
unfolding new_service
Steps-AllSound b here j = is_complete refl refl refl refl refl
Steps-AllSound b (next h a) j = Step-AllSound a (Steps-AllSound b h) j

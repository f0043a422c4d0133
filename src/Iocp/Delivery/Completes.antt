-- ===== src/Iocp/Delivery/Completes.antt =====
-- An operation that is not complete can be completed.
use jnet_lib.Base.{
  ℕ, ◌+◌, ◌-◌, ◌<◌, ◌≡◌, inl, inr, refl, sym, ap, ◌∙◌, Bool, true, false, not, Bool-cases, [], ◌∷◌,
  ◌++◌, length, update_self, arith,
}
use jnet_lib.Iocp.{
  Result, from_kernel, contains_result, Service, new_service, acquire_dispatch, dispatch_completed,
  claim, kernel_completes, end_overlapped, on_pending, kernel, returns, claims, acquires,
  dispatches, Steps, here, next,
}
use jnet_lib.Iocp.Delivery.{
  bit, fresh_in, result_in, fresh_in-append, result_in-append, count, view, IsSound, is_complete,
  in_kernel, is_taken, is_caught, waits,
}
use jnet_lib.Iocp.Delivery.Post.{==_same}
use jnet_lib.Iocp.Delivery.Begin.{AllSound}
use jnet_lib.Iocp.Delivery.Keeps.{Steps-AllSound}
use jnet_lib.Iocp.Delivery.Moves.{acquire_dispatch-view, post_deferred_completions-view}
use jnet_lib.Iocp.Delivery.Noticed.{IsNoticed, Steps-IsNoticed, deferred_in}
use jnet_lib.Iocp.Delivery.Drain.{joined}
use jnet_lib.Iocp.Delivery.Taken.{keeps_sound, Taken, port-Taken}

-- Some history completes what was started of the operation.
pub record CanComplete (k : ℕ) (s : Service) : Type 0 where
  pub state : Service
  pub steps : Steps s state
  pub none_begun : state.begun k ≡ s.begun k
  pub completed : state.completed k ≡ s.begun k

after_steps :
    (k : ℕ) {s t : Service} → Steps s t → t.begun k ≡ s.begun k → CanComplete k t → CanComplete k s
after_steps k h b c = record {
  state = c.state;
  steps = joined h c.steps;
  none_begun = c.none_begun ∙ b;
  completed = c.completed ∙ b;
}

claim_ready :
    (k : ℕ) (r : Result) (s : Service)
    → s.ready k ≡ true
    → ((claim k r [] s).completed k ≡ s.completed k ++ (r ∷ []))
      × ((claim k r [] s).begun k ≡ s.begun k)
unfolding claim
claim_ready k r s e = rw e (update_self s.completed k (s.completed k ++ (r ∷ [])), refl)

claim_early :
    (k : ℕ) (r : Result) (s : Service)
    → s.ready k ≡ false
    → ((claim k r [] s).ready k ≡ true)
      × ((claim k r [] s).starting k ≡ s.starting k)
      × ((claim k r [] s).begun k ≡ s.begun k)
unfolding claim
claim_early k r s e = rw e (update_self s.ready k true, refl, refl)

-- It is ready, so that the thread calls `complete`.
ready-CanComplete : (k : ℕ) (s t : Service) → Taken k s t → t.ready k ≡ true → CanComplete k s
ready-CanComplete k s t w e =
    let c = claim_ready k (t.outcome k) t e in
    record {
      state = claim k (t.outcome k) [] t;
      steps = next w.steps (claims k (t.outcome k) [] w.held);
      none_begun = c.1 ∙ w.none_begun;
      completed = c.0 ∙ sym w.under_way ∙ w.none_begun;
    }

port-CanComplete :
    (k : ℕ) (s : Service)
    → AllSound s
    → s.ready k ≡ true
    → 0 < fresh_in k s.port + result_in k s.port
    → CanComplete k s
port-CanComplete k s a e l =
    let w = port-Taken k s a l in ready-CanComplete k s w.0 w.1 (w.1.ready ∙ e)

-- The initiating function returns, and finds the result.
returned :
    (k : ℕ) (s : Service)
    → s.ready k ≡ true
    → (0 < result_in k (end_overlapped true k s).port)
      × ((end_overlapped true k s).ready k ≡ true)
      × ((end_overlapped true k s).begun k ≡ s.begun k)
unfolding end_overlapped on_pending
returned k s e =
    rw e (
      omega (arith, result_in-append k s.port (contains_result k ∷ []), ap bit (==_same k)),
      e,
      refl,
    )

caught-CanComplete :
    (k : ℕ) (s : Service) → AllSound s → s.starting k ≡ true → s.ready k ≡ true → CanComplete k s
caught-CanComplete k s a g e =
    let r = returned k s e in
    let h : Steps s (end_overlapped true k s) = next here (returns true k g) in
    after_steps k h r.2
      (port-CanComplete k (end_overlapped true k s) (keeps_sound h a) r.1 (omega (arith, r.0)))

taken-CanComplete : (k : ℕ) (s t : Service) → AllSound s → Taken k s t → CanComplete k s
taken-CanComplete k s t a w = elim (Bool-cases (t.ready k)) [
  | inl e ↦ ready-CanComplete k s t w e
  | inr e ↦
      let c = claim_early k (t.outcome k) t e in
      let h : Steps s (claim k (t.outcome k) [] t) =
        next w.steps (claims k (t.outcome k) [] w.held) in
      after_steps k h (c.2 ∙ w.none_begun) (
        caught-CanComplete k (claim k (t.outcome k) [] t) (keeps_sound h a)
          (c.1 ∙ w.starting ∙ ap not e) c.0)
]

-- A thread that has cleared `dispatch_required` posts every result of the list.
dispatched-CanComplete :
    (k : ℕ) (s : Service)
    → AllSound s
    → 0 < s.dispatchers
    → s.ready k ≡ true
    → 0 < result_in k s.port + count k s.completed_ops
    → CanComplete k s
unfolding dispatch_completed
dispatched-CanComplete k s a d e l =
    let n = length s.completed_ops in
    let s' = record s { completed_ops = []; dispatchers = s.dispatchers - 1 } in
    let h : Steps s (dispatch_completed n s) = next here (dispatches n d) in
    let v = post_deferred_completions-view n s.completed_ops s' k (λ x. e) in
    let i = deferred_in k n s.completed_ops s' (omega arith) in
    after_steps k h (ap (λ v. v.begun) v) (
      port-CanComplete k (dispatch_completed n s) (keeps_sound h a) (ap (λ v. v.ready) v ∙ e)
        (omega (arith, i, l)))

acquired :
    (s : Service)
    → s.dispatch_required ≡ true
    → (0 < (acquire_dispatch s).dispatchers)
      × ((acquire_dispatch s).port ≡ s.port)
      × ((acquire_dispatch s).completed_ops ≡ s.completed_ops)
unfolding acquire_dispatch
acquired s e = rw e (omega arith, refl, refl)

-- A result that waits is found: in the port, or by way of `completed_ops_`.
waits-CanComplete :
    (k : ℕ) (s : Service)
    → AllSound s
    → IsNoticed s
    → s.ready k ≡ true
    → 0 < result_in k s.port + count k s.completed_ops
    → CanComplete k s
waits-CanComplete k s a (inl o) e l = port-CanComplete k s a e (omega (arith, l, ap (count k) o))
waits-CanComplete k s a (inr (inr d)) e l = dispatched-CanComplete k s a d e l
waits-CanComplete k s a (inr (inl q)) e l =
    let h : Steps s (acquire_dispatch s) = next here acquires in
    let v = acquire_dispatch-view s k in
    let c = acquired s q in
    after_steps k h (ap (λ v. v.begun) v) (
      dispatched-CanComplete k (acquire_dispatch s) (keeps_sound h a) c.0 (ap (λ v. v.ready) v ∙ e)
        (omega (arith, l, ap (result_in k) c.1, ap (count k) c.2)))

kernel-CanComplete :
    (k : ℕ) (s : Service)
    → AllSound s
    → bit (s.accepted k) + fresh_in k s.port ≡ 1
    → CanComplete k s
kernel-CanComplete k s a f = elim (Bool-cases (s.accepted k)) [
  | inl e ↦
      (let h : Steps s (kernel_completes k s) = next here (kernel k e) in
        let w =
          port-Taken k (kernel_completes k s) (keeps_sound h a)
            (omega (arith, fresh_in-append k s.port (from_kernel k ∷ []), ap bit (==_same k))) in
        after_steps k h refl (taken-CanComplete k (kernel_completes k s) w.0 (keeps_sound h a) w.1))
  | inr e ↦
      (let w = port-Taken k s a (omega (arith, f, ap bit e)) in taken-CanComplete k s w.0 a w.1)
]

at-CanComplete :
    (k : ℕ) (s : Service) → AllSound s → IsNoticed s → IsSound (view s k) → CanComplete k s
at-CanComplete k s a n (is_complete g f c l u) = record {
  state = s;
  steps = here;
  none_begun = refl;
  completed = sym u;
}
at-CanComplete k s a n (in_kernel g f c l u) = kernel-CanComplete k s a f
at-CanComplete k s a n (is_taken g f c l d u) = taken-CanComplete k s s a (record {
  steps = here;
  ready = refl;
  starting = g;
  none_begun = refl;
  held = l;
  under_way = u;
})
at-CanComplete k s a n (is_caught g e f c l d u) = caught-CanComplete k s a g e
at-CanComplete k s a n (waits g e f c l d u) = waits-CanComplete k s a n e (omega (arith, c))

-- After every history of the Windows service, whatever was posted, put back or stopped, and
-- whichever calls of PostQueuedCompletionStatus have failed, and for every operation: some
-- history goes on to where the operation has been completed with all results that were begun,
-- in their order, and was not started again.
pub Steps-CanComplete : (b : Bool) (k : ℕ) {s : Service} → Steps (new_service b) s → CanComplete k s
Steps-CanComplete b k {s} h =
    let a = Steps-AllSound b h in at-CanComplete k s a (Steps-IsNoticed b h) (a k)

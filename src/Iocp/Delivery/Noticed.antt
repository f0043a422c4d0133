-- ===== src/Iocp/Delivery/Noticed.antt =====
-- What could not be posted is not forgotten.
use jnet_lib.Base.{
  ℕ, zero, suc, ◌+◌, ◌-◌, ◌%◌, ◌^◌, ◌<◌, ◌≤◌, ◌≡◌, ◌⊎◌, inl, inr, refl, sym, subst, Bool, true,
  false, Bool-cases, Option, none, some, List, [], ◌∷◌, ◌++◌, length, update, ◌==◌, arith,
  if◌then◌else◌,
}
use jnet_lib.Iocp.{
  Result, Packet, from_kernel, contains_result, interrupt, wake_for_dispatch, Service, new_service,
  stop, work_started, work_finished, post_packet, post_deferred_completion, on_completion,
  begin_overlapped, begin_completed, begin_posted, acquire_dispatch, dispatch_completed,
  post_deferred_completions, take_interrupt, take_packet, claim, end_overlapped, on_pending, finish,
  Step, begins, fails, posts, kernel, returns, takes, claims, finishes, acquires, dispatches, stops,
  Steps, here, next,
}
use jnet_lib.Iocp.Delivery.{result_in, result_in-append, count}

-- If operations are in `completed_ops_`, `dispatch_required_` is set, or a thread has cleared it and comes to them.
abbrev pub IsNoticed : Service → Type 0
IsNoticed s = (s.completed_ops ≡ []) ⊎ ((s.dispatch_required ≡ true) ⊎ (0 < s.dispatchers))

post_packet-IsNoticed :
    (ok : Bool) (k : ℕ) (s : Service) → IsNoticed s → IsNoticed (post_packet ok k s)
post_packet-IsNoticed true k s n = n
post_packet-IsNoticed false k s n = inr (inl refl)

pending-IsNoticed : (ok : Bool) (k : ℕ) (s : Service) → IsNoticed s → IsNoticed (on_pending ok k s)
unfolding on_pending
pending-IsNoticed ok k s n = elim (Bool-cases (s.ready k)) [
  | inl e ↦ rw e (post_packet-IsNoticed ok k s n)
  | inr e ↦ rw e n
]

deferred-IsNoticed :
    (i : ℕ) (ks : List ℕ) (s : Service) → IsNoticed s → IsNoticed (post_deferred_completions i ks s)
unfolding post_deferred_completions
deferred-IsNoticed i [] s n = n
deferred-IsNoticed zero (k ∷ ks) s n = inr (inl refl)
deferred-IsNoticed (suc i) (k ∷ ks) s n =
    deferred-IsNoticed i ks
      (record s { ready = update s.ready k true; port = s.port ++ (contains_result k ∷ []) }) n

stop-IsNoticed : (error : Option ℕ) (s : Service) → IsNoticed s → IsNoticed (stop error s).0
unfolding stop
stop-IsNoticed none s n = elim (Bool-cases s.stopped) [ inl e ↦ rw e n | inr e ↦ rw e n ]
stop-IsNoticed (some k) s n = elim (Bool-cases s.stopped) [ inl e ↦ rw e n | inr e ↦ rw e n ]

work_finished-IsNoticed :
    (error : Option ℕ) (s : Service) → IsNoticed s → IsNoticed (work_finished error s)
unfolding work_finished
work_finished-IsNoticed error s n =
    let s' = record s { outstanding_work = (s.outstanding_work + 2 ^ 32 - 1) % 2 ^ 32 } in
    elim (Bool-cases (s'.outstanding_work == 0)) [
      | inl e ↦ rw e (stop-IsNoticed error s' n)
      | inr e ↦ rw e n
    ]

take-IsNoticed :
    (error : Option ℕ) (p : Packet) (ps : List Packet) (s : Service)
    → IsNoticed s
    → IsNoticed (take_packet error p ps s).0
unfolding take_packet take_interrupt
take-IsNoticed error (from_kernel k) ps s n = n
take-IsNoticed error (contains_result k) ps s n = n
take-IsNoticed error wake_for_dispatch ps s n = n
take-IsNoticed none interrupt ps s n = elim (Bool-cases s.stopped) [
  | inl e ↦ rw e n
  | inr e ↦ rw e n
]
take-IsNoticed (some k) interrupt ps s n = elim (Bool-cases s.stopped) [
  | inl e ↦ rw e n
  | inr e ↦ rw e n
]

claim-IsNoticed :
    (k : ℕ) (r : Result) (rest : List Result) (s : Service)
    → IsNoticed s
    → IsNoticed (claim k r rest s)
unfolding claim
claim-IsNoticed k r rest s n = elim (Bool-cases (s.ready k)) [ inl e ↦ rw e n | inr e ↦ rw e n ]

acquire-IsNoticed : (s : Service) → IsNoticed s → IsNoticed (acquire_dispatch s)
unfolding acquire_dispatch
acquire-IsNoticed s n = elim (Bool-cases s.dispatch_required) [
  | inl e ↦ subst (λ b. IsNoticed (if b then dispatching else s)) (sym e) (inr (inr (omega arith)))
  | inr e ↦ subst (λ b. IsNoticed (if b then dispatching else s)) (sym e) n
]
  where
    dispatching : Service
    dispatching = record s { dispatch_required = false; dispatchers = s.dispatchers + 1 }

Step-IsNoticed : {s s' : Service} → Step s s' → IsNoticed s → IsNoticed s'
unfolding begin_overlapped begin_completed begin_posted on_completion post_deferred_completion
    work_started end_overlapped finish dispatch_completed
Step-IsNoticed {s} (begins k r e) n = n
Step-IsNoticed {s} (fails ok k r e) n = post_packet-IsNoticed ok k _ n
Step-IsNoticed {s} (posts ok k e) n = post_packet-IsNoticed ok k _ n
Step-IsNoticed {s} (kernel k e) n = n
Step-IsNoticed {s} (returns ok k e) n =
    pending-IsNoticed ok k (record s { starting = update s.starting k false }) n
Step-IsNoticed {s} (takes error p ps e) n = take-IsNoticed error p ps s n
Step-IsNoticed {s} (claims k r rest e) n = claim-IsNoticed k r rest s n
Step-IsNoticed {s} (finishes error l) n =
    work_finished-IsNoticed error (record s { finishing = s.finishing - 1 }) n
Step-IsNoticed {s} acquires n = acquire-IsNoticed s n
Step-IsNoticed {s} (dispatches i l) n =
    deferred-IsNoticed i s.completed_ops
      (record s { completed_ops = []; dispatchers = s.dispatchers - 1 }) (inl refl)
Step-IsNoticed {s} (stops error) n = stop-IsNoticed error s n

pub Steps-IsNoticed : (b : Bool) {s : Service} → Steps (new_service b) s → IsNoticed s
unfolding new_service
Steps-IsNoticed b here = inl refl
Steps-IsNoticed b (next h a) = Step-IsNoticed a (Steps-IsNoticed b h)

-- A dispatch that can post enough puts every result of the list into the port.
pub deferred_in :
    (k i : ℕ) (ks : List ℕ) (s : Service)
    → length ks ≤ i
    → result_in k (post_deferred_completions i ks s).port ≡ result_in k s.port + count k ks
unfolding post_deferred_completions
deferred_in k i [] s l = omega arith
deferred_in k zero (j ∷ ks) s l = absurd (omega (arith, l))
deferred_in k (suc i) (j ∷ ks) s l =
    let s' = record s {
      ready = update s.ready j true;
      port = s.port ++ (contains_result j ∷ []);
    } in
    omega (
      arith,
      deferred_in k i ks s' (omega (arith, l)),
      result_in-append k s.port (contains_result j ∷ []),
    )

-- ===== src/Iocp/Delivery/Moves.antt =====
-- An initiating function returns, a thread claims an operation, and the list of completed operations is posted.
use jnet_lib.Base.{
  ℕ, zero, suc, ◌+◌, ◌-◌, ◌^◌, ◌%◌, ◌<◌, ◌≡◌, inl, inr, refl, sym, ap, ap₂, ◌∙◌, subst, Bool, true,
  false, Bool-cases, Option, none, some, List, [], ◌∷◌, ◌++◌, update, ◌==◌, if◌then◌else◌, arith,
}
use jnet_lib.Iocp.{
  Result, Packet, contains_result, interrupt, Service, post_packet, post_deferred_completions,
  on_pending, stop, work_finished, acquire_dispatch, claim, flag_ready, end_overlapped,
}
use jnet_lib.Iocp.Delivery.{
  bit, fresh_in, result_in, count, fresh_in-append, result_in-append, count-append, view, IsSound,
  is_complete, in_kernel, is_taken, is_caught, waits,
}
use jnet_lib.Iocp.Delivery.Post.{==_same, post_packet-other, post_packet-waits}
use jnet_lib.Iocp.Delivery.Begin.{AllSound, at_each}

-- A packet without an operation concerns none.
pub quiet_append :
    (s : Service) (j : ℕ) (p : Packet)
    → fresh_in j (p ∷ []) ≡ 0
    → result_in j (p ∷ []) ≡ 0
    → view (record s { port = s.port ++ (p ∷ []) }) j ≡ view s j
quiet_append s j p f r =
    ap₂ (λ n m. record (view s j) { fresh = n; results = m })
      (omega (arith, f, fresh_in-append j s.port (p ∷ [])))
      (omega (arith, r, result_in-append j s.port (p ∷ [])))

pub end_overlapped-AllSound :
    (ok : Bool) (k : ℕ) (s : Service)
    → s.starting k ≡ true
    → AllSound s
    → AllSound (end_overlapped ok k s)
unfolding end_overlapped on_pending
end_overlapped-AllSound ok k s e h = at_each s (end_overlapped ok k s) k (own (h k)) other h
  where
    s' : Service
    s' = record s { starting = update s.starting k false }

    by_ready :
        (b : Bool)
        → s.ready k ≡ b
        → IsSound (view (if b then post_packet ok k s' else flag_ready k s') k)
        → IsSound (view (end_overlapped ok k s) k)
    by_ready b d x =
        subst (λ b. IsSound (view (if b then post_packet ok k s' else flag_ready k s') k)) (sym d) x

    own : IsSound (view s k) → IsSound (view (end_overlapped ok k s) k)
    own (is_complete a f c l u) = absurd (ground (arith, a, e))
    own (in_kernel a f c l u) =
        by_ready false (ground (arith, a, e)) (rw (==_same k) (in_kernel refl f c l u))
    own (is_taken a f c l d u) =
        by_ready false (ground (arith, a, e)) (rw (==_same k) (is_taken refl f c l d u))
    own (is_caught a b f c l d u) =
        by_ready true b (post_packet-waits ok k s' (rw (==_same k) refl) b f c l d u)
    own (waits a b f c l d u) = absurd (ground (arith, a, e))

    other : (j : ℕ) → (j == k) ≡ false → view (end_overlapped ok k s) j ≡ view s j
    other j d = elim (Bool-cases (s.ready k)) [
      | inl q ↦ rw q (post_packet-other j k d ok s' ∙ rw d refl)
      | inr q ↦ rw (q, d) refl
    ]

pub claim-AllSound :
    (k : ℕ) (r : Result) (rest : List Result) (s : Service)
    → s.held k ≡ r ∷ rest
    → AllSound s
    → AllSound (claim k r rest s)
unfolding claim
claim-AllSound k r rest s e h = at_each s (claim k r rest s) k (own (h k)) other h
  where
    dispatched : Service
    dispatched = record s {
      held = update s.held k rest;
      completed = update s.completed k (s.completed k ++ (r ∷ []));
      finishing = s.finishing + 1;
    }

    missed : Service
    missed = record s { held = update s.held k rest; ready = update s.ready k true }

    by_ready :
        (b : Bool)
        → s.ready k ≡ b
        → IsSound (view (if b then dispatched else missed) k)
        → IsSound (view (claim k r rest s) k)
    by_ready b d x = subst (λ b. IsSound (view (if b then dispatched else missed) k)) (sym d) x

    own : IsSound (view s k) → IsSound (view (claim k r rest s) k)
    own (is_complete a f c l u) = absurd (cc (e, l))
    own (in_kernel a f c l u) = absurd (cc (e, l))
    own (is_taken a f c l d u) = elim (Bool-cases (s.ready k)) [
      | inl q ↦ by_ready true q (
          rw (==_same k) (
            is_complete (ground (arith, a, q)) f c (cc (e, l))
              (u ∙ ap (λ x. s.completed k ++ (x ∷ [])) (cc (e, l)))))
      | inr q ↦
          by_ready false q
            (rw (==_same k) (is_caught (ground (arith, a, q)) refl f c (cc (e, l)) d u))
    ]
    own (is_caught a b f c l d u) = absurd (cc (e, l))
    own (waits a b f c l d u) = absurd (cc (e, l))

    other : (j : ℕ) → (j == k) ≡ false → view (claim k r rest s) j ≡ view s j
    other j d = elim (Bool-cases (s.ready k)) [ inl q ↦ rw (q, d) refl | inr q ↦ rw (q, d) refl ]

pub stop-view : (error : Option ℕ) (s : Service) (j : ℕ) → view (stop error s).0 j ≡ view s j
unfolding stop
stop-view none s j = elim (Bool-cases s.stopped) [
  | inl d ↦ rw d refl
  | inr d ↦ rw d (quiet_append s j interrupt refl refl)
]
stop-view (some e) s j = elim (Bool-cases s.stopped) [ inl d ↦ rw d refl | inr d ↦ rw d refl ]

pub work_finished-view :
    (error : Option ℕ) (s : Service) (j : ℕ) → view (work_finished error s) j ≡ view s j
unfolding work_finished
work_finished-view error s j = elim (Bool-cases ((s.outstanding_work + 2 ^ 32 - 1) % 2 ^ 32 == 0)) [
  | inl d ↦ rw d (
      stop-view error (record s { outstanding_work = (s.outstanding_work + 2 ^ 32 - 1) % 2 ^ 32 })
        j)
  | inr d ↦ rw d refl
]

pub acquire_dispatch-view : (s : Service) (j : ℕ) → view (acquire_dispatch s) j ≡ view s j
unfolding acquire_dispatch
acquire_dispatch-view s j = elim (Bool-cases s.dispatch_required) [
  | inl d ↦ rw d refl
  | inr d ↦ rw d refl
]

still_ready :
    (j k : ℕ) (ks : List ℕ) (s : Service)
    → (0 < count j (k ∷ ks) → s.ready j ≡ true)
    → update s.ready k true j ≡ s.ready j
still_ready j k ks s h = elim (Bool-cases (j == k)) [
  | inl d ↦ rw d (sym (h (omega (arith, ap bit d))))
  | inr d ↦ rw d refl
]

-- Operations that are ready go from the list to the port, or back into the list.
pub post_deferred_completions-view :
    (n : ℕ) (ks : List ℕ) (s : Service) (j : ℕ)
    → (0 < count j ks → s.ready j ≡ true)
    → view (post_deferred_completions n ks s) j
      ≡ record (view s j) { results = (view s j).results + count j ks }
unfolding post_deferred_completions
post_deferred_completions-view n [] s j h =
    ap (λ n. record (view s j) { results = n }) (omega arith)
post_deferred_completions-view zero (k ∷ ks) s j h =
    ap₂ (λ b n. record (view s j) { ready = b; results = n }) (still_ready j k ks s h)
      (omega (arith, count-append j s.completed_ops (k ∷ ks)))
post_deferred_completions-view (suc n) (k ∷ ks) s j h =
    post_deferred_completions-view n ks
      (record s { ready = update s.ready k true; port = s.port ++ (contains_result k ∷ []) }) j
      (λ l. still_ready j k ks s h ∙ h (omega (arith, l)))
    ∙ (λ i. record (view s j) {
      ready = still_ready j k ks s h i;
      fresh = fresh_kept i;
      results = results_moved i;
    })
  where
    s' : Service
    s' = record s { port = s.port ++ (contains_result k ∷ []) }

    fresh_kept : (view s' j).fresh ≡ (view s j).fresh
    fresh_kept = omega (arith, fresh_in-append j s.port (contains_result k ∷ []))

    results_moved : (view s' j).results + count j ks ≡ (view s j).results + count j (k ∷ ks)
    results_moved = omega (arith, result_in-append j s.port (contains_result k ∷ []))

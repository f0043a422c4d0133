-- ===== src/Iocp/Delivery/Begin.antt =====
-- An operation is begun, and the kernel completes it.
use jnet_lib.Base.{
  ℕ, ◌≡◌, inl, inr, refl, sym, ap, ap₂, ◌∙◌, subst, Bool, true, false, Bool-cases, List, [], ◌∷◌,
  ◌++◌, length, length-append, update, ◌==◌, arith,
}
use jnet_lib.Errors.{no_error}
use jnet_lib.Iocp.{
  Result, from_kernel, Service, post_deferred_completion, on_completion, work_started, counted,
  flag_ready, store_result, begin_overlapped, begin_completed, begin_posted, kernel_completes,
}
use jnet_lib.Iocp.Delivery.{
  bit, fresh_in-append, result_in-append, View, view, IsUnderWay, IsSound, is_complete, in_kernel,
  is_taken, is_caught, waits,
}
use jnet_lib.Iocp.Delivery.Post.{==_same, post_packet-other, post_packet-waits}

abbrev pub AllSound : Service → Type 0
AllSound s = (j : ℕ) → IsSound (view s j)

-- A step that concerns one operation.
pub at_each :
    (s s' : Service) (k : ℕ)
    → IsSound (view s' k)
    → ((j : ℕ) → (j == k) ≡ false → view s' j ≡ view s j)
    → AllSound s
    → AllSound s'
at_each s s' k here_ other h j = elim (Bool-cases (j == k)) [
  | inl e ↦ subst (λ i. IsSound (view s' i)) (let d : k ≡ j = ground (arith, e) in d) here_
  | inr e ↦ subst IsSound (sym (other j e)) (h j)
]

-- One that concerns none.
pub unseen : (s s' : Service) → ((j : ℕ) → view s' j ≡ view s j) → AllSound s → AllSound s'
unseen s s' e h j = subst IsSound (sym (e j)) (h j)

pub no_growth : {A : Type 0} (xs : List A) (x : A) → xs ≡ xs ++ (x ∷ []) → ⊥
no_growth xs x e = omega (arith, ap length e, length-append xs (x ∷ []))

record IsSettled (v : View) : Type 0 where
  starting : v.starting ≡ false
  fresh : v.fresh ≡ 0
  results : v.results ≡ 0
  held : v.held ≡ []
  same : v.begun ≡ v.completed

not_under_way : (v : View) → IsUnderWay v → v.begun ≡ v.completed → ⊥
not_under_way v u e = no_growth v.completed v.outcome (sym e ∙ u)

settled : (v : View) → IsSound v → v.begun ≡ v.completed → IsSettled v
settled v (is_complete a f c h e) e' = record {
  starting = a;
  fresh = f;
  results = c;
  held = h;
  same = e;
}
settled v (in_kernel a f c h u) e = absurd (not_under_way v u e)
settled v (is_taken a f c h d u) e = absurd (not_under_way v u e)
settled v (is_caught a b f c h d u) e = absurd (not_under_way v u e)
settled v (waits a b f c h d u) e = absurd (not_under_way v u e)

pub begin_overlapped-AllSound :
    (k : ℕ) (r : Result) (s : Service)
    → s.begun k ≡ s.completed k
    → AllSound s
    → AllSound (begin_overlapped k r s)
unfolding begin_overlapped work_started
begin_overlapped-AllSound k r s e h =
    let c = settled (view s k) (h k) e in
    at_each s (begin_overlapped k r s) k
      (rw (==_same k)
        (in_kernel refl (omega (arith, c.fresh)) c.results c.held (ap (λ l. l ++ (r ∷ [])) c.same)))
      (λ j d. rw d refl) h

pub begin_completed-AllSound :
    (ok : Bool) (k : ℕ) (r : Result) (s : Service)
    → s.begun k ≡ s.completed k
    → AllSound s
    → AllSound (begin_completed ok k r s)
unfolding begin_completed work_started on_completion
begin_completed-AllSound ok k r s e h =
    let c = settled (view s k) (h k) e in
    at_each s (begin_completed ok k r s) k
      (post_packet-waits ok k (store_result k r (counted k r s)) c.starting (rw (==_same k) refl)
        c.fresh c.results c.held (rw (==_same k) refl)
        (rw (==_same k) (ap (λ l. l ++ (r ∷ [])) c.same)))
      (λ j d. post_packet-other j k d ok (store_result k r (counted k r s)) ∙ rw d refl) h

pub begin_posted-AllSound :
    (ok : Bool) (k : ℕ) (s : Service)
    → s.begun k ≡ s.completed k
    → AllSound s
    → AllSound (begin_posted ok k s)
unfolding begin_posted work_started post_deferred_completion
begin_posted-AllSound ok k s e h =
    let c = settled (view s k) (h k) e in
    at_each s (begin_posted ok k s) k
      (post_packet-waits ok k (flag_ready k (counted k (no_error, 0) s)) c.starting
        (rw (==_same k) refl) c.fresh c.results c.held (rw (==_same k) refl)
        (rw (==_same k) (ap (λ l. l ++ ((no_error, 0) ∷ [])) c.same)))
      (λ j d. post_packet-other j k d ok (flag_ready k (counted k (no_error, 0) s)) ∙ rw d refl) h

pub kernel_completes-AllSound :
    (k : ℕ) (s : Service) → s.accepted k ≡ true → AllSound s → AllSound (kernel_completes k s)
kernel_completes-AllSound k s e = unseen s (kernel_completes k s) same
  where
    same : (j : ℕ) → view (kernel_completes k s) j ≡ view s j
    same j =
        ap₂ (λ n m. record (view s j) { fresh = n; results = m })
          (elim (Bool-cases (j == k)) [
            | inl d ↦
                (let z : update s.accepted k false j ≡ false = ground (arith, d) in
                  let w : s.accepted j ≡ true =
                    ap s.accepted (let q : j ≡ k = ground (arith, d) in q) ∙ e in
                  omega (
                    arith,
                    ap bit z,
                    ap bit w,
                    ap bit d,
                    fresh_in-append j s.port (from_kernel k ∷ []),
                  ))
            | inr d ↦
                (let z : update s.accepted k false j ≡ s.accepted j = ground (arith, d) in
                  omega (arith, ap bit z, ap bit d, fresh_in-append j s.port (from_kernel k ∷ [])))
          ])
          (omega (arith, result_in-append j s.port (from_kernel k ∷ [])))

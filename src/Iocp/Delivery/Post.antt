-- ===== src/Iocp/Delivery/Post.antt =====
-- Packets that are posted, and the operations that they leave alone.
use jnet_lib.Base.{
  ℕ, ◌≡◌, inl, inr, refl, ap, ap₂, ◌∙◌, Bool, true, false, Bool-cases, [], ◌∷◌, ◌==◌, arith,
}
use jnet_lib.Iocp.{
  Result, contains_result, Service, post_packet, post_deferred_completion, on_pending,
  on_completion,
}
use jnet_lib.Iocp.Delivery.{
  bit, fresh_in-append, result_in-append, count-append, View, view, IsUnderWay, IsSound, waits,
}

pub ==_same : (k : ℕ) → (k == k) ≡ true
==_same k = ground arith

-- Two views that differ in what they count.
abbrev recount : View → ℕ → ℕ → View
recount v n m = record v { fresh = n; results = m }

module _ (j k : ℕ) (ne : (j == k) ≡ false) where
  pub post_packet-other : (ok : Bool) (s : Service) → view (post_packet ok k s) j ≡ view s j
  post_packet-other true s =
      ap₂ (recount (view s j)) (omega (arith, fresh_in-append j s.port (contains_result k ∷ [])))
        (omega (arith, result_in-append j s.port (contains_result k ∷ []), ap bit ne))
  post_packet-other false s =
      ap (λ n. record (view s j) { results = n })
        (omega (arith, count-append j s.completed_ops (k ∷ []), ap bit ne))

  pub on_completion-other :
      (ok : Bool) (r : Result) (s : Service) → view (on_completion ok k r s) j ≡ view s j
  unfolding on_completion
  on_completion-other ok r s = post_packet-other ok _ ∙ rw ne refl

  pub post_deferred_completion-other :
      (ok : Bool) (s : Service) → view (post_deferred_completion ok k s) j ≡ view s j
  unfolding post_deferred_completion
  post_deferred_completion-other ok s = post_packet-other ok _ ∙ rw ne refl

  pub on_pending-other : (ok : Bool) (s : Service) → view (on_pending ok k s) j ≡ view s j
  unfolding on_pending
  on_pending-other ok s = elim (Bool-cases (s.ready k)) [
    | inl e ↦ rw e (post_packet-other ok s)
    | inr e ↦ rw (e, ne) refl
  ]

-- A result that is posted waits.
pub post_packet-waits :
    (ok : Bool) (k : ℕ) (s : Service)
    → s.starting k ≡ false
    → s.ready k ≡ true
    → (view s k).fresh ≡ 0
    → (view s k).results ≡ 0
    → s.held k ≡ []
    → s.stored k ≡ s.outcome k
    → IsUnderWay (view s k)
    → IsSound (view (post_packet ok k s) k)
post_packet-waits true k s a b f c h e u =
    waits a b (omega (arith, f, fresh_in-append k s.port (contains_result k ∷ [])))
      (omega (arith, c, result_in-append k s.port (contains_result k ∷ []), ap bit (==_same k))) h e
      u
post_packet-waits false k s a b f c h e u =
    waits a b f (omega (arith, c, count-append k s.completed_ops (k ∷ []), ap bit (==_same k))) h e
      u

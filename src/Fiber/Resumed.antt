-- ===== src/Fiber/Resumed.antt =====
-- Every operation of a fiber resumes it once, with its own result.
use jnet_lib.Base.{
  ℕ, ◌+◌, ◌<◌, ◌≡◌, ◌⊎◌, inl, inr, refl, sym, ap, ◌∙◌, subst, true, false, none, some, Option-cases,
  [], ◌∷◌, ◌++◌, if◌then◌else◌, arith,
}
use jnet_lib.Errors.{ErrorCode}
use jnet_lib.Fiber.{
  Scheduler, acquire, release, Stage, fresh, running, awaiting, yielded, returned, corrupt,
  FiberSocket, new_fiber_socket, run_fiber, switched, switch_to, on_done, on_post, Step, invoke,
  start_operation, yield, return, switch_back, done, post,
}

-- One callback is to come: the operation, or a post after it has completed.
pub data Awaits (s : FiberSocket) : Type 0 where
  operation : s.operations ≡ 1 → s.posts ≡ 0 → s.completed ≡ s.results → Awaits s
  posted :
      s.operations ≡ 0
      → s.posts ≡ 1
      → s.completed ≡ s.results ++ ((s.ec, s.bytes_transferred) ∷ [])
      → Awaits s

pub record IsIdle (s : FiberSocket) : Type 0 where
  pub operations : s.operations ≡ 0
  pub posts : s.posts ≡ 0
  pub completed : s.completed ≡ s.results

pub data IsScheduled (s : FiberSocket) : Type 0 where
  is_fresh :
      s.stage ≡ fresh
      → s.fiber.invoker ≡ none
      → s.fiber.free_flag ≡ false
      → s.fiber.freed ≡ false
      → IsIdle s
      → IsScheduled s
  runs :
      (t : ℕ)
      → s.stage ≡ running
      → s.fiber.invoker ≡ some t
      → s.fiber.free_flag ≡ false
      → s.fiber.freed ≡ false
      → IsIdle s
      → IsScheduled s
  awaits :
      (t : ℕ)
      → s.stage ≡ awaiting
      → s.fiber.invoker ≡ some t
      → s.fiber.free_flag ≡ false
      → s.fiber.freed ≡ false
      → Awaits s
      → IsScheduled s
  has_yielded :
      s.stage ≡ yielded
      → s.fiber.free_flag ≡ false
      → s.fiber.freed ≡ false
      → Awaits s
      → IsScheduled s
  has_returned : s.stage ≡ returned → s.fiber.free_flag ≡ true → IsIdle s → IsScheduled s

pub data Steps (s₀ : FiberSocket) : FiberSocket → Type 0 where
  start : Steps s₀ s₀
  next : {s s' : FiberSocket} → Steps s₀ s → Step s s' → Steps s₀ s'

acquire-busy : (t : ℕ) (f : Scheduler) {u : ℕ} → f.invoker ≡ some u → acquire t f ≡ none
unfolding acquire
acquire-busy t f i =
    ap (λ o. elim o [ none ↦ some (record f { invoker = some t }) | some _ ↦ none ]) i

acquire-free :
    (t : ℕ) (f : Scheduler) → f.invoker ≡ none → acquire t f ≡ some (record f { invoker = some t })
unfolding acquire
acquire-free t f i =
    ap (λ o. elim o [ none ↦ some (record f { invoker = some t }) | some _ ↦ none ]) i

module _ (t : ℕ) (s : FiberSocket) (d : s.fiber.freed ≡ false) where
  switch_to-alive : switch_to t s ≡ switched s (acquire t s.fiber)
  unfolding switch_to
  switch_to-alive =
      ap (λ b. if b then record s { stage = corrupt } else switched s (acquire t s.fiber)) d

  switch_to-busy :
      {u : ℕ} → s.fiber.invoker ≡ some u → switch_to t s ≡ record s { posts = s.posts + 1 }
  switch_to-busy i = switch_to-alive ∙ ap (switched s) (acquire-busy t s.fiber i)

  pub switch_to-free :
      {g : Stage}
      → s.fiber.invoker ≡ none
      → s.stage ≡ g
      → switch_to t s ≡ run_fiber (record s { fiber = record s.fiber { invoker = some t } }) g
  switch_to-free i e =
      switch_to-alive
      ∙ ap (switched s) (acquire-free t s.fiber i)
      ∙ ap (run_fiber (record s { fiber = record s.fiber { invoker = some t } })) e

-- Where a callback can come: its operation was started.
abbrev Waits : FiberSocket → Type 0
Waits s = ((s.stage ≡ awaiting) × ((u : ℕ) × (s.fiber.invoker ≡ some u))) ⊎ (s.stage ≡ yielded)

-- A callback that has taken itself off what is to come.
switch_to-IsScheduled :
    (t : ℕ) (s : FiberSocket)
    → Waits s
    → s.fiber.free_flag ≡ false
    → s.fiber.freed ≡ false
    → s.operations ≡ 0
    → s.posts ≡ 0
    → s.completed ≡ s.results ++ ((s.ec, s.bytes_transferred) ∷ [])
    → IsScheduled (switch_to t s)
unfolding run_fiber
switch_to-IsScheduled t s (inl (a, (u, i))) f d o p c =
    subst IsScheduled (sym (switch_to-busy t s d i))
      (awaits u a i f d (posted o (omega (arith, p)) c))
switch_to-IsScheduled t s (inr y) f d o p c = elim (Option-cases s.fiber.invoker) [
  | inl i ↦
      subst IsScheduled (sym (switch_to-free t s d i y))
        (runs t refl refl f d (record { operations = o; posts = p; completed = c }))
  | inr (u, i) ↦
      subst IsScheduled (sym (switch_to-busy t s d i))
        (has_yielded y f d (posted o (omega (arith, p)) c))
]

callback-IsScheduled :
    {s : FiberSocket}
    → Waits s
    → s.fiber.free_flag ≡ false
    → s.fiber.freed ≡ false
    → Awaits s
    → (t : ℕ)
    → ((ec : ErrorCode) (n : ℕ) → 0 < s.operations → IsScheduled (on_done t ec n s))
      × (0 < s.posts → IsScheduled (on_post t s))
unfolding on_done on_post
callback-IsScheduled w f d (operation o p c) t = (
  λ ec n l. switch_to-IsScheduled t _ w f d (omega (arith, o)) p (ap (λ l. l ++ ((ec, n) ∷ [])) c),
  λ l. absurd (omega (arith, l, p)),
)
callback-IsScheduled w f d (posted o p c) t = (
  λ ec n l. absurd (omega (arith, l, o)),
  λ l. switch_to-IsScheduled t _ w f d o (omega (arith, p)) c,
)

pub release-alive : (f : Scheduler) → f.free_flag ≡ false → release f ≡ record f { invoker = none }
unfolding release
release-alive f e = ap (λ b. if b then record f { freed = true } else record f { invoker = none }) e

release-ended : (f : Scheduler) → f.free_flag ≡ true → release f ≡ record f { freed = true }
unfolding release
release-ended f e = ap (λ b. if b then record f { freed = true } else record f { invoker = none }) e

abbrev number : Stage → ℕ
number fresh = 0
number running = 1
number awaiting = 2
number yielded = 3
number returned = 4
number corrupt = 5

-- A fiber is at one stage.
abbrev both : {a b g : Stage} → g ≡ a → g ≡ b → number a ≡ number b
both e e' = ap number (sym e ∙ e')

module _ {s : FiberSocket} where
  idle_done :
      IsIdle s
      → (t : ℕ) (ec : ErrorCode) (n : ℕ) → 0 < s.operations
      → IsScheduled (on_done t ec n s)
  idle_done h t ec n l = absurd (omega (arith, l, h.operations))

  idle_post : IsIdle s → (t : ℕ) → 0 < s.posts → IsScheduled (on_post t s)
  idle_post h t l = absurd (omega (arith, l, h.posts))

  Step-IsScheduled : {s' : FiberSocket} → IsScheduled s → Step s s' → IsScheduled s'
  unfolding run_fiber
  Step-IsScheduled (is_fresh g _ f d h) (invoke t e i) =
      subst IsScheduled (sym (switch_to-free t s d i g)) (
        runs t refl refl f d
          (record { operations = h.operations; posts = h.posts; completed = h.completed }))
  Step-IsScheduled (runs t g i f d h) (start_operation e) =
      awaits t refl i f d (operation (omega (arith, h.operations)) h.posts h.completed)
  Step-IsScheduled (runs t g i f d h) (return e) =
      has_returned refl refl
        (record { operations = h.operations; posts = h.posts; completed = h.completed })
  Step-IsScheduled (awaits t g i f d (operation o p c)) (yield e) =
      has_yielded refl f d (operation o p c)
  Step-IsScheduled (awaits t g i f d (posted o p c)) (yield e) = has_yielded refl f d (posted o p c)
  Step-IsScheduled (awaits t g i f d w) (done t' ec n l) =
      (callback-IsScheduled (inl (g, (t, i))) f d w t').0 ec n l
  Step-IsScheduled (awaits t g i f d w) (post t' l) =
      (callback-IsScheduled (inl (g, (t, i))) f d w t').1 l
  Step-IsScheduled (has_yielded g f d w) (done t' ec n l) =
      (callback-IsScheduled (inr g) f d w t').0 ec n l
  Step-IsScheduled (has_yielded g f d w) (post t' l) = (callback-IsScheduled (inr g) f d w t').1 l
  Step-IsScheduled (has_yielded g f d (operation o p c)) (switch_back t e i d') =
      subst (λ f. IsScheduled (record s { fiber = f })) (sym (release-alive s.fiber f))
        (has_yielded g f d (operation o p c))
  Step-IsScheduled (has_yielded g f d (posted o p c)) (switch_back t e i d') =
      subst (λ f. IsScheduled (record s { fiber = f })) (sym (release-alive s.fiber f))
        (has_yielded g f d (posted o p c))
  Step-IsScheduled (has_returned g f h) (switch_back t e i d') =
      subst (λ f. IsScheduled (record s { fiber = f })) (sym (release-ended s.fiber f))
        (has_returned g f
          (record { operations = h.operations; posts = h.posts; completed = h.completed }))
  Step-IsScheduled (is_fresh g _ f d h) (done t ec n l) = idle_done h t ec n l
  Step-IsScheduled (runs _ g i f d h) (done t ec n l) = idle_done h t ec n l
  Step-IsScheduled (has_returned g f h) (done t ec n l) = idle_done h t ec n l
  Step-IsScheduled (is_fresh g _ f d h) (post t l) = idle_post h t l
  Step-IsScheduled (runs _ g i f d h) (post t l) = idle_post h t l
  Step-IsScheduled (has_returned g f h) (post t l) = idle_post h t l
  Step-IsScheduled (runs _ g i f d h) (invoke t e i') = absurd (omega (arith, both g e))
  Step-IsScheduled (awaits _ g i f d w) (invoke t e i') = absurd (omega (arith, both g e))
  Step-IsScheduled (has_yielded g f d w) (invoke t e i') = absurd (omega (arith, both g e))
  Step-IsScheduled (has_returned g f h) (invoke t e i') = absurd (omega (arith, both g e))
  Step-IsScheduled (is_fresh g _ f d h) (start_operation e) = absurd (omega (arith, both g e))
  Step-IsScheduled (awaits _ g i f d w) (start_operation e) = absurd (omega (arith, both g e))
  Step-IsScheduled (has_yielded g f d w) (start_operation e) = absurd (omega (arith, both g e))
  Step-IsScheduled (has_returned g f h) (start_operation e) = absurd (omega (arith, both g e))
  Step-IsScheduled (is_fresh g _ f d h) (return e) = absurd (omega (arith, both g e))
  Step-IsScheduled (awaits _ g i f d w) (return e) = absurd (omega (arith, both g e))
  Step-IsScheduled (has_yielded g f d w) (return e) = absurd (omega (arith, both g e))
  Step-IsScheduled (has_returned g f h) (return e) = absurd (omega (arith, both g e))
  Step-IsScheduled (is_fresh g _ f d h) (yield e) = absurd (omega (arith, both g e))
  Step-IsScheduled (runs _ g i f d h) (yield e) = absurd (omega (arith, both g e))
  Step-IsScheduled (has_yielded g f d w) (yield e) = absurd (omega (arith, both g e))
  Step-IsScheduled (has_returned g f h) (yield e) = absurd (omega (arith, both g e))
  Step-IsScheduled (is_fresh g _ f d h) (switch_back t (inl e) i d') =
      absurd (omega (arith, both g e))
  Step-IsScheduled (is_fresh g _ f d h) (switch_back t (inr e) i d') =
      absurd (omega (arith, both g e))
  Step-IsScheduled (runs _ g i f d h) (switch_back t (inl e) i' d') =
      absurd (omega (arith, both g e))
  Step-IsScheduled (runs _ g i f d h) (switch_back t (inr e) i' d') =
      absurd (omega (arith, both g e))
  Step-IsScheduled (awaits _ g i f d w) (switch_back t (inl e) i' d') =
      absurd (omega (arith, both g e))
  Step-IsScheduled (awaits _ g i f d w) (switch_back t (inr e) i' d') =
      absurd (omega (arith, both g e))

-- In every history of a fiber and its socket, whatever the threads that complete its
-- operations do between its steps: the fiber is never switched to while it runs, after its
-- routine has returned or after it was freed; while it waits, exactly one operation or post is
-- to call back; and when it runs again its calls have returned what its operations completed
-- with, in their order.
pub Steps-IsScheduled : {s : FiberSocket} → Steps new_fiber_socket s → IsScheduled s
unfolding new_fiber_socket
Steps-IsScheduled start =
    is_fresh refl refl refl refl (record { operations = refl; posts = refl; completed = refl })
Steps-IsScheduled (next h step) = Step-IsScheduled (Steps-IsScheduled h) step

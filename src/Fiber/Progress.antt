-- ===== src/Fiber/Progress.antt =====
-- A fiber can always go on.
use jnet_lib.Base.{◌≡◌, ◌⊎◌, inl, inr, refl, ap, ◌∙◌, false, none, Option-cases, arith}
use jnet_lib.Errors.{no_error}
use jnet_lib.Fiber.{
  running, yielded, returned, FiberSocket, new_fiber_socket, release, run_fiber, switch_to, on_done,
  on_post, Step, invoke, yield, switch_back, done, post,
}
use jnet_lib.Fiber.Resumed.{
  Awaits, operation, posted, IsScheduled, is_fresh, runs, awaits, has_yielded, has_returned, Steps,
  start, next, Steps-IsScheduled, switch_to-free, release-alive,
}

-- The histories of `s` that end where its fiber runs.
abbrev pub CanRun : FiberSocket → Type 0
CanRun s = (s' : FiberSocket) × Steps s s' × (s'.stage ≡ running)

after_step : {s s' s'' : FiberSocket} → Step s s' → Steps s' s'' → Steps s s''
after_step a start = next start a
after_step a (next h b) = next (after_step a h) b

first_then : {s s' : FiberSocket} → Step s s' → CanRun s' → CanRun s
first_then a (s'', h, r) = (s'', after_step a h, r)

switched-running :
    (s : FiberSocket)
    → s.fiber.freed ≡ false
    → s.fiber.invoker ≡ none
    → s.stage ≡ yielded
    → (switch_to 0 s).stage ≡ running
unfolding run_fiber
switched-running s d i y = ap (λ s. s.stage) (switch_to-free 0 s d i y)

callback-CanRun :
    {s : FiberSocket}
    → s.fiber.freed ≡ false
    → s.fiber.invoker ≡ none
    → s.stage ≡ yielded
    → Awaits s
    → CanRun s
unfolding on_done on_post
callback-CanRun d i y (operation o p c) =
    (_, next start (done 0 no_error 0 (omega (arith, o))), switched-running _ d i y)
callback-CanRun d i y (posted o p c) =
    (_, next start (post 0 (omega (arith, p))), switched-running _ d i y)

-- The thread that switched to the fiber takes its control back first.
yielded-CanRun :
    {s : FiberSocket}
    → s.fiber.free_flag ≡ false
    → s.fiber.freed ≡ false
    → s.stage ≡ yielded
    → Awaits s
    → CanRun s
yielded-CanRun {s} f d y w = elim (Option-cases s.fiber.invoker) [
  | inl i ↦ callback-CanRun d i y w
  | inr (u, i) ↦ first_then (switch_back u (inl y) i d) (released w)
]
  where
    released : Awaits s → CanRun (record s { fiber = release s.fiber })
    released (operation o p c) =
        callback-CanRun (ap (λ f. f.freed) (release-alive s.fiber f) ∙ d)
          (ap (λ f. f.invoker) (release-alive s.fiber f)) y (operation o p c)
    released (posted o p c) =
        callback-CanRun (ap (λ f. f.freed) (release-alive s.fiber f) ∙ d)
          (ap (λ f. f.invoker) (release-alive s.fiber f)) y (posted o p c)

IsScheduled-CanRun : {s : FiberSocket} → IsScheduled s → (s.stage ≡ returned) ⊎ CanRun s
unfolding run_fiber
IsScheduled-CanRun {s} (is_fresh g i f d h) =
    inr (_, next start (invoke 0 g i), ap (λ s. s.stage) (switch_to-free 0 s d i g))
IsScheduled-CanRun (runs t g i f d h) = inr (_, start, g)
IsScheduled-CanRun (awaits t g i f d (operation o p c)) =
    inr (first_then (yield g) (yielded-CanRun f d refl (operation o p c)))
IsScheduled-CanRun (awaits t g i f d (posted o p c)) =
    inr (first_then (yield g) (yielded-CanRun f d refl (posted o p c)))
IsScheduled-CanRun (has_yielded g f d w) = inr (yielded-CanRun f d g w)
IsScheduled-CanRun (has_returned g f h) = inl g

-- After every history of a new fiber and its socket, if the routine of the fiber has not
-- returned, some history goes on to where the fiber runs.
pub Steps-CanRun : {s : FiberSocket} → Steps new_fiber_socket s → (s.stage ≡ returned) ⊎ CanRun s
Steps-CanRun h = IsScheduled-CanRun (Steps-IsScheduled h)

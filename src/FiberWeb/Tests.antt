-- ===== src/FiberWeb/Tests.antt =====
-- An HTTPS context that is shut down twice and closed.
use jnet_lib.Base.{ℕ, ◌≡◌, refl, List, [], ◌∷◌}
use jnet_lib.Errors.{ErrorCode, no_error, system_error}
use jnet_lib.Web.{http, https}
use jnet_lib.FiberWeb.{
  Call, make, check_closed, handshakes, server, receives, shuts_down, closes, perform, performs,
  Request, handshake, shutdown, close, recv, acceptor_proc,
}
use jnet_lib.FiberWeb.Orderly.{IsOrderly, performs-IsOrderly}

-- A stream that gives 7 bytes each time.
abbrev sevens : ℕ → Call → ℕ × ErrorCode × ℕ
sevens calls k = (calls, no_error, 7)

abbrev routine : List (Request × ℕ)
routine =
    (handshake, 0) ∷ (recv 100, 0) ∷ (shutdown, 0) ∷ (shutdown, 0) ∷ (recv 100, 3) ∷ (close, 0) ∷ []

routine_log :
    (performs sevens routine (make https 0)).log
    ≡ closes ∷ shuts_down ∷ receives 100 ∷ handshakes server ∷ []
unfolding performs perform make check_closed
routine_log = refl

performs-IsOrderly_example : IsOrderly sevens https (performs sevens routine (make https 0))
performs-IsOrderly_example = performs-IsOrderly sevens https routine 0

-- The loop ends with the first accept that fails.
accepts_until :
    acceptor_proc http (no_error ∷ system_error 24 ∷ no_error ∷ [])
    ≡ (http, no_error) ∷ (http, system_error 24) ∷ []
unfolding acceptor_proc
accepts_until = refl

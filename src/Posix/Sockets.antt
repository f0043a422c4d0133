-- ===== src/Posix/Sockets.antt =====
-- The system calls on sockets, the parameter of the socket modules.
use jnet_lib.Base.{ℕ, List}
use jnet_lib.Posix.{Outcome, Fd}

-- `errno` is what the last call that failed has left. The code sets it to 0 before `accept`, `send`
-- and `recv` and reads it after them: these leave it alone when they succeed.
pub record Sockets : Type 1 where
  pub State : Type 0
  pub errno : State → ℕ
  pub socket : State → State × Outcome ℕ
  pub close : State → Fd → State × Outcome (Unit {0})
  pub bind : State → Fd → (address port : ℕ) → State × Outcome (Unit {0})
  pub listen : State → Fd → ℕ → State × Outcome (Unit {0})
  pub accept : State → Fd → State × Outcome ℕ
  pub connect : State → Fd → (address port : ℕ) → State × Outcome (Unit {0})
  pub send : State → Fd → List ℕ → State × Outcome ℕ
  pub recv : State → Fd → ℕ → State × Outcome (List ℕ)
  pub so_error : State → Fd → State × Outcome ℕ
  pub epoll_ctl : State → ℕ → Fd → ℕ → State × Outcome (Unit {0})

-- ===== src/Iocp/Delivery.antt =====
-- What concerns one operation of the service, and where it can be.
pub mod Post
pub mod Begin
pub mod Moves
pub mod Keeps
pub mod Noticed
pub mod Drain
pub mod Taken
pub mod Completes
use jnet_lib.Base.{
  ℕ, zero, suc, ◌+◌, ◌-◌, ◌^◌, ◌%◌, ◌<◌, ◌≡◌, ◌≢◌, ◌⊎◌, inl, inr, refl, sym, ap, ◌∙◌, subst, Bool,
  true, false, not, Bool-cases, Option, none, some, List, [], ◌∷◌, ◌++◌, length, length-append,
  update, ◌==◌, if◌then◌else◌, arith,
}
use jnet_lib.Errors.{ErrorCode, no_error}
use jnet_lib.Iocp.{
  Result, Packet, from_kernel, contains_result, interrupt, wake_for_dispatch, Service, new_service,
  post_packet, post_deferred_completion, post_deferred_completions, on_pending, on_completion,
  work_started, stop, work_finished, acquire_dispatch, dispatch_completed, take_packet, claim,
  finish, reset, started, begin_overlapped, begin_completed, begin_posted, kernel_completes,
  end_overlapped, Step, begins, fails, posts, kernel, returns, takes, claims, finishes, acquires,
  dispatches, stops, Steps, here, next,
}

abbrev pub bit : Bool → ℕ
bit b = if b then 1 else 0

-- Packets from the kernel for an operation, packets that contain its result, and its places in a list.
abbrev pub fresh_in : ℕ → List Packet → ℕ
fresh_in k [] = 0
fresh_in k (from_kernel j ∷ ps) = bit (k == j) + fresh_in k ps
fresh_in k (contains_result j ∷ ps) = fresh_in k ps
fresh_in k (interrupt ∷ ps) = fresh_in k ps
fresh_in k (wake_for_dispatch ∷ ps) = fresh_in k ps

abbrev pub result_in : ℕ → List Packet → ℕ
result_in k [] = 0
result_in k (from_kernel j ∷ ps) = result_in k ps
result_in k (contains_result j ∷ ps) = bit (k == j) + result_in k ps
result_in k (interrupt ∷ ps) = result_in k ps
result_in k (wake_for_dispatch ∷ ps) = result_in k ps

abbrev pub count : ℕ → List ℕ → ℕ
count k [] = 0
count k (j ∷ js) = bit (k == j) + count k js

pub fresh_in-append :
    (k : ℕ) (ps qs : List Packet) → fresh_in k (ps ++ qs) ≡ fresh_in k ps + fresh_in k qs
fresh_in-append k [] qs = omega arith
fresh_in-append k (from_kernel j ∷ ps) qs = omega (arith, fresh_in-append k ps qs)
fresh_in-append k (contains_result j ∷ ps) qs = fresh_in-append k ps qs
fresh_in-append k (interrupt ∷ ps) qs = fresh_in-append k ps qs
fresh_in-append k (wake_for_dispatch ∷ ps) qs = fresh_in-append k ps qs

pub result_in-append :
    (k : ℕ) (ps qs : List Packet) → result_in k (ps ++ qs) ≡ result_in k ps + result_in k qs
result_in-append k [] qs = omega arith
result_in-append k (from_kernel j ∷ ps) qs = result_in-append k ps qs
result_in-append k (contains_result j ∷ ps) qs = omega (arith, result_in-append k ps qs)
result_in-append k (interrupt ∷ ps) qs = result_in-append k ps qs
result_in-append k (wake_for_dispatch ∷ ps) qs = result_in-append k ps qs

pub count-append : (k : ℕ) (is js : List ℕ) → count k (is ++ js) ≡ count k is + count k js
count-append k [] js = omega arith
count-append k (i ∷ is) js = omega (arith, count-append k is js)

-- What concerns one operation. `fresh` counts what the kernel has of it, `results` the results that wait to be taken.
pub record View : Type 0 where
  pub starting : Bool
  pub ready : Bool
  pub fresh : ℕ
  pub results : ℕ
  pub held : List Result
  pub stored : Result
  pub outcome : Result
  pub begun : List Result
  pub completed : List Result

abbrev pub view : Service → ℕ → View
view s k = record {
  starting = s.starting k;
  ready = s.ready k;
  fresh = bit (s.accepted k) + fresh_in k s.port;
  results = result_in k s.port + count k s.completed_ops;
  held = s.held k;
  stored = s.stored k;
  outcome = s.outcome k;
  begun = s.begun k;
  completed = s.completed k;
}

-- What was started last is not complete.
abbrev pub IsUnderWay : View → Type 0
IsUnderWay v = v.begun ≡ v.completed ++ (v.outcome ∷ [])

-- An operation is complete; or the kernel has it, or a thread has taken its packet or found that it is not ready,
-- or its result waits to be taken, or was taken.
pub data IsSound (v : View) : Type 0 where
  is_complete :
      v.starting ≡ false
      → v.fresh ≡ 0
      → v.results ≡ 0
      → v.held ≡ []
      → v.begun ≡ v.completed
      → IsSound v
  in_kernel :
      v.starting ≡ not v.ready
      → v.fresh ≡ 1
      → v.results ≡ 0
      → v.held ≡ []
      → IsUnderWay v
      → IsSound v
  is_taken :
      v.starting ≡ not v.ready
      → v.fresh ≡ 0
      → v.results ≡ 0
      → v.held ≡ v.outcome ∷ []
      → v.stored ≡ v.outcome
      → IsUnderWay v
      → IsSound v
  is_caught :
      v.starting ≡ true
      → v.ready ≡ true
      → v.fresh ≡ 0
      → v.results ≡ 0
      → v.held ≡ []
      → v.stored ≡ v.outcome
      → IsUnderWay v
      → IsSound v
  waits :
      v.starting ≡ false
      → v.ready ≡ true
      → v.fresh ≡ 0
      → v.results ≡ 1
      → v.held ≡ []
      → v.stored ≡ v.outcome
      → IsUnderWay v
      → IsSound v

-- ===== src/Iocp.antt =====
-- The service on Windows: iocp_service.h and iocp_service.cpp. The describer of an operation that was reset is a null
-- pointer; here it is that of `no_error`. Operations are known by their addresses. The kernel is
-- a map of the operations that it has accepted, and a queue of packets, the completion port.
pub mod Delivery
pub mod Send
pub mod Recv
pub mod Line
pub mod Calls
mod Tests
use jnet_lib.Base.{
  ℕ, zero, suc, ◌+◌, ◌%◌, ◌-◌, ◌^◌, ◌<◌, ◌≡◌, Bool, true, false, not, ◌&&◌, Option, none, some,
  List, [], ◌∷◌, ◌++◌, update, ◌==◌, if◌then◌else◌,
}
use jnet_lib.Errors.{ErrorCode, no_error, system_error}

abbrev pub Result : Type 0
Result = ErrorCode × ℕ

-- What the port queues: an operation with the key 0, from the kernel; one with the key
-- `overlapped_contains_result`; and the two packets without an operation, `stop` and `wake_for_dispatch`.
pub data Packet : Type 0 where
  from_kernel contains_result : ℕ → Packet
  interrupt wake_for_dispatch : Packet

-- `ready` and `stored` are `ready_` of the operations and what their OVERLAPPED structures hold. Of the
-- kernel: `accepted` are the operations that it is to complete, `outcome` what it completes them with. Of the threads: `starting`
-- are the operations whose initiating function has not returned, `held` what `do_one` has taken from the port for an
-- operation and not dispatched yet, `dispatchers` the threads that have cleared `dispatch_required`, and `finishing` those that have
-- completed an operation and not counted it. `begun` and `completed` are the results of the operations that were
-- started, and of the calls of `complete`.
pub record Service : Type 0 where
  pub ready : ℕ → Bool
  pub stored : ℕ → Result
  pub port : List Packet
  pub completed_ops : List ℕ
  pub dispatch_required : Bool
  pub outstanding_work : ℕ
  pub stopped : Bool
  pub accepted : ℕ → Bool
  pub outcome : ℕ → Result
  pub starting : ℕ → Bool
  pub held : ℕ → List Result
  pub dispatchers : ℕ
  pub finishing : ℕ
  pub begun : ℕ → List Result
  pub completed : ℕ → List Result

-- The constructor leaves `dispatch_required` as it is.
pub new_service : Bool → Service
new_service dispatch_required = record {
  ready = λ k. false;
  stored = λ k. (no_error, 0);
  port = [];
  completed_ops = [];
  dispatch_required = dispatch_required;
  outstanding_work = 0;
  stopped = false;
  accepted = λ k. false;
  outcome = λ k. (no_error, 0);
  starting = λ k. false;
  held = λ k. [];
  dispatchers = 0;
  finishing = 0;
  begun = λ k. [];
  completed = λ k. [];
}

-- `ok` says whether PostQueuedCompletionStatus succeeds; if it fails the operation is kept for later.
abbrev pub post_packet : Bool → ℕ → Service → Service
post_packet ok k s =
    if ok
    then record s { port = s.port ++ (contains_result k ∷ []) }
    else record s { completed_ops = s.completed_ops ++ (k ∷ []); dispatch_required = true }

abbrev pub flag_ready : ℕ → Service → Service
flag_ready k s = record s { ready = update s.ready k true }

abbrev pub store_result : ℕ → Result → Service → Service
store_result k r s = record s { ready = update s.ready k true; stored = update s.stored k r }

pub post_deferred_completion : Bool → ℕ → Service → Service
post_deferred_completion ok k s = post_packet ok k (flag_ready k s)

-- `n` packets can be posted before one fails.
pub post_deferred_completions : (n : ℕ) → List ℕ → Service → Service
post_deferred_completions n [] s = s
post_deferred_completions zero (k ∷ ks) s = record s {
  ready = update s.ready k true;
  completed_ops = s.completed_ops ++ (k ∷ ks);
  dispatch_required = true;
}
post_deferred_completions (suc n) (k ∷ ks) s =
    post_deferred_completions n ks
      (record s { ready = update s.ready k true; port = s.port ++ (contains_result k ∷ []) })

pub on_pending : Bool → ℕ → Service → Service
on_pending ok k s = if s.ready k then post_packet ok k s else flag_ready k s

pub on_completion : Bool → ℕ → Result → Service → Service
on_completion ok k r s = post_packet ok k (store_result k r s)

pub work_started : Service → Service
work_started s = record s { outstanding_work = (s.outstanding_work + 1) % 2 ^ 32 }

-- `error` is what GetLastError gives when the packet cannot be posted.
pub stop : Option ℕ → Service → Service × ErrorCode
stop error s =
    let s' = record s { stopped = true } in
    let posted = record s' { port = s.port ++ (interrupt ∷ []) } in
    if s.stopped
    then (s', no_error)
    else elim error [ none ↦ (posted, no_error) | some e ↦ (s', system_error e) ]

pub work_finished : Option ℕ → Service → Service
work_finished error s =
    let s' = record s { outstanding_work = (s.outstanding_work + 2 ^ 32 - 1) % 2 ^ 32 } in
    if s'.outstanding_work == 0 then (stop error s').0 else s'

-- The head of the loop of `do_one`: the exchange, and what is done under the lock.
pub acquire_dispatch : Service → Service
acquire_dispatch s =
    if s.dispatch_required
    then record s { dispatch_required = false; dispatchers = s.dispatchers + 1 }
    else s

pub dispatch_completed : ℕ → Service → Service
dispatch_completed n s =
    post_deferred_completions n s.completed_ops
      (record s { completed_ops = []; dispatchers = s.dispatchers - 1 })

-- A packet without an operation: the thread leaves the loop with an error code, or goes on; `error` is as in `stop`.
pub take_interrupt : Option ℕ → List Packet → Service → Service × Option ErrorCode
take_interrupt error ps s =
    let s' = record s { port = ps } in
    if s.stopped
    then elim error [
      | none ↦ (record s { port = ps ++ (interrupt ∷ []) }, some no_error)
      | some e ↦ (s', some (system_error e))
    ]
    else (s', none)

-- What GetQueuedCompletionStatus gives, up to the test of `ready_`.
pub take_packet : Option ℕ → Packet → List Packet → Service → Service × Option ErrorCode
take_packet error (from_kernel k) ps s = (
  record s {
    port = ps;
    stored = update s.stored k (s.outcome k);
    held = update s.held k (s.held k ++ (s.outcome k ∷ []));
  },
  none,
)
take_packet error (contains_result k) ps s =
    (record s { port = ps; held = update s.held k (s.held k ++ (s.stored k ∷ [])) }, none)
take_packet error wake_for_dispatch ps s = (record s { port = ps }, none)
take_packet error interrupt ps s = take_interrupt error ps s

-- The test of `ready_`, with the call of `complete` if it was set. `rest` is what other threads hold.
pub claim : ℕ → Result → (rest : List Result) → Service → Service
claim k r rest s =
    if s.ready k
    then record s {
      held = update s.held k rest;
      completed = update s.completed k (s.completed k ++ (r ∷ []));
      finishing = s.finishing + 1;
    }
    else record s { held = update s.held k rest; ready = update s.ready k true }

-- The destructor of `work_finished_on_block_exit`.
pub finish : Option ℕ → Service → Service
finish error s = work_finished error (record s { finishing = s.finishing - 1 })

-- A program's operation at `k`: it is new or was reset, is counted, and is handed to the kernel.
abbrev pub reset : ℕ → Service → Service
reset k s = record s { ready = update s.ready k false; stored = update s.stored k (no_error, 0) }

abbrev pub started : ℕ → Result → Service → Service
started k r s = record s {
  outcome = update s.outcome k r;
  begun = update s.begun k (s.begun k ++ (r ∷ []));
}

abbrev pub counted : ℕ → Result → Service → Service
counted k r s = work_started (reset k (started k r s))

pub begin_overlapped : ℕ → Result → Service → Service
begin_overlapped k r s =
    let s' = counted k r s in
    record s' { accepted = update s.accepted k true; starting = update s.starting k true }

-- One that the kernel refuses, and `post` with an error code.
pub begin_completed : Bool → ℕ → Result → Service → Service
begin_completed ok k r s = on_completion ok k r (counted k r s)

-- `post` without an error code: the operation completes with what `reset` has stored.
pub begin_posted : Bool → ℕ → Service → Service
begin_posted ok k s = post_deferred_completion ok k (counted k (no_error, 0) s)

abbrev pub kernel_completes : ℕ → Service → Service
kernel_completes k s = record s {
  accepted = update s.accepted k false;
  port = s.port ++ (from_kernel k ∷ []);
}

-- The end of an initiating function whose operation the kernel has accepted.
pub end_overlapped : Bool → ℕ → Service → Service
end_overlapped ok k s = on_pending ok k (record s { starting = update s.starting k false })

-- What the threads and the kernel do. An operation is started when what was started before is complete.
pub data Step (s : Service) : Service → Type 0 where
  begins : (k : ℕ) (r : Result) → s.begun k ≡ s.completed k → Step s (begin_overlapped k r s)
  fails :
      (ok : Bool) (k : ℕ) (r : Result)
      → s.begun k ≡ s.completed k
      → Step s (begin_completed ok k r s)
  posts : (ok : Bool) (k : ℕ) → s.begun k ≡ s.completed k → Step s (begin_posted ok k s)
  kernel : (k : ℕ) → s.accepted k ≡ true → Step s (kernel_completes k s)
  returns : (ok : Bool) (k : ℕ) → s.starting k ≡ true → Step s (end_overlapped ok k s)
  takes :
      (error : Option ℕ) (p : Packet) (ps : List Packet)
      → s.port ≡ p ∷ ps
      → Step s (take_packet error p ps s).0
  claims :
      (k : ℕ) (r : Result) (rest : List Result) → s.held k ≡ r ∷ rest → Step s (claim k r rest s)
  finishes : (error : Option ℕ) → 0 < s.finishing → Step s (finish error s)
  acquires : Step s (acquire_dispatch s)
  dispatches : (n : ℕ) → 0 < s.dispatchers → Step s (dispatch_completed n s)
  stops : (error : Option ℕ) → Step s (stop error s).0

pub data Steps (s : Service) : Service → Type 0 where
  here : Steps s s
  next : {u v : Service} → Steps s u → Step u v → Steps s v

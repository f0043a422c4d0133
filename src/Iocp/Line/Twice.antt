-- ===== src/Iocp/Line/Twice.antt =====
-- What becomes of a `read_line_op` on Windows that reads a second part.
use jnet_lib.Base.{
  ℕ, ◌+◌, ◌≡◌, refl, ap, ◌∙◌, subst, true, false, none, List, [], ◌∷◌, ◌++◌, update, update_self,
  append_assoc,
}
use jnet_lib.Iocp.{
  Service, Result, Packet, from_kernel, contains_result, on_pending, end_overlapped,
  kernel_completes, take_packet, claim, work_started, kernel, returns, takes, claims, Steps, here,
  next,
}
use jnet_lib.Iocp.Line.{read_again}

-- A completed operation, whose callback runs, with nothing else of it in the service.
pub record IsCompleting (k : ℕ) (s : Service) : Type 0 where
  pub ready : s.ready k ≡ true
  pub port : s.port ≡ []
  pub held : s.held k ≡ []

module _ (k : ℕ) (s : Service) where
  end_lem :
      s.ready k ≡ true
      → end_overlapped true k s ≡ record s {
        starting = update s.starting k false;
        port = s.port ++ (contains_result k ∷ []);
      }
  unfolding end_overlapped on_pending
  end_lem e = rw e refl

  claim_lem :
      (r : Result) (rest : List Result)
      → s.ready k ≡ true
      → claim k r rest s ≡ record s {
        held = update s.held k rest;
        completed = update s.completed k (s.completed k ++ (r ∷ []));
        finishing = s.finishing + 1;
      }
  unfolding claim
  claim_lem r rest e = rw e refl

-- A thread takes a packet of a ready operation and calls back.
module _ (k : ℕ) (ps : List Packet) (s : Service) where
  abbrev called : Result → Service → Service
  called r u = record u {
    held = update u.held k [];
    completed = update u.completed k (u.completed k ++ (r ∷ []));
    finishing = u.finishing + 1;
  }

  abbrev by_result : Service
  by_result = (take_packet none (contains_result k) ps s).0

  abbrev by_kernel : Service
  by_kernel = (take_packet none (from_kernel k) ps s).0

  result_Steps :
      (b : Service)
      → Steps b s
      → s.ready k ≡ true
      → s.port ≡ contains_result k ∷ ps
      → s.held k ≡ []
      → Steps b (called (s.stored k) by_result)
  unfolding take_packet
  result_Steps b h e p o = subst (Steps b) (claim_lem k by_result (s.stored k) [] e) (
      next (next h (takes none (contains_result k) ps p)) (
        claims k (s.stored k) [] (
          update_self s.held k (s.held k ++ (s.stored k ∷ []))
          ∙ ap (λ l. l ++ (s.stored k ∷ [])) o)))

  kernel_Steps :
      (b : Service)
      → Steps b s
      → s.ready k ≡ true
      → s.port ≡ from_kernel k ∷ ps
      → s.held k ≡ []
      → Steps b (called (s.outcome k) by_kernel)
  unfolding take_packet
  kernel_Steps b h e p o = subst (Steps b) (claim_lem k by_kernel (s.outcome k) [] e) (
      next (next h (takes none (from_kernel k) ps p)) (
        claims k (s.outcome k) [] (
          update_self s.held k (s.held k ++ (s.outcome k ∷ []))
          ∙ ap (λ l. l ++ (s.outcome k ∷ [])) o)))

module _ (k : ℕ) (r left : Result) (s : Service) (c : IsCompleting k s) where
  abbrev reading : Service
  reading = read_again k r left s

  -- Its initiating function has returned, and the kernel has read.
  abbrev has_read : Service
  has_read = kernel_completes k (record reading {
    starting = update reading.starting k false;
    port = reading.port ++ (contains_result k ∷ []);
  })

  has_read-Steps : Steps reading has_read
  unfolding read_again work_started
  has_read-Steps =
      next
        (subst (Steps reading) (end_lem k reading c.ready)
          (next here (returns true k (update_self s.starting k true))))
        (kernel k (update_self s.accepted k true))

  abbrev first : Service
  first = called k [] s (has_read.stored k) (by_result k (from_kernel k ∷ []) has_read)

  abbrev second : Service
  second = called k [] s (first.outcome k) (by_kernel k [] first)

  second-Steps : Steps reading second
  unfolding read_again work_started take_packet
  second-Steps =
      kernel_Steps k [] first reading
        (result_Steps k (from_kernel k ∷ []) has_read reading has_read-Steps c.ready
          (ap (λ l. (l ++ (contains_result k ∷ [])) ++ (from_kernel k ∷ [])) c.port) c.held)
        c.ready refl (update_self (by_result k (from_kernel k ∷ []) has_read).held k [])

  second-begun : second.begun k ≡ s.begun k ++ (r ∷ [])
  unfolding read_again work_started take_packet
  second-begun = update_self s.begun k (s.begun k ++ (r ∷ []))

  second-completed : second.completed k ≡ s.completed k ++ (left ∷ r ∷ [])
  unfolding read_again work_started take_packet
  second-completed =
      update_self first.completed k (first.completed k ++ (first.outcome k ∷ []))
      ∙ ap (λ l. l ++ (first.outcome k ∷ []))
          (update_self s.completed k (s.completed k ++ (has_read.stored k ∷ [])))
      ∙ ap (λ o. (s.completed k ++ (has_read.stored k ∷ [])) ++ (o ∷ []))
          (update_self s.outcome k r)
      ∙ ap (λ o. (s.completed k ++ (o ∷ [])) ++ (r ∷ [])) (update_self s.stored k left)
      ∙ append_assoc (s.completed k) (left ∷ []) (r ∷ [])

-- If an operation on Windows that has completed, of which nothing else is in the service and
-- with no packet in the port, is handed to the kernel again without a reset, as
-- read_line_op::on_complete does, there is a history in which the kernel reads once and the
-- operation completes twice: first with what its OVERLAPPED structure happens to hold, then
-- with what was read.
pub read_again-Twice :
    (k : ℕ) (r left : Result) (s : Service)
    → IsCompleting k s
    → (t : Service) × Steps (read_again k r left s) t
      × (t.begun k ≡ s.begun k ++ (r ∷ []))
      × (t.completed k ≡ s.completed k ++ (left ∷ r ∷ []))
read_again-Twice k r left s c = (
  second k r left s c,
  second-Steps k r left s c,
  second-begun k r left s c,
  second-completed k r left s c,
)

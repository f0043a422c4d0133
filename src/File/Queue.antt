-- ===== src/File/Queue.antt =====
-- The queue between the users of files and the file thread: `file_ops::push`, `pop` and
-- `file_thread_loop` of epoll_file.cpp. An entry is known by its address. `signaled` is the event, which a
-- wait resets; the lock makes `push` and `pop` single steps, all else of the loop interleaves with `push`.
pub mod Chain
pub mod Order
mod Tests
use jnet_lib.Base.{
  ℕ, ◌≡◌, Bool, true, false, Option, none, some, List, [], ◌∷◌, ◌++◌, ◌==◌, if◌then◌else◌, update,
}

-- What `file_ops` keeps, and what the entries that are allocated hold in `next`.
pub record Queue : Type 0 where
  pub head : Option ℕ
  pub tail : Option ℕ
  pub next : ℕ → Option ℕ
  pub allocated : ℕ → Bool
  pub signaled : Bool

abbrev pub same : Option ℕ → Option ℕ → Bool
same none none = true
same none (some b) = false
same (some a) none = false
same (some a) (some b) = a == b

abbrev pub link : Option ℕ → ℕ → (ℕ → Option ℕ) → ℕ → Option ℕ
link none p f = f
link (some t) p f = update f t (some p)

abbrev pub head_or : Option ℕ → ℕ → Option ℕ
head_or none p = some p
head_or (some h) p = some h

pub push : ℕ → Queue → Queue
push p q = record q {
  next = link q.tail p q.next;
  tail = some p;
  head = head_or q.head p;
  signaled = true;
}

-- `entry->next`, where there is an entry.
abbrev pub next_of : (ℕ → Option ℕ) → Option ℕ → Option ℕ
next_of f none = none
next_of f (some p) = f p

pub pop : Queue → Option ℕ × Queue
pop q = (
  q.head,
  record q { head = next_of q.next q.head; tail = if same q.tail q.head then none else q.tail },
)

-- A new entry at the address `p`, and its `push`: the end of `begin_write` and the two `begin_read`.
pub begin : ℕ → Queue → Queue
unfolding push
begin p q = push p (record q { next = update q.next p none; allocated = update q.allocated p true })

pub data Stage : Type 0 where
  waiting : Stage
  woken : Stage
  holding : ℕ → Stage
  broken : Stage

-- The file thread. `begun` and `handled` are the entries so far, in the order in which they were pushed,
-- and in which the thread handed them to `on_completion`.
pub record Thread : Type 0 where
  pub queue : Queue
  pub stage : Stage
  pub stop_flag : ℕ
  pub begun : List ℕ
  pub handled : List ℕ

abbrev pub is_some : Option ℕ → Bool
is_some none = false
is_some (some p) = true

pub wake : Thread → Thread
wake t = record t {
  queue = record t.queue { signaled = false };
  stage = if t.stop_flag == 1 then broken else woken;
}

abbrev pub stage_with : Option ℕ → Stage
stage_with none = waiting
stage_with (some p) = holding p

pub take_entry : Thread → Thread
take_entry t = record t { queue = (pop t.queue).1; stage = stage_with (pop t.queue).0 }

-- With an entry: the event is set again if another follows, the entry is handled and deleted.
pub handle : ℕ → Thread → Thread
handle p t = record t {
  queue = record t.queue {
    signaled = if is_some (t.queue.next p) then true else t.queue.signaled;
    allocated = update t.queue.allocated p false;
  };
  stage = waiting;
  handled = t.handled ++ (p ∷ []);
}

pub data Step (t t' : Thread) : Type 0 where
  begins :
      (p : ℕ)
      → t.queue.allocated p ≡ false
      → t' ≡ record t { queue = begin p t.queue; begun = t.begun ++ (p ∷ []) }
      → Step t t'
  wakes : t.stage ≡ waiting → t.queue.signaled ≡ true → t' ≡ wake t → Step t t'
  takes : t.stage ≡ woken → t' ≡ take_entry t → Step t t'
  handles : (p : ℕ) → t.stage ≡ holding p → t' ≡ handle p t → Step t t'

pub data Steps (t : Thread) : Thread → Type 0 where
  here : Steps t t
  next : {u v : Thread} → Steps t u → Step u v → Steps t v

abbrev pub idle_thread : Thread
idle_thread = record {
  queue = record {
    head = none;
    tail = none;
    next = λ p. none;
    allocated = λ p. false;
    signaled = false;
  };
  stage = waiting;
  stop_flag = 0;
  begun = [];
  handled = [];
}

-- ===== src/File/Queue/Order.antt =====
-- The file thread takes every entry once and in order, and never sleeps on an entry.
use jnet_lib.Base.{
  update, ℕ, ◌≡◌, ◌⊎◌, inl, inr, refl, sym, ap, ◌∙◌, subst, Bool, true, false, Option, List, [],
  ◌∷◌, ◌++◌, ◌==◌, if◌then◌else◌, arith, append_assoc, Bool-cases,
}
use jnet_lib.File.Queue.{
  Queue, push, pop, begin, Stage, waiting, woken, holding, broken, Thread, wake, take_entry, handle,
  Step, begins, wakes, takes, handles, Steps, here, next, idle_thread, is_some, stage_with,
}
use jnet_lib.File.Queue.Chain.{
  Chain, AllTrue, Holds, begin-Holds, pop-first, pop-Holds, pop-next, pop-allocated, first, rest,
  AllTrue-append, AllTrue-free, other, free-other,
}

abbrev pub in_hand : Stage → List ℕ
in_hand waiting = []
in_hand woken = []
in_hand (holding p) = p ∷ []
in_hand broken = []

-- With entries in the queue, the event is set, or the thread is about to look at it: it
-- is woken, or holds an entry that another follows.
abbrev pub IsAwake : (ℕ → Option ℕ) → Bool → Stage → List ℕ → Type 0
IsAwake f signaled s [] = Unit
IsAwake f signaled woken (x ∷ xs) = Unit
IsAwake f signaled broken (x ∷ xs) = Unit
IsAwake f signaled waiting (x ∷ xs) = signaled ≡ true
IsAwake f signaled (holding p) (x ∷ xs) = (signaled ≡ true) ⊎ (is_some (f p) ≡ true)

abbrev HeldIsLive : (ℕ → Bool) → List ℕ → Stage → Type 0
HeldIsLive g xs waiting = Unit
HeldIsLive g xs woken = Unit
HeldIsLive g xs (holding p) = (g p ≡ true) × AllTrue (other p) xs
HeldIsLive g xs broken = Unit

-- `xs` are the entries in the queue.
pub record IsInOrder (t : Thread) (xs : List ℕ) : Type 0 where
  pub holds : Holds t.queue xs
  pub order : t.handled ++ (in_hand t.stage ++ xs) ≡ t.begun
  pub awake : IsAwake t.queue.next t.queue.signaled t.stage xs
  pub held : HeldIsLive t.queue.allocated xs t.stage

begin-signaled : (p : ℕ) (q : Queue) → (begin p q).signaled ≡ true
unfolding begin push
begin-signaled p q = refl

IsAwake-signaled :
    (f : ℕ → Option ℕ) (b : Bool) (s : Stage) (xs : List ℕ) → b ≡ true → IsAwake f b s xs
IsAwake-signaled f b s [] e = tt
IsAwake-signaled f b woken (x ∷ xs) e = tt
IsAwake-signaled f b broken (x ∷ xs) e = tt
IsAwake-signaled f b waiting (x ∷ xs) e = e
IsAwake-signaled f b (holding p) (x ∷ xs) e = inl e

HeldIsLive-begin :
    (g : ℕ → Bool) (xs : List ℕ) (s : Stage) (p : ℕ)
    → HeldIsLive g xs s
    → g p ≡ false
    → HeldIsLive (update g p true) (xs ++ (p ∷ [])) s
HeldIsLive-begin g xs waiting p h o = tt
HeldIsLive-begin g xs woken p h o = tt
HeldIsLive-begin g xs broken p h o = tt
HeldIsLive-begin g xs (holding k) p h o =
    (ground (arith, h.0), AllTrue-append (other k) xs p h.1 (free-other g k p h.0 o))

begin-held :
    (q : Queue) (xs : List ℕ) (s : Stage) (p : ℕ)
    → HeldIsLive q.allocated xs s
    → q.allocated p ≡ false
    → HeldIsLive (begin p q).allocated (xs ++ (p ∷ [])) s
unfolding begin push
begin-held q xs s p h o = HeldIsLive-begin q.allocated xs s p h o

-- What is known of the lists when the stage is known.
order_at :
    (t : Thread) (xs : List ℕ) (s : Stage)
    → IsInOrder t xs
    → t.stage ≡ s
    → t.handled ++ (in_hand s ++ xs) ≡ t.begun
order_at t xs s v e = subst (λ k. t.handled ++ (in_hand k ++ xs) ≡ t.begun) e v.order

begins-IsInOrder :
    (t : Thread) (xs : List ℕ) (p : ℕ)
    → IsInOrder t xs
    → t.queue.allocated p ≡ false
    → IsInOrder (record t { queue = begin p t.queue; begun = t.begun ++ (p ∷ []) }) (xs ++ (p ∷ []))
begins-IsInOrder t xs p v o = record {
  holds = begin-Holds t.queue xs p v.holds o;
  order =
      ap (λ l. t.handled ++ l) (sym (append_assoc (in_hand t.stage) xs (p ∷ [])))
      ∙ sym (append_assoc t.handled (in_hand t.stage ++ xs) (p ∷ []))
      ∙ ap (λ l. l ++ (p ∷ [])) v.order;
  awake = IsAwake-signaled _ _ t.stage (xs ++ (p ∷ [])) (begin-signaled p t.queue);
  held = begin-held t.queue xs t.stage p v.held o;
}

signal-Holds :
    (q : Queue) (xs : List ℕ) (b : Bool) → Holds q xs → Holds (record q { signaled = b }) xs
signal-Holds q xs b v = record {
  chain = v.chain;
  end = v.end;
  live = v.live;
  distinct = v.distinct;
}

broken-IsAwake : (f : ℕ → Option ℕ) (b : Bool) (xs : List ℕ) → IsAwake f b broken xs
broken-IsAwake f b [] = tt
broken-IsAwake f b (x ∷ xs) = tt

woken-IsAwake : (f : ℕ → Option ℕ) (b : Bool) (xs : List ℕ) → IsAwake f b woken xs
woken-IsAwake f b [] = tt
woken-IsAwake f b (x ∷ xs) = tt

followed-IsAwake :
    (f : ℕ → Option ℕ) (b : Bool) (p : ℕ) (xs : List ℕ)
    → Chain f (f p) xs
    → IsAwake f b (holding p) xs
followed-IsAwake f b p [] c = tt
followed-IsAwake f b p (x ∷ xs) c = inr (rw c.0 refl)

checked-IsAwake :
    (f : ℕ → Option ℕ) (b : Bool) (p : ℕ) (xs : List ℕ)
    → IsAwake f b (holding p) xs
    → IsAwake f (if is_some (f p) then true else b) waiting xs
checked-IsAwake f b p [] a = tt
checked-IsAwake f b p (x ∷ xs) a = ground (arith, a)

wakes-IsInOrder :
    (t : Thread) (xs : List ℕ) → IsInOrder t xs → t.stage ≡ waiting → IsInOrder (wake t) xs
unfolding wake
wakes-IsInOrder t xs v e = elim (Bool-cases (t.stop_flag == 1)) [
  | inl y ↦ rw y (record {
    holds = signal-Holds t.queue xs false v.holds;
    order = order_at t xs waiting v e;
    awake = broken-IsAwake t.queue.next false xs;
    held = tt;
  })
  | inr y ↦ rw y (record {
    holds = signal-Holds t.queue xs false v.holds;
    order = order_at t xs waiting v e;
    awake = woken-IsAwake t.queue.next false xs;
    held = tt;
  })
]

-- The thread after a `pop` that returned `first xs`.
takes-IsInOrder :
    (t : Thread) (xs : List ℕ)
    → IsInOrder t xs
    → t.stage ≡ woken
    → IsInOrder (take_entry t) (rest xs)
unfolding take_entry
takes-IsInOrder t xs v e =
    subst (λ o. IsInOrder (record t { queue = (pop t.queue).1; stage = stage_with o }) (rest xs))
      (sym (pop-first t.queue xs v.holds)) (taken xs v.holds (order_at t xs woken v e))
  where
    taken :
        (xs : List ℕ)
        → Holds t.queue xs
        → t.handled ++ xs ≡ t.begun
        → IsInOrder (record t { queue = (pop t.queue).1; stage = stage_with (first xs) }) (rest xs)
    taken [] h o = record { holds = pop-Holds t.queue [] h; order = o; awake = tt; held = tt }
    taken (x ∷ xs) h o = record {
      holds = pop-Holds t.queue (x ∷ xs) h;
      order = o;
      awake =
          rw (pop-next t.queue)
            (followed-IsAwake t.queue.next (pop t.queue).1.signaled x xs h.chain.1);
      held = rw (pop-allocated t.queue) (h.live.0, h.distinct.0);
    }

handles-IsInOrder :
    (t : Thread) (xs : List ℕ) (p : ℕ)
    → IsInOrder t xs
    → t.stage ≡ holding p
    → IsInOrder (handle p t) xs
unfolding handle
handles-IsInOrder t xs p v e = record {
  holds = record {
    chain = v.holds.chain;
    end = v.holds.end;
    live = AllTrue-free t.queue.allocated p xs v.holds.live held.1;
    distinct = v.holds.distinct;
  };
  order = append_assoc t.handled (p ∷ []) xs ∙ order_at t xs (holding p) v e;
  awake =
      checked-IsAwake t.queue.next t.queue.signaled p xs
        (subst (λ s. IsAwake t.queue.next t.queue.signaled s xs) e v.awake);
  held = tt;
}
  where
    held : HeldIsLive t.queue.allocated xs (holding p)
    held = subst (HeldIsLive t.queue.allocated xs) e v.held

Step-IsInOrder :
    (t t' : Thread) (xs : List ℕ) → IsInOrder t xs → Step t t' → (ys : List ℕ) × IsInOrder t' ys
Step-IsInOrder t t' xs v (begins p o e) = (
  xs ++ (p ∷ []),
  subst (λ u. IsInOrder u (xs ++ (p ∷ []))) (sym e) (begins-IsInOrder t xs p v o),
)
Step-IsInOrder t t' xs v (wakes w g e) =
    (xs, subst (λ u. IsInOrder u xs) (sym e) (wakes-IsInOrder t xs v w))
Step-IsInOrder t t' xs v (takes w e) =
    (rest xs, subst (λ u. IsInOrder u (rest xs)) (sym e) (takes-IsInOrder t xs v w))
Step-IsInOrder t t' xs v (handles p w e) =
    (xs, subst (λ u. IsInOrder u xs) (sym e) (handles-IsInOrder t xs p v w))

idle-IsInOrder : IsInOrder idle_thread []
idle-IsInOrder = record {
  holds = record { chain = refl; end = refl; live = tt; distinct = tt };
  order = refl;
  awake = tt;
  held = tt;
}

-- In every history of the file thread and of the threads that push entries, from the empty
-- queue, the linked entries from head_ to tail_ are a list: what was handled, what the thread
-- holds and this list are the pushed entries in their order, and while the list is not empty
-- and the thread waits, the event is set.
pub Steps-IsInOrder : {t : Thread} → Steps idle_thread t → (xs : List ℕ) × IsInOrder t xs
Steps-IsInOrder here = ([], idle-IsInOrder)
Steps-IsInOrder (next {u} {v} h s) = let (xs, w) = Steps-IsInOrder h in Step-IsInOrder u v xs w s

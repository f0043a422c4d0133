-- ===== src/Service/NullWrite.antt =====
-- When `service::do_one` of epoll_service.cpp writes the error of a socket through a null pointer.
use jnet_lib.Base.{
  ℕ, zero, suc, ◌≡◌, refl, ◌∙◌, inl, inr, Bool, true, false, ◌&&◌, ◌||◌, Option, none, some, List,
  [], ◌∷◌, get_elem?, set, Bool-cases, arith,
}
use jnet_lib.Operation.{Op}
use jnet_lib.Service.{Socket, Service, post_deferred_completion}
use jnet_lib.Service.Events.{Event, put, deliver, on_in, on_out, then_out, handle_event}

abbrev pub is_none : {A : Type 0} → Option A → Bool
is_none none = true
is_none (some a) = false

and_swap : (a b c : Bool) → (a && (b && c)) ≡ (b && (a && c))
and_swap true b c = refl
and_swap false true c = refl
and_swap false false c = refl

and_false : (a b c : Bool) → b ≡ false → (a && (b && c)) ≡ false
and_false a b c e = rw e (either a)
  where
    either : (a : Bool) → (a && false) ≡ false
    either true = refl
    either false = refl

module _ {A : Type 0} where
  get_elem?-set :
      (ks : List (Socket A)) (i : ℕ) {k : Socket A} (k' : Socket A)
      → get_elem? ks i ≡ some k
      → get_elem? (set ks i k') i ≡ some k'
  get_elem?-set [] i k' e = absurd (cc e)
  get_elem?-set (x ∷ ks) zero k' e = refl
  get_elem?-set (x ∷ ks) (suc i) k' e = get_elem?-set ks i k' e

  deliver_null :
      (e : Event) (o : Option (Op A)) (k : Socket A) (s : Service A)
      → is_none (deliver e o k s) ≡ (e.is_err && is_none o)
  unfolding deliver
  deliver_null e none k s = ground arith
  deliver_null e (some op) k s = ground arith

  on_out_null :
      (e : Event) (k : Socket A) (s : Service A)
      → is_none (on_out e (some k) s) ≡ (e.is_out && (e.is_err && is_none k.out_op))
  unfolding on_out
  on_out_null e k s = elim (Bool-cases e.is_out) [
    | inl y ↦ rw y (deliver_null e k.out_op _ s)
    | inr y ↦ rw y refl
  ]

  then_out_null :
      (e : Event) (s : Service A) (k : Socket A)
      → get_elem? s.sockets e.socket ≡ some k
      → is_none (then_out e (some s)) ≡ (e.is_out && (e.is_err && is_none k.out_op))
  then_out_null e s k at = rw at (on_out_null e k s)

  -- After the exchange for reading.
  delivered_null :
      (e : Event) (o : Option (Op A)) {k₀ : Socket A} (k : Socket A) (s : Service A)
      → get_elem? s.sockets e.socket ≡ some k₀
      → is_none (then_out e (deliver e o k s))
        ≡ (e.is_err && (is_none o || (e.is_out && is_none k.out_op)))
  unfolding deliver post_deferred_completion
  delivered_null e (some op) k s at =
      then_out_null e _ k (get_elem?-set s.sockets e.socket k at)
      ∙ and_swap e.is_out e.is_err (is_none k.out_op)
  delivered_null e none k s at = elim (Bool-cases e.is_err) [
    | inl y ↦ rw y refl
    | inr y ↦ simp y (
        then_out_null e (put e.socket k s) k (get_elem?-set s.sockets e.socket k at)
        ∙ and_false e.is_out e.is_err (is_none k.out_op) y)
  ]

  -- The event of a known socket makes do_one write through a null pointer exactly if it
  -- reports an error together with a direction, in or out, that has no operation.
  pub handle_event_null :
      (e : Event) (s : Service A) (k : Socket A)
      → get_elem? s.sockets e.socket ≡ some k
      → is_none (handle_event e s)
        ≡ (e.is_err && ((e.is_in && is_none k.in_op) || (e.is_out && is_none k.out_op)))
  unfolding handle_event on_in
  handle_event_null e s k at = elim (Bool-cases e.is_in) [
    | inl y ↦ simp (at, y) (delivered_null e k.in_op _ s at)
    | inr y ↦ simp (at, y) (on_out_null e k s ∙ and_swap e.is_out e.is_err (is_none k.out_op))
  ]

-- ===== src/Iocp/Delivery/Drain.antt =====
-- The packets of the port in front of those of an operation are taken.
use jnet_lib.Base.{
  ℕ, ◌+◌, ◌<◌, ◌≡◌, inl, inr, refl, sym, ap, ap₂, ◌∙◌, subst, Bool, true, false, Bool-cases, none,
  List, [], ◌∷◌, ◌++◌, append-nil, append_assoc, ◌==◌, arith,
}
use mathlib.Core.List.{Memᴰ}
use jnet_lib.Iocp.{
  Packet, from_kernel, contains_result, interrupt, wake_for_dispatch, Service, take_interrupt,
  take_packet, takes, Steps, here, next,
}
use jnet_lib.Iocp.Delivery.{bit, fresh_in, result_in, view}
use jnet_lib.Iocp.Delivery.Moves.{quiet_append}

pub joined : {s t u : Service} → Steps s t → Steps t u → Steps s u
joined h here = h
joined h (next k a) = next (joined h k) a

-- The packet is one of the operation's.
abbrev pub concerns : ℕ → Packet → Bool
concerns k (from_kernel j) = k == j
concerns k (contains_result j) = k == j
concerns k interrupt = false
concerns k wake_for_dispatch = false

-- A packet that does not concern the operation is taken: the port has its tail, and what is posted again behind it.
pub record Passes (k : ℕ) (ps : List Packet) (s t : Service) : Type 0 where
  pub behind : List Packet
  pub port : t.port ≡ ps ++ behind
  pub same : view t k ≡ view s k

pass :
    (k : ℕ) (p : Packet) (ps : List Packet) (s : Service)
    → s.port ≡ p ∷ ps
    → concerns k p ≡ false
    → Passes k ps s (take_packet none p ps s).0
unfolding take_packet take_interrupt
pass k (from_kernel j) ps s e o = record {
  behind = [];
  port = sym (append-nil ps);
  same = rw o (
      ap₂ (λ n m. record (view s k) { fresh = n; results = m })
        (omega (arith, ap (fresh_in k) e, ap bit o)) (omega (arith, ap (result_in k) e)));
}
pass k (contains_result j) ps s e o = record {
  behind = [];
  port = sym (append-nil ps);
  same = rw o (
      ap₂ (λ n m. record (view s k) { fresh = n; results = m }) (omega (arith, ap (fresh_in k) e))
        (omega (arith, ap (result_in k) e, ap bit o)));
}
pass k wake_for_dispatch ps s e o = record {
  behind = [];
  port = sym (append-nil ps);
  same =
      ap₂ (λ n m. record (view s k) { fresh = n; results = m }) (omega (arith, ap (fresh_in k) e))
        (omega (arith, ap (result_in k) e));
}
pass k interrupt ps s e o = elim (Bool-cases s.stopped) [
  | inl d ↦ rw d (record {
    behind = interrupt ∷ [];
    port = refl;
    same = quiet_append (record s { port = ps }) k interrupt refl refl ∙ gone;
  })
  | inr d ↦ rw d (record { behind = []; port = sym (append-nil ps); same = gone })
]
  where
    gone : view (record s { port = ps }) k ≡ view s k
    gone =
        ap₂ (λ n m. record (view s k) { fresh = n; results = m }) (omega (arith, ap (fresh_in k) e))
          (omega (arith, ap (result_in k) e))

-- The first packet of the operation.
pub record Found (k : ℕ) (ps : List Packet) : Type 0 where
  pub before : List Packet
  pub packet : Packet
  pub after : List Packet
  pub split : ps ≡ before ++ (packet ∷ after)
  pub others : (p : Packet) → Memᴰ p before → concerns k p ≡ false
  pub own : concerns k packet ≡ true

pub find : (k : ℕ) (ps : List Packet) → 0 < fresh_in k ps + result_in k ps → Found k ps
find k [] l = absurd (omega (arith, l))
find k (p ∷ ps) l = elim (Bool-cases (concerns k p)) [
  | inl c ↦ record {
    before = [];
    packet = p;
    after = ps;
    split = refl;
    others = λ q m. elim m [ ];
    own = c;
  }
  | inr c ↦
      (let r = find k ps (fewer p c l) in
        record {
          before = p ∷ r.before;
          packet = r.packet;
          after = r.after;
          split = ap (λ l. p ∷ l) r.split;
          others = λ q m. elim m [
            | Memᴰ.head e ↦ subst (λ x. concerns k x ≡ false) (sym e) c
            | Memᴰ.tail n ↦ r.others q n
          ];
          own = r.own;
        })
]
  where
    fewer :
        (q : Packet)
        → concerns k q ≡ false
        → 0 < fresh_in k (q ∷ ps) + result_in k (q ∷ ps)
        → 0 < fresh_in k ps + result_in k ps
    fewer (from_kernel j) c l = omega (arith, l, ap bit c)
    fewer (contains_result j) c l = omega (arith, l, ap bit c)
    fewer interrupt c l = l
    fewer wake_for_dispatch c l = l

-- The packets before it are taken.
pub record Fronted (k : ℕ) (p : Packet) (s : Service) : Type 0 where
  pub state : Service
  pub steps : Steps s state
  pub behind : List Packet
  pub port : state.port ≡ p ∷ behind
  pub same : view state k ≡ view s k

pub drain :
    (k : ℕ) (p : Packet) (before after : List Packet) (s : Service)
    → s.port ≡ before ++ (p ∷ after)
    → ((q : Packet) → Memᴰ q before → concerns k q ≡ false)
    → Fronted k p s
drain k p [] after s e o = record { state = s; steps = here; behind = after; port = e; same = refl }
drain k p (q ∷ qs) after s e o =
    let w = pass k q (qs ++ (p ∷ after)) s e (o q (Memᴰ.head refl)) in
    let t = (take_packet none q (qs ++ (p ∷ after)) s).0 in
    let r =
      drain k p qs (after ++ w.behind) t (w.port ∙ append_assoc qs (p ∷ after) w.behind)
        (λ x m. o x (Memᴰ.tail m)) in
    record {
      state = r.state;
      steps = joined (next here (takes none q (qs ++ (p ∷ after)) e)) r.steps;
      behind = r.behind;
      port = r.port;
      same = r.same ∙ w.same;
    }

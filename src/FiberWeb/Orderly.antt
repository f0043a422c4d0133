-- ===== src/FiberWeb/Orderly.antt =====
-- In which order a context calls its stream.
use jnet_lib.Base.{
  ℕ, ◌≡◌, refl, sym, ap, ◌∙◌, Bool, true, false, not, ◌&&◌, List, [], ◌∷◌, ◌==◌, if◌then◌else◌,
  Bool-cases, inl, inr,
}
use jnet_lib.Errors.{ErrorCode}
use jnet_lib.Web.{StreamType, uses_ssl}
use jnet_lib.FiberWeb.{
  Call, connects, shuts_down, closes, handshakes, receives, sends, Context, make, check_closed,
  handshake_type, Request, connect, handshake, shutdown, close, recv, send, perform, performs,
}

-- Neither a close nor a shutdown.
abbrev pub is_open : List Call → Bool
is_open [] = true
is_open (closes ∷ ks) = false
is_open (shuts_down ∷ ks) = false
is_open (connects ∷ ks) = is_open ks
is_open (handshakes t ∷ ks) = is_open ks
is_open (receives n ∷ ks) = is_open ks
is_open (sends n ∷ ks) = is_open ks

abbrev pub needs_ssl : Call → Bool
needs_ssl shuts_down = true
needs_ssl (handshakes t) = true
needs_ssl _ = false

-- A close is always in order; any other call only before each close and shutdown, a handshake and a shutdown only on SSL.
abbrev pub InOrder : StreamType → Call → List Call → Type 0
InOrder t closes ks = Unit
InOrder t connects ks = is_open ks ≡ true
InOrder t shuts_down ks = (is_open ks ≡ true) × (uses_ssl t ≡ true)
InOrder t (handshakes h) ks = (is_open ks ≡ true) × (uses_ssl t ≡ true) × (h ≡ handshake_type t)
InOrder t (receives n) ks = is_open ks ≡ true
InOrder t (sends n) ks = is_open ks ≡ true

abbrev pub AllInOrder : StreamType → List Call → Type 0
AllInOrder t [] = Unit
AllInOrder t (k ∷ ks) = InOrder t k ks × AllInOrder t ks

module _ {S : Type 0} (stream : S → Call → S × ErrorCode × ℕ) (t : StreamType) where
  pub record IsOrderly (c : Context S) : Type 0 where
    pub same_type : c.stream_type ≡ t
    pub in_order : AllInOrder t c.log
    pub is_closed : check_closed c ≡ not (is_open c.log)

  abbrev after : (k : Call) → S → Context S → Context S
  after k s c = record c { stream = s; log = k ∷ c.log }

  -- A call that neither closes nor shuts down.
  transfer-IsOrderly :
      (k : Call) (s : S) (c : Context S)
      → is_open (k ∷ c.log) ≡ is_open c.log
      → InOrder t k c.log
      → IsOrderly c
      → IsOrderly (after k s c)
  unfolding check_closed
  transfer-IsOrderly k s c q i o = record {
    same_type = o.same_type;
    in_order = (i, o.in_order);
    is_closed = o.is_closed ∙ ap not (sym q);
  }

  shut-IsOrderly :
      (s : S) (c : Context S)
      → is_open c.log ≡ true
      → uses_ssl c.stream_type ≡ true
      → IsOrderly c
      → IsOrderly (after shuts_down s (record c { shutdown_flag = 1 }))
  unfolding check_closed
  shut-IsOrderly s c i u o = record {
    same_type = o.same_type;
    in_order = ((i, ap uses_ssl (sym o.same_type) ∙ u), o.in_order);
    is_closed = closed_anyway (c.close_flag == 1) (uses_ssl c.stream_type) u;
  }
    where
      closed_anyway : (a b : Bool) → b ≡ true → (if a then true else b && true) ≡ true
      closed_anyway true b e = refl
      closed_anyway false b e = rw e refl

  close-IsOrderly :
      (s : S) (c : Context S)
      → IsOrderly c
      → IsOrderly (after closes s (record c { close_flag = 1 }))
  unfolding check_closed
  close-IsOrderly s c o = record {
    same_type = o.same_type;
    in_order = (tt, o.in_order);
    is_closed = refl;
  }

  opened : (c : Context S) → IsOrderly c → check_closed c ≡ false → is_open c.log ≡ true
  opened c o d = elim (Bool-cases (is_open c.log)) [
    | inl i ↦ i
    | inr i ↦ absurd (cc (d, o.is_closed, ap not i))
  ]

  perform-IsOrderly :
      (r : Request) (n : ℕ) (c : Context S) → IsOrderly c → IsOrderly (perform stream r n c).0
  unfolding perform
  perform-IsOrderly connect n c o = elim (Bool-cases (check_closed c)) [
    | inl d ↦ rw d o
    | inr d ↦
        rw d (transfer-IsOrderly connects (stream c.stream connects).0 c refl (opened c o d) o)
  ]
  perform-IsOrderly handshake n c o = elim (Bool-cases (check_closed c)) [
    | inl d ↦ rw d o
    | inr d ↦ elim (Bool-cases (uses_ssl c.stream_type)) [
      | inr u ↦ rw d (rw u o)
      | inl u ↦ rw d (
          rw u (
            transfer-IsOrderly (handshakes (handshake_type c.stream_type))
              (stream c.stream (handshakes (handshake_type c.stream_type))).0 c refl
              (opened c o d, ap uses_ssl (sym o.same_type) ∙ u, ap handshake_type o.same_type) o))
    ]
  ]
  perform-IsOrderly shutdown n c o = elim (Bool-cases (check_closed c)) [
    | inl d ↦ rw d o
    | inr d ↦ elim (Bool-cases (uses_ssl c.stream_type)) [
      | inr u ↦ rw d (rw u o)
      | inl u ↦ elim (Bool-cases (c.shutdown_flag == 0)) [
        | inl z ↦
            rw d (rw u (rw z (shut-IsOrderly (stream c.stream shuts_down).0 c (opened c o d) u o)))
        | inr z ↦ rw d (rw u (rw z o))
      ]
    ]
  ]
  perform-IsOrderly (recv len) n c o = elim (Bool-cases (check_closed c)) [
    | inl d ↦ rw d o
    | inr d ↦ rw d (
        transfer-IsOrderly (receives len) (stream c.stream (receives len)).0 c refl (opened c o d)
          o)
  ]
  perform-IsOrderly (send len) n c o = elim (Bool-cases (check_closed c)) [
    | inl d ↦ rw d o
    | inr d ↦
        rw d
          (transfer-IsOrderly (sends len) (stream c.stream (sends len)).0 c refl (opened c o d) o)
  ]
  perform-IsOrderly close n c o = close-IsOrderly (stream c.stream closes).0 c o

  performs_from :
      (rs : List (Request × ℕ)) (c : Context S) → IsOrderly c → IsOrderly (performs stream rs c)
  unfolding performs
  performs_from [] c o = o
  performs_from (r ∷ rs) c o =
      performs_from rs (perform stream r.0 r.1 c).0 (perform-IsOrderly r.0 r.1 c o)

  -- Whatever operations a fiber calls on a new FiberConContext, and whatever its stream
  -- answers: no call of the stream but a close is made after a close or a shutdown, so that it
  -- is shut down once at most; only SSL streams shake hands and are shut down, an HTTPS one
  -- shakes hands as the server, an SSL one as the client; and check_closed says whether the
  -- stream was closed or shut down.
  pub performs-IsOrderly :
      (rs : List (Request × ℕ)) (s : S) → IsOrderly (performs stream rs (make t s))
  unfolding make check_closed
  performs-IsOrderly rs s =
      performs_from rs (make t s)
        (record { same_type = refl; in_order = tt; is_closed = still (uses_ssl t) })
    where
      still : (b : Bool) → (b && false) ≡ false
      still true = refl
      still false = refl

-- ===== src/Http/Headers.antt =====
-- What a request becomes from the pieces that the parser hands over.
use jnet_lib.Base.{
  ℕ, ◌≡◌, refl, sym, ap, ◌∙◌, some, List, [], ◌∷◌, ◌++◌, map, append_assoc, append-nil,
}
use jnet_lib.Http.{
  Event, message_begin, url, header_field, header_value, Run, calls, Parser, Header, empty_header,
  update_back, append_name, append_value, RequestOp, on_message_begin, on_url, on_header_field,
  on_header_value, on_event, run,
}

-- A header whose name and value come in one piece or more.
pub record Pieces : Type 0 where
  pub name_head : List ℕ
  pub name_rest : List (List ℕ)
  pub value_head : List ℕ
  pub value_rest : List (List ℕ)

abbrev pub join : List (List ℕ) → List ℕ
join [] = []
join (b ∷ bs) = b ++ join bs

abbrev pub whole : Pieces → Header
whole h = record {
  name = h.name_head ++ join h.name_rest;
  value = h.value_head ++ join h.value_rest;
}

abbrev pub header_events : Pieces → List Event
header_events h =
    header_field h.name_head ∷ map header_field h.name_rest
    ++ (header_value h.value_head ∷ map header_value h.value_rest)

abbrev pub all_headers : List Pieces → List Event
all_headers [] = []
all_headers (h ∷ hs) = header_events h ++ all_headers hs

-- The beginning of a request.
abbrev pub head_events : List (List ℕ) → List Pieces → List Event
head_events us hs = message_begin ∷ (map url us ++ all_headers hs)

-- The run `r` makes these calls, each with the parser as it then is, and then goes on as `last`, if each callback leaves the
-- parser as it is and returns 0.
abbrev pub Plays : {S : Type 0} → List Event → Run S → Run S → Type 0
Plays [] r last = r ≡ last
Plays {S} (e ∷ es) r last =
    (p : S) × (go_on : S → ℕ → Run S) × (r ≡ calls e p go_on) × Plays es (go_on p 0) last

update_back-snoc :
    (f : Header → Header) (hs : List Header) (h : Header)
    → update_back f (hs ++ (h ∷ [])) ≡ some (hs ++ (f h ∷ []))
update_back-snoc f [] h = refl
update_back-snoc f (g ∷ []) h = refl
update_back-snoc f (g ∷ g' ∷ hs) h = rw (update_back-snoc f (g' ∷ hs) h) refl

Plays-append :
    {S : Type 0} (es es' : List Event) (r last : Run S)
    → Plays (es ++ es') r last
    → (mid : Run S) × Plays es r mid × Plays es' mid last
Plays-append [] es' r last l = (r, refl, l)
Plays-append (e ∷ es) es' r last (p, j, q, l) =
    let (mid, m, n) = Plays-append es es' (j p 0) last l in (mid, (p, j, q, m), n)

module _ (hp : Parser) where
  abbrev with_uri : RequestOp hp → List ℕ → RequestOp hp
  with_uri op u = record op { request = record op.request { uri = u } }

  abbrev with_headers : RequestOp hp → List Header → ℕ → RequestOp hp
  with_headers op hs last = record op {
    request = record op.request { headers = hs };
    last_field_or_value = last;
  }

  pub run-calls :
      (e : Event) (p : hp.State) (j : hp.State → ℕ → Run hp.State) (op : RequestOp hp)
      {q : hp.State} {op' : RequestOp hp} {n : ℕ}
      → on_event hp e p op ≡ some (q, op', n)
      → run hp (calls e p j) op ≡ run hp (j q n) op'
  unfolding run
  run-calls e p j op h = rw (run, h) refl

  -- The callback of a call that is played makes `op'` of the operation.
  one_call :
      (e : Event) (op op' : RequestOp hp) (r : Run hp.State) (p : hp.State)
      (j : hp.State → ℕ → Run hp.State)
      → ((p : hp.State) → on_event hp e p op ≡ some (p, op', 0))
      → r ≡ calls e p j
      → run hp r op ≡ run hp (j p 0) op'
  one_call e op op' r p j h q = ap (λ x. run hp x op) q ∙ run-calls e p j op (h p)

  urls :
      (us : List (List ℕ)) (op : RequestOp hp) (r last : Run hp.State)
      → Plays (map url us) r last
      → run hp r op ≡ run hp last (with_uri op (op.request.uri ++ join us))
  unfolding on_event on_url
  urls [] op r last l =
      ap (λ x. run hp x op) l
      ∙ ap (λ u. run hp last (with_uri op u)) (sym (append-nil op.request.uri))
  urls (u ∷ us) op r last (p, j, q, l) =
      one_call (url u) op (with_uri op (op.request.uri ++ u)) r p j (λ x. refl) q
      ∙ urls us (with_uri op (op.request.uri ++ u)) (j p 0) last l
      ∙ ap (λ v. run hp last (with_uri op v)) (append_assoc op.request.uri u (join us))

  module _ (done : List Header) where
    abbrev after : RequestOp hp → Header → ℕ → RequestOp hp
    after op h last = with_headers op (done ++ (h ∷ [])) last

    field_added :
        (b : List ℕ) (op : RequestOp hp) (h : Header) (p : hp.State)
        → on_event hp (header_field b) p (after op h 0) ≡ some (p, after op (append_name b h) 0, 0)
    unfolding on_event on_header_field
    field_added b op h p = rw (update_back-snoc (append_name b) done h) refl

    value_added :
        (b : List ℕ) (op : RequestOp hp) (h : Header) (last : ℕ) (p : hp.State)
        → on_event hp (header_value b) p (after op h last)
          ≡ some (p, after op (append_value b h) 1, 0)
    unfolding on_event on_header_value
    value_added b op h last p = rw (update_back-snoc (append_value b) done h) refl

    names :
        (bs : List (List ℕ)) (op : RequestOp hp) (h : Header) (r last : Run hp.State)
        → Plays (map header_field bs) r last
        → run hp r (after op h 0) ≡ run hp last (after op (append_name (join bs) h) 0)
    names [] op h r last l =
        ap (λ x. run hp x (after op h 0)) l
        ∙ ap (λ n. run hp last (after op (record h { name = n }) 0)) (sym (append-nil h.name))
    names (b ∷ bs) op h r last (p, j, q, l) =
        one_call (header_field b) (after op h 0) (after op (append_name b h) 0) r p j
          (field_added b op h) q
        ∙ names bs op (append_name b h) (j p 0) last l
        ∙ ap (λ n. run hp last (after op (record h { name = n }) 0))
            (append_assoc h.name b (join bs))

    values :
        (b : List ℕ) (bs : List (List ℕ)) (op : RequestOp hp) (h : Header) (n : ℕ)
        (r last : Run hp.State)
        → Plays (map header_value (b ∷ bs)) r last
        → run hp r (after op h n) ≡ run hp last (after op (append_value (b ++ join bs) h) 1)
    values b [] op h n r last (p, j, q, l) =
        one_call (header_value b) (after op h n) (after op (append_value b h) 1) r p j
          (value_added b op h n) q
        ∙ ap (λ x. run hp x (after op (append_value b h) 1)) l
        ∙ ap (λ n. run hp last (after op (record h { value = h.value ++ n }) 1))
            (sym (append-nil b))
    values b (c ∷ bs) op h n r last (p, j, q, l) =
        one_call (header_value b) (after op h n) (after op (append_value b h) 1) r p j
          (value_added b op h n) q
        ∙ values c bs op (append_value b h) 1 (j p 0) last l
        ∙ ap (λ n. run hp last (after op (record h { value = n }) 1))
            (append_assoc h.value b (c ++ join bs))

    first_field :
        (b : List ℕ) (op : RequestOp hp) (p : hp.State)
        → on_event hp (header_field b) p (with_headers op done 1)
          ≡ some (p, after op (record { name = b; value = [] }) 0, 0)
    unfolding on_event on_header_field
    first_field b op p = rw (update_back-snoc (append_name b) done empty_header) refl

    one_header :
        (h : Pieces) (op : RequestOp hp) (r last : Run hp.State)
        → Plays (header_events h) r last
        → run hp r (with_headers op done 1)
          ≡ run hp last (with_headers op (done ++ (whole h ∷ [])) 1)
    one_header h op r last (p, j, q, l) =
        let (mid, m, n) =
          Plays-append (map header_field h.name_rest)
            (map header_value (h.value_head ∷ h.value_rest)) (j p 0) last l in
        let first : Header = record { name = h.name_head; value = [] } in
        one_call (header_field h.name_head) (with_headers op done 1) (after op first 0) r p j
          (first_field h.name_head op) q
        ∙ names h.name_rest op first (j p 0) mid m
        ∙ values h.value_head h.value_rest op (append_name (join h.name_rest) first) 0 mid last n

  headers :
      (hs : List Pieces) (done : List Header) (op : RequestOp hp) (r last : Run hp.State)
      → Plays (all_headers hs) r last
      → run hp r (with_headers op done 1) ≡ run hp last (with_headers op (done ++ map whole hs) 1)
  headers [] done op r last l =
      ap (λ x. run hp x (with_headers op done 1)) l
      ∙ ap (λ l. run hp last (with_headers op l 1)) (sym (append-nil done))
  headers (h ∷ hs) done op r last l =
      let (mid, m, n) = Plays-append (header_events h) (all_headers hs) r last l in
      one_header done h op r mid m
      ∙ headers hs (done ++ (whole h ∷ [])) op mid last n
      ∙ ap (λ l. run hp last (with_headers op l 1))
          (append_assoc done (whole h ∷ []) (map whole hs))

  -- What the beginning of a request makes of an operation.
  abbrev pub with_head : RequestOp hp → List (List ℕ) → List Pieces → RequestOp hp
  with_head op us hs = record op {
    request = record {
      method = [];
      uri = join us;
      uri_offset = hp.no_offset;
      http_version_major = 0;
      http_version_minor = 0;
      headers = map whole hs;
    };
    last_field_or_value = 1;
  }

  -- A URL and headers that the parser hands over in pieces, each name and each value in one
  -- piece or more, with any state of its own at each callback, come back whole and in their
  -- order in the request, whatever the parser does next and whatever the operation held
  -- before.
  pub run-head :
      (us : List (List ℕ)) (hs : List Pieces) (r last : Run hp.State) (op : RequestOp hp)
      → Plays (head_events us hs) r last
      → run hp r op ≡ run hp last (with_head op us hs)
  unfolding on_event on_message_begin
  run-head us hs r last op (p, j, q, l) =
      let (mid, m, n) = Plays-append (map url us) (all_headers hs) (j p 0) last l in
      one_call message_begin op (with_head op [] []) r p j (λ x. refl) q
      ∙ urls us (with_head op [] []) (j p 0) mid m
      ∙ headers hs [] (with_head op us []) mid last n

-- ===== src/Http/Once.antt =====
-- How often an operation that is not continuous calls back, whatever the parser does.
use jnet_lib.Base.{
  ℕ, ◌≡◌, refl, ap, false, ◌&&◌, ◌||◌, not, Bool-cases, Option, none, some, Option-cases, List, [],
  ◌∷◌, ◌++◌, ltb, ◌==◌, if◌then◌else◌, inl, inr,
}
use jnet_lib.Errors.{ErrorCode, is_error}
use jnet_lib.Http.{
  Event, message_begin, headers_complete, message_complete, url, header_field, header_value, body,
  Run, ended, calls, Parser, Request, Result, RequestOp, new_request_op, Called, update_back,
  append_name, append_value, empty_header, on_message_begin, on_url, on_header_field,
  on_header_value, on_headers_complete, on_body, on_message_complete, on_event, run, After, receive,
  deleted, do_request_operation, parsed_then, parsed, report, receive_callback,
}

module _ (hp : Parser) where
  open hp use {State}

  -- The histories of an operation: each receive ends in `receive_callback`.
  pub data Steps (p : State) (op : RequestOp hp) : Option (After hp) → Type 0 where
    start : Steps p op (some (do_request_operation hp p op))
    next :
        {q : State} {op' : RequestOp hp} {len : ℕ}
        → Steps p op (some (receive q op' len))
        → (ec : ErrorCode) (n : ℕ) (buffer : List ℕ)
        → Steps p op (receive_callback hp q op' ec n buffer)

  -- No call as long as the operation receives, one when it is deleted.
  pub data Once : Option (After hp) → Type 0 where
    undefined : Once none
    waits :
        (p : State) (op : RequestOp hp) (len : ℕ)
        → op.continuous ≡ false
        → op.reported ≡ []
        → Once (some (receive p op len))
    over :
        (p : State) (op : RequestOp hp) (ec : ErrorCode) (r : Result)
        → op.reported ≡ (ec, r) ∷ []
        → Once (some (deleted p op))

  abbrev IsQuiet : RequestOp hp → Type 0
  IsQuiet op = (op.continuous ≡ false) × (op.reported ≡ [])

  data QuietCall : Option (Called hp) → Type 0 where
    undefined : QuietCall none
    quiet : (p : State) (op : RequestOp hp) (n : ℕ) → IsQuiet op → QuietCall (some (p, op, n))

  data QuietRun : Option (ℕ × State × RequestOp hp) → Type 0 where
    undefined : QuietRun none
    quiet : (n : ℕ) (p : State) (op : RequestOp hp) → IsQuiet op → QuietRun (some (n, p, op))

  on_event-QuietCall :
      (e : Event) (p : State) (op : RequestOp hp) → IsQuiet op → QuietCall (on_event hp e p op)
  unfolding on_event on_message_begin on_url on_header_field on_header_value on_headers_complete
      on_body on_message_complete
  on_event-QuietCall message_begin p op q = quiet _ _ _ q
  on_event-QuietCall (url bs) p op q = quiet _ _ _ q
  on_event-QuietCall (header_field bs) p op q =
      elim (Option-cases (
        update_back (append_name bs) (
          if op.last_field_or_value == 1
          then op.request.headers ++ (empty_header ∷ [])
          else op.request.headers))) [ inl e ↦ rw e undefined | inr (hs, e) ↦ rw e (quiet _ _ _ q) ]
  on_event-QuietCall (header_value bs) p op q =
      elim (Option-cases (update_back (append_value bs) op.request.headers)) [
        | inl e ↦ rw e undefined
        | inr (hs, e) ↦ rw e (quiet _ _ _ q)
      ]
  on_event-QuietCall headers_complete p op q =
      elim (Bool-cases ((hp.parse_url op.request.uri (hp.method p == hp.http_connect)).0 == 0)) [
        | inl e ↦ rw (e, q.0) (quiet _ _ _ (refl, q.1))
        | inr e ↦ rw e (quiet _ _ _ q)
      ]
  on_event-QuietCall (body bs) p op q = rw (q.0) (quiet _ _ _ (refl, q.1))
  on_event-QuietCall message_complete p op q = quiet _ _ _ q

  run-QuietRun : (r : Run State) (op : RequestOp hp) → IsQuiet op → QuietRun (run hp r op)
  unfolding run
  run-QuietRun (ended n p) op q = quiet n p op q
  run-QuietRun (calls e p k) op q =
      by_call (on_event hp e p op) (on_event-QuietCall e p op q)
        (λ p' op' n q'. run-QuietRun (k p' n) op' q')
    where
      by_call :
          (c : Option (Called hp))
          → QuietCall c
          → ((p' : State) (op' : RequestOp hp) (n : ℕ)
              → IsQuiet op'
              → QuietRun (run hp (k p' n) op'))
          → QuietRun (elim c [ none ↦ none | some (p', op', n) ↦ run hp (k p' n) op' ])
      by_call none undefined f = undefined
      by_call (some (p', op', n)) (quiet _ _ _ q') f = f p' op' n q'

  report-Once :
      (p : State) (op : RequestOp hp) (ec : ErrorCode) (r : Result)
      → op.reported ≡ []
      → Once (some (deleted p (report hp ec r op)))
  report-Once p op ec r e = over _ _ ec r (ap (λ l. l ++ ((ec, r) ∷ [])) e)

  parsed_then-Once :
      (bytes : List ℕ) (n : ℕ) (p : State) (op : RequestOp hp)
      → IsQuiet op
      → Once (some (parsed_then hp bytes n p op))
  unfolding parsed_then
  parsed_then-Once bytes n p op (c, r) =
      let err = if hp.upgrade p then hp.hpe_unknown else hp.errno p in
      elim (Bool-cases (not (err == 0) && not (err == hp.hpe_paused))) [
        | inl e ↦ rw e (report-Once _ _ _ _ r)
        | inr e ↦ elim (Bool-cases (op.message_complete || (err == hp.hpe_paused))) [
          | inl e' ↦ rw (e, e') (report-Once _ _ _ _ r)
          | inr e' ↦ rw (e, e') (waits _ _ _ c r)
        ]
      ]

  parsed-Once :
      (bytes : List ℕ) (r : Option (ℕ × State × RequestOp hp))
      → QuietRun r
      → Once (parsed hp bytes r)
  parsed-Once bytes none undefined = undefined
  parsed-Once bytes (some (n, p, op)) (quiet _ _ _ q) = parsed_then-Once bytes n p op q

  receive_callback-Once :
      (p : State) (op : RequestOp hp) (ec : ErrorCode) (n : ℕ) (buffer : List ℕ)
      → IsQuiet op
      → Once (receive_callback hp p op ec n buffer)
  unfolding receive_callback
  receive_callback-Once p op ec n buffer (c, r) = elim (Bool-cases (is_error ec)) [
    | inl e ↦ rw e (report-Once _ _ _ _ r)
    | inr e ↦ rw e (parsed-Once _ _ (run-QuietRun _ _ (c, r)))
  ]

  -- In every history of a new operation that is not continuous, whatever the parser and the
  -- stream do, the operation has not called back as long as it receives, and has called back
  -- once when it is deleted, unless a callback took the last of no headers.
  pub Steps-Once :
      (p : State) (request : Request hp) (len init_len last : ℕ) {a : Option (After hp)}
      → Steps p (new_request_op hp request false len init_len last) a
      → Once a
  unfolding do_request_operation new_request_op
  Steps-Once p request len init_len last start = elim (Bool-cases (ltb 0 init_len)) [
    | inl e ↦ rw e (waits _ _ _ refl refl)
    | inr e ↦ rw e (waits _ _ _ refl refl)
  ]
  Steps-Once p request len init_len last (next s ec n buffer) =
      elim (Steps-Once p request len init_len last s) [
        | waits _ _ _ c r ↦ receive_callback-Once _ _ ec n buffer (c, r)
      ]

-- ===== src/Http/Received.antt =====
-- A request that is received to the end of its headers.
use jnet_lib.Base.{
  ℕ, ◌≡◌, refl, ap, ◌∙◌, true, false, not, ◌&&◌, ◌||◌, arith, none, some, List, [], ◌∷◌, ◌++◌, map,
  take, length, ltb, ◌==◌, if◌then◌else◌,
}
use jnet_lib.Errors.{ErrorCode, no_error, is_error}
use jnet_lib.Buffer.{size_sub}
use jnet_lib.Http.{
  headers_complete, ended, calls, Run, Parser, Result, req, Request, RequestOp, on_headers_complete,
  on_event, run, deleted, parsed_then, parsed, receive_callback, resumed,
}
use jnet_lib.Http.Headers.{Pieces, join, whole, head_events, Plays, with_head, run-head, run-calls}

module _ (hp : Parser) where
  -- The parser, from `p`, reads the beginning of a request in these bytes, in pieces, with a valid URL. It is `q` at the end of the
  -- headers, where the callback pauses it, and `q'` when it has stopped, after `n` bytes.
  pub record ReadsHead (p : hp.State) (bytes : List ℕ) (us : List (List ℕ)) (hs : List Pieces)
      (q q' : hp.State) (n : ℕ) : Type 0 where
    pub go_on : hp.State → ℕ → Run hp.State
    pub execute :
        Plays (head_events us hs) (hp.execute (resumed hp p) bytes) (calls headers_complete q go_on)
    pub valid : (hp.parse_url (join us) (hp.method q == hp.http_connect)).0 ≡ 0
    pub stops : go_on (hp.set_paused q true) 0 ≡ ended n q'
    pub paused : hp.errno q' ≡ hp.hpe_paused
    pub plain : hp.upgrade q' ≡ false

  abbrev pub parsed_request : hp.State → List (List ℕ) → List Pieces → Request hp
  parsed_request p us hs = record {
    method = hp.method_str (hp.method p);
    uri = join us;
    uri_offset = (hp.parse_url (join us) (hp.method p == hp.http_connect)).1;
    http_version_major = hp.http_major p;
    http_version_minor = hp.http_minor p;
    headers = map whole hs;
  }

  -- What was read behind the headers.
  abbrev pub request_result : ℕ → ℕ → Result
  request_result bytes n = record {
    type = req;
    has_request = true;
    data_bytes = [];
    remain = if ltb 0 (size_sub bytes n) then some n else none;
    remain_length = size_sub bytes n;
  }

  abbrev pub received : hp.State → RequestOp hp → ℕ → List (List ℕ) → List Pieces → ℕ → RequestOp hp
  received p op bytes us hs n = record op {
    request = parsed_request p us hs;
    last_field_or_value = 1;
    result = request_result bytes n;
    init_buf_len = 0;
    reported = op.reported ++ ((no_error, request_result bytes n) ∷ []);
  }

  module _ (p : hp.State) (op : RequestOp hp) (us : List (List ℕ)) (hs : List Pieces) where
    -- The operation after the callback for the end of the headers.
    abbrev complete : RequestOp hp
    complete = record op {
      request = parsed_request p us hs;
      last_field_or_value = 1;
      result = record {
        type = req;
        has_request = true;
        data_bytes = [];
        remain = none;
        remain_length = 0;
      };
    }

    headers_complete-pauses :
        (hp.parse_url (join us) (hp.method p == hp.http_connect)).0 ≡ 0
        → op.continuous ≡ false
        → on_event hp headers_complete p (with_head hp op us hs)
          ≡ some (
            hp.set_paused p true,
            complete,
            (hp.parse_url (join us) (hp.method p == hp.http_connect)).0,
          )
    unfolding on_event on_headers_complete
    headers_complete-pauses v c = simp (v, c)

    parsed_then-paused :
        (bytes : List ℕ) (n : ℕ) {q : hp.State}
        → hp.errno q ≡ hp.hpe_paused
        → hp.upgrade q ≡ false
        → parsed_then hp bytes n q complete
          ≡ deleted q (record complete {
            result = request_result (length bytes) n;
            reported = op.reported ++ ((no_error, request_result (length bytes) n) ∷ []);
          })
    unfolding parsed_then
    parsed_then-paused bytes n e u =
        rw
          (
            u,
            e,
            let f : not (hp.hpe_paused == 0) && not (hp.hpe_paused == hp.hpe_paused) ≡ false =
                  ground arith in
                f,
            let t : op.message_complete || (hp.hpe_paused == hp.hpe_paused) ≡ true = ground arith in
                t,
          )
          refl

  module _ (p : hp.State) (us : List (List ℕ)) (hs : List Pieces) (q q' : hp.State) (n : ℕ) where
    parsed-ReadsHead :
        (op : RequestOp hp) (bytes : List ℕ)
        → ReadsHead p bytes us hs q q' n
        → op.continuous ≡ false
        → parsed hp bytes (run hp (hp.execute (resumed hp p) bytes) op)
          ≡ some (
              deleted q' (record (complete q op us hs) {
                result = request_result (length bytes) n;
                reported = op.reported ++ ((no_error, request_result (length bytes) n) ∷ []);
              }))
    unfolding run
    parsed-ReadsHead op bytes h c =
        ap (parsed hp bytes) (
          run-head hp us hs (hp.execute (resumed hp p) bytes) (calls headers_complete q h.go_on) op
            h.execute
          ∙ run-calls hp headers_complete q h.go_on (with_head hp op us hs)
              (headers_complete-pauses q op us hs h.valid c)
          ∙ ap (λ m. run hp (h.go_on (hp.set_paused q true) m) (complete q op us hs)) h.valid
          ∙ ap (λ r. run hp r (complete q op us hs)) h.stops)
        ∙ ap some (parsed_then-paused q op us hs bytes n h.paused h.plain)

    -- If an operation that is not continuous receives without error, and in these bytes the
    -- parser finds the beginning of a request with a valid URL, in any pieces, with any state
    -- of its own at each callback that the callback leaves alone, and stops where the callback
    -- at the end of the headers pauses it, then receive_callback deletes the operation after
    -- one call back: without error, with a request of the method and version of the parser at
    -- the end of the headers and of the joined pieces of URL, names and values, and with the
    -- place and the number of the bytes that were not parsed.
    pub receive_callback-ReadsHead :
        (op : RequestOp hp) (ec : ErrorCode) (m : ℕ) (buffer : List ℕ)
        → ReadsHead p
            (take (if ltb 0 op.init_buf_len then op.init_buf_len else m) buffer)
            us
            hs
            q
            q'
            n
        → op.continuous ≡ false
        → is_error ec ≡ false
        → receive_callback hp p op ec m buffer
          ≡ some (
              deleted q' (
                received q op
                  (length (take (if ltb 0 op.init_buf_len then op.init_buf_len else m) buffer))
                  us
                  hs
                  n))
    unfolding receive_callback
    receive_callback-ReadsHead op ec m buffer h c ok = rw ok (
        parsed-ReadsHead (record op { init_buf_len = 0 })
          (take (if ltb 0 op.init_buf_len then op.init_buf_len else m) buffer) h c)

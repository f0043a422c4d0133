-- ===== src/Http.antt =====
-- http_socket.h and http_socket.cpp: the operation that receives an HTTP request. http_parser is a parameter.
pub mod Headers
pub mod Once
pub mod Received
mod Tests
use jnet_lib.Base.{
  ℕ, ◌≡◌, Bool, true, false, not, ◌&&◌, ◌||◌, Option, none, some, List, [], ◌∷◌, ◌++◌, length, take,
  ltb, ◌==◌, if◌then◌else◌,
}
use mathlib.Core.Option.{map}
use jnet_lib.Errors.{ErrorCode, no_error, is_error, http}
use jnet_lib.Buffer.{size_sub}

-- What http_parser calls back with.
pub data Event : Type 0 where
  message_begin headers_complete message_complete : Event
  url header_field header_value body : List ℕ → Event

-- `http_parser_execute`: it calls a callback, with the parser as the callback finds it, and goes on with the
-- parser as the callback left it and with the number that it returned; in the end it returns
-- the number of parsed bytes.
pub data Run (S : Type 0) : Type 0 where
  ended : ℕ → S → Run S
  calls : Event → S → (S → ℕ → Run S) → Run S

-- What the code uses of http_parser.h. `set_paused` is `http_parser_pause`; `parse_url` also says
-- what was stored as the offsets.
pub record Parser : Type 1 where
  pub State : Type 0
  pub UrlOffset : Type 0
  pub no_offset : UrlOffset
  pub hpe_paused : ℕ
  pub hpe_unknown : ℕ
  pub http_connect : ℕ
  pub errno : State → ℕ
  pub upgrade : State → Bool
  pub method : State → ℕ
  pub http_major : State → ℕ
  pub http_minor : State → ℕ
  pub set_paused : State → Bool → State
  pub method_str : ℕ → List ℕ
  pub parse_url : List ℕ → Bool → ℕ × UrlOffset
  pub execute : State → List ℕ → Run State

pub record Header : Type 0 where
  pub name : List ℕ
  pub value : List ℕ

pub data ResultType : Type 0 where
  req res dat fin : ResultType

-- `has_request` says whether the result points at the request; `remain` is the place in the buffer that
-- `remain_buffer` points at, with `none` for 0.
pub record Result : Type 0 where
  pub type : ResultType
  pub has_request : Bool
  pub data_bytes : List ℕ
  pub remain : Option ℕ
  pub remain_length : ℕ

abbrev pub new_result : ResultType → Bool → List ℕ → Result
new_result t r bs = record {
  type = t;
  has_request = r;
  data_bytes = bs;
  remain = none;
  remain_length = 0;
}

abbrev pub http_error : ℕ → ErrorCode
http_error n = record { value = n; describer = http }

abbrev pub empty_header : Header
empty_header = record { name = []; value = [] }

-- A change of `headers.back()`, which an empty vector does not have.
abbrev pub update_back : (Header → Header) → List Header → Option (List Header)
update_back f [] = none
update_back f (h ∷ []) = some (f h ∷ [])
update_back f (h ∷ h' ∷ hs) = map (◌∷◌ h) (update_back f (h' ∷ hs))

abbrev pub append_name : List ℕ → Header → Header
append_name bs h = record h { name = h.name ++ bs }

abbrev pub append_value : List ℕ → Header → Header
append_value bs h = record h { value = h.value ++ bs }

module _ (hp : Parser) where
  open hp use {State, UrlOffset}

  pub record Request : Type 0 where
    pub method : List ℕ
    pub uri : List ℕ
    pub uri_offset : UrlOffset
    pub http_version_major : ℕ
    pub http_version_minor : ℕ
    pub headers : List Header

  -- `reported` is what the user's callback was called with, in order.
  pub record RequestOp : Type 0 where
    pub request : Request
    pub continuous : Bool
    pub last_field_or_value : ℕ
    pub message_complete : Bool
    pub result : Result
    pub buf_len : ℕ
    pub init_buf_len : ℕ
    pub reported : List (ErrorCode × Result)

  -- `last` is what `last_field_or_value_` happens to hold.
  pub new_request_op : Request → Bool → (len init_len last : ℕ) → RequestOp
  new_request_op request continuous len init_len last = record {
    request = request;
    continuous = continuous;
    last_field_or_value = last;
    message_complete = false;
    result = new_result fin false [];
    buf_len = len;
    init_buf_len = init_len;
    reported = [];
  }

  abbrev pub report : ErrorCode → Result → RequestOp → RequestOp
  report ec r op = record op { reported = op.reported ++ ((ec, r) ∷ []) }

  -- Each callback takes the parser and the operation, and returns both with its number.
  abbrev pub Called : Type 0
  Called = State × RequestOp × ℕ

  pub on_message_begin : State → RequestOp → Called
  on_message_begin p op = (
    p,
    record op {
      request = record {
        method = [];
        uri = [];
        uri_offset = hp.no_offset;
        http_version_major = 0;
        http_version_minor = 0;
        headers = [];
      };
      last_field_or_value = 1;
    },
    0,
  )

  pub on_url : State → RequestOp → List ℕ → Called
  on_url p op bs = (p, record op { request = record op.request { uri = op.request.uri ++ bs } }, 0)

  abbrev pub with_headers : State → RequestOp → ℕ → List Header → Called
  with_headers p op last hs =
      (p, record op { request = record op.request { headers = hs }; last_field_or_value = last }, 0)

  pub on_header_field : State → RequestOp → List ℕ → Option Called
  on_header_field p op bs =
      let hs =
        if op.last_field_or_value == 1
        then op.request.headers ++ (empty_header ∷ [])
        else op.request.headers in
      map (with_headers p op 0) (update_back (append_name bs) hs)

  pub on_header_value : State → RequestOp → List ℕ → Option Called
  on_header_value p op bs =
      map (with_headers p op 1) (update_back (append_value bs) op.request.headers)

  -- The end of three callbacks: a result is given to the user at once, or the parser stops.
  abbrev pub hand_over : State → RequestOp → Result → ℕ → Called
  hand_over p op r n =
      let op = record op { result = r } in
      if op.continuous then (p, report no_error r op, n) else (hp.set_paused p true, op, n)

  pub on_headers_complete : State → RequestOp → Called
  on_headers_complete p op =
      let (n, offset) = hp.parse_url op.request.uri (hp.method p == hp.http_connect) in
      let op = record op {
        request = record op.request {
          method = hp.method_str (hp.method p);
          http_version_major = hp.http_major p;
          http_version_minor = hp.http_minor p;
          uri_offset = offset;
        };
      } in
      if n == 0 then hand_over p op (new_result req true []) n else (p, op, n)

  pub on_body : State → RequestOp → List ℕ → Called
  on_body p op bs = hand_over p op (new_result dat true bs) 0

  pub on_message_complete : State → RequestOp → Called
  on_message_complete p op = (
    hp.set_paused p true,
    record op { result = new_result fin false []; message_complete = true },
    0,
  )

  pub on_event : Event → State → RequestOp → Option Called
  on_event message_begin p op = some (on_message_begin p op)
  on_event (url bs) p op = some (on_url p op bs)
  on_event (header_field bs) p op = on_header_field p op bs
  on_event (header_value bs) p op = on_header_value p op bs
  on_event headers_complete p op = some (on_headers_complete p op)
  on_event (body bs) p op = some (on_body p op bs)
  on_event message_complete p op = some (on_message_complete p op)

  -- The parser with these callbacks; `none` when one of them looks at the last of no headers.
  pub run : Run State → RequestOp → Option (ℕ × State × RequestOp)
  run (ended n p) op = some (n, p, op)
  run (calls e p k) op = elim (on_event e p op) [
    | none ↦ none
    | some (p', op', n) ↦ run (k p' n) op'
  ]

  -- `receive` is `asyn_recv_some` of so many bytes, into the buffer that was given first or the other one.
  pub data After : Type 0 where
    receive : State → RequestOp → ℕ → After
    deleted : State → RequestOp → After

  pub do_request_operation : State → RequestOp → After
  do_request_operation p op =
      if ltb 0 op.init_buf_len then receive p op 0 else receive p op op.buf_len

  -- The branches of `receive_callback` after the parser has returned.
  pub parsed_then : List ℕ → ℕ → State → RequestOp → After
  parsed_then bytes nparsed p op =
      let n = length bytes in
      let err = if hp.upgrade p then hp.hpe_unknown else hp.errno p in
      let r = record op.result {
        remain = if ltb 0 (size_sub n nparsed) then some nparsed else none;
        remain_length = size_sub n nparsed;
      } in
      let bad = new_result dat false bytes in
      if not (err == 0) && not (err == hp.hpe_paused)
      then deleted p (report (http_error err) bad (record op { result = bad }))
      else if op.message_complete || (err == hp.hpe_paused)
      then deleted p (report no_error r (record op { result = r }))
      else receive p op op.buf_len

  abbrev pub parsed : List ℕ → Option (ℕ × State × RequestOp) → Option After
  parsed bytes none = none
  parsed bytes (some (nparsed, p, op)) = some (parsed_then bytes nparsed p op)

  -- The parser goes on where a callback stopped it.
  abbrev pub resumed : State → State
  resumed p = if hp.errno p == hp.hpe_paused then hp.set_paused p false else p

  -- `buffer` is what the buffer holds that the stream gives back.
  pub receive_callback : State → RequestOp → ErrorCode → ℕ → List ℕ → Option After
  receive_callback p op_ ec n buffer =
      let given = ltb 0 op_.init_buf_len in
      let bytes = take (if given then op_.init_buf_len else n) buffer in
      let op = record op_ { init_buf_len = 0 } in
      if is_error ec
      then some (deleted p (report ec (new_result dat false bytes) op))
      else parsed bytes (run (hp.execute (resumed p) bytes) op)

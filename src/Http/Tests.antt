-- ===== src/Http/Tests.antt =====
-- A parser that finds the same request in whatever it reads.
use jnet_lib.Base.{
  ℕ, ◌+◌, ◌==◌, ◌≡◌, refl, Bool, true, false, none, some, List, [], ◌∷◌, length, if◌then◌else◌,
}
use jnet_lib.Errors.{no_error}
use jnet_lib.Http.{
  Event, Run, headers_complete, ended, calls, fin, run, do_request_operation, Parser, Request,
  RequestOp, new_request_op, deleted, receive_callback,
}
use jnet_lib.Http.Headers.{Pieces, head_events, Plays, run-head, with_head}
use jnet_lib.Http.Once.{start, next, Once, Steps-Once}
use jnet_lib.Http.Received.{received, receive_callback-ReadsHead}

abbrev uri : List (List ℕ)
uri = (47 ∷ []) ∷ (97 ∷ 98 ∷ []) ∷ []

abbrev host : Pieces
host = record {
  name_head = 72 ∷ [];
  name_rest = (111 ∷ []) ∷ [];
  value_head = 104 ∷ [];
  value_rest = [];
}

abbrev lines : List Pieces
lines =
    host
    ∷ record { name_head = 65 ∷ []; name_rest = []; value_head = []; value_rest = (49 ∷ []) ∷ [] }
    ∷ []

-- The parser counts the calls that it makes, and knows the method after the first.
record Progress : Type 0 where
  paused : Bool
  made : ℕ

abbrev advanced : Progress → Progress
advanced s = record s { made = s.made + 1 }

abbrev plays : List Event → (Progress → Run Progress) → Progress → Run Progress
plays [] k p = k p
plays (e ∷ es) k p = calls e p (λ p' n. plays es k (advanced p'))

abbrev advances : List Event → Progress → Progress
advances [] p = p
advances (e ∷ es) p = advances es (advanced p)

plays-Plays :
    (es : List Event) (k : Progress → Run Progress) (p : Progress)
    → Plays es (plays es k p) (k (advances es p))
plays-Plays [] k p = refl
plays-Plays (e ∷ es) k p =
    (p, (λ p' n. plays es k (advanced p')), refl, plays-Plays es k (advanced p))

abbrev at : Bool → ℕ → Progress
at paused made = record { paused = paused; made = made }

abbrev reader : Parser
reader = record {
  State = Progress;
  UrlOffset = ℕ;
  no_offset = 0;
  hpe_paused = 31;
  hpe_unknown = 30;
  http_connect = 5;
  errno = λ s. if s.paused then 31 else 0;
  upgrade = λ s. false;
  method = λ s. if s.made == 0 then 0 else 1;
  http_major = λ s. 1;
  http_minor = λ s. 1;
  set_paused = λ s b. record s { paused = b };
  method_str = λ n. 71 ∷ 69 ∷ 84 ∷ [];
  parse_url = λ u c. (0, length u);
  execute = λ s bs.
      plays (head_events uri lines) (λ q. calls headers_complete q (λ q' n. ended 4 (advanced q')))
        s;
}

abbrev request : Request reader
request = record {
  method = [];
  uri = [];
  uri_offset = 0;
  http_version_major = 0;
  http_version_minor = 0;
  headers = [];
}

abbrev request_op : RequestOp reader
request_op = record {
  request = request;
  continuous = false;
  last_field_or_value = 7;
  message_complete = false;
  result = record {
    type = fin;
    has_request = false;
    data_bytes = [];
    remain = none;
    remain_length = 0;
  };
  buf_len = 8;
  init_buf_len = 0;
  reported = [];
}

abbrev bytes : List ℕ
bytes = 1 ∷ 2 ∷ 3 ∷ 4 ∷ 5 ∷ 6 ∷ []

receive_callback-ReadsHead_example :
    receive_callback reader (at true 0) request_op no_error 6 bytes
    ≡ some (deleted (at true 10) (received reader (at false 9) request_op 6 uri lines 4))
receive_callback-ReadsHead_example =
    receive_callback-ReadsHead reader (at true 0) uri lines (at false 9) (at true 10) 4 request_op
      no_error 6 bytes
      (record {
        go_on = λ q' n. ended 4 (advanced q');
        execute =
            plays-Plays (head_events uri lines)
              (λ q. calls headers_complete q (λ q' n. ended 4 (advanced q'))) (at false 0);
        valid = refl;
        stops = refl;
        paused = refl;
        plain = refl;
      })
      refl refl

Steps-Once_example : Once reader (
    receive_callback reader
      (at false 0)
      (new_request_op reader request false 8 0 7)
      no_error
      6
      bytes)
unfolding do_request_operation new_request_op
Steps-Once_example = Steps-Once reader (at false 0) request 8 0 7 (next start no_error 6 bytes)

run-head_example :
    run reader (plays (head_events uri lines) (λ q. ended 4 q) (at false 0)) request_op
    ≡ some (4, at false 9, with_head reader request_op uri lines)
unfolding run
run-head_example =
    run-head reader uri lines (plays (head_events uri lines) (λ q. ended 4 q) (at false 0))
      (ended 4 (at false 9)) request_op
      (plays-Plays (head_events uri lines) (λ q. ended 4 q) (at false 0))

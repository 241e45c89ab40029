-- ===== src/Edge/Service/Tests.antt =====
-- Requests to the daemon: an exam is fetched, released and unlocked, and a request has no API key.
use oetp.Prelude.{String, ◌≡◌, refl, true, false, none, some, List, [], Bytes, utf8, beq, lookup}
use oetp.Result.{is_ok, ok, err, panic, unfinished}
use oetp.Crates.Toy.{toy}
use oetp.Release.{ReleaseToken}
use oetp.Api.{check_api_key, unauthorized}
use oetp.Api.{ApiResult}
use oetp.Packet.{PacketQuestion}
use oetp.Http.{reply_of, Method, HttpRequest, serve_request}
use oetp.Http.Toy.{toy_router, select}
use oetp.Edge.Queue.Toy.{toy_queue_codec}
use oetp.Edge.State
use oetp.Edge.State.{CachedExamData}
use oetp.Edge.Submit.{Drawn}
use oetp.Edge.Api.{FetchReply, handle_unlock}
use oetp.Edge.Api.Entries.{TokenGood}
use oetp.Edge.Api.Tests.{
  one_exam, student, start, start_empty, encrypted, envelope, token, headers, opened_state,
  token_nonce, unlocked,
}
use oetp.Edge.Service.{Reply, Bodies, Outside, World, endpoint_handler, serve, routes}
use oetp.Edge.Service.Guarded.{IsDenied, serve-unauthorized}
use oetp.Edge.Service.Requests.{Requests, gives_questions, serve-questions}

abbrev bodies : Bodies
bodies = record {
  fetch_request = λ b. some b;
  release_request = λ b. some b;
  unlock_request = λ b. some b;
  submit_request = λ b. none;
  timestamp = λ b. none;
}

abbrev drawn : Drawn
drawn = record { receipt = []; copy_nonce = []; queue_nonce = [] }

abbrev outside : Outside
outside = record {
  now = 0;
  later = 0;
  fetch_reply = FetchReply.found encrypted envelope;
  token_reply = ok token;
  drawn = drawn;
  post = λ q. false;
  send = λ l q. (false, l);
}

abbrev started : World
started = record { state = start; clock_override = some 150; ledger = 0 }

abbrev post_to : String → HttpRequest
post_to path = record { method = Method.post; path = utf8 path; headers = headers; body = student }

abbrev sent : HttpRequest → World → World
sent req w = (serve toy one_exam toy_queue_codec bodies toy_router outside req w).1

abbrev opened : World
opened = sent (post_to "/v1/exam/release") (sent (post_to "/v1/exam/fetch") started)

opened_same : opened.state ≡ opened_state
unfolding serve serve_request routes endpoint_handler select utf8 beq
opened_same = refl

answers :
    (r : ApiResult (List PacketQuestion))
    → is_ok r ≡ true
    → gives_questions toy one_exam toy_queue_codec bodies toy_router (reply_of Reply.unlocked r)
      ≡ true
answers (ok a) h = refl
answers (err e) h = cc
answers panic h = cc
answers unfinished h = cc

answered :
    gives_questions toy one_exam toy_queue_codec bodies toy_router
      (serve toy one_exam toy_queue_codec bodies toy_router outside
        (post_to "/v1/exam/unlock")
        opened).0
    ≡ true
unfolding serve serve_request routes endpoint_handler select utf8 beq
answered =
    answers (handle_unlock toy one_exam headers student opened.state).0 (rw opened_same unlocked)

serve-questions_example :
    (student_uuid : Bytes) × (entry : CachedExamData) × (t : ReleaseToken) × (some student
      ≡ some student_uuid)
    × (lookup student_uuid opened.state.cache ≡ some entry)
    × (entry.release_token ≡ some t)
    × TokenGood toy opened.state.config opened.state.consumed_nonces.nonces t
serve-questions_example =
    serve-questions toy one_exam toy_queue_codec bodies toy_router started opened outside
      (post_to "/v1/exam/unlock") start_empty
      (Requests.request (post_to "/v1/exam/fetch") outside token_nonce
        (Requests.request (post_to "/v1/exam/release") outside token_nonce Requests.none_yet))
      answered

-- A flush with no key.
abbrev keyless : HttpRequest
keyless = record { method = Method.post; path = utf8 "/v1/system/flush"; headers = none; body = [] }

keyless_refused : check_api_key started.state.config.api_key none ≡ err unauthorized
unfolding check_api_key beq State.new
keyless_refused = refl

serve-unauthorized_example :
    ((serve toy one_exam toy_queue_codec bodies toy_router outside keyless started).1 ≡ started)
    × IsDenied (serve toy one_exam toy_queue_codec bodies toy_router outside keyless started).0
serve-unauthorized_example =
    serve-unauthorized toy one_exam toy_queue_codec bodies toy_router outside keyless started
      keyless_refused

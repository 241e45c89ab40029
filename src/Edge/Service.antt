-- ===== src/Edge/Service.antt =====
-- oetp-edge/src/lib.rs: the daemon's router, from a request to the handlers of api.rs. What the ledger
-- and the beacon answer, what is drawn, and the system's time are arguments; a number stands for the
-- ledger's state.
pub mod Guarded
pub mod Requests
mod Tests
use oetp.Prelude.{ℕ, ◌-◌, ◌/◌, ◌%◌, String, ap, Bool, Option, List, [], ◌∷◌, Bytes}
use oetp.Result.{Result}
use oetp.Crates.{Crates, Codec}
use oetp.Clock.{Clock}
use oetp.Release.{ReleaseToken}
use oetp.Packet.{ExamPacket, PacketQuestion}
use oetp.Api.{SystemClockResponse}
use oetp.Http.{
  Route, route, Method, HttpRequest, Router, Response, handled, with_json, serve_request, reply_of,
}
use oetp.Edge.Queue.{QueuedSubmission}
use oetp.Edge.State.{AppState}
use oetp.Edge.Api.{FetchReply, handle_fetch, handle_release, handle_unlock}
use oetp.Edge.Submit.{
  SubmitRequest, SubmitResponse, Drawn, handle_submit, handle_system_flush, handle_system_set_clock,
}

pub data Endpoint : Type 0 where
  fetch release unlock submit health set_clock flush : Endpoint

unfoldable pub routes : List (Route Endpoint)
routes =
    route "/v1/exam/fetch" Method.post fetch
    ∷ route "/v1/exam/release" Method.post release
    ∷ route "/v1/exam/unlock" Method.post unlock
    ∷ route "/v1/exam/submit" Method.post submit
    ∷ route "/health" Method.get health
    ∷ route "/v1/system/clock" Method.post set_clock
    ∷ route "/v1/system/flush" Method.post flush
    ∷ []

-- The bodies of the replies.
pub data Reply : Type 0 where
  fetched : Bytes → Reply
  released : String → Reply
  unlocked : List PacketQuestion → Reply
  submitted : SubmitResponse → Reply
  healthy : Reply
  clock_set : SystemClockResponse → Reply
  flushed : ℕ → Reply

-- What serde makes of the requests' bodies; of the first three it is the Uuid that is used.
pub record Bodies : Type 0 where
  pub fetch_request : Bytes → Option Bytes
  pub release_request : Bytes → Option Bytes
  pub unlock_request : Bytes → Option Bytes
  pub submit_request : Bytes → Option SubmitRequest
  pub timestamp : Bytes → Option ℕ

-- What a request meets outside the daemon.
pub record Outside : Type 0 where
  pub now : ℕ
  pub later : ℕ
  pub fetch_reply : FetchReply
  pub token_reply : Result ReleaseToken
  pub drawn : Drawn
  pub post : QueuedSubmission → Bool
  pub send : ℕ → QueuedSubmission → Bool × ℕ

-- The daemon's state, the static `CLOCK_OVERRIDE`, and the ledger.
pub record World : Type 0 where
  pub state : AppState
  pub clock_override : Option ℕ
  pub ledger : ℕ

abbrev pub at : ℕ → World → Clock
at time w = record { clock_override = w.clock_override; system = time }

module _ (c : Crates) (bincode : Codec ExamPacket) (queued : Codec (List QueuedSubmission))
    (bodies : Bodies) (router : Router) (out : Outside) where
  -- The handler of each route.
  unfoldable pub endpoint_handler : Endpoint → HttpRequest → World → Response Reply × World
  endpoint_handler fetch req =
      with_json (router.json_rejected req) (bodies.fetch_request req.body) λ student_uuid w.
        let (r, s) = handle_fetch c req.headers student_uuid out.fetch_reply w.state in
        (reply_of fetched r, record w { state = s })
  endpoint_handler release req =
      with_json (router.json_rejected req) (bodies.release_request req.body) λ student_uuid w.
        let (r, s) =
          handle_release c (at out.now w) req.headers student_uuid out.token_reply w.state in
        (reply_of released r, record w { state = s })
  endpoint_handler unlock req =
      with_json (router.json_rejected req) (bodies.unlock_request req.body) λ student_uuid w.
        let (r, s) = handle_unlock c bincode req.headers student_uuid w.state in
        (reply_of unlocked r, record w { state = s })
  endpoint_handler submit req =
      with_json (router.json_rejected req) (bodies.submit_request req.body) λ submission w.
        let (r, s) =
          handle_submit c queued (at out.now w) (at out.later w) out.drawn out.post req.headers
            submission w.state in
        (reply_of submitted r, record w { state = s })
  endpoint_handler health req = λ w. (handled (oetp.Result.ok healthy), w)
  endpoint_handler set_clock req =
      with_json (router.json_rejected req) (bodies.timestamp req.body) λ timestamp w.
        let (r, clock) = handle_system_set_clock w.state (at out.now w) req.headers timestamp in
        (reply_of clock_set r, record w { clock_override = clock.clock_override })
  endpoint_handler flush req = λ w.
      let (r, after) =
        handle_system_flush c queued out.send req.headers out.drawn.queue_nonce
          (w.state, w.ledger) in
      (reply_of flushed r, record w { state = after.0; ledger = after.1 })

  -- One request to the daemon.
  unfoldable pub serve : HttpRequest → World → Response Reply × World
  serve req w = serve_request router routes endpoint_handler req w

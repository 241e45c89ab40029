-- ===== src/Ledger/Service.antt =====
-- oetp-ledger/src/lib.rs: the ledger's router, from a request to the handlers of api.rs.
pub mod Guarded
mod Tests
use oetp.Prelude.{ℕ, ◌-◌, ◌/◌, ◌%◌, String, ap, Option, List, [], ◌∷◌, Bytes}
use oetp.Result.{ok}
use oetp.Crates.{Crates}
use oetp.Clock.{Clock}
use oetp.Packet.{EncryptedPacket}
use oetp.Envelope.{KeyEnvelope}
use oetp.Platform.{Store, Anchor}
use oetp.Api.{SystemClockResponse}
use oetp.Http.{
  Route, route, Method, HttpRequest, Router, Response, handled, with_json, serve_request, reply_of,
}
use oetp.Ledger.Requests.{
  AppState, CommitRequest, CommitResponse, IngestRequest, IngestResponse, KeyCommitRequest,
  FetchPacketRequest, LoadPacketsRequest, AnchorsRequest, ProofRequest, ProofResponse,
  VerifyRequest, VerifyResponse,
}
use oetp.Ledger.Api.{
  handle_commit, handle_ingest, handle_key_commit, handle_fetch_packet, handle_anchors,
  handle_load_packets, handle_system_set_clock,
}
use oetp.Ledger.Queries.{handle_proof, handle_verify}

pub data Endpoint : Type 0 where
  commit ingest proof key fetch verify anchors load health set_clock : Endpoint

unfoldable pub routes : List (Route Endpoint)
routes =
    route "/v1/ledger/commit" Method.post commit
    ∷ route "/v1/ledger/ingest" Method.post ingest
    ∷ route "/v1/ledger/proof" Method.post proof
    ∷ route "/v1/ledger/key" Method.post key
    ∷ route "/v1/ledger/fetch" Method.post fetch
    ∷ route "/v1/ledger/verify" Method.post verify
    ∷ route "/v1/ledger/anchors" Method.post anchors
    ∷ route "/v1/ledger/load" Method.post load
    ∷ route "/health" Method.get health
    ∷ route "/v1/system/clock" Method.post set_clock
    ∷ []

-- The bodies of the replies.
pub data Reply : Type 0 where
  committed : CommitResponse → Reply
  ingested : IngestResponse → Reply
  proven : ProofResponse → Reply
  key_committed : Anchor → Reply
  fetched : EncryptedPacket × KeyEnvelope → Reply
  verified : VerifyResponse → Reply
  listed : List Anchor → Reply
  loaded : String → Reply
  healthy : Reply
  clock_set : SystemClockResponse → Reply

-- What serde makes of the requests' bodies.
pub record Bodies : Type 0 where
  pub commit_request : Bytes → Option CommitRequest
  pub ingest_request : Bytes → Option IngestRequest
  pub proof_request : Bytes → Option ProofRequest
  pub key_request : Bytes → Option KeyCommitRequest
  pub fetch_request : Bytes → Option FetchPacketRequest
  pub verify_request : Bytes → Option VerifyRequest
  pub anchors_request : Bytes → Option AnchorsRequest
  pub load_request_of : Bytes → Option LoadPacketsRequest
  pub timestamp : Bytes → Option ℕ

-- The ledger's state and the static `CLOCK_OVERRIDE`.
pub record World (S : Type 0) : Type 0 where
  pub state : AppState S
  pub clock_override : Option ℕ

module _ {S : Type 0} where
  abbrev pub at : ℕ → World S → Clock
  at time w = record { clock_override = w.clock_override; system = time }

  -- A reply with the state after it.
  abbrev pub replied :
      {A : Type 0}
      → (A → Reply)
      → World S
      → oetp.Api.ApiResult A × AppState S
      → Response Reply × World S
  replied f w (r, s) = (reply_of f r, record w { state = s })

module _ (c : Crates) {S : Type 0} (st : Store S) (bodies : Bodies) (router : Router)
    (now : ℕ) where
  -- The handler of each route; `now` is the system's time.
  unfoldable pub endpoint_handler : Endpoint → HttpRequest → World S → Response Reply × World S
  endpoint_handler commit req =
      with_json (router.json_rejected req) (bodies.commit_request req.body)
        λ r w. replied committed w (handle_commit c st (at now w) req.headers r w.state)
  endpoint_handler ingest req =
      with_json (router.json_rejected req) (bodies.ingest_request req.body)
        λ r w. replied ingested w (handle_ingest c st (at now w) req.headers r w.state)
  endpoint_handler proof req =
      with_json (router.json_rejected req) (bodies.proof_request req.body)
        λ r w. (reply_of proven (handle_proof c st r w.state), w)
  endpoint_handler key req =
      with_json (router.json_rejected req) (bodies.key_request req.body)
        λ r w. replied key_committed w (handle_key_commit c st (at now w) req.headers r w.state)
  endpoint_handler fetch req =
      with_json (router.json_rejected req) (bodies.fetch_request req.body)
        λ r w. replied fetched w (handle_fetch_packet c st req.headers r w.state)
  endpoint_handler verify req =
      with_json (router.json_rejected req) (bodies.verify_request req.body)
        λ r w. (reply_of verified (handle_verify c st r w.state), w)
  endpoint_handler anchors req =
      with_json (router.json_rejected req) (bodies.anchors_request req.body)
        λ r w. replied listed w (handle_anchors c st r w.state)
  endpoint_handler load req =
      with_json (router.json_rejected req) (bodies.load_request_of req.body)
        λ r w. replied loaded w (handle_load_packets req.headers r w.state)
  endpoint_handler health req = λ w. (handled (ok healthy), w)
  endpoint_handler set_clock req =
      with_json (router.json_rejected req) (bodies.timestamp req.body) λ timestamp w.
        let (r, clock) = handle_system_set_clock w.state (at now w) req.headers timestamp in
        (reply_of clock_set r, record w { clock_override = clock.clock_override })

  -- One request to the ledger.
  unfoldable pub serve : HttpRequest → World S → Response Reply × World S
  serve req w = serve_request router routes endpoint_handler req w

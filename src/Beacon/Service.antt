-- ===== src/Beacon/Service.antt =====
-- oetp-beacon/src/api.rs: the beacon's router, from a request to its handlers.
use oetp.Prelude.{ℕ, ◌≡◌, refl, ◌⊎◌, inl, inr, Option, List, [], ◌∷◌, Option-cases, Bytes}
use oetp.Result.{ok, err}
use oetp.Crates.{Crates}
use oetp.Clock.{Clock}
use oetp.Release.{ReleaseToken}
use oetp.Api.{SystemClockResponse, unauthorized, check_api_key, system_set_clock-unauthorized}
use oetp.Http.{
  Route, route, Method, HttpRequest, Router, Response, handled, refused, with_json, serve_request,
  serve_request_induction, reply_of,
}
use oetp.Beacon.{BeaconState, TokenRequest, handle_token, handle_system_set_clock}

pub data Endpoint : Type 0 where
  token health set_clock : Endpoint

unfoldable pub routes : List (Route Endpoint)
routes =
    route "/v1/beacon/token" Method.post token
    ∷ route "/health" Method.get health
    ∷ route "/v1/system/clock" Method.post set_clock
    ∷ []

-- The bodies of the replies.
pub data Reply : Type 0 where
  issued : ReleaseToken → Reply
  healthy : Reply
  clock_set : SystemClockResponse → Reply

pub record Bodies : Type 0 where
  pub token_request : Bytes → Option TokenRequest
  pub timestamp : Bytes → Option ℕ

-- The beacon's state never changes; the static `CLOCK_OVERRIDE` does.
pub record World : Type 0 where
  pub state : BeaconState
  pub clock_override : Option ℕ

abbrev pub at : ℕ → World → Clock
at time w = record { clock_override = w.clock_override; system = time }

module _ (c : Crates) (bodies : Bodies) (router : Router) (now : ℕ) (nonce : Bytes) where
  unfoldable pub endpoint_handler : Endpoint → HttpRequest → World → Response Reply × World
  endpoint_handler token req =
      with_json (router.json_rejected req) (bodies.token_request req.body)
        λ r w. (reply_of issued (handle_token c w.state (at now w) req.headers r nonce), w)
  endpoint_handler health req = λ w. (handled (ok healthy), w)
  endpoint_handler set_clock req =
      with_json (router.json_rejected req) (bodies.timestamp req.body) λ timestamp w.
        let (r, clock) = handle_system_set_clock w.state (at now w) req.headers timestamp in
        (reply_of clock_set r, record w { clock_override = clock.clock_override })

  -- One request to the beacon.
  unfoldable pub serve : HttpRequest → World → Response Reply × World
  serve req w = serve_request router routes endpoint_handler req w

  -- A response with no token.
  abbrev pub GivesNothing : Response Reply → Type 0
  GivesNothing (handled r) = (r ≡ err unauthorized) ⊎ (r ≡ ok healthy)
  GivesNothing (refused status) = Unit {0}

  endpoint-unauthorized :
      (e : Endpoint) (req : HttpRequest) (w : World)
      → check_api_key w.state.api_key req.headers ≡ err unauthorized
      → ((endpoint_handler e req w).1 ≡ w) × GivesNothing (endpoint_handler e req w).0
  unfolding endpoint_handler handle_token handle_system_set_clock
  endpoint-unauthorized token req w h = elim (Option-cases (bodies.token_request req.body)) [
    | inl bad ↦ rw bad (refl, tt)
    | inr (b, good) ↦ rw good (rw h (refl, inl refl))
  ]
  endpoint-unauthorized health req w h = (refl, inr refl)
  endpoint-unauthorized set_clock req w h = elim (Option-cases (bodies.timestamp req.body)) [
    | inl bad ↦ rw bad (refl, tt)
    | inr (b, good) ↦ rw good (
        rw (system_set_clock-unauthorized w.state.api_key (at now w) req.headers b h)
          (refl, inl refl))
  ]

  -- Without the beacon's API key no request is answered with a token or sets the clock.
  pub serve-tokenless :
      (req : HttpRequest) (w : World)
      → check_api_key w.state.api_key req.headers ≡ err unauthorized
      → ((serve req w).1 ≡ w) × GivesNothing (serve req w).0
  unfolding serve
  serve-tokenless req w h =
      serve_request_induction router routes endpoint_handler (λ p. (p.1 ≡ w) × GivesNothing p.0) req
        w (λ status. (refl, tt)) (λ e. endpoint-unauthorized e req w h)

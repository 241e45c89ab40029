-- ===== src/Ledger/Service/Guarded.antt =====
-- The ledger's router and the API key (oetp-ledger/src/lib.rs, api.rs).
use oetp.Prelude.{ℕ, ◌≡◌, refl, inl, inr, Bool, true, false, arith, Option-cases}
use oetp.Result.{ok, err}
use oetp.Crates.{Crates}
use oetp.Platform.{Store}
use oetp.Api.{ApiResult, unauthorized, check_api_key, system_set_clock-unauthorized}
use oetp.Http.{HttpRequest, Router, Response, handled, reply_of, serve_request_induction}
use oetp.Ledger.Requests.{AppState, AnchorsRequest}
use oetp.Ledger.Api.{
  handle_commit, handle_ingest, handle_key_commit, handle_fetch_packet, handle_anchors,
  handle_load_packets, handle_system_set_clock,
}
use oetp.Ledger.Service.{Endpoint, Reply, Bodies, World, at, routes, endpoint_handler, serve}

-- The reply of one of the three queries that anyone may make, or of the health check.
abbrev pub is_public : Reply → Bool
is_public (Reply.proven r) = true
is_public (Reply.verified r) = true
is_public (Reply.listed l) = true
is_public Reply.healthy = true
is_public _ = false

-- An error, a refusal before any handler ran, or a public reply.
abbrev pub shows_public : Response Reply → Bool
shows_public (handled (ok reply)) = is_public reply
shows_public _ = true

public_reply :
    {A : Type 0} (f : A → Reply) (r : ApiResult A)
    → ((a : A) → is_public (f a) ≡ true)
    → shows_public (reply_of f r) ≡ true
public_reply f (ok a) all_public = all_public a
public_reply f (err e) all_public = refl
public_reply f oetp.Result.panic all_public = refl
public_reply f oetp.Result.unfinished all_public = refl

module _ (c : Crates) {S : Type 0} (st : Store S) (bodies : Bodies) (router : Router)
    (now : ℕ) where
  anchors-same : (req : AnchorsRequest) (s : AppState S) → (handle_anchors c st req s).1 ≡ s
  unfolding handle_anchors
  anchors-same req s = ground arith

  endpoint-unauthorized :
      (e : Endpoint) (req : HttpRequest) (w : World S)
      → check_api_key w.state.api_key req.headers ≡ err unauthorized
      → ((endpoint_handler c st bodies router now e req w).1 ≡ w)
        × (shows_public (endpoint_handler c st bodies router now e req w).0 ≡ true)
  unfolding endpoint_handler handle_commit handle_ingest handle_key_commit handle_fetch_packet
      handle_load_packets handle_system_set_clock
  endpoint-unauthorized Endpoint.commit req w h =
      elim (Option-cases (bodies.commit_request req.body)) [
        | inl bad ↦ rw bad (refl, refl)
        | inr (b, good) ↦ rw good (rw h (refl, refl))
      ]
  endpoint-unauthorized Endpoint.ingest req w h =
      elim (Option-cases (bodies.ingest_request req.body)) [
        | inl bad ↦ rw bad (refl, refl)
        | inr (b, good) ↦ rw good (rw h (refl, refl))
      ]
  endpoint-unauthorized Endpoint.key req w h = elim (Option-cases (bodies.key_request req.body)) [
    | inl bad ↦ rw bad (refl, refl)
    | inr (b, good) ↦ rw good (rw h (refl, refl))
  ]
  endpoint-unauthorized Endpoint.fetch req w h =
      elim (Option-cases (bodies.fetch_request req.body)) [
        | inl bad ↦ rw bad (refl, refl)
        | inr (b, good) ↦ rw good (rw h (refl, refl))
      ]
  endpoint-unauthorized Endpoint.load req w h =
      elim (Option-cases (bodies.load_request_of req.body)) [
        | inl bad ↦ rw bad (refl, refl)
        | inr (b, good) ↦ rw good (rw h (refl, refl))
      ]
  endpoint-unauthorized Endpoint.proof req w h =
      elim (Option-cases (bodies.proof_request req.body)) [
        | inl bad ↦ rw bad (refl, refl)
        | inr (b, good) ↦ rw good (refl, public_reply Reply.proven _ (λ a. refl))
      ]
  endpoint-unauthorized Endpoint.verify req w h =
      elim (Option-cases (bodies.verify_request req.body)) [
        | inl bad ↦ rw bad (refl, refl)
        | inr (b, good) ↦ rw good (refl, public_reply Reply.verified _ (λ a. refl))
      ]
  endpoint-unauthorized Endpoint.anchors req w h =
      elim (Option-cases (bodies.anchors_request req.body)) [
        | inl bad ↦ rw bad (refl, refl)
        | inr (b, good) ↦
            rw good (rw (anchors-same b w.state) refl, public_reply Reply.listed _ (λ a. refl))
      ]
  endpoint-unauthorized Endpoint.health req w h = (refl, refl)
  endpoint-unauthorized Endpoint.set_clock req w h =
      elim (Option-cases (bodies.timestamp req.body)) [
        | inl bad ↦ rw bad (refl, refl)
        | inr (b, good) ↦ rw good (
            rw (system_set_clock-unauthorized w.state.api_key (at now w) req.headers b h)
              (refl, refl))
      ]

  -- Without the ledger's API key no request, to whatever path, with whatever method and body, changes
  -- the ledger or its clock's override, and what it is told is an error, a refusal before any handler ran,
  -- the health check, a proof, a verification, or the list of anchors.
  pub serve-keyless :
      (req : HttpRequest) (w : World S)
      → check_api_key w.state.api_key req.headers ≡ err unauthorized
      → ((serve c st bodies router now req w).1 ≡ w)
        × (shows_public (serve c st bodies router now req w).0 ≡ true)
  unfolding serve
  serve-keyless req w h =
      serve_request_induction router routes (endpoint_handler c st bodies router now)
        (λ p. (p.1 ≡ w) × (shows_public p.0 ≡ true)) req w (λ status. (refl, refl))
        (λ e. endpoint-unauthorized e req w h)

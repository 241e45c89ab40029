-- ===== src/Edge/Service/Guarded.antt =====
-- The daemon's router and the API key (oetp-edge/src/lib.rs, api.rs).
use oetp.Prelude.{◌≡◌, refl, ◌⊎◌, inl, inr, List, Option-cases}
use oetp.Result.{ok, err}
use oetp.Crates.{Crates, Codec}
use oetp.Packet.{ExamPacket}
use oetp.Api.{unauthorized, check_api_key, system_set_clock-unauthorized}
use oetp.Http.{HttpRequest, Router, Response, handled, refused, serve_request_induction}
use oetp.Edge.Queue.{QueuedSubmission}
use oetp.Edge.Api.{handle_fetch, handle_release, handle_unlock}
use oetp.Edge.Submit.{handle_submit, handle_system_flush, handle_system_set_clock}
use oetp.Edge.Service.{at, Endpoint, Reply, Bodies, Outside, World, routes, endpoint_handler, serve}

-- A response with no content of the service's: 401, a refusal before any handler ran, or the health
-- check's.
abbrev pub IsDenied : Response Reply → Type 0
IsDenied (handled r) = (r ≡ err unauthorized) ⊎ (r ≡ ok Reply.healthy)
IsDenied (refused status) = Unit {0}

module _ (c : Crates) (bincode : Codec ExamPacket) (queued : Codec (List QueuedSubmission))
    (bodies : Bodies) (router : Router) (out : Outside) where
  endpoint-unauthorized :
      (e : Endpoint) (req : HttpRequest) (w : World)
      → check_api_key w.state.config.api_key req.headers ≡ err unauthorized
      → ((endpoint_handler c bincode queued bodies router out e req w).1 ≡ w)
        × IsDenied (endpoint_handler c bincode queued bodies router out e req w).0
  unfolding endpoint_handler handle_fetch handle_release handle_unlock handle_submit
      handle_system_flush handle_system_set_clock
  endpoint-unauthorized Endpoint.fetch req w h =
      elim (Option-cases (bodies.fetch_request req.body)) [
        | inl bad ↦ rw bad (refl, tt)
        | inr (b, good) ↦ rw good (rw h (refl, inl refl))
      ]
  endpoint-unauthorized Endpoint.release req w h =
      elim (Option-cases (bodies.release_request req.body)) [
        | inl bad ↦ rw bad (refl, tt)
        | inr (b, good) ↦ rw good (rw h (refl, inl refl))
      ]
  endpoint-unauthorized Endpoint.unlock req w h =
      elim (Option-cases (bodies.unlock_request req.body)) [
        | inl bad ↦ rw bad (refl, tt)
        | inr (b, good) ↦ rw good (rw h (refl, inl refl))
      ]
  endpoint-unauthorized Endpoint.submit req w h =
      elim (Option-cases (bodies.submit_request req.body)) [
        | inl bad ↦ rw bad (refl, tt)
        | inr (b, good) ↦ rw good (rw h (refl, inl refl))
      ]
  endpoint-unauthorized Endpoint.health req w h = (refl, inr refl)
  endpoint-unauthorized Endpoint.set_clock req w h =
      elim (Option-cases (bodies.timestamp req.body)) [
        | inl bad ↦ rw bad (refl, tt)
        | inr (b, good) ↦ rw good (
            rw (system_set_clock-unauthorized w.state.config.api_key (at out.now w) req.headers b h)
              (refl, inl refl))
      ]
  endpoint-unauthorized Endpoint.flush req w h = rw h (refl, inl refl)

  -- Without the daemon's API key no request, to whatever path, with whatever method and body, changes
  -- the daemon, its clock's override or the ledger; it is answered with 401, refused before any handler ran, or is
  -- the health check.
  pub serve-unauthorized :
      (req : HttpRequest) (w : World)
      → check_api_key w.state.config.api_key req.headers ≡ err unauthorized
      → ((serve c bincode queued bodies router out req w).1 ≡ w)
        × IsDenied (serve c bincode queued bodies router out req w).0
  unfolding serve
  serve-unauthorized req w h =
      serve_request_induction router routes (endpoint_handler c bincode queued bodies router out)
        (λ p. (p.1 ≡ w) × IsDenied p.0) req w (λ status. (refl, tt))
        (λ e. endpoint-unauthorized e req w h)

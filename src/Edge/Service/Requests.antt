-- ===== src/Edge/Service/Requests.antt =====
-- The runs of the daemon, request by request (oetp-edge/src/lib.rs), and the tokens behind an unlock.
use oetp.Prelude.{
  ◌≡◌, refl, inl, inr, Bool, true, false, some, List, [], arith, Option-cases, Bytes, lookup,
}
use oetp.Result.{is_ok, ok, err, panic, unfinished}
use oetp.Crates.{Crates, Codec}
use oetp.Packet.{ExamPacket}
use oetp.Api.{ApiResult}
use oetp.Packet.{PacketQuestion}
use oetp.Http.{reply_of, HttpRequest, Router, Response, handled, serve_request_induction}
use oetp.Edge.Queue.{QueuedSubmission}
use oetp.Edge.State.{CachedExamData, AppState}
use oetp.Edge.Api.{handle_unlock}
use oetp.Edge.Api.Entries.{TokenGood}
use oetp.Edge.Api.Unlocked.{reachable-unlock, Step, Steps, NonceOf}
use oetp.Edge.Service.{
  ReleaseToken, Endpoint, Reply, Bodies, Outside, World, at, routes, endpoint_handler, serve,
}

module _ (c : Crates) (bincode : Codec ExamPacket) (queued : Codec (List QueuedSubmission))
    (bodies : Bodies) (router : Router) where
  -- The daemon over any requests, with whatever the outside answers to each; the nonce of a token has 16
  -- bytes, by its type.
  pub data Requests : World → World → Type 0 where
    none_yet : {w : World} → Requests w w
    request :
        {w u : World} (req : HttpRequest) (out : Outside)
        → NonceOf out.token_reply
        → Requests (serve c bincode queued bodies router out req w).1 u
        → Requests w u

  one : {s u : AppState} → Step c bincode s u → Steps c bincode s u
  one a = Steps.next a Steps.done

  endpoint-Steps :
      (out : Outside) (e : Endpoint) (req : HttpRequest) (w : World)
      → NonceOf out.token_reply
      → Steps c bincode w.state
          (endpoint_handler c bincode queued bodies router out e req w).1.state
  unfolding endpoint_handler
  endpoint-Steps out Endpoint.fetch req w n = elim (Option-cases (bodies.fetch_request req.body)) [
    | inl bad ↦ rw bad Steps.done
    | inr (b, good) ↦ rw good (one (Step.fetch req.headers b out.fetch_reply))
  ]
  endpoint-Steps out Endpoint.release req w n =
      elim (Option-cases (bodies.release_request req.body)) [
        | inl bad ↦ rw bad Steps.done
        | inr (b, good) ↦
            rw good (one (Step.release (at out.now w) req.headers b out.token_reply n))
      ]
  endpoint-Steps out Endpoint.unlock req w n =
      elim (Option-cases (bodies.unlock_request req.body)) [
        | inl bad ↦ rw bad Steps.done
        | inr (b, good) ↦ rw good (one (Step.unlock req.headers b))
      ]
  endpoint-Steps out Endpoint.submit req w n =
      elim (Option-cases (bodies.submit_request req.body)) [
        | inl bad ↦ rw bad Steps.done
        | inr (b, good) ↦ rw good (
            one
              (Step.submit queued (at out.now w) (at out.later w) out.drawn out.post req.headers b))
      ]
  endpoint-Steps out Endpoint.health req w n = Steps.done
  endpoint-Steps out Endpoint.set_clock req w n = elim (Option-cases (bodies.timestamp req.body)) [
    | inl bad ↦ rw bad Steps.done
    | inr (b, good) ↦ rw good Steps.done
  ]
  endpoint-Steps out Endpoint.flush req w n =
      one (Step.flush queued out.send req.headers out.drawn.queue_nonce w.ledger)

  serve-Steps :
      (out : Outside) (req : HttpRequest) (w : World)
      → NonceOf out.token_reply
      → Steps c bincode w.state (serve c bincode queued bodies router out req w).1.state
  unfolding serve
  serve-Steps out req w n =
      serve_request_induction router routes (endpoint_handler c bincode queued bodies router out)
        (λ p. Steps c bincode w.state p.1.state) req w (λ status. Steps.done)
        (λ e. endpoint-Steps out e req w n)

  Steps-append :
      {s u v : AppState} → Steps c bincode s u → Steps c bincode u v → Steps c bincode s v
  Steps-append Steps.done r = r
  Steps-append (Steps.next a rest) r = Steps.next a (Steps-append rest r)

  pub Requests-Steps : {w u : World} → Requests w u → Steps c bincode w.state u.state
  Requests-Steps none_yet = Steps.done
  Requests-Steps (request {w} req out n rest) =
      Steps-append (serve-Steps out req w n) (Requests-Steps rest)

  -- The questions of a response.
  abbrev pub gives_questions : Response Reply → Bool
  gives_questions (handled (ok (Reply.unlocked questions))) = true
  gives_questions _ = false

  -- The unlock that a response with questions comes from.
  record Unlocking (w : World) (req : HttpRequest) : Type 0 where
    student_uuid : Bytes
    body : bodies.unlock_request req.body ≡ some student_uuid
    unlocked : is_ok (handle_unlock c bincode req.headers student_uuid w.state).0 ≡ true

  no_questions :
      {A : Type 0} (f : A → Reply) (r : ApiResult A)
      → ((a : A) → gives_questions (handled (ok (f a))) ≡ false)
      → gives_questions (reply_of f r) ≡ true
      → ⊥
  no_questions f (ok a) none_there h = ground (arith, none_there a)
  no_questions f (err e) none_there h = cc
  no_questions f panic none_there h = cc
  no_questions f unfinished none_there h = cc

  unlocked_ok :
      (r : ApiResult (List PacketQuestion))
      → gives_questions (reply_of Reply.unlocked r) ≡ true
      → is_ok r ≡ true
  unlocked_ok (ok a) h = refl
  unlocked_ok (err e) h = cc
  unlocked_ok panic h = cc
  unlocked_ok unfinished h = cc

  endpoint-questions :
      (out : Outside) (e : Endpoint) (req : HttpRequest) (w : World)
      → gives_questions (endpoint_handler c bincode queued bodies router out e req w).0 ≡ true
      → Unlocking w req
  unfolding endpoint_handler
  endpoint-questions out Endpoint.fetch req w h =
      elim (Option-cases (bodies.fetch_request req.body)) [
        | inl bad ↦ (let k = rw bad at h in cc)
        | inr (b, good) ↦ absurd (no_questions Reply.fetched _ (λ a. refl) (rw good at h))
      ]
  endpoint-questions out Endpoint.release req w h =
      elim (Option-cases (bodies.release_request req.body)) [
        | inl bad ↦ (let k = rw bad at h in cc)
        | inr (b, good) ↦ absurd (no_questions Reply.released _ (λ a. refl) (rw good at h))
      ]
  endpoint-questions out Endpoint.unlock req w h =
      elim (Option-cases (bodies.unlock_request req.body)) [
        | inl bad ↦ (let k = rw bad at h in cc)
        | inr (b, good) ↦ record {
          student_uuid = b;
          body = good;
          unlocked = unlocked_ok _ (rw good at h);
        }
      ]
  endpoint-questions out Endpoint.submit req w h =
      elim (Option-cases (bodies.submit_request req.body)) [
        | inl bad ↦ (let k = rw bad at h in cc)
        | inr (b, good) ↦ absurd (no_questions Reply.submitted _ (λ a. refl) (rw good at h))
      ]
  endpoint-questions out Endpoint.health req w h = cc
  endpoint-questions out Endpoint.set_clock req w h =
      elim (Option-cases (bodies.timestamp req.body)) [
        | inl bad ↦ (let k = rw bad at h in cc)
        | inr (b, good) ↦ absurd (no_questions Reply.clock_set _ (λ a. refl) (rw good at h))
      ]
  endpoint-questions out Endpoint.flush req w h =
      absurd (no_questions Reply.flushed _ (λ a. refl) h)

  -- From a daemon with an empty cache, over any requests with any answers of the ledger and the beacon:
  -- a response with questions, to whatever request, answers an unlock of a student whose exam is in the
  -- cache with a release token that was verified under the beacon's key, names this centre, exam and
  -- device, and has its nonce among the consumed ones.
  pub serve-questions :
      (start w : World) (out : Outside) (req : HttpRequest)
      → start.state.cache ≡ []
      → Requests start w
      → gives_questions (serve c bincode queued bodies router out req w).0 ≡ true
      → (student_uuid : Bytes) × (entry : CachedExamData) × (token : ReleaseToken)
        × (bodies.unlock_request req.body ≡ some student_uuid)
        × (lookup (c.uuid_to_string student_uuid) w.state.cache ≡ some entry)
        × (entry.release_token ≡ some token)
        × TokenGood c w.state.config w.state.consumed_nonces.nonces token
  unfolding serve
  serve-questions start w out req empty before answered =
      let u : Unlocking w req =
        serve_request_induction router routes (endpoint_handler c bincode queued bodies router out)
          (λ p. gives_questions p.0 ≡ true → Unlocking w req) req w (λ status h. cc)
          (λ e h. endpoint-questions out e req w h) answered in
      let (entry, token, there, held, good) =
        reachable-unlock c bincode start.state w.state req.headers u.student_uuid empty
          (Requests-Steps before) u.unlocked in
      (u.student_uuid, entry, token, u.body, there, held, good)

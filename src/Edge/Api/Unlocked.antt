-- ===== src/Edge/Api/Unlocked.antt =====
-- The runs of the daemon's handlers (oetp-edge/src/api.rs), and the tokens behind an unlock.
use oetp.Prelude.{ℕ, List, Bool, Option-cases, ◌≡◌, inl, inr, true, some, [], arith, Bytes, lookup}
use oetp.Result.{is_ok, Result, ok}
use oetp.Packet.{ExamPacket}
use oetp.Crates.{Crates, Codec}
use oetp.Clock.{Clock}
use oetp.Release.{ReleaseToken}
use oetp.Api.{Headers}
use oetp.Edge.Queue.{QueuedSubmission}
use oetp.Edge.Nonces.Persisted.{IsNonce}
use oetp.Edge.Submit.{SubmitRequest, Drawn, handle_submit, handle_system_flush}
use oetp.Edge.Submit.Frame.{Framed, submit-Framed, flush-Framed}
use oetp.Edge.Api.{FetchReply, handle_fetch, handle_release, handle_unlock}
use oetp.Edge.State.{CachedExamData, AppState}
use oetp.Edge.Api.Entries.{TokenGood, Released, Good, WellFormed, All-lookup}
use oetp.Edge.Api.Handled.{release-WellFormed}
use oetp.Edge.Api.Opened.{fetch-WellFormed, unlock-WellFormed, unlock-UnlockOk}

-- A nonce: 16 bytes.
abbrev pub NonceOf : Result ReleaseToken → Type 0
NonceOf (ok token) = IsNonce token.nonce
NonceOf _ = Unit {0}

module _ (c : Crates) where
  -- What the daemon's handlers do, with any request, any clock and any answers. The nonce of a token has
  -- 16 bytes, by its type; a number stands for the state of the ledger that a flush meets.
  pub data Step (bincode : Codec ExamPacket) : AppState → AppState → Type 0 where
    fetch :
        {s : AppState} (headers : Headers) (student_uuid : Bytes) (reply : FetchReply)
        → Step bincode s (handle_fetch c headers student_uuid reply s).1
    release :
        {s : AppState} (clock : Clock) (headers : Headers) (student_uuid : Bytes)
        (reply : Result ReleaseToken)
        → NonceOf reply
        → Step bincode s (handle_release c clock headers student_uuid reply s).1
    unlock :
        {s : AppState} (headers : Headers) (student_uuid : Bytes)
        → Step bincode s (handle_unlock c bincode headers student_uuid s).1
    submit :
        {s : AppState} (queued : Codec (List QueuedSubmission)) (clock later : Clock)
        (drawn : Drawn) (post : QueuedSubmission → Bool) (headers : Headers) (req : SubmitRequest)
        → Step bincode s (handle_submit c queued clock later drawn post headers req s).1
    flush :
        {s : AppState} (queued : Codec (List QueuedSubmission))
        (send : ℕ → QueuedSubmission → Bool × ℕ) (headers : Headers) (nonce : Bytes) (ledger : ℕ)
        → Step bincode s (handle_system_flush c queued send headers nonce (s, ledger)).1.0

  pub data Steps (bincode : Codec ExamPacket) : AppState → AppState → Type 0 where
    done : {s : AppState} → Steps bincode s s
    next : {s u w : AppState} → Step bincode s u → Steps bincode u w → Steps bincode s w

  Framed-WellFormed : {s u : AppState} → Framed s u → WellFormed c s → WellFormed c u
  Framed-WellFormed f w = rw f.cache (rw f.config (rw f.nonces w))

  Step-WellFormed :
      (bincode : Codec ExamPacket) {s u : AppState}
      → Step bincode s u
      → WellFormed c s
      → WellFormed c u
  Step-WellFormed bincode {s} (Step.fetch headers student_uuid reply) w =
      fetch-WellFormed c headers student_uuid s w reply
  Step-WellFormed bincode {s} (Step.release clock headers student_uuid reply n) w =
      release-WellFormed c clock headers student_uuid reply s w
  Step-WellFormed bincode {s} (Step.unlock headers student_uuid) w =
      unlock-WellFormed c headers student_uuid s w bincode
  Step-WellFormed bincode {s} (Step.submit queued clock later drawn post headers req) w =
      Framed-WellFormed (submit-Framed c queued clock later drawn post headers req s) w
  Step-WellFormed bincode {s} (Step.flush queued send headers nonce ledger) w =
      Framed-WellFormed (flush-Framed c queued send headers nonce s ledger) w

  Steps-WellFormed :
      (bincode : Codec ExamPacket) {s u : AppState}
      → Steps bincode s u
      → WellFormed c s
      → WellFormed c u
  Steps-WellFormed bincode Steps.done w = w
  Steps-WellFormed bincode (Steps.next a rest) w =
      Steps-WellFormed bincode rest (Step-WellFormed bincode a w)

  -- From a daemon with an empty cache, by any fetches, releases, unlocks, submits and flushes, with any answers of the
  -- ledger and the beacon: every cached exam has a variant seed only if it has a release token, and its
  -- token was verified under the beacon's key, names this centre, exam and device, and has its nonce
  -- among the consumed ones.
  pub reachable-WellFormed :
      (bincode : Codec ExamPacket) (start s : AppState)
      → start.cache ≡ []
      → Steps bincode start s
      → WellFormed c s
  reachable-WellFormed bincode start s empty steps = Steps-WellFormed bincode steps (rw empty tt)

  -- From a daemon with an empty cache, by any fetches, releases, unlocks, submits and flushes: an unlock that succeeds found
  -- an exam in the cache with a release token that was verified under the beacon's key, names this
  -- centre, exam and device, and has its nonce among the consumed ones.
  pub reachable-unlock :
      (bincode : Codec ExamPacket) (start s : AppState) (headers : Headers) (student_uuid : Bytes)
      → start.cache ≡ []
      → Steps bincode start s
      → is_ok (handle_unlock c bincode headers student_uuid s).0 ≡ true
      → (entry : CachedExamData) × (token : ReleaseToken) × (lookup
            (c.uuid_to_string student_uuid)
            s.cache
          ≡ some entry)
        × (entry.release_token ≡ some token)
        × TokenGood c s.config s.consumed_nonces.nonces token
  reachable-unlock bincode start s headers student_uuid empty steps unlocked =
      let w = reachable-WellFormed bincode start s empty steps in
      let u = unlock-UnlockOk c headers student_uuid s w bincode unlocked in
      let g = All-lookup (Good c s.config s.consumed_nonces.nonces) _ s.cache u.cached w in
      elim (Option-cases u.entry.release_token) [
        | inl missing ↦ absurd (ground (arith, u.token, missing))
        | inr (token, there) ↦
            let good : Released c s.config s.consumed_nonces.nonces (some token) =
              rw there at g.1 in
            (u.entry, token, u.cached, there, good)
      ]

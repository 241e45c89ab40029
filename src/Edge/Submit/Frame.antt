-- ===== src/Edge/Submit/Frame.antt =====
-- The handlers submit and flush (oetp-edge/src/api.rs) touch nothing of the state but the queue.
use oetp.Prelude.{◌≡◌, Bool, List, arith, Bytes}
use oetp.Crates.{Crates, Codec}
use oetp.Clock.{Clock}
use oetp.Api.{Headers}
use oetp.Edge.Queue.{QueuedSubmission}
use oetp.Edge.State.{AppState}
use oetp.Edge.Submit.{SubmitRequest, Drawn, post_or_enqueue, handle_submit, handle_system_flush}

-- The parts of the state that the handlers fetch, release and unlock work on.
pub record Framed (s u : AppState) : Type 0 where
  pub config : u.config ≡ s.config
  pub cache : u.cache ≡ s.cache
  pub nonces : u.consumed_nonces ≡ s.consumed_nonces

module _ (c : Crates) (bincode : Codec (List QueuedSubmission)) where
  pub submit-Framed :
      (clock later : Clock) (drawn : Drawn) (post : QueuedSubmission → Bool) (headers : Headers)
      (req : SubmitRequest) (s : AppState)
      → Framed s (handle_submit c bincode clock later drawn post headers req s).1
  unfolding handle_submit post_or_enqueue
  submit-Framed clock later drawn post headers req s = record {
    config = ground arith;
    cache = ground arith;
    nonces = ground arith;
  }

  pub flush-Framed :
      {L : Type 0} (send : L → QueuedSubmission → Bool × L) (headers : Headers) (nonce : Bytes)
      (s : AppState) (ledger : L)
      → Framed s (handle_system_flush c bincode send headers nonce (s, ledger)).1.0
  unfolding handle_system_flush
  flush-Framed send headers nonce s ledger = record {
    config = ground arith;
    cache = ground arith;
    nonces = ground arith;
  }

-- ===== src/Edge/Startup.antt =====
-- oetp-edge/src/main.rs: from the environment and the key files to the state that the handlers share, and
-- one tick of the task that flushes the queue. `err tt` is the exit of the process with code 1.
pub mod Initial
mod Tests
use oetp.Prelude.{◌-◌, ◌/◌, ◌%◌, ap, Bool, List, map, all, Bytes}
use oetp.Result.{Fallible, Result, ok, ◌>>=◌, map_err}
use oetp.Crates.{Crates, Codec}
use oetp.Env.{Env}
use oetp.Platform.{ProcessGuard}
use oetp.Edge.Config.{EdgeConfig, Disk, from_env, load_device_key, load_device_x25519_key}
use oetp.Edge.Queue.{File, QueuedSubmission, flush}
use oetp.Edge.State
use oetp.Edge.State.{AppState}

abbrev pub or_exit : {A : Type 0} → Result A → Fallible (Unit {0}) A
or_exit r = map_err r (λ e. tt)

-- What the daemon starts with, and what the guard of the process answered, which is ignored.
pub record Started : Type 0 where
  pub state : AppState
  pub core_dumps : Result (Unit {0})
  pub ptrace : Result (Unit {0})

module _ (c : Crates) where
  -- `main`, up to the state, over the files of the queue and of the nonces.
  unfoldable pub main : Env → Disk → ProcessGuard → File → File → Fallible (Unit {0}) Started
  unfolding from_env load_device_key load_device_x25519_key State.new
  main env disk guard queue_file nonce_file = do
    config ← or_exit (from_env c env)
    device_key ← or_exit (load_device_key c disk config)
    device_x25519_key ← or_exit (load_device_x25519_key c disk config)
    ok (record {
      state = State.new c config device_key device_x25519_key queue_file nonce_file;
      core_dumps = guard.disable_core_dumps;
      ptrace = guard.restrict_ptrace;
    })

  -- One tick of the background task: a flush, whose outcome is only logged.
  unfoldable pub tick :
      {L : Type 0}
      → Codec (List QueuedSubmission)
      → (L → QueuedSubmission → Bool × L)
      → Bytes
      → AppState × L
      → AppState × L
  unfolding flush
  tick bincode send nonce (s, ledger) =
      let (reply, file, after) = flush send c bincode s.queue.file s.queue.key nonce ledger in
      (record s { queue = record s.queue { file = file } }, after)

-- ===== src/Edge/Startup/Initial.antt =====
-- The daemon that oetp-edge/src/main.rs starts.
use oetp.Prelude.{ℕ, ◌%◌, ◌≡◌, refl, Bool, List, [], length, Bytes}
use oetp.Result.{ok, ok-injective}
use oetp.Crates.{Crates, HexLaw, PatternLaw, Codec}
use oetp.Env.{Env}
use oetp.Env.Read.{first_step}
use oetp.Platform.{ProcessGuard}
use oetp.Api.{Headers, check_api_key}
use oetp.Edge.Config.{Disk, from_env, load_device_key, load_device_x25519_key}
use oetp.Edge.Config.Checked.{IsChecked, from_env-IsChecked, load_device_key-eq-ok}
use oetp.Edge.Queue.{File, QueuedSubmission, queue_key}
use oetp.Edge.State
use oetp.Edge.State.{AppState}
use oetp.Edge.Nonces
use oetp.Edge.Submit.{handle_system_flush}
use oetp.Edge.Startup.{Started, main, tick, or_exit}

module _ (c : Crates) (pattern : PatternLaw c) (hex : HexLaw c) where
  -- What a daemon begins with: a checked configuration, a device key of 32 bytes with its public key,
  -- which only its owner may read, nothing in the cache, the key of the queue that belongs to the
  -- device, and the nonces that the file has.
  pub record IsStarted (disk : Disk) (queue_file nonce_file : File) (s : AppState) : Type 0 where
    pub checked : IsChecked s.config
    pub secret : length s.device_key.private_key ≡ 32
    pub public : s.device_key.public_key ≡ c.ed_public s.device_key.private_key
    pub device : s.device_key.device_id ≡ s.config.device_id
    pub mode : ℕ
    pub mode_of : disk.mode s.config.device_key_path ≡ ok mode
    pub owner_only : mode % 64 ≡ 0
    pub cache : s.cache ≡ []
    pub queue : s.queue ≡ record { file = queue_file; key = queue_key c s.device_key.private_key }
    pub nonces : s.consumed_nonces ≡ Nonces.new c nonce_file

  or_exit-ok : {A : Type 0} (r : oetp.Result.Result A) {a : A} → or_exit r ≡ ok a → r ≡ ok a
  or_exit-ok (ok b) h = cc
  or_exit-ok (oetp.Result.err e) h = cc
  or_exit-ok oetp.Result.panic h = cc
  or_exit-ok oetp.Result.unfinished h = cc

  -- A daemon that `main` starts, whatever the guard of the process answers, begins with a checked
  -- configuration, a device key of 32 bytes that only its owner may read, an empty cache, the queue as the
  -- last process left it, under a key of the device, and the nonces that the file has.
  pub main-IsStarted :
      (env : Env) (disk : Disk) (guard : ProcessGuard) (queue_file nonce_file : File)
      {started : Started}
      → main c env disk guard queue_file nonce_file ≡ ok started
      → IsStarted disk queue_file nonce_file started.state
  unfolding main State.new
  main-IsStarted env disk guard queue_file nonce_file {started} h =
      let (config, e, h₁) = first_step (or_exit (from_env c env)) h in
      let (device_key, k, h₂) = first_step (or_exit (load_device_key c disk config)) h₁ in
      let (x25519, _, last) = first_step (or_exit (load_device_x25519_key c disk config)) h₂ in
      let key = or_exit-ok (load_device_key c disk config) k in
      let (secret, public, device, mode, mode_of, owner_only) =
        load_device_key-eq-ok c pattern hex disk config key in
      rw (← ok-injective last) (record {
        checked = from_env-IsChecked c pattern hex env (or_exit-ok (from_env c env) e);
        secret = secret;
        public = public;
        device = device;
        mode = mode;
        mode_of = mode_of;
        owner_only = owner_only;
        cache = refl;
        queue = refl;
        nonces = refl;
      })

module _ (c : Crates) where
  -- A tick of the background task does to the daemon and the ledger what a flush that is asked for with
  -- the API key does.
  pub tick-handle_system_flush :
      {L : Type 0} (queued : Codec (List QueuedSubmission)) (send : L → QueuedSubmission → Bool × L)
      (headers : Headers) (nonce : Bytes) (s : AppState) (ledger : L)
      → check_api_key s.config.api_key headers ≡ ok tt
      → tick c queued send nonce (s, ledger)
        ≡ (handle_system_flush c queued send headers nonce (s, ledger)).1
  unfolding tick handle_system_flush
  tick-handle_system_flush queued send headers nonce s ledger h = rw h refl

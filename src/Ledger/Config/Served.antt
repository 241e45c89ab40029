-- ===== src/Ledger/Config/Served.antt =====
-- The state that the ledger's `Serve` begins with.
use oetp.Prelude.{◌≤◌, String, ◌≡◌, refl, some, arith, length, Bytes}
use oetp.Result.{ok-injective, ok}
use oetp.Crates.{Crates, HexLaw}
use oetp.Clock.{Clock, current_timestamp_secs}
use oetp.Validation.{validate_hex_secret, validate_api_key, u64_max}
use oetp.Env.{Env, required, required_identifier}
use oetp.Env.Read.{first_step}
use oetp.Ledger.Requests.{within_window}
use oetp.Ledger.Config.{LedgerConfig, from_env, serve, build_app_state}

module _ (c : Crates) where
  -- A secret that was accepted is the hex of 32 bytes.
  validate_hex_secret-decoded :
      (name : String) (x : Bytes) {key : Bytes}
      → validate_hex_secret c name x ≡ ok key
      → c.hex_decode 32 (c.trim x) ≡ some key
  unfolding validate_hex_secret
  validate_hex_secret-decoded name x h = ground arith

  from_env-signing_key :
      (env : Env) {cfg : LedgerConfig}
      → from_env c env ≡ ok cfg
      → (key : Bytes) × (c.hex_decode 32 (c.trim cfg.signing_key_hex) ≡ some key)
        × (validate_api_key cfg.api_key ≡ ok tt)
  unfolding from_env
  from_env-signing_key env {cfg} h =
      let (tenant, t, h₁) = first_step (required_identifier c env "OETP_TENANT_ID") h in
      let (exam, e, h₂) = first_step (required_identifier c env "OETP_EXAM_ID") h₁ in
      let (text, x, h₃) = first_step (required env "OETP_SIGNING_KEY" " required") h₂ in
      let (key, k, h₄) = first_step (validate_hex_secret c "OETP_SIGNING_KEY" text) h₃ in
      let (api_key, a, h₅) = first_step (required env "OETP_API_KEY" " required") h₄ in
      let (_, v, last) = first_step (validate_api_key api_key) h₅ in
      rw (← ok-injective last) (key, validate_hex_secret-decoded "OETP_SIGNING_KEY" text k, v)

  -- A configuration that `from_env` accepts is served: the signing key, which is parsed once more, is
  -- there, with 32 bytes, and the handlers begin with an empty state in whose exam window every time of a
  -- u64 clock lies.
  pub serve-from_env :
      HexLaw c
      → {S : Type 0} (env : Env) (store : S) {cfg : LedgerConfig} → from_env c env ≡ ok cfg
      → (key : Bytes) × (length key ≡ 32)
        × (serve c env store ≡ ok (build_app_state store key cfg.api_key 0 u64_max))
        × ((clock : Clock)
            → current_timestamp_secs clock ≤ u64_max
            → within_window clock (build_app_state store key cfg.api_key 0 u64_max) ≡ ok tt)
  unfolding serve build_app_state
  serve-from_env hex {S} env store {cfg} h =
      let (key, k, _) = from_env-signing_key env h in
      (
        key,
        hex.length-hex_decode 32 (c.trim cfg.signing_key_hex) k,
        rw h (rw k refl),
        λ clock small. ground arith,
      )

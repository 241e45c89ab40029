-- ===== src/Ledger/Config/Tests.antt =====
-- A ledger that is started from an environment.
use oetp.Prelude.{◌≤◌, ◌≡◌, refl, [], ◌∷◌, length, Bytes, utf8, beq, lookup}
use oetp.Result.{ok}
use oetp.Crates.Toy.{toy, toy-HexLaw, hex_value}
use oetp.Clock.{Clock, current_timestamp_secs}
use oetp.Validation.{validate_identifier, validate_hex_secret, validate_api_key, u64_max}
use oetp.Env.{Env, required_identifier}
use oetp.Ledger.Requests.{within_window}
use oetp.Ledger.Config.{ℕ, LedgerConfig, from_env, serve, build_app_state}
use oetp.Ledger.Config.Served.{serve-from_env}

abbrev secret : Bytes
secret = utf8 "abababababababababababababababababababababababababababababababab"

abbrev env : Env
env name = lookup name (
    (utf8 "OETP_TENANT_ID", utf8 "nta")
    ∷ (utf8 "OETP_EXAM_ID", utf8 "jee-2027")
    ∷ (utf8 "OETP_SIGNING_KEY", secret)
    ∷ (utf8 "OETP_API_KEY", utf8 "test-api-key-12345678-with-enough-chars")
    ∷ [])

abbrev config : LedgerConfig
config = record {
  listen_addr = utf8 "0.0.0.0:8081";
  db_path = utf8 "/var/lib/oetp/ledger";
  tenant_id = utf8 "nta";
  exam_id = utf8 "jee-2027";
  signing_key_hex = secret;
  anchor_rpc_url = utf8 "http://localhost:8545";
  api_key = utf8 "test-api-key-12345678-with-enough-chars";
}

configured : from_env toy env ≡ ok config
unfolding from_env required_identifier validate_identifier validate_hex_secret validate_api_key
    lookup beq hex_value utf8
configured = refl

serve-from_env_example :
    (key : Bytes) × (length key ≡ 32)
    × (serve toy {S = ℕ} env 0 ≡ ok (build_app_state {S = ℕ} 0 key config.api_key 0 u64_max))
    × ((clock : Clock)
        → current_timestamp_secs clock ≤ u64_max
        → within_window clock (build_app_state {S = ℕ} 0 key config.api_key 0 u64_max) ≡ ok tt)
serve-from_env_example = serve-from_env toy toy-HexLaw {S = ℕ} env 0 configured

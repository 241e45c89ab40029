-- ===== src/Ledger/Config.antt =====
-- oetp-ledger/src/config.rs, and what the command `Serve` of oetp-ledger/src/main.rs makes of a
-- configuration: the signing key, and the state of `build_app_state` (lib.rs). The router is in
-- Ledger/Service; the listener is not modelled.
pub mod Served
mod Tests
use oetp.Prelude.{ℕ, ◌-◌, ◌/◌, ◌%◌, max, ap, not, [], map, all, Bytes}
use oetp.Result.{Fallible, anchor, io, Result, ok, err, ◌>>=◌, ◌>>◌, ok_or, map_err}
use oetp.Crates.{Crates}
use oetp.Validation.{validate_api_key, validate_hex_secret, u64_max}
use oetp.Env.{Env, var_or, required, required_identifier}
use oetp.Ledger.Requests.{AppState}

pub record LedgerConfig : Type 0 where
  pub listen_addr : Bytes
  pub db_path : Bytes
  pub tenant_id : Bytes
  pub exam_id : Bytes
  pub signing_key_hex : Bytes
  pub anchor_rpc_url : Bytes
  pub api_key : Bytes

-- A service with nothing in it yet.
unfoldable pub build_app_state : {S : Type 0} → S → Bytes → Bytes → ℕ → ℕ → AppState S
build_app_state store signing_key api_key exam_window_start exam_window_end = record {
  store = store;
  signing_key = signing_key;
  packets = [];
  anchors = [];
  receipt_index = [];
  api_key = api_key;
  exam_window_start = exam_window_start;
  exam_window_end = exam_window_end;
}

module _ (c : Crates) where
  unfoldable pub from_env : Env → Result LedgerConfig
  unfolding required_identifier validate_hex_secret validate_api_key
  from_env env = do
    tenant_id ← required_identifier c env "OETP_TENANT_ID"
    exam_id ← required_identifier c env "OETP_EXAM_ID"
    signing_key_hex ← required env "OETP_SIGNING_KEY" " required"
    _ ← validate_hex_secret c "OETP_SIGNING_KEY" signing_key_hex
    api_key ← required env "OETP_API_KEY" " required"
    validate_api_key api_key
    ok (record {
      listen_addr = var_or env "OETP_LEDGER_LISTEN_ADDR" "0.0.0.0:8081";
      db_path = var_or env "OETP_LEDGER_DB_PATH" "/var/lib/oetp/ledger";
      tenant_id = tenant_id;
      exam_id = exam_id;
      signing_key_hex = signing_key_hex;
      anchor_rpc_url = var_or env "OETP_ANCHOR_RPC_URL" "http://localhost:8545";
      api_key = api_key;
    })

  -- `Serve`, to the state that the handlers share, over a store that was opened. `err tt` is the exit of
  -- the process with code 1.
  unfoldable pub serve : {S : Type 0} → Env → S → Fallible (Unit {0}) (AppState S)
  unfolding from_env build_app_state
  serve env store = do
    cfg ← map_err (from_env env) (λ e. tt)
    signing_key ← ok_or (c.hex_decode 32 (c.trim cfg.signing_key_hex)) tt
    ok (build_app_state store signing_key cfg.api_key 0 u64_max)

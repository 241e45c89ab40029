-- ===== src/Edge/Config/Tests.antt =====
-- A configuration of the daemon, read from an environment, and its device key from a file.
use oetp.Prelude.{◌≡◌, refl, [], ◌∷◌, Bytes, utf8, beq, lookup}
use oetp.Result.{ok}
use oetp.Crates.Toy.{toy, hex_value}
use oetp.Validation.{
  validate_identifier, validate_hex_secret, validate_api_key, validate_exam_window, u64_max,
}
use oetp.Device.{from_bytes}
use oetp.Env.{Env, required_identifier, required_secret, u64_or, parse_u64}
use oetp.Edge.Config.{EdgeConfig, Disk, from_env, read_key_file, load_device_key, is_utf8}

abbrev secret : Bytes
secret = utf8 "abababababababababababababababababababababababababababababababab"

abbrev pub env : Env
env name = lookup name (
    (utf8 "OETP_DEVICE_ID", utf8 "dev-1")
    ∷ (utf8 "OETP_CENTER_ID", utf8 "c1")
    ∷ (utf8 "OETP_TENANT_ID", utf8 "nta")
    ∷ (utf8 "OETP_EXAM_ID", utf8 "jee-2027")
    ∷ (utf8 "OETP_BEACON_PUBLIC_KEY", secret)
    ∷ (utf8 "OETP_EXAM_SALT", secret)
    ∷ (utf8 "OETP_SERVER_PEPPER", secret)
    ∷ (utf8 "OETP_API_KEY", utf8 "test-api-key-12345678-with-enough-chars")
    ∷ (utf8 "OETP_EXAM_WINDOW_START", utf8 "+100")
    ∷ (utf8 "OETP_EXAM_WINDOW_END", utf8 "18446744073709551616")
    ∷ [])

abbrev pub bytes : Bytes
bytes =
    171 ∷ 171 ∷ 171 ∷ 171 ∷ 171 ∷ 171 ∷ 171 ∷ 171 ∷ 171 ∷ 171 ∷ 171 ∷ 171 ∷ 171 ∷ 171 ∷ 171 ∷ 171
    ∷ 171 ∷ 171 ∷ 171 ∷ 171 ∷ 171 ∷ 171 ∷ 171 ∷ 171 ∷ 171 ∷ 171 ∷ 171 ∷ 171 ∷ 171 ∷ 171 ∷ 171 ∷ 171
    ∷ []

abbrev pub config : EdgeConfig
config = record {
  device_id = utf8 "dev-1";
  center_id = utf8 "c1";
  tenant_id = utf8 "nta";
  exam_id = utf8 "jee-2027";
  ledger_url = utf8 "http://localhost:8081";
  beacon_url = utf8 "http://localhost:9090";
  listen_addr = utf8 "127.0.0.1:8080";
  cache_dir = utf8 "/var/cache/oetp";
  queue_dir = utf8 "/var/spool/oetp";
  device_key_path = utf8 "/etc/oetp/device.key";
  device_x25519_key_path = utf8 "/etc/oetp/device_x25519.key";
  beacon_public_key = bytes;
  exam_salt = bytes;
  server_pepper = bytes;
  api_key = utf8 "test-api-key-12345678-with-enough-chars";
  exam_window_start = 100;
  exam_window_end = u64_max;
}

-- The end is more than a u64 holds, so that it is the default.
pub configured : from_env toy env ≡ ok config
unfolding from_env required_identifier required_secret u64_or parse_u64 validate_identifier
    validate_hex_secret validate_api_key validate_exam_window lookup beq hex_value utf8
configured = refl

abbrev pub disk : Disk
disk = record { mode = λ path. ok 33152; read = λ path. ok secret }

pub device_key_loaded : load_device_key toy disk config ≡ ok (from_bytes toy (utf8 "dev-1") bytes)
unfolding load_device_key read_key_file from_bytes is_utf8 hex_value utf8
device_key_loaded = refl

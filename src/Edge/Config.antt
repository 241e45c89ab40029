-- ===== src/Edge/Config.antt =====
-- oetp-edge/src/config.rs: the daemon's configuration and the two key files. A disk is what `metadata`
-- and `read` answer for a path, on Unix.
pub mod Checked
pub mod Tests
use oetp.Prelude.{
  ℕ, zero, suc, ◌+◌, ◌-◌, ◌/◌, ◌%◌, ◌<◌, max, String, ap, Bool, false, not, ◌&&◌, Option, none,
  some, [], ◌∷◌, ◌++◌, map, ltb, leb, ◌==◌, if◌then◌else◌, any, all, Bytes, utf8,
}
use oetp.Result.{
  Fallible, invalid_input, io, Result, ok, err, ◌>>=◌, ◌>>◌, reject, ok_or, map_err, expect,
}
use Prim.Native.String.{◌++◌ as ◌<>◌}
use oetp.Crates.{Crates}
use oetp.Validation.{validate_api_key, validate_exam_window, u64_max}
use oetp.Device.{DeviceKeyPair, from_bytes, DeviceX25519Key, from_bytes_x25519}
use oetp.Env.{Env, var_or, required, required_identifier, required_secret, u64_or}

pub record EdgeConfig : Type 0 where
  pub device_id : Bytes
  pub center_id : Bytes
  pub tenant_id : Bytes
  pub exam_id : Bytes
  pub ledger_url : Bytes
  pub beacon_url : Bytes
  pub listen_addr : Bytes
  pub cache_dir : Bytes
  pub queue_dir : Bytes
  pub device_key_path : Bytes
  pub device_x25519_key_path : Bytes
  pub beacon_public_key : Bytes
  pub exam_salt : Bytes
  pub server_pepper : Bytes
  pub api_key : Bytes
  pub exam_window_start : ℕ
  pub exam_window_end : ℕ

-- The mode of a path's file, and its bytes, or the message of the system's error.
pub record Disk : Type 0 where
  pub mode : Bytes → Fallible String ℕ
  pub read : Bytes → Fallible String Bytes

-- The least and the greatest byte that may follow, and how many bytes the character still has.
abbrev pub Expected : Type 0
Expected = Option (ℕ × ℕ × ℕ)

-- The bytes that a character may begin with, and what has to follow each.
abbrev pub first_byte : ℕ → Expected
first_byte b =
    if ltb b 128
    then some (0, 0, 0)
    else if ltb b 194
    then none
    else if ltb b 224
    then some (1, 128, 191)
    else if b == 224
    then some (2, 160, 191)
    else if b == 237
    then some (2, 128, 159)
    else if ltb b 240
    then some (2, 128, 191)
    else if b == 240
    then some (3, 144, 191)
    else if ltb b 244
    then some (3, 128, 191)
    else if b == 244
    then some (3, 128, 143)
    else none

abbrev pub next_byte : ℕ × ℕ × ℕ → ℕ → Expected
next_byte (zero, low, high) b = first_byte b
next_byte (suc n, low, high) b = if leb low b && leb b high then some (n, 128, 191) else none

unfoldable pub utf8_from : ℕ × ℕ × ℕ → Bytes → Bool
utf8_from (n, low, high) [] = n == 0
utf8_from expected (b ∷ x) = elim (next_byte expected b) [ none ↦ false | some e ↦ utf8_from e x ]

-- `String::from_utf8` succeeds.
unfoldable pub is_utf8 : Bytes → Bool
unfolding utf8_from
is_utf8 x = utf8_from (0, 0, 0) x

-- `mode & 0o077 != 0`: one of the six low bits is set.
abbrev pub too_permissive : ℕ → Bool
too_permissive mode = not (mode % 64 == 0)

module _ (c : Crates) where
  unfoldable pub from_env : Env → Result EdgeConfig
  unfolding required_identifier required_secret u64_or validate_api_key validate_exam_window
  from_env env = do
    device_id ← required_identifier c env "OETP_DEVICE_ID"
    center_id ← required_identifier c env "OETP_CENTER_ID"
    tenant_id ← required_identifier c env "OETP_TENANT_ID"
    exam_id ← required_identifier c env "OETP_EXAM_ID"
    beacon_pk ← required_secret c env "OETP_BEACON_PUBLIC_KEY" " required"
    exam_salt ← required_secret c env "OETP_EXAM_SALT" " required (32-byte hex)"
    server_pepper ← required_secret c env "OETP_SERVER_PEPPER" " required (32-byte hex)"
    api_key ← required env "OETP_API_KEY" " required"
    validate_api_key api_key
    let exam_window_start = u64_or env "OETP_EXAM_WINDOW_START" 0
    let exam_window_end = u64_or env "OETP_EXAM_WINDOW_END" u64_max
    validate_exam_window exam_window_start exam_window_end
    ok (record {
      device_id = device_id;
      center_id = center_id;
      tenant_id = tenant_id;
      exam_id = exam_id;
      ledger_url = var_or env "OETP_LEDGER_URL" "http://localhost:8081";
      beacon_url = var_or env "OETP_BEACON_URL" "http://localhost:9090";
      listen_addr = var_or env "OETP_LISTEN_ADDR" "127.0.0.1:8080";
      cache_dir = var_or env "OETP_CACHE_DIR" "/var/cache/oetp";
      queue_dir = var_or env "OETP_QUEUE_DIR" "/var/spool/oetp";
      device_key_path = var_or env "OETP_DEVICE_KEY" "/etc/oetp/device.key";
      device_x25519_key_path = var_or env "OETP_DEVICE_X25519_KEY" "/etc/oetp/device_x25519.key";
      beacon_public_key = beacon_pk;
      exam_salt = exam_salt;
      server_pepper = server_pepper;
      api_key = api_key;
      exam_window_start = exam_window_start;
      exam_window_end = exam_window_end;
    })

  -- What both key files go through: the mode, the bytes, the text, and its hex. The messages begin with
  -- the name of the key.
  unfoldable pub read_key_file : Disk → String → Bytes → Result Bytes
  unfolding is_utf8
  read_key_file disk name path = do
    mode ← map_err (disk.mode path) io
    reject (too_permissive mode)
        (invalid_input (◌<>◌ name " file permissions too permissive; expected 0600"))
    bytes ← map_err (disk.read path) io
    reject (not (is_utf8 bytes)) (invalid_input (◌<>◌ name " not valid UTF-8"))
    ok_or (c.hex_decode 32 (c.trim bytes)) (invalid_input (◌<>◌ name " not valid hex"))

  unfoldable pub load_device_key : Disk → EdgeConfig → Result DeviceKeyPair
  unfolding read_key_file from_bytes
  load_device_key disk config = do
    key_bytes ← read_key_file disk "device key" config.device_key_path
    ok (from_bytes c config.device_id key_bytes)

  unfoldable pub load_device_x25519_key : Disk → EdgeConfig → Result DeviceX25519Key
  unfolding read_key_file from_bytes_x25519
  load_device_x25519_key disk config = do
    key_bytes ← read_key_file disk "device X25519 key" config.device_x25519_key_path
    from_bytes_x25519 c config.device_id key_bytes

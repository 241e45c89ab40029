-- ===== src/Edge/Config/Checked.antt =====
-- What a configuration has that was read from the environment, and a key that was read from its file.
use oetp.Prelude.{arith, refl, ◌%◌, ◌≤◌, ◌<◌, ◌≡◌, ◌⊎◌, true, ◌&&◌, leb, length, all}
use oetp.Result.{ok-injective, io, ok}
use oetp.Crates.{Crates, HexLaw, PatternLaw}
use oetp.Validation.{validate_api_key, validate_exam_window, u64_max}
use oetp.Validation.Accepted.{validate_api_key_iff, validate_exam_window_iff}
use oetp.Device.{DeviceKeyPair, from_bytes}
use oetp.Env.{Env, required, required_identifier, required_secret, u64_or}
use oetp.Env.Read.{
  IsName, first_step, required_identifier-IsName, length-required_secret, u64_or-bound,
}
use oetp.Edge.Config.{
  not, reject, map_err, Bytes, ℕ, String, EdgeConfig, Disk, from_env, read_key_file,
  load_device_key, too_permissive, is_utf8,
}

-- What the daemon may rely on: names, 32 bytes for each secret, a printable API key of 32 bytes or
-- more, and a window of u64 times that starts before it ends, or is the whole range.
pub record IsChecked (config : EdgeConfig) : Type 0 where
  pub device : IsName config.device_id
  pub center : IsName config.center_id
  pub tenant : IsName config.tenant_id
  pub exam : IsName config.exam_id
  pub beacon : length config.beacon_public_key ≡ 32
  pub salt : length config.exam_salt ≡ 32
  pub pepper : length config.server_pepper ≡ 32
  pub key : (32 ≤ length config.api_key) × (all (λ b. leb 32 b && leb b 126) config.api_key ≡ true)
  pub window :
      (config.exam_window_start < config.exam_window_end)
      ⊎ ((config.exam_window_start ≡ 0) × (config.exam_window_end ≡ u64_max))
  pub fits : (config.exam_window_start ≤ u64_max) × (config.exam_window_end ≤ u64_max)

module _ (c : Crates) (pattern : PatternLaw c) (hex : HexLaw c) where
  -- A configuration that `from_env` returns is checked: its names are identifiers, its secrets have 32
  -- bytes, its API key has 32 printable bytes or more, and its window is of u64 times and starts
  -- before it ends, or is the whole range.
  pub from_env-IsChecked :
      (env : Env) {config : EdgeConfig} → from_env c env ≡ ok config → IsChecked config
  unfolding from_env
  from_env-IsChecked env {config} h =
      let (device, d, h₁) = first_step (required_identifier c env "OETP_DEVICE_ID") h in
      let (center, z, h₂) = first_step (required_identifier c env "OETP_CENTER_ID") h₁ in
      let (tenant, t, h₃) = first_step (required_identifier c env "OETP_TENANT_ID") h₂ in
      let (exam, e, h₄) = first_step (required_identifier c env "OETP_EXAM_ID") h₃ in
      let (beacon, b, h₅) =
        first_step (required_secret c env "OETP_BEACON_PUBLIC_KEY" " required") h₄ in
      let (salt, s, h₆) =
        first_step (required_secret c env "OETP_EXAM_SALT" " required (32-byte hex)") h₅ in
      let (pepper, p, h₇) =
        first_step (required_secret c env "OETP_SERVER_PEPPER" " required (32-byte hex)") h₆ in
      let (key, _, h₈) = first_step (required env "OETP_API_KEY" " required") h₇ in
      let (_, k, h₉) = first_step (validate_api_key key) h₈ in
      let (_, w, last) =
        first_step
          (validate_exam_window (u64_or env "OETP_EXAM_WINDOW_START" 0)
            (u64_or env "OETP_EXAM_WINDOW_END" u64_max))
          h₉ in
      rw (← ok-injective last) (record {
        device = required_identifier-IsName c env _ pattern d;
        center = required_identifier-IsName c env _ pattern z;
        tenant = required_identifier-IsName c env _ pattern t;
        exam = required_identifier-IsName c env _ pattern e;
        beacon = length-required_secret c env _ hex " required" b;
        salt = length-required_secret c env _ hex " required (32-byte hex)" s;
        pepper = length-required_secret c env _ hex " required (32-byte hex)" p;
        key = (validate_api_key_iff key).0 k;
        window = (validate_exam_window_iff _ _).0 w;
        fits = (
          u64_or-bound env "OETP_EXAM_WINDOW_START" 0 (omega arith),
          u64_or-bound env "OETP_EXAM_WINDOW_END" u64_max (omega arith),
        );
      })

  read_key_file-ok :
      (disk : Disk) (name : String) (path : Bytes) {key : Bytes}
      → read_key_file c disk name path ≡ ok key
      → (mode : ℕ) × (disk.mode path ≡ ok mode) × (mode % 64 ≡ 0) × (length key ≡ 32)
  unfolding read_key_file
  read_key_file-ok disk name path {key} h =
      let (mode, m, h₁) = first_step (map_err (disk.mode path) io) h in
      let (_, r, h₂) = first_step (reject (too_permissive mode) _) h₁ in
      let (bytes, b, h₃) = first_step (map_err (disk.read path) io) h₂ in
      let (_, u, h₄) = first_step (reject (not (is_utf8 bytes)) _) h₃ in
      (
        mode,
        ground (arith, m),
        ground (arith, r),
        hex.length-hex_decode 32 (c.trim bytes) (ground (arith, h₄)),
      )

  -- A device key that is loaded has 32 bytes and the device's public key belongs to it, and nobody but
  -- the owner may do anything with its file.
  pub load_device_key-eq-ok :
      (disk : Disk) (config : EdgeConfig) {key : DeviceKeyPair}
      → load_device_key c disk config ≡ ok key
      → (length key.private_key ≡ 32)
        × (key.public_key ≡ c.ed_public key.private_key)
        × (key.device_id ≡ config.device_id)
        × (mode : ℕ) × (disk.mode config.device_key_path ≡ ok mode)
        × (mode % 64 ≡ 0)
  unfolding load_device_key from_bytes
  load_device_key-eq-ok disk config {key} h =
      let (bytes, b, last) =
        first_step (read_key_file c disk "device key" config.device_key_path) h in
      let (mode, m, private_mode, size) =
        read_key_file-ok disk "device key" config.device_key_path b in
      rw (← ok-injective last) (size, refl, refl, mode, m, private_mode)

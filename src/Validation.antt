-- ===== src/Validation.antt =====
-- oetp-core/src/validation.rs: the rules for identifiers, keys, secrets and exam windows.
pub mod Accepted
mod Tests
use Prim.Native.String.{◌++◌ as ◌<>◌}
use oetp.Prelude.{
  ℕ, ◌-◌, ◌^◌, String, Bool, not, ◌&&◌, ◌||◌, ltb, leb, ◌==◌, if◌then◌else◌, length, any, all,
  is_empty, Bytes,
}
use oetp.Result.{◌>>◌, invalid_input, Result, ok, reject, ok_or}
use oetp.Crates.{Crates}

abbrev pub max_id_len : ℕ
max_id_len = 64

abbrev pub u64_max : ℕ
u64_max = 2 ^ 64 - 1

-- `b.is_ascii_control()`
abbrev pub is_ascii_control : ℕ → Bool
is_ascii_control b = ltb b 32 || b == 127

-- `value.is_ascii()`
abbrev pub is_ascii : Bytes → Bool
is_ascii = all (λ b. ltb b 128)

unfoldable pub validate_api_key : Bytes → Result (Unit {0})
validate_api_key value = do
  reject (ltb (length value) 32) (invalid_input "API key must be at least 32 characters")
  reject (not (is_ascii value) || any is_ascii_control value)
      (invalid_input "API key must be printable ASCII")
  ok tt

unfoldable pub validate_exam_window : ℕ → ℕ → Result (Unit {0})
validate_exam_window start end = if start == 0 && end == u64_max then ok tt else (do
  reject (leb end start) (invalid_input "exam_window_end must be greater than exam_window_start")
  ok tt)

module _ (c : Crates) where
  open c use {id_pattern, hex_decode, trim}

  unfoldable pub validate_identifier : String → Bytes → Result (Unit {0})
  validate_identifier name value = do
    reject (is_empty value) (invalid_input (◌<>◌ name " is required"))
    reject (ltb max_id_len (length value)) (invalid_input (◌<>◌ name " exceeds 64 characters"))
    reject (not (id_pattern value))
        (invalid_input (◌<>◌ name " contains invalid characters (allowed: A-Z a-z 0-9 _ -)"))
    ok tt

  -- The 32 bytes that the source writes into `out`.
  unfoldable pub validate_hex_secret : String → Bytes → Result Bytes
  validate_hex_secret name hex_str = do
    let trimmed = trim hex_str
    reject (not (length trimmed == 64))
        (invalid_input (◌<>◌ name " must be exactly 64 hex characters (32 bytes)"))
    ok_or (hex_decode 32 trimmed) (invalid_input (◌<>◌ name " is not valid 32-byte hex"))

-- ===== src/Beacon.antt =====
-- oetp-beacon/src/api.rs: the centre's beacon, which signs release tokens.
pub mod Tokens
pub mod Startup
pub mod Service
mod Tests
use oetp.Prelude.{ℕ, ◌+◌, ◌-◌, ◌/◌, ◌%◌, ◌^◌, min, max, String, ap, map, Bytes}
use oetp.Result.{
  to_string, Error, invalid_input, io, Result, ok, err, panic, unfinished, ◌>>=◌, ◌>>◌, map_err,
}
use oetp.Crates.{Crates}
use oetp.Clock.{Clock, current_timestamp_secs, set_clock}
use oetp.Validation.{validate_identifier}
use oetp.Release
use oetp.Release.{ReleaseToken}
use oetp.Api.{
  checked, ApiError, ApiResult, bad_request, Headers, check_api_key, SystemClockResponse,
  system_set_clock,
}

pub record BeaconState : Type 0 where
  pub signing_key : Bytes
  pub exam_window_start : ℕ
  pub exam_window_end : ℕ
  pub api_key : Bytes

pub record TokenRequest : Type 0 where
  pub center_id : Bytes
  pub exam_id : Bytes
  pub device_id : Bytes

-- `now + 300` on u64, which wraps in a release build.
abbrev pub add_lifetime : ℕ → ℕ
add_lifetime now = (now + 300) % 2 ^ 64

module _ (c : Crates) where
  -- The nonce is the one that `ReleaseToken::new` draws.
  unfoldable pub handle_token :
      BeaconState → Clock → Headers → TokenRequest → Bytes → ApiResult ReleaseToken
  unfolding Release.new
  handle_token state clock headers req nonce = do
    check_api_key state.api_key headers
    checked (validate_identifier c "center_id" req.center_id)
    checked (validate_identifier c "exam_id" req.exam_id)
    checked (validate_identifier c "device_id" req.device_id)
    let now = current_timestamp_secs clock
    let window_start = max state.exam_window_start now
    let window_end = min state.exam_window_end (add_lifetime now)
    ok (
        Release.new c req.center_id req.exam_id req.device_id window_start window_end nonce
          state.signing_key)

unfoldable pub handle_system_set_clock :
    BeaconState → Clock → Headers → ℕ → ApiResult SystemClockResponse × Clock
unfolding system_set_clock
handle_system_set_clock state clock headers timestamp =
    system_set_clock state.api_key clock headers timestamp

-- ===== src/Flow/Token.antt =====
-- A token, from the beacon (oetp-beacon/src/api.rs) to the daemon (oetp-edge/src/api.rs).
use oetp.Prelude.{◌+◌, ◌^◌, ◌≤◌, ◌<◌, ◌≡◌, refl, true, false, some, Bytes, lookup}
use oetp.Result.{is_ok, ok}
use oetp.Crates.{Crates, SignLaw}
use oetp.Clock.{Clock, current_timestamp_secs}
use oetp.Signing
use oetp.Release
use oetp.Release.{ReleaseToken}
use oetp.Api.{Headers, check_api_key}
use oetp.Beacon.{BeaconState, TokenRequest, handle_token}
use oetp.Beacon.Tokens.{handle_token-verify, handle_token-eq-ok}
use oetp.Edge.Config.{EdgeConfig}
use oetp.Edge.Nonces.{contains}
use oetp.Edge.State.{AppState, CachedExamData}
use oetp.Edge.Api.{handle_release, verified_token}
use oetp.Edge.Api.Replay.{release-accepts}

module _ (c : Crates) where
  -- The request that the daemon sends: `BeaconClient::request_token`.
  abbrev pub token_request : EdgeConfig → TokenRequest
  token_request config = record {
    center_id = config.center_id;
    exam_id = config.exam_id;
    device_id = config.device_id;
  }

  module _ (sign : SignLaw c) (beacon : BeaconState) (s : AppState) (clock : Clock)
      (beacon_headers headers : Headers) (student_uuid nonce : Bytes)
      (key : s.config.beacon_public_key ≡ c.ed_public beacon.signing_key) where
    issued-verified :
        {t : ReleaseToken}
        → Release.verify c t (c.ed_public beacon.signing_key) (current_timestamp_secs clock) ≡ ok tt
        → verified_token c s.config clock (ok t) ≡ ok t
    unfolding verified_token Signing.verifying_key_from_bytes
    issued-verified v = rw key (rw sign.parse_public (rw v refl))

    -- A token that the beacon gives out to the daemon, which is configured with the beacon's public key,
    -- is accepted by the daemon at the time it is given out: where the exam has started and has not ended
    -- by the beacon's window, `now + 300` fits in u64, the request has the daemon's API key, the student's
    -- exam is cached, and the nonce was not consumed, the release succeeds.
    pub handle_token-release :
        {t : ReleaseToken} {entry : CachedExamData}
        → handle_token c beacon clock beacon_headers (token_request s.config) nonce ≡ ok t
        → current_timestamp_secs clock + 300 < 2 ^ 64
        → beacon.exam_window_start ≤ current_timestamp_secs clock
        → current_timestamp_secs clock < beacon.exam_window_end
        → check_api_key s.config.api_key headers ≡ ok tt
        → lookup (c.uuid_to_string student_uuid) s.cache ≡ some entry
        → contains nonce s.consumed_nonces.nonces ≡ false
        → is_ok (handle_release c clock headers student_uuid (ok t) s).0 ≡ true
    unfolding Release.new Release.sign
    handle_token-release {t} given small begun not_over authorized cached fresh =
        let i =
          handle_token-eq-ok c beacon clock beacon_headers (token_request s.config) nonce given in
        let v =
          (handle_token-verify c beacon clock beacon_headers (token_request s.config) nonce t sign
              small given).1
            (begun, not_over) in
        release-accepts c clock headers student_uuid (ok t) t s authorized cached
          (issued-verified v) (rw (← i.token) refl) (rw (← i.token) refl) (rw (← i.token) refl)
          (rw (← i.token) fresh)

-- ===== src/Beacon/Tokens.antt =====
-- When the edge accepts what the beacon signs.
use oetp.Prelude.{◌+◌, ◌^◌, ◌≤◌, ◌<◌, min, max, ◌≡◌, ◌↔◌, arith, length, Bytes}
use oetp.Result.{ok}
use oetp.Crates.{Crates, SignLaw}
use oetp.Clock.{Clock, current_timestamp_secs}
use oetp.Validation.Accepted.{validate_identifier-eq-ok}
use oetp.Release
use oetp.Release.{ReleaseToken, payload_bytes}
use oetp.Release.Window.{IsAccepted, verify_iff}
use oetp.Api.{Headers}
use oetp.Beacon.{BeaconState, TokenRequest, handle_token, add_lifetime}

module _ (c : Crates) (state : BeaconState) (clock : Clock) (headers : Headers) (req : TokenRequest)
    (nonce : Bytes) where
  -- The token of a successful request.
  abbrev pub issued : ReleaseToken
  issued =
      Release.new c req.center_id req.exam_id req.device_id
        (max state.exam_window_start (current_timestamp_secs clock))
        (min state.exam_window_end (add_lifetime (current_timestamp_secs clock))) nonce
        state.signing_key

  pub record Issued (t : ReleaseToken) : Type 0 where
    pub token : issued ≡ t
    pub center : 1 ≤ length req.center_id
    pub exam : 1 ≤ length req.exam_id
    pub device : 1 ≤ length req.device_id

  pub handle_token-eq-ok :
      {t : ReleaseToken} → handle_token c state clock headers req nonce ≡ ok t → Issued t
  unfolding handle_token
  handle_token-eq-ok h = record {
    token = ground arith;
    center = (validate_identifier-eq-ok c "center_id" req.center_id (ground arith)).0;
    exam = (validate_identifier-eq-ok c "exam_id" req.exam_id (ground arith)).0;
    device = (validate_identifier-eq-ok c "device_id" req.device_id (ground arith)).0;
  }

  issued_within :
      add_lifetime (current_timestamp_secs clock) ≡ current_timestamp_secs clock + 300
      → IsAccepted c issued (c.ed_public state.signing_key) (current_timestamp_secs clock)
      → (state.exam_window_start ≤ current_timestamp_secs clock)
        × (current_timestamp_secs clock < state.exam_window_end)
  unfolding Release.new
  issued_within wraps a = (omega (arith, a.begun), omega (arith, a.begun, a.ordered))

  within_issued :
      SignLaw c
      → add_lifetime (current_timestamp_secs clock) ≡ current_timestamp_secs clock + 300
      → {t : ReleaseToken} → Issued t
      → (state.exam_window_start ≤ current_timestamp_secs clock)
        × (current_timestamp_secs clock < state.exam_window_end)
      → IsAccepted c issued (c.ed_public state.signing_key) (current_timestamp_secs clock)
  unfolding Release.new payload_bytes
  within_issued law wraps i w = record {
    center = i.center;
    exam = i.exam;
    device = i.device;
    ordered = omega arith;
    short = omega arith;
    begun = omega arith;
    not_over = omega arith;
    sig = _;
    parsed = law.parse_sign _ _;
    signed = law.verify_sign _ _;
  }

  -- A token that the beacon gives out is accepted under the beacon's public key at the time it is
  -- given out exactly if the exam has started and has not ended, as long as `now + 300` fits in u64.
  pub handle_token-verify :
      (t : ReleaseToken)
      → SignLaw c
      → current_timestamp_secs clock + 300 < 2 ^ 64
      → handle_token c state clock headers req nonce ≡ ok t
      → (Release.verify c t (c.ed_public state.signing_key) (current_timestamp_secs clock) ≡ ok tt)
        ↔ ((state.exam_window_start ≤ current_timestamp_secs clock)
            × (current_timestamp_secs clock < state.exam_window_end))
  handle_token-verify t law small h =
      let i = handle_token-eq-ok h in
      let now = current_timestamp_secs clock in
      let wraps : add_lifetime now ≡ now + 300 = omega arith in
      rw (← i.token) (
        (λ v. issued_within wraps ((verify_iff c issued (c.ed_public state.signing_key) now).0 v)),
        (λ w.
            (verify_iff c issued (c.ed_public state.signing_key) now).1
              (within_issued law wraps i w)),
      )

-- ===== src/Beacon/Tests.antt =====
-- The theorem on the beacon's tokens at a concrete request.
use oetp.Prelude.{◌≤◌, ◌<◌, ◌≡◌, refl, ◌↔◌, some, [], ◌∷◌, arith, beq}
use oetp.Result.{ok}
use oetp.Crates.Toy.{toy, toy-SignLaw}
use oetp.Clock.{Clock, current_timestamp_secs}
use oetp.Validation.{validate_identifier}
use oetp.Release
use oetp.Release.{ReleaseToken}
use oetp.Api.{Headers, check_api_key}
use oetp.Beacon.{BeaconState, TokenRequest, handle_token}
use oetp.Beacon.Tokens.{handle_token-verify}

abbrev state : BeaconState
state = record {
  signing_key = 1 ∷ [];
  exam_window_start = 1000;
  exam_window_end = 9000;
  api_key = 8 ∷ [];
}

abbrev clock : Clock
clock = record { clock_override = some 2000; system = 0 }

abbrev headers : Headers
headers = some (8 ∷ [])

abbrev req : TokenRequest
req = record { center_id = b'c' ∷ []; exam_id = b'e' ∷ []; device_id = b'd' ∷ [] }

abbrev token : ReleaseToken
token = Release.new toy req.center_id req.exam_id req.device_id 2000 2300 (5 ∷ []) state.signing_key

token_given : handle_token toy state clock headers req (5 ∷ []) ≡ ok token
unfolding handle_token check_api_key validate_identifier current_timestamp_secs beq
token_given = refl

handle_token-verify_example :
    (Release.verify toy token (toy.ed_public state.signing_key) (current_timestamp_secs clock)
      ≡ ok tt)
    ↔ ((state.exam_window_start ≤ current_timestamp_secs clock)
        × (current_timestamp_secs clock < state.exam_window_end))
unfolding current_timestamp_secs
handle_token-verify_example =
    handle_token-verify toy state clock headers req (5 ∷ []) token toy-SignLaw (omega arith)
      token_given

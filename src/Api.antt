-- ===== src/Api.antt =====
-- What the HTTP handlers of the three services share: the error reply, the errors by status, and
-- the test of the API key (api.rs of oetp-edge, oetp-ledger and oetp-beacon).
use oetp.Prelude.{ℕ, String, ◌≡◌, Option, none, some, [], arith, if◌then◌else◌, Bytes, beq}
use oetp.Clock.{Clock, current_timestamp_secs, set_clock}
use oetp.Result.{panic, unfinished, Result, map_err, to_string, Fallible, ok, err}

-- `(StatusCode, Json<ErrorResponse>)`
pub record ApiError : Type 0 where
  pub status : ℕ
  pub code : String
  pub message : String

abbrev pub ApiResult : Type 0 → Type 0
ApiResult A = Fallible ApiError A

abbrev pub api_error : String → ℕ → String → ApiError
api_error code status msg = record { status = status; code = code; message = msg }

abbrev pub unauthorized : ApiError
unauthorized = api_error "UNAUTHORIZED" 401 "invalid api key"

abbrev pub bad_request : String → ApiError
bad_request msg = api_error "INVALID_INPUT" 400 msg

abbrev pub not_found : String → ApiError
not_found msg = api_error "NOT_FOUND" 404 msg

abbrev pub forbidden : String → ApiError
forbidden msg = api_error "FORBIDDEN" 403 msg

abbrev pub internal_error : String → ApiError
internal_error msg = api_error "INTERNAL_ERROR" 500 msg

abbrev pub bad_gateway : String → ApiError
bad_gateway msg = api_error "BAD_GATEWAY" 502 msg

-- The header `x-api-key`, where it is there and is text.
abbrev pub Headers : Type 0
Headers = Option Bytes

unfoldable pub check_api_key : Bytes → Headers → ApiResult (Unit {0})
check_api_key api_key headers =
    let provided : Bytes = elim headers [ none ↦ [] | some v ↦ v ] in
    if beq provided api_key then ok tt else err unauthorized

-- The reply to `/v1/system/clock`, and its handler, which the three services have in common.
pub record SystemClockResponse : Type 0 where
  pub status : String
  pub previous_timestamp : ℕ

unfoldable pub system_set_clock :
    Bytes → Clock → Headers → ℕ → ApiResult SystemClockResponse × Clock
unfolding check_api_key
system_set_clock api_key clock headers timestamp = elim (check_api_key api_key headers) [
  | ok _ ↦ (
    ok (record { status = "ok"; previous_timestamp = current_timestamp_secs clock }),
    set_clock timestamp clock,
  )
  | err e ↦ (err e, clock)
  | panic ↦ (panic, clock)
  | unfinished ↦ (unfinished, clock)
]

pub system_set_clock-unauthorized :
    (api_key : Bytes) (clock : Clock) (headers : Headers) (timestamp : ℕ)
    → check_api_key api_key headers ≡ err unauthorized
    → system_set_clock api_key clock headers timestamp ≡ (err unauthorized, clock)
unfolding system_set_clock check_api_key
system_set_clock-unauthorized api_key clock headers timestamp h = ground arith

-- A refusal of the request, as `bad_request(e.to_string())`.
abbrev pub checked : {A : Type 0} → Result A → ApiResult A
checked r = map_err r (λ e. bad_request (to_string e))

-- `map_err(|e| internal_error(e.to_string()))`
abbrev pub internal : {A : Type 0} → Result A → ApiResult A
internal r = map_err r (λ e. internal_error (to_string e))

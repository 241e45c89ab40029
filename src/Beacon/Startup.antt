-- ===== src/Beacon/Startup.antt =====
-- oetp-beacon/src/main.rs, to the state that the beacon's handlers share. `err tt` is the exit of the
-- process with code 1; the listener is not modelled.
use oetp.Result.{Fallible, Result, ok, ◌>>=◌, ◌>>◌, ok_or, map_err}
use oetp.Crates.{Crates}
use oetp.Validation.{validate_hex_secret, validate_api_key, validate_exam_window, u64_max}
use oetp.Env.{Env, var, u64_or}
use oetp.Beacon.{BeaconState}

abbrev or_exit : {A : Type 0} → Result A → Fallible (Unit {0}) A
or_exit r = map_err r (λ e. tt)

module _ (c : Crates) where
  unfoldable pub main : Env → Fallible (Unit {0}) BeaconState
  unfolding u64_or validate_hex_secret validate_api_key validate_exam_window
  main env = do
    key_hex ← ok_or (var env "OETP_BEACON_SIGNING_KEY") tt
    signing_key ← or_exit (validate_hex_secret c "OETP_BEACON_SIGNING_KEY" key_hex)
    let exam_window_start = u64_or env "OETP_EXAM_WINDOW_START" 0
    let exam_window_end = u64_or env "OETP_EXAM_WINDOW_END" u64_max
    or_exit (validate_exam_window exam_window_start exam_window_end)
    api_key ← ok_or (var env "OETP_API_KEY") tt
    or_exit (validate_api_key api_key)
    ok (record {
      signing_key = signing_key;
      exam_window_start = exam_window_start;
      exam_window_end = exam_window_end;
      api_key = api_key;
    })

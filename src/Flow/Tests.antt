-- ===== src/Flow/Tests.antt =====
-- A token and a submission over the services.
use oetp.Prelude.{
  ◌≡◌, refl, sym, ◌∙◌, ◌≢◌, true, none, some, [], ◌∷◌, arith, length, beq, lookup, insert,
}
use oetp.Result.{is_ok, ok-injective, ok}
use oetp.Crates.Toy.{toy, toy-SignLaw, toy-PatternLaw, hex_digits}
use oetp.Clock.{current_timestamp_secs}
use oetp.Validation.{validate_identifier}
use oetp.Receipt.{generate_receipt_id}
use oetp.Verify.{verify_receipt}
use oetp.Release.{ReleaseToken}
use oetp.Release
use oetp.Api.{Headers, check_api_key}
use oetp.Beacon.{BeaconState, handle_token}
use oetp.Ledger.MemStore
use oetp.Ledger.MemStore.{MemStore, mem_store, mem_store-StoreLaw}
use oetp.Ledger.Requests.{AppState, VerifyResponse}
use oetp.Ledger.Api.{handle_ingest}
use oetp.Ledger.Queries.{handle_verify}
use oetp.Ledger.Stable.{Steps}
use oetp.Edge.Api.{handle_release}
use oetp.Edge.Queue.Toy.{toy_queue_codec}
use oetp.Edge.Submit.{submission}
use oetp.Edge.Submit.Tests.{
  daemon, clock, headers, request, drawn, nobody, queued, response, accepted,
}
use oetp.Flow.Token.{token_request, handle_token-release}
use oetp.Flow.Submission.{
  ingest_request, verify_request, submit-ingest-verify, submit-verify_receipt,
}

abbrev beacon : BeaconState
beacon = record {
  signing_key = 2 ∷ [];
  exam_window_start = 100;
  exam_window_end = 1000;
  api_key = b'k' ∷ [];
}

abbrev token : ReleaseToken
token = Release.new toy (b'c' ∷ []) (b'e' ∷ []) (b'd' ∷ []) 150 450 (5 ∷ []) (2 ∷ [])

token_given :
    handle_token toy beacon clock headers (token_request toy daemon.config) (5 ∷ []) ≡ ok token
unfolding handle_token check_api_key validate_identifier current_timestamp_secs beq
token_given = refl

handle_token-release_example :
    is_ok (handle_release toy clock headers (1 ∷ []) (ok token) daemon).0 ≡ true
unfolding current_timestamp_secs check_api_key beq lookup
handle_token-release_example =
    handle_token-release toy toy-SignLaw beacon daemon clock headers headers (1 ∷ []) (5 ∷ []) refl
      token_given (omega arith) (omega arith) (omega arith) refl refl refl

abbrev pub ledger : AppState MemStore
ledger = record {
  store = MemStore.new;
  signing_key = [];
  packets = [];
  anchors = [];
  receipt_index = [];
  api_key = b'l' ∷ [];
  exam_window_start = 100;
  exam_window_end = 1000;
}

abbrev pub ledger_headers : Headers
ledger_headers = some (b'l' ∷ [])

pub ingested :
    (handle_ingest toy mem_store clock ledger_headers (ingest_request queued) ledger).0
    ≡ ok (record { leaf_index = 0; status = "ingested" })
unfolding handle_ingest check_api_key validate_identifier current_timestamp_secs beq submission
    generate_receipt_id hex_digits MemStore.append lookup
ingested = refl

one_leaf :
    length (
      mem_store-StoreLaw.log
        (handle_ingest toy mem_store clock ledger_headers (ingest_request queued) ledger).1.store
        (b't' ∷ [])
        (b'e' ∷ []))
    ≡ 1
unfolding handle_ingest check_api_key validate_identifier current_timestamp_secs beq submission
    generate_receipt_id hex_digits MemStore.append MemStore.count MemStore.ns lookup insert
one_leaf = ok-injective (
    sym (
      mem_store-StoreLaw.count_lem
        (handle_ingest toy mem_store clock ledger_headers (ingest_request queued) ledger).1.store
        (b't' ∷ []) (b'e' ∷ []))
    ∙ refl)

no_root :
    mem_store.latest_root
      (handle_ingest toy mem_store clock ledger_headers (ingest_request queued) ledger).1.store
      (b't' ∷ [])
      (b'e' ∷ [])
    ≡ ok none
unfolding handle_ingest check_api_key validate_identifier current_timestamp_secs beq submission
    generate_receipt_id hex_digits MemStore.append MemStore.latest_root lookup
no_root = refl

submit-ingest-verify_example :
    (v : VerifyResponse) × (handle_verify toy mem_store
        (verify_request response.receipt (8 ∷ []))
        (handle_ingest toy mem_store clock ledger_headers (ingest_request queued) ledger).1
      ≡ ok v)
    × (v.valid ≡ true)
unfolding submission
submit-ingest-verify_example =
    submit-ingest-verify toy toy_queue_codec clock clock drawn nobody headers request daemon
      accepted toy-SignLaw toy-PatternLaw mem_store mem_store-StoreLaw clock ledger_headers ledger
      (handle_ingest toy mem_store clock ledger_headers (ingest_request queued) ledger).1 none refl
      queued refl ingested Steps.done (omega (arith, one_leaf)) no_root

submit-verify_receipt_example : verify_receipt toy response.receipt (8 ∷ []) (9 ∷ []) ≢ ok tt
submit-verify_receipt_example =
    submit-verify_receipt toy toy_queue_codec clock clock drawn nobody headers request daemon
      accepted refl (8 ∷ []) (9 ∷ [])

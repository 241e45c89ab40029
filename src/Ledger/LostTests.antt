-- ===== src/Ledger/LostTests.antt =====
-- A run over SQLite with another tenant's leaf before the ingest.
use oetp.Prelude.{◌≡◌, refl, some, [], ◌∷◌, arith, length, beq}
use oetp.Result.{ok, err}
use oetp.Crates.Toy.{toy}
use oetp.Clock.{Clock, current_timestamp_secs}
use oetp.Validation.{validate_identifier}
use oetp.Api.{Headers, check_api_key}
use oetp.Ledger.Requests.{AppState, IngestRequest, IngestResponse}
use oetp.Ledger.Api.{handle_ingest}
use oetp.Ledger.Queries.{handle_proof}
use oetp.Ledger.SqliteStore
use oetp.Ledger.SqliteStore.{SqliteStore, sqlite_store, others}
use oetp.Ledger.Lost.{out_of_bounds, ingest-proof_refused}

abbrev state : AppState SqliteStore
state = record {
  store = record {
    leaves = record { tenant_id = b'u' ∷ []; exam_id = b'e' ∷ []; leaf = 1 ∷ [] } ∷ [];
    roots = [];
  };
  signing_key = 9 ∷ [];
  packets = [];
  anchors = [];
  receipt_index = [];
  api_key = b'k' ∷ [];
  exam_window_start = 0;
  exam_window_end = 10;
}

abbrev clock : Clock
clock = record { clock_override = some 5; system = 0 }

abbrev headers : Headers
headers = some (b'k' ∷ [])

abbrev ingest_request : IngestRequest
ingest_request = record {
  tenant_id = b't' ∷ [];
  exam_id = b'e' ∷ [];
  student_uuid = 1 ∷ [];
  packet_hash = 2 ∷ [];
  answers_hash = 3 ∷ [];
  merkle_leaf = 4 ∷ [];
  timestamp = 4;
  signature = [];
  receipt_id = b'r' ∷ [];
}

abbrev response : IngestResponse
response = record { leaf_index = 1; status = "ingested" }

sqlite_accepted :
    (handle_ingest toy sqlite_store clock headers ingest_request state).0 ≡ ok response
unfolding handle_ingest check_api_key validate_identifier current_timestamp_secs SqliteStore.append
    beq
sqlite_accepted = refl

others_one : others state.store.leaves (b't' ∷ []) (b'e' ∷ []) ≡ 1
unfolding others beq
others_one = refl

selected_none : length (SqliteStore.select_leaves state.store.leaves (b't' ∷ []) (b'e' ∷ [])) ≡ 0
unfolding SqliteStore.select_leaves beq
selected_none = refl

ingest-proof_refused_example :
    handle_proof toy sqlite_store
      (record { tenant_id = b't' ∷ []; exam_id = b'e' ∷ []; receipt_id = b'r' ∷ [] })
      (handle_ingest toy sqlite_store clock headers ingest_request state).1
    ≡ err out_of_bounds
ingest-proof_refused_example =
    ingest-proof_refused toy clock headers ingest_request state sqlite_accepted
      (omega (arith, others_one)) (omega (arith, selected_none))

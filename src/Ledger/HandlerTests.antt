-- ===== src/Ledger/HandlerTests.antt =====
-- Runs of the ledger's handlers over the store in memory, and their theorems at these runs.
use oetp.Prelude.{
  zero, suc, ◌≡◌, refl, sym, ◌∙◌, some, List, [], ◌∷◌, arith, length, Bytes, beq, two_pow_suc,
  two_pow_pos, lookup, insert,
}
use oetp.Result.{ok-injective, ok}
use oetp.Crates.Toy.{toy, toy-PatternLaw}
use oetp.Clock.{Clock, current_timestamp_secs}
use oetp.Hashing.{compute_submission_leaf}
use oetp.Validation.{validate_identifier}
use oetp.Merkle.{sibling_index}
use oetp.Merkle.Inclusion.{HasSiblings}
use oetp.Api.{Headers, check_api_key}
use oetp.Ledger.MemStore
use oetp.Ledger.MemStore.{MemStore, mem_store, mem_store-StoreLaw}
use oetp.Ledger.Requests.{AppState, IngestRequest, IngestResponse, KeyCommitRequest}
use oetp.Ledger.Api.{handle_ingest, handle_key_commit}
use oetp.Ledger.Served.{Served}
use oetp.Ledger.Stable.{Steps, Step}
use oetp.Ledger.Delivered.{proof_request, ingest-Steps-proof}

abbrev pub t : Bytes
t = b't' ∷ []

abbrev pub e : Bytes
e = b'e' ∷ []

abbrev pub clock : Clock
clock = record { clock_override = some 5; system = 0 }

abbrev pub headers : Headers
headers = some (b'k' ∷ [])

abbrev pub leaf : Bytes
leaf = compute_submission_leaf toy (1 ∷ []) (2 ∷ []) (3 ∷ []) 4 t e

abbrev pub stored : List Bytes → MemStore
stored leaves = record { leaves = (b't' ∷ b':' ∷ b'e' ∷ [], leaves) ∷ []; roots = [] }

abbrev pub state : List Bytes → AppState MemStore
state leaves = record {
  store = stored leaves;
  signing_key = 9 ∷ [];
  packets = [];
  anchors = [];
  receipt_index = [];
  api_key = b'k' ∷ [];
  exam_window_start = 0;
  exam_window_end = 10;
}

abbrev pub ingest_request : IngestRequest
ingest_request = record {
  tenant_id = t;
  exam_id = e;
  student_uuid = 1 ∷ [];
  packet_hash = 2 ∷ [];
  answers_hash = 3 ∷ [];
  merkle_leaf = leaf;
  timestamp = 4;
  signature = [];
  receipt_id = b'r' ∷ [];
}

abbrev key_request : KeyCommitRequest
key_request = record { tenant_id = t; exam_id = e; answer_key_hash = 8 ∷ [] }

-- The state after the ingest, and then after the answer key is committed.
abbrev pub ingested : AppState MemStore
ingested = (handle_ingest toy mem_store clock headers ingest_request (state ((7 ∷ []) ∷ []))).1

abbrev later : AppState MemStore
later = (handle_key_commit toy mem_store clock headers key_request ingested).1

abbrev response : IngestResponse
response = record { leaf_index = 1; status = "ingested" }

pub accepted :
    (handle_ingest toy mem_store clock headers ingest_request (state ((7 ∷ []) ∷ []))).0
    ≡ ok response
unfolding handle_ingest check_api_key validate_identifier current_timestamp_secs MemStore.append
    MemStore.ns lookup beq
accepted = refl

pub seven_length : length (mem_store-StoreLaw.log (state ((7 ∷ []) ∷ [])).store t e) ≡ 1
unfolding MemStore.ns MemStore.count lookup beq
seven_length =
    ok-injective (sym (mem_store-StoreLaw.count_lem (state ((7 ∷ []) ∷ [])).store t e) ∙ refl)

later_length : length (mem_store-StoreLaw.log later.store t e) ≡ 3
unfolding handle_ingest handle_key_commit check_api_key validate_identifier current_timestamp_secs
    MemStore.append MemStore.ns MemStore.count lookup insert beq
later_length = ok-injective (sym (mem_store-StoreLaw.count_lem later.store t e) ∙ refl)

pub three_HasSiblings : HasSiblings 3 1
unfolding sibling_index
three_HasSiblings zero h = omega arith
three_HasSiblings (suc zero) h = omega arith
three_HasSiblings (suc (suc k)) h =
    absurd (omega (arith, two_pow_suc (suc k), two_pow_suc k, two_pow_pos k))

ingest-Steps-proof_example :
    Served toy mem_store mem_store-StoreLaw
      (proof_request toy toy-PatternLaw mem_store mem_store-StoreLaw clock headers ingest_request
        (state ((7 ∷ []) ∷ []))
        accepted)
      later
      1
      leaf
ingest-Steps-proof_example =
    ingest-Steps-proof toy toy-PatternLaw mem_store mem_store-StoreLaw clock headers ingest_request
      (state ((7 ∷ []) ∷ [])) accepted later (sym seven_length)
      (Steps.next (Step.key_commit clock headers key_request) Steps.done)
      (omega (arith, later_length)) (rw later_length three_HasSiblings)

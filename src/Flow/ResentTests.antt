-- ===== src/Flow/ResentTests.antt =====
-- A submission that the ledger took, in the queue and flushed.
use oetp.Clock.{current_timestamp_secs}
use oetp.Validation.{validate_identifier}
use oetp.Api.{check_api_key}
use oetp.Receipt.{create_personal_answer_copy, generate_receipt_id}
use oetp.Edge.Queue.{read_queue, write_queue, enqueue, encoded, encrypt_bytes, push_new}
use oetp.Prelude.{
  insert, ℕ, ◌≡◌, refl, some, [], ◌∷◌, ◌++◌, Bytes, beq, be_bytes, length-be_bytes, lookup,
}
use oetp.Result.{ok, unwrap_or}
use oetp.Crates.Toy.{hex_digits, toy, toy-AesLaw}
use oetp.Ledger.MemStore.{MemStore, mem_store, mem_store-StoreLaw}
use oetp.Ledger.Requests.{AppState, within_window}
use oetp.Ledger.Api.{handle_ingest}
use oetp.Edge.Queue.Toy.{toy_queue_codec, toy_queue_codec-CodecLaw}
use oetp.Edge.Submit.{
  handle_submit, personal_copy, post_or_enqueue, student_receipt, submission, handle_system_flush,
}
use oetp.Edge.Submit.Tests.{daemon, clock, headers, request, drawn, nobody, queued, entry, accepted}
use oetp.Edge.Submit.Accepted.{after}
use oetp.Ledger.MemStore
use oetp.Flow.Submission.{ingest_request}
use oetp.Flow.Tests.{ledger, ledger_headers, ingested}
use oetp.Flow.Resent.{post_to, submit-flush-twice}

abbrev took : AppState MemStore
took = (handle_ingest toy mem_store clock ledger_headers (ingest_request queued) ledger).1

abbrev kept : oetp.Edge.State.AppState
kept = after toy toy_queue_codec clock clock drawn nobody headers request daemon

abbrev flushed : oetp.Api.ApiResult ℕ × (oetp.Edge.State.AppState × AppState MemStore)
flushed =
    handle_system_flush toy toy_queue_codec (post_to toy mem_store clock ledger_headers) headers
      (be_bytes 12 4) (kept, took)

there : lookup (1 ∷ []) daemon.cache ≡ some entry
unfolding lookup beq
there = refl

in_window : within_window clock took ≡ ok tt
unfolding handle_ingest check_api_key validate_identifier current_timestamp_secs beq submission
    generate_receipt_id hex_digits MemStore.append lookup
in_window = refl

none_yet : read_queue toy toy_queue_codec daemon.queue.file daemon.queue.key ≡ ok []
unfolding read_queue
none_yet = refl

key : check_api_key kept.config.api_key headers ≡ ok tt
unfolding handle_submit check_api_key validate_identifier beq lookup personal_copy
    create_personal_answer_copy post_or_enqueue enqueue write_queue encoded encrypt_bytes
    current_timestamp_secs submission student_receipt generate_receipt_id read_queue push_new
key = refl

abbrev empty : Bytes
empty = unwrap_or (encoded toy toy_queue_codec [] kept.queue.key (be_bytes 12 4)) []

empty_file : encoded toy toy_queue_codec [] kept.queue.key (be_bytes 12 4) ≡ ok empty
unfolding handle_submit check_api_key validate_identifier beq lookup personal_copy
    create_personal_answer_copy post_or_enqueue enqueue write_queue encoded encrypt_bytes
    current_timestamp_secs submission student_receipt generate_receipt_id read_queue push_new
empty_file = refl

stored_again : (mem_store.append took.store (b't' ∷ []) (b'e' ∷ []) queued.merkle_leaf).0 ≡ ok 1
unfolding handle_ingest check_api_key validate_identifier current_timestamp_secs beq submission
    generate_receipt_id hex_digits MemStore.append MemStore.ns lookup insert
stored_again = refl

submit-flush-twice_example :
    (flushed.0 ≡ ok 1)
    × (mem_store-StoreLaw.log flushed.1.1.store (b't' ∷ []) (b'e' ∷ [])
        ≡ mem_store-StoreLaw.log ledger.store (b't' ∷ []) (b'e' ∷ [])
          ++ (queued.merkle_leaf ∷ queued.merkle_leaf ∷ []))
unfolding submission current_timestamp_secs
submit-flush-twice_example =
    submit-flush-twice toy toy_queue_codec toy-AesLaw toy_queue_codec-CodecLaw clock clock drawn
      headers request daemon there refl accepted mem_store mem_store-StoreLaw clock clock
      ledger_headers ledger ingested headers (be_bytes 12 4) (length-be_bytes 12 3) none_yet key
      empty_file in_window stored_again

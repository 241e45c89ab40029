-- ===== src/Edge/Submit/Tests.antt =====
-- A run of submit and flush: the ledger is not there at first.
use oetp.Prelude.{
  any, beq_refl, ◌≤◌, arith, ◌⊎◌, refl, length-be_bytes, true, ◌≡◌, Bool, false, none, some, [],
  ◌∷◌, ◌++◌, Bytes, beq, be_bytes, lookup,
}
use oetp.Result.{ok}
use oetp.Crates.Toy.{toy, toy-AesLaw}
use oetp.Clock.{Clock, current_timestamp_secs}
use oetp.Hashing.{compute_submission_leaf, derive_student_answer_key}
use oetp.Validation.{validate_identifier}
use oetp.Receipt.{generate_receipt_id, create_personal_answer_copy}
use oetp.Api.{Headers, check_api_key}
use oetp.Edge.Config.{EdgeConfig}
use oetp.Edge.Queue.{
  QueuedSubmission, encoded, encrypt_bytes, enqueue, write_queue, read_queue, dequeue_all,
  same_leaf, push_new,
}
use oetp.Edge.Queue.File.{write-read}
use oetp.Edge.Queue.Toy.{put_all, toy_queue_codec, toy_queue_codec-CodecLaw}
use oetp.Edge.State.{AppState, CachedExamData}
use oetp.Edge.Submit.{
  ℕ, SubmitRequest, SubmitResponse, Drawn, submission, student_receipt, personal_copy,
  post_or_enqueue, handle_submit, handle_system_flush,
}
use oetp.Edge.Submit.Accepted.{SubmitOk, submitted, after}
use oetp.Edge.Submit.Delivered.{InQueue, take_all, flushed, submit-InQueue, flush-delivers}

abbrev config : EdgeConfig
config = record {
  device_id = b'd' ∷ [];
  center_id = b'c' ∷ [];
  tenant_id = b't' ∷ [];
  exam_id = b'e' ∷ [];
  ledger_url = [];
  beacon_url = [];
  listen_addr = [];
  cache_dir = [];
  queue_dir = [];
  device_key_path = [];
  device_x25519_key_path = [];
  beacon_public_key = 2 ∷ [];
  exam_salt = [];
  server_pepper = [];
  api_key = b'k' ∷ [];
  exam_window_start = 100;
  exam_window_end = 1000;
}

abbrev pub entry : CachedExamData
entry = record {
  encrypted_packet = record {
    tenant_id = b't' ∷ [];
    student_uuid = 1 ∷ [];
    exam_id = b'e' ∷ [];
    ciphertext = [];
    nonce = [];
    packet_hash = 5 ∷ [];
  };
  key_envelope = record {
    version = 1;
    device_id = b'd' ∷ [];
    student_uuid = 1 ∷ [];
    exam_id = b'e' ∷ [];
    sender_public_key = [];
    encrypted_ephemeral_key = [];
    nonce = [];
  };
  release_token = none;
  variant_seed = some (6 ∷ []);
}

abbrev pub daemon : AppState
daemon = record {
  config = config;
  device_key = record { device_id = b'd' ∷ []; public_key = 8 ∷ []; private_key = 8 ∷ [] };
  device_x25519_key = record { device_id = b'd' ∷ []; public_key = 4 ∷ []; private_key = 4 ∷ [] };
  cache = (1 ∷ [], entry) ∷ [];
  queue = record { file = none; key = 7 ∷ [] };
  consumed_nonces = record { nonces = []; file = none };
}

abbrev pub clock : Clock
clock = record { clock_override = some 150; system = 0 }

abbrev pub headers : Headers
headers = some (b'k' ∷ [])

abbrev pub request : SubmitRequest
request = record {
  student_uuid = 1 ∷ [];
  application_number = b'a' ∷ [];
  dob = none;
  answers = (b'q' ∷ [], b'x' ∷ []) ∷ [];
}

abbrev pub drawn : Drawn
drawn = record { receipt = 17 ∷ []; copy_nonce = 3 ∷ []; queue_nonce = be_bytes 12 3 }

-- The ledger cannot be reached.
abbrev pub nobody : QueuedSubmission → Bool
nobody q = false

abbrev pub queued : QueuedSubmission
queued =
    submission toy config daemon.device_key request entry (6 ∷ []) 150
      (generate_receipt_id toy (17 ∷ []))

abbrev answers_key : Bytes
answers_key = derive_student_answer_key toy (b'a' ∷ []) [] [] [] (b't' ∷ []) (b'e' ∷ [])

abbrev pub response : SubmitResponse
response = record {
  receipt_id = generate_receipt_id toy (17 ∷ []);
  receipt = student_receipt toy request queued;
  personal_copy = record {
    receipt_id = generate_receipt_id toy (17 ∷ []);
    encrypted_answers = (answers_key ++ (3 ∷ [])) ++ toy.json_answers request.answers;
    nonce = 3 ∷ [];
    answers_hash = toy.sha3 (toy.json_answers request.answers);
  };
}

pub accepted :
    (handle_submit toy toy_queue_codec clock clock drawn nobody headers request daemon).0
    ≡ ok response
unfolding handle_submit check_api_key validate_identifier beq lookup personal_copy
    create_personal_answer_copy post_or_enqueue enqueue write_queue encoded encrypt_bytes
    current_timestamp_secs submission student_receipt generate_receipt_id read_queue push_new
accepted = refl

submit-InQueue_example :
    (o : SubmitOk toy toy_queue_codec clock clock drawn nobody headers request daemon response)
    × ((nobody (
            submitted toy toy_queue_codec clock clock drawn nobody headers request daemon o.entry
              o.seed)
          ≡ true)
        ⊎ InQueue toy toy_queue_codec
            (after toy toy_queue_codec clock clock drawn nobody headers request daemon)
            (submitted toy toy_queue_codec clock clock drawn nobody headers request daemon o.entry
              o.seed))
submit-InQueue_example =
    submit-InQueue toy toy_queue_codec toy-AesLaw toy_queue_codec-CodecLaw clock clock drawn headers
      request daemon nobody (length-be_bytes 12 3) accepted

-- The daemon with one submission in its queue.
abbrev waiting : AppState
waiting = record daemon {
  queue = record {
    file = (write_queue toy toy_queue_codec none (queued ∷ []) (7 ∷ []) (be_bytes 12 3)).1;
    key = 7 ∷ [];
  };
}

written : (write_queue toy toy_queue_codec none (queued ∷ []) (7 ∷ []) (be_bytes 12 3)).0 ≡ ok tt
unfolding write_queue encoded encrypt_bytes
written = refl

waiting-InQueue : InQueue toy toy_queue_codec waiting queued
unfolding dequeue_all beq submission compute_submission_leaf
waiting-InQueue = (
  queued ∷ [],
  write-read toy toy_queue_codec none (queued ∷ []) (7 ∷ []) (be_bytes 12 3) toy-AesLaw
      toy_queue_codec-CodecLaw (length-be_bytes 12 3) written,
  ground (arith, beq_refl queued.merkle_leaf),
)

empty_encoded :
    encoded toy toy_queue_codec [] (7 ∷ []) (be_bytes 12 3)
    ≡ ok (be_bytes 12 3 ++ (((7 ∷ []) ++ (be_bytes 12 3 ++ [])) ++ (0 ∷ [])))
unfolding encoded encrypt_bytes put_all
empty_encoded = refl

authorized : check_api_key (b'k' ∷ []) headers ≡ ok tt
unfolding check_api_key beq
authorized = refl

flush-delivers_example :
    (n : ℕ) × ((handle_system_flush toy toy_queue_codec take_all headers
        (be_bytes 12 3)
        (waiting, [])).0
      ≡ ok n)
    × (1 ≤ n)
    × (dequeue_all toy toy_queue_codec
          (flushed toy toy_queue_codec toy-AesLaw toy_queue_codec-CodecLaw headers
            (be_bytes 12 3)
            waiting
            queued
            []).0.queue.file
          (flushed toy toy_queue_codec toy-AesLaw toy_queue_codec-CodecLaw headers
            (be_bytes 12 3)
            waiting
            queued
            []).0.queue.key
        ≡ ok [])
    × (any
          (same_leaf queued)
          (flushed toy toy_queue_codec toy-AesLaw toy_queue_codec-CodecLaw headers
            (be_bytes 12 3)
            waiting
            queued
            []).1
        ≡ true)
flush-delivers_example =
    flush-delivers toy toy_queue_codec toy-AesLaw toy_queue_codec-CodecLaw headers (be_bytes 12 3)
      waiting queued [] waiting-InQueue authorized (length-be_bytes 12 3) empty_encoded

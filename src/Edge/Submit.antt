-- ===== src/Edge/Submit.antt =====
-- oetp-edge/src/api.rs: the daemon's handler submit, and the two of the system, flush and clock. What
-- the ledger answers to a post of a submission is an argument.
pub mod Accepted
pub mod Delivered
pub mod Frame
pub mod Tests
use oetp.Prelude.{
  ℕ, ◌+◌, ◌-◌, ◌/◌, ◌%◌, ap, Bool, not, Option, none, some, List, [], ◌++◌, ltb, if◌then◌else◌, all,
  Bytes, utf8,
}
use oetp.Result.{reject, ok_or, ok}
use oetp.Crates.{Crates, Codec}
use oetp.Clock.{Clock, current_timestamp_secs}
use oetp.Validation.{validate_identifier}
use oetp.Device.{DeviceKeyPair}
use oetp.Hashing.{Answers, compute_answers_hash, compute_submission_leaf, derive_student_answer_key}
use oetp.Signing
use oetp.Receipt.{
  StudentReceipt, PersonalAnswerCopy, generate_receipt_id, create_personal_answer_copy,
}
use oetp.Api.{
  ApiResult, checked, forbidden, internal, Headers, check_api_key, SystemClockResponse,
  system_set_clock,
}
use oetp.Handler.{Handler, ◌>>=◌, ◌>>◌, lift, reads}
use oetp.Edge.Config.{EdgeConfig}
use oetp.Edge.Queue.{QueuedSubmission, enqueue, flush}
use oetp.Edge.State.{CachedExamData, AppState}
use oetp.Edge.Api.{authorized, cached}

pub record SubmitRequest : Type 0 where
  pub student_uuid : Bytes
  pub application_number : Bytes
  pub dob : Option Bytes
  pub answers : Answers

pub record SubmitResponse : Type 0 where
  pub receipt_id : Bytes
  pub receipt : StudentReceipt
  pub personal_copy : PersonalAnswerCopy

-- What `OsRng` draws on the way: for the receipt's id, and the nonces of the copy and of the queue.
pub record Drawn : Type 0 where
  pub receipt : Bytes
  pub copy_nonce : Bytes
  pub queue_nonce : Bytes

-- `req.dob.as_deref().unwrap_or("")`
abbrev pub dob_or_empty : Option Bytes → Bytes
dob_or_empty none = []
dob_or_empty (some d) = d

abbrev pub within_window : Clock → AppState → ApiResult (Unit {0})
within_window clock s =
    oetp.Result.◌>>◌
      (reject (ltb (current_timestamp_secs clock) s.config.exam_window_start)
        (forbidden "exam has not started yet"))
      (reject (ltb s.config.exam_window_end (current_timestamp_secs clock))
        (forbidden "exam window has ended"))

module _ (c : Crates) where
  -- The submission, as it is posted and queued, of answers to an entry that was unlocked with the seed.
  unfoldable pub submission :
      EdgeConfig
      → DeviceKeyPair
      → SubmitRequest
      → CachedExamData
      → Bytes
      → ℕ
      → Bytes
      → QueuedSubmission
  unfolding compute_answers_hash compute_submission_leaf Signing.sign
  submission config device_key req entry variant_seed timestamp receipt_id =
      let packet_hash = entry.encrypted_packet.packet_hash in
      let answers_hash =
        compute_answers_hash c packet_hash req.answers req.student_uuid variant_seed timestamp
          config.tenant_id config.exam_id in
      let merkle_leaf =
        compute_submission_leaf c req.student_uuid packet_hash answers_hash timestamp
          config.tenant_id config.exam_id in
      record {
        tenant_id = config.tenant_id;
        exam_id = config.exam_id;
        student_uuid = req.student_uuid;
        packet_hash = packet_hash;
        answers_hash = answers_hash;
        merkle_leaf = merkle_leaf;
        timestamp = timestamp;
        signature = Signing.sign c device_key.private_key merkle_leaf;
        receipt_id = receipt_id;
      }

  -- The receipt, with the placeholder for its proof.
  unfoldable pub student_receipt : SubmitRequest → QueuedSubmission → StudentReceipt
  student_receipt req q = record {
    receipt_id = q.receipt_id;
    tenant_id = q.tenant_id;
    exam_id = q.exam_id;
    application_number = req.application_number;
    student_uuid = q.student_uuid;
    packet_hash = q.packet_hash;
    answers_hash = q.answers_hash;
    timestamp = q.timestamp;
    merkle_proof = record {
      leaf_index = 0;
      leaf = q.merkle_leaf;
      siblings = [];
      root = q.merkle_leaf;
    };
    edge_signature = q.signature;
    ledger_signature = [];
    qr_payload = utf8 "oetp:receipt:" ++ q.receipt_id;
  }

  -- The student's own copy of the answers.
  unfoldable pub personal_copy :
      EdgeConfig → SubmitRequest → Bytes → Bytes → ApiResult PersonalAnswerCopy
  unfolding derive_student_answer_key create_personal_answer_copy
  personal_copy config req receipt_id nonce =
      let student_key =
        derive_student_answer_key c req.application_number (dob_or_empty req.dob) config.exam_salt
          config.server_pepper config.tenant_id config.exam_id in
      internal
        (create_personal_answer_copy c receipt_id (c.json_answers req.answers) student_key nonce)

  module _ (bincode : Codec (List QueuedSubmission)) where
    -- The post to the ledger, and the queue if it fails.
    unfoldable pub post_or_enqueue :
        (QueuedSubmission → Bool) → QueuedSubmission → Bytes → Handler AppState (Unit {0})
    unfolding enqueue
    post_or_enqueue post queued nonce s =
        let (reply, file) = enqueue c bincode s.queue.file queued s.queue.key nonce in
        if post queued
        then (ok tt, s)
        else (internal reply, record s { queue = record s.queue { file = file } })

    -- The clock is read once for the window, and again for the timestamp.
    unfoldable pub handle_submit :
        Clock
        → Clock
        → Drawn
        → (QueuedSubmission → Bool)
        → Headers
        → SubmitRequest
        → Handler AppState SubmitResponse
    unfolding submission student_receipt personal_copy post_or_enqueue generate_receipt_id
    handle_submit clock later drawn post headers req = do
      authorized headers
      lift (checked (validate_identifier c "application_number" req.application_number))
      reads (within_window clock)
      entry ← cached (c.uuid_to_string req.student_uuid)
      variant_seed ←
          lift
            (ok_or entry.variant_seed (forbidden "packet not unlocked; call /v1/exam/unlock first"))
      let receipt_id = generate_receipt_id c drawn.receipt
      queued ← reads (λ s. ok (
          submission s.config s.device_key req entry variant_seed (current_timestamp_secs later)
            receipt_id))
      copy ← reads (λ s. personal_copy s.config req receipt_id drawn.copy_nonce)
      post_or_enqueue post queued drawn.queue_nonce
      lift (
          ok (record {
            receipt_id = receipt_id;
            receipt = student_receipt req queued;
            personal_copy = copy;
          }))

    -- The number of submissions that were sent. The ledger is part of the state.
    unfoldable pub handle_system_flush :
        {L : Type 0}
        → (L → QueuedSubmission → Bool × L)
        → Headers
        → Bytes
        → Handler (AppState × L) ℕ
    unfolding flush
    handle_system_flush {L} send headers nonce = do
      reads (λ p. check_api_key p.0.config.api_key headers)
      (λ (p : AppState × L).
          let (s, ledger) = p in
          let (reply, file, after) = flush send c bincode s.queue.file s.queue.key nonce ledger in
          (internal reply, (record s { queue = record s.queue { file = file } }, after)))

unfoldable pub handle_system_set_clock :
    AppState → Clock → Headers → ℕ → ApiResult SystemClockResponse × Clock
unfolding system_set_clock
handle_system_set_clock state clock headers timestamp =
    system_set_clock state.config.api_key clock headers timestamp

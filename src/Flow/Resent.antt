-- ===== src/Flow/Resent.antt =====
-- A submission whose post the ledger (oetp-ledger/src/api.rs) took, but whose answer the daemon
-- (oetp-edge/src/api.rs, queue.rs) did not get.
use oetp.Prelude.{
  ℕ, ◌≡◌, refl, ap, ◌∙◌, Bool, false, some, List, [], ◌∷◌, ◌++◌, arith, length, Bytes, lookup,
}
use oetp.Result.{is_ok, unwrap_or, ok}
use oetp.Crates.{Crates, Codec, CodecLaw, AesLaw}
use oetp.Clock.{Clock}
use oetp.Validation.{validate_identifier}
use oetp.Platform.{Store, StoreLaw}
use oetp.Api.{ApiResult, Headers, check_api_key, checked}
use oetp.Ledger.Requests.{
  AppState as LedgerState, IngestRequest, IngestResponse, within_window, valid_space,
}
use oetp.Ledger.Api.{handle_ingest}
use oetp.Ledger.Served.{handle_ingest-eq-ok}
use oetp.Edge.Queue.{
  QueuedSubmission, read_queue, dequeue_all, enqueue, encoded, send_all, push_new, write_queue,
}
use oetp.Edge.Queue.File.{dequeue-push_new}
use oetp.Edge.Queue.Flush.{flush_lem}
use oetp.Edge.Submit.{
  SubmitRequest, SubmitResponse, Drawn, post_or_enqueue, handle_submit, handle_system_flush,
}
use oetp.Edge.Submit.Accepted.{submit-SubmitOk, submitted, after}
use oetp.Flow.Submission.{ingest_request}
use mathlib.Core.List.{append_assoc}
use mathlib.Core.Path.{ap₂}
use oetp.Edge.State.{AppState, CachedExamData}

module _ (c : Crates) {S : Type 0} (st : Store S) where
  -- A post to the ledger's handler; the status is that of a success or not.
  abbrev pub post_to : Clock → Headers → LedgerState S → QueuedSubmission → Bool × LedgerState S
  post_to clock headers l q =
      let (r, after) = handle_ingest c st clock headers (ingest_request q) l in (is_ok r, after)

  module _ (law : StoreLaw st) (clock later : Clock) (headers : Headers) (req : IngestRequest)
      (l : LedgerState S) {r : IngestResponse}
      (taken : (handle_ingest c st clock headers req l).0 ≡ ok r) where
    abbrev pub once : LedgerState S
    once = (handle_ingest c st clock headers req l).1

    authorized_still : check_api_key once.api_key headers ≡ ok tt
    unfolding handle_ingest
    authorized_still =
        let key : check_api_key l.api_key headers ≡ ok tt = ground arith in
        rw (handle_ingest-eq-ok c st law clock headers req l taken).1 key

    -- The same request is taken again, if the store takes the leaf.
    pub ingest_again :
        {j : ℕ}
        → within_window later once ≡ ok tt
        → (st.append once.store req.tenant_id req.exam_id req.merkle_leaf).0 ≡ ok j
        → (r' : IngestResponse) × ((handle_ingest c st later headers req once).0 ≡ ok r')
    unfolding handle_ingest
    ingest_again {j} window stored =
        let key = authorized_still in
        let space : valid_space c req.tenant_id req.exam_id ≡ ok tt = ground arith in
        let id : checked (validate_identifier c "receipt_id" req.receipt_id) ≡ ok tt =
          ground arith in
        (
          record { leaf_index = j; status = "ingested" },
          rw key (rw space (rw id (rw window (rw stored refl)))),
        )

    pub log_again :
        {r' : IngestResponse}
        → (handle_ingest c st later headers req once).0 ≡ ok r'
        → (law.log (handle_ingest c st later headers req once).1.store req.tenant_id req.exam_id
            ≡ law.log l.store req.tenant_id req.exam_id ++ (req.merkle_leaf ∷ req.merkle_leaf ∷ []))
    log_again again =
        let (_, one) = handle_ingest-eq-ok c st law clock headers req l taken in
        let (_, two) = handle_ingest-eq-ok c st law later headers req once again in
        let first : law.log once.store req.tenant_id req.exam_id
            ≡ law.log l.store req.tenant_id req.exam_id ++ (req.merkle_leaf ∷ []) =
          rw one (law.append_log l.store req.tenant_id req.exam_id req.merkle_leaf) in
        rw two (
          rw law.append_log
            (rw first (append_assoc (law.log l.store req.tenant_id req.exam_id) _ _)))

module _ (c : Crates) (bincode : Codec (List QueuedSubmission)) (aes : AesLaw c)
    (codec : CodecLaw bincode) (clock later : Clock) (drawn : Drawn) (headers : Headers)
    (req : SubmitRequest) (s : AppState) {entry : CachedExamData} {seed : Bytes}
    (there : lookup (c.uuid_to_string req.student_uuid) s.cache ≡ some entry)
    (unlocked : entry.variant_seed ≡ some seed) {r : SubmitResponse}
    (accepted : (handle_submit c bincode clock later drawn (λ q. false) headers req s).0
      ≡ ok r) where
  -- The submission of a submit whose post got no answer.
  abbrev pub unanswered : QueuedSubmission
  unanswered = submitted c bincode clock later drawn (λ q. false) headers req s entry seed

  -- The daemon after the submit.
  abbrev pub kept : AppState
  kept = after c bincode clock later drawn (λ q. false) headers req s

  submit-queued :
      ((post_or_enqueue c bincode (λ q. false) unanswered drawn.queue_nonce s).0 ≡ ok tt)
      × (kept ≡ (post_or_enqueue c bincode (λ q. false) unanswered drawn.queue_nonce s).1)
  submit-queued =
      let o = submit-SubmitOk c bincode clock later drawn (λ q. false) headers req s accepted in
      let cached = o.cached in
      let held = o.unlocked in
      let e : o.entry ≡ entry = cc in
      let k : o.seed ≡ seed = cc in
      let same : submitted c bincode clock later drawn (λ q. false) headers req s o.entry o.seed
          ≡ unanswered =
        ap₂ (submitted c bincode clock later drawn (λ q. false) headers req s) e k in
      (rw (← same) o.kept, rw (← same) o.left)

  only_queued :
      length drawn.queue_nonce ≡ 12
      → read_queue c bincode s.queue.file s.queue.key ≡ ok []
      → read_queue c bincode kept.queue.file kept.queue.key ≡ ok (unanswered ∷ [])
  unfolding post_or_enqueue dequeue_all push_new
  only_queued size none_yet =
      let (done, left) = submit-queued in
      let wrote : (enqueue c bincode s.queue.file unanswered s.queue.key drawn.queue_nonce).0
          ≡ ok tt =
        ground (arith, done) in
      let back =
        dequeue-push_new c bincode s.queue.file unanswered s.queue.key drawn.queue_nonce aes codec
          size wrote in
      rw left (back ∙ ap (λ m. ok (push_new (unwrap_or m []) unanswered)) none_yet)

  module _ {S : Type 0} (st : Store S) (law : StoreLaw st) (ledger_clock flush_clock : Clock)
      (ledger_headers : Headers) (l : LedgerState S) {i : IngestResponse}
      (taken : (handle_ingest c st ledger_clock ledger_headers (ingest_request unanswered) l).0
        ≡ ok i) where
    -- The ledger that took the submission.
    abbrev pub took : LedgerState S
    took = once c st law ledger_clock flush_clock ledger_headers (ingest_request unanswered) l taken

    -- The reply, and the daemon and the ledger after a flush.
    abbrev pub flushed : Headers → Bytes → ApiResult ℕ × (AppState × LedgerState S)
    flushed daemon_headers nonce =
        handle_system_flush c bincode (post_to c st flush_clock ledger_headers) daemon_headers nonce
          (kept, took)

    -- Over any store that keeps a log per namespace: a submit that succeeds, of a daemon whose queue is
    -- read as empty, for an entry that was unlocked and with a 12-byte nonce, whose submission the ledger
    -- took though the daemon got no answer to its post; and then a flush with the daemon's API key, within
    -- the ledger's window, where the empty queue can be encrypted and the store takes the leaf: the flush
    -- replies that it sent one submission, and the namespace's log is the old one with the submission's
    -- leaf twice at its end, given that AES-GCM decrypts what it encrypts and bincode reads what it writes.
    pub submit-flush-twice :
        (daemon_headers : Headers) (nonce : Bytes) {empty : Bytes} {j : ℕ}
        → length drawn.queue_nonce ≡ 12
        → read_queue c bincode s.queue.file s.queue.key ≡ ok []
        → check_api_key kept.config.api_key daemon_headers ≡ ok tt
        → encoded c bincode [] kept.queue.key nonce ≡ ok empty
        → within_window flush_clock took ≡ ok tt
        → (st.append took.store unanswered.tenant_id unanswered.exam_id unanswered.merkle_leaf).0
          ≡ ok j
        → ((flushed daemon_headers nonce).0 ≡ ok 1)
          × (law.log
                (flushed daemon_headers nonce).1.1.store
                unanswered.tenant_id
                unanswered.exam_id
              ≡ law.log l.store unanswered.tenant_id unanswered.exam_id
                ++ (unanswered.merkle_leaf ∷ unanswered.merkle_leaf ∷ []))
    unfolding handle_system_flush send_all
    submit-flush-twice daemon_headers nonce {empty} {j} size none_yet key e window stored =
        let sub = ingest_request unanswered in
        let (r', again) =
          ingest_again c st law ledger_clock flush_clock ledger_headers sub l taken window stored in
        let log = log_again c st law ledger_clock flush_clock ledger_headers sub l taken again in
        let sent =
          flush_lem (post_to c st flush_clock ledger_headers) c bincode aes codec kept.queue.file
            kept.queue.key nonce took unanswered [] (only_queued size none_yet) in
        let ran : flushed daemon_headers nonce ≡ (
          ok 1,
          (
            record kept { queue = record kept.queue { file = some empty } },
            (handle_ingest c st flush_clock ledger_headers sub took).1,
          ),
        ) =
          rw key (rw sent (rw again (rw (write_queue, e) refl))) in
        (ap (λ p. p.0) ran, rw (ap (λ p. p.1.1) ran) log)

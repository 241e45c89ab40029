-- ===== src/Flow/Submission.antt =====
-- A submission, from the daemon (oetp-edge/src/api.rs) to the ledger (oetp-ledger/src/api.rs).
use oetp.Prelude.{arith, ◌≢◌, none, [], ◌≤◌, ◌≡◌, refl, Bool, true, Option, List, length, Bytes}
use oetp.Result.{ok}
use oetp.Crates.{Crates, Codec, SignLaw, PatternLaw}
use oetp.Clock.{Clock}
use oetp.Merkle.{max_leaves}
use oetp.Signing
use oetp.Receipt.{StudentReceipt, verify_ledger_signature}
use oetp.Verify.{verify_receipt}
use oetp.Platform.{Store, StoreLaw}
use oetp.Validation.Accepted.{validate_identifier_iff}
use oetp.Api.{Headers}
use oetp.Ledger.Requests.{
  AppState as LedgerState, IngestRequest, IngestResponse, VerifyRequest, VerifyResponse,
}
use oetp.Ledger.Api.{handle_ingest}
use oetp.Ledger.Queries.{handle_verify}
use oetp.Ledger.Served.{ingest-stored}
use oetp.Ledger.Stable.{Steps, id_byte-no_colon}
use oetp.Ledger.Interleaved.Listed.{Acts-stored}
use oetp.Ledger.Interleaved.Whole.{Steps-Acts}
use oetp.Ledger.Checked.{Passed, handle_verify-finds}
use oetp.Ledger.Delivered.{proof_request-IsValid}
use oetp.Edge.Queue.{QueuedSubmission}
use oetp.Edge.State.{AppState}
use oetp.Edge.Submit.{
  SubmitRequest, SubmitResponse, Drawn, submission, student_receipt, handle_submit,
}
use oetp.Edge.Submit.Accepted.{submit-SubmitOk}

-- The post of `handle_submit` and of `flush`, as the ledger reads it.
abbrev pub ingest_request : QueuedSubmission → IngestRequest
ingest_request q = record {
  tenant_id = q.tenant_id;
  exam_id = q.exam_id;
  student_uuid = q.student_uuid;
  packet_hash = q.packet_hash;
  answers_hash = q.answers_hash;
  merkle_leaf = q.merkle_leaf;
  timestamp = q.timestamp;
  signature = q.signature;
  receipt_id = q.receipt_id;
}

-- What a student asks the ledger about the receipt, with the device's public key.
abbrev pub verify_request : StudentReceipt → Bytes → VerifyRequest
verify_request receipt edge_public_key = record {
  tenant_id = receipt.tenant_id;
  exam_id = receipt.exam_id;
  student_uuid = receipt.student_uuid;
  packet_hash = receipt.packet_hash;
  answers_hash = receipt.answers_hash;
  timestamp = receipt.timestamp;
  merkle_leaf = receipt.merkle_proof.leaf;
  edge_signature = receipt.edge_signature;
  edge_public_key = edge_public_key;
}

module _ (c : Crates) (bincode : Codec (List QueuedSubmission)) (clock later : Clock)
    (drawn : Drawn) (post : QueuedSubmission → Bool) (headers : Headers) (req : SubmitRequest)
    (s : AppState) {r : SubmitResponse}
    (accepted : (handle_submit c bincode clock later drawn post headers req s).0 ≡ ok r) where
  receipt-Passed :
      SignLaw c
      → s.device_key.public_key ≡ c.ed_public s.device_key.private_key
      → Passed c (verify_request r.receipt s.device_key.public_key)
  unfolding student_receipt submission Signing.sign
  receipt-Passed sign pair =
      let o = submit-SubmitOk c bincode clock later drawn post headers req s accepted in
      rw o.receipt (
        rw pair (record {
          leaf = refl;
          key = c.ed_public s.device_key.private_key;
          key_parsed = sign.parse_public s.device_key.private_key;
          sig = _;
          sig_parsed = sign.parse_sign s.device_key.private_key _;
          signed = sign.verify_sign s.device_key.private_key _;
        }))

  module _ (sign : SignLaw c) (pattern : PatternLaw c) {S : Type 0} (st : Store S)
      (law : StoreLaw st) (ledger_clock : Clock) (ledger_headers : Headers) (l : LedgerState S)
      {i : IngestResponse} where
    -- Over any store that keeps a log per namespace, whatever index it returns: a submission of the daemon
    -- that the ledger ingested stays valid, given that the device's two keys belong together: over any
    -- steps of the ledger
    -- afterwards but an ingest under the same receipt, where the namespace's log has at most 2^20 leaves,
    -- `handle_verify` finds the data of the student's receipt valid under the device's public key.
    pub submit-ingest-verify :
        (u : LedgerState S) (latest : Option Bytes)
        → s.device_key.public_key ≡ c.ed_public s.device_key.private_key
        → (q : QueuedSubmission) → r.receipt ≡ student_receipt c req q
        → (handle_ingest c st ledger_clock ledger_headers (ingest_request q) l).0 ≡ ok i
        → Steps c st q.receipt_id
            (handle_ingest c st ledger_clock ledger_headers (ingest_request q) l).1
            u
        → length (law.log u.store q.tenant_id q.exam_id) ≤ max_leaves
        → st.latest_root u.store q.tenant_id q.exam_id ≡ ok latest
        → (v : VerifyResponse) × (handle_verify c st
              (verify_request r.receipt s.device_key.public_key)
              u
            ≡ ok v)
          × (v.valid ≡ true)
    unfolding student_receipt
    submit-ingest-verify u latest pair q same ingested steps k root =
        let sent = ingest_request q in
        let v =
          proof_request-IsValid c pattern st law ledger_clock ledger_headers sent l ingested in
        let (_, _, ids) = (validate_identifier_iff c "tenant_id" q.tenant_id pattern).0 v.tenant in
        let stored =
          Acts-stored c pattern st law q.tenant_id q.exam_id (id_byte-no_colon q.tenant_id ids)
            q.receipt_id (length (law.log l.store q.tenant_id q.exam_id)) q.merkle_leaf
            (Steps-Acts c st q.receipt_id steps)
            (ingest-stored c st law ledger_clock ledger_headers sent l ingested) in
        let passed : Passed c (verify_request (student_receipt c req q) s.device_key.public_key) =
          rw same at receipt-Passed sign pair in
        rw same (
          handle_verify-finds c st law
            (verify_request (student_receipt c req q) s.device_key.public_key) u
            (length (law.log l.store q.tenant_id q.exam_id)) latest v.tenant v.exam passed stored k
            root)

  -- The receipt that submit hands out has no signature of the ledger: where the empty text is no
  -- signature, `verify_receipt` accepts it under no keys at all.
  pub submit-verify_receipt :
      c.ed_signature_from_slice [] ≡ none
      → (edge_public_key ledger_public_key : Bytes)
      → verify_receipt c r.receipt edge_public_key ledger_public_key ≢ ok tt
  unfolding verify_receipt verify_ledger_signature student_receipt
  submit-verify_receipt no_sig edge_public_key ledger_public_key h =
      let o = submit-SubmitOk c bincode clock later drawn post headers req s accepted in
      let unsigned : r.receipt.ledger_signature ≡ [] = rw o.receipt refl in
      ground (arith, unsigned, no_sig, h)

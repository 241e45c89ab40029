-- ===== src/Ledger/Delivered.antt =====
-- From the ingest of a submission, over the ledger's later steps, to its proof (oetp-ledger/src/api.rs).
use oetp.Prelude.{◌≤◌, ◌≡◌, arith, length}
use oetp.Result.{ok}
use oetp.Crates.{Crates, PatternLaw}
use oetp.Clock.{Clock}
use oetp.Merkle.{max_leaves}
use oetp.Merkle.Inclusion.{HasSiblings}
use oetp.Validation.Accepted.{validate_identifier_iff}
use oetp.Platform.{Store, StoreLaw}
use oetp.Api.{Headers}
use oetp.Ledger.Requests.{AppState, IngestRequest, IngestResponse, ProofRequest}
use oetp.Ledger.Api.{handle_ingest}
use oetp.Ledger.Served.{IsValid, Served, ingest-Indexed, handle_proof-Served}
use oetp.Ledger.Stable.{Steps, Steps-Indexed, id_byte-no_colon}

module _ (c : Crates) (pattern : PatternLaw c) {S : Type 0} (st : Store S) (law : StoreLaw st)
    (clock : Clock) (headers : Headers) (req : IngestRequest) (s : AppState S) {r : IngestResponse}
    (accepted : (handle_ingest c st clock headers req s).0 ≡ ok r) where
  -- The request for the proof of what was ingested.
  abbrev pub proof_request : ProofRequest
  proof_request = record {
    tenant_id = req.tenant_id;
    exam_id = req.exam_id;
    receipt_id = req.receipt_id;
  }

  pub proof_request-IsValid : IsValid c st law proof_request
  unfolding handle_ingest
  proof_request-IsValid = record {
    tenant = ground arith;
    exam = ground arith;
    receipt = ground arith;
  }

  -- Over any store that keeps a log per namespace: a submission that `handle_ingest` accepted at an index
  -- that is the leaf's place in its namespace's
  -- log, and any steps of the ledger afterwards but an ingest under the same receipt: where the
  -- namespace's log then has at most 2^20 leaves and the leaf's path has a sibling at every level,
  -- `handle_proof` replies with the leaf, the index that the ingest returned, the root over the log, and
  -- siblings with which the proof verifies.
  pub ingest-Steps-proof :
      (u : AppState S)
      → r.leaf_index ≡ length (law.log s.store req.tenant_id req.exam_id)
      → Steps c st req.receipt_id (handle_ingest c st clock headers req s).1 u
      → length (law.log u.store req.tenant_id req.exam_id) ≤ max_leaves
      → HasSiblings (length (law.log u.store req.tenant_id req.exam_id)) r.leaf_index
      → Served c st law proof_request u r.leaf_index req.merkle_leaf
  ingest-Steps-proof u place steps k sib =
      let v = proof_request-IsValid in
      let (_, _, ids) = (validate_identifier_iff c "tenant_id" req.tenant_id pattern).0 v.tenant in
      let listed =
        Steps-Indexed c pattern st law req.tenant_id req.exam_id
          (id_byte-no_colon req.tenant_id ids) req.receipt_id r.leaf_index req.merkle_leaf steps
          (ingest-Indexed c st law clock headers req s accepted place) in
      handle_proof-Served c st law proof_request u r.leaf_index req.merkle_leaf v listed k sib

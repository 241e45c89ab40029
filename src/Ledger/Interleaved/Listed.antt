-- ===== src/Ledger/Interleaved/Listed.antt =====
-- The receipt of an ingest under every interleaving of the ledger's tasks (oetp-ledger/src/api.rs,
-- merkle_worker.rs).
use oetp.Prelude.{
  ℕ, ◌≤◌, ◌≡◌, refl, true, false, some, arith, length, get_elem?, get_elem?-append_self, Bytes, beq,
  beq_refl, beq_iff, lookup, lookup-insert,
}
use oetp.Result.{ok}
use oetp.Crates.{Crates, PatternLaw}
use oetp.Clock.{Clock}
use oetp.Merkle.{max_leaves}
use oetp.Merkle.Inclusion.{HasSiblings}
use oetp.Validation.Accepted.{validate_identifier_iff}
use oetp.Platform.{Store, StoreLaw, no_colon}
use oetp.Api.{Headers}
use oetp.Ledger.Requests.{AppState, IngestRequest, ProofRequest}
use oetp.Ledger.Served.{IsValid, Served, Indexed, handle_proof-Served}
use oetp.Ledger.Stable.{append-stored, id_byte-no_colon}
use oetp.Ledger.Interleaved.{Act, Acts, ingest_begin, ingest_finish}

module _ (c : Crates) (pattern : PatternLaw c) {S : Type 0} (st : Store S) (law : StoreLaw st)
    (t e : Bytes) (colon_free : no_colon t ≡ true) (id : Bytes) (i : ℕ) (x : Bytes) where
  -- A leaf that is stored stays there.
  Act-stored :
      {s u : AppState S}
      → Act c st id s u
      → get_elem? (law.log s.store t e) i ≡ some x
      → get_elem? (law.log u.store t e) i ≡ some x
  Act-stored {s} (Act.append t' e' leaf v) h =
      append-stored c pattern st law t e colon_free s.store t' e' leaf i v h
  Act-stored (Act.push_anchor a) h = h
  Act-stored (Act.list other j apart) h = h
  Act-stored (Act.load key packet) h = h
  Act-stored {s} (Act.set_root t' e' root) h = rw (law.set_root_log s.store t' e' root t e) h

  Act-listed :
      {s u : AppState S}
      → Act c st id s u
      → lookup id s.receipt_index ≡ some i
      → lookup id u.receipt_index ≡ some i
  Act-listed (Act.append t' e' leaf v) h = h
  Act-listed (Act.push_anchor a) h = h
  Act-listed {s} (Act.list other j apart) h =
      let no : beq other id ≡ false = ground (arith, apart, beq_iff other id) in
      rw lookup-insert (rw no h)
  Act-listed (Act.load key packet) h = h
  Act-listed (Act.set_root t' e' root) h = h

  pub Acts-stored :
      {s u : AppState S}
      → Acts c st id s u
      → get_elem? (law.log s.store t e) i ≡ some x
      → get_elem? (law.log u.store t e) i ≡ some x
  Acts-stored Acts.done h = h
  Acts-stored (Acts.next a rest) h = Acts-stored rest (Act-stored a h)

  Acts-listed :
      {s u : AppState S}
      → Acts c st id s u
      → lookup id s.receipt_index ≡ some i
      → lookup id u.receipt_index ≡ some i
  Acts-listed Acts.done h = h
  Acts-listed (Acts.next a rest) h = Acts-listed rest (Act-listed a h)

module _ (c : Crates) (pattern : PatternLaw c) {S : Type 0} (st : Store S) (law : StoreLaw st)
    (clock : Clock) (headers : Headers) (req : IngestRequest) (s : AppState S) {i : ℕ}
    (accepted : (ingest_begin c st clock headers req s).0 ≡ ok i) where
  -- The request for the proof of what is ingested.
  abbrev pub proof_of : ProofRequest
  proof_of = record {
    tenant_id = req.tenant_id;
    exam_id = req.exam_id;
    receipt_id = req.receipt_id;
  }

  proof_of-IsValid : IsValid c st law proof_of
  unfolding ingest_begin
  proof_of-IsValid = record { tenant = ground arith; exam = ground arith; receipt = ground arith }

  begin-after :
      (ingest_begin c st clock headers req s).1
      ≡ record s { store = (st.append s.store req.tenant_id req.exam_id req.merkle_leaf).1 }
  unfolding ingest_begin
  begin-after = ground arith

  begin-stored :
      i ≡ length (law.log s.store req.tenant_id req.exam_id)
      → get_elem?
          (law.log (ingest_begin c st clock headers req s).1.store req.tenant_id req.exam_id)
          i
        ≡ some req.merkle_leaf
  begin-stored place = rw begin-after (
      rw law.append_log
        (rw place (get_elem?-append_self (law.log s.store req.tenant_id req.exam_id) _)))

  -- Over any store that keeps a log per namespace: an ingest whose leaf the store took at the index `i`,
  -- where `i` is the leaf's place in its namespace's log, ends with a proof under every interleaving:
  -- after any actions of other tasks before the ingest lists its receipt, and any afterwards, none of
  -- which lists the same receipt, where the namespace's log then has at most 2^20 leaves and the path of
  -- the leaf at `i` a sibling at every level, `handle_proof` replies with the leaf, its index `i`, the
  -- root over the log, and siblings with which the proof verifies.
  pub begin-finish-proof :
      (u w : AppState S)
      → i ≡ length (law.log s.store req.tenant_id req.exam_id)
      → Acts c st req.receipt_id (ingest_begin c st clock headers req s).1 u
      → Acts c st req.receipt_id (ingest_finish req i u).1 w
      → length (law.log w.store req.tenant_id req.exam_id) ≤ max_leaves
      → HasSiblings (length (law.log w.store req.tenant_id req.exam_id)) i
      → Served c st law proof_of w i req.merkle_leaf
  unfolding ingest_finish
  begin-finish-proof u w place before after k sib =
      let v = proof_of-IsValid in
      let (_, _, ids) = (validate_identifier_iff c "tenant_id" req.tenant_id pattern).0 v.tenant in
      let free = id_byte-no_colon req.tenant_id ids in
      let stored =
        Acts-stored c pattern st law req.tenant_id req.exam_id free req.receipt_id i req.merkle_leaf
          before (begin-stored place) in
      let listed : lookup req.receipt_id (ingest_finish req i u).1.receipt_index ≡ some i =
        rw lookup-insert (rw beq_refl refl) in
      let end : Indexed c st law w req.tenant_id req.exam_id req.receipt_id i req.merkle_leaf =
        record {
          listed =
              Acts-listed c pattern st law req.tenant_id req.exam_id free req.receipt_id i
                req.merkle_leaf after listed;
          stored =
              Acts-stored c pattern st law req.tenant_id req.exam_id free req.receipt_id i
                req.merkle_leaf after stored;
        } in
      handle_proof-Served c st law proof_of w i req.merkle_leaf v end k sib

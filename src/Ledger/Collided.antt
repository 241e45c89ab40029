-- ===== src/Ledger/Collided.antt =====
-- Two submissions of different namespaces under one receipt id (oetp-ledger/src/api.rs).
mod Tests
use oetp.Prelude.{
  refl, ◌+◌, ◌≤◌, ◌≡◌, sym, ap, true, some, [], ◌∷◌, ◌++◌, arith, length, get_elem?, length-append,
  Bytes, beq, beq_iff, lookup, lookup-insert,
}
use oetp.Result.{ok}
use oetp.Crates.{Crates, PatternLaw}
use oetp.Clock.{Clock}
use oetp.Merkle.{max_leaves}
use oetp.Merkle.Inclusion.{HasSiblings}
use oetp.Validation.{validate_identifier}
use oetp.Validation.Accepted.{validate_identifier_iff}
use oetp.Platform.{Store, StoreLaw, SameSpace}
use oetp.Api.{Headers}
use oetp.Ledger.Requests.{AppState, IngestRequest, IngestResponse, ProofRequest}
use oetp.Ledger.Api.{handle_ingest}
use oetp.Ledger.Served.{IsValid, Served, Indexed, handle_ingest-eq-ok, handle_proof-Served}
use oetp.Ledger.Stable.{id_byte-no_colon}

module _ (c : Crates) (pattern : PatternLaw c) {S : Type 0} (st : Store S) (law : StoreLaw st)
    (clock clock' : Clock) (headers headers' : Headers) (req other : IngestRequest) (s : AppState S)
    {r r' : IngestResponse} (accepted : (handle_ingest c st clock headers req s).0 ≡ ok r)
    (after : (handle_ingest c st clock' headers' other (handle_ingest c st clock headers req s).1).0
      ≡ ok r') where
  -- The ledger after both.
  abbrev pub both : AppState S
  both = (handle_ingest c st clock' headers' other (handle_ingest c st clock headers req s).1).1

  abbrev pub proof_of_first : ProofRequest
  proof_of_first = record {
    tenant_id = req.tenant_id;
    exam_id = req.exam_id;
    receipt_id = req.receipt_id;
  }

  names : IsValid c st law proof_of_first
  unfolding handle_ingest
  names = record { tenant = ground arith; exam = ground arith; receipt = ground arith }

  other_tenant : validate_identifier c "tenant_id" other.tenant_id ≡ ok tt
  unfolding handle_ingest
  other_tenant = ground arith

  first_log :
      ¬ (SameSpace other.tenant_id other.exam_id req.tenant_id req.exam_id)
      → law.log both.store req.tenant_id req.exam_id
        ≡ law.log s.store req.tenant_id req.exam_id ++ (req.merkle_leaf ∷ [])
  first_log apart =
      let (_, _, ids) =
        (validate_identifier_iff c "tenant_id" req.tenant_id pattern).0 names.tenant in
      let (_, _, ids') =
        (validate_identifier_iff c "tenant_id" other.tenant_id pattern).0 other_tenant in
      let (_, one) = handle_ingest-eq-ok c st law clock headers req s accepted in
      let (_, two) = handle_ingest-eq-ok c st law clock' headers' other _ after in
      rw two (
        rw
          (law.append_other _ other.tenant_id other.exam_id other.merkle_leaf req.tenant_id
            req.exam_id (id_byte-no_colon other.tenant_id ids') (id_byte-no_colon req.tenant_id ids)
            apart)
          (rw one (law.append_log s.store req.tenant_id req.exam_id req.merkle_leaf)))

  -- Over any store that keeps a log per namespace, whatever indices it returns: an accepted ingest, and
  -- then one of another namespace under the same receipt id: where the index that
  -- the second returned is in range of the first namespace's log, which has at most 2^20 leaves, and its
  -- path has a sibling at every level, a request for the first submission's proof is answered with the
  -- leaf at the second's index, whatever leaf this is, and a proof that verifies.
  pub ingest-ingest-proof :
      req.receipt_id ≡ other.receipt_id
      → ¬ (SameSpace other.tenant_id other.exam_id req.tenant_id req.exam_id)
      → {leaf : Bytes}
      → get_elem?
          (law.log s.store req.tenant_id req.exam_id ++ (req.merkle_leaf ∷ []))
          r'.leaf_index
        ≡ some leaf
      → length (law.log s.store req.tenant_id req.exam_id) + 1 ≤ max_leaves
      → HasSiblings (length (law.log s.store req.tenant_id req.exam_id) + 1) r'.leaf_index
      → Served c st law proof_of_first both r'.leaf_index leaf
  ingest-ingest-proof same apart {leaf} there small sib =
      let (_, two) = handle_ingest-eq-ok c st law clock' headers' other _ after in
      let log = first_log apart in
      let size : length (law.log both.store req.tenant_id req.exam_id)
          ≡ length (law.log s.store req.tenant_id req.exam_id) + 1 =
        rw log (length-append (law.log s.store req.tenant_id req.exam_id) (req.merkle_leaf ∷ [])) in
      let hit : beq other.receipt_id req.receipt_id ≡ true =
        (beq_iff other.receipt_id req.receipt_id).1 (sym same) in
      let listed : lookup req.receipt_id both.receipt_index ≡ some r'.leaf_index =
        rw two (rw lookup-insert (rw hit refl)) in
      let found : Indexed c st law both req.tenant_id req.exam_id req.receipt_id r'.leaf_index
          leaf =
        record { listed = listed; stored = rw log there } in
      handle_proof-Served c st law proof_of_first both r'.leaf_index leaf names found
        (rw size small) (rw size sib)

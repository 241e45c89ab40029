-- ===== src/Ledger/Lost.antt =====
-- `handle_proof` (oetp-ledger/src/api.rs) on an index past the log, over the SQLite store.
use oetp.Prelude.{
  beq_refl, ◌∙◌, lookup-insert, sym, length-append, ◌+◌, insert, Bytes, ℕ, ◌≤◌, ◌<◌, ◌≡◌, refl,
  false, some, arith, ◌==◌, length, lookup,
}
use oetp.Result.{ok-injective, to_string, invalid_input, ok, err}
use oetp.Crates.{Crates}
use oetp.Clock.{Clock}
use oetp.Merkle
use oetp.Merkle.{MerkleTree, max_leaves}
use oetp.Merkle.Inclusion.{prove_total}
use oetp.Merkle.Build.{new_ok}
use oetp.Platform.{Store, StoreLaw}
use oetp.Validation.{validate_identifier}
use oetp.Api.{Headers, ApiError, internal_error}
use oetp.Ledger.Requests.{AppState, IngestRequest, IngestResponse, ProofRequest}
use oetp.Ledger.Api.{handle_ingest}
use oetp.Ledger.MerkleWorker.{collect-log}
use oetp.Ledger.Queries.{handle_proof, tree_of, proof_parts}
use oetp.Ledger.SqliteStore
use oetp.Ledger.SqliteStore.{SqliteStore, sqlite_store, sqlite_store-StoreLaw, others, append_index}

abbrev pub out_of_bounds : ApiError
out_of_bounds = internal_error (to_string (invalid_input "leaf index out of bounds"))

module _ (c : Crates) where
  prove-out_of_bounds :
      (tree : MerkleTree) (i : ℕ)
      → length tree.leaves ≤ i
      → Merkle.prove tree i ≡ err (invalid_input "leaf index out of bounds")
  unfolding Merkle.prove
  prove-out_of_bounds tree i h = ground arith

  module _ {S : Type 0} (st : Store S) (law : StoreLaw st) where
    handle_proof-out_of_bounds :
        (req : ProofRequest) (s : AppState S) (i : ℕ)
        → validate_identifier c "tenant_id" req.tenant_id ≡ ok tt
        → validate_identifier c "exam_id" req.exam_id ≡ ok tt
        → validate_identifier c "receipt_id" req.receipt_id ≡ ok tt
        → lookup req.receipt_id s.receipt_index ≡ some i
        → 1 ≤ length (law.log s.store req.tenant_id req.exam_id)
        → length (law.log s.store req.tenant_id req.exam_id) ≤ max_leaves
        → length (law.log s.store req.tenant_id req.exam_id) ≤ i
        → handle_proof c st req s ≡ err out_of_bounds
    unfolding handle_proof tree_of proof_parts
    handle_proof-out_of_bounds req s i tenant exam receipt listed h k past =
        let log = law.log s.store req.tenant_id req.exam_id in
        let p = prove_total c log 0 k h in
        let leaves : p.tree.leaves ≡ log = cc (p.built, new_ok c log h k) in
        let refused = prove-out_of_bounds p.tree i (rw leaves past) in
        let ne : (length log == 0) ≡ false = ground arith in
        rw tenant (
          rw exam (
            rw receipt (
              rw law.count_lem (
                rw ne (
                  rw (collect-log st law s.store req.tenant_id req.exam_id)
                    (rw p.built (rw listed (rw refused refl))))))))

  log_size :
      (s : SqliteStore) (t e : Bytes)
      → length (sqlite_store-StoreLaw.log s t e) ≡ length (SqliteStore.select_leaves s.leaves t e)
  unfolding SqliteStore.count
  log_size s t e = ok-injective (sym (sqlite_store-StoreLaw.count_lem s t e) ∙ refl)

  module _ (clock : Clock) (headers : Headers) (req : IngestRequest) (s : AppState SqliteStore)
      {r : IngestResponse} (h : (handle_ingest c sqlite_store clock headers req s).0 ≡ ok r) where
    names :
        (validate_identifier c "tenant_id" req.tenant_id ≡ ok tt)
        × (validate_identifier c "exam_id" req.exam_id ≡ ok tt)
        × (validate_identifier c "receipt_id" req.receipt_id ≡ ok tt)
    unfolding handle_ingest
    names = (ground arith, ground arith, ground arith)

    sqlite_ingest : (handle_ingest c sqlite_store clock headers req s).1 ≡ record s {
      store = (sqlite_store.append s.store req.tenant_id req.exam_id req.merkle_leaf).1;
      receipt_index =
          insert req.receipt_id
            (length (SqliteStore.select_leaves s.store.leaves req.tenant_id req.exam_id)
              + others s.store.leaves req.tenant_id req.exam_id)
            s.receipt_index;
    }
    unfolding handle_ingest
    sqlite_ingest =
        let place = (append_index s.store req.tenant_id req.exam_id req.merkle_leaf).0 in
        ground (arith, place)

  -- Over SQLite, once another namespace has a leaf: the receipt of a submission that `handle_ingest`
  -- accepted has no proof, since `handle_proof` fails with status 500, as long as its namespace holds
  -- at most 2^20 leaves.
  pub ingest-proof_refused :
      (clock : Clock) (headers : Headers) (req : IngestRequest) (s : AppState SqliteStore)
      {r : IngestResponse}
      → (handle_ingest c sqlite_store clock headers req s).0 ≡ ok r
      → 1 ≤ others s.store.leaves req.tenant_id req.exam_id
      → length (SqliteStore.select_leaves s.store.leaves req.tenant_id req.exam_id) < max_leaves
      → handle_proof c sqlite_store
          (record { tenant_id = req.tenant_id; exam_id = req.exam_id; receipt_id = req.receipt_id })
          (handle_ingest c sqlite_store clock headers req s).1
        ≡ err out_of_bounds
  ingest-proof_refused clock headers req s h more k =
      let t = req.tenant_id in
      let e = req.exam_id in
      let after = sqlite_ingest clock headers req s h in
      let before = log_size s.store t e in
      let grown : length
            (sqlite_store-StoreLaw.log (sqlite_store.append s.store t e req.merkle_leaf).1 t e)
          ≡ length (SqliteStore.select_leaves s.store.leaves t e) + 1 =
        rw sqlite_store-StoreLaw.append_log (rw length-append (omega (arith, before))) in
      rw after (
        handle_proof-out_of_bounds sqlite_store sqlite_store-StoreLaw _ _
          (length (SqliteStore.select_leaves s.store.leaves t e) + others s.store.leaves t e)
          (names clock headers req s h).0 (names clock headers req s h).1
          (names clock headers req s h).2 (rw lookup-insert (rw beq_refl refl))
          (omega (arith, grown)) (omega (arith, grown)) (omega (arith, grown)))

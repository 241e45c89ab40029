-- ===== src/Ledger/Served.antt =====
-- From the ingest of a submission to the proof of its receipt (oetp-ledger/src/api.rs).
use oetp.Prelude.{
  inr, inl, true, refl, false, get_elem?-some-lt, ◌==◌, ◌≤◌, List, get_elem?-append_self, beq_refl,
  lookup-insert, arith, ℕ, ◌≡◌, some, length, get_elem?, Bytes, lookup, insert,
}
use oetp.Result.{ok-cases, ok}
use oetp.Crates.{Crates}
use oetp.Clock.{Clock}
use oetp.Platform.{Store, StoreLaw}
use oetp.Api.{Headers}
use oetp.Ledger.Requests.{ProofRequest, ProofResponse, AppState, IngestRequest, IngestResponse}
use oetp.Ledger.Api.{handle_ingest}
use oetp.Merkle
use oetp.Merkle.{MerkleProof, max_leaves}
use oetp.Merkle.Shape.{shape, value}
use oetp.Merkle.Build.{new_ok}
use oetp.Merkle.Inclusion.{HasSiblings, Proven, prove-verify}
use oetp.Validation.{validate_identifier}
use oetp.Ledger.MerkleWorker.{collect-log}
use oetp.Ledger.Queries.{handle_proof, tree_of, proof_parts}

module _ (c : Crates) {S : Type 0} (st : Store S) (law : StoreLaw st) where
  -- The receipt `id` is listed at the index `i`, where the log of the namespace has `leaf`.
  pub record Indexed (s : AppState S) (t e id : Bytes) (i : ℕ) (leaf : Bytes) : Type 0 where
    pub listed : lookup id s.receipt_index ≡ some i
    pub stored : get_elem? (law.log s.store t e) i ≡ some leaf

  pub handle_ingest-eq-ok :
      (clock : Clock) (headers : Headers) (req : IngestRequest) (s : AppState S)
      {r : IngestResponse}
      → (handle_ingest c st clock headers req s).0 ≡ ok r
      → ((st.append s.store req.tenant_id req.exam_id req.merkle_leaf).0 ≡ ok r.leaf_index)
        × ((handle_ingest c st clock headers req s).1 ≡ record s {
          store = (st.append s.store req.tenant_id req.exam_id req.merkle_leaf).1;
          receipt_index = insert req.receipt_id r.leaf_index s.receipt_index;
        })
  unfolding handle_ingest
  handle_ingest-eq-ok clock headers req s h =
      elim (ok-cases (st.append s.store req.tenant_id req.exam_id req.merkle_leaf).0) [
        | inl (i, got) ↦ (ground (arith, got, h), ground (arith, got, h))
        | inr bad ↦ absurd (ground (arith, bad, h))
      ]

  -- The leaf stands at the end of its namespace's log, whatever index the store returned.
  pub ingest-stored :
      (clock : Clock) (headers : Headers) (req : IngestRequest) (s : AppState S)
      {r : IngestResponse}
      → (handle_ingest c st clock headers req s).0 ≡ ok r
      → get_elem?
          (law.log (handle_ingest c st clock headers req s).1.store req.tenant_id req.exam_id)
          (length (law.log s.store req.tenant_id req.exam_id))
        ≡ some req.merkle_leaf
  ingest-stored clock headers req s h =
      let (_, after) = handle_ingest-eq-ok clock headers req s h in
      rw after (
        rw law.append_log
          (get_elem?-append_self (law.log s.store req.tenant_id req.exam_id) req.merkle_leaf))

  -- Where the index is the leaf's place in its namespace's log, the receipt is listed at the leaf.
  pub ingest-Indexed :
      (clock : Clock) (headers : Headers) (req : IngestRequest) (s : AppState S)
      {r : IngestResponse}
      → (handle_ingest c st clock headers req s).0 ≡ ok r
      → r.leaf_index ≡ length (law.log s.store req.tenant_id req.exam_id)
      → Indexed
          (handle_ingest c st clock headers req s).1
          req.tenant_id
          req.exam_id
          req.receipt_id
          r.leaf_index
          req.merkle_leaf
  ingest-Indexed clock headers req s h place =
      let (_, after) = handle_ingest-eq-ok clock headers req s h in
      record {
        listed = rw after (rw lookup-insert (rw beq_refl refl));
        stored = rw place (ingest-stored clock headers req s h);
      }

  verify-parts :
      (q : MerkleProof) (i : ℕ) (leaf root : Bytes)
      → q.leaf_index ≡ i
      → q.leaf ≡ leaf
      → q.root ≡ root
      → Merkle.verify c q ≡ true
      → Merkle.verify c (record { leaf_index = i; leaf = leaf; siblings = q.siblings; root = root })
        ≡ true
  unfolding Merkle.verify
  verify-parts q i leaf root e₁ e₂ e₃ h = rw (← e₁, ← e₂, ← e₃) h

  -- The names of a request on a receipt are valid.
  pub record IsValid (req : ProofRequest) : Type 0 where
    pub tenant : validate_identifier c "tenant_id" req.tenant_id ≡ ok tt
    pub exam : validate_identifier c "exam_id" req.exam_id ≡ ok tt
    pub receipt : validate_identifier c "receipt_id" req.receipt_id ≡ ok tt

  module _ (req : ProofRequest) (s : AppState S) where
    abbrev log : List Bytes
    log = law.log s.store req.tenant_id req.exam_id

    abbrev reply : {i : ℕ} → Proven c log i → ProofResponse
    reply {i} p = record {
      merkle_leaf = some p.proof.leaf;
      leaf_index = some i;
      total_leaves = length log;
      siblings = p.proof.siblings;
      root = some p.tree.root;
    }

    handle_proof-Proven :
        {i : ℕ} (p : Proven c log i)
        → IsValid req
        → lookup req.receipt_id s.receipt_index ≡ some i
        → 1 ≤ length log
        → handle_proof c st req s ≡ ok (reply p)
    unfolding handle_proof tree_of proof_parts
    handle_proof-Proven p v listed h =
        let ne : (length log == 0) ≡ false = ground arith in
        rw v.tenant (
          rw v.exam (
            rw v.receipt (
              rw law.count_lem (
                rw ne (
                  rw (collect-log st law s.store req.tenant_id req.exam_id)
                    (rw p.built (rw listed (rw p.proved refl))))))))

    -- What the reply to a request on a receipt at index `i` of the log, with leaf `leaf`, says: the leaf,
    -- its index, the number of leaves, the root of RFC 6962's recursion over the log, and siblings with
    -- which the leaf's proof against this root verifies.
    pub record Served (i : ℕ) (leaf : Bytes) : Type 0 where
      pub siblings : List Bytes
      pub replied :
          handle_proof c st req s
          ≡ ok (record {
            merkle_leaf = some leaf;
            leaf_index = some i;
            total_leaves = length log;
            siblings = siblings;
            root = some (value c (shape 20 log));
          })
      pub verified :
          Merkle.verify c (record {
            leaf_index = i;
            leaf = leaf;
            siblings = siblings;
            root = value c (shape 20 log);
          })
          ≡ true

    -- For a receipt that is listed at index `i` of a log of at most 2^20 leaves, where the leaf's path
    -- has a sibling at every level, `handle_proof` serves a proof that verifies.
    pub handle_proof-Served :
        (i : ℕ) (leaf : Bytes)
        → IsValid req
        → Indexed s req.tenant_id req.exam_id req.receipt_id i leaf
        → length log ≤ max_leaves
        → HasSiblings (length log) i
        → Served i leaf
    handle_proof-Served i leaf v x k sib =
        let lt = get_elem?-some-lt log i x.stored in
        let (p, ok_proof) = prove-verify c log i k lt sib in
        let tree_root : p.tree.root ≡ value c (shape 20 log) =
          cc (p.built, new_ok c log (omega arith) k) in
        let same : p.proof.leaf ≡ leaf = cc (p.leaf, x.stored) in
        record {
          siblings = p.proof.siblings;
          replied = rw (← same, ← tree_root) (handle_proof-Proven p v x.listed (omega arith));
          verified = verify-parts p.proof i leaf _ p.index same p.root ok_proof;
        }

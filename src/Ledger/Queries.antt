-- ===== src/Ledger/Queries.antt =====
-- oetp-ledger/src/api.rs: the two public queries, which change nothing: the inclusion proof of a receipt
-- and the check of a submission.
use oetp.Prelude.{
  ℕ, zero, suc, ◌+◌, String, Bool, true, false, not, Option, none, some, List, [], ◌==◌,
  if◌then◌else◌, Bytes, beq, lookup,
}
use oetp.Result.{ok, ◌>>=◌, ◌>>◌}
use oetp.Crates.{Crates}
use oetp.Validation.{validate_identifier}
use oetp.Hashing.{compute_submission_leaf}
use oetp.Signing
use oetp.Merkle
use oetp.Merkle.{MerkleTree}
use oetp.Platform.{Store}
use oetp.Api.{ApiResult, internal, checked}
use oetp.Ledger.Requests.{
  AppState, ProofRequest, ProofResponse, VerifyRequest, VerifyResponse, valid_space,
}
use oetp.Ledger.MerkleWorker.{collect}

-- The three parts that the receipt's index gives to the reply.
unfoldable pub proof_parts :
    MerkleTree → Option ℕ → ApiResult (Option Bytes × Option ℕ × List Bytes)
proof_parts tree none = ok (none, none, [])
proof_parts tree (some idx) = do
  proof ← internal (Merkle.prove tree idx)
  ok (some proof.leaf, some idx, proof.siblings)

abbrev rejected : String → VerifyResponse
rejected reason = record {
  valid = false;
  reason = reason;
  leaf_index = none;
  total_leaves = 0;
  anchored_root = none;
}

abbrev is_leaf : Option Bytes → Bytes → Bool
is_leaf none leaf = false
is_leaf (some l) leaf = beq l leaf

abbrev is_some : {A : Type 0} → Option A → Bool
is_some none = false
is_some (some a) = true

module _ {S : Type 0} (st : Store S) where
  -- `for i in 0..total`, up to the first leaf that is the one sought.
  unfoldable pub find_leaf : ℕ → ℕ → S → Bytes → Bytes → Bytes → ApiResult (Option ℕ)
  find_leaf zero i s t e leaf = ok none
  find_leaf (suc rounds) i s t e leaf =
      let rest = find_leaf rounds (i + 1) s t e leaf in
      internal (st.get s t e i) >>= λ l. if is_leaf l leaf then ok (some i) else rest

module _ (c : Crates) where
  -- The three checks before the store is read; `some` is the reply of a check that fails.
  unfoldable pub refuted : VerifyRequest → Option VerifyResponse
  refuted req =
      let leaf =
        compute_submission_leaf c req.student_uuid req.packet_hash req.answers_hash req.timestamp
          req.tenant_id req.exam_id in
      let signed : Option VerifyResponse =
        elim (Signing.verifying_key_from_bytes c req.edge_public_key) [
          | ok vk ↦ elim (c.ed_signature_from_slice req.edge_signature) [
            | none ↦ some (rejected "invalid signature bytes")
            | some sig ↦ elim (Signing.verify c vk req.merkle_leaf sig) [
              | ok _ ↦ none
              | _ ↦ some (rejected "edge signature verification failed")
            ]
          ]
          | _ ↦ some (rejected "invalid edge public key")
        ] in
      if not (beq leaf req.merkle_leaf) then some (rejected "submission leaf mismatch") else signed

module _ (c : Crates) {S : Type 0} (st : Store S) where
  -- The tree over the leaves that the store has in a namespace.
  unfoldable pub tree_of : ℕ → S → Bytes → Bytes → ApiResult MerkleTree
  unfolding collect
  tree_of total s t e = do
    leaves ← internal (collect st total 0 s t e)
    internal (Merkle.new c leaves)

  unfoldable pub handle_proof : ProofRequest → AppState S → ApiResult ProofResponse
  unfolding tree_of proof_parts
  handle_proof req s = do
    valid_space c req.tenant_id req.exam_id
    checked (validate_identifier c "receipt_id" req.receipt_id)
    total ← internal (st.count s.store req.tenant_id req.exam_id)
    let full = (do
      tree ← tree_of total s.store req.tenant_id req.exam_id
      (leaf, index, siblings) ← proof_parts tree (lookup req.receipt_id s.receipt_index)
      ok (record {
        merkle_leaf = leaf;
        leaf_index = index;
        total_leaves = total;
        siblings = siblings;
        root = some tree.root;
      }))
    if total == 0
        then ok (record {
          merkle_leaf = none;
          leaf_index = none;
          total_leaves = 0;
          siblings = [];
          root = none;
        })
        else full

  -- The stored root, or else the root over the leaves, or none where there are no leaves.
  unfoldable pub anchored_root_of : Option Bytes → S → Bytes → Bytes → ApiResult (Option Bytes)
  unfolding tree_of
  anchored_root_of (some root) s t e = ok (some root)
  anchored_root_of none s t e = do
    total ← internal (st.count s t e)
    let computed = (tree_of total s t e >>= λ tree. ok (some tree.root))
    if total == 0 then ok none else computed

  -- What `handle_verify` does once the signature has been checked.
  unfoldable pub verify_in_store : VerifyRequest → S → ApiResult VerifyResponse
  unfolding find_leaf anchored_root_of
  verify_in_store req s = do
    total ← internal (st.count s req.tenant_id req.exam_id)
    leaf_index ← find_leaf st total 0 s req.tenant_id req.exam_id req.merkle_leaf
    latest ← internal (st.latest_root s req.tenant_id req.exam_id)
    anchored_root ← anchored_root_of latest s req.tenant_id req.exam_id
    ok (record {
      valid = is_some leaf_index;
      reason = if is_some leaf_index then "verified" else "leaf not found in ledger";
      leaf_index = leaf_index;
      total_leaves = total;
      anchored_root = anchored_root;
    })

  unfoldable pub handle_verify : VerifyRequest → AppState S → ApiResult VerifyResponse
  unfolding refuted verify_in_store
  handle_verify req s = do
    valid_space c req.tenant_id req.exam_id
    elim (refuted c req) [ some reply ↦ ok reply | none ↦ verify_in_store req s.store ]

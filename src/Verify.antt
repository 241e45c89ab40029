-- ===== src/Verify.antt =====
-- oetp-core/src/verify.rs: the checks that anyone can make.
pub mod Chain
mod Tests
use oetp.Prelude.{ℕ, ◌-◌, ◌/◌, ◌%◌, not, any, Bytes, utf8, beq}
use oetp.Result.{invalid_input, anchor, io, Result, ok, ◌>>=◌, ◌>>◌, reject}
use oetp.Crates.{Crates}
use oetp.Hashing.{compute_submission_leaf}
use oetp.Merkle
use oetp.Merkle.{MerkleProof}
use oetp.Platform.{Anchor}
use oetp.Receipt.{StudentReceipt, verify_edge_signature, verify_ledger_signature}

unfoldable pub verify_answer_key_commitment : Bytes → Anchor → Result (Unit {0})
verify_answer_key_commitment answer_key_hash a = do
  reject (not (beq a.anchored_root answer_key_hash))
      (invalid_input "answer key hash does not match anchored root")
  ok tt

module _ (c : Crates) where
  unfoldable pub verify_packet_commitment : Bytes → MerkleProof → Bytes → Result (Unit {0})
  verify_packet_commitment packet_hash merkle_proof anchored_root = do
    reject (not (Merkle.verify c merkle_proof)) (invalid_input "Merkle proof verification failed")
    reject (not (beq merkle_proof.root anchored_root))
        (invalid_input "Merkle root does not match anchored root")
    reject (not (beq merkle_proof.leaf packet_hash))
        (invalid_input "proof leaf does not match packet hash")
    ok tt

  unfoldable pub verify_submission :
      Bytes → Bytes → Bytes → ℕ → Bytes → Bytes → Bytes → Result (Unit {0})
  verify_submission student_uuid packet_hash answers_hash timestamp merkle_leaf tenant_id exam_id =
      do
        let computed =
            compute_submission_leaf c student_uuid packet_hash answers_hash timestamp tenant_id
              exam_id
        reject (not (beq computed merkle_leaf)) (invalid_input "submission leaf mismatch")
        ok tt

  unfoldable pub verify_receipt : StudentReceipt → Bytes → Bytes → Result (Unit {0})
  verify_receipt receipt edge_public_key ledger_public_key = do
    verify_edge_signature c receipt edge_public_key
    verify_ledger_signature c receipt ledger_public_key
    ok tt

  unfoldable pub verify_full_chain :
      Bytes
      → Bytes
      → Bytes
      → ℕ
      → MerkleProof
      → Bytes
      → StudentReceipt
      → Bytes
      → Bytes
      → Result (Unit {0})
  verify_full_chain student_uuid packet_hash answers_hash timestamp merkle_proof anchored_root
        receipt edge_public_key ledger_public_key =
      do
        verify_packet_commitment packet_hash merkle_proof anchored_root
        let merkle_leaf =
            compute_submission_leaf c student_uuid packet_hash answers_hash timestamp (utf8 "nta")
              (utf8 "jee-2027")
        verify_submission student_uuid packet_hash answers_hash timestamp merkle_leaf (utf8 "nta")
            (utf8 "jee-2027")
        verify_receipt receipt edge_public_key ledger_public_key
        ok tt

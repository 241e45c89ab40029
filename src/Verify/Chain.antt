-- ===== src/Verify/Chain.antt =====
-- What `verify_full_chain` depends on (oetp-core/src/verify.rs).
use oetp.Prelude.{ℕ, ◌≡◌, refl, ◌↔◌, true, arith, Bytes, beq_refl, beq_iff}
use oetp.Result.{ok}
use oetp.Crates.{Crates}
use oetp.Hashing.{compute_submission_leaf}
use oetp.Merkle
use oetp.Merkle.{MerkleProof}
use oetp.Receipt.{StudentReceipt, verify_edge_signature, verify_ledger_signature}
use oetp.Verify.{verify_submission, verify_full_chain, verify_packet_commitment, verify_receipt}

module _ (c : Crates) where
  -- The leaf is computed from the very values that it is then compared with.
  verify_submission_self :
      (student_uuid packet_hash answers_hash : Bytes) (timestamp : ℕ) (tenant_id exam_id : Bytes)
      → verify_submission c student_uuid packet_hash answers_hash timestamp
          (compute_submission_leaf c student_uuid packet_hash answers_hash timestamp tenant_id
            exam_id)
          tenant_id
          exam_id
        ≡ ok tt
  unfolding verify_submission
  verify_submission_self s p a t n e = rw beq_refl refl

  -- The result of `verify_full_chain` is the same for every student, every answers hash and every
  -- timestamp: it is that of the packet's commitment followed by the receipt's two signatures.
  pub verify_full_chain-ignores :
      (s s' packet_hash a a' : Bytes) (t t' : ℕ) (proof : MerkleProof) (root : Bytes)
      (receipt : StudentReceipt) (edge ledger : Bytes)
      → verify_full_chain c s packet_hash a t proof root receipt edge ledger
        ≡ verify_full_chain c s' packet_hash a' t' proof root receipt edge ledger
  unfolding verify_full_chain
  verify_full_chain-ignores s s' p a a' t t' proof root receipt edge ledger =
      simp verify_submission_self

  -- `verify_full_chain` accepts exactly if the proof verifies, its root is the anchored root, its leaf
  -- is the packet's hash, and both signatures of the receipt verify.
  pub verify_full_chain_iff :
      (s packet_hash a : Bytes) (t : ℕ) (proof : MerkleProof) (root : Bytes)
      (receipt : StudentReceipt) (edge ledger : Bytes)
      → (verify_full_chain c s packet_hash a t proof root receipt edge ledger ≡ ok tt) ↔ (
          (Merkle.verify c proof ≡ true)
          × (proof.root ≡ root)
          × (proof.leaf ≡ packet_hash)
          × (verify_edge_signature c receipt edge ≡ ok tt)
          × (verify_ledger_signature c receipt ledger ≡ ok tt))
  unfolding verify_full_chain verify_packet_commitment verify_receipt
  verify_full_chain_iff s p a t proof root receipt edge ledger =
      rw verify_submission_self (ground (arith, beq_iff proof.root root, beq_iff proof.leaf p))

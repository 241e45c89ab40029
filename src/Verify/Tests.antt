-- ===== src/Verify/Tests.antt =====
-- The theorems on the chain of checks at a concrete proof and receipt.
use oetp.Prelude.{◌≡◌, ◌↔◌, true, [], ◌∷◌}
use oetp.Result.{ok}
use oetp.Crates.Toy.{toy}
use oetp.Merkle
use oetp.Merkle.{MerkleProof, hash_leaf, hash_pair}
use oetp.Receipt.{StudentReceipt, verify_edge_signature, verify_ledger_signature}
use oetp.Verify.{verify_full_chain}
use oetp.Verify.Chain.{verify_full_chain_iff}

abbrev proof : MerkleProof
proof = record {
  leaf_index = 0;
  leaf = 1 ∷ [];
  siblings = hash_leaf toy (2 ∷ []) ∷ [];
  root = hash_pair toy (hash_leaf toy (1 ∷ [])) (hash_leaf toy (2 ∷ []));
}

abbrev receipt : StudentReceipt
receipt = record {
  receipt_id = b'r' ∷ [];
  tenant_id = b't' ∷ [];
  exam_id = b'e' ∷ [];
  application_number = b'a' ∷ [];
  student_uuid = 1 ∷ [];
  packet_hash = 1 ∷ [];
  answers_hash = 4 ∷ [];
  timestamp = 10;
  merkle_proof = proof;
  edge_signature = 7 ∷ [];
  ledger_signature = 7 ∷ [];
  qr_payload = [];
}

verify_full_chain_iff_example :
    (verify_full_chain toy (1 ∷ []) (1 ∷ []) (4 ∷ []) 10 proof proof.root receipt (5 ∷ []) (6 ∷ [])
      ≡ ok tt)
    ↔ ((Merkle.verify toy proof ≡ true)
        × (proof.root ≡ proof.root)
        × (proof.leaf ≡ 1 ∷ [])
        × (verify_edge_signature toy receipt (5 ∷ []) ≡ ok tt)
        × (verify_ledger_signature toy receipt (6 ∷ []) ≡ ok tt))
verify_full_chain_iff_example =
    verify_full_chain_iff toy (1 ∷ []) (1 ∷ []) (4 ∷ []) 10 proof proof.root receipt (5 ∷ [])
      (6 ∷ [])

-- ===== src/Receipt.antt =====
-- oetp-core/src/receipt.rs: the receipt that a student gets, and the student's own encrypted copy
-- of the answers.
pub mod Copies
mod Tests
use oetp.Prelude.{ℕ, not, [], ◌∷◌, ◌++◌, Bytes, beq, be_bytes}
use oetp.Result.{
  crypto, signature_verification, packet_decryption, Result, ok, ◌>>=◌, ◌>>◌, reject, ok_or,
}
use oetp.Crates.{Crates}
use oetp.Merkle.{MerkleProof}
use oetp.Signing

pub record StudentReceipt : Type 0 where
  pub receipt_id : Bytes
  pub tenant_id : Bytes
  pub exam_id : Bytes
  pub application_number : Bytes
  pub student_uuid : Bytes
  pub packet_hash : Bytes
  pub answers_hash : Bytes
  pub timestamp : ℕ
  pub merkle_proof : MerkleProof
  pub edge_signature : Bytes
  pub ledger_signature : Bytes
  pub qr_payload : Bytes

pub record PersonalAnswerCopy : Type 0 where
  pub receipt_id : Bytes
  pub encrypted_answers : Bytes
  pub nonce : Bytes
  pub answers_hash : Bytes

module _ (c : Crates) where
  open c use {sha3, aes_encrypt, aes_decrypt, aes_error, uuid_to_bytes_le, ed_signature_from_slice}
  open c use {hex_encode}

  unfoldable pub verification_payload : StudentReceipt → Bytes
  verification_payload r =
      1
      ∷ (r.receipt_id
          ++ (r.tenant_id
              ++ (r.exam_id
                  ++ (r.application_number
                      ++ (uuid_to_bytes_le r.student_uuid
                          ++ (r.packet_hash
                              ++ (r.answers_hash
                                  ++ (be_bytes 8 r.timestamp
                                      ++ (r.merkle_proof.root
                                          ++ (r.merkle_proof.leaf
                                              ++ (be_bytes 8 r.merkle_proof.leaf_index
                                                  ++ r.qr_payload)))))))))))

  unfoldable pub verify_edge_signature : StudentReceipt → Bytes → Result (Unit {0})
  unfolding Signing.verify
  verify_edge_signature r edge_verifying_key = do
    sig ← ok_or (ed_signature_from_slice r.edge_signature) signature_verification
    Signing.verify c edge_verifying_key (verification_payload r) sig

  unfoldable pub verify_ledger_signature : StudentReceipt → Bytes → Result (Unit {0})
  unfolding Signing.verify
  verify_ledger_signature r ledger_verifying_key = do
    sig ← ok_or (ed_signature_from_slice r.ledger_signature) signature_verification
    Signing.verify c ledger_verifying_key (verification_payload r) sig

  -- From the 16 bytes that `OsRng` draws.
  unfoldable pub generate_receipt_id : Bytes → Bytes
  generate_receipt_id drawn = hex_encode drawn

  -- The nonce is the one that `OsRng` draws.
  unfoldable pub create_personal_answer_copy :
      Bytes → Bytes → Bytes → Bytes → Result PersonalAnswerCopy
  create_personal_answer_copy receipt_id raw_answers student_key nonce = do
    encrypted ← ok_or (aes_encrypt student_key nonce [] raw_answers) (crypto aes_error)
    ok (record {
      receipt_id = receipt_id;
      encrypted_answers = encrypted;
      nonce = nonce;
      answers_hash = sha3 raw_answers;
    })

  unfoldable pub decrypt_personal_answer_copy : PersonalAnswerCopy → Bytes → Result Bytes
  decrypt_personal_answer_copy copy student_key = do
    plaintext ←
        ok_or (aes_decrypt student_key copy.nonce [] copy.encrypted_answers) packet_decryption
    reject (not (beq (sha3 plaintext) copy.answers_hash)) packet_decryption
    ok plaintext

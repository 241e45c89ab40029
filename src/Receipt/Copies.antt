-- ===== src/Receipt/Copies.antt =====
-- The student's own copy of the answers (oetp-core/src/receipt.rs), made and decrypted.
use oetp.Prelude.{beq_refl, inr, arith, inl, [], Option-cases, ◌≡◌, Bytes}
use oetp.Result.{ok}
use oetp.Crates.{Crates, AesLaw}
use oetp.Receipt.{PersonalAnswerCopy, create_personal_answer_copy, decrypt_personal_answer_copy}

module _ (c : Crates) where
  -- A copy that was made under a key decrypts under it to the answers, and holds their hash and the
  -- receipt's id.
  pub decrypt-create :
      (receipt_id raw_answers student_key nonce : Bytes) {copy : PersonalAnswerCopy}
      → AesLaw c
      → create_personal_answer_copy c receipt_id raw_answers student_key nonce ≡ ok copy
      → (decrypt_personal_answer_copy c copy student_key ≡ ok raw_answers)
        × (copy.receipt_id ≡ receipt_id)
        × (copy.answers_hash ≡ c.sha3 raw_answers)
  unfolding create_personal_answer_copy decrypt_personal_answer_copy
  decrypt-create receipt_id raw_answers student_key nonce {copy} aes h =
      elim (Option-cases (c.aes_encrypt student_key nonce [] raw_answers)) [
        | inl failed ↦ absurd (ground arith)
        | inr (ct, sealed) ↦
            let back = aes.decrypt_encrypt student_key nonce [] raw_answers ct sealed in
            ground (arith, beq_refl (c.sha3 raw_answers))
      ]

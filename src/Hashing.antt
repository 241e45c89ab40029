-- ===== src/Hashing.antt =====
-- oetp-core/src/hashing.rs: keys, seeds and leaf hashes, each from its inputs in a fixed order.
use oetp.Prelude.{ℕ, none, some, List, ◌++◌, Bytes, utf8, be_bytes}
use oetp.Crates.{Crates}

-- `BTreeMap<String, String>`: the entries in the order of their keys.
abbrev pub Answers : Type 0
Answers = List (Bytes × Bytes)

abbrev colon : Bytes
colon = utf8 ":"

module _ (c : Crates) where
  open c use {sha3, hkdf, argon2id, uuid_to_bytes_le, json_answers}

  unfoldable pub derive_exam_master_key : Bytes → Bytes → Bytes
  derive_exam_master_key tenant_master_key exam_id =
      let okm = hkdf none tenant_master_key (utf8 "oetp-exam-master") in
      hkdf (some okm) exam_id (utf8 "oetp-exam-key")

  unfoldable pub derive_variant_seed : Bytes → Bytes → Bytes → Bytes
  derive_variant_seed tenant_secret student_uuid exam_id =
      hkdf (some (utf8 "oetp-variant-seed")) tenant_secret
        (utf8 "variant:" ++ (uuid_to_bytes_le student_uuid ++ (colon ++ exam_id)))

  unfoldable pub derive_ephemeral_key : Bytes → Bytes → Bytes
  derive_ephemeral_key exam_master_key variant_seed =
      hkdf (some (utf8 "oetp-packet-key")) exam_master_key variant_seed

  -- All that `compute_answers_hash` feeds to the hasher.
  unfoldable pub answers_input : Bytes → Answers → Bytes → Bytes → ℕ → Bytes → Bytes → Bytes
  answers_input packet_hash raw_answers student_uuid variant_seed timestamp tenant_id exam_id =
      utf8 "oetp-answers-v1"
      ++ (packet_hash
          ++ (json_answers raw_answers
              ++ (uuid_to_bytes_le student_uuid
                  ++ (variant_seed ++ (be_bytes 8 timestamp ++ (tenant_id ++ exam_id))))))

  unfoldable pub compute_answers_hash : Bytes → Answers → Bytes → Bytes → ℕ → Bytes → Bytes → Bytes
  unfolding answers_input
  compute_answers_hash packet_hash raw_answers student_uuid variant_seed timestamp tenant_id
        exam_id =
      sha3 (
        answers_input packet_hash raw_answers student_uuid variant_seed timestamp tenant_id exam_id)

  -- All that `compute_submission_leaf` feeds to the hasher.
  unfoldable pub submission_input : Bytes → Bytes → Bytes → ℕ → Bytes → Bytes → Bytes
  submission_input student_uuid packet_hash answers_hash timestamp tenant_id exam_id =
      utf8 "oetp-submission-leaf-v1"
      ++ (uuid_to_bytes_le student_uuid
          ++ (packet_hash ++ (answers_hash ++ (be_bytes 8 timestamp ++ (tenant_id ++ exam_id)))))

  unfoldable pub compute_submission_leaf : Bytes → Bytes → Bytes → ℕ → Bytes → Bytes → Bytes
  unfolding submission_input
  compute_submission_leaf student_uuid packet_hash answers_hash timestamp tenant_id exam_id =
      sha3 (submission_input student_uuid packet_hash answers_hash timestamp tenant_id exam_id)

  unfoldable pub derive_student_answer_key : Bytes → Bytes → Bytes → Bytes → Bytes → Bytes → Bytes
  derive_student_answer_key application_number dob exam_salt server_pepper tenant_id exam_id =
      let salt_input =
        application_number ++ (colon ++ (dob ++ (colon ++ (tenant_id ++ (colon ++ exam_id))))) in
      let salt = hkdf (some exam_salt) salt_input (utf8 "argon2-salt") in
      argon2id server_pepper salt

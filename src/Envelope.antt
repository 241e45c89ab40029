-- ===== src/Envelope.antt =====
-- oetp-core/src/envelope.rs: a packet key sealed to one device, student and exam.
pub mod RoundTrip
pub mod Binding
mod Tests
use oetp.Prelude.{
  ℕ, ◌%◌, not, some, ◌∷◌, ◌++◌, ◌==◌, if◌then◌else◌, length, Bytes, utf8, beq, be_bytes,
}
use oetp.Result.{
  crypto, invalid_input, packet_decryption, Result, ok, panic, ◌>>=◌, ◌>>◌, reject, ok_or,
}
use oetp.Crates.{Crates}
use oetp.Device.{zeros}

pub record KeyEnvelope : Type 0 where
  pub version : ℕ
  pub device_id : Bytes
  pub student_uuid : Bytes
  pub exam_id : Bytes
  pub sender_public_key : Bytes
  pub encrypted_ephemeral_key : Bytes
  pub nonce : Bytes

abbrev colon : Bytes
colon = utf8 ":"

-- `x.len() as u16`, in big-endian order
abbrev pub u16_length : Bytes → Bytes
u16_length x = be_bytes 2 (length x % 65536)

module _ (c : Crates) where
  open c use {hkdf, aes_encrypt, aes_decrypt, aes_error, x25519_public, x25519_dh, uuid_to_bytes_le}
  open c use {uuid_to_string}

  unfoldable pub derive_envelope_key : Bytes → Bytes → Bytes → Bytes → Bytes
  derive_envelope_key shared_secret device_id student_uuid exam_id =
      hkdf (some (utf8 "oetp-envelope-key")) shared_secret
        (device_id ++ (colon ++ (uuid_to_string student_uuid ++ (colon ++ exam_id))))

  unfoldable pub build_canonical_aad : Bytes → Bytes → Bytes → Bytes
  build_canonical_aad device_id student_uuid exam_id =
      1
      ∷ (u16_length device_id
          ++ (device_id ++ (uuid_to_bytes_le student_uuid ++ (u16_length exam_id ++ exam_id))))

  -- The ephemeral secret and the nonce are those that `OsRng` draws.
  unfoldable pub seal_key_to_device :
      Bytes → Bytes → Bytes → Bytes → Bytes → Bytes → Bytes → Result KeyEnvelope
  unfolding derive_envelope_key build_canonical_aad
  seal_key_to_device packet_key device_public_key device_id student_uuid exam_id sender_secret
        nonce =
      do
        reject (beq device_public_key (zeros 32)) (invalid_input "device public key is all-zero")
        let shared = x25519_dh sender_secret device_public_key
        let envelope_key = derive_envelope_key shared device_id student_uuid exam_id
        let aad = build_canonical_aad device_id student_uuid exam_id
        encrypted ← ok_or (aes_encrypt envelope_key nonce aad packet_key) (crypto aes_error)
        ok (record {
          version = 1;
          device_id = device_id;
          student_uuid = student_uuid;
          exam_id = exam_id;
          sender_public_key = x25519_public sender_secret;
          encrypted_ephemeral_key = encrypted;
          nonce = nonce;
        })

  -- `key.copy_from_slice(&plaintext)` panics unless there are 32 bytes.
  abbrev pub copy_key : Bytes → Result Bytes
  copy_key plaintext = if length plaintext == 32 then ok plaintext else panic

  unfoldable pub open_key_envelope : KeyEnvelope → Bytes → Bytes → Bytes → Bytes → Result Bytes
  unfolding derive_envelope_key build_canonical_aad
  open_key_envelope envelope device_secret_key expected_device_id expected_student_uuid
        expected_exam_id =
      do
        reject (not (beq envelope.device_id expected_device_id)) packet_decryption
        reject (not (beq envelope.student_uuid expected_student_uuid)) packet_decryption
        reject (not (beq envelope.exam_id expected_exam_id)) packet_decryption
        let shared = x25519_dh device_secret_key envelope.sender_public_key
        let envelope_key =
            derive_envelope_key shared envelope.device_id envelope.student_uuid envelope.exam_id
        let aad = build_canonical_aad envelope.device_id envelope.student_uuid envelope.exam_id
        plaintext ←
            ok_or (aes_decrypt envelope_key envelope.nonce aad envelope.encrypted_ephemeral_key)
              packet_decryption
        copy_key plaintext

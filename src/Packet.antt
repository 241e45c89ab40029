-- ===== src/Packet.antt =====
-- oetp-core/src/packet.rs: a student's exam, encrypted under a key of its own.
pub mod RoundTrip
pub mod Toy
mod Tests
use oetp.Prelude.{ℕ, not, List, [], Bytes, beq}
use oetp.Result.{packet_decryption, serialization, Result, ok, ◌>>=◌, ◌>>◌, reject, ok_or}
use oetp.Crates.{Crates, Codec}

pub record PacketQuestion : Type 0 where
  pub bank_item_id : ℕ
  pub variant_id : ℕ
  pub stem : Bytes
  pub options : List Bytes
  pub question_ref : Bytes

pub record ExamPacket : Type 0 where
  pub tenant_id : Bytes
  pub student_uuid : Bytes
  pub exam_id : Bytes
  pub variant_seed : Bytes
  pub questions : List PacketQuestion

pub record EncryptedPacket : Type 0 where
  pub tenant_id : Bytes
  pub student_uuid : Bytes
  pub exam_id : Bytes
  pub ciphertext : Bytes
  pub nonce : Bytes
  pub packet_hash : Bytes

module _ (c : Crates) (bincode : Codec ExamPacket) where
  open c use {sha3, aes_encrypt, aes_decrypt}

  -- The nonce is the one that `OsRng` draws. There is no associated data.
  unfoldable pub encrypt_packet : ExamPacket → Bytes → Bytes → Result EncryptedPacket
  encrypt_packet packet key nonce = do
    plaintext ← ok_or (bincode.serialize packet) (serialization bincode.codec_error)
    ciphertext ← ok_or (aes_encrypt key nonce [] plaintext) packet_decryption
    ok (record {
      tenant_id = packet.tenant_id;
      student_uuid = packet.student_uuid;
      exam_id = packet.exam_id;
      ciphertext = ciphertext;
      nonce = nonce;
      packet_hash = sha3 ciphertext;
    })

  unfoldable pub decrypt_packet : EncryptedPacket → Bytes → Result ExamPacket
  decrypt_packet encrypted key = do
    plaintext ← ok_or (aes_decrypt key encrypted.nonce [] encrypted.ciphertext) packet_decryption
    packet ← ok_or (bincode.deserialize plaintext) (serialization bincode.codec_error)
    reject (not (beq (sha3 encrypted.ciphertext) encrypted.packet_hash)) packet_decryption
    ok packet

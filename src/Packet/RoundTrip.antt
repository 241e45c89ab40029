-- ===== src/Packet/RoundTrip.antt =====
-- Encryption and decryption of packets (oetp-core/src/packet.rs), one after the other.
use oetp.Prelude.{beq_iff, beq_refl, inr, arith, inl, Option-cases, ◌≡◌, some, [], Bytes}
use oetp.Result.{ok}
use oetp.Crates.{Crates, AesLaw, Codec, CodecLaw}
use oetp.Packet.{ExamPacket, EncryptedPacket, encrypt_packet, decrypt_packet}

module _ (c : Crates) (bincode : Codec ExamPacket) where
  -- What `encrypt_packet` returns decrypts under the same key to the packet.
  pub decrypt-encrypt :
      (p : ExamPacket) (key nonce : Bytes) {e : EncryptedPacket}
      → AesLaw c
      → CodecLaw bincode
      → encrypt_packet c bincode p key nonce ≡ ok e
      → decrypt_packet c bincode e key ≡ ok p
  unfolding encrypt_packet decrypt_packet
  decrypt-encrypt p key nonce {e} aes codec h = elim (Option-cases (bincode.serialize p)) [
    | inl failed ↦ absurd (ground arith)
    | inr (b, coded) ↦ elim (Option-cases (c.aes_encrypt key nonce [] b)) [
      | inl failed ↦ absurd (ground arith)
      | inr (ct, sealed) ↦
          let back = aes.decrypt_encrypt key nonce [] b ct sealed in
          let parsed = codec.deserialize_serialize p b coded in ground (arith, beq_refl (c.sha3 ct))
    ]
  ]

  -- A packet decrypts only if its hash is that of its ciphertext, and the ciphertext decrypts to the
  -- serialized packet.
  pub decrypt_packet-eq-ok :
      (e : EncryptedPacket) (key : Bytes) (p : ExamPacket)
      → decrypt_packet c bincode e key ≡ ok p
      → (c.sha3 e.ciphertext ≡ e.packet_hash)
        × ((plain : Bytes) × (c.aes_decrypt key e.nonce [] e.ciphertext ≡ some plain)
            × (bincode.deserialize plain ≡ some p))
  unfolding decrypt_packet
  decrypt_packet-eq-ok e key p h = elim (Option-cases (c.aes_decrypt key e.nonce [] e.ciphertext)) [
    | inl failed ↦ absurd (ground arith)
    | inr (plain, opened) ↦
        (ground (arith, beq_iff (c.sha3 e.ciphertext) e.packet_hash), (plain, opened, ground arith))
  ]

-- ===== src/Envelope/RoundTrip.antt =====
-- Sealing and opening (oetp-core/src/envelope.rs), one after the other.
use oetp.Prelude.{inr, arith, inl, ◌∙◌, Option-cases, ◌≡◌, refl, length, Bytes, beq_refl}
use oetp.Result.{packet_decryption, ok, ◌>>=◌, ok_or}
use oetp.Crates.{Crates, AesLaw, DhLaw}
use mathlib.Core.Path.{subst}
use oetp.Envelope.{
  some, KeyEnvelope, derive_envelope_key, build_canonical_aad, copy_key, seal_key_to_device,
  open_key_envelope,
}

module _ (c : Crates) where
  -- Opening an envelope under the identity that it names.
  open-same :
      (e : KeyEnvelope) (secret : Bytes)
      → open_key_envelope c e secret e.device_id e.student_uuid e.exam_id ≡ (
          ok_or
            (c.aes_decrypt
              (derive_envelope_key c
                (c.x25519_dh secret e.sender_public_key)
                e.device_id
                e.student_uuid
                e.exam_id)
              e.nonce
              (build_canonical_aad c e.device_id e.student_uuid e.exam_id)
              e.encrypted_ephemeral_key)
            packet_decryption
          >>= copy_key c)
  unfolding open_key_envelope
  open-same e secret = simp beq_refl

  -- Whatever the ciphertext, if it is the sealed key's it opens to the key.
  sealed-open :
      (packet_key device_secret device_id student_uuid exam_id sender_secret nonce ct : Bytes)
      → AesLaw c
      → DhLaw c
      → length packet_key ≡ 32
      → c.aes_encrypt
          (derive_envelope_key c
            (c.x25519_dh sender_secret (c.x25519_public device_secret))
            device_id
            student_uuid
            exam_id)
          nonce
          (build_canonical_aad c device_id student_uuid exam_id)
          packet_key
        ≡ some ct
      → open_key_envelope c
          (record {
            version = 1;
            device_id = device_id;
            student_uuid = student_uuid;
            exam_id = exam_id;
            sender_public_key = c.x25519_public sender_secret;
            encrypted_ephemeral_key = ct;
            nonce = nonce;
          })
          device_secret
          device_id
          student_uuid
          exam_id
        ≡ ok packet_key
  sealed-open packet_key device_secret device_id student_uuid exam_id sender_secret nonce ct aes dh
        size h =
      let plain = aes.decrypt_encrypt _ _ _ _ _ h in
      open-same _ device_secret
      ∙ rw (dh.dh_comm device_secret sender_secret) (rw plain (rw size refl))

  -- What `seal_key_to_device` returns, opened with the device's secret under the same identity, is
  -- the 32-byte key that was sealed.
  pub seal-open :
      (packet_key device_secret device_id student_uuid exam_id sender_secret nonce : Bytes)
      {e : KeyEnvelope}
      → AesLaw c
      → DhLaw c
      → length packet_key ≡ 32
      → seal_key_to_device c packet_key
          (c.x25519_public device_secret)
          device_id
          student_uuid
          exam_id
          sender_secret
          nonce
        ≡ ok e
      → open_key_envelope c e device_secret device_id student_uuid exam_id ≡ ok packet_key
  unfolding seal_key_to_device
  seal-open packet_key device_secret device_id student_uuid exam_id sender_secret nonce {e} aes dh
        size h =
      let key =
        derive_envelope_key c (c.x25519_dh sender_secret (c.x25519_public device_secret)) device_id
          student_uuid exam_id in
      let aad = build_canonical_aad c device_id student_uuid exam_id in
      elim (Option-cases (c.aes_encrypt key nonce aad packet_key)) [
        | inl failed ↦ absurd (ground arith)
        | inr (ct, done) ↦
            let opens =
              sealed-open packet_key device_secret device_id student_uuid exam_id sender_secret
                nonce ct aes dh size done in
            subst
              (λ e.
                open_key_envelope c e device_secret device_id student_uuid exam_id ≡ ok packet_key)
              (ground arith) opens
      ]

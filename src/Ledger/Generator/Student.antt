-- ===== src/Ledger/Generator/Student.antt =====
-- What the generator (oetp-ledger/src/generator.rs) makes for a student, on the student's device
-- (oetp-edge/src/api.rs).
use oetp.Prelude.{
  ◌≡◌, refl, ap, inl, inr, true, Option, some, [], ◌∷◌, ◌++◌, Option-cases, length, Bytes, beq,
  beq_refl, lookup,
}
use oetp.Result.{ok-injective, err-ne-ok, ok, ok_or}
use oetp.Crates.{Crates, AesLaw, DhLaw, HkdfLaw, CodecLaw}
use oetp.Hashing.{derive_variant_seed, derive_ephemeral_key}
use oetp.Packet.{ExamPacket, encrypt_packet, decrypt_packet}
use oetp.Envelope.{seal_key_to_device, open_key_envelope}
use oetp.QuestionBank.{QuestionBank, Float, Rng, DifficultyRatio, select_questions}
use oetp.Env.Read.{first_step}
use oetp.Ledger.Generator.{
  GeneratorConfig, Formats, Drawn, Generated, packet_questions, device_key_of, file_name,
  generate_student,
}
use oetp.Packet.RoundTrip.{decrypt-encrypt}
use oetp.Envelope.RoundTrip.{seal-open}
use oetp.Api.{Headers, check_api_key}
use oetp.Edge.State.{AppState, CachedExamData}
use oetp.Edge.Api.{handle_unlock, put_entry, has_token}

ok_or-eq-ok : {E A : Type 0} (o : Option A) (e : E) {a : A} → ok_or o e ≡ ok a → o ≡ some a
ok_or-eq-ok o e h = elim (Option-cases o) [
  | inl missing ↦ absurd (err-ne-ok (rw missing at h))
  | inr (b, there) ↦ rw there (ap some (ok-injective (rw there at h)))
]

module _ (c : Crates) (formats : Formats) {F : Type 0} (f : Float F) {R : Type 0} (rand : Rng R)
    (from_seed : Bytes → R) (cfg : GeneratorConfig) (bank : QuestionBank)
    (ratio : DifficultyRatio F) (exam_master_key : Bytes) (drawn : Drawn)
    (student_uuid device_id : Bytes) where
  abbrev pub variant_seed : Bytes
  variant_seed = derive_variant_seed c cfg.tenant_master_key student_uuid cfg.exam_id

  abbrev pub packet_key : Bytes
  packet_key = derive_ephemeral_key c exam_master_key variant_seed

  abbrev pub packet : Generated → ExamPacket
  packet g = record {
    tenant_id = cfg.tenant_id;
    student_uuid = student_uuid;
    exam_id = cfg.exam_id;
    variant_seed = variant_seed;
    questions = g.questions;
  }

  abbrev pub packet_file : Bytes
  packet_file = file_name c formats f rand from_seed cfg "packet_" student_uuid ".enc"

  abbrev pub envelope_file : Bytes
  envelope_file = file_name c formats f rand from_seed cfg "envelope_" student_uuid ".enc"

  pub generate_student-eq-ok :
      {g : Generated}
      → generate_student c formats f rand from_seed cfg bank ratio exam_master_key drawn
          (student_uuid, device_id)
        ≡ ok g
      → (encrypt_packet c formats.packet (packet g) packet_key drawn.packet_nonce ≡ ok g.encrypted)
        × (seal_key_to_device c packet_key
              (device_key_of c formats f rand from_seed cfg student_uuid device_id
                drawn.device_secret).0
              device_id
              student_uuid
              cfg.exam_id
              drawn.sender_secret
              drawn.envelope_nonce
            ≡ ok g.envelope)
        × (packet_json : Bytes) × (formats.encrypted.serialize g.encrypted ≡ some packet_json)
        × (envelope_json : Bytes) × (formats.envelope.serialize g.envelope ≡ some envelope_json)
        × (g.files
            ≡ (device_key_of c formats f rand from_seed cfg student_uuid device_id
                drawn.device_secret).1
              ++ ((packet_file, packet_json) ∷ (envelope_file, envelope_json) ∷ []))
        × (g.manifest_entry ≡ record {
          student_uuid = student_uuid;
          packet_hash = g.encrypted.packet_hash;
          variant_seed = variant_seed;
          device_id = device_id;
        })
  unfolding generate_student
  generate_student-eq-ok {g} h =
      let (selected, _, h₁) =
        first_step (select_questions f rand bank cfg.num_questions ratio (from_seed variant_seed))
          h in
      let (questions, q, h₂) =
        first_step (packet_questions rand from_seed variant_seed 0 selected.0) h₁ in
      let (encrypted, e, h₃) =
        first_step (encrypt_packet c formats.packet _ packet_key drawn.packet_nonce) h₂ in
      let (envelope, s, h₄) =
        first_step
          (seal_key_to_device c packet_key _ device_id student_uuid cfg.exam_id drawn.sender_secret
            drawn.envelope_nonce)
          h₃ in
      let (packet_json, p, h₅) = first_step (ok_or (formats.encrypted.serialize encrypted) _) h₄ in
      let (envelope_json, v, h₆) = first_step (ok_or (formats.envelope.serialize envelope) _) h₅ in
      rw (← ok-injective h₆)
        (e, s, packet_json, ok_or-eq-ok _ _ p, envelope_json, ok_or-eq-ok _ _ v, refl, refl)

  -- What is generated for a student opens on the student's device: where the generator was given the
  -- device's public key, the daemon has that device's secret, the device's name and the same tenant and
  -- exam, and its cache has the packet and the envelope with a token, unlock replies with the questions
  -- that were generated, and the entry then has the student's variant seed.
  pub generate_student-unlock :
      AesLaw c
      → DhLaw c
      → HkdfLaw c
      → CodecLaw formats.packet
      → {g : Generated}
      → generate_student c formats f rand from_seed cfg bank ratio exam_master_key drawn
          (student_uuid, device_id)
        ≡ ok g
      → (headers : Headers) (s : AppState) (entry : CachedExamData)
      → cfg.device_x25519_public_key ≡ some (c.x25519_public s.device_x25519_key.private_key)
      → s.config.device_id ≡ device_id
      → s.config.tenant_id ≡ cfg.tenant_id
      → s.config.exam_id ≡ cfg.exam_id
      → check_api_key s.config.api_key headers ≡ ok tt
      → lookup (c.uuid_to_string student_uuid) s.cache ≡ some entry
      → entry.encrypted_packet ≡ g.encrypted
      → entry.key_envelope ≡ g.envelope
      → has_token c entry.release_token ≡ true
      → handle_unlock c formats.packet headers student_uuid s ≡ (
        ok g.questions,
        put_entry
            (c.uuid_to_string student_uuid)
            (record entry { variant_seed = some variant_seed })
            s,
      )
  unfolding handle_unlock derive_ephemeral_key
  generate_student-unlock aes dh hkdf codec {g} h headers s entry pk device tenant exam key cached
        same_packet same_envelope token =
      let (sealed_packet, sealed_key, _, _, _, _, _, _) = generate_student-eq-ok h in
      let size : length packet_key ≡ 32 = hkdf.length-hkdf _ _ _ in
      let opened : open_key_envelope c entry.key_envelope s.device_x25519_key.private_key
            s.config.device_id student_uuid s.config.exam_id
          ≡ ok packet_key =
        rw same_envelope (
          rw device (
            rw exam (
              seal-open c packet_key s.device_x25519_key.private_key device_id student_uuid
                cfg.exam_id drawn.sender_secret drawn.envelope_nonce aes dh size
                (rw pk at sealed_key)))) in
      let plain : decrypt_packet c formats.packet entry.encrypted_packet packet_key
          ≡ ok (packet g) =
        rw same_packet (
          decrypt-encrypt c formats.packet (packet g) packet_key drawn.packet_nonce aes codec
            sealed_packet) in
      let same_tenant : beq cfg.tenant_id s.config.tenant_id ≡ true =
        rw tenant (beq_refl cfg.tenant_id) in
      let same_exam : beq cfg.exam_id s.config.exam_id ≡ true = rw exam (beq_refl cfg.exam_id) in
      rw key (rw cached (rw token (rw opened (rw plain (rw same_tenant (rw same_exam refl))))))

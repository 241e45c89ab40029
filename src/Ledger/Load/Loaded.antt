-- ===== src/Ledger/Load/Loaded.antt =====
-- What the ledger's command `Load` (oetp-ledger/src/main.rs) sends of what its generator wrote.
use oetp.Prelude.{
  ◌≡◌, refl, ap, ◌∙◌, inl, inr, Option, none, some, List, [], ◌∷◌, ◌++◌, map, arith, Bool-cases,
  Option-cases, length, length-append, Bytes, utf8, beq, beq_refl, beq_sound, lookup,
}
use oetp.Result.{ok, err}
use oetp.Crates.{Crates, Codec, CodecLaw}
use oetp.Packet.{EncryptedPacket}
use oetp.Envelope.{KeyEnvelope}
use oetp.QuestionBank.{QuestionBank, Float, Rng, DifficultyRatio}
use oetp.Api.{check_api_key}
use oetp.Validation.{validate_identifier}
use oetp.Platform.{Store}
use oetp.Ledger.Config.{LedgerConfig}
use oetp.Ledger.Requests.{AppState, LoadPacketsRequest}
use oetp.Ledger.Api.{handle_load_packets, handle_fetch_packet}
use oetp.Ledger.Guarded.{load-fetch}
use oetp.Ledger.Generator.{GeneratorConfig, Formats, Drawn, Generated, generate_student}
use oetp.Ledger.Generator.Student.{generate_student-eq-ok}
use oetp.Ledger.Load.{List, strip_prefix, strip_suffix, load_request, load_requests, send_if_ok}

-- A suffix is found where it was appended.
strip_suffix-append : (pat x : Bytes) → strip_suffix pat (x ++ pat) ≡ some x
unfolding strip_suffix beq
strip_suffix-append [] [] = refl
strip_suffix-append (p ∷ pat) [] = rw (beq_refl (p ∷ pat)) refl
strip_suffix-append pat (b ∷ x) = elim (Bool-cases (beq (b ∷ (x ++ pat)) pat)) [
  | inl same ↦
      let e : length (b ∷ (x ++ pat)) ≡ length pat =
        ap length (beq_sound (b ∷ (x ++ pat)) pat same) in
      absurd (omega (arith, e, length-append x pat))
  | inr other ↦ rw other (rw (strip_suffix-append pat x) refl)
]

-- The request for a student's packet and envelope.
abbrev pub load_of :
    Crates → LedgerConfig → Bytes → EncryptedPacket → KeyEnvelope → LoadPacketsRequest
load_of c cfg student_uuid packet sealed = record {
  key = cfg.tenant_id ++ (b':' ∷ (cfg.exam_id ++ (b':' ∷ c.uuid_to_string student_uuid)));
  encrypted_packet = packet;
  key_envelope = sealed;
}

module _ (c : Crates) (encrypted : Codec EncryptedPacket) (envelope : Codec KeyEnvelope)
    (parse_str : Bytes → Option Bytes) (cfg : LedgerConfig)
    (read_to_string : Bytes → Option Bytes) where
  load_packet :
      (student_uuid : Bytes) {packet_json envelope_json : Bytes} {packet : EncryptedPacket}
      {sealed : KeyEnvelope}
      → parse_str (c.uuid_to_string student_uuid) ≡ some student_uuid
      → read_to_string (utf8 "packet_" ++ (c.uuid_to_string student_uuid ++ utf8 ".enc"))
        ≡ some packet_json
      → encrypted.deserialize packet_json ≡ some packet
      → read_to_string (utf8 "envelope_" ++ (c.uuid_to_string student_uuid ++ utf8 ".enc"))
        ≡ some envelope_json
      → envelope.deserialize envelope_json ≡ some sealed
      → load_request c encrypted envelope parse_str cfg read_to_string
          (utf8 "packet_" ++ (c.uuid_to_string student_uuid ++ utf8 ".enc"))
        ≡ ok (load_of c cfg student_uuid packet sealed)
  unfolding load_request strip_prefix utf8
  load_packet student_uuid parsed there p also e =
      rw (strip_suffix-append (utf8 ".enc") (utf8 "packet_" ++ c.uuid_to_string student_uuid)) (
        rw (strip_suffix-append (utf8 ".enc") (c.uuid_to_string student_uuid))
          (rw parsed (rw there (rw p (rw also (rw e refl))))))

  keep :
      (name : Bytes) (names : List (Option Bytes)) {load : LoadPacketsRequest}
      → load_request c encrypted envelope parse_str cfg read_to_string name ≡ ok load
      → load_requests c encrypted envelope parse_str cfg read_to_string (some name ∷ names)
        ≡ load ∷ load_requests c encrypted envelope parse_str cfg read_to_string names
  unfolding load_requests
  keep name names h =
      ap (λ r. send_if_ok r (load_requests c encrypted envelope parse_str cfg read_to_string names))
        h

  skip :
      (name : Bytes) (names : List (Option Bytes))
      → load_request c encrypted envelope parse_str cfg read_to_string name ≡ err tt
      → load_requests c encrypted envelope parse_str cfg read_to_string (some name ∷ names)
        ≡ load_requests c encrypted envelope parse_str cfg read_to_string names
  unfolding load_requests
  skip name names h =
      ap (λ r. send_if_ok r (load_requests c encrypted envelope parse_str cfg read_to_string names))
        h

  skip_envelope :
      (x : Bytes)
      → load_request c encrypted envelope parse_str cfg read_to_string (utf8 "envelope_" ++ x)
        ≡ err tt
  unfolding load_request strip_prefix utf8
  skip_envelope x = refl

  skip_key :
      (x : Bytes)
      → load_request c encrypted envelope parse_str cfg read_to_string (utf8 "x25519_pub_" ++ x)
        ≡ err tt
  unfolding load_request strip_prefix utf8
  skip_key x = refl

-- The files that the generator writes for a student: the new key's if there is one, and two more.
abbrev student_files : Bytes → Option Bytes → Bytes → Bytes → List (Bytes × Bytes)
student_files uuid_str key packet_json envelope_json =
    elim key [ none ↦ [] | some k ↦ (utf8 "x25519_pub_" ++ (uuid_str ++ utf8 ".hex"), k) ∷ [] ]
    ++ ((utf8 "packet_" ++ (uuid_str ++ utf8 ".enc"), packet_json)
        ∷ (utf8 "envelope_" ++ (uuid_str ++ utf8 ".enc"), envelope_json)
        ∷ [])

lookup_packet :
    (u : Bytes) (key : Option Bytes) (p v : Bytes)
    → lookup (utf8 "packet_" ++ (u ++ utf8 ".enc")) (student_files u key p v) ≡ some p
unfolding lookup beq utf8
lookup_packet u none p v = rw (beq_refl (u ++ utf8 ".enc")) refl
lookup_packet u (some k) p v = rw (beq_refl (u ++ utf8 ".enc")) refl

lookup_envelope :
    (u : Bytes) (key : Option Bytes) (p v : Bytes)
    → lookup (utf8 "envelope_" ++ (u ++ utf8 ".enc")) (student_files u key p v) ≡ some v
unfolding lookup beq utf8
lookup_envelope u none p v = rw (beq_refl (u ++ utf8 ".enc")) refl
lookup_envelope u (some k) p v = rw (beq_refl (u ++ utf8 ".enc")) refl

module _ (c : Crates) (encrypted : Codec EncryptedPacket) (envelope : Codec KeyEnvelope)
    (parse_str : Bytes → Option Bytes) (cfg : LedgerConfig) where
  -- `Load` on a directory that holds the files.
  abbrev pub load_files : List (Bytes × Bytes) → List LoadPacketsRequest
  load_files files =
      load_requests c encrypted envelope parse_str cfg (λ name. lookup name files)
        (map (λ file. some file.0) files)

  load_files-student_files :
      (student_uuid : Bytes) (key : Option Bytes) {packet_json envelope_json : Bytes}
      {packet : EncryptedPacket} {sealed : KeyEnvelope}
      → parse_str (c.uuid_to_string student_uuid) ≡ some student_uuid
      → encrypted.deserialize packet_json ≡ some packet
      → envelope.deserialize envelope_json ≡ some sealed
      → load_files (student_files (c.uuid_to_string student_uuid) key packet_json envelope_json)
        ≡ load_of c cfg student_uuid packet sealed ∷ []
  unfolding load_requests
  load_files-student_files student_uuid none {packet_json} {envelope_json} {packet} {sealed} parsed
        p v =
      let u = c.uuid_to_string student_uuid in
      let read : Bytes → Option Bytes =
        λ name. lookup name (student_files u none packet_json envelope_json) in
      let one =
        load_packet c encrypted envelope parse_str cfg read student_uuid parsed
          (lookup_packet u none packet_json envelope_json) p
          (lookup_envelope u none packet_json envelope_json) v in
      let last : List (Option Bytes) = some (utf8 "envelope_" ++ (u ++ utf8 ".enc")) ∷ [] in
      let two = skip_envelope c encrypted envelope parse_str cfg read (u ++ utf8 ".enc") in
      (keep c encrypted envelope parse_str cfg read _ last one
        ∙ ap (λ l. load_of c cfg student_uuid packet sealed ∷ l)
            (skip c encrypted envelope parse_str cfg read _ [] two))
  load_files-student_files student_uuid (some k) {packet_json} {envelope_json} {packet} {sealed}
        parsed p v =
      let u = c.uuid_to_string student_uuid in
      let read : Bytes → Option Bytes =
        λ name. lookup name (student_files u (some k) packet_json envelope_json) in
      let one =
        load_packet c encrypted envelope parse_str cfg read student_uuid parsed
          (lookup_packet u (some k) packet_json envelope_json) p
          (lookup_envelope u (some k) packet_json envelope_json) v in
      let last : List (Option Bytes) = some (utf8 "envelope_" ++ (u ++ utf8 ".enc")) ∷ [] in
      let two = skip_envelope c encrypted envelope parse_str cfg read (u ++ utf8 ".enc") in
      let three = skip_key c encrypted envelope parse_str cfg read (u ++ utf8 ".hex") in
      skip c encrypted envelope parse_str cfg read _
        (some (utf8 "packet_" ++ (u ++ utf8 ".enc")) ∷ last) three
      ∙ (keep c encrypted envelope parse_str cfg read _ last one
          ∙ ap (λ l. load_of c cfg student_uuid packet sealed ∷ l)
              (skip c encrypted envelope parse_str cfg read _ [] two))

module _ (c : Crates) (formats : Formats) {F : Type 0} (f : Float F) {R : Type 0} (rand : Rng R)
    (from_seed : Bytes → R) (cfg : GeneratorConfig) (bank : QuestionBank)
    (ratio : DifficultyRatio F) (exam_master_key : Bytes) (drawn : Drawn)
    (student_uuid device_id : Bytes) where
  generated-student_files :
      {g : Generated}
      → generate_student c formats f rand from_seed cfg bank ratio exam_master_key drawn
          (student_uuid, device_id)
        ≡ ok g
      → (key : Option Bytes) × (packet_json : Bytes) × (envelope_json : Bytes)
        × (formats.encrypted.serialize g.encrypted ≡ some packet_json)
        × (formats.envelope.serialize g.envelope ≡ some envelope_json)
        × (g.files ≡ student_files (c.uuid_to_string student_uuid) key packet_json envelope_json)
  generated-student_files {g} h =
      let (_, _, packet_json, p, envelope_json, v, files, _) =
        generate_student-eq-ok c formats f rand from_seed cfg bank ratio exam_master_key drawn
          student_uuid device_id h in
      elim (Option-cases cfg.device_x25519_public_key) [
        | inl new_key ↦ (some _, packet_json, envelope_json, p, v, rw new_key at files)
        | inr (pk, there) ↦ (none, packet_json, envelope_json, p, v, rw there at files)
      ]

  -- What the generator writes for a student is loaded and fetched: from a directory with these files,
  -- `Load` makes one request, and after it the ledger, of the same API key and with the generator's
  -- tenant and exam in the configuration, replies to a fetch for the student with the packet and the
  -- envelope that were generated, given that JSON reads what it writes and that a Uuid is read back.
  pub generate_student-load-fetch :
      CodecLaw formats.encrypted
      → CodecLaw formats.envelope
      → (parse_str : Bytes → Option Bytes)
      → parse_str (c.uuid_to_string student_uuid) ≡ some student_uuid
      → {g : Generated}
      → generate_student c formats f rand from_seed cfg bank ratio exam_master_key drawn
          (student_uuid, device_id)
        ≡ ok g
      → (ledger : LedgerConfig) {S : Type 0} (st : Store S) (s : AppState S)
      → ledger.tenant_id ≡ cfg.tenant_id
      → ledger.exam_id ≡ cfg.exam_id
      → s.api_key ≡ ledger.api_key
      → validate_identifier c "tenant_id" cfg.tenant_id ≡ ok tt
      → validate_identifier c "exam_id" cfg.exam_id ≡ ok tt
      → (load : LoadPacketsRequest) × (load_files c formats.encrypted formats.envelope parse_str
            ledger g.files
          ≡ load ∷ [])
        × ((handle_fetch_packet c st
              (some ledger.api_key)
              (record {
                tenant_id = cfg.tenant_id;
                exam_id = cfg.exam_id;
                student_uuid = student_uuid;
              })
              (handle_load_packets (some ledger.api_key) load s).1).0
            ≡ ok (g.encrypted, g.envelope))
  unfolding check_api_key
  generate_student-load-fetch packets envelopes parse_str parsed {g} h ledger st s tenant exam key
        tenant_ok exam_ok =
      let (made, packet_json, envelope_json, p, v, files) = generated-student_files h in
      let load = load_of c ledger student_uuid g.encrypted g.envelope in
      (
        load,
        rw files (
            load_files-student_files c formats.encrypted formats.envelope parse_str ledger
              student_uuid made parsed (packets.deserialize_serialize g.encrypted packet_json p)
              (envelopes.deserialize_serialize g.envelope envelope_json v)),
        load-fetch c st (some ledger.api_key) load _ s (rw key (rw beq_refl refl)) tenant_ok exam_ok
            (rw (tenant, exam) refl),
      )

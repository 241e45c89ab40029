-- ===== src/Ledger/Generator.antt =====
-- oetp-ledger/src/generator.rs: the packets of an exam, one for each student, with their envelopes and the
-- manifest. A file that is written is a pair of its name in the output directory and its bytes; writing
-- does not fail. `Uuid::parse_str` and `StdRng::from_seed` are parameters, and what is drawn is given.
pub mod Paper
pub mod Student
pub mod Committed
pub mod Toy
pub mod Tests
mod CommittedTests
use oetp.Prelude.{
  starts_with, map, none, some, String, is_empty, ℕ, zero, suc, ◌+◌, ◌-◌, ◌*◌, ◌/◌, ◌%◌, Bool, true,
  false, ◌&&◌, Option, List, [], ◌∷◌, ◌++◌, ◌==◌, if◌then◌else◌, length, get_elem?, Bytes, utf8,
}
use oetp.Result.{
  invalid_input, ◌>>◌, io, map_err, reject, serialization, Fallible, ok_or, Result, ok, panic,
  ◌>>=◌, expect,
}
use oetp.Crates.{Crates, Codec}
use oetp.Device.{generate_x25519}
use oetp.Hashing.{derive_exam_master_key, derive_variant_seed, derive_ephemeral_key}
use oetp.Packet.{ExamPacket, PacketQuestion, EncryptedPacket, encrypt_packet}
use oetp.Envelope.{KeyEnvelope, seal_key_to_device}
use oetp.Manifest
use oetp.Manifest.{Manifest, ManifestEntry}
use oetp.QuestionBank
use oetp.Edge.Nonces.{lines}
use oetp.QuestionBank.{
  QuestionItem, QuestionVariant, QuestionBank, Float, Rng, DifficultyRatio, decimal,
  select_questions, new_ratio,
}
unfoldable pub use Paper.*

pub record GeneratorConfig : Type 0 where
  pub bank_path : Bytes
  pub num_questions : ℕ
  pub students_path : Bytes
  pub output_dir : Bytes
  pub tenant_master_key : Bytes
  pub exam_id : Bytes
  pub tenant_id : Bytes
  pub device_x25519_public_key : Option Bytes

-- What is drawn for one student: the nonce of the packet, the secret of a device that has no key yet, and
-- the secret and the nonce of the envelope.
pub record Drawn : Type 0 where
  pub packet_nonce : Bytes
  pub device_secret : Bytes
  pub sender_secret : Bytes
  pub envelope_nonce : Bytes

-- The formats: bincode for the packet, JSON for the rest.
pub record Formats : Type 0 where
  pub packet : Codec ExamPacket
  pub items : Codec (List QuestionItem)
  pub encrypted : Codec EncryptedPacket
  pub envelope : Codec KeyEnvelope
  pub manifest : Codec Manifest

-- What is made for a student, with the files of the student.
pub record Generated : Type 0 where
  pub questions : List PacketQuestion
  pub encrypted : EncryptedPacket
  pub envelope : KeyEnvelope
  pub manifest_entry : ManifestEntry
  pub files : List (Bytes × Bytes)

-- What a run writes, and the manifest.
pub record Output : Type 0 where
  pub made : List Generated
  pub manifest : Manifest
  pub files : List (Bytes × Bytes)

abbrev pub files_of : List Generated → List (Bytes × Bytes)
files_of [] = []
files_of (g ∷ made) = g.files ++ files_of made

-- `split(',')`, with what was read of the part.
unfoldable pub split_commas : Bytes → Bytes → List Bytes
split_commas part [] = part ∷ []
split_commas part (b ∷ x) =
    let apart = split_commas [] x in
    let longer = split_commas (part ++ (b ∷ [])) x in if b == b',' then part ∷ apart else longer

-- A student of the file: the Uuid of the first part, or a new one, and the second part.
unfoldable pub student_of : (Bytes → Option Bytes) → Bytes → List Bytes → Bytes × Bytes
student_of parse_str new_v4 [] = (new_v4, utf8 "default-device")
student_of parse_str new_v4 (u ∷ []) =
    (elim (parse_str u) [ none ↦ new_v4 | some id ↦ id ], utf8 "default-device")
student_of parse_str new_v4 (u ∷ device_id ∷ rest) =
    (elim (parse_str u) [ none ↦ new_v4 | some id ↦ id ], device_id)

unfoldable pub students_of :
    (Bytes → Option Bytes) → (ℕ → Bytes) → ℕ → List Bytes → List (Bytes × Bytes)
unfolding split_commas student_of
students_of parse_str new_v4 i [] = []
students_of parse_str new_v4 i (l ∷ ls) =
    let rest = students_of parse_str new_v4 (i + 1) ls in
    if is_empty l then rest else student_of parse_str (new_v4 i) (split_commas [] l) ∷ rest

module _ (c : Crates) (formats : Formats) {F : Type 0} (f : Float F) {R : Type 0} (rand : Rng R)
    (from_seed : Bytes → R) (cfg : GeneratorConfig) where
  abbrev pub file_name : String → Bytes → String → Bytes
  file_name front student_uuid end = utf8 front ++ (c.uuid_to_string student_uuid ++ utf8 end)

  -- The device's public key, and the file that a new one is written to.
  abbrev pub device_key_of : Bytes → Bytes → Bytes → Bytes × List (Bytes × Bytes)
  device_key_of student_uuid device_id drawn = elim cfg.device_x25519_public_key [
    | some pk ↦ (pk, [])
    | none ↦
        (let pk = (generate_x25519 c device_id drawn).public_key in
          (pk, (file_name "x25519_pub_" student_uuid ".hex", c.hex_encode pk) ∷ []))
  ]

  -- One round of the loop over the students.
  unfoldable pub generate_student :
      QuestionBank → DifficultyRatio F → Bytes → Drawn → Bytes × Bytes → Result Generated
  unfolding derive_variant_seed derive_ephemeral_key encrypt_packet seal_key_to_device
      generate_x25519 packet_questions select_questions
  generate_student bank ratio exam_master_key drawn (student_uuid, device_id) = do
    let variant_seed = derive_variant_seed c cfg.tenant_master_key student_uuid cfg.exam_id
    selected ← select_questions f rand bank cfg.num_questions ratio (from_seed variant_seed)
    questions ← packet_questions rand from_seed variant_seed 0 selected.0
    let ephemeral_key = derive_ephemeral_key c exam_master_key variant_seed
    encrypted ←
        encrypt_packet c formats.packet
          (record {
            tenant_id = cfg.tenant_id;
            student_uuid = student_uuid;
            exam_id = cfg.exam_id;
            variant_seed = variant_seed;
            questions = questions;
          })
          ephemeral_key drawn.packet_nonce
    let (device_pk, key_files) = device_key_of student_uuid device_id drawn.device_secret
    envelope ←
        seal_key_to_device c ephemeral_key device_pk device_id student_uuid cfg.exam_id
          drawn.sender_secret drawn.envelope_nonce
    packet_json ←
        ok_or (formats.encrypted.serialize encrypted) (serialization formats.encrypted.codec_error)
    envelope_json ←
        ok_or (formats.envelope.serialize envelope) (serialization formats.envelope.codec_error)
    ok (record {
      questions = questions;
      encrypted = encrypted;
      envelope = envelope;
      manifest_entry = record {
        student_uuid = student_uuid;
        packet_hash = encrypted.packet_hash;
        variant_seed = variant_seed;
        device_id = device_id;
      };
      files =
          key_files
          ++ ((file_name "packet_" student_uuid ".enc", packet_json)
              ∷ (file_name "envelope_" student_uuid ".enc", envelope_json)
              ∷ []);
    })

  unfoldable pub generate_all :
      QuestionBank
      → DifficultyRatio F
      → Bytes
      → (ℕ → Drawn)
      → ℕ
      → List (Bytes × Bytes)
      → Result (List Generated)
  unfolding generate_student
  generate_all bank ratio exam_master_key drawn i [] = ok []
  generate_all bank ratio exam_master_key drawn i (student ∷ students) =
      let rest = generate_all bank ratio exam_master_key drawn (i + 1) students in
      generate_student bank ratio exam_master_key (drawn i) student >>= λ g.
      rest >>= λ l. ok (g ∷ l)

  -- `read_to_string` is given for each path, and the secret that `generate_keypair` draws.
  unfoldable pub run_generator :
      (Bytes → Fallible String Bytes)
      → (Bytes → Option Bytes)
      → (ℕ → Bytes)
      → Bytes
      → (ℕ → Drawn)
      → Result Output
  unfolding QuestionBank.new lines students_of new_ratio derive_exam_master_key generate_all
      Manifest.new
  run_generator read_to_string parse_str new_v4 signing_key drawn = do
    bank_json ← map_err (read_to_string cfg.bank_path) io
    items ← ok_or (formats.items.deserialize bank_json) (serialization formats.items.codec_error)
    bank ← QuestionBank.new items
    students_csv ← map_err (read_to_string cfg.students_path) io
    let students = students_of parse_str new_v4 0 (lines [] students_csv)
    reject (is_empty students) (invalid_input "no students in CSV")
    let exam_master_key = derive_exam_master_key c cfg.tenant_master_key cfg.exam_id
    ratio ← new_ratio f f.three_tenths f.four_tenths f.three_tenths
    made ← generate_all bank ratio exam_master_key drawn 0 students
    manifest ←
        Manifest.new c cfg.tenant_id cfg.exam_id (map (λ g. g.manifest_entry) made) signing_key
    manifest_json ←
        ok_or (formats.manifest.serialize manifest) (serialization formats.manifest.codec_error)
    ok (record {
      made = made;
      manifest = manifest;
      files =
          (utf8 "signing_key.hex", c.hex_encode signing_key)
          ∷ (files_of made ++ ((utf8 "manifest.json", manifest_json) ∷ []));
    })

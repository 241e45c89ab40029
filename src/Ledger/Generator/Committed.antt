-- ===== src/Ledger/Generator/Committed.antt =====
-- The manifest of a run of the generator (oetp-ledger/src/generator.rs, oetp-core/src/manifest.rs).
use oetp.Prelude.{
  ℕ, ◌+◌, String, ◌≡◌, refl, false, Option, List, [], ◌∷◌, map, arith, is_empty, Bytes, beq_refl,
}
use oetp.Result.{Result, Fallible, ok, ok-injective, io, reject, ok_or, map_err}
use oetp.Crates.{Crates, SignLaw}
use oetp.Merkle
use oetp.Packet.{EncryptedPacket, ExamPacket, encrypt_packet}
use oetp.Manifest
use oetp.Manifest.{Manifest, ManifestEntry, packet_hashes, payload_bytes, sign}
use oetp.QuestionBank
use oetp.QuestionBank.{QuestionBank, Float, Rng, DifficultyRatio, new_ratio}
use oetp.Hashing.{derive_exam_master_key}
use oetp.Env.Read.{first_step}
use oetp.Edge.Nonces.{lines}
use oetp.Ledger.Generator.{
  GeneratorConfig, Formats, Drawn, Generated, Output, students_of, generate_student, generate_all,
  run_generator,
}
use oetp.Ledger.Generator.Student.{generate_student-eq-ok}

module _ (c : Crates) where
  signed-verify :
      (m : Manifest) (signing_key : Bytes) (tree : Merkle.MerkleTree)
      → SignLaw c
      → is_empty m.entries ≡ false
      → Merkle.new c (packet_hashes m.entries) ≡ ok tree
      → tree.root ≡ m.merkle_root
      → Manifest.verify c (sign c signing_key m) (c.ed_public signing_key) ≡ ok tt
  unfolding Manifest.verify sign payload_bytes
  signed-verify m signing_key tree law some_entry t same =
      rw some_entry (rw t (rw same (rw beq_refl (rw law.parse_sign (rw law.verify_sign refl)))))

  -- A manifest that `new` returns verifies under the signer's public key.
  new-eq-ok-verify :
      (tenant_id exam_id : Bytes) (entries : List ManifestEntry) (signing_key : Bytes)
      {m : Manifest}
      → SignLaw c
      → Manifest.new c tenant_id exam_id entries signing_key ≡ ok m
      → (Manifest.verify c m (c.ed_public signing_key) ≡ ok tt) × (m.entries ≡ entries)
  unfolding Manifest.new sign
  new-eq-ok-verify tenant_id exam_id entries signing_key {m} law h =
      let (_, some_entry, h₁) = first_step (reject (is_empty entries) _) h in
      let (tree, t, last) = first_step (Merkle.new c (packet_hashes entries)) h₁ in
      let unsigned : Manifest = record {
        tenant_id = tenant_id;
        exam_id = exam_id;
        entries = entries;
        merkle_root = tree.root;
        signature = [];
      } in
      let made : sign c signing_key unsigned ≡ m = ok-injective last in
      (
        rw (← made)
            (signed-verify unsigned signing_key tree law (ground (arith, some_entry)) t refl),
        rw (← made) refl,
      )

  encrypt_packet-hash :
      (formats : Formats) (p : ExamPacket) (key nonce : Bytes) {e : EncryptedPacket}
      → encrypt_packet c formats.packet p key nonce ≡ ok e
      → e.packet_hash ≡ c.sha3 e.ciphertext
  unfolding encrypt_packet
  encrypt_packet-hash formats p key nonce h = ground arith

module _ (c : Crates) (formats : Formats) {F : Type 0} (f : Float F) {R : Type 0} (rand : Rng R)
    (from_seed : Bytes → R) (cfg : GeneratorConfig) where
  -- What was made for a student is what the manifest has of the student.
  abbrev pub Entered : Bytes × Bytes → Generated → Type 0
  Entered (student_uuid, device_id) g =
      (g.manifest_entry.student_uuid ≡ student_uuid)
      × (g.manifest_entry.device_id ≡ device_id)
      × (g.manifest_entry.packet_hash ≡ c.sha3 g.encrypted.ciphertext)

  -- One for each, in order.
  abbrev pub EnteredAll : List (Bytes × Bytes) → List Generated → Type 0
  EnteredAll [] [] = Unit {0}
  EnteredAll [] (g ∷ made) = ⊥
  EnteredAll (s ∷ students) [] = ⊥
  EnteredAll (s ∷ students) (g ∷ made) = Entered s g × EnteredAll students made

  generate_all-Entered :
      (bank : QuestionBank) (ratio : DifficultyRatio F) (exam_master_key : Bytes)
      (drawn : ℕ → Drawn) (i : ℕ) (students : List (Bytes × Bytes)) {made : List Generated}
      → generate_all c formats f rand from_seed cfg bank ratio exam_master_key drawn i students
        ≡ ok made
      → EnteredAll students made
  unfolding generate_all
  generate_all-Entered bank ratio k drawn i [] h = rw (← ok-injective h) tt
  generate_all-Entered bank ratio k drawn i ((u, d) ∷ students) h =
      let (g, one, h₁) =
        first_step (generate_student c formats f rand from_seed cfg bank ratio k (drawn i) (u, d))
          h in
      let (made, rest, last) =
        first_step (generate_all c formats f rand from_seed cfg bank ratio k drawn (i + 1) students)
          h₁ in
      let (e, _, _, _, _, _, _, entry) =
        generate_student-eq-ok c formats f rand from_seed cfg bank ratio k (drawn i) u d one in
      let hash = encrypt_packet-hash c formats _ _ _ e in
      rw (← ok-injective last)
        (rw entry (refl, refl, hash), generate_all-Entered bank ratio k drawn (i + 1) students rest)

  -- What the output is made of.
  output_parts :
      (key : Bytes) (students : List (Bytes × Bytes)) (out : Output) (made : List Generated)
      (manifest : Manifest) (files : List (Bytes × Bytes))
      → ◌≡◌ {A = Result Output}
          (ok (record { made = made; manifest = manifest; files = files }))
          (ok out)
      → Manifest.verify c manifest key ≡ ok tt
      → manifest.entries ≡ map (λ g. g.manifest_entry) made
      → EnteredAll students made
      → (Manifest.verify c out.manifest key ≡ ok tt)
        × (out.manifest.entries ≡ map (λ g. g.manifest_entry) out.made)
        × EnteredAll students out.made
  output_parts key students out made manifest files built good entries entered =
      rw (← ok-injective built) (good, entries, entered)

  -- A run of the generator that succeeds had a student, and gives a manifest that verifies under the
  -- public key of the key that signs it, with one entry for each student of the file, in its order, which
  -- has the student, the device, and the hash of the ciphertext of the student's packet.
  pub run_generator-verify :
      (read_to_string : Bytes → Fallible String Bytes) (parse_str : Bytes → Option Bytes)
      (new_v4 : ℕ → Bytes) (signing_key : Bytes) (drawn : ℕ → Drawn) {out : Output}
      → SignLaw c
      → run_generator c formats f rand from_seed cfg read_to_string parse_str new_v4 signing_key
          drawn
        ≡ ok out
      → (csv : Bytes) × (read_to_string cfg.students_path ≡ ok csv)
        × (is_empty (students_of parse_str new_v4 0 (lines [] csv)) ≡ false)
        × (Manifest.verify c out.manifest (c.ed_public signing_key) ≡ ok tt)
        × (out.manifest.entries ≡ map (λ g. g.manifest_entry) out.made)
        × EnteredAll (students_of parse_str new_v4 0 (lines [] csv)) out.made
  unfolding run_generator
  run_generator-verify read_to_string parse_str new_v4 signing_key drawn {out} law h =
      let (bank_json, _, h₁) = first_step (map_err (read_to_string cfg.bank_path) io) h in
      let (items, _, h₂) = first_step (ok_or (formats.items.deserialize bank_json) _) h₁ in
      let (bank, _, h₃) = first_step (QuestionBank.new items) h₂ in
      let (csv, read, h₄) = first_step (map_err (read_to_string cfg.students_path) io) h₃ in
      let students = students_of parse_str new_v4 0 (lines [] csv) in
      let (_, some_student, h₅) = first_step (reject (is_empty students) _) h₄ in
      let (ratio, _, h₆) =
        first_step (new_ratio f f.three_tenths f.four_tenths f.three_tenths) h₅ in
      let (made, all_made, h₇) =
        first_step
          (generate_all c formats f rand from_seed cfg bank ratio
            (derive_exam_master_key c cfg.tenant_master_key cfg.exam_id) drawn 0 students)
          h₆ in
      let (manifest, signed, h₈) =
        first_step
          (Manifest.new c cfg.tenant_id cfg.exam_id (map (λ g. g.manifest_entry) made) signing_key)
          h₇ in
      let (_, _, last) = first_step (ok_or (formats.manifest.serialize manifest) _) h₈ in
      let (good, entries) =
        new-eq-ok-verify c cfg.tenant_id cfg.exam_id (map (λ g. g.manifest_entry) made) signing_key
          law signed in
      let entered = generate_all-Entered bank ratio _ drawn 0 students all_made in
      let (good_out, entries_out, entered_out) =
        output_parts (c.ed_public signing_key) students out made manifest _ last good entries
          entered in
      (csv, ground (arith, read), ground (arith, some_student), good_out, entries_out, entered_out)

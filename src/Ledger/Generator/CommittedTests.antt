-- ===== src/Ledger/Generator/CommittedTests.antt =====
-- A run of the generator for one student, whose manifest verifies.
use oetp.Device.{zeros}
use oetp.Envelope.{seal_key_to_device}
use oetp.Packet.Toy.{put, put_texts}
use oetp.Packet.{encrypt_packet}
use oetp.Hashing.{derive_exam_master_key, derive_variant_seed, derive_ephemeral_key}
use oetp.Prelude.{
  String, ◌≡◌, refl, true, false, none, some, List, [], ◌∷◌, map, is_empty, Bytes, utf8, beq,
  be_bytes,
}
use oetp.Result.{is_ok, Result, Fallible, ok, unwrap_or}
use oetp.Crates.{Codec}
use oetp.Crates.Toy.{toy, toy-SignLaw}
use oetp.Edge.Nonces.{without_cr, lines}
use oetp.Manifest
use oetp.Merkle
use oetp.QuestionBank
use oetp.QuestionBank.{index_items, new_ratio, select_questions, pick, QuestionItem}
use oetp.QuestionBank.Tests.{tenths, first_ones, bank}
use oetp.Ledger.Generator.{
  split_commas, student_of, generate_all, generate_student, packet_questions, packet_question,
  option_seed, xor_bits, range, pick_options, substitute, Formats, Output, students_of,
  run_generator,
}
use oetp.Ledger.Generator.Tests.{ok-unwrap_or, formats, cfg, drawn}
use oetp.Ledger.Generator.Committed.{EnteredAll, run_generator-verify}

abbrev bank_file : Codec (List QuestionItem)
bank_file = record {
  serialize = λ l. none;
  deserialize = λ b. some bank.items;
  codec_error = "json error";
}

abbrev all_formats : Formats
all_formats = record formats { items = bank_file }

-- The student with the Uuid 1, and the device d.
abbrev read : Bytes → Fallible String Bytes
read path = ok (1 ∷ b',' ∷ b'd' ∷ [])

abbrev run : Result Output
run =
    run_generator toy all_formats tenths first_ones (λ seed. 0) cfg read (λ x. some x) (λ i. [])
      (2 ∷ []) (λ i. drawn)

ran : is_ok run ≡ true
unfolding run_generator QuestionBank.new lines students_of split_commas student_of new_ratio
    derive_exam_master_key generate_all Manifest.new generate_student derive_variant_seed
    derive_ephemeral_key select_questions pick packet_questions packet_question option_seed xor_bits
    range pick_options substitute encrypt_packet seal_key_to_device beq zeros be_bytes utf8 put
    put_texts without_cr index_items Merkle.new Merkle.build_loop Merkle.next_level Merkle.hash_leaf
    Merkle.hash_pair Manifest.sign Manifest.payload_bytes Manifest.entries_bytes
ran = refl

abbrev nothing_written : Output
nothing_written = record {
  made = [];
  manifest = record {
    tenant_id = [];
    exam_id = [];
    merkle_root = [];
    entries = [];
    signature = [];
  };
  files = [];
}

abbrev out : Output
out = unwrap_or run nothing_written

run_generator-verify_example :
    (csv : Bytes) × (read cfg.students_path ≡ ok csv)
    × (is_empty (students_of (λ x. some x) (λ i. []) 0 (lines [] csv)) ≡ false)
    × (Manifest.verify toy out.manifest (toy.ed_public (2 ∷ [])) ≡ ok tt)
    × (out.manifest.entries ≡ map (λ m. m.manifest_entry) out.made)
    × EnteredAll toy all_formats tenths first_ones
        (λ seed. 0)
        cfg
        (students_of (λ x. some x) (λ i. []) 0 (lines [] csv))
        out.made
run_generator-verify_example =
    run_generator-verify toy all_formats tenths first_ones (λ seed. 0) cfg read (λ x. some x)
      (λ i. []) (2 ∷ []) (λ i. drawn) toy-SignLaw (ok-unwrap_or run nothing_written ran)

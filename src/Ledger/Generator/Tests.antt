-- ===== src/Ledger/Generator/Tests.antt =====
-- A packet that is generated for a student, on the student's device.
use oetp.Prelude.{ℕ, ◌≡◌, refl, true, none, some, [], ◌∷◌, arith, utf8, beq, be_bytes, lookup}
use oetp.Result.{is_ok, ok, err, panic, unfinished, Result, unwrap_or}
use oetp.Crates.{Codec}
use oetp.Crates.Toy.{toy, toy-AesLaw, toy-DhLaw, toy-HkdfLaw}
use oetp.Hashing.{derive_variant_seed, derive_ephemeral_key}
use oetp.Device.{zeros}
use oetp.Packet.{encrypt_packet}
use oetp.Packet.Toy.{toy_packet_codec, toy_packet_codec-CodecLaw}
use oetp.Envelope.{seal_key_to_device}
use oetp.QuestionBank.{DifficultyRatio, select_questions, pick}
use oetp.QuestionBank.Tests.{tenths, first_ones, bank}
use oetp.Api.{check_api_key}
use oetp.Release.{ReleaseToken}
use oetp.Edge.State.{AppState, CachedExamData}
use oetp.Edge.Api.{handle_unlock, put_entry}
use oetp.Edge.Submit.Tests.{daemon, headers}
use oetp.Ledger.Generator.{
  utf8, GeneratorConfig, Formats, Drawn, Generated, packet_questions, packet_question, option_seed,
  xor_bits, range, pick_options, substitute, generate_student,
}
use oetp.Packet.Toy.{put, put_texts}
use oetp.Ledger.Generator.Toy.{packet_codec, envelope_codec}
use oetp.Ledger.Generator.Student.{generate_student-unlock}

-- The JSON of banks and manifests, where only that there is a text matters.
abbrev some_text : {A : Type 0} → Codec A
some_text = record { serialize = λ a. some []; deserialize = λ b. none; codec_error = "json error" }

abbrev pub formats : Formats
formats = record {
  packet = toy_packet_codec;
  items = some_text;
  encrypted = packet_codec;
  envelope = envelope_codec;
  manifest = some_text;
}

abbrev pub cfg : GeneratorConfig
cfg = record {
  bank_path = [];
  num_questions = 2;
  students_path = [];
  output_dir = [];
  tenant_master_key = 1 ∷ [];
  exam_id = b'e' ∷ [];
  tenant_id = b't' ∷ [];
  device_x25519_public_key = some (4 ∷ []);
}

abbrev pub ratio : DifficultyRatio ℕ
ratio = record { easy_ratio = 3; medium_ratio = 4; hard_ratio = 3 }

abbrev pub drawn : Drawn
drawn = record {
  packet_nonce = 2 ∷ [];
  device_secret = [];
  sender_secret = 3 ∷ [];
  envelope_nonce = 6 ∷ [];
}

abbrev pub generated : Result Generated
generated =
    generate_student toy formats tenths first_ones (λ seed. 0) cfg bank ratio (9 ∷ []) drawn
      (1 ∷ [], b'd' ∷ [])

abbrev pub nothing : Generated
nothing = record {
  questions = [];
  encrypted = record {
    tenant_id = [];
    student_uuid = [];
    exam_id = [];
    ciphertext = [];
    nonce = [];
    packet_hash = [];
  };
  envelope = record {
    version = 0;
    device_id = [];
    student_uuid = [];
    exam_id = [];
    sender_public_key = [];
    encrypted_ephemeral_key = [];
    nonce = [];
  };
  manifest_entry = record {
    student_uuid = [];
    packet_hash = [];
    variant_seed = [];
    device_id = [];
  };
  files = [];
}

pub ok-unwrap_or : {A : Type 0} (r : Result A) (d : A) → is_ok r ≡ true → r ≡ ok (unwrap_or r d)
ok-unwrap_or (ok g) d h = refl
ok-unwrap_or (err e) d h = absurd (ground (arith, h))
ok-unwrap_or panic d h = absurd (ground (arith, h))
ok-unwrap_or unfinished d h = absurd (ground (arith, h))

pub succeeded : is_ok generated ≡ true
unfolding generate_student derive_variant_seed derive_ephemeral_key select_questions pick
    packet_questions packet_question option_seed xor_bits range pick_options substitute
    encrypt_packet seal_key_to_device beq zeros be_bytes utf8 put put_texts
succeeded = refl

abbrev pub g : Generated
g = unwrap_or generated nothing

-- A token; unlock looks only whether there is one.
abbrev token : ReleaseToken
token = record {
  center_id = [];
  exam_id = [];
  device_id = [];
  window_start = 0;
  window_end = 0;
  nonce = [];
  signature = [];
}

abbrev cached_entry : CachedExamData
cached_entry = record {
  encrypted_packet = g.encrypted;
  key_envelope = g.envelope;
  release_token = some token;
  variant_seed = none;
}

abbrev centre : AppState
centre = record daemon { cache = (1 ∷ [], cached_entry) ∷ [] }

there : lookup (1 ∷ []) centre.cache ≡ some cached_entry
unfolding lookup beq
there = refl

authorized : check_api_key centre.config.api_key headers ≡ ok tt
unfolding check_api_key beq
authorized = refl

generate_student-unlock_example : handle_unlock toy toy_packet_codec headers (1 ∷ []) centre ≡ (
  ok g.questions,
  put_entry
      (1 ∷ [])
      (record cached_entry {
        variant_seed = some (derive_variant_seed toy (1 ∷ []) (1 ∷ []) (b'e' ∷ []));
      })
      centre,
)
generate_student-unlock_example =
    generate_student-unlock toy formats tenths first_ones (λ seed. 0) cfg bank ratio (9 ∷ []) drawn
      (1 ∷ []) (b'd' ∷ []) toy-AesLaw toy-DhLaw toy-HkdfLaw toy_packet_codec-CodecLaw
      (ok-unwrap_or generated nothing succeeded) headers centre cached_entry refl refl refl refl
      authorized there refl refl refl

-- ===== src/Envelope/Tests.antt =====
-- The theorems on key envelopes at concrete keys and names.
use oetp.Prelude.{◌≡◌, refl, [], ◌∷◌, ◌++◌, arith, Bytes, beq, be_bytes, length-be_bytes}
use oetp.Result.{ok}
use oetp.Crates.Toy.{toy, toy-AesLaw, toy-DhLaw, toy-UuidLaw}
use oetp.Device.{zeros}
use oetp.Envelope.{
  KeyEnvelope, derive_envelope_key, build_canonical_aad, seal_key_to_device, open_key_envelope,
}
use oetp.Envelope.RoundTrip.{seal-open}
use oetp.Envelope.Binding.{build_canonical_aad-injective}

abbrev packet_key : Bytes
packet_key = be_bytes 32 5

abbrev device : Bytes
device = b'd' ∷ []

abbrev exam : Bytes
exam = b'e' ∷ []

abbrev student : Bytes
student = be_bytes 16 77

abbrev key : Bytes
key = derive_envelope_key toy (toy.x25519_dh (3 ∷ []) (4 ∷ [])) device student exam

abbrev envelope : KeyEnvelope
envelope = record {
  version = 1;
  device_id = device;
  student_uuid = student;
  exam_id = exam;
  sender_public_key = 3 ∷ [];
  encrypted_ephemeral_key =
      (key ++ ((6 ∷ []) ++ build_canonical_aad toy device student exam)) ++ packet_key;
  nonce = 6 ∷ [];
}

sealed :
    seal_key_to_device toy packet_key
      (toy.x25519_public (4 ∷ []))
      device
      student
      exam
      (3 ∷ [])
      (6 ∷ [])
    ≡ ok envelope
unfolding seal_key_to_device beq zeros
sealed = refl

opened : open_key_envelope toy envelope (4 ∷ []) device student exam ≡ ok packet_key
opened =
    seal-open toy packet_key (4 ∷ []) device student exam (3 ∷ []) (6 ∷ []) toy-AesLaw toy-DhLaw
      (length-be_bytes 32 5) sealed

build_canonical_aad-injective_example : (device ≡ device) × (student ≡ student) × (exam ≡ exam)
build_canonical_aad-injective_example =
    build_canonical_aad-injective toy toy-UuidLaw device device student student exam exam
      (length-be_bytes 16 77) (length-be_bytes 16 77) (omega arith) (omega arith) (omega arith)
      (omega arith) refl

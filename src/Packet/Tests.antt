-- ===== src/Packet/Tests.antt =====
-- The theorems on packets at a concrete packet, under a toy codec, which serializes a packet that holds
-- nothing but its student.
use oetp.Prelude.{◌≡◌, refl, ap, Option, none, some, List, [], ◌∷◌, ◌++◌, Bytes}
use oetp.Result.{ok}
use oetp.Crates.{Codec, CodecLaw}
use oetp.Crates.Toy.{toy}
use oetp.Packet.{ExamPacket, EncryptedPacket, PacketQuestion, encrypt_packet}

abbrev only_student : Bytes → ExamPacket
only_student u = record {
  tenant_id = [];
  student_uuid = u;
  exam_id = [];
  variant_seed = [];
  questions = [];
}

unfoldable student_of : Bytes → Bytes → Bytes → List PacketQuestion → Bytes → Option Bytes
student_of [] [] [] [] u = some u
student_of [] [] [] (q ∷ qs) u = none
student_of [] [] (b ∷ v) qs u = none
student_of [] (b ∷ e) v qs u = none
student_of (b ∷ t) e v qs u = none

abbrev toy_codec : Codec ExamPacket
toy_codec = record {
  serialize = λ p. student_of p.tenant_id p.exam_id p.variant_seed p.questions p.student_uuid;
  deserialize = λ b. some (only_student b);
  codec_error = "bincode error";
}

student_of-eq-some :
    (t e v : Bytes) (qs : List PacketQuestion) (u b : Bytes)
    → student_of t e v qs u ≡ some b
    → only_student b
      ≡ record { tenant_id = t; student_uuid = u; exam_id = e; variant_seed = v; questions = qs }
unfolding student_of
student_of-eq-some [] [] [] [] u b h = cc
student_of-eq-some [] [] [] (q ∷ qs) u b h = cc
student_of-eq-some [] [] (x ∷ v) qs u b h = cc
student_of-eq-some [] (x ∷ e) v qs u b h = cc
student_of-eq-some (x ∷ t) e v qs u b h = cc

toy_codec-CodecLaw : CodecLaw toy_codec
toy_codec-CodecLaw = record {
  deserialize_serialize = λ p b h.
      ap some
        (student_of-eq-some p.tenant_id p.exam_id p.variant_seed p.questions p.student_uuid b h);
}

abbrev packet : ExamPacket
packet = only_student (1 ∷ 2 ∷ [])

abbrev encrypted : EncryptedPacket
encrypted = record {
  tenant_id = [];
  student_uuid = 1 ∷ 2 ∷ [];
  exam_id = [];
  ciphertext = ((3 ∷ []) ++ ((4 ∷ []) ++ [])) ++ (1 ∷ 2 ∷ []);
  nonce = 4 ∷ [];
  packet_hash = toy.sha3 (((3 ∷ []) ++ ((4 ∷ []) ++ [])) ++ (1 ∷ 2 ∷ []));
}

encrypt_run : encrypt_packet toy toy_codec packet (3 ∷ []) (4 ∷ []) ≡ ok encrypted
unfolding encrypt_packet student_of
encrypt_run = refl

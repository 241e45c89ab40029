-- ===== src/Ledger/Generator/Toy.antt =====
-- Toy codecs for encrypted packets and for envelopes, for the tests.
use oetp.Prelude.{ℕ, zero, suc, ◌≡◌, refl, some, List, [], ◌∷◌, Bytes}
use oetp.Crates.{Codec, CodecLaw}
use oetp.Packet.{EncryptedPacket}
use oetp.Packet.Toy.{put_texts, get_texts, get_texts-put_texts, take_number}
use oetp.Envelope.{KeyEnvelope}

abbrev nth : ℕ → List Bytes → Bytes
nth i [] = []
nth zero (x ∷ xs) = x
nth (suc i) (x ∷ xs) = nth i xs

abbrev texts_of_packet : EncryptedPacket → List Bytes
texts_of_packet p =
    p.tenant_id ∷ p.student_uuid ∷ p.exam_id ∷ p.ciphertext ∷ p.nonce ∷ p.packet_hash ∷ []

abbrev texts_of_envelope : KeyEnvelope → List Bytes
texts_of_envelope e =
    e.device_id
    ∷ e.student_uuid
    ∷ e.exam_id
    ∷ e.sender_public_key
    ∷ e.encrypted_ephemeral_key
    ∷ e.nonce
    ∷ (e.version ∷ [])
    ∷ []

abbrev pub packet_codec : Codec EncryptedPacket
packet_codec = record {
  serialize = λ p. some (put_texts (texts_of_packet p) []);
  deserialize = λ b.
      (let x = (get_texts 6 b).0 in
        some (record {
          tenant_id = nth 0 x;
          student_uuid = nth 1 x;
          exam_id = nth 2 x;
          ciphertext = nth 3 x;
          nonce = nth 4 x;
          packet_hash = nth 5 x;
        }));
  codec_error = "json error";
}

pub packet_codec-CodecLaw : CodecLaw packet_codec
packet_codec-CodecLaw = record {
  deserialize_serialize = λ p b h.
      let e : put_texts (texts_of_packet p) [] ≡ b = cc in
      rw (← e) (rw (get_texts-put_texts (texts_of_packet p) []) refl);
}

abbrev pub envelope_codec : Codec KeyEnvelope
envelope_codec = record {
  serialize = λ e. some (put_texts (texts_of_envelope e) []);
  deserialize = λ b.
      (let x = (get_texts 7 b).0 in
        some (record {
          version = (take_number (nth 6 x)).0;
          device_id = nth 0 x;
          student_uuid = nth 1 x;
          exam_id = nth 2 x;
          sender_public_key = nth 3 x;
          encrypted_ephemeral_key = nth 4 x;
          nonce = nth 5 x;
        }));
  codec_error = "json error";
}

pub envelope_codec-CodecLaw : CodecLaw envelope_codec
envelope_codec-CodecLaw = record {
  deserialize_serialize = λ s b h.
      let e : put_texts (texts_of_envelope s) [] ≡ b = cc in
      rw (← e) (rw (get_texts-put_texts (texts_of_envelope s) []) refl);
}

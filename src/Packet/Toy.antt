-- ===== src/Packet/Toy.antt =====
-- A toy codec for packets, for the tests: it writes each text and each list after its length.
use oetp.Prelude.{
  ℕ, zero, suc, ◌≡◌, refl, ap, some, List, [], ◌∷◌, ◌++◌, arith, length, take, drop, length-append,
  take-append-drop, length-take, Bytes, append_split,
}
use oetp.Crates.{Codec, CodecLaw}
use oetp.Packet.{ExamPacket, PacketQuestion}

unfoldable pub put : Bytes → Bytes → Bytes
put x r = length x ∷ (x ++ r)

unfoldable pub get : Bytes → Bytes × Bytes
get [] = ([], [])
get (n ∷ r) = (take n r, drop n r)

get-put : (x r : Bytes) → get (put x r) ≡ (x, r)
unfolding get put
get-put x r =
    let (a, b) =
      append_split (take (length x) (x ++ r)) x (drop (length x) (x ++ r)) r
        (rw (length-take, length-append) (omega arith)) (take-append-drop (length x) (x ++ r)) in
    rw (a, b) refl

unfoldable pub put_texts : List Bytes → Bytes → Bytes
put_texts [] r = r
put_texts (x ∷ xs) r = put x (put_texts xs r)

unfoldable pub get_texts : ℕ → Bytes → List Bytes × Bytes
get_texts zero r = ([], r)
get_texts (suc n) r = let (x, r₁) = get r in let (xs, r₂) = get_texts n r₁ in (x ∷ xs, r₂)

pub get_texts-put_texts :
    (xs : List Bytes) (r : Bytes) → get_texts (length xs) (put_texts xs r) ≡ (xs, r)
unfolding get_texts put_texts
get_texts-put_texts [] r = refl
get_texts-put_texts (x ∷ xs) r =
    rw (get-put x (put_texts xs r)) (rw (get_texts-put_texts xs r) refl)

abbrev pub take_number : Bytes → ℕ × Bytes
take_number [] = (0, [])
take_number (n ∷ r) = (n, r)

unfoldable pub put_question : PacketQuestion → Bytes → Bytes
put_question q r =
    q.bank_item_id
    ∷ q.variant_id
    ∷ length q.options
    ∷ put q.stem (put q.question_ref (put_texts q.options r))

unfoldable pub get_question : Bytes → PacketQuestion × Bytes
get_question x =
    let (a, r₁) = take_number x in
    let (b, r₂) = take_number r₁ in
    let (n, r₃) = take_number r₂ in
    let (stem, r₄) = get r₃ in
    let (ref, r₅) = get r₄ in
    let (options, r₆) = get_texts n r₅ in
    (
      record {
        bank_item_id = a;
        variant_id = b;
        stem = stem;
        options = options;
        question_ref = ref;
      },
      r₆,
    )

get_question-put_question :
    (q : PacketQuestion) (r : Bytes) → get_question (put_question q r) ≡ (q, r)
unfolding get_question put_question
get_question-put_question q r = simp (get-put, get_texts-put_texts)

unfoldable pub put_questions : List PacketQuestion → Bytes
put_questions [] = []
put_questions (q ∷ qs) = put_question q (put_questions qs)

unfoldable pub get_questions : ℕ → Bytes → List PacketQuestion
get_questions zero x = []
get_questions (suc n) x = let (q, r) = get_question x in q ∷ get_questions n r

get_questions-put_questions :
    (qs : List PacketQuestion) → get_questions (length qs) (put_questions qs) ≡ qs
unfolding get_questions put_questions
get_questions-put_questions [] = refl
get_questions-put_questions (q ∷ qs) =
    rw (get_question-put_question q (put_questions qs))
      (ap (λ l. q ∷ l) (get_questions-put_questions qs))

unfoldable pub put_packet : ExamPacket → Bytes
put_packet p =
    length p.questions
    ∷ put p.tenant_id
        (put p.student_uuid (put p.exam_id (put p.variant_seed (put_questions p.questions))))

unfoldable pub get_packet : Bytes → ExamPacket
get_packet x =
    let (n, r₁) = take_number x in
    let (tenant, r₂) = get r₁ in
    let (student, r₃) = get r₂ in
    let (exam, r₄) = get r₃ in
    let (seed, r₅) = get r₄ in
    record {
      tenant_id = tenant;
      student_uuid = student;
      exam_id = exam;
      variant_seed = seed;
      questions = get_questions n r₅;
    }

get_packet-put_packet : (p : ExamPacket) → get_packet (put_packet p) ≡ p
unfolding get_packet put_packet
get_packet-put_packet p = simp (get-put, get_questions-put_questions)

abbrev pub toy_packet_codec : Codec ExamPacket
toy_packet_codec = record {
  serialize = λ p. some (put_packet p);
  deserialize = λ b. some (get_packet b);
  codec_error = "bincode error";
}

pub toy_packet_codec-CodecLaw : CodecLaw toy_packet_codec
toy_packet_codec-CodecLaw = record {
  deserialize_serialize =
      λ p b h. let e : put_packet p ≡ b = cc in rw (← e) (ap some (get_packet-put_packet p));
}

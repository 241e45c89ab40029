-- ===== src/Edge/Queue/Toy.antt =====
-- A toy codec for queues, for the tests: it writes each text after its length.
use oetp.Prelude.{
  ℕ, zero, suc, ◌≡◌, refl, ap, Option, none, some, List, [], ◌∷◌, ◌++◌, arith, length, take, drop,
  length-append, take-append-drop, length-take, Bytes, append_split,
}
use oetp.Crates.{Codec, CodecLaw}
use oetp.Edge.Queue.{QueuedSubmission}

unfoldable pub put : Bytes → Bytes → Bytes
put x r = length x ∷ (x ++ r)

unfoldable pub get : Bytes → Bytes × Bytes
get [] = ([], [])
get (n ∷ r) = (take n r, drop n r)

get-put : (x r : Bytes) → get (put x r) ≡ (x, r)
unfolding get put
get-put x r =
    let (a, b) =
      append_split (take (length x) (x ++ r)) x (drop (length x) (x ++ r)) r
        (rw (length-take, length-append) (omega arith)) (take-append-drop (length x) (x ++ r)) in
    rw (a, b) refl

unfoldable pub put_submission : QueuedSubmission → Bytes → Bytes
put_submission s r = put s.tenant_id (
    put s.exam_id (
      put s.student_uuid (
        put s.packet_hash (
          put s.answers_hash
            (put s.merkle_leaf (put (s.timestamp ∷ []) (put s.signature (put s.receipt_id r))))))))

abbrev pub head_or_zero : Bytes → ℕ
head_or_zero [] = 0
head_or_zero (b ∷ x) = b

unfoldable pub get_submission : Bytes → QueuedSubmission × Bytes
get_submission x =
    let (t, r₁) = get x in
    let (e, r₂) = get r₁ in
    let (u, r₃) = get r₂ in
    let (p, r₄) = get r₃ in
    let (a, r₅) = get r₄ in
    let (l, r₆) = get r₅ in
    let (ts, r₇) = get r₆ in
    let (sig, r₈) = get r₇ in
    let (id, r₉) = get r₈ in
    (
      record {
        tenant_id = t;
        exam_id = e;
        student_uuid = u;
        packet_hash = p;
        answers_hash = a;
        merkle_leaf = l;
        timestamp = head_or_zero ts;
        signature = sig;
        receipt_id = id;
      },
      r₉,
    )

get_submission-put_submission :
    (s : QueuedSubmission) (r : Bytes) → get_submission (put_submission s r) ≡ (s, r)
unfolding get_submission put_submission
get_submission-put_submission s r = simp get-put

unfoldable pub put_all : List QueuedSubmission → Bytes
put_all [] = []
put_all (s ∷ q) = put_submission s (put_all q)

unfoldable pub get_all : ℕ → Bytes → List QueuedSubmission
get_all zero x = []
get_all (suc n) x = let (s, r) = get_submission x in s ∷ get_all n r

get_all-put_all : (q : List QueuedSubmission) → get_all (length q) (put_all q) ≡ q
unfolding get_all put_all
get_all-put_all [] = refl
get_all-put_all (s ∷ q) =
    rw (get_submission-put_submission s (put_all q)) (ap (λ l. s ∷ l) (get_all-put_all q))

abbrev pub parse : Bytes → Option (List QueuedSubmission)
parse [] = none
parse (n ∷ x) = some (get_all n x)

abbrev pub toy_queue_codec : Codec (List QueuedSubmission)
toy_queue_codec = record {
  serialize = λ q. some (length q ∷ put_all q);
  deserialize = parse;
  codec_error = "bincode error";
}

pub toy_queue_codec-CodecLaw : CodecLaw toy_queue_codec
toy_queue_codec-CodecLaw = record {
  deserialize_serialize =
      λ q b h. let e : length q ∷ put_all q ≡ b = cc in rw (← e) (ap some (get_all-put_all q));
}

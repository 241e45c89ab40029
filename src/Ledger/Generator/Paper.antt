-- ===== src/Ledger/Generator/Paper.antt =====
-- The questions of one paper, from the selected items (`run_generator` of oetp-ledger/src/generator.rs).
use oetp.Prelude.{
  starts_with, ℕ, zero, suc, ◌+◌, ◌-◌, ◌*◌, ◌/◌, ◌%◌, List, [], ◌∷◌, ◌++◌, if◌then◌else◌, length,
  get_elem?, Bytes, utf8,
}
use oetp.Result.{Result, ok, panic, ◌>>=◌, expect}
use oetp.Packet.{PacketQuestion}
use oetp.QuestionBank.{QuestionItem, Rng, decimal}

-- The bitwise exclusive or of two bytes.
unfoldable pub xor_bits : ℕ → ℕ → ℕ → ℕ
xor_bits zero a b = 0
xor_bits (suc n) a b = (a % 2 + b % 2) % 2 + 2 * xor_bits n (a / 2) (b / 2)

-- The seed for the options of the question with the index `i`.
unfoldable pub option_seed : Bytes → ℕ → Bytes
unfolding xor_bits
option_seed (a ∷ b ∷ seed) i =
    xor_bits 8 a ((i + 1) % 256) ∷ xor_bits 8 b ((i + 1) / 256 % 256) ∷ seed
option_seed seed i = seed

-- `str::replace`, with the number of bytes still to be passed over of an occurrence.
unfoldable replace_from : ℕ → Bytes → Bytes → Bytes → Bytes
unfolding starts_with
replace_from skip pat value [] = []
replace_from (suc skip) pat value (b ∷ x) = replace_from skip pat value x
replace_from zero pat value (b ∷ x) =
    let after = replace_from (length pat - 1) pat value x in
    let next = replace_from 0 pat value x in
    if starts_with pat (b ∷ x) then value ++ after else b ∷ next

-- The substitutions in the order in which the map gives them.
unfoldable pub substitute : Bytes → List (Bytes × Bytes) → Bytes
unfolding replace_from
substitute stem [] = stem
substitute stem ((key, value) ∷ rest) =
    substitute (replace_from 0 (utf8 "{{" ++ (key ++ utf8 "}}")) value stem) rest

-- `0..n`
unfoldable pub range : ℕ → ℕ → List ℕ
range i zero = []
range i (suc n) = i ∷ range (i + 1) n

-- `&options[idx]` for each index, which panics out of range.
unfoldable pub pick_options : List Bytes → List ℕ → Result (List Bytes)
pick_options options [] = ok []
pick_options options (i ∷ is) =
    let rest = pick_options options is in
    expect (get_elem? options i) >>= λ o. rest >>= λ l. ok (o ∷ l)

-- `variant_seed[0]`
abbrev pub first : Bytes → Result ℕ
first [] = panic
first (b ∷ x) = ok b

module _ {R : Type 0} (rand : Rng R) (from_seed : Bytes → R) where
  -- The question with the index `i` of a paper.
  unfoldable pub packet_question : Bytes → ℕ → QuestionItem → Result PacketQuestion
  unfolding option_seed substitute range pick_options decimal
  packet_question variant_seed i item = do
    b ← first variant_seed
    variant ← expect (get_elem? item.variants (b % length item.variants))
    let (shuffled, rng) =
        rand.shuffle (from_seed (option_seed variant_seed i)) (range 0 (length variant.options))
    options ← pick_options variant.options shuffled
    ok (record {
      bank_item_id = item.id;
      variant_id = variant.id;
      stem = substitute item.stem variant.substitutions;
      options = options;
      question_ref = utf8 "q_" ++ utf8 (decimal 19 (i + 1));
    })

  unfoldable pub packet_questions : Bytes → ℕ → List QuestionItem → Result (List PacketQuestion)
  unfolding packet_question
  packet_questions variant_seed i [] = ok []
  packet_questions variant_seed i (item ∷ items) =
      let rest = packet_questions variant_seed (i + 1) items in
      packet_question variant_seed i item >>= λ q. rest >>= λ l. ok (q ∷ l)

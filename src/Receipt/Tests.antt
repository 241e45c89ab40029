-- ===== src/Receipt/Tests.antt =====
-- The theorem on a student's copy of the answers at concrete answers.
use oetp.Prelude.{◌≡◌, refl, [], ◌∷◌, ◌++◌, Bytes}
use oetp.Result.{ok}
use oetp.Crates.Toy.{toy, toy-AesLaw}
use oetp.Receipt.{PersonalAnswerCopy, create_personal_answer_copy, decrypt_personal_answer_copy}
use oetp.Receipt.Copies.{decrypt-create}

abbrev answers : Bytes
answers = 65 ∷ 66 ∷ []

abbrev copy : PersonalAnswerCopy
copy = record {
  receipt_id = 1 ∷ [];
  encrypted_answers = ((2 ∷ []) ++ ((3 ∷ []) ++ [])) ++ answers;
  nonce = 3 ∷ [];
  answers_hash = toy.sha3 answers;
}

create_run : create_personal_answer_copy toy (1 ∷ []) answers (2 ∷ []) (3 ∷ []) ≡ ok copy
unfolding create_personal_answer_copy
create_run = refl

copy_run :
    (decrypt_personal_answer_copy toy copy (2 ∷ []) ≡ ok answers)
    × (copy.receipt_id ≡ 1 ∷ [])
    × (copy.answers_hash ≡ toy.sha3 answers)
copy_run = decrypt-create toy (1 ∷ []) answers (2 ∷ []) (3 ∷ []) toy-AesLaw create_run

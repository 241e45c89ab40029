-- ===== src/QuestionBank/Tests.antt =====
-- A bank of four questions, and a paper drawn from it. The numbers of f64 are whole tenths here.
use oetp.Prelude.{
  ℕ, zero, suc, ◌+◌, ◌*◌, ◌/◌, ◌≤◌, ◌<◌, ◌≡◌, refl, ◌⊎◌, Bool, not, List, [], ◌∷◌, arith, ltb, ◌==◌,
  length, take, length-take, count,
}
use oetp.Result.{invalid_input, ok, err}
use oetp.QuestionBank.{
  Difficulty, QuestionItem, QuestionVariant, QuestionBank, DifficultyRatio, Float, Rng, decimal,
  index_items, new, select_questions,
}
use oetp.QuestionBank.Indexed.{of, IsIndexed, new-IsIndexed}
use oetp.QuestionBank.Drawn.{RngLaw}
use oetp.QuestionBank.Selected.{wanted, IsPaper, select_questions-IsPaper}

abbrev pub tenths : Float ℕ
tenths = record {
  add = λ x y. x + y;
  nought = 0;
  three_tenths = 3;
  four_tenths = 4;
  less = ltb;
  far_from_one = λ x. not (x == 10);
  share = λ n x. (n * x + 5) / 10;
}

-- The generator takes the first elements, and leaves their order.
abbrev pub first_ones : Rng ℕ
first_ones = record { choose_multiple = λ r l n. (take n l, r + 1); shuffle = λ r l. (l, r + 1) }

count-take : {A : Type 0} (p : A → Bool) (n : ℕ) (l : List A) → count p (take n l) ≤ count p l
unfolding count
count-take p zero l = omega arith
count-take p (suc n) [] = omega arith
count-take p (suc n) (x ∷ l) = ground (arith, count-take p n l)

pub first_ones-RngLaw : RngLaw first_ones
first_ones-RngLaw = record {
  length-choose = λ r l n h. rw length-take (omega arith);
  count-choose = λ r l n p. count-take p n l;
  count-shuffle = λ r l p. refl;
}

abbrev pub variant : QuestionVariant
variant = record { id = 1; substitutions = []; options = (b'x' ∷ []) ∷ []; correct_index = 0 }

abbrev item : ℕ → Difficulty → QuestionItem
item id difficulty = record { id = id; difficulty = difficulty; stem = []; variants = variant ∷ [] }

abbrev pub items : List QuestionItem
items =
    item 1 Difficulty.easy
    ∷ item 2 Difficulty.hard
    ∷ item 3 Difficulty.medium
    ∷ item 4 Difficulty.easy
    ∷ []

abbrev pub bank : QuestionBank
bank = record {
  items = items;
  indices = record { easy_indices = 0 ∷ 3 ∷ []; medium_indices = 2 ∷ []; hard_indices = 1 ∷ [] };
}

pub made : new items ≡ ok bank
unfolding new index_items
made = refl

number_120 : decimal 19 120 ≡ "120"
unfolding decimal
number_120 = refl

bank_indices : (bank.items ≡ items) × IsIndexed bank
bank_indices = new-IsIndexed items made

abbrev ratio : DifficultyRatio ℕ
ratio = record { easy_ratio = 5; medium_ratio = 2; hard_ratio = 3 }

select_questions-IsPaper_example :
    (((d : Difficulty) → wanted tenths first_ones bank 3 ratio 0 d ≤ length (of d bank.indices))
      × (drawn : List QuestionItem × ℕ) × (select_questions tenths first_ones bank 3 ratio 0
          ≡ ok drawn)
      × IsPaper tenths first_ones bank 3 ratio 0 drawn.0)
    ⊎ ((d : Difficulty) × (length (of d bank.indices) < wanted tenths first_ones bank 3 ratio 0 d)
        × (select_questions tenths first_ones bank 3 ratio 0
            ≡ err (invalid_input "not enough questions in bank for the requested ratio")))
select_questions-IsPaper_example =
    select_questions-IsPaper tenths first_ones bank 3 ratio 0 first_ones-RngLaw
      ((new-IsIndexed items made).1)

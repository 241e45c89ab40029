-- ===== src/QuestionBank.antt =====
-- oetp-core/src/question_bank.rs: the pool of questions and the drawing of a paper from it. The numbers
-- of f64 and the random generator of the crate rand are parameters.
pub mod Drawn
pub mod Indexed
pub mod Selected
pub mod Tests
use oetp.Prelude.{
  ℕ, zero, suc, ◌+◌, ◌-◌, ◌*◌, ◌/◌, ◌%◌, ◌<◌, String, ap, Bool, not, ◌||◌, List, [], ◌∷◌, ◌++◌, ltb,
  if◌then◌else◌, length, get_elem?, is_empty, Bytes,
}
use oetp.Result.{invalid_input, io, Result, ok, panic, ◌>>=◌, ◌>>◌, reject, expect}
use Prim.Native.String.{◌++◌ as ◌<>◌, slice}

pub data Difficulty : Type 0 where
  easy medium hard : Difficulty

pub record QuestionVariant : Type 0 where
  pub id : ℕ
  pub substitutions : List (Bytes × Bytes)
  pub options : List Bytes
  pub correct_index : ℕ

pub record QuestionItem : Type 0 where
  pub id : ℕ
  pub difficulty : Difficulty
  pub stem : Bytes
  pub variants : List QuestionVariant

-- The indices of the items by their difficulty.
pub record Indices : Type 0 where
  pub easy_indices : List ℕ
  pub medium_indices : List ℕ
  pub hard_indices : List ℕ

pub record QuestionBank : Type 0 where
  pub items : List QuestionItem
  pub indices : Indices

abbrev digit : ℕ → String
digit n = slice "0123456789" n (n + 1)

-- The decimal digits of a number, of which a u64 has 20 at most.
unfoldable pub decimal : ℕ → ℕ → String
decimal zero n = digit (n % 10)
decimal (suc more) n =
    let front = decimal more (n / 10) in if ltb n 10 then digit n else ◌<>◌ front (digit (n % 10))

-- `push(i)` on one of the three, in front: the loop meets the later items first here.
abbrev pub push : Difficulty → ℕ → Indices → Indices
push Difficulty.easy i x = record x { easy_indices = i ∷ x.easy_indices }
push Difficulty.medium i x = record x { medium_indices = i ∷ x.medium_indices }
push Difficulty.hard i x = record x { hard_indices = i ∷ x.hard_indices }

-- The loop of `QuestionBank::new`, from the item with the index `i` on.
unfoldable pub index_items : ℕ → List QuestionItem → Result Indices
unfolding decimal
index_items i [] = ok (record { easy_indices = []; medium_indices = []; hard_indices = [] })
index_items i (item ∷ items) =
    let rest = index_items (i + 1) items in
    reject (is_empty item.variants)
      (invalid_input (◌<>◌ "question item " (◌<>◌ (decimal 19 item.id) " has no variants")))
    >> (rest >>= λ x. ok (push item.difficulty i x))

unfoldable pub new : List QuestionItem → Result QuestionBank
unfolding index_items
new items = do
  reject (is_empty items) (invalid_input "question bank cannot be empty")
  indices ← index_items 0 items
  reject
      (is_empty indices.easy_indices
        || is_empty indices.medium_indices
        || is_empty indices.hard_indices)
      (invalid_input "question bank must contain at least one item of each difficulty")
  ok (record { items = items; indices = indices })

-- What the code does with an f64.
pub record Float (F : Type 0) : Type 0 where
  pub add : F → F → F
  pub nought : F
  pub less : F → F → Bool
  pub three_tenths : F
  pub four_tenths : F
  -- `(x - 1.0).abs() > 1e-6`
  pub far_from_one : F → Bool
  -- `(n as f64 * x).round() as usize`
  pub share : ℕ → F → ℕ

pub record DifficultyRatio (F : Type 0) : Type 0 where
  pub easy_ratio : F
  pub medium_ratio : F
  pub hard_ratio : F

-- What the code asks of a random generator with the states `R`: `choose_multiple`, and `shuffle`.
pub record Rng (R : Type 0) : Type 1 where
  pub choose_multiple : {A : Type 0} → R → List A → ℕ → List A × R
  pub shuffle : {A : Type 0} → R → List A → List A × R

module _ {F : Type 0} (f : Float F) where
  unfoldable pub new_ratio : F → F → F → Result (DifficultyRatio F)
  new_ratio e m h = do
    let total = f.add (f.add e m) h
    reject (f.far_from_one total) (invalid_input "difficulty ratio must sum to 1.0")
    reject (f.less e f.nought || f.less m f.nought || f.less h f.nought)
        (invalid_input "difficulty ratio must be non-negative")
    ok (record { easy_ratio = e; medium_ratio = m; hard_ratio = h })

-- `&bank.items[i]` for each index, which panics out of range.
unfoldable pub pick : List QuestionItem → List ℕ → Result (List QuestionItem)
pick items [] = ok []
pick items (i ∷ is) =
    let rest = pick items is in expect (get_elem? items i) >>= λ item. rest >>= λ l. ok (item ∷ l)

module _ {F : Type 0} (f : Float F) {R : Type 0} (rand : Rng R) where
  unfoldable pub select_questions :
      QuestionBank → ℕ → DifficultyRatio F → R → Result (List QuestionItem × R)
  unfolding pick
  select_questions bank num_questions ratio rng = do
    let n_easy = f.share num_questions ratio.easy_ratio
    let n_medium = f.share num_questions ratio.medium_ratio
    let n_hard = f.share num_questions ratio.hard_ratio
    let x = bank.indices
    reject
        (ltb (length x.easy_indices) n_easy
          || ltb (length x.medium_indices) n_medium
          || ltb (length x.hard_indices) n_hard)
        (invalid_input "not enough questions in bank for the requested ratio")
    let (es, rng₁) = rand.choose_multiple rng x.easy_indices n_easy
    let (ms, rng₂) = rand.choose_multiple rng₁ x.medium_indices n_medium
    let (hs, rng₃) = rand.choose_multiple rng₂ x.hard_indices n_hard
    e ← pick bank.items es
    m ← pick bank.items ms
    h ← pick bank.items hs
    ok (rand.shuffle rng₃ (e ++ (m ++ h)))

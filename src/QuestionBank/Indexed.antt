-- ===== src/QuestionBank/Indexed.antt =====
-- The indices of a bank (oetp-core/src/question_bank.rs) against its items.
use oetp.Prelude.{
  ◌∙◌, ap, [], suc, ◌||◌, length, ◌≤◌, is_empty, ℕ, suc, ◌+◌, ◌≡◌, refl, Bool, true, false, Option,
  none, some, List, ◌∷◌, arith, if◌then◌else◌, get_elem?, all, count,
}
use oetp.Result.{ok-injective, Error, ok}
use oetp.Env.Read.{first_step}
use oetp.QuestionBank.{
  reject, Difficulty, QuestionItem, Indices, QuestionBank, push, index_items, new,
}

abbrev pub same : Difficulty → Difficulty → Bool
same Difficulty.easy Difficulty.easy = true
same Difficulty.medium Difficulty.medium = true
same Difficulty.hard Difficulty.hard = true
same _ _ = false

abbrev pub is : Difficulty → QuestionItem → Bool
is d item = same d item.difficulty

abbrev pub of : Difficulty → Indices → List ℕ
of Difficulty.easy x = x.easy_indices
of Difficulty.medium x = x.medium_indices
of Difficulty.hard x = x.hard_indices

-- The test of the item with this index.
abbrev test_found : (QuestionItem → Bool) → Option QuestionItem → Bool
test_found p none = false
test_found p (some item) = p item

abbrev pub at : (QuestionItem → Bool) → List QuestionItem → ℕ → Bool
at p items i = test_found p (get_elem? items i)

index_items-cons :
    (i : ℕ) (item : QuestionItem) (items : List QuestionItem) {x : Indices}
    → index_items i (item ∷ items) ≡ ok x
    → (y : Indices) × (index_items (i + 1) items ≡ ok y) × (push item.difficulty i y ≡ x)
unfolding index_items
index_items-cons i item items h =
    let (_, _, h₁) = first_step (reject (is_empty item.variants) _) h in
    let (y, e, h₂) = first_step (index_items (i + 1) items) h₁ in (y, e, ok-injective h₂)

push-of :
    (d e : Difficulty) (q : ℕ → Bool) (i : ℕ) (x : Indices)
    → (same d e ≡ true → q i ≡ true)
    → all q (of d x) ≡ true
    → all q (of d (push e i x)) ≡ true
push-of Difficulty.easy Difficulty.easy q i x h a = ground (arith, h refl)
push-of Difficulty.easy Difficulty.medium q i x h a = a
push-of Difficulty.easy Difficulty.hard q i x h a = a
push-of Difficulty.medium Difficulty.easy q i x h a = a
push-of Difficulty.medium Difficulty.medium q i x h a = ground (arith, h refl)
push-of Difficulty.medium Difficulty.hard q i x h a = a
push-of Difficulty.hard Difficulty.easy q i x h a = a
push-of Difficulty.hard Difficulty.medium q i x h a = a
push-of Difficulty.hard Difficulty.hard q i x h a = ground (arith, h refl)

abbrev pub counted : (ℕ → Bool) → Indices → ℕ
counted q x = count q x.easy_indices + count q x.medium_indices + count q x.hard_indices

push-counted :
    (e : Difficulty) (q : ℕ → Bool) (i : ℕ) (x : Indices)
    → counted q (push e i x) ≡ (if q i then suc (counted q x) else counted q x)
unfolding count
push-counted Difficulty.easy q i x = ground arith
push-counted Difficulty.medium q i x = ground arith
push-counted Difficulty.hard q i x = ground arith

length-positive : (l : List ℕ) → is_empty l ≡ false → 1 ≤ length l
length-positive [] h = absurd (ground (arith, h))
length-positive (x ∷ l) h = omega arith

zero_index : (i : ℕ) → i ≡ 0 + i
zero_index i = omega arith

add_nought : (j : ℕ) → j + 0 ≡ j
add_nought j = omega arith

filled :
    (x : Indices) (e : Error)
    → reject (is_empty x.easy_indices || is_empty x.medium_indices || is_empty x.hard_indices) e
      ≡ ok tt
    → (d : Difficulty) → 1 ≤ length (of d x)
filled x e h Difficulty.easy = length-positive x.easy_indices (ground (arith, h))
filled x e h Difficulty.medium = length-positive x.medium_indices (ground (arith, h))
filled x e h Difficulty.hard = length-positive x.hard_indices (ground (arith, h))

next_index : (j i : ℕ) → j + (i + 1) ≡ suc j + i
next_index j i = omega arith

-- What holds at the items of a difficulty holds at its indices.
index_items-all :
    (d : Difficulty) (q : ℕ → Bool) (i : ℕ) (items : List QuestionItem) {x : Indices}
    → index_items i items ≡ ok x
    → ((j : ℕ) → at (is d) items j ≡ true → q (j + i) ≡ true)
    → all q (of d x) ≡ true
unfolding index_items
index_items-all d q i [] h f = rw (← ok-injective h) (nothing d)
  where
    nothing :
        (d : Difficulty)
        → all q (of d (record { easy_indices = []; medium_indices = []; hard_indices = [] })) ≡ true
    nothing Difficulty.easy = refl
    nothing Difficulty.medium = refl
    nothing Difficulty.hard = refl
index_items-all d q i (item ∷ items) {x} h f =
    let (y, e, pushed) = index_items-cons i item items h in
    let rest =
      index_items-all d q (i + 1) items e (λ j there. rw (next_index j i) (f (suc j) there)) in
    rw (← pushed) (push-of d item.difficulty q i y (λ here. ap q (zero_index i) ∙ f 0 here) rest)

-- The indices count what the items do.
index_items-counted :
    (p : QuestionItem → Bool) (q : ℕ → Bool) (i : ℕ) (items : List QuestionItem) {x : Indices}
    → index_items i items ≡ ok x
    → ((j : ℕ) → q (j + i) ≡ at p items j)
    → counted q x ≡ count p items
unfolding index_items count
index_items-counted p q i [] h f = rw (← ok-injective h) refl
index_items-counted p q i (item ∷ items) {x} h f =
    let (y, e, pushed) = index_items-cons i item items h in
    let rest = index_items-counted p q (i + 1) items e (λ j. rw (next_index j i) (f (suc j))) in
    let here : q i ≡ p item = ap q (zero_index i) ∙ f 0 in
    rw (← pushed) (rw (push-counted item.difficulty q i y) (rw here (rw rest refl)))

-- A bank's items and indices: at each index of a list is an item of its difficulty, the lists hold as many
-- indices of items of any kind as there are items of that kind, and none is empty.
pub record IsIndexed (bank : QuestionBank) : Type 0 where
  pub difficulties : (d : Difficulty) → all (at (is d) bank.items) (of d bank.indices) ≡ true
  pub each_once :
      (p : QuestionItem → Bool) → counted (at p bank.items) bank.indices ≡ count p bank.items
  pub any_there : (d : Difficulty) → 1 ≤ length (of d bank.indices)

-- A bank that `new` makes has the items that were given, and is indexed: every index is that of an item of
-- the list's difficulty, of the items of any kind exactly as many are listed as there are, and there is an
-- item of each difficulty.
pub new-IsIndexed :
    (items : List QuestionItem) {bank : QuestionBank}
    → new items ≡ ok bank
    → (bank.items ≡ items) × IsIndexed bank
unfolding new
new-IsIndexed items {bank} h =
    let (_, _, h₁) = first_step (reject (is_empty items) _) h in
    let (x, e, h₂) = first_step (index_items 0 items) h₁ in
    let (_, full, h₃) =
      first_step
        (reject (is_empty x.easy_indices || is_empty x.medium_indices || is_empty x.hard_indices) _)
        h₂ in
    rw (← ok-injective h₃) (
      refl,
      record {
        difficulties =
            λ d. index_items-all d (at (is d) items) 0 items e (λ j there. rw (add_nought j) there);
        each_once = λ p. index_items-counted p (at p items) 0 items e (λ j. rw (add_nought j) refl);
        any_there = filled x _ full;
      },
    )

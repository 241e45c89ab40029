-- ===== src/QuestionBank/Drawn.antt =====
-- What the generator draws from a list of a bank's questions, and their numbers by difficulty
-- (oetp-core/src/question_bank.rs).
use oetp.Prelude.{
  ℕ, ◌≤◌, ◌≡◌, refl, sym, ap, ◌∙◌, inl, inr, Bool, true, false, not, List, [], ◌∷◌, arith,
  if◌then◌else◌, Bool-cases, Option-cases, length, get_elem?, all, count, count_all, count_none,
  none_counted,
}
use oetp.Result.{ok}
use oetp.QuestionBank.{Difficulty, QuestionItem, Rng, pick}
use oetp.QuestionBank.Indexed.{same, is, at}

-- The generator chooses `n` elements where there are `n`, none more often than it is in the list, and a
-- shuffle keeps the number of each kind.
pub record RngLaw {R : Type 0} (rand : Rng R) : Type 1 where
  pub length-choose :
      {A : Type 0} (r : R) (l : List A) (n : ℕ)
      → n ≤ length l
      → length (rand.choose_multiple r l n).0 ≡ n
  pub count-choose :
      {A : Type 0} (r : R) (l : List A) (n : ℕ) (p : A → Bool)
      → count p (rand.choose_multiple r l n).0 ≤ count p l
  pub count-shuffle :
      {A : Type 0} (r : R) (l : List A) (p : A → Bool) → count p (rand.shuffle r l).0 ≡ count p l

-- Indices that are all in range are picked, each with its item.
pub pick_ok :
    (items : List QuestionItem) (l : List ℕ)
    → all (at (λ item. true) items) l ≡ true
    → (chosen : List QuestionItem) × (pick items l ≡ ok chosen)
      × ((p : QuestionItem → Bool) → count p chosen ≡ count (at p items) l)
unfolding pick count
pick_ok items [] h = ([], refl, λ p. refl)
pick_ok items (i ∷ l) h = elim (Option-cases (get_elem? items i)) [
  | inl missing ↦ absurd (ground (arith, missing, h))
  | inr (item, there) ↦
      let (chosen, e, c) = pick_ok items l (ground (arith, h)) in
      (item ∷ chosen, rw there (rw e refl), λ p. rw there (rw (c p) refl))
]

pub all_implies :
    {A : Type 0} (p q : A → Bool) (l : List A)
    → ((x : A) → p x ≡ true → q x ≡ true)
    → all p l ≡ true
    → all q l ≡ true
all_implies p q [] f h = refl
all_implies p q (x ∷ l) f h = ground (arith, h, f x, all_implies p q l f)

pub all-true : {A : Type 0} (l : List A) → all (λ x. true) l ≡ true
all-true [] = refl
all-true (x ∷ l) = all-true l

pub at_implies :
    (p q : QuestionItem → Bool) (items : List QuestionItem) (i : ℕ)
    → ((x : QuestionItem) → p x ≡ true → q x ≡ true)
    → at p items i ≡ true
    → at q items i ≡ true
at_implies p q items i f h = elim (Option-cases (get_elem? items i)) [
  | inl missing ↦ absurd (ground (arith, missing, h))
  | inr (item, there) ↦ rw there (f item (rw there at h))
]

pub at_not :
    (p : QuestionItem → Bool) (items : List QuestionItem) (i : ℕ)
    → at p items i ≡ true
    → not (at (λ x. not (p x)) items i) ≡ true
at_not p items i h = elim (Option-cases (get_elem? items i)) [
  | inl missing ↦ absurd (ground (arith, missing, h))
  | inr (item, there) ↦ ground (arith, there, h)
]

-- The questions of a difficulty, counted by a difficulty.
abbrev pub if_same : Difficulty → Difficulty → ℕ → ℕ
if_same d e n = if same d e then n else 0

same_sound : (d e : Difficulty) → same d e ≡ true → d ≡ e
same_sound Difficulty.easy Difficulty.easy h = refl
same_sound Difficulty.easy Difficulty.medium h = absurd (ground (arith, h))
same_sound Difficulty.easy Difficulty.hard h = absurd (ground (arith, h))
same_sound Difficulty.medium Difficulty.easy h = absurd (ground (arith, h))
same_sound Difficulty.medium Difficulty.medium h = refl
same_sound Difficulty.medium Difficulty.hard h = absurd (ground (arith, h))
same_sound Difficulty.hard Difficulty.easy h = absurd (ground (arith, h))
same_sound Difficulty.hard Difficulty.medium h = absurd (ground (arith, h))
same_sound Difficulty.hard Difficulty.hard h = refl

same_sym : (d e : Difficulty) → same d e ≡ true → same e d ≡ true
same_sym d e h = let p = same_sound d e h in ap (λ x. same x d) (sym p) ∙ ap (λ x. same d x) p ∙ h

same_trans : (d e z : Difficulty) → same d e ≡ true → same e z ≡ true → same d z ≡ true
same_trans d e z h k = ap (λ x. same x z) (same_sound d e h) ∙ k

apart :
    (d e : Difficulty) → same d e ≡ false → (x : QuestionItem) → is d x ≡ true → not (is e x) ≡ true
apart d e unlike x h = elim (Bool-cases (is e x)) [
  | inr other ↦ ground (arith, other)
  | inl alike ↦
      absurd (ground (arith, unlike, same_trans d x.difficulty e h (same_sym e x.difficulty alike)))
]

pub count_of :
    (d e : Difficulty) (l : List QuestionItem)
    → all (is d) l ≡ true
    → count (is e) l ≡ if_same d e (length l)
count_of d e l h = elim (Bool-cases (same d e)) [
  | inl alike ↦
      let all_e =
        all_implies (is d) (is e) l (λ x k. same_trans e d x.difficulty (same_sym d e alike) k) h in
      rw alike (count_all (is e) l all_e)
  | inr other ↦ rw other (count_none (is e) l (all_implies (is d) _ l (apart d e other) h))
]

-- What is chosen of a list that meets a test meets it too.
pub choose-all :
    {R : Type 0} (rand : Rng R) (law : RngLaw rand) (r : R) (l : List ℕ) (n : ℕ) (p : ℕ → Bool)
    → all p l ≡ true
    → all p (rand.choose_multiple r l n).0 ≡ true
choose-all rand law r l n p h =
    let few = law.count-choose r l n (λ x. not (p x)) in
    let zero_there : count (λ x. not (p x)) l ≡ 0 =
      count_none (λ x. not (p x)) l (double_not l h) in
    none_counted p (rand.choose_multiple r l n).0 (omega (arith, few, zero_there))
  where
    double_not : (l : List ℕ) → all p l ≡ true → all (λ x. not (not (p x))) l ≡ true
    double_not [] h = refl
    double_not (x ∷ l) h = ground (arith, double_not l)

-- ===== src/QuestionBank/Selected.antt =====
-- What is drawn from a bank (oetp-core/src/question_bank.rs).
use oetp.Prelude.{
  ℕ, ◌+◌, ◌≤◌, ◌<◌, ◌≡◌, refl, sym, ap, ◌∙◌, ◌⊎◌, inl, inr, Bool, true, false, not, ◌||◌, List,
  ◌++◌, arith, ltb, leb, Bool-cases, length, all, count, count_append, count_all, count_none,
  none_counted,
}
use oetp.Result.{err, ok}
use oetp.QuestionBank.{
  invalid_input, select_questions, Difficulty, DifficultyRatio, QuestionBank, Float, QuestionItem,
  Rng, pick,
}
use oetp.QuestionBank.Indexed.{is, of, IsIndexed, at}
use oetp.QuestionBank.Drawn.{
  RngLaw, pick_ok, all_implies, all-true, at_implies, at_not, if_same, count_of, choose-all,
}

module _ {F : Type 0} (f : Float F) {R : Type 0} (rand : Rng R) (bank : QuestionBank)
    (num_questions : ℕ) (ratio : DifficultyRatio F) (rng : R) where
  -- How many questions of a difficulty are asked for.
  abbrev pub wanted : Difficulty → ℕ
  wanted Difficulty.easy = f.share num_questions ratio.easy_ratio
  wanted Difficulty.medium = f.share num_questions ratio.medium_ratio
  wanted Difficulty.hard = f.share num_questions ratio.hard_ratio

  -- A paper: as many questions of each difficulty as are wanted, and none more often than it is in the bank.
  pub record IsPaper (paper : List QuestionItem) : Type 0 where
    pub number :
        length paper ≡ wanted Difficulty.easy + wanted Difficulty.medium + wanted Difficulty.hard
    pub each : (d : Difficulty) → count (is d) paper ≡ wanted d
    pub from_bank : (p : QuestionItem → Bool) → count p paper ≤ count p bank.items

  module _ (law : RngLaw rand) (indexed : IsIndexed bank) where
    -- What is chosen of one difficulty.
    record Chosen (d : Difficulty) (r : R) : Type 0 where
      picked : List QuestionItem
      found : pick bank.items (rand.choose_multiple r (of d bank.indices) (wanted d)).0 ≡ ok picked
      size : length picked ≡ wanted d
      kind : all (is d) picked ≡ true
      few : (p : QuestionItem → Bool) → count p picked ≤ count (at p bank.items) (of d bank.indices)

    choose_one : (d : Difficulty) (r : R) → wanted d ≤ length (of d bank.indices) → Chosen d r
    choose_one d r enough =
        let l = of d bank.indices in
        let is_there =
          choose-all rand law r l (wanted d) (at (is d) bank.items) (indexed.difficulties d) in
        let chosen = (rand.choose_multiple r l (wanted d)).0 in
        let in_range =
          all_implies (at (is d) bank.items) (at (λ item. true) bank.items) chosen
            (λ i. at_implies (is d) (λ item. true) bank.items i (λ x _. refl)) is_there in
        let others =
          all_implies (at (is d) bank.items) _ chosen (at_not (is d) bank.items) is_there in
        let (picked, found, counts) = pick_ok bank.items chosen in_range in
        let number = counts (λ item. true) in
        record {
          picked = picked;
          found = found;
          size =
              sym (count_all (λ item. true) picked (all-true picked))
              ∙ (number
                  ∙ (count_all (at (λ item. true) bank.items) chosen in_range
                      ∙ law.length-choose r l (wanted d) enough));
          kind =
              none_counted (is d) picked (counts (λ x. not (is d x)) ∙ count_none _ chosen others);
          few = λ p. rw (counts p) (law.count-choose r l (wanted d) (at p bank.items));
        }

    enough :
        (d : Difficulty)
        → (wanted d ≤ length (of d bank.indices)) ⊎ (length (of d bank.indices) < wanted d)
    enough d = elim (Bool-cases (leb (wanted d) (length (of d bank.indices)))) [
      | inl fits ↦ inl (ground (arith, fits))
      | inr lacks ↦ inr (ground (arith, lacks))
    ]

    all_enough :
        wanted Difficulty.easy ≤ length bank.indices.easy_indices
        → wanted Difficulty.medium ≤ length bank.indices.medium_indices
        → wanted Difficulty.hard ≤ length bank.indices.hard_indices
        → (d : Difficulty) → wanted d ≤ length (of d bank.indices)
    all_enough a b z Difficulty.easy = a
    all_enough a b z Difficulty.medium = b
    all_enough a b z Difficulty.hard = z

    count_three :
        {A : Type 0} (p : A → Bool) (r : R) (xs ys zs : List A)
        → count p (rand.shuffle r (xs ++ (ys ++ zs))).0 ≡ count p xs + (count p ys + count p zs)
    count_three p r xs ys zs =
        law.count-shuffle r (xs ++ (ys ++ zs)) p
        ∙ (count_append p xs (ys ++ zs) ∙ ap (λ n. count p xs + n) (count_append p ys zs))

    each_of :
        {r₀ r₁ r₂ : R} (e : Chosen Difficulty.easy r₀) (m : Chosen Difficulty.medium r₁)
        (h : Chosen Difficulty.hard r₂) (d : Difficulty)
        → count (is d) e.picked + (count (is d) m.picked + count (is d) h.picked) ≡ wanted d
    each_of e m h d =
        let a = count_of Difficulty.easy d e.picked e.kind in
        let b = count_of Difficulty.medium d m.picked m.kind in
        let z = count_of Difficulty.hard d h.picked h.kind in
        rw a (rw b (rw z (rw e.size (rw m.size (rw h.size (only d))))))
      where
        only :
            (d : Difficulty)
            → if_same Difficulty.easy d (wanted Difficulty.easy)
                + (if_same Difficulty.medium d (wanted Difficulty.medium)
                    + if_same Difficulty.hard d (wanted Difficulty.hard))
              ≡ wanted d
        only Difficulty.easy = omega arith
        only Difficulty.medium = omega arith
        only Difficulty.hard = omega arith

    paper :
        {r₀ r₁ r₂ : R} (e : Chosen Difficulty.easy r₀) (m : Chosen Difficulty.medium r₁)
        (h : Chosen Difficulty.hard r₂) (r : R)
        → IsPaper (rand.shuffle r (e.picked ++ (m.picked ++ h.picked))).0
    paper e m h r =
        let drawn = (rand.shuffle r (e.picked ++ (m.picked ++ h.picked))).0 in
        record {
          number =
              let three = count_three (λ item. true) r e.picked m.picked h.picked in
              omega (
                arith,
                three,
                count_all (λ item. true) drawn (all-true drawn),
                count_all (λ item. true) e.picked (all-true e.picked),
                count_all (λ item. true) m.picked (all-true m.picked),
                count_all (λ item. true) h.picked (all-true h.picked),
                e.size,
                m.size,
                h.size,
              );
          each = λ d. count_three (is d) r e.picked m.picked h.picked ∙ each_of e m h d;
          from_bank = λ p. omega (
            arith,
            count_three p r e.picked m.picked h.picked,
            e.few p,
            m.few p,
            h.few p,
            indexed.each_once p,
          );
        }

    -- A bank that is indexed gives a paper with the wanted number of questions of each difficulty, each no
    -- more often than it is in the bank, where it has as many of each; else it is refused. It never panics.
    pub select_questions-IsPaper :
        (((d : Difficulty) → wanted d ≤ length (of d bank.indices))
          × (drawn : List QuestionItem × R) × (select_questions f rand bank num_questions ratio rng
              ≡ ok drawn)
          × IsPaper drawn.0)
        ⊎ ((d : Difficulty) × (length (of d bank.indices) < wanted d)
            × (select_questions f rand bank num_questions ratio rng
                ≡ err (invalid_input "not enough questions in bank for the requested ratio")))
    unfolding select_questions
    select_questions-IsPaper = elim (enough Difficulty.easy) [
      | inr few ↦ inr (Difficulty.easy, few, ground (arith, few))
      | inl a ↦ elim (enough Difficulty.medium) [
        | inr few ↦ inr (Difficulty.medium, few, ground (arith, few))
        | inl b ↦ elim (enough Difficulty.hard) [
          | inr few ↦ inr (Difficulty.hard, few, ground (arith, few))
          | inl z ↦
              let e = choose_one Difficulty.easy rng a in
              let rng₁ =
                (rand.choose_multiple rng bank.indices.easy_indices (wanted Difficulty.easy)).1 in
              let m = choose_one Difficulty.medium rng₁ b in
              let rng₂ =
                (rand.choose_multiple rng₁ bank.indices.medium_indices
                  (wanted Difficulty.medium)).1 in
              let h = choose_one Difficulty.hard rng₂ z in
              let rng₃ =
                (rand.choose_multiple rng₂ bank.indices.hard_indices (wanted Difficulty.hard)).1 in
              let none_lacks : (ltb (length bank.indices.easy_indices) (wanted Difficulty.easy)
                    || ltb (length bank.indices.medium_indices) (wanted Difficulty.medium)
                    || ltb (length bank.indices.hard_indices) (wanted Difficulty.hard))
                  ≡ false =
                ground (arith, a, b, z) in
              inl (
                all_enough a b z,
                rand.shuffle rng₃ (e.picked ++ (m.picked ++ h.picked)),
                rw none_lacks (rw e.found (rw m.found (rw h.found refl))),
                paper e m h rng₃,
              )
        ]
      ]
    ]

-- ===== src/Merkle/Hashed.antt =====
-- The byte strings that are hashed for a tree and for a proof (oetp-core/src/merkle.rs).
use oetp.Prelude.{
  ℕ, zero, suc, ◌/◌, ◌^◌, ◌≤◌, ◌≡◌, refl, sym, ap, ◌∙◌, ◌≢◌, ◌⊎◌, inl, inr, List, [], ◌∷◌, ◌++◌,
  Memᴰ, arith, if◌then◌else◌, le-cases, Bool-cases, length, take, drop, length-take, length-drop,
  Bytes, utf8, beq, beq_sound, beq_iff, append_split, two_pow_pos, Memᴰ-append_left,
  Memᴰ-append_right, Memᴰ-take, Memᴰ-drop, Memᴰ-append_cases,
}
use oetp.Crates.{Crates, Sha3Law}
use oetp.Merkle.{
  beq, MerkleProof, is_even, leaf_prefix, internal_prefix, hash_leaf, hash_pair, climb_step,
}
use oetp.Merkle.Shape.{shape-large, shape-small, Node, tip, fork, shape, tips, value}

-- The byte strings that are hashed for a leaf and for a pair.
abbrev pub leaf_input : Bytes → Bytes
leaf_input d = leaf_prefix ++ d

abbrev pub pair_input : Bytes → Bytes → Bytes
pair_input l r = internal_prefix ++ (l ++ r)

-- The two prefixes keep leaves and inner nodes apart.
pub leaf_input-ne-pair_input : (d l r : Bytes) → leaf_input d ≢ pair_input l r
unfolding utf8
leaf_input-ne-pair_input d l r e = ground arith

abbrev pub step_input : Bytes → ℕ → Bytes → Bytes
step_input current i s = if is_even i then pair_input current s else pair_input s current

tips-fork : {x : Bytes} (l r : Node) → Memᴰ x (tips (fork l r)) → Memᴰ x (tips l ++ tips r)
unfolding tips
tips-fork l r m = m

pub step_input-ne-leaf_input :
    (current : Bytes) (i : ℕ) (s d : Bytes) → step_input current i s ≢ leaf_input d
step_input-ne-leaf_input current i s d e = elim (Bool-cases (is_even i)) [
  | inl even ↦ leaf_input-ne-pair_input d current s (sym (rw even at e))
  | inr odd ↦ leaf_input-ne-pair_input d s current (sym (rw odd at e))
]

module _ (c : Crates) where
  -- All that `verify` hashes after the leaf.
  unfoldable pub climb_inputs : Bytes → ℕ → List Bytes → List Bytes
  climb_inputs current i [] = []
  climb_inputs current i (s ∷ rest) =
      step_input current i s ∷ climb_inputs (climb_step c current i s) (i / 2) rest

  unfoldable pub proof_inputs : MerkleProof → List Bytes
  proof_inputs p = leaf_input p.leaf ∷ climb_inputs (hash_leaf c p.leaf) p.leaf_index p.siblings

  -- All that the tree hashes.
  unfoldable pub node_inputs : Node → List Bytes
  node_inputs (tip d) = leaf_input d ∷ []
  node_inputs (fork l r) = pair_input (value c l) (value c r) ∷ (node_inputs l ++ node_inputs r)

  -- Two different byte strings, one of each list, with one hash.
  pub record Collision (xs ys : List Bytes) : Type 0 where
    pub left : Bytes
    pub right : Bytes
    pub of_left : Memᴰ left xs
    pub of_right : Memᴰ right ys
    pub differ : left ≢ right
    pub collide : c.sha3 left ≡ c.sha3 right

  -- `n` is a subtree of `t`.
  pub data Sub (t : Node) : Node → Type 0 where
    here : Sub t t
    low : {l r : Node} → Sub t (fork l r) → Sub t l
    high : {l r : Node} → Sub t (fork l r) → Sub t r

  pub Sub-inputs :
      {t n : Node} {x : Bytes} → Sub t n → Memᴰ x (node_inputs n) → Memᴰ x (node_inputs t)
  unfolding node_inputs
  Sub-inputs here m = m
  Sub-inputs (low {r = r} s) m = Sub-inputs s (Memᴰ.tail (Memᴰ-append_left (node_inputs r) m))
  Sub-inputs (high {l = l} s) m = Sub-inputs s (Memᴰ.tail (Memᴰ-append_right (node_inputs l) m))

  pub Sub-tips : {t n : Node} {x : Bytes} → Sub t n → Memᴰ x (tips n) → Memᴰ x (tips t)
  unfolding tips
  Sub-tips here m = m
  Sub-tips (low {r = r} s) m = Sub-tips s (Memᴰ-append_left (tips r) m)
  Sub-tips (high {l = l} s) m = Sub-tips s (Memᴰ-append_right (tips l) m)

  pub shape-tips :
      (d : ℕ) (xs : List Bytes) {x : Bytes} → 1 ≤ length xs → Memᴰ x (tips (shape d xs)) → Memᴰ x xs
  shape-tips zero [] h m = absurd (omega arith)
  shape-tips zero (y ∷ ys) h m = unfold shape tips in tip_mem m
    where
      tip_mem : {x : Bytes} → Memᴰ x (y ∷ []) → Memᴰ x (y ∷ ys)
      tip_mem m = Memᴰ-append_left ys m
  shape-tips (suc d) xs {x} h m = elim (le-cases (length xs) (2 ^ d)) [
    | inl small ↦ shape-tips d xs h (rw (shape-small d xs small) at m)
    | inr large ↦
        let n = 2 ^ d in
        let m' : Memᴰ x (tips (shape d (take n xs)) ++ tips (shape d (drop n xs))) =
          tips-fork _ _ (rw (shape-large d xs large) at m) in
        elim (Memᴰ-append_cases (tips (shape d (take n xs))) m') [
          | inl l ↦
              Memᴰ-take n xs
                (shape-tips d (take n xs) (omega (arith, length-take n xs, two_pow_pos d)) l)
          | inr r ↦ Memᴰ-drop n xs (shape-tips d (drop n xs) (omega (arith, length-drop n xs)) r)
        ]
  ]

  -- An input whose hash is that of another one: the same input, or a collision.
  pub same_or_Collision :
      {xs ys : List Bytes} (a b : Bytes)
      → Memᴰ a xs
      → Memᴰ b ys
      → c.sha3 a ≡ c.sha3 b
      → (a ≡ b) ⊎ Collision xs ys
  same_or_Collision a b m n e = elim (Bool-cases (beq a b)) [
    | inl same ↦ inl (beq_sound a b same)
    | inr other ↦ inr (record {
      left = a;
      right = b;
      of_left = m;
      of_right = n;
      differ = λ p. (let q = (beq_iff a b).1 p in cc);
      collide = e;
    })
  ]

  pub climb_step-input :
      (current : Bytes) (i : ℕ) (s : Bytes)
      → climb_step c current i s ≡ c.sha3 (step_input current i s)
  unfolding climb_step hash_pair
  climb_step-input current i s = ground arith

  pub length-climb_step :
      Sha3Law c → (current : Bytes) (i : ℕ) (s : Bytes) → length (climb_step c current i s) ≡ 32
  length-climb_step law current i s =
      ap length (climb_step-input current i s) ∙ law.length-sha3 (step_input current i s)

  pub length-value : Sha3Law c → (n : Node) → length (value c n) ≡ 32
  unfolding value hash_leaf hash_pair
  length-value law (tip d) = law.length-sha3 (leaf_input d)
  length-value law (fork l r) = law.length-sha3 (pair_input (value c l) (value c r))

  -- What is joined in a step is one of the two parts of an equal pair.
  pub step_input-part :
      (current : Bytes) (i : ℕ) (s l r : Bytes)
      → length current ≡ 32
      → length s ≡ 32
      → length l ≡ 32
      → step_input current i s ≡ pair_input l r
      → (current ≡ l) ⊎ (current ≡ r)
  step_input-part current i s l r n m k e = elim (Bool-cases (is_even i)) [
    | inl even ↦
        let e' : pair_input current s ≡ pair_input l r = rw even at e in
        inl (
          (append_split current l s r (n ∙ sym k)
            (append_split internal_prefix internal_prefix _ _ refl e').1).0)
    | inr odd ↦
        let e' : pair_input s current ≡ pair_input l r = rw odd at e in
        inr (
          (append_split s l current r (m ∙ sym k)
            (append_split internal_prefix internal_prefix _ _ refl e').1).1)
  ]

  abbrev pub head_input : Node → Bytes
  head_input (tip d) = leaf_input d
  head_input (fork l r) = pair_input (value c l) (value c r)

  pub value-hash : (n : Node) → value c n ≡ c.sha3 (head_input n)
  unfolding value hash_leaf hash_pair
  value-hash (tip d) = refl
  value-hash (fork l r) = refl

  pub head_mem : (n : Node) → Memᴰ (head_input n) (node_inputs n)
  unfolding node_inputs
  head_mem (tip d) = Memᴰ.head refl
  head_mem (fork l r) = Memᴰ.head refl

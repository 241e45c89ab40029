-- ===== src/Merkle/Soundness.antt =====
-- What an accepted inclusion proof (oetp-core/src/merkle.rs) shows of its leaf.
use oetp.Prelude.{
  ℕ, ◌/◌, ◌≤◌, ◌≡◌, refl, sym, ap, ◌∙◌, ◌⊎◌, inl, inr, true, List, [], ◌∷◌, Memᴰ, length, All,
  Bytes, beq_sound, append_split,
}
use oetp.Result.{ok-injective, err-ne-ok, ok}
use oetp.Crates.{Crates, Sha3Law}
use oetp.Merkle.{MerkleTree, MerkleProof, leaf_prefix, hash_leaf, climb_step, climb, verify, new}
use oetp.Merkle.Shape.{Node, tip, fork, shape, tips, value}
use oetp.Merkle.Build.{new_total, none_given, too_many, built}
use oetp.Merkle.Hashed.{
  leaf_input, pair_input, leaf_input-ne-pair_input, step_input, step_input-ne-leaf_input,
  climb_inputs, proof_inputs, node_inputs, Collision, Sub, here, low, high, Sub-inputs, Sub-tips,
  shape-tips, same_or_Collision, climb_step-input, length-climb_step, length-value, step_input-part,
  value-hash, head_mem,
}

module _ (c : Crates) where
  -- The node whose value the chain reaches has a child, or is one, whose value it had before.
  step_sound :
      (t n : Node) (current : Bytes) (i : ℕ) (s : Bytes) {xs : List Bytes}
      → Sha3Law c
      → length current ≡ 32
      → length s ≡ 32
      → Memᴰ (step_input current i s) xs
      → Sub c t n
      → climb_step c current i s ≡ value c n
      → ((m : Node) × Sub c t m × (current ≡ value c m)) ⊎ Collision c xs (node_inputs c t)
  step_sound t (tip d) current i s law k ks mem sub e =
      elim (same_or_Collision c _ (leaf_input d) mem (Sub-inputs c sub (head_mem c (tip d)))
        (sym (climb_step-input c current i s) ∙ e ∙ value-hash c (tip d))) [
          | inl same ↦ absurd (step_input-ne-leaf_input current i s d same)
          | inr col ↦ inr col
        ]
  step_sound t (fork l r) current i s law k ks mem sub e =
      elim (same_or_Collision c _ (pair_input (value c l) (value c r)) mem
        (Sub-inputs c sub (head_mem c (fork l r)))
        (sym (climb_step-input c current i s) ∙ e ∙ value-hash c (fork l r))) [
          | inl same ↦ elim (step_input-part c current i s _ _ k ks (length-value c law l) same) [
            | inl left ↦ inl (l, low sub, left)
            | inr right ↦ inl (r, high sub, right)
          ]
          | inr col ↦ inr col
        ]

  Collision-tail : {a : Bytes} {xs ys : List Bytes} → Collision c xs ys → Collision c (a ∷ xs) ys
  Collision-tail col = record {
    left = col.left;
    right = col.right;
    of_left = Memᴰ.tail col.of_left;
    of_right = col.of_right;
    differ = col.differ;
    collide = col.collide;
  }

  -- Down from the root: a chain that ends in the value of a tree starts in the value of a subtree.
  climb_sound :
      (t : Node) (current : Bytes) (i : ℕ) (siblings : List Bytes)
      → Sha3Law c
      → length current ≡ 32
      → All (λ s. length s ≡ 32) siblings
      → climb c current i siblings ≡ value c t
      → ((m : Node) × Sub c t m × (current ≡ value c m))
        ⊎ Collision c (climb_inputs c current i siblings) (node_inputs c t)
  unfolding climb climb_inputs
  climb_sound t current i [] law k ks e = inl (t, here, e)
  climb_sound t current i (s ∷ rest) law k (ks, kr) e =
      let next = climb_step c current i s in
      elim (climb_sound t next (i / 2) rest law (length-climb_step c law current i s) kr e) [
        | inl (n, sub, reached) ↦ step_sound t n current i s law k ks (Memᴰ.head refl) sub reached
        | inr col ↦ inr (Collision-tail col)
      ]

  hash_leaf-hash : (leaf : Bytes) → c.sha3 (leaf_input leaf) ≡ hash_leaf c leaf
  unfolding hash_leaf
  hash_leaf-hash leaf = refl

  tip_mem : (a d : Bytes) → a ≡ d → Memᴰ a (tips (tip d))
  unfolding tips
  tip_mem a d e = Memᴰ.head e

  new-eq-ok :
      (leaves : List Bytes) (t : MerkleTree)
      → new c leaves ≡ ok t
      → (1 ≤ length leaves) × (t.root ≡ value c (shape 20 leaves))
  new-eq-ok leaves t made = elim (new_total c leaves) [
    | none_given _ e ↦ absurd (err-ne-ok (sym e ∙ made))
    | too_many _ e ↦ absurd (err-ne-ok (sym e ∙ made))
    | built t' h _ e _ r ↦ (h, ap (λ u. u.root) (ok-injective (sym made ∙ e)) ∙ r)
  ]

  hash_leaf_sound :
      (t m : Node) (leaf : Bytes) {xs : List Bytes}
      → Memᴰ (leaf_input leaf) xs
      → Sub c t m
      → hash_leaf c leaf ≡ value c m
      → Memᴰ leaf (tips t) ⊎ Collision c xs (node_inputs c t)
  hash_leaf_sound t (tip d) leaf mem sub e =
      elim (same_or_Collision c _ (leaf_input d) mem (Sub-inputs c sub (head_mem c (tip d)))
        (hash_leaf-hash leaf ∙ e ∙ value-hash c (tip d))) [
          | inl same ↦ inl (
              Sub-tips c sub (tip_mem _ _ ((append_split leaf_prefix leaf_prefix _ _ refl same).1)))
          | inr col ↦ inr col
        ]
  hash_leaf_sound t (fork l r) leaf mem sub e =
      elim (same_or_Collision c _ (pair_input (value c l) (value c r)) mem
        (Sub-inputs c sub (head_mem c (fork l r)))
        (hash_leaf-hash leaf ∙ e ∙ value-hash c (fork l r))) [
          | inl same ↦ absurd (leaf_input-ne-pair_input leaf (value c l) (value c r) same)
          | inr col ↦ inr col
        ]

  -- A proof with 32-byte siblings that verifies against the root of the tree over `leaves` shows that
  -- its leaf is one of `leaves`, or else a string hashed in the check and a different one hashed in
  -- the tree have one hash.
  pub verify_sound :
      (leaves : List Bytes) (t : MerkleTree) (p : MerkleProof)
      → Sha3Law c
      → new c leaves ≡ ok t
      → All (λ s. length s ≡ 32) p.siblings
      → p.root ≡ t.root
      → verify c p ≡ true
      → Memᴰ p.leaf leaves ⊎ Collision c (proof_inputs c p) (node_inputs c (shape 20 leaves))
  unfolding verify proof_inputs
  verify_sound leaves t p law made sizes root accepted =
      let (some_leaf, is_root) = new-eq-ok leaves t made in
      let reached = beq_sound _ _ accepted ∙ root ∙ is_root in
      let whole = shape 20 leaves in
      elim (climb_sound whole (hash_leaf c p.leaf) p.leaf_index p.siblings law
        (ap length (sym (hash_leaf-hash p.leaf)) ∙ law.length-sha3 (leaf_input p.leaf)) sizes
        reached) [
          | inl (m, sub, e) ↦ elim (hash_leaf_sound whole m p.leaf (Memᴰ.head refl) sub e) [
            | inl found ↦ inl (shape-tips c 20 leaves some_leaf found)
            | inr col ↦ inr col
          ]
          | inr col ↦ inr (Collision-tail col)
        ]

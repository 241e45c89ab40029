-- ===== src/Merkle/Inclusion.antt =====
-- `MerkleTree::prove` against `MerkleProof::verify`: which of a tree's own proofs verify.
use native.Mathlib.Nat.{div-div-eq-div-mul}
use oetp.Prelude.{
  beq_iff, length-map, true, lt→ltb, get_elem?_lt, ◌≤◌, ◌∙◌, sym, ℕ, zero, suc, ◌+◌, ◌*◌, ◌/◌, ◌^◌,
  ◌<◌, ◌≡◌, refl, ap, some, List, [], ◌∷◌, ◌++◌, arith, lt→leb, length, get_elem?, Bytes,
  two_pow_suc,
}
use oetp.Result.{ok}
use oetp.Crates.{Crates}
use oetp.Merkle.{
  map, MerkleTree, MerkleProof, max_leaves, sibling_index, gather, all_but_last, prove, hash_leaf,
  climb_step, climb, verify, next_level, new,
}
use oetp.Merkle.Levels.{rounds, rounds-one, tower, length-next_level}
use oetp.Merkle.Shape.{shape, value}
use oetp.Merkle.Build.{new_ok, rounds-value}

-- At every level below the root the node above leaf `i` has a sibling: the subtree beside it starts
-- before the last of the `n` leaves.
abbrev pub HasSiblings : ℕ → ℕ → Type 0
HasSiblings n i = (k : ℕ) → 2 ^ k < n → sibling_index (i / 2 ^ k) * 2 ^ k < n

sibling_index-add : (j : ℕ) → sibling_index (suc (suc j)) ≡ suc (suc (sibling_index j))
unfolding sibling_index
sibling_index-add j = ground arith

pub div-two_pow : (i k : ℕ) → i / 2 ^ suc k ≡ i / 2 / 2 ^ k
div-two_pow i k = rw two_pow_suc (sym (div-div-eq-div-mul i 2 (2 ^ k)))

HasSiblings-half : (n i : ℕ) → HasSiblings n i → HasSiblings ((n + 1) / 2) (i / 2)
HasSiblings-half n i h k lt =
    let s = h (suc k) (omega (arith, two_pow_suc k)) in
    let s' : sibling_index (i / 2 / 2 ^ k) * (2 * 2 ^ k) < n = rw (div-two_pow, two_pow_suc) at s in
    omega arith

HasSiblings-first : (n i : ℕ) → 1 < n → HasSiblings n i → sibling_index i < n
HasSiblings-first n i lt h =
    let z : i / 2 ^ 0 ≡ i = omega arith in
    let first : sibling_index i * 2 ^ 0 < n = rw z at (h 0 lt) in omega arith

pub all_but_last-append {ℓ} :
    {A : Type ℓ} (xs : List A) (x : A) → all_but_last (xs ++ (x ∷ [])) ≡ xs
unfolding all_but_last
all_but_last-append [] x = refl
all_but_last-append (y ∷ []) x = refl
all_but_last-append (y ∷ z ∷ r) x = ap (λ l. y ∷ l) (all_but_last-append (z ∷ r) x)

-- `prove` of an index in range.
pub prove_ok :
    (t : MerkleTree) (i : ℕ) (leaf : Bytes)
    → get_elem? t.leaves i ≡ some leaf
    → i < length t.leaves
    → prove t i
      ≡ ok (record {
        leaf_index = i;
        leaf = leaf;
        siblings = gather (all_but_last t.levels) i;
        root = t.root;
      })
unfolding prove
prove_ok t i leaf e h = rw (lt→leb (length t.leaves) i h) (rw e refl)

module _ (c : Crates) where
  climb_step-add :
      (h : Bytes) (j : ℕ) (s : Bytes) → climb_step c h j s ≡ climb_step c h (suc (suc j)) s
  unfolding climb_step
  climb_step-add h j s = ground arith

  -- A node and its sibling are joined, in their order, into the node above.
  get_elem?-next_level :
      (xs : List Bytes) (i : ℕ) (h s : Bytes)
      → get_elem? xs i ≡ some h
      → get_elem? xs (sibling_index i) ≡ some s
      → get_elem? (next_level c xs) (i / 2) ≡ some (climb_step c h i s)
  unfolding next_level climb_step
  get_elem?-next_level [] i h s p q = cc
  get_elem?-next_level (a ∷ []) zero h s p q = unfold sibling_index in cc
  get_elem?-next_level (a ∷ []) (suc i) h s p q = cc
  get_elem?-next_level (a ∷ b ∷ r) zero h s p q = unfold sibling_index in cc
  get_elem?-next_level (a ∷ b ∷ r) (suc zero) h s p q = unfold sibling_index in cc
  get_elem?-next_level (a ∷ b ∷ r) (suc (suc j)) h s p q =
      let q' : get_elem? r (sibling_index j) ≡ some s = rw sibling_index-add at q in
      let e : suc (suc j) / 2 ≡ suc (j / 2) = omega arith in
      let ih = get_elem?-next_level r j h s p q' in rw e (ih ∙ ap some (climb_step-add h j s))

  climb-gather_step :
      (l : List Bytes) (rest : List (List Bytes)) (h s : Bytes) (i : ℕ)
      → get_elem? l (sibling_index i) ≡ some s
      → climb c h i (gather (l ∷ rest) i)
        ≡ climb c (climb_step c h i s) (i / 2) (gather rest (i / 2))
  unfolding climb gather
  climb-gather_step l rest h s i q = rw (q, climb) refl

  climb_last : (x v h : Bytes) (i : ℕ) → x ∷ [] ≡ v ∷ [] → get_elem? (x ∷ []) i ≡ some h → h ≡ v
  climb_last x v h zero e p = cc
  climb_last x v h (suc i) e p = cc

  -- Climbing with the siblings that `gather` takes from the tower ends in its top node.
  climb-gather :
      (fuel d : ℕ) (xs : List Bytes) (v h : Bytes) (i : ℕ)
      → length xs ≤ fuel
      → rounds c d xs ≡ v ∷ []
      → get_elem? xs i ≡ some h
      → HasSiblings (length xs) i
      → climb c h i (gather (tower c fuel xs) i) ≡ v
  unfolding climb gather tower rounds
  climb-gather fuel d [] v h i k e p s = cc
  climb-gather zero d (x ∷ xs) v h i k e p s = absurd (omega arith)
  climb-gather (suc fuel) d (x ∷ []) v h i k e p s =
      climb_last x v h i (sym (rounds-one c d x) ∙ e) p
  climb-gather (suc fuel) zero (x ∷ y ∷ r) v h i k e p s = cc
  climb-gather (suc fuel) (suc d) (x ∷ y ∷ r) v h i k e p s =
      let l = x ∷ y ∷ r in
      let n = length-next_level c l in
      let first = HasSiblings-first (length l) i (omega arith) s in
      let (sib, q) = get_elem?_lt l (sibling_index i) first in
      let paired : HasSiblings (length (next_level c l)) (i / 2) =
        rw n (HasSiblings-half (length l) i s) in
      rw (lt→ltb 1 (length l) (omega arith)) (
        climb-gather_step l (tower c fuel (next_level c l)) h sib i q
        ∙ climb-gather fuel d (next_level c l) v (climb_step c h i sib) (i / 2) (omega arith) e
            (get_elem?-next_level l i h sib p q) paired)

  -- What the tree over `leaves` and its proof of leaf `i` come to.
  pub record Proven (leaves : List Bytes) (i : ℕ) : Type 0 where
    pub tree : MerkleTree
    pub proof : MerkleProof
    pub built : new c leaves ≡ ok tree
    pub proved : prove tree i ≡ ok proof
    pub index : proof.leaf_index ≡ i
    pub leaf : get_elem? leaves i ≡ some proof.leaf
    pub root : proof.root ≡ value c (shape 20 leaves)
    pub siblings : proof.siblings ≡ gather (tower c (length leaves) (map (hash_leaf c) leaves)) i

  -- `prove` serves every index in range of a tree that `new` returns.
  pub prove_total :
      (leaves : List Bytes) (i : ℕ)
      → length leaves ≤ max_leaves
      → i < length leaves
      → Proven leaves i
  prove_total leaves i k lt =
      let (leaf, e) = get_elem?_lt leaves i lt in
      record {
        tree = _;
        proof = _;
        built = new_ok c leaves (omega arith) k;
        proved = prove_ok _ i leaf e lt;
        index = refl;
        leaf = e;
        root = refl;
        siblings = ap (λ l. gather l i) (all_but_last-append _ _);
      }

  pub get_elem?-map :
      (leaves : List Bytes) (i : ℕ) (leaf : Bytes)
      → get_elem? leaves i ≡ some leaf
      → get_elem? (map (hash_leaf c) leaves) i ≡ some (hash_leaf c leaf)
  get_elem?-map [] i leaf e = cc
  get_elem?-map (x ∷ xs) zero leaf e = cc
  get_elem?-map (x ∷ xs) (suc i) leaf e = get_elem?-map xs i leaf e

  -- The proof of a leaf whose path has a sibling at every level below the root verifies.
  pub prove-verify :
      (leaves : List Bytes) (i : ℕ)
      → length leaves ≤ max_leaves
      → i < length leaves
      → HasSiblings (length leaves) i
      → (p : Proven leaves i) × (verify c p.proof ≡ true)
  unfolding verify
  prove-verify leaves i k lt s =
      let p = prove_total leaves i k lt in
      let n = length-map (hash_leaf c) leaves in
      let climbed =
        climb-gather (length leaves) 20 (map (hash_leaf c) leaves) (value c (shape 20 leaves))
          (hash_leaf c p.proof.leaf) i (omega (arith, n)) (rounds-value c 20 leaves (omega arith) k)
          (get_elem?-map leaves i p.proof.leaf p.leaf) (rw n s) in
      let reached : climb c (hash_leaf c p.proof.leaf) p.proof.leaf_index p.proof.siblings
          ≡ p.proof.root =
        cc (p.index, p.siblings, p.root, climbed) in
      (p, (beq_iff _ _).1 reached)

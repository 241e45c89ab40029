-- ===== src/Merkle/Build.antt =====
-- `MerkleTree::new` (oetp-core/src/merkle.rs) against the described tree.
use mathlib.Core.List.{map-append}
use oetp.Prelude.{
  lt→ltb, le→ltb, ℕ, zero, suc, ◌^◌, ◌≤◌, ◌<◌, ◌≡◌, ◌∙◌, refl, sym, ap, List, [], ◌∷◌, ◌++◌, map,
  Bytes, length, take, drop, arith, length-map, le-cases, inl, inr, two_pow_pos,
}
use oetp.Result.{ok, err, invalid_input}
use oetp.Crates.{Crates}
use oetp.Merkle.{MerkleTree, max_leaves, hash_leaf, hash_pair, next_level, new}
use oetp.Merkle.Levels.{rounds-one, rounds, rounds-append, rounds-next_level, tower, build_loop_lem}
use oetp.Merkle.Shape.{Halves, shape-Halves, shape-small, shape-large, shape, value}

module _ (c : Crates) where
  -- Two halves, each brought down to one node, are joined in the next round.
  pub rounds_join :
      (d : ℕ) (xs ys : List Bytes) (a b : Bytes)
      → length xs ≡ 2 ^ d
      → rounds c d xs ≡ a ∷ []
      → rounds c d ys ≡ b ∷ []
      → rounds c (suc d) (xs ++ ys) ≡ hash_pair c a b ∷ []
  unfolding rounds next_level
  rounds_join d xs ys a b h p q =
      rw (rounds-next_level, rounds-append c d 1 xs ys (omega arith), p, q) refl

  rounds_idle :
      (d : ℕ) (xs : List Bytes) (a : Bytes) → rounds c d xs ≡ a ∷ [] → rounds c (suc d) xs ≡ a ∷ []
  unfolding rounds next_level
  rounds_idle d xs a p = rw (rounds-next_level, p) refl

  map-join :
      (d : ℕ) (xs : List Bytes)
      → Halves d xs
      → map (hash_leaf c) xs
        ≡ map (hash_leaf c) (take (2 ^ d) xs) ++ map (hash_leaf c) (drop (2 ^ d) xs)
  map-join d xs s =
      ap (map (hash_leaf c)) (sym s.joined)
      ∙ map-append (hash_leaf c) (take (2 ^ d) xs) (drop (2 ^ d) xs)

  -- `d` rounds bring at most `2 ^ d` leaves down to one node: the value of the described tree.
  pub rounds-value :
      (d : ℕ) (xs : List Bytes)
      → 1 ≤ length xs
      → length xs ≤ 2 ^ d
      → rounds c d (map (hash_leaf c) xs) ≡ value c (shape d xs) ∷ []
  unfolding value
  rounds-value zero [] h k = absurd (omega arith)
  rounds-value zero (x ∷ []) h k = one
    where
      one : rounds c zero (hash_leaf c x ∷ []) ≡ value c (shape zero (x ∷ [])) ∷ []
      one = unfold rounds shape in refl
  rounds-value zero (x ∷ y ∷ r) h k = absurd (omega arith)
  rounds-value (suc d) xs h k = elim (le-cases (length xs) (2 ^ d)) [
    | inl small ↦ rw (shape-small d xs small) (rounds_idle d _ _ (rounds-value d xs h small))
    | inr large ↦
        let s = shape-Halves d xs large k in
        let low = rounds-value d (take (2 ^ d) xs) (omega (arith, two_pow_pos d)) (omega arith) in
        let high = rounds-value d (drop (2 ^ d) xs) s.high_pos s.high_le in
        rw (shape-large d xs large, map-join d xs s)
          (rounds_join d _ _ _ _ (length-map (hash_leaf c) (take (2 ^ d) xs) ∙ s.low) low high)
  ]

  -- More rounds do not change a level that is down to one node.
  pub rounds_unique :
      (d e : ℕ) (xs : List Bytes) (a b : Bytes)
      → d ≤ e
      → rounds c d xs ≡ a ∷ []
      → rounds c e xs ≡ b ∷ []
      → a ≡ b
  unfolding rounds
  rounds_unique zero e xs a b h p q =
      let one : a ∷ [] ≡ b ∷ [] = sym (rounds-one c e a) ∙ rw p at q in cc
  rounds_unique (suc d) zero xs a b h p q = absurd (omega arith)
  rounds_unique (suc d) (suc e) xs a b h p q =
      rounds_unique d e (next_level c xs) a b (omega arith) p q

  hashed-one : (leaves : List Bytes) → 1 ≤ length leaves → 1 ≤ length (map (hash_leaf c) leaves)
  hashed-one leaves h = omega (arith, length-map (hash_leaf c) leaves)

  -- The tree that `new` builds.
  pub new_ok :
      (leaves : List Bytes)
      → 1 ≤ length leaves
      → length leaves ≤ max_leaves
      → new c leaves
        ≡ ok (record {
          leaves = leaves;
          levels =
              tower c (length leaves) (map (hash_leaf c) leaves)
              ++ ((value c (shape 20 leaves) ∷ []) ∷ []);
          root = value c (shape 20 leaves);
        })
  unfolding new
  new_ok [] h k = absurd (omega arith)
  new_ok (x ∷ xs) h k =
      let l = x ∷ xs in
      rw (le→ltb max_leaves (length l) k) (
        rw
          (build_loop_lem c (length l) 20 [] (map (hash_leaf c) l) (value c (shape 20 l))
            (hashed-one l h) (omega (arith, length-map (hash_leaf c) l)) (rounds-value 20 l h k))
          refl)

  pub new-empty : new c [] ≡ err (invalid_input "Merkle tree needs at least one leaf")
  unfolding new
  new-empty = refl

  pub new-large :
      (leaves : List Bytes)
      → max_leaves < length leaves
      → new c leaves ≡ err (invalid_input "too many leaves for Merkle tree")
  unfolding new
  new-large [] h = absurd (omega arith)
  new-large (x ∷ xs) h = rw (lt→ltb max_leaves (length (x ∷ xs)) h) refl

  -- What `new` does with any leaves, one case for each outcome.
  pub data Built (leaves : List Bytes) : Type 0 where
    none_given :
        length leaves ≡ 0
        → new c leaves ≡ err (invalid_input "Merkle tree needs at least one leaf")
        → Built leaves
    too_many :
        max_leaves < length leaves
        → new c leaves ≡ err (invalid_input "too many leaves for Merkle tree")
        → Built leaves
    built :
        (t : MerkleTree)
        → 1 ≤ length leaves
        → length leaves ≤ max_leaves
        → new c leaves ≡ ok t
        → t.leaves ≡ leaves
        → t.root ≡ value c (shape 20 leaves)
        → Built leaves

  -- `MerkleTree::new` ends on every list of leaves: it refuses no leaves and more than 2^20 of
  -- them with their messages, and else returns a tree over these leaves whose root is that of
  -- RFC 6962's recursion.
  pub new_total : (leaves : List Bytes) → Built leaves
  new_total [] = none_given refl new-empty
  new_total (x ∷ xs) = elim (le-cases (length (x ∷ xs)) max_leaves) [
    | inl fits ↦ built _ (omega arith) fits (new_ok (x ∷ xs) (omega arith) fits) refl refl
    | inr large ↦ too_many large (new-large (x ∷ xs) large)
  ]

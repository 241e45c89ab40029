-- ===== src/Merkle.antt =====
-- oetp-core/src/merkle.rs: the Merkle tree over packet hashes and submission leaves, its inclusion
-- proofs and their check. A `[u8; 32]` is a byte string. The proofs are in the modules below.
mod Levels
pub mod Shape
pub mod Build
pub mod Inclusion
pub mod Full
pub mod Carry
pub mod Hashed
pub mod Soundness
mod Tests
use oetp.Prelude.{
  ℕ, zero, suc, ◌+◌, ◌-◌, ◌/◌, ◌%◌, Bool, none, some, List, [], ◌∷◌, ◌++◌, map, Bytes, utf8, beq,
  length, get_elem?, is_empty, ltb, leb, ◌==◌, if◌then◌else◌,
}
use oetp.Result.{invalid_input, Result, ok, unfinished, reject, expect, ◌>>=◌, ◌>>◌}
use oetp.Crates.{Crates}

pub record MerkleTree : Type 0 where
  pub leaves : List Bytes
  pub levels : List (List Bytes)
  pub root : Bytes

pub record MerkleProof : Type 0 where
  pub leaf_index : ℕ
  pub leaf : Bytes
  pub siblings : List Bytes
  pub root : Bytes

abbrev pub leaf_prefix : Bytes
leaf_prefix = utf8 "oetp-leaf"

abbrev pub internal_prefix : Bytes
internal_prefix = utf8 "oetp-internal"

-- `1 << 20`
abbrev pub max_leaves : ℕ
max_leaves = 1048576

-- `index.is_multiple_of(2)`
abbrev pub is_even : ℕ → Bool
is_even i = i % 2 == 0

-- The sibling's index that `prove` computes at each level.
unfoldable pub sibling_index : ℕ → ℕ
sibling_index i = if is_even i then i + 1 else i - 1

-- `for level in &self.levels[..self.levels.len() - 1]`: a level without a sibling adds nothing.
unfoldable pub gather : List (List Bytes) → ℕ → List Bytes
gather [] index = []
gather (level ∷ rest) index =
    let later = gather rest (index / 2) in
    elim (get_elem? level (sibling_index index)) [ none ↦ later | some s ↦ s ∷ later ]

-- `&levels[..levels.len() - 1]`
unfoldable pub all_but_last {ℓ} : {A : Type ℓ} → List A → List A
all_but_last [] = []
all_but_last (x ∷ []) = []
all_but_last (x ∷ y ∷ r) = x ∷ all_but_last (y ∷ r)

unfoldable pub prove : MerkleTree → ℕ → Result MerkleProof
unfolding gather all_but_last
prove t leaf_index = do
  reject (leb (length t.leaves) leaf_index) (invalid_input "leaf index out of bounds")
  leaf ← expect (get_elem? t.leaves leaf_index)
  ok (record {
    leaf_index = leaf_index;
    leaf = leaf;
    siblings = gather (all_but_last t.levels) leaf_index;
    root = t.root;
  })

module _ (c : Crates) where
  open c use {sha3}

  unfoldable pub hash_leaf : Bytes → Bytes
  hash_leaf d = sha3 (leaf_prefix ++ d)

  unfoldable pub hash_pair : Bytes → Bytes → Bytes
  hash_pair left right = sha3 (internal_prefix ++ (left ++ right))

  -- One round of the loop of `MerkleProof::verify`.
  unfoldable pub climb_step : Bytes → ℕ → Bytes → Bytes
  climb_step current index sibling =
      if is_even index then hash_pair current sibling else hash_pair sibling current

  unfoldable pub climb : Bytes → ℕ → List Bytes → Bytes
  climb current index [] = current
  climb current index (sibling ∷ rest) = climb (climb_step current index sibling) (index / 2) rest

  unfoldable pub verify : MerkleProof → Bool
  verify p = beq (climb (hash_leaf p.leaf) p.leaf_index p.siblings) p.root

  -- `for chunk in current.chunks(2)`: an odd node at the end is carried up as it is.
  unfoldable pub next_level : List Bytes → List Bytes
  next_level [] = []
  next_level (a ∷ []) = a ∷ []
  next_level (a ∷ b ∷ rest) = hash_pair a b ∷ next_level rest

  -- `while current.len() > 1`, with the levels pushed so far.
  unfoldable pub build_loop :
      ℕ → List (List Bytes) → List Bytes → Result (List (List Bytes) × List Bytes)
  build_loop zero levels current = unfinished
  build_loop (suc fuel) levels current =
      let more = build_loop fuel (levels ++ (current ∷ [])) (next_level current) in
      if ltb 1 (length current) then more else ok (levels, current)

  -- `MerkleTree::new`; as many rounds as there are leaves are enough.
  unfoldable pub new : List Bytes → Result MerkleTree
  new leaves = do
    reject (is_empty leaves) (invalid_input "Merkle tree needs at least one leaf")
    reject (ltb max_leaves (length leaves)) (invalid_input "too many leaves for Merkle tree")
    (levels, current) ← build_loop (length leaves) [] (map hash_leaf leaves)
    root ← expect (get_elem? current 0)
    ok (record { leaves = leaves; levels = levels ++ ((root ∷ []) ∷ []); root = root })

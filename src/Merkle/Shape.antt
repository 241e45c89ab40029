-- ===== src/Merkle/Shape.antt =====
-- An independent description of the tree: RFC 6962's recursion, which splits `n` leaves at the
-- largest power of two below `n`.
use oetp.Prelude.{
  take-append-drop, two_pow_suc, length-drop, length-take, arith, lt→leb, le→leb, ◌≡◌, ◌<◌, ◌≤◌, ℕ,
  zero, suc, ◌^◌, List, [], ◌∷◌, ◌++◌, Bytes, length, take, drop, leb, if◌then◌else◌,
}
use oetp.Crates.{Crates}
use oetp.Merkle.{hash_leaf, hash_pair}

pub data Node : Type 0 where
  tip : Bytes → Node
  fork : Node → Node → Node

-- The tree over at most `2 ^ d` leaves. (There is none over no leaves: the value there is idle.)
unfoldable pub shape : ℕ → List Bytes → Node
shape zero [] = tip []
shape zero (x ∷ xs) = tip x
shape (suc d) xs =
    let low = shape d xs in
    let both = fork (shape d (take (2 ^ d) xs)) (shape d (drop (2 ^ d) xs)) in
    if leb (length xs) (2 ^ d) then low else both

unfoldable pub tips : Node → List Bytes
tips (tip x) = x ∷ []
tips (fork l r) = tips l ++ tips r

unfoldable pub value : Crates → Node → Bytes
value c (tip x) = hash_leaf c x
value c (fork l r) = hash_pair c (value c l) (value c r)

pub shape-small : (d : ℕ) (xs : List Bytes) → length xs ≤ 2 ^ d → shape (suc d) xs ≡ shape d xs
unfolding shape
shape-small d xs h = rw (le→leb (length xs) (2 ^ d) h)

pub shape-large :
    (d : ℕ) (xs : List Bytes)
    → 2 ^ d < length xs
    → shape (suc d) xs ≡ fork (shape d (take (2 ^ d) xs)) (shape d (drop (2 ^ d) xs))
unfolding shape
shape-large d xs h = rw (lt→leb (length xs) (2 ^ d) h)

-- The sizes of the two halves.
pub record Halves (d : ℕ) (xs : List Bytes) : Type 0 where
  pub low : length (take (2 ^ d) xs) ≡ 2 ^ d
  pub high_pos : 1 ≤ length (drop (2 ^ d) xs)
  pub high_le : length (drop (2 ^ d) xs) ≤ 2 ^ d
  pub joined : take (2 ^ d) xs ++ drop (2 ^ d) xs ≡ xs

pub shape-Halves :
    (d : ℕ) (xs : List Bytes) → 2 ^ d < length xs → length xs ≤ 2 ^ suc d → Halves d xs
shape-Halves d xs h k = record {
  low = omega (arith, length-take (2 ^ d) xs);
  high_pos = omega (arith, length-drop (2 ^ d) xs);
  high_le = omega (arith, length-drop (2 ^ d) xs, two_pow_suc d);
  joined = take-append-drop (2 ^ d) xs;
}

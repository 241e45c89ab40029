-- ===== src/Merkle/Levels.antt =====
-- The level-by-level loop of `MerkleTree::new`: how rounds of `next_level` act on a level.
use oetp.Prelude.{
  if◌then◌else◌, lt→ltb, sym, ◌≤◌, ℕ, zero, suc, ◌+◌, ◌*◌, ◌/◌, ◌^◌, ◌≡◌, refl, ap, List, [], ◌∷◌,
  ◌++◌, Bytes, length, arith, two_pow_suc,
}
use oetp.Crates.{Crates}
use mathlib.Core.List.{append-nil, append_assoc}
use oetp.Result.{ok}
use oetp.Merkle.{ltb, hash_pair, next_level, build_loop}

module _ (c : Crates) where
  -- `d` rounds
  unfoldable pub rounds : ℕ → List Bytes → List Bytes
  rounds zero xs = xs
  rounds (suc d) xs = rounds d (next_level c xs)

  pub length-next_level : (xs : List Bytes) → length (next_level c xs) ≡ (length xs + 1) / 2
  unfolding next_level
  length-next_level [] = omega arith
  length-next_level (a ∷ []) = omega arith
  length-next_level (a ∷ b ∷ rest) = omega (arith, length-next_level rest)

  -- A level of even size does not see what follows it.
  pub next_level-append :
      (m : ℕ) (xs ys : List Bytes)
      → length xs ≡ 2 * m
      → next_level c (xs ++ ys) ≡ next_level c xs ++ next_level c ys
  unfolding next_level
  next_level-append m [] ys h = refl
  next_level-append m (a ∷ []) ys h = absurd (omega arith)
  next_level-append zero (a ∷ b ∷ rest) ys h = absurd (omega arith)
  next_level-append (suc m) (a ∷ b ∷ rest) ys h =
      ap (λ l. hash_pair c a b ∷ l) (next_level-append m rest ys (omega arith))

  pow_step : (d m n : ℕ) → n ≡ 2 ^ suc d * m → n ≡ 2 * (2 ^ d * m)
  pow_step d m n h = let h' : n ≡ 2 * 2 ^ d * m = rw two_pow_suc at h in omega arith

  pub rounds-append :
      (d m : ℕ) (xs ys : List Bytes)
      → length xs ≡ 2 ^ d * m
      → rounds d (xs ++ ys) ≡ rounds d xs ++ rounds d ys
  unfolding rounds
  rounds-append zero m xs ys h = refl
  rounds-append (suc d) m xs ys h =
      let even = pow_step d m (length xs) h in
      rw (next_level-append (2 ^ d * m) xs ys even) (
        rounds-append d m (next_level c xs) (next_level c ys)
          (omega (arith, length-next_level xs, even)))

  pub rounds-next_level :
      (d : ℕ) (xs : List Bytes) → rounds d (next_level c xs) ≡ next_level c (rounds d xs)
  unfolding rounds
  rounds-next_level zero xs = refl
  rounds-next_level (suc d) xs = rounds-next_level d (next_level c xs)

  -- A single node stays as it is.
  pub rounds-one : (d : ℕ) (x : Bytes) → rounds d (x ∷ []) ≡ x ∷ []
  unfolding rounds next_level
  rounds-one zero x = refl
  rounds-one (suc d) x = rounds-one d x

  -- The levels that the loop pushes, from a first level on.
  unfoldable pub tower : ℕ → List Bytes → List (List Bytes)
  tower zero xs = []
  tower (suc fuel) xs =
      let more = xs ∷ tower fuel (next_level c xs) in if ltb 1 (length xs) then more else []

  -- With a round for each node the loop ends, and pushes the levels of the tower.
  pub build_loop_lem :
      (fuel d : ℕ) (levels : List (List Bytes)) (xs : List Bytes) (v : Bytes)
      → 1 ≤ length xs
      → length xs ≤ fuel
      → rounds d xs ≡ v ∷ []
      → build_loop c fuel levels xs ≡ ok (levels ++ tower fuel xs, v ∷ [])
  unfolding build_loop tower rounds
  build_loop_lem fuel d levels [] v h k e = absurd (omega arith)
  build_loop_lem zero d levels (x ∷ xs) v h k e = absurd (omega arith)
  build_loop_lem (suc fuel) d levels (x ∷ []) v h k e =
      rw (append-nil, sym (rounds-one d x), e) refl
  build_loop_lem (suc fuel) zero levels (x ∷ y ∷ r) v h k e = cc
  build_loop_lem (suc fuel) (suc d) levels (x ∷ y ∷ r) v h k e =
      let n = length-next_level (x ∷ y ∷ r) in
      let l = x ∷ y ∷ r in
      let step =
        build_loop_lem fuel d (levels ++ (l ∷ [])) (next_level c l) v (omega arith) (omega arith)
          e in
      rw (lt→ltb 1 (length l) (omega arith)) (rw step (rw append_assoc refl))

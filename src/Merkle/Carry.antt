-- ===== src/Merkle/Carry.antt =====
-- A node that is carried up (oetp-core/src/merkle.rs), in `prove` and in `verify`.
use mathlib.Core.Path.{ap₂}
use mathlib.Core.List.{map-append}
use oetp.Prelude.{
  ℕ, zero, suc, ◌+◌, ◌*◌, ◌/◌, ◌^◌, ◌≤◌, ◌<◌, ◌≡◌, refl, sym, ◌∙◌, none, some, List, [], ◌∷◌, ◌++◌,
  map, arith, lt→ltb, length, get_elem?, length-append, get_elem?_ge, length-map,
  get_elem?-append_self, Bytes, beq, two_pow_suc, two_pow_pos, two_pow_mono,
}
use oetp.Crates.{Crates}
use oetp.Merkle.{
  max_leaves, sibling_index, gather, hash_leaf, hash_pair, climb_step, climb, verify, next_level,
}
use oetp.Merkle.Levels.{rounds, rounds-one, next_level-append, tower, length-next_level}
use oetp.Merkle.Shape.{shape, value}
use oetp.Merkle.Inclusion.{Proven, prove_total}
use oetp.Merkle.Build.{rounds-value, rounds_join, rounds_unique}

sibling_index-two_pow : (m : ℕ) → sibling_index (2 * m) ≡ 2 * m + 1
unfolding sibling_index
sibling_index-two_pow m = ground arith

module _ (c : Crates) where
  gather_skip :
      (l : List Bytes) (rest : List (List Bytes)) (i : ℕ)
      → get_elem? l (sibling_index i) ≡ none
      → gather (l ∷ rest) i ≡ gather rest (i / 2)
  unfolding gather
  gather_skip l rest i e = rw (e, gather) refl

  -- Only the root of the full part is gathered for the leaf that follows it.
  gather-tower_carry :
      (fuel d : ℕ) (xs : List Bytes) (x v : Bytes)
      → length xs ≡ 2 ^ d
      → length xs < fuel
      → rounds c d xs ≡ v ∷ []
      → gather (tower c fuel (xs ++ (x ∷ []))) (2 ^ d) ≡ v ∷ []
  unfolding tower rounds
  gather-tower_carry zero d xs x v n k e = absurd (omega arith)
  gather-tower_carry (suc zero) d xs x v n k e = absurd (omega (arith, two_pow_pos d))
  gather-tower_carry (suc (suc fuel)) zero [] x v n k e = cc
  gather-tower_carry (suc (suc fuel)) zero (a ∷ []) x v n k e =
      unfold gather next_level sibling_index in e
  gather-tower_carry (suc (suc fuel)) zero (a ∷ b ∷ r) x v n k e = absurd (omega arith)
  gather-tower_carry (suc (suc fuel)) (suc d) xs x v n k e =
      let m = 2 ^ d in
      let even : length xs ≡ 2 * m = omega (arith, two_pow_suc d) in
      let all : length (xs ++ (x ∷ [])) ≡ length xs + 1 = length-append xs (x ∷ []) in
      let next : next_level c (xs ++ (x ∷ [])) ≡ next_level c xs ++ (x ∷ []) =
        unfold next_level in next_level-append c m xs (x ∷ []) even in
      let half : 2 ^ suc d / 2 ≡ 2 ^ d = omega (arith, two_pow_suc d) in
      let missing : get_elem? (xs ++ (x ∷ [])) (sibling_index (2 ^ suc d)) ≡ none =
        rw (two_pow_suc, sibling_index-two_pow)
          (get_elem?_ge (xs ++ (x ∷ [])) (2 * m + 1) (omega arith)) in
      let ih =
        gather-tower_carry (suc fuel) d (next_level c xs) x v
          (omega (arith, length-next_level c xs)) (omega (arith, length-next_level c xs)) e in
      rw (lt→ltb 1 (length (xs ++ (x ∷ []))) (omega (arith, two_pow_pos d))) (
        gather_skip (xs ++ (x ∷ [])) (tower c (suc fuel) (next_level c (xs ++ (x ∷ []))))
          (2 ^ suc d) missing
        ∙ rw (half, next) ih)

  climb-one_even : (m : ℕ) (h s : Bytes) → climb c h (2 * m) (s ∷ []) ≡ hash_pair c h s
  unfolding climb climb_step
  climb-one_even m h s = ground arith

  -- A tree over 2^(d+1) + 1 leaves, for d + 1 up to 19, proves its last leaf `x`; `verify` joins this
  -- leaf's hash on the left of the other leaves' root, and the tree has it on the right, so the proof
  -- verifies exactly if the two orders hash to one value.
  pub last_leaf-verify :
      (d : ℕ) (front : List Bytes) (x : Bytes)
      → suc d ≤ 19
      → length front ≡ 2 ^ suc d
      → (p : Proven c (front ++ (x ∷ [])) (2 ^ suc d)) × (verify c p.proof
          ≡ beq
              (hash_pair c (hash_leaf c x) (value c (shape (suc d) front)))
              (hash_pair c (value c (shape (suc d) front)) (hash_leaf c x)))
  unfolding verify
  last_leaf-verify d front x k n =
      let l = front ++ (x ∷ []) in
      let hs = map (hash_leaf c) front in
      let hx = hash_leaf c x in
      let f = value c (shape (suc d) front) in
      let most : 2 ^ suc d ≤ 2 ^ 19 = two_pow_mono k in
      let size : length l ≡ length front + 1 = length-append front (x ∷ []) in
      let size_hs : length hs ≡ 2 ^ suc d = length-map (hash_leaf c) front ∙ n in
      let fits : length l ≤ max_leaves = omega arith in
      let some_leaf : 1 ≤ length l = omega arith in
      let p = prove_total c l (2 ^ suc d) fits (omega arith) in
      let hashed : map (hash_leaf c) l ≡ hs ++ (hx ∷ []) =
        map-append (hash_leaf c) front (x ∷ []) in
      let top : rounds c (suc d) hs ≡ f ∷ [] =
        rounds-value c (suc d) front (omega (arith, two_pow_pos (suc d))) (omega arith) in
      let joined : rounds c (suc (suc d)) (map (hash_leaf c) l) ≡ hash_pair c f hx ∷ [] =
        rw hashed (rounds_join c (suc d) hs (hx ∷ []) f hx size_hs top (rounds-one c (suc d) hx)) in
      let root : hash_pair c f hx ≡ value c (shape 20 l) =
        rounds_unique c (suc (suc d)) 20 (map (hash_leaf c) l) _ _ (omega arith) joined
          (rounds-value c 20 l some_leaf fits) in
      let gathered : p.proof.siblings ≡ f ∷ [] =
        p.siblings
        ∙ rw hashed (gather-tower_carry (length l) (suc d) hs hx f size_hs (omega arith) top) in
      let last : get_elem? l (2 ^ suc d) ≡ some x = rw (← n) (get_elem?-append_self front x) in
      let leaf : p.proof.leaf ≡ x = cc (last, p.leaf) in
      let climbed : climb c (hash_leaf c p.proof.leaf) p.proof.leaf_index p.proof.siblings
          ≡ hash_pair c hx f =
        rw (leaf, p.index, gathered, two_pow_suc) (climb-one_even (2 ^ d) hx f) in
      (p, ap₂ beq climbed (p.root ∙ sym root))

-- ===== src/Merkle/Full.antt =====
-- The proofs of trees over a power of two leaves.
use oetp.Prelude.{
  two_pow_mono, two_pow_pos, ℕ, zero, suc, ◌*◌, ◌/◌, ◌^◌, ◌≤◌, ◌<◌, ◌≡◌, true, List, arith, length,
  Bytes, two_pow_suc,
}
use oetp.Crates.{Crates}
use oetp.Merkle.{sibling_index, verify}
use oetp.Merkle.Inclusion.{Proven, prove-verify, div-two_pow}

sibling_index-lt : (i m : ℕ) → i < 2 * m → sibling_index i < 2 * m
unfolding sibling_index
sibling_index-lt i m h = ground arith

two_pow_HasSiblings :
    (k d i : ℕ) → i < 2 ^ d → 2 ^ k < 2 ^ d → sibling_index (i / 2 ^ k) * 2 ^ k < 2 ^ d
two_pow_HasSiblings zero zero i h lt = absurd (omega arith)
two_pow_HasSiblings zero (suc d) i h lt =
    let z : i / 2 ^ 0 ≡ i = omega arith in
    let s = sibling_index-lt i (2 ^ d) (omega (arith, two_pow_suc d)) in
    rw z (omega (arith, two_pow_suc d, s))
two_pow_HasSiblings (suc k) zero i h lt = absurd (omega (arith, two_pow_suc k, two_pow_pos k))
two_pow_HasSiblings (suc k) (suc d) i h lt =
    let ih =
      two_pow_HasSiblings k d (i / 2) (omega (arith, two_pow_suc d))
        (omega (arith, two_pow_suc d, two_pow_suc k)) in
    rw (div-two_pow, two_pow_suc k, two_pow_suc d) (omega arith)

-- The tree over 2^d leaves, for d up to 20, proves each of its leaves, and the proof verifies.
pub prove-verify_two_pow :
    (c : Crates) (leaves : List Bytes) (d i : ℕ)
    → d ≤ 20
    → length leaves ≡ 2 ^ d
    → i < 2 ^ d
    → (p : Proven c leaves i) × (verify c p.proof ≡ true)
prove-verify_two_pow c leaves d i k n lt =
    let most : 2 ^ d ≤ 2 ^ 20 = two_pow_mono k in
    prove-verify c leaves i (omega arith) (omega arith)
      (rw n (λ j below. two_pow_HasSiblings j d i lt below))

-- ===== src/Merkle/Tests.antt =====
-- Runs of the Merkle tree under the toy hash, and the theorems at concrete trees.
use oetp.Prelude.{
  two_pow_pos, two_pow_suc, ℕ, zero, ◌^◌, ◌≡◌, refl, ◌⊎◌, true, false, List, [], ◌∷◌, ◌++◌, Memᴰ,
  arith, length, Bytes, utf8, beq, be_bytes,
}
use oetp.Crates.Toy.{toy, toy-Sha3Law}
use oetp.Merkle.{suc, sibling_index, climb_step, MerkleProof, verify, hash_leaf, hash_pair, climb}
use oetp.Merkle.Shape.{shape, value}
use oetp.Merkle.Build.{Built, new_total, new_ok}
use oetp.Merkle.Inclusion.{HasSiblings, Proven, prove-verify}
use oetp.Merkle.Full.{prove-verify_two_pow}
use oetp.Merkle.Carry.{last_leaf-verify}
use oetp.Merkle.Hashed.{Collision, proof_inputs, node_inputs}
use oetp.Merkle.Soundness.{verify_sound}

-- Not full digests: the toy hash takes any byte strings, and short ones keep the runs short.
abbrev leaf : ℕ → Bytes
leaf n = n ∷ []

abbrev two : List Bytes
two = leaf 1 ∷ leaf 2 ∷ []

abbrev three : List Bytes
three = leaf 1 ∷ leaf 2 ∷ leaf 3 ∷ []

new_total_example : Built toy three
new_total_example = new_total toy three

three_HasSiblings : HasSiblings 3 1
unfolding sibling_index
three_HasSiblings zero h = omega arith
three_HasSiblings (suc zero) h = omega arith
three_HasSiblings (suc (suc k)) h =
    absurd (omega (arith, two_pow_suc (suc k), two_pow_suc k, two_pow_pos k))

prove-verify_example : (p : Proven toy three 1) × (verify toy p.proof ≡ true)
prove-verify_example = prove-verify toy three 1 (omega arith) (omega arith) three_HasSiblings

two_leaves : (p : Proven toy two 1) × (verify toy p.proof ≡ true)
two_leaves = prove-verify_two_pow toy two 1 1 (omega arith) refl (omega arith)

last_leaf-verify_example :
    (p : Proven toy (two ++ (leaf 3 ∷ [])) (2 ^ 1)) × (verify toy p.proof
      ≡ beq
          (hash_pair toy (hash_leaf toy (leaf 3)) (value toy (shape 1 two)))
          (hash_pair toy (value toy (shape 1 two)) (hash_leaf toy (leaf 3))))
last_leaf-verify_example = last_leaf-verify toy zero two (leaf 3) (omega arith) refl

-- The two orders differ under the toy hash: the proof of the third of three leaves is refused.
third_refused :
    beq
      (hash_pair toy (hash_leaf toy (leaf 3)) (value toy (shape 1 two)))
      (hash_pair toy (value toy (shape 1 two)) (hash_leaf toy (leaf 3)))
    ≡ false
unfolding hash_pair hash_leaf value shape beq be_bytes utf8
third_refused = refl

abbrev pair_proof : MerkleProof
pair_proof = record {
  leaf_index = 0;
  leaf = leaf 1;
  siblings = hash_leaf toy (leaf 2) ∷ [];
  root = value toy (shape 20 two);
}

pair_proof-verify : verify toy pair_proof ≡ true
unfolding verify climb climb_step hash_pair hash_leaf value shape beq be_bytes utf8
pair_proof-verify = refl

hash_leaf-size : length (hash_leaf toy (leaf 2)) ≡ 32
unfolding hash_leaf be_bytes utf8
hash_leaf-size = refl

verify_sound_example :
    Memᴰ (leaf 1) two ⊎ Collision toy (proof_inputs toy pair_proof) (node_inputs toy (shape 20 two))
verify_sound_example =
    verify_sound toy two _ pair_proof toy-Sha3Law (new_ok toy two (omega arith) (omega arith))
      (hash_leaf-size, tt) refl pair_proof-verify

-- ===== src/Prelude/Octets.antt =====
-- Byte strings. A `[u8; N]`, a `Vec<u8>` and the UTF-8 text of a `String` are lists of numbers;
-- the size of an array is a hypothesis where a theorem needs it.
use Prim.Native.Nat.{ℕ, zero, suc, ◌/◌, ◌%◌, ◌^◌}
use Prim.Native.Char.{code}
use Prim.Native.String.{String}
use mathlib.Core.Path.{◌≡◌, refl, sym, ap, ap₂}
use mathlib.Core.Logic.{◌↔◌}
use mathlib.Core.Bool.{Bool, true, false, ◌&&◌}
use mathlib.Core.List.{List, [], ◌∷◌, ◌++◌}
use native.Mathlib.Omega.{arith}
use oetp.Prelude.Tests.{◌==◌}
use oetp.Prelude.Lists.{length}

abbrev pub Bytes : Type 0
Bytes = List ℕ

-- The bytes of an ASCII literal.
unfoldable pub utf8 : String → Bytes
utf8 String.[] = []
utf8 (String.◌∷◌ ch s) = code ch ∷ utf8 s

unfoldable pub beq : Bytes → Bytes → Bool
beq [] [] = true
beq (a ∷ x) (b ∷ y) = (a == b) && beq x y
beq _ _ = false

pub beq_refl : (x : Bytes) → beq x x ≡ true
unfolding beq
beq_refl [] = refl
beq_refl (a ∷ x) = ground (arith, beq_refl x)

pub beq_sound : (x y : Bytes) → beq x y ≡ true → x ≡ y
unfolding beq
beq_sound [] [] h = refl
beq_sound [] (b ∷ y) h = cc
beq_sound (a ∷ x) [] h = cc
beq_sound (a ∷ x) (b ∷ y) h = ground (arith, beq_sound x y)

pub beq_iff : (x y : Bytes) → (beq x y ≡ true) ↔ (x ≡ y)
beq_iff x y = (beq_sound x y, λ e. rw e (beq_refl y))

-- `starts_with`, the pattern first.
unfoldable pub starts_with : Bytes → Bytes → Bool
starts_with [] x = true
starts_with (p ∷ pat) [] = false
starts_with (p ∷ pat) (b ∷ x) = p == b && starts_with pat x

pub starts_with_split : (p x : Bytes) → starts_with p x ≡ true → (rest : Bytes) × (x ≡ p ++ rest)
unfolding starts_with
starts_with_split [] x h = (x, refl)
starts_with_split (a ∷ p) [] h = absurd (ground (arith, h))
starts_with_split (a ∷ p) (b ∷ x) h =
    let same : a ≡ b = ground (arith, h) in
    let (rest, e) = starts_with_split p x (ground (arith, h)) in (rest, ap₂ ◌∷◌ (sym same) e)

pub starts_with-append : (p rest : Bytes) → starts_with p (p ++ rest) ≡ true
unfolding starts_with
starts_with-append [] rest = refl
starts_with-append (a ∷ p) rest = ground (arith, starts_with-append p rest)

-- `to_be_bytes`: the lowest `k` bytes of a number, the highest first.
unfoldable pub be_bytes : ℕ → ℕ → Bytes
be_bytes zero n = []
be_bytes (suc k) n = n / 256 ^ k % 256 ∷ be_bytes k n

pub length-be_bytes : (k n : ℕ) → length (be_bytes k n) ≡ k
unfolding be_bytes
length-be_bytes zero n = refl
length-be_bytes (suc k) n = ap suc (length-be_bytes k n)

-- Two byte strings with prefixes of one size are equal part by part.
pub append_split :
    (x x' y y' : Bytes) → length x ≡ length x' → x ++ y ≡ x' ++ y' → (x ≡ x') × (y ≡ y')
append_split [] [] y y' h e = (refl, e)
append_split [] (b ∷ x') y y' h e = absurd (omega arith)
append_split (a ∷ x) [] y y' h e = absurd (omega arith)
append_split (a ∷ x) (b ∷ x') y y' h e =
    let (p, q) = append_split x x' y y' (omega arith) (cc) in (ap₂ ◌∷◌ (cc) p, q)

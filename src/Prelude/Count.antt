-- ===== src/Prelude/Count.antt =====
-- How many elements of a list meet a test.
use Prim.Native.Nat.{ℕ, suc, ◌+◌}
use mathlib.Core.Path.{◌≡◌, refl}
use mathlib.Core.List.{List, [], ◌∷◌, ◌++◌}
use mathlib.Core.Bool.{not, Bool, true}
use native.Mathlib.Omega.{arith}
use oetp.Prelude.Lists.{length, all}
use oetp.Prelude.Tests.{if◌then◌else◌}

module _ {ℓ} {A : Type ℓ} where
  -- How many meet the test.
  unfoldable pub count : (A → Bool) → List A → ℕ
  count p [] = 0
  count p (x ∷ xs) = let rest = count p xs in if p x then suc rest else rest

  pub count_append : (p : A → Bool) (xs ys : List A) → count p (xs ++ ys) ≡ count p xs + count p ys
  unfolding count
  count_append p [] ys = omega arith
  count_append p (x ∷ xs) ys = ground (arith, count_append p xs ys)

  pub count_all : (p : A → Bool) (xs : List A) → all p xs ≡ true → count p xs ≡ length xs
  unfolding count
  count_all p [] h = refl
  count_all p (x ∷ xs) h = ground (arith, count_all p xs)

  pub count_none : (p : A → Bool) (xs : List A) → all (λ x. not (p x)) xs ≡ true → count p xs ≡ 0
  unfolding count
  count_none p [] h = refl
  count_none p (x ∷ xs) h = ground (arith, count_none p xs)

  pub none_counted : (p : A → Bool) (xs : List A) → count (λ x. not (p x)) xs ≡ 0 → all p xs ≡ true
  unfolding count
  none_counted p [] h = refl
  none_counted p (x ∷ xs) h = ground (arith, none_counted p xs)

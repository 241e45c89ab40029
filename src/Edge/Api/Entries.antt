-- ===== src/Edge/Api/Entries.antt =====
-- The entries of the daemon's cache (oetp-edge/src/state.rs): the predicate of a good one, and
-- lemmas on all entries of a map.
use oetp.Prelude.{
  ℕ, ◌≡◌, inl, inr, Bool, true, false, not, ◌||◌, Option, none, some, List, [], ◌∷◌, arith,
  Bool-cases, All, Bytes, beq, Map, lookup, insert,
}
use oetp.Result.{ok}
use oetp.Crates.{Crates}
use oetp.Signing
use oetp.Release
use oetp.Release.{ReleaseToken}
use oetp.Edge.Api.{has_token}
use oetp.Edge.State.{CachedExamData, AppState}
use oetp.Edge.Config.{EdgeConfig}
use oetp.Edge.Nonces.{contains}

abbrev has_seed : Option Bytes → Bool
has_seed none = false
has_seed (some seed) = true

module _ (c : Crates) where
  -- A token that was verified under the beacon's key at some time, names this centre, exam and device,
  -- and whose nonce is consumed.
  pub record TokenGood (config : EdgeConfig) (consumed : List Bytes) (token : ReleaseToken)
      : Type 0 where
    pub center : token.center_id ≡ config.center_id
    pub exam : token.exam_id ≡ config.exam_id
    pub device : token.device_id ≡ config.device_id
    pub used : contains token.nonce consumed ≡ true
    pub at : ℕ
    pub key : Bytes
    pub parsed : Signing.verifying_key_from_bytes c config.beacon_public_key ≡ ok key
    pub verified : Release.verify c token key at ≡ ok tt

  abbrev pub Released : EdgeConfig → List Bytes → Option ReleaseToken → Type 0
  Released config consumed none = Unit {0}
  Released config consumed (some token) = TokenGood config consumed token

  -- An entry: with a variant seed only if it has a token, which then is a good one.
  abbrev pub Good : EdgeConfig → List Bytes → CachedExamData → Type 0
  Good config consumed e =
      ((not (has_seed e.variant_seed) || has_token c e.release_token) ≡ true)
      × Released config consumed e.release_token

  abbrev pub WellFormed : AppState → Type 0
  WellFormed s = All (λ p. Good s.config s.consumed_nonces.nonces p.1) s.cache

module _ {V : Type 0} (P : V → Type 0) where
  pub All-insert :
      (k : Bytes) (v : V) (m : Map V) → P v → All (λ p. P p.1) m → All (λ p. P p.1) (insert k v m)
  unfolding insert
  All-insert k v [] pv a = (pv, tt)
  All-insert k v ((j, w) ∷ m) pv (pw, a) = elim (Bool-cases (beq j k)) [
    | inl same ↦ rw same (pv, a)
    | inr other ↦ rw other (pw, All-insert k v m pv a)
  ]

  pub All-lookup : (k : Bytes) (m : Map V) {v : V} → lookup k m ≡ some v → All (λ p. P p.1) m → P v
  unfolding lookup
  All-lookup k [] h a = cc
  All-lookup k ((j, w) ∷ m) {v} h (pw, a) = elim (Bool-cases (beq j k)) [
    | inl same ↦ (let e : w ≡ v = ground (arith, same, h) in rw (← e) pw)
    | inr other ↦ All-lookup k m (ground (arith, other, h)) a
  ]

  pub All-implies :
      (Q : V → Type 0)
      → ((v : V) → P v → Q v)
      → (m : Map V) → All (λ p. P p.1) m
      → All (λ p. Q p.1) m
  All-implies Q f [] a = tt
  All-implies Q f ((j, w) ∷ m) (pw, a) = (f w pw, All-implies Q f m a)

-- ===== src/Env/Read.antt =====
-- What a variable of the environment has that was read.
use oetp.Prelude.{
  [], ◌∷◌, ◌==◌, if◌then◌else◌, ◌≤◌, String, ◌≡◌, refl, inl, inr, true, arith, Option-cases, length,
  all, Bytes,
}
use oetp.Result.{Fallible, ok, err, panic, unfinished, ◌>>=◌}
use oetp.Crates.{Crates, HexLaw, PatternLaw, is_id_byte}
use oetp.Validation.{validate_hex_secret, max_id_len}
use oetp.Validation.Accepted.{validate_identifier_iff}
use oetp.Env.{
  push_digit, ◌∷◌, some, u64_max, ℕ, u64_or, parse_u64, parse_digits, Env, var, required_identifier,
  required_secret,
}

-- An identifier: 1 to 64 letters, digits, hyphens and underscores.
abbrev pub IsName : Bytes → Type 0
IsName v = (1 ≤ length v) × (length v ≤ max_id_len) × (all is_id_byte v ≡ true)

module _ {E A B : Type 0} where
  -- A chain that succeeds passed its first step.
  pub first_step :
      (m : Fallible E A) {f : A → Fallible E B} {b : B}
      → m >>= f ≡ ok b
      → (a : A) × (m ≡ ok a) × (f a ≡ ok b)
  first_step (ok a) h = (a, refl, h)
  first_step (err e) h = cc
  first_step panic h = cc
  first_step unfinished h = cc

parse_digits-bound :
    (acc : ℕ) (x : Bytes) {n : ℕ} → acc ≤ u64_max → parse_digits acc x ≡ some n → n ≤ u64_max
unfolding parse_digits
parse_digits-bound acc [] h p = ground arith
parse_digits-bound acc (b ∷ x) h p = elim (Option-cases (push_digit acc b)) [
  | inl bad ↦ absurd (ground (arith, bad))
  | inr (m, pushed) ↦ parse_digits-bound m x (ground (arith, pushed)) (ground (arith, pushed))
]

-- What is parsed fits in a u64.
pub parse_u64-bound : (x : Bytes) {n : ℕ} → parse_u64 x ≡ some n → n ≤ u64_max
unfolding parse_u64
parse_u64-bound [] p = absurd (ground arith)
parse_u64-bound (b ∷ []) p = parse_digits-bound 0 (b ∷ []) (omega arith) p
parse_u64-bound (b ∷ d ∷ x) p =
    parse_digits-bound 0 (if b == b'+' then d ∷ x else b ∷ d ∷ x) (omega arith) p

pub u64_or-bound :
    (env : Env) (name : String) (default : ℕ)
    → default ≤ u64_max
    → u64_or env name default ≤ u64_max
unfolding u64_or
u64_or-bound env name default h = elim (Option-cases (var env name)) [
  | inl missing ↦ ground (arith, missing)
  | inr (v, there) ↦ elim (Option-cases (parse_u64 v)) [
    | inl bad ↦ ground (arith, there, bad)
    | inr (n, parsed) ↦ ground (arith, there, parsed, parse_u64-bound v parsed)
  ]
]

module _ (c : Crates) (env : Env) (name : String) where
  pub required_identifier-IsName :
      PatternLaw c → {v : Bytes} → required_identifier c env name ≡ ok v → IsName v
  unfolding required_identifier
  required_identifier-IsName law {v} h = elim (Option-cases (var env name)) [
    | inl missing ↦ absurd (ground (arith, missing))
    | inr (w, there) ↦
        let same : w ≡ v = ground (arith, there) in
        rw (← same) ((validate_identifier_iff c name w law).0 (ground (arith, there)))
  ]

  pub length-required_secret :
      HexLaw c → (end : String) {v : Bytes} → required_secret c env name end ≡ ok v → length v ≡ 32
  unfolding required_secret validate_hex_secret
  length-required_secret law end {v} h = elim (Option-cases (var env name)) [
    | inl missing ↦ absurd (ground (arith, missing))
    | inr (w, there) ↦ elim (Option-cases (c.hex_decode 32 (c.trim w))) [
      | inl bad ↦ absurd (ground (arith, there, bad))
      | inr (x, decoded) ↦ law.length-hex_decode 32 (c.trim w) (ground (arith, there, decoded))
    ]
  ]

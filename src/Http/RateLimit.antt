-- ===== src/Http/RateLimit.antt =====
-- `rate_limit_layer`, which oetp-beacon/src/api.rs, oetp-edge/src/lib.rs and oetp-ledger/src/lib.rs have
-- alike. The crate tower_governor is a parameter.
use oetp.Prelude.{
  ◌*◌, ◌<◌, ℕ, ◌-◌, ◌^◌, ◌≤◌, String, ◌≡◌, refl, ap, ◌∙◌, ◌⊎◌, inl, inr, Option, none, some, arith,
  leb, ◌==◌, if◌then◌else◌, Bool-cases, Option-cases, Bytes,
}
use oetp.Result.{Fallible, ok, panic, expect, ◌>>=◌}
use oetp.Env.{Env, var, parse_u64, u64_or}

abbrev pub u32_max : ℕ
u32_max = 2 ^ 32 - 1

-- `v.parse::<u32>()`: what `u64` reads, if it is in range.
unfoldable pub parse_u32 : Bytes → Option ℕ
parse_u32 v = elim (parse_u64 v) [ none ↦ none | some n ↦ if leb n u32_max then some n else none ]

abbrev pub or_else : Option ℕ → ℕ → ℕ
or_else none d = d
or_else (some n) d = n

-- `GovernorConfigBuilder::default().per_second(p).burst_size(b).finish()`, which may itself panic: the
-- quota is a duration of `p` seconds times `b`.
pub record Governor (G : Type 0) : Type 0 where
  pub finish : ℕ → ℕ → Fallible (Unit {0}) (Option G)

-- The whole quota in nanoseconds, the unit of the crate's clock.
abbrev pub nanoseconds : ℕ → ℕ → ℕ
nanoseconds p b = p * b * 10 ^ 9

-- Without a period or a burst there is no configuration; with both, and a quota whose nanoseconds fit in a
-- u64 (584 years), there is one. Of longer ones nothing is assumed.
pub record GovernorLaw {G : Type 0} (governor : Governor G) : Type 0 where
  pub finish_zero : (p b : ℕ) → (p ≡ 0) ⊎ (b ≡ 0) → governor.finish p b ≡ ok none
  pub finish_pos :
      (p b : ℕ)
      → 1 ≤ p
      → 1 ≤ b
      → nanoseconds p b < 2 ^ 64
      → (g : G) × (governor.finish p b ≡ ok (some g))

module _ {G : Type 0} (governor : Governor G) (env : Env) where
  abbrev pub per_second : ℕ
  per_second = u64_or env "OETP_RATE_LIMIT_PER_SECOND" 10

  abbrev pub burst_size : ℕ
  burst_size =
      or_else (elim (var env "OETP_RATE_LIMIT_BURST") [ none ↦ none | some v ↦ parse_u32 v ]) 1000

  unfoldable pub rate_limit_layer : Fallible (Unit {0}) G
  rate_limit_layer = governor.finish per_second burst_size >>= λ config. expect config

  -- The variable is there and its text is read as zero.
  abbrev pub IsZero : String → Type 0
  IsZero name = (v : Bytes) × (var env name ≡ some v) × (parse_u64 v ≡ some 0)

  per_second-IsZero : per_second ≡ 0 → IsZero "OETP_RATE_LIMIT_PER_SECOND"
  unfolding u64_or
  per_second-IsZero h = elim (Option-cases (var env "OETP_RATE_LIMIT_PER_SECOND")) [
    | inl missing ↦ absurd (ground (arith, missing, h))
    | inr (v, there) ↦ elim (Option-cases (parse_u64 v)) [
      | inl bad ↦ absurd (ground (arith, there, bad, h))
      | inr (n, good) ↦
          let zero_n : n ≡ 0 = ground (arith, there, good, h) in (v, there, good ∙ ap some zero_n)
    ]
  ]

  burst_size-IsZero : burst_size ≡ 0 → IsZero "OETP_RATE_LIMIT_BURST"
  unfolding parse_u32
  burst_size-IsZero h = elim (Option-cases (var env "OETP_RATE_LIMIT_BURST")) [
    | inl missing ↦ absurd (ground (arith, missing, h))
    | inr (v, there) ↦ elim (Option-cases (parse_u64 v)) [
      | inl bad ↦ absurd (ground (arith, there, bad, h))
      | inr (n, good) ↦
          let zero_n : n ≡ 0 = ground (arith, there, good, h) in (v, there, good ∙ ap some zero_n)
    ]
  ]

  IsZero-per_second : IsZero "OETP_RATE_LIMIT_PER_SECOND" → per_second ≡ 0
  unfolding u64_or
  IsZero-per_second (v, there, zero_v) = ground (arith, there, zero_v)

  IsZero-burst_size : IsZero "OETP_RATE_LIMIT_BURST" → burst_size ≡ 0
  unfolding parse_u32
  IsZero-burst_size (v, there, zero_v) = ground (arith, there, zero_v)

  -- Where the quota of the two variables, or of their defaults, has nanoseconds that fit in a u64, a
  -- service's limit on the rate is built unless one of the two variables is read as zero; then, and only
  -- then, the service panics at its start.
  pub rate_limit_layer-panic :
      GovernorLaw governor
      → nanoseconds per_second burst_size < 2 ^ 64
      → ((g : G) × (rate_limit_layer ≡ ok g)
          × ¬ (IsZero "OETP_RATE_LIMIT_PER_SECOND")
          × ¬ (IsZero "OETP_RATE_LIMIT_BURST"))
        ⊎ ((rate_limit_layer ≡ panic)
            × (IsZero "OETP_RATE_LIMIT_PER_SECOND" ⊎ IsZero "OETP_RATE_LIMIT_BURST"))
  unfolding rate_limit_layer
  rate_limit_layer-panic law fits = elim (Bool-cases (per_second == 0)) [
    | inl none_left ↦
        let z : per_second ≡ 0 = ground (arith, none_left) in
        inr (rw (law.finish_zero per_second burst_size (inl z)) refl, inl (per_second-IsZero z))
    | inr some_rate ↦ elim (Bool-cases (burst_size == 0)) [
      | inl no_burst ↦
          let z : burst_size ≡ 0 = ground (arith, no_burst) in
          inr (rw (law.finish_zero per_second burst_size (inr z)) refl, inr (burst_size-IsZero z))
      | inr some_burst ↦
          let (g, e) =
            law.finish_pos per_second burst_size (ground (arith, some_rate))
              (ground (arith, some_burst)) fits in
          inl (
            g,
            rw e refl,
            λ z. ground (arith, some_rate, IsZero-per_second z),
            λ z. ground (arith, some_burst, IsZero-burst_size z),
          )
    ]
  ]

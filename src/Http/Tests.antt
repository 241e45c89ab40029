-- ===== src/Http/Tests.antt =====
-- A limit on the rate that is built from an environment.
use oetp.Prelude.{
  ℕ, zero, suc, ◌^◌, ◌≤◌, ◌<◌, ◌≡◌, refl, ◌⊎◌, inl, inr, true, Option, none, some, [], ◌∷◌, arith,
  ltb, if◌then◌else◌, lt→ltb, utf8, beq, lookup,
}
use oetp.Result.{Fallible, ok, panic}
use oetp.Env.{u64_or, parse_u64, parse_digits, Env}
use oetp.Http.RateLimit.{
  nanoseconds, per_second, burst_size, parse_u32, Governor, IsZero, rate_limit_layer,
  rate_limit_layer-panic,
}

abbrev build : ℕ → ℕ → Fallible (Unit {0}) (Option (ℕ × ℕ))
build zero b = ok none
build (suc p) zero = ok none
build (suc p) (suc b) =
    if ltb (nanoseconds (suc p) (suc b)) (2 ^ 64) then ok (some (suc p, suc b)) else panic

abbrev toy_governor : Governor (ℕ × ℕ)
toy_governor = record { finish = build }

build_zero : (p b : ℕ) → (p ≡ 0) ⊎ (b ≡ 0) → build p b ≡ ok none
build_zero zero b h = refl
build_zero (suc p) zero h = refl
build_zero (suc p) (suc b) (inl e) = absurd (omega (arith, e))
build_zero (suc p) (suc b) (inr e) = absurd (omega (arith, e))

build_pos :
    (p b : ℕ)
    → 1 ≤ p
    → 1 ≤ b
    → nanoseconds p b < 2 ^ 64
    → (g : ℕ × ℕ) × (toy_governor.finish p b ≡ ok (some g))
build_pos zero b h k fits = absurd (omega (arith, h))
build_pos (suc p) zero h k fits = absurd (omega (arith, k))
build_pos (suc p) (suc b) h k fits =
    let small : ltb (nanoseconds (suc p) (suc b)) (2 ^ 64) ≡ true = lt→ltb _ _ fits in
    ((suc p, suc b), rw small refl)

abbrev env : Env
env name = lookup name ((utf8 "OETP_RATE_LIMIT_BURST", utf8 "0") ∷ [])

in_range : nanoseconds (per_second toy_governor env) (burst_size toy_governor env) < 2 ^ 64
unfolding u64_or parse_u64 parse_u32 parse_digits lookup beq utf8
in_range = omega arith

rate_limit_layer-panic_example :
    ((g : ℕ × ℕ) × (rate_limit_layer toy_governor env ≡ ok g)
      × ¬ (IsZero toy_governor env "OETP_RATE_LIMIT_PER_SECOND")
      × ¬ (IsZero toy_governor env "OETP_RATE_LIMIT_BURST"))
    ⊎ ((rate_limit_layer toy_governor env ≡ panic)
        × (IsZero toy_governor env "OETP_RATE_LIMIT_PER_SECOND"
            ⊎ IsZero toy_governor env "OETP_RATE_LIMIT_BURST"))
rate_limit_layer-panic_example =
    rate_limit_layer-panic toy_governor env
      (record { finish_zero = build_zero; finish_pos = build_pos }) in_range

-- ===== src/Http/Cors.antt =====
-- The origins that the routers of oetp-edge/src/lib.rs and oetp-ledger/src/lib.rs allow.
use oetp.Prelude.{
  ◌≡◌, refl, ◌↔◌, ◌⊎◌, inl, inr, Bool, true, ◌||◌, ◌++◌, arith, Bool-cases, Bytes, utf8,
  starts_with, starts_with_split, starts_with-append,
}

-- The predicate of `allow_origin`.
unfoldable pub allowed_origin : Bytes → Bool
allowed_origin origin =
    starts_with (utf8 "http://127.0.0.1") origin || starts_with (utf8 "http://localhost") origin

-- Exactly the texts that begin with one of the two are allowed, whatever follows: not only a port, but
-- also the rest of another host's name.
pub allowed_origin_iff :
    (origin : Bytes)
    → (allowed_origin origin ≡ true) ↔ (
        (rest : Bytes) × ((origin ≡ utf8 "http://127.0.0.1" ++ rest)
          ⊎ (origin ≡ utf8 "http://localhost" ++ rest)))
unfolding allowed_origin
allowed_origin_iff origin = (
  (λ h. elim (Bool-cases (starts_with (utf8 "http://127.0.0.1") origin)) [
    | inl local_ip ↦
        (let (rest, e) = starts_with_split (utf8 "http://127.0.0.1") origin local_ip in
          (rest, inl e))
    | inr other ↦
        (let (rest, e) =
            starts_with_split (utf8 "http://localhost") origin (ground (arith, h, other)) in
          (rest, inr e))
  ]),
  (λ p. elim p.1 [
    | inl e ↦ rw e (rw (starts_with-append (utf8 "http://127.0.0.1") p.0) refl)
    | inr e ↦
        (let there = starts_with-append (utf8 "http://localhost") p.0 in
          rw e (ground (arith, there)))
  ]),
)

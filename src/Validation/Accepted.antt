-- ===== src/Validation/Accepted.antt =====
-- What the validation rules accept (oetp-core/src/validation.rs).
use oetp.Prelude.{
  ℕ, ◌≤◌, ◌<◌, String, ◌≡◌, refl, ◌↔◌, ◌⊎◌, true, not, ◌&&◌, ◌||◌, [], ◌∷◌, arith, leb, length, any,
  all, Bytes,
}
use oetp.Result.{ok}
use oetp.Crates.{Crates, PatternLaw, is_id_byte}
use oetp.Validation.{
  validate_identifier, validate_api_key, max_id_len, is_ascii, is_ascii_control, u64_max,
  validate_exam_window,
}

module _ (c : Crates) (name : String) (value : Bytes) where
  -- Whatever the pattern means, an accepted identifier is not empty and has at most 64 bytes.
  pub validate_identifier-eq-ok :
      validate_identifier c name value ≡ ok tt
      → (1 ≤ length value) × (length value ≤ max_id_len) × (c.id_pattern value ≡ true)
  unfolding validate_identifier
  validate_identifier-eq-ok h = ground arith

  validate_identifier_ok :
      1 ≤ length value
      → length value ≤ max_id_len
      → c.id_pattern value ≡ true
      → validate_identifier c name value ≡ ok tt
  unfolding validate_identifier
  validate_identifier_ok h k p = ground arith

  -- An identifier is accepted exactly if it has 1 to 64 bytes, each an ASCII letter, a digit, a
  -- hyphen or an underscore.
  pub validate_identifier_iff :
      PatternLaw c
      → (validate_identifier c name value ≡ ok tt)
        ↔ ((1 ≤ length value) × (length value ≤ max_id_len) × (all is_id_byte value ≡ true))
  validate_identifier_iff law = (
    λ h. (let (a, b, p) = validate_identifier-eq-ok h in (a, b, ((law.matches_iff value).0 p).1)),
    λ r. validate_identifier_ok r.0 r.1 ((law.matches_iff value).1 (r.0, r.2)),
  )

printable_iff :
    (v : Bytes)
    → (not (is_ascii v) || any is_ascii_control v) ≡ not (all (λ b. leb 32 b && leb b 126) v)
printable_iff [] = refl
printable_iff (b ∷ v) = ground (arith, printable_iff v)

-- An API key is accepted exactly if it has 32 bytes or more, all of them printable ASCII, 32 to 126.
pub validate_api_key_iff :
    (v : Bytes)
    → (validate_api_key v ≡ ok tt) ↔ ((32 ≤ length v) × (all (λ b. leb 32 b && leb b 126) v ≡ true))
unfolding validate_api_key
validate_api_key_iff v = ground (arith, printable_iff v)

-- An exam window is accepted exactly if it starts before it ends, or is the whole range of u64.
pub validate_exam_window_iff :
    (start end : ℕ)
    → (validate_exam_window start end ≡ ok tt) ↔ ((start < end) ⊎ ((start ≡ 0) × (end ≡ u64_max)))
unfolding validate_exam_window
validate_exam_window_iff start end = ground arith

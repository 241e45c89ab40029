-- ===== src/Envelope/Binding.antt =====
-- The associated data of an envelope (oetp-core/src/envelope.rs) as an encoding of its names.
use oetp.Prelude.{
  length-be_bytes, sym, ◌∷◌, ◌∙◌, append_split, arith, ◌%◌, ◌<◌, ◌≡◌, length, Bytes, be_bytes,
}
use oetp.Crates.{Crates, UuidLaw}
use oetp.Envelope.{ℕ, u16_length, build_canonical_aad}

u16_length-injective :
    (x y : Bytes)
    → length x < 65536
    → length y < 65536
    → u16_length x ≡ u16_length y
    → length x ≡ length y
unfolding be_bytes
u16_length-injective x y h k e = ground arith

same_size : (x y : Bytes) → length (u16_length x) ≡ length (u16_length y)
same_size x y = length-be_bytes 2 (length x % 65536) ∙ sym (length-be_bytes 2 (length y % 65536))

cons-injective : {a b : ℕ} {x y : Bytes} → a ∷ x ≡ b ∷ y → x ≡ y
cons-injective e = cc

module _ (c : Crates) (law : UuidLaw c) where
  -- With names below 2^16 bytes and Uuids of 16 bytes, two envelopes have the same associated data only if they have the
  -- same device, student and exam.
  pub build_canonical_aad-injective :
      (d d' s s' e e' : Bytes)
      → length s ≡ 16
      → length s' ≡ 16
      → length d < 65536
      → length d' < 65536
      → length e < 65536
      → length e' < 65536
      → build_canonical_aad c d s e ≡ build_canonical_aad c d' s' e'
      → (d ≡ d') × (s ≡ s') × (e ≡ e')
  unfolding build_canonical_aad
  build_canonical_aad-injective d d' s s' e e' hs hs' hd hd' he he' same =
      let (n, r₁) =
        append_split (u16_length d) (u16_length d') _ _ (same_size d d') (cons-injective same) in
      let (p, r₂) = append_split d d' _ _ (u16_length-injective d d' hd hd' n) r₁ in
      let (u, r₃) =
        append_split (c.uuid_to_bytes_le s) (c.uuid_to_bytes_le s') _ _
          (law.length-bytes_le s hs ∙ sym (law.length-bytes_le s' hs')) r₂ in
      let (_, q) = append_split (u16_length e) (u16_length e') _ _ (same_size e e') r₃ in
      (p, law.bytes_le-injective s s' hs hs' u, q)

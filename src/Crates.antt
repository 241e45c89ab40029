-- ===== src/Crates.antt =====
-- What the program takes from the crates sha3, hkdf, argon2, aes-gcm, x25519-dalek, ed25519-dalek,
-- uuid, regex, hex, bincode and serde_json: the functions as a record, which every component takes as a parameter,
-- and their documented laws, which a theorem names where it rests on them.
pub mod Toy
use oetp.Prelude.{
  ℕ, suc, ◌+◌, ◌-◌, ◌%◌, ◌^◌, ◌≤◌, ◌<◌, min, String, ◌≡◌, ap, ◌↔◌, Bool, true, ◌&&◌, ◌||◌, Option,
  some, List, map, leb, ltb, ◌==◌, length, take, all, Bytes,
}

pub record Crates : Type 0 where
  -- Sha3_256 of the bytes of all `update` calls, in order
  pub sha3 : Bytes → Bytes
  -- Hkdf::<Sha3_256>::new(salt, ikm) and expand(info) into 32 bytes
  pub hkdf : Option Bytes → Bytes → Bytes → Bytes
  -- Argon2id with the parameters 65536, 3, 4, 32 bytes: password and salt
  pub argon2id : Bytes → Bytes → Bytes
  -- Aes256Gcm: key, nonce, associated data, message
  pub aes_encrypt : Bytes → Bytes → Bytes → Bytes → Option Bytes
  pub aes_decrypt : Bytes → Bytes → Bytes → Bytes → Option Bytes
  pub aes_error : String
  -- X25519: the public key of a secret, and the shared secret
  pub x25519_public : Bytes → Bytes
  pub x25519_dh : Bytes → Bytes → Bytes
  -- Ed25519: the public key, `sign`, `verify_strict`, and the two parsers
  pub ed_public : Bytes → Bytes
  pub ed_sign : Bytes → Bytes → Bytes
  pub ed_verify : Bytes → Bytes → Bytes → Bool
  pub ed_key_from_bytes : Bytes → Option Bytes
  pub ed_key_error : String
  pub ed_signature_from_slice : Bytes → Option Bytes
  -- Uuid, which stands for its 16 bytes: `to_bytes_le` and `to_string`
  pub uuid_to_bytes_le : Bytes → Bytes
  pub uuid_to_string : Bytes → Bytes
  -- `is_match` of the pattern `^[A-Za-z0-9_-]+$`
  pub id_pattern : Bytes → Bool
  -- `hex::encode`, and `hex::decode_to_slice` into a slice of the given size
  pub hex_encode : Bytes → Bytes
  pub hex_decode : ℕ → Bytes → Option Bytes
  -- `str::trim`, which knows Unicode's white space
  pub trim : Bytes → Bytes
  -- `serde_json::to_vec` of a map from texts to texts, by its entries in the order of the keys
  pub json_answers : List (Bytes × Bytes) → Bytes

-- Decryption under the same key, nonce and associated data gives the message back.
pub record AesLaw (c : Crates) : Type 0 where
  pub decrypt_encrypt :
      (key nonce aad msg ct : Bytes)
      → c.aes_encrypt key nonce aad msg ≡ some ct
      → c.aes_decrypt key nonce aad ct ≡ some msg

-- Both sides of the exchange compute one secret.
pub record DhLaw (c : Crates) : Type 0 where
  pub dh_comm :
      (a b : Bytes) → c.x25519_dh a (c.x25519_public b) ≡ c.x25519_dh b (c.x25519_public a)

-- A signature that was made by a key verifies under its public key, also after its 64 bytes and the
-- public key's 32 are parsed again.
pub record SignLaw (c : Crates) : Type 0 where
  pub verify_sign : (sk m : Bytes) → c.ed_verify (c.ed_public sk) m (c.ed_sign sk m) ≡ true
  pub parse_sign :
      (sk m : Bytes) → c.ed_signature_from_slice (c.ed_sign sk m) ≡ some (c.ed_sign sk m)
  pub parse_public : (sk : Bytes) → c.ed_key_from_bytes (c.ed_public sk) ≡ some (c.ed_public sk)

-- A Uuid has 16 bytes, also in the mixed order, and they determine it.
pub record UuidLaw (c : Crates) : Type 0 where
  pub length-bytes_le : (u : Bytes) → length u ≡ 16 → length (c.uuid_to_bytes_le u) ≡ 16
  pub bytes_le-injective :
      (u v : Bytes)
      → length u ≡ 16
      → length v ≡ 16
      → c.uuid_to_bytes_le u ≡ c.uuid_to_bytes_le v
      → u ≡ v

abbrev pub is_byte : ℕ → Bool
is_byte b = ltb b 256

-- An ASCII letter, digit, hyphen or underscore.
abbrev pub is_id_byte : ℕ → Bool
is_id_byte b =
    (leb b'A' b && leb b b'Z')
    || (leb b'a' b && leb b b'z')
    || (leb b'0' b && leb b b'9')
    || b == b'_'
    || b == b'-'

-- The pattern is met by the texts of one or more such characters.
pub record PatternLaw (c : Crates) : Type 0 where
  pub matches_iff :
      (v : Bytes) → (c.id_pattern v ≡ true) ↔ ((1 ≤ length v) × (all is_id_byte v ≡ true))

-- Sha3-256 has 32 bytes.
pub record Sha3Law (c : Crates) : Type 0 where
  pub length-sha3 : (m : Bytes) → length (c.sha3 m) ≡ 32

-- A digit of `hex::encode`.
abbrev pub is_hex_byte : ℕ → Bool
is_hex_byte b = (leb b'0' b && leb b b'9') || (leb b'a' b && leb b b'f')

-- Decoding fills the slice, and gives the bytes back that were encoded, two digits each, from which
-- `trim` takes nothing.
pub record HexLaw (c : Crates) : Type 0 where
  pub length-hex_decode : (n : ℕ) (x : Bytes) {b : Bytes} → c.hex_decode n x ≡ some b → length b ≡ n
  pub decode_encode :
      (b : Bytes) → all is_byte b ≡ true → c.hex_decode (length b) (c.hex_encode b) ≡ some b
  pub encode_digits : (b : Bytes) → all is_byte b ≡ true → all is_hex_byte (c.hex_encode b) ≡ true
  pub length-hex_encode : (b : Bytes) → length (c.hex_encode b) ≡ length b + length b
  pub trim_digits : (x : Bytes) → all is_hex_byte x ≡ true → c.trim x ≡ x

-- The code always expands into 32 bytes.
pub record HkdfLaw (c : Crates) : Type 0 where
  pub length-hkdf : (salt : Option Bytes) (ikm info : Bytes) → length (c.hkdf salt ikm info) ≡ 32

-- bincode or serde_json at one type.
pub record Codec (A : Type 0) : Type 0 where
  pub serialize : A → Option Bytes
  pub deserialize : Bytes → Option A
  pub codec_error : String

pub record CodecLaw {A : Type 0} (k : Codec A) : Type 0 where
  pub deserialize_serialize :
      (a : A) (b : Bytes) → k.serialize a ≡ some b → k.deserialize b ≡ some a

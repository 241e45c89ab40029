-- ===== src/Crates/Toy.antt =====
-- A toy instance of the interface to the crates, for the tests. It stands for no real algorithm.
use oetp.Prelude.{
  ◌<◌, ltb, ◌-◌, ◌/◌, ◌%◌, zero, suc, inl, inr, Option-cases, true, ◌&&◌, ℕ, ◌+◌, ◌*◌, ◌≡◌, refl,
  Option, none, some, [], ◌∷◌, ◌++◌, arith, ◌==◌, if◌then◌else◌, Bytes, beq, beq_refl, be_bytes,
  length-be_bytes,
}
use oetp.Crates.{
  is_id_byte, is_byte, is_hex_byte, HexLaw, all, length, PatternLaw, UuidLaw, leb, List, Crates,
  AesLaw, DhLaw, SignLaw, Sha3Law, HkdfLaw,
}

-- A number for a byte string.
abbrev number_of : ℕ → Bytes → ℕ
number_of acc [] = acc
number_of acc (b ∷ bs) = number_of (acc * 257 + b + 1) bs

unfoldable pub strip : Bytes → Bytes → Option Bytes
strip [] x = some x
strip (a ∷ p) [] = none
strip (a ∷ p) (b ∷ x) = let rest = strip p x in if a == b then rest else none

strip-append : (p x : Bytes) → strip p (p ++ x) ≡ some x
unfolding strip
strip-append [] x = refl
strip-append (a ∷ p) x = ground (arith, strip-append p x)

unfoldable pub add_each : Bytes → Bytes → Bytes
add_each [] y = []
add_each (a ∷ x) [] = []
add_each (a ∷ x) (b ∷ y) = (a + b) ∷ add_each x y

add_each_comm : (x y : Bytes) → add_each x y ≡ add_each y x
unfolding add_each
add_each_comm [] [] = refl
add_each_comm [] (b ∷ y) = refl
add_each_comm (a ∷ x) [] = refl
add_each_comm (a ∷ x) (b ∷ y) = ground (arith, add_each_comm x y)

abbrev some_if_any : Bytes → Option Bytes
some_if_any [] = none
some_if_any (b ∷ x) = some (b ∷ x)

unfoldable pub concat_answers : List (Bytes × Bytes) → Bytes
concat_answers [] = []
concat_answers ((k, v) ∷ r) = k ++ (v ++ concat_answers r)

abbrev digit : ℕ → ℕ
digit n = if ltb n 10 then n + b'0' else n + 87

abbrev value : ℕ → ℕ
value d = if ltb d b'a' then d - b'0' else d - 87

unfoldable pub hex_digits : Bytes → Bytes
hex_digits [] = []
hex_digits (b ∷ x) = digit (b / 16) ∷ digit (b % 16) ∷ hex_digits x

-- The bytes of a text of `2 n` digits of `hex::encode`.
unfoldable pub hex_value : ℕ → Bytes → Option Bytes
hex_value zero [] = some []
hex_value zero (d ∷ x) = none
hex_value (suc n) [] = none
hex_value (suc n) (d ∷ []) = none
hex_value (suc n) (d ∷ e ∷ x) =
    let rest = hex_value n x in
    if is_hex_byte d && is_hex_byte e
    then elim rest [ none ↦ none | some r ↦ some ((value d * 16 + value e) ∷ r) ]
    else none

abbrev pub toy : Crates
toy = record {
  sha3 = λ m. be_bytes 32 (number_of 0 m);
  hkdf = λ salt ikm info. be_bytes 32 (number_of 1 (ikm ++ info));
  argon2id = λ password salt. be_bytes 32 (number_of 2 (password ++ salt));
  aes_encrypt = λ key nonce aad msg. some ((key ++ (nonce ++ aad)) ++ msg);
  aes_decrypt = λ key nonce aad ct. strip (key ++ (nonce ++ aad)) ct;
  aes_error = "aead::Error";
  x25519_public = λ a. a;
  x25519_dh = add_each;
  ed_public = λ a. a;
  ed_sign = λ sk m. 7 ∷ (sk ++ m);
  ed_verify = λ pk m sig. beq sig (7 ∷ (pk ++ m));
  ed_key_from_bytes = some;
  ed_key_error = "signature error";
  ed_signature_from_slice = some_if_any;
  uuid_to_bytes_le = λ u. u;
  uuid_to_string = λ u. u;
  id_pattern = λ v. leb 1 (length v) && all is_id_byte v;
  hex_encode = hex_digits;
  hex_decode = hex_value;
  trim = λ b. b;
  json_answers = concat_answers;
}

pub toy-AesLaw : AesLaw toy
toy-AesLaw = record {
  decrypt_encrypt = λ key nonce aad msg ct e.
      let e' : (key ++ (nonce ++ aad)) ++ msg ≡ ct = cc in
      rw (← e') (strip-append (key ++ (nonce ++ aad)) msg);
}

pub toy-DhLaw : DhLaw toy
toy-DhLaw = record { dh_comm = add_each_comm }

pub toy-SignLaw : SignLaw toy
toy-SignLaw = record {
  verify_sign = λ sk m. beq_refl (7 ∷ (sk ++ m));
  parse_sign = λ sk m. refl;
  parse_public = λ sk. refl;
}

pub toy-Sha3Law : Sha3Law toy
toy-Sha3Law = record { length-sha3 = λ m. length-be_bytes 32 (number_of 0 m) }

pub toy-HkdfLaw : HkdfLaw toy
toy-HkdfLaw = record {
  length-hkdf = λ salt ikm info. length-be_bytes 32 (number_of 1 (ikm ++ info));
}

pub toy-PatternLaw : PatternLaw toy
toy-PatternLaw = record { matches_iff = λ v. grind arith }

pub toy-UuidLaw : UuidLaw toy
toy-UuidLaw = record { length-bytes_le = λ u h. h; bytes_le-injective = λ u v h k e. e }

digit_is_hex : (n : ℕ) → n < 16 → is_hex_byte (digit n) ≡ true
digit_is_hex n h = ground arith

value-digit : (n : ℕ) → n < 16 → value (digit n) ≡ n
value-digit n h = ground arith

digits_are_hex : (b : Bytes) → all is_byte b ≡ true → all is_hex_byte (hex_digits b) ≡ true
unfolding hex_digits
digits_are_hex [] h = refl
digits_are_hex (b ∷ x) h =
    let small : b < 256 = ground arith in
    let a = digit_is_hex (b / 16) (omega arith) in
    let d = digit_is_hex (b % 16) (omega arith) in rw a (rw d (digits_are_hex x (ground arith)))

length-digits : (b : Bytes) → length (hex_digits b) ≡ length b + length b
unfolding hex_digits
length-digits [] = refl
length-digits (b ∷ x) = omega (arith, length-digits x)

value-digits : (b : Bytes) → all is_byte b ≡ true → hex_value (length b) (hex_digits b) ≡ some b
unfolding hex_digits hex_value
value-digits [] h = refl
value-digits (b ∷ x) h =
    let small : b < 256 = ground arith in
    let a = digit_is_hex (b / 16) (omega arith) in
    let d = digit_is_hex (b % 16) (omega arith) in
    let p = value-digit (b / 16) (omega arith) in
    let q = value-digit (b % 16) (omega arith) in
    let whole : (b / 16) * 16 + b % 16 ≡ b = omega arith in
    rw a (rw d (rw (value-digits x (ground arith)) (rw p (rw q (rw whole refl)))))

length-value : (n : ℕ) (x : Bytes) {b : Bytes} → hex_value n x ≡ some b → length b ≡ n
unfolding hex_value
length-value zero [] h = ground arith
length-value zero (d ∷ x) h = absurd (ground arith)
length-value (suc n) [] h = absurd (ground arith)
length-value (suc n) (d ∷ []) h = absurd (ground arith)
length-value (suc n) (d ∷ e ∷ x) h = elim (Option-cases (hex_value n x)) [
  | inl bad ↦ absurd (ground (arith, bad))
  | inr (r, good) ↦ ground (arith, good, length-value n x good)
]

pub toy-HexLaw : HexLaw toy
toy-HexLaw = record {
  length-hex_decode = length-value;
  decode_encode = value-digits;
  encode_digits = digits_are_hex;
  length-hex_encode = length-digits;
  trim_digits = λ x h. refl;
}

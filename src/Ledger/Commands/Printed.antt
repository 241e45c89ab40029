-- ===== src/Ledger/Commands/Printed.antt =====
-- What `Keygen` prints (oetp-ledger/src/main.rs), where it is read again.
use oetp.Prelude.{String, ◌≡◌, refl, true, some, length, all, Bytes}
use oetp.Result.{ok}
use oetp.Crates.{Crates, HexLaw, SignLaw, is_byte}
use oetp.Validation.{validate_hex_secret}
use oetp.Signing
use oetp.Ledger.Generator.{GeneratorConfig}
use oetp.Ledger.Commands.{GenerateArgs, device_pk, generator_config, keygen_lines}

module _ (c : Crates) (hex : HexLaw c) where
  -- A text of `hex::encode` for 32 bytes is read as these bytes.
  encode-hex_decode :
      (key : Bytes)
      → length key ≡ 32
      → all is_byte key ≡ true
      → (c.hex_decode 32 (c.trim (c.hex_encode key)) ≡ some key)
        × (length (c.trim (c.hex_encode key)) ≡ 64)
  encode-hex_decode key n b =
      let trimmed = hex.trim_digits (c.hex_encode key) (hex.encode_digits key b) in
      let read : c.hex_decode 32 (c.hex_encode key) ≡ some key =
        rw (← n) (hex.decode_encode key b) in
      let size : length (c.hex_encode key) ≡ 64 = rw (hex.length-hex_encode key) (rw n refl) in
      rw trimmed (read, size)

  encode-validate_hex_secret :
      (name : String) (key : Bytes)
      → length key ≡ 32
      → all is_byte key ≡ true
      → validate_hex_secret c name (c.hex_encode key) ≡ ok key
  unfolding validate_hex_secret
  encode-validate_hex_secret name key n b =
      let (read, size) = encode-hex_decode key n b in rw size (rw read refl)

  -- The lines that Keygen prints for a key of 32 bytes, with a public key of 32 bytes: as a variable of the
  -- environment each is accepted, as the key and as its public key; what is signed with the first verifies
  -- under the second; and Generate, given them as the tenant's master key and as the device's key, does not
  -- exit and does not panic, but has the generator use exactly these keys.
  pub generator_config-keygen_lines :
      (key : Bytes) (args : GenerateArgs)
      → SignLaw c
      → length key ≡ 32
      → all is_byte key ≡ true
      → length (c.ed_public key) ≡ 32
      → all is_byte (c.ed_public key) ≡ true
      → args.tenant_master_key ≡ (keygen_lines c key).0
      → args.device_x25519_pub ≡ some (keygen_lines c key).1
      → ((name : String) → validate_hex_secret c name (keygen_lines c key).0 ≡ ok key)
        × ((name : String)
            → validate_hex_secret c name (keygen_lines c key).1 ≡ ok (c.ed_public key))
        × ((m : Bytes) → Signing.verify c (c.ed_public key) m (Signing.sign c key m) ≡ ok tt)
        × (cfg : GeneratorConfig) × (generator_config c args ≡ ok cfg)
        × (cfg.tenant_master_key ≡ key)
        × (cfg.device_x25519_public_key ≡ some (c.ed_public key))
  unfolding keygen_lines generator_config device_pk Signing.verify Signing.sign
  generator_config-keygen_lines key args law n b pn pb first second =
      let (read, _) = encode-hex_decode key n b in
      let (read_public, _) = encode-hex_decode (c.ed_public key) pn pb in
      (
        λ name. encode-validate_hex_secret name key n b,
        λ name. encode-validate_hex_secret name (c.ed_public key) pn pb,
        λ m. rw (law.verify_sign key m) refl,
        record {
          bank_path = args.bank;
          num_questions = args.num_questions;
          students_path = args.students;
          output_dir = args.output;
          tenant_master_key = key;
          exam_id = args.exam_id;
          tenant_id = args.tenant_id;
          device_x25519_public_key = some (c.ed_public key);
        },
        rw first (rw second (rw read (rw read_public refl))),
        refl,
        refl,
      )

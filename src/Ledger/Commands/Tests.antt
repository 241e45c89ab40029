-- ===== src/Ledger/Commands/Tests.antt =====
-- The lines that Keygen prints for a key.
use oetp.Prelude.{String, ◌≡◌, refl, true, some, [], ◌∷◌, length, all, Bytes, be_bytes}
use oetp.Result.{ok}
use oetp.Crates.Toy.{toy, toy-SignLaw, toy-HexLaw}
use oetp.Crates.{is_byte}
use oetp.Validation.{validate_hex_secret}
use oetp.Signing
use oetp.Ledger.Generator.{GeneratorConfig}
use oetp.Ledger.Commands.{GenerateArgs, generator_config, keygen_lines}
use oetp.Ledger.Commands.Printed.{generator_config-keygen_lines}

abbrev key : Bytes
key = be_bytes 32 1000

abbrev args : GenerateArgs
args = record {
  bank = [];
  num_questions = 90;
  students = [];
  output = [];
  tenant_master_key = (keygen_lines toy key).0;
  exam_id = b'e' ∷ [];
  tenant_id = b't' ∷ [];
  device_x25519_pub = some (keygen_lines toy key).1;
}

key_size : length key ≡ 32
unfolding be_bytes
key_size = refl

key_bytes : all is_byte key ≡ true
unfolding be_bytes
key_bytes = refl

generator_config-keygen_lines_example :
    ((name : String) → validate_hex_secret toy name (keygen_lines toy key).0 ≡ ok key)
    × ((name : String) → validate_hex_secret toy name (keygen_lines toy key).1 ≡ ok key)
    × ((m : Bytes) → Signing.verify toy key m (Signing.sign toy key m) ≡ ok tt)
    × (cfg : GeneratorConfig) × (generator_config toy args ≡ ok cfg)
    × (cfg.tenant_master_key ≡ key)
    × (cfg.device_x25519_public_key ≡ some key)
generator_config-keygen_lines_example =
    generator_config-keygen_lines toy toy-HexLaw key args toy-SignLaw key_size key_bytes key_size
      key_bytes refl refl

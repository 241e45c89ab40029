-- ===== src/Ledger/Commands.antt =====
-- oetp-ledger/src/main.rs: the command line, and the commands `Generate` and `Keygen`. The crate clap is
-- a parameter: the arguments are given as it has parsed them.
pub mod Printed
mod Tests
use oetp.Prelude.{ℕ, ◌-◌, ◌/◌, ◌%◌, String, ap, Option, none, some, map, all, Bytes}
use oetp.Result.{◌>>=◌, expect, ok, Fallible}
use oetp.Result.{ok_or, map_err}
use oetp.Crates.{Crates}
use oetp.QuestionBank.{Float, Rng}
use oetp.Ledger.Generator.{GeneratorConfig, Formats, Drawn, Output, run_generator}

-- `Commands::Generate`; clap puts the defaults of `#[arg]` where an option is missing.
pub record GenerateArgs : Type 0 where
  pub bank : Bytes
  pub num_questions : ℕ
  pub students : Bytes
  pub output : Bytes
  pub tenant_master_key : Bytes
  pub exam_id : Bytes
  pub tenant_id : Bytes
  pub device_x25519_pub : Option Bytes

pub data Commands : Type 0 where
  generate : GenerateArgs → Commands
  serve : Commands
  load : Bytes → Commands
  keygen : Commands

-- `cli.command.unwrap_or(Commands::Serve)`
unfoldable pub command_of : Option Commands → Commands
command_of none = serve
command_of (some command) = command

module _ (c : Crates) where
  open c use {hex_decode, hex_encode, trim, ed_public}

  -- `hex::decode_to_slice(hex_str.trim(), &mut pk).expect(..)`, where there is a text.
  unfoldable pub device_pk : Option Bytes → Fallible (Unit {0}) (Option Bytes)
  device_pk none = ok none
  device_pk (some hex_str) = expect (hex_decode 32 (trim hex_str)) >>= λ pk. ok (some pk)

  -- `err tt` is the exit of the process with code 1.
  unfoldable pub generator_config : GenerateArgs → Fallible (Unit {0}) GeneratorConfig
  unfolding device_pk
  generator_config args = do
    master_key ← ok_or (hex_decode 32 (trim args.tenant_master_key)) tt
    pk ← device_pk args.device_x25519_pub
    ok (record {
      bank_path = args.bank;
      num_questions = args.num_questions;
      students_path = args.students;
      output_dir = args.output;
      tenant_master_key = master_key;
      exam_id = args.exam_id;
      tenant_id = args.tenant_id;
      device_x25519_public_key = pk;
    })

  -- The two lines that are printed for the key that `generate_keypair` draws.
  unfoldable pub keygen_lines : Bytes → Bytes × Bytes
  keygen_lines key = (hex_encode key, hex_encode (ed_public key))

  -- The command `Generate`, with what the generator is given.
  unfoldable pub run_generate :
      (formats : Formats) {F : Type 0} (f : Float F) {R : Type 0} (rand : Rng R)
      → (Bytes → R)
      → GenerateArgs
      → (Bytes → Fallible String Bytes)
      → (Bytes → Option Bytes)
      → (ℕ → Bytes)
      → Bytes
      → (ℕ → Drawn)
      → Fallible (Unit {0}) Output
  unfolding generator_config
  run_generate formats f rand from_seed args read_to_string parse_str new_v4 signing_key drawn = do
    gen_cfg ← generator_config args
    map_err
        (run_generator c formats f rand from_seed gen_cfg read_to_string parse_str new_v4
          signing_key drawn)
        (λ e. tt)

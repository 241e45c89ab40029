-- ===== src/Env.antt =====
-- What the three services read from the environment at their start, and how (the `config.rs` of
-- oetp-edge and oetp-ledger, and oetp-beacon/src/main.rs). `env` is `std::env::var`, where it succeeds.
pub mod Read
use oetp.Prelude.{
  ℕ, suc, ◌+◌, ◌-◌, ◌*◌, ◌/◌, ◌%◌, ◌<◌, max, String, ap, Bool, not, ◌&&◌, Option, none, some, [],
  ◌∷◌, ◌++◌, leb, ◌==◌, if◌then◌else◌, Bytes, utf8,
}
use oetp.Result.{invalid_input, io, Result, ok, ◌>>=◌, ◌>>◌, ok_or}
use Prim.Native.String.{◌++◌ as ◌<>◌}
use oetp.Crates.{Crates}
use oetp.Validation.{validate_identifier, validate_hex_secret, u64_max}

abbrev pub Env : Type 0
Env = Bytes → Option Bytes

abbrev pub var : Env → String → Option Bytes
var env name = env (utf8 name)

-- `unwrap_or_else(|_| default.into())`
abbrev pub var_or : Env → String → String → Bytes
var_or env name default = elim (var env name) [ none ↦ utf8 default | some v ↦ v ]

abbrev is_digit : ℕ → Bool
is_digit b = leb b'0' b && leb b b'9'

-- One step of `u64::from_str`, which fails at what is no digit and on an overflow.
abbrev pub push_digit : ℕ → ℕ → Option ℕ
push_digit acc b =
    if is_digit b && leb (acc * 10 + (b - b'0')) u64_max then some (acc * 10 + (b - b'0')) else none

unfoldable pub parse_digits : ℕ → Bytes → Option ℕ
parse_digits acc [] = some acc
parse_digits acc (b ∷ x) = elim (push_digit acc b) [ none ↦ none | some n ↦ parse_digits n x ]

-- `u64::from_str`: one digit or more, after a plus sign or none.
unfoldable pub parse_u64 : Bytes → Option ℕ
unfolding parse_digits
parse_u64 [] = none
parse_u64 (b ∷ []) = parse_digits 0 (b ∷ [])
parse_u64 (b ∷ d ∷ x) = parse_digits 0 (if b == b'+' then d ∷ x else b ∷ d ∷ x)

-- `.ok().and_then(|v| v.parse().ok()).unwrap_or(default)`
unfoldable pub u64_or : Env → String → ℕ → ℕ
unfolding parse_u64
u64_or env name default = elim (var env name) [
  | none ↦ default
  | some v ↦ elim (parse_u64 v) [ none ↦ default | some n ↦ n ]
]

-- A variable that has to be there, with the end of the message where it is not.
abbrev pub required : Env → String → String → Result Bytes
required env name end = ok_or (var env name) (invalid_input (◌<>◌ name end))

module _ (c : Crates) (env : Env) where
  -- A variable that has to be an identifier.
  unfoldable pub required_identifier : String → Result Bytes
  unfolding validate_identifier
  required_identifier name = do
    value ← required env name " required"
    validate_identifier c name value
    ok value

  -- A variable that has to be the hex of 32 bytes.
  unfoldable pub required_secret : String → String → Result Bytes
  unfolding validate_hex_secret
  required_secret name end = do value ← required env name end; validate_hex_secret c name value

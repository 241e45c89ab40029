-- ===== src/Device.antt =====
-- oetp-core/src/device.rs and device_x25519.rs: the device's Ed25519 and X25519 key pairs. The
-- random secrets that `generate` draws are given. Dropping a pair, which wipes it, is not modelled.
use oetp.Prelude.{ℕ, zero, suc, [], ◌∷◌, Bytes, beq}
use oetp.Result.{invalid_input, Result, ok, ◌>>◌, reject}
use oetp.Crates.{Crates}
use oetp.Signing

pub record DeviceKeyPair : Type 0 where
  pub device_id : Bytes
  pub public_key : Bytes
  pub private_key : Bytes

pub record DeviceX25519Key : Type 0 where
  pub device_id : Bytes
  pub public_key : Bytes
  pub private_key : Bytes

-- `[0u8; n]`
unfoldable pub zeros : ℕ → Bytes
zeros zero = []
zeros (suc n) = 0 ∷ zeros n

module _ (c : Crates) where
  unfoldable pub from_bytes : Bytes → Bytes → DeviceKeyPair
  from_bytes device_id private_key_bytes = record {
    device_id = device_id;
    public_key = c.ed_public private_key_bytes;
    private_key = private_key_bytes;
  }

  -- `DeviceKeyPair::generate`, with the secret that `signing::generate_keypair` draws.
  unfoldable pub generate : Bytes → Bytes → DeviceKeyPair
  unfolding from_bytes
  generate device_id drawn = from_bytes device_id drawn

  unfoldable pub verifying_key : DeviceKeyPair → Result Bytes
  unfolding Signing.verifying_key_from_bytes
  verifying_key k = Signing.verifying_key_from_bytes c k.public_key

  -- `DeviceX25519Key::generate`, with the secret that is drawn.
  unfoldable pub generate_x25519 : Bytes → Bytes → DeviceX25519Key
  generate_x25519 device_id drawn = record {
    device_id = device_id;
    public_key = c.x25519_public drawn;
    private_key = drawn;
  }

  unfoldable pub from_bytes_x25519 : Bytes → Bytes → Result DeviceX25519Key
  from_bytes_x25519 device_id private_key_bytes = do
    let public = c.x25519_public private_key_bytes
    reject (beq public (zeros 32)) (invalid_input "X25519 public key is all-zero")
    ok (record { device_id = device_id; public_key = public; private_key = private_key_bytes })

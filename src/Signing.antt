-- ===== src/Signing.antt =====
-- oetp-core/src/signing.rs: Ed25519 signatures behind the crate's own errors. A signing key is its
-- 32 secret bytes, a verifying key its 32 public ones.
use oetp.Prelude.{if◌then◌else◌, Bytes}
use oetp.Result.{crypto, signature_verification, Result, ok, err, ok_or}
use oetp.Crates.{Crates}

module _ (c : Crates) where
  open c use {ed_sign, ed_verify, ed_key_from_bytes, ed_key_error}

  unfoldable pub sign : Bytes → Bytes → Bytes
  sign signing_key message = ed_sign signing_key message

  unfoldable pub verify : Bytes → Bytes → Bytes → Result (Unit {0})
  verify verifying_key message signature =
      if ed_verify verifying_key message signature then ok tt else err signature_verification

  unfoldable pub verifying_key_from_bytes : Bytes → Result Bytes
  verifying_key_from_bytes bytes = ok_or (ed_key_from_bytes bytes) (crypto ed_key_error)

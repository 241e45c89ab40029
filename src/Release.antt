-- ===== src/Release.antt =====
-- oetp-core/src/release.rs: the beacon's signed, time-bound token that releases one exam to one
-- device.
pub mod Window
mod Tests
use oetp.Prelude.{
  ℕ, ◌+◌, ◌-◌, ◌/◌, ◌%◌, max, ap, not, [], ◌++◌, map, ltb, leb, is_empty, Bytes, be_bytes,
}
use oetp.Result.{release_token_invalid, Result, ok, err, ◌>>=◌, ◌>>◌, reject, ok_or, map_err}
use oetp.Crates.{Crates}
use oetp.Signing

pub record ReleaseToken : Type 0 where
  pub center_id : Bytes
  pub exam_id : Bytes
  pub device_id : Bytes
  pub window_start : ℕ
  pub window_end : ℕ
  pub nonce : Bytes
  pub signature : Bytes

unfoldable pub payload_bytes : ReleaseToken → Bytes
payload_bytes t =
    t.center_id
    ++ (t.exam_id
        ++ (t.device_id ++ (be_bytes 8 t.window_start ++ (be_bytes 8 t.window_end ++ t.nonce))))

module _ (c : Crates) where
  unfoldable pub sign : Bytes → ReleaseToken → ReleaseToken
  unfolding Signing.sign
  sign signing_key t = record t { signature = Signing.sign c signing_key (payload_bytes t) }

  -- `ReleaseToken::new`, with the nonce that `getrandom` draws.
  unfoldable pub new : Bytes → Bytes → Bytes → ℕ → ℕ → Bytes → Bytes → ReleaseToken
  unfolding sign
  new center_id exam_id device_id window_start window_end nonce signing_key =
      sign signing_key (record {
        center_id = center_id;
        exam_id = exam_id;
        device_id = device_id;
        window_start = window_start;
        window_end = window_end;
        nonce = nonce;
        signature = [];
      })

  unfoldable pub verify : ReleaseToken → Bytes → ℕ → Result (Unit {0})
  unfolding Signing.verify
  verify t center_verifying_key current_timestamp = do
    reject (is_empty t.center_id) (release_token_invalid "center_id is empty")
    reject (is_empty t.exam_id) (release_token_invalid "exam_id is empty")
    reject (is_empty t.device_id) (release_token_invalid "device_id is empty")
    reject (leb t.window_end t.window_start)
        (release_token_invalid "window_start must be before window_end")
    reject (ltb 300 (t.window_end - t.window_start))
        (release_token_invalid "token window exceeds maximum lifetime (300s)")
    reject (ltb current_timestamp t.window_start) (release_token_invalid "token not yet valid")
    reject (ltb t.window_end current_timestamp) (release_token_invalid "token has expired")
    sig ←
        ok_or (c.ed_signature_from_slice t.signature)
          (release_token_invalid "invalid signature bytes")
    map_err (Signing.verify c center_verifying_key (payload_bytes t) sig)
        (λ _. release_token_invalid "signature does not match")

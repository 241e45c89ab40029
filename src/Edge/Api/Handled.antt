-- ===== src/Edge/Api/Handled.antt =====
-- What the handler release (oetp-edge/src/api.rs, beacon.rs) does to the cache and to the consumed nonces.
use oetp.Prelude.{
  beq_refl, beq_iff, Option-cases, ◌≡◌, inl, inr, true, false, Option, none, some, List, ◌∷◌, arith,
  Bool-cases, Bytes, lookup,
}
use oetp.Result.{is_ok, ok-cases, Result, ok, err, panic, unfinished}
use oetp.Crates.{Crates}
use oetp.Clock.{Clock, current_timestamp_secs}
use oetp.Signing
use oetp.Release
use oetp.Release.{ReleaseToken}
use oetp.Api.{check_api_key, Headers}
use oetp.Edge.Api.{released, verified_token, handle_release}
use oetp.Edge.State.{CachedExamData, AppState}
use oetp.Edge.Config.{EdgeConfig}
use oetp.Edge.Nonces
use oetp.Edge.Nonces.{contains, insert-nonces}
use oetp.Edge.Api.Entries.{
  TokenGood, Released, Good, WellFormed, All-insert, All-lookup, All-implies,
}

module _ (c : Crates) where
  verified_token-ok :
      (config : EdgeConfig) (clock : Clock) (reply : Result ReleaseToken) (token : ReleaseToken)
      → verified_token c config clock reply ≡ ok token
      → (key : Bytes) × (Signing.verifying_key_from_bytes c config.beacon_public_key ≡ ok key)
        × (Release.verify c token key (current_timestamp_secs clock) ≡ ok tt)
  unfolding verified_token
  verified_token-ok config clock (ok t) token h =
      elim (ok-cases (Signing.verifying_key_from_bytes c config.beacon_public_key)) [
        | inr bad ↦ absurd (ground (arith, bad, h))
        | inl (key, parsed) ↦ (key, parsed, ground (arith, parsed, h))
      ]
  verified_token-ok config clock (err e) token h = absurd (ground (arith, h))
  verified_token-ok config clock panic token h = absurd (ground (arith, h))
  verified_token-ok config clock unfinished token h = absurd (ground (arith, h))

  verified_token-reply :
      (config : EdgeConfig) (clock : Clock) (reply : Result ReleaseToken) (token : ReleaseToken)
      → verified_token c config clock reply ≡ ok token
      → reply ≡ ok token
  unfolding verified_token
  verified_token-reply config clock reply token h =
      elim (ok-cases (Signing.verifying_key_from_bytes c config.beacon_public_key)) [
        | inr bad ↦ absurd (ground (arith, bad, h))
        | inl (key, parsed) ↦ elim (ok-cases reply) [
          | inr bad ↦ absurd (ground (arith, parsed, bad, h))
          | inl (t, given) ↦ ground (arith, parsed, given, h)
        ]
      ]

  Released-consume :
      (config : EdgeConfig) (consumed : List Bytes) (nonce : Bytes) (token : Option ReleaseToken)
      → Released c config consumed token
      → Released c config (nonce ∷ consumed) token
  Released-consume config consumed nonce none r = tt
  Released-consume config consumed nonce (some token) r = record {
    center = r.center;
    exam = r.exam;
    device = r.device;
    used = ground (arith, r.used);
    at = r.at;
    key = r.key;
    parsed = r.parsed;
    verified = r.verified;
  }

  module _ (clock : Clock) (headers : Headers) (student_uuid : Bytes) (reply : Result ReleaseToken)
      (s : AppState) where
    -- A release that fails changes nothing.
    pub release-fails :
        is_ok (handle_release c clock headers student_uuid reply s).0 ≡ false
        → (handle_release c clock headers student_uuid reply s).1 ≡ s
    unfolding handle_release
    release-fails h = ground (arith, h)

    -- What a release that succeeds has and does.
    pub record ReleaseOk : Type 0 where
      pub entry : CachedExamData
      pub token : ReleaseToken
      pub authorized : check_api_key s.config.api_key headers ≡ ok tt
      pub cached : lookup (c.uuid_to_string student_uuid) s.cache ≡ some entry
      pub given : reply ≡ ok token
      pub checked : verified_token c s.config clock reply ≡ ok token
      pub good : TokenGood c s.config (token.nonce ∷ s.consumed_nonces.nonces) token
      pub fresh : contains token.nonce s.consumed_nonces.nonces ≡ false
      pub inserted :
          (Nonces.insert c token.nonce s.consumed_nonces).nonces
          ≡ token.nonce ∷ s.consumed_nonces.nonces
      pub after :
          (handle_release c clock headers student_uuid reply s).1
          ≡ released c (c.uuid_to_string student_uuid) entry token s

    pub release-ReleaseOk :
        is_ok (handle_release c clock headers student_uuid reply s).0 ≡ true → ReleaseOk
    unfolding handle_release
    release-ReleaseOk h = elim (Option-cases (lookup (c.uuid_to_string student_uuid) s.cache)) [
      | inl missing ↦ absurd (ground (arith, missing, h))
      | inr (entry, cached) ↦ elim (ok-cases (verified_token c s.config clock reply)) [
        | inr bad ↦ absurd (ground (arith, cached, bad, h))
        | inl (token, checked) ↦
            let (key, parsed, verified) = verified_token-ok s.config clock reply token checked in
            record {
              entry = entry;
              token = token;
              authorized = ground (arith, h);
              cached = cached;
              given = verified_token-reply s.config clock reply token checked;
              checked = checked;
              good = record {
                center =
                    ground (arith, cached, checked, h, beq_iff token.center_id s.config.center_id);
                exam = ground (arith, cached, checked, h, beq_iff token.exam_id s.config.exam_id);
                device =
                    ground (arith, cached, checked, h, beq_iff token.device_id s.config.device_id);
                used = ground (arith, beq_refl token.nonce);
                at = current_timestamp_secs clock;
                key = key;
                parsed = parsed;
                verified = verified;
              };
              fresh = ground (arith, cached, checked, h);
              inserted =
                  insert-nonces c token.nonce s.consumed_nonces
                    (ground (arith, cached, checked, h));
              after = ground (arith, cached, checked, h);
            }
      ]
    ]

    pub release-WellFormed :
        WellFormed c s → WellFormed c (handle_release c clock headers student_uuid reply s).1
    release-WellFormed w =
        elim (Bool-cases (is_ok (handle_release c clock headers student_uuid reply s).0)) [
          | inr failed ↦ rw (release-fails failed) w
          | inl done ↦
              let r = release-ReleaseOk done in
              let old =
                All-lookup (Good c s.config s.consumed_nonces.nonces) _ s.cache r.cached w in
              let more =
                All-implies (Good c s.config s.consumed_nonces.nonces)
                  (Good c s.config (r.token.nonce ∷ s.consumed_nonces.nonces))
                  (λ e g. (
                    g.0,
                    Released-consume s.config s.consumed_nonces.nonces r.token.nonce e.release_token
                        g.1,
                  ))
                  s.cache w in
              rw r.after (
                rw r.inserted (
                  All-insert (Good c s.config (r.token.nonce ∷ s.consumed_nonces.nonces)) _ _
                    s.cache (ground arith, r.good) more))
        ]

-- ===== src/Edge/Api/Opened.antt =====
-- What the handlers fetch and unlock (oetp-edge/src/api.rs) do to the cache.
use oetp.Result.{is_ok, ok-cases}
use oetp.Prelude.{
  refl, beq_iff, Option-cases, ◌≡◌, inl, inr, true, false, none, some, arith, Bool-cases, Bytes,
  lookup,
}
use oetp.Packet.{decrypt_packet, ExamPacket}
use oetp.Envelope.{open_key_envelope}
use oetp.Crates.{Crates, Codec}
use oetp.Api.{Headers}
use oetp.Edge.Api.{FetchReply, fetch_data, put_entry, handle_fetch, has_token, handle_unlock}
use oetp.Edge.State.{CachedExamData, AppState}
use oetp.Edge.Api.Entries.{Good, WellFormed, All-insert, All-lookup}

module _ (c : Crates) where
  module _ (headers : Headers) (student_uuid : Bytes) (s : AppState) (w : WellFormed c s) where
    pub fetch-WellFormed :
        (reply : FetchReply) → WellFormed c (handle_fetch c headers student_uuid reply s).1
    unfolding handle_fetch
    fetch-WellFormed reply =
        elim (Bool-cases (is_ok (handle_fetch c headers student_uuid reply s).0)) [
          | inr failed ↦
              (let same : (handle_fetch c headers student_uuid reply s).1 ≡ s =
                  ground (arith, failed) in
                rw same w)
          | inl done ↦ elim (ok-cases (fetch_data reply)) [
            | inr bad ↦ absurd (ground (arith, bad, done))
            | inl ((packet, envelope), given) ↦
                let after : (handle_fetch c headers student_uuid reply s).1
                    ≡ put_entry (c.uuid_to_string student_uuid)
                        (record {
                          encrypted_packet = packet;
                          key_envelope = envelope;
                          release_token = none;
                          variant_seed = none;
                        })
                        s =
                  ground (arith, given, done) in
                rw after
                  (All-insert (Good c s.config s.consumed_nonces.nonces) _ _ s.cache (refl, tt) w)
          ]
        ]

    -- What an unlock that succeeds has and does.
    pub record UnlockOk (bincode : Codec ExamPacket) : Type 0 where
      pub entry : CachedExamData
      pub packet : ExamPacket
      pub cached : lookup (c.uuid_to_string student_uuid) s.cache ≡ some entry
      pub token : has_token c entry.release_token ≡ true
      pub tenant : packet.tenant_id ≡ s.config.tenant_id
      pub exam : packet.exam_id ≡ s.config.exam_id
      pub after :
          (handle_unlock c bincode headers student_uuid s).1
          ≡ put_entry
              (c.uuid_to_string student_uuid)
              (record entry { variant_seed = some packet.variant_seed })
              s

    pub unlock-UnlockOk :
        (bincode : Codec ExamPacket)
        → is_ok (handle_unlock c bincode headers student_uuid s).0 ≡ true
        → UnlockOk bincode
    unfolding handle_unlock
    unlock-UnlockOk bincode h =
        elim (Option-cases (lookup (c.uuid_to_string student_uuid) s.cache)) [
          | inl missing ↦ absurd (ground (arith, missing, h))
          | inr (entry, cached) ↦
              elim (ok-cases (
                open_key_envelope c entry.key_envelope s.device_x25519_key.private_key
                  s.config.device_id student_uuid s.config.exam_id)) [
                    | inr bad ↦ absurd (ground (arith, cached, bad, h))
                    | inl (key, opened) ↦
                        elim (ok-cases (decrypt_packet c bincode entry.encrypted_packet key)) [
                          | inr bad ↦ absurd (ground (arith, cached, opened, bad, h))
                          | inl (packet, plain) ↦ record {
                            entry = entry;
                            packet = packet;
                            cached = cached;
                            token = ground (arith, cached, opened, plain, h);
                            tenant = ground (
                              arith,
                              cached,
                              opened,
                              plain,
                              h,
                              beq_iff packet.tenant_id s.config.tenant_id,
                            );
                            exam = ground (
                              arith,
                              cached,
                              opened,
                              plain,
                              h,
                              beq_iff packet.exam_id s.config.exam_id,
                            );
                            after = ground (arith, cached, opened, plain, h);
                          }
                        ]
                  ]
        ]

    pub unlock-fails :
        (bincode : Codec ExamPacket)
        → is_ok (handle_unlock c bincode headers student_uuid s).0 ≡ false
        → (handle_unlock c bincode headers student_uuid s).1 ≡ s
    unfolding handle_unlock
    unlock-fails bincode h = ground (arith, h)

    pub unlock-WellFormed :
        (bincode : Codec ExamPacket)
        → WellFormed c (handle_unlock c bincode headers student_uuid s).1
    unlock-WellFormed bincode =
        elim (Bool-cases (is_ok (handle_unlock c bincode headers student_uuid s).0)) [
          | inr failed ↦ rw (unlock-fails bincode failed) w
          | inl done ↦
              let u = unlock-UnlockOk bincode done in
              let old =
                All-lookup (Good c s.config s.consumed_nonces.nonces) _ s.cache u.cached w in
              rw u.after (
                All-insert (Good c s.config s.consumed_nonces.nonces) _ _ s.cache
                  (ground (arith, u.token), old.1) w)
        ]

-- ===== src/Edge/Api/Replay.antt =====
-- A token that was consumed, over the daemon's later steps and over a restart of its process
-- (oetp-edge/src/api.rs and state.rs).
use oetp.Prelude.{
  [], insert, lookup-insert, refl, beq_iff, ◌≡◌, sym, ap, inl, inr, true, false, arith, Bool-cases,
  Bytes, beq_refl,
}
use oetp.Result.{is_ok, ok-injective, ok}
use oetp.Packet.{ExamPacket, EncryptedPacket}
use oetp.Crates.{HexLaw, Crates, Codec}
use oetp.Clock.{Clock}
use oetp.Release.{ReleaseToken}
use oetp.Api.{Headers, check_api_key}
use oetp.Edge.Api.{
  put_entry, released, some, lookup, Result, none, FetchReply, handle_fetch, handle_release,
  handle_unlock, verified_token, fetch_data,
}
use oetp.Edge.State.{restart, AppState, CachedExamData}
use oetp.Edge.Nonces
use oetp.Edge.Nonces.{contains, PersistentNonceSet, insert-nonces, load_nonces, collect, lines}
use oetp.Edge.Api.Handled.{release-fails, release-ReleaseOk}
use oetp.Edge.Api.Unlocked.{Step}
use oetp.Edge.Nonces.Persisted.{load_nonces-IsPersisted, insert-IsPersisted, IsNonce, IsPersisted}
use oetp.Edge.State
use oetp.Edge.Submit.Frame.{flush-Framed, submit-Framed}
use oetp.Edge.Config.{utf8_from}
use oetp.Envelope.{KeyEnvelope}

module _ (c : Crates) where
  insert-keeps :
      (n m : Bytes) (s : PersistentNonceSet)
      → contains n s.nonces ≡ true
      → contains n (Nonces.insert c m s).nonces ≡ true
  unfolding Nonces.insert
  insert-keeps n m s h = ground (arith, h)

  -- A release with a token whose nonce was consumed is refused.
  release-refused :
      (clock : Clock) (headers : Headers) (student_uuid : Bytes) (token : ReleaseToken)
      (s : AppState)
      → contains token.nonce s.consumed_nonces.nonces ≡ true
      → is_ok (handle_release c clock headers student_uuid (ok token) s).0 ≡ false
  release-refused clock headers student_uuid token s used =
      elim (Bool-cases (is_ok (handle_release c clock headers student_uuid (ok token) s).0)) [
        | inr refused ↦ refused
        | inl done ↦
            let r = release-ReleaseOk c clock headers student_uuid (ok token) s done in
            let same : r.token ≡ token = sym (ok-injective r.given) in
            absurd (ground (arith, r.fresh, used, ap (λ (t : ReleaseToken). t.nonce) same))
      ]

  -- What a release that succeeds consumes.
  release-consumes :
      (clock : Clock) (headers : Headers) (student_uuid : Bytes) (token : ReleaseToken)
      (s : AppState)
      → is_ok (handle_release c clock headers student_uuid (ok token) s).0 ≡ true
      → contains token.nonce
          (handle_release c clock headers student_uuid (ok token) s).1.consumed_nonces.nonces
        ≡ true
  release-consumes clock headers student_uuid token s done =
      let r = release-ReleaseOk c clock headers student_uuid (ok token) s done in
      let same : r.token ≡ token = sym (ok-injective r.given) in
      rw r.after (rw r.inserted (rw same (rw (beq_refl token.nonce) refl)))

  module _ (bincode : Codec ExamPacket) where
    fetch-nonces :
        (headers : Headers) (student_uuid : Bytes) (reply : FetchReply) (s : AppState)
        → (handle_fetch c headers student_uuid reply s).1.consumed_nonces ≡ s.consumed_nonces
    unfolding handle_fetch
    fetch-nonces headers student_uuid reply s = ground arith

    unlock-nonces :
        (headers : Headers) (student_uuid : Bytes) (s : AppState)
        → (handle_unlock c bincode headers student_uuid s).1.consumed_nonces ≡ s.consumed_nonces
    unfolding handle_unlock
    unlock-nonces headers student_uuid s = ground arith

    -- The runs of the daemon's handlers, with crashes of the process in between.
    pub data Life : AppState → AppState → Type 0 where
      over : {s : AppState} → Life s s
      ran : {s u w : AppState} → Step c bincode s u → Life u w → Life s w
      crashed : {s w : AppState} → Life (restart c s) w → Life s w

    Step-keeps :
        (n : Bytes) {s u : AppState}
        → Step c bincode s u
        → contains n s.consumed_nonces.nonces ≡ true
        → contains n u.consumed_nonces.nonces ≡ true
    Step-keeps n {s} (Step.fetch headers student_uuid reply) h =
        rw (fetch-nonces headers student_uuid reply s) h
    Step-keeps n {s} (Step.release clock headers student_uuid reply m) h =
        elim (Bool-cases (is_ok (handle_release c clock headers student_uuid reply s).0)) [
          | inr failed ↦ rw (release-fails c clock headers student_uuid reply s failed) h
          | inl done ↦
              let r = release-ReleaseOk c clock headers student_uuid reply s done in
              rw r.after (insert-keeps n r.token.nonce s.consumed_nonces h)
        ]
    Step-keeps n {s} (Step.unlock headers student_uuid) h =
        rw (unlock-nonces headers student_uuid s) h
    Step-keeps n {s} (Step.submit queued clock later drawn post headers req) h =
        rw (submit-Framed c queued clock later drawn post headers req s).nonces h
    Step-keeps n {s} (Step.flush queued send headers nonce ledger) h =
        rw (flush-Framed c queued send headers nonce s ledger).nonces h

    module _ (hex : HexLaw c) where
      Step-IsPersisted :
          {s u : AppState}
          → Step c bincode s u
          → IsPersisted c s.consumed_nonces
          → IsPersisted c u.consumed_nonces
      Step-IsPersisted {s} (Step.fetch headers student_uuid reply) p =
          rw (fetch-nonces headers student_uuid reply s) p
      Step-IsPersisted {s} (Step.release clock headers student_uuid reply m) p =
          elim (Bool-cases (is_ok (handle_release c clock headers student_uuid reply s).0)) [
            | inr failed ↦ rw (release-fails c clock headers student_uuid reply s failed) p
            | inl done ↦
                let r = release-ReleaseOk c clock headers student_uuid reply s done in
                let n : IsNonce r.token.nonce = rw r.given at m in
                rw r.after ((insert-IsPersisted c hex r.token.nonce n s.consumed_nonces p).0)
          ]
      Step-IsPersisted {s} (Step.unlock headers student_uuid) p =
          rw (unlock-nonces headers student_uuid s) p
      Step-IsPersisted {s} (Step.submit queued clock later drawn post headers req) p =
          rw (submit-Framed c queued clock later drawn post headers req s).nonces p
      Step-IsPersisted {s} (Step.flush queued send headers nonce ledger) p =
          rw (flush-Framed c queued send headers nonce s ledger).nonces p

      restart-same :
          (s : AppState)
          → IsPersisted c s.consumed_nonces
          → (restart c s).consumed_nonces ≡ s.consumed_nonces
      unfolding State.new Nonces.new
      restart-same s p = rw (load_nonces-IsPersisted c s.consumed_nonces p) refl

      Life-IsPersisted :
          {s u : AppState}
          → Life s u
          → IsPersisted c s.consumed_nonces
          → IsPersisted c u.consumed_nonces
      Life-IsPersisted Life.over p = p
      Life-IsPersisted (Life.ran a rest) p = Life-IsPersisted rest (Step-IsPersisted a p)
      Life-IsPersisted (Life.crashed {s} rest) p = Life-IsPersisted rest (rw (restart-same s p) p)

      Life-keeps :
          (n : Bytes) {s u : AppState}
          → Life s u
          → IsPersisted c s.consumed_nonces
          → contains n s.consumed_nonces.nonces ≡ true
          → contains n u.consumed_nonces.nonces ≡ true
      Life-keeps n Life.over p h = h
      Life-keeps n (Life.ran a rest) p h =
          Life-keeps n rest (Step-IsPersisted a p) (Step-keeps n a h)
      Life-keeps n (Life.crashed {s} rest) p h =
          let same = restart-same s p in Life-keeps n rest (rw same p) (rw same h)

      -- From a daemon whose file of nonces is not there yet, over any steps and crashes: once a release
      -- with a token succeeded, over any later steps and crashes every release with that token is refused.
      pub release-once :
          (start s u : AppState) (clock clock' : Clock) (headers headers' : Headers)
          (student_uuid student_uuid' : Bytes) (token : ReleaseToken)
          → start.consumed_nonces ≡ Nonces.new c none
          → Life start s
          → IsNonce token.nonce
          → is_ok (handle_release c clock headers student_uuid (ok token) s).0 ≡ true
          → Life (handle_release c clock headers student_uuid (ok token) s).1 u
          → is_ok (handle_release c clock' headers' student_uuid' (ok token) u).0 ≡ false
      unfolding Nonces.new load_nonces collect lines utf8_from
      release-once start s u clock clock' headers headers' student_uuid student_uuid' token none_yet
            before n done later =
          let fresh : IsPersisted c start.consumed_nonces =
            rw none_yet (record { utf8 = refl; whole = refl; same = refl }) in
          let p = Life-IsPersisted before fresh in
          let p' = Step-IsPersisted (Step.release clock headers student_uuid (ok token) n) p in
          let used = release-consumes clock headers student_uuid token s done in
          release-refused clock' headers' student_uuid' token u
            (Life-keeps token.nonce later p' used)

  -- What a release needs.
  pub release-accepts :
      (clock : Clock) (headers : Headers) (student_uuid : Bytes) (reply : Result ReleaseToken)
      (token : ReleaseToken) (s : AppState) {entry : CachedExamData}
      → check_api_key s.config.api_key headers ≡ ok tt
      → lookup (c.uuid_to_string student_uuid) s.cache ≡ some entry
      → verified_token c s.config clock reply ≡ ok token
      → token.center_id ≡ s.config.center_id
      → token.exam_id ≡ s.config.exam_id
      → token.device_id ≡ s.config.device_id
      → contains token.nonce s.consumed_nonces.nonces ≡ false
      → is_ok (handle_release c clock headers student_uuid reply s).0 ≡ true
  unfolding handle_release
  release-accepts clock headers student_uuid reply token s key cached checked center exam device
        fresh =
      ground (
        arith,
        key,
        cached,
        checked,
        fresh,
        beq_iff token.center_id s.config.center_id,
        beq_iff token.exam_id s.config.exam_id,
        beq_iff token.device_id s.config.device_id,
      )

  -- After a release that succeeded, when the daemon is shut down, started again, and has fetched the exam
  -- again, the same release with the same token at the same time succeeds once more.
  pub release-drop-restart :
      (clock : Clock) (headers : Headers) (student_uuid : Bytes) (token : ReleaseToken)
      (s : AppState) (packet : EncryptedPacket) (envelope : KeyEnvelope)
      → is_ok (handle_release c clock headers student_uuid (ok token) s).0 ≡ true
      → is_ok
          (handle_release c clock headers student_uuid
            (ok token)
            (handle_fetch c headers student_uuid (FetchReply.found packet envelope) (
              restart c
                (State.drop (handle_release c clock headers student_uuid (ok token) s).1))).1).0
        ≡ true
  unfolding State.drop State.new Nonces.clear Nonces.new load_nonces collect lines handle_fetch
      fetch_data
  release-drop-restart clock headers student_uuid token s packet envelope done =
      let r = release-ReleaseOk c clock headers student_uuid (ok token) s done in
      let key = c.uuid_to_string student_uuid in
      let again = restart c (State.drop (released c key r.entry r.token s)) in
      let entry : CachedExamData = record {
        encrypted_packet = packet;
        key_envelope = envelope;
        release_token = none;
        variant_seed = none;
      } in
      let fetched : (handle_fetch c headers student_uuid (FetchReply.found packet envelope) again).1
          ≡ put_entry key entry again =
        rw r.authorized refl in
      let there : lookup key (insert key entry []) ≡ some entry =
        rw lookup-insert (rw beq_refl refl) in
      rw r.after (
        rw fetched (
          release-accepts clock headers student_uuid (ok token) r.token (put_entry key entry again)
            r.authorized there r.checked r.good.center r.good.exam r.good.device refl))

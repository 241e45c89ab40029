-- ===== src/Edge/Api.antt =====
-- oetp-edge/src/api.rs and beacon.rs: the daemon's handlers fetch, release and unlock. What the ledger
-- or the beacon answers is an argument. `handle_fetch` also posts the packet's hash to the ledger's
-- verify, whose answer it ignores; this request is left out.
pub mod Entries
pub mod Handled
pub mod Opened
pub mod Unlocked
pub mod Replay
pub mod Tests
use oetp.Prelude.{
  String, Bool, true, false, not, Option, none, some, List, ◌∷◌, any, Bytes, beq, Map, lookup,
  insert,
}
use oetp.Result.{Error, Result, ok, err, reject, ok_or, map_err, to_string}
use oetp.Crates.{Crates, Codec}
use oetp.Clock.{Clock, current_timestamp_secs}
use oetp.Signing
use oetp.Release
use oetp.Release.{ReleaseToken}
use oetp.Packet.{EncryptedPacket, ExamPacket, PacketQuestion, decrypt_packet}
use oetp.Envelope.{KeyEnvelope, open_key_envelope}
use oetp.Api.{ApiResult, bad_gateway, not_found, forbidden, internal, Headers, check_api_key}
use oetp.Edge.Config.{EdgeConfig}
use oetp.Edge.Nonces
use oetp.Edge.Nonces.{contains}
use oetp.Edge.State.{CachedExamData, AppState}
use oetp.Handler.{Handler, ◌>>=◌, ◌>>◌, lift, reads, modify}

-- What the ledger answers to a fetch.
pub data FetchReply : Type 0 where
  unreachable : String → FetchReply
  refused : FetchReply
  malformed : String → FetchReply
  found : EncryptedPacket → KeyEnvelope → FetchReply

unfoldable pub fetch_data : FetchReply → ApiResult (EncryptedPacket × KeyEnvelope)
fetch_data (unreachable m) = err (bad_gateway m)
fetch_data refused = err (not_found "packet not found")
fetch_data (malformed m) = err (bad_gateway m)
fetch_data (found packet envelope) = ok (packet, envelope)

abbrev pub authorized : Headers → Handler AppState (Unit {0})
authorized headers = reads (λ s. check_api_key s.config.api_key headers)

abbrev pub cached : Bytes → Handler AppState CachedExamData
cached key = reads (λ s. ok_or (lookup key s.cache) (not_found "no cached packet"))

abbrev pub put_entry : Bytes → CachedExamData → AppState → AppState
put_entry key entry s = record s { cache = insert key entry s.cache }

module _ (c : Crates) where
  -- The state after a release: the nonce is consumed and the entry has the token.
  abbrev pub released : Bytes → CachedExamData → ReleaseToken → AppState → AppState
  released key entry token s =
      record (put_entry key (record entry { release_token = some token }) s) {
        consumed_nonces = Nonces.insert c token.nonce s.consumed_nonces;
      }

  unfoldable pub handle_fetch : Headers → Bytes → FetchReply → Handler AppState Bytes
  unfolding fetch_data
  handle_fetch headers student_uuid reply = do
    authorized headers
    (packet, envelope) ← lift (fetch_data reply)
    modify (
        put_entry (c.uuid_to_string student_uuid) (record {
          encrypted_packet = packet;
          key_envelope = envelope;
          release_token = none;
          variant_seed = none;
        }))
    lift (ok packet.packet_hash)

  -- `BeaconClient::new` and `request_token`: the beacon's answer, verified under the configured key.
  unfoldable pub verified_token : EdgeConfig → Clock → Result ReleaseToken → ApiResult ReleaseToken
  unfolding Release.verify Signing.verifying_key_from_bytes
  verified_token config clock reply =
      oetp.Result.◌>>=◌ (internal (Signing.verifying_key_from_bytes c config.beacon_public_key))
        (λ key.
          map_err
            (oetp.Result.◌>>=◌ reply (λ token.
              oetp.Result.◌>>◌ (Release.verify c token key (current_timestamp_secs clock))
                (ok token)))
            (λ e. forbidden (to_string e)))

  unfoldable pub handle_release :
      Clock → Headers → Bytes → Result ReleaseToken → Handler AppState String
  unfolding verified_token
  handle_release clock headers student_uuid reply = do
    let key = c.uuid_to_string student_uuid
    authorized headers
    entry ← cached key
    token ← reads (λ s. verified_token s.config clock reply)
    reads (λ s.
        reject (not (beq token.center_id s.config.center_id))
          (forbidden "token center_id mismatch"))
    reads (λ s.
        reject (not (beq token.exam_id s.config.exam_id)) (forbidden "token exam_id mismatch"))
    reads (λ s.
        reject (not (beq token.device_id s.config.device_id))
          (forbidden "token device_id mismatch"))
    reads (λ s.
        reject (contains token.nonce s.consumed_nonces.nonces)
          (forbidden "release token already consumed"))
    modify (released key entry token)
    lift (ok "released")

  abbrev pub has_token : Option ReleaseToken → Bool
  has_token none = false
  has_token (some token) = true

  unfoldable pub handle_unlock :
      Codec ExamPacket → Headers → Bytes → Handler AppState (List PacketQuestion)
  handle_unlock bincode headers student_uuid = do
    let key = c.uuid_to_string student_uuid
    authorized headers
    entry ← cached key
    lift (reject (not (has_token entry.release_token)) (forbidden "no release token"))
    ephemeral_key ← reads (λ s. internal (
        open_key_envelope c entry.key_envelope s.device_x25519_key.private_key s.config.device_id
          student_uuid s.config.exam_id))
    packet ← lift (internal (decrypt_packet c bincode entry.encrypted_packet ephemeral_key))
    reads (λ s.
        reject (not (beq packet.tenant_id s.config.tenant_id))
          (forbidden "packet tenant_id mismatch"))
    reads (λ s.
        reject (not (beq packet.exam_id s.config.exam_id)) (forbidden "packet exam_id mismatch"))
    modify (put_entry key (record entry { variant_seed = some packet.variant_seed }))
    lift (ok packet.questions)

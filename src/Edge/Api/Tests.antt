-- ===== src/Edge/Api/Tests.antt =====
-- A run of the daemon: an exam is fetched, released and unlocked.
use oetp.Prelude.{
  ◌≡◌, refl, true, false, none, some, [], ◌∷◌, ◌++◌, Bytes, beq, be_bytes, length-be_bytes, lookup,
  insert,
}
use oetp.Result.{is_ok, ok}
use oetp.Crates.{Codec}
use oetp.Crates.Toy.{toy, toy-AesLaw, toy-DhLaw, strip, hex_digits, toy-HexLaw}
use oetp.Clock.{Clock, current_timestamp_secs}
use oetp.Device.{zeros, DeviceKeyPair, DeviceX25519Key}
use oetp.Edge.State
use oetp.Edge.State.{restart}
use oetp.Edge.Api.Replay.{Life, release-once, release-drop-restart}
use oetp.Edge.Nonces
use oetp.Edge.Nonces.{load_nonces}
use oetp.Signing
use oetp.Release
use oetp.Release.{ReleaseToken}
use oetp.Packet.{ExamPacket, EncryptedPacket, decrypt_packet}
use oetp.Envelope.{
  KeyEnvelope, derive_envelope_key, build_canonical_aad, seal_key_to_device, open_key_envelope,
}
use oetp.Envelope.RoundTrip.{seal-open}
use oetp.Api.{Headers, check_api_key}
use oetp.Edge.Api.{
  false, FetchReply, fetch_data, handle_fetch, handle_release, handle_unlock, verified_token,
}
use oetp.Edge.State.{CachedExamData, AppState}
use oetp.Edge.Config.{EdgeConfig}
use oetp.Edge.Api.Entries.{TokenGood}
use oetp.Edge.Api.Unlocked.{NonceOf, Step, Steps, reachable-unlock}

-- bincode, for packets of one exam that hold nothing but their student.
abbrev pub one_exam : Codec ExamPacket
one_exam = record {
  serialize = λ p. none;
  deserialize = λ b. some (record {
    tenant_id = [];
    student_uuid = b;
    exam_id = b'e' ∷ [];
    variant_seed = [];
    questions = [];
  });
  codec_error = "bincode error";
}

abbrev pub exam : Bytes
exam = b'e' ∷ []

abbrev pub device : Bytes
device = b'd' ∷ []

abbrev pub student : Bytes
student = 1 ∷ []

abbrev pub config : EdgeConfig
config = record {
  device_id = device;
  center_id = b'c' ∷ [];
  tenant_id = [];
  exam_id = exam;
  ledger_url = [];
  beacon_url = [];
  listen_addr = [];
  cache_dir = [];
  queue_dir = [];
  device_key_path = [];
  device_x25519_key_path = [];
  beacon_public_key = 2 ∷ [];
  exam_salt = [];
  server_pepper = [];
  api_key = b'k' ∷ [];
  exam_window_start = 100;
  exam_window_end = 1000;
}

abbrev device_key : DeviceKeyPair
device_key = record { device_id = device; public_key = 8 ∷ []; private_key = 8 ∷ [] }

abbrev device_x25519_key : DeviceX25519Key
device_x25519_key = record { device_id = device; public_key = 4 ∷ []; private_key = 4 ∷ [] }

abbrev nonce : Bytes
nonce = 1 ∷ 2 ∷ 3 ∷ 4 ∷ 5 ∷ 6 ∷ 7 ∷ 8 ∷ 9 ∷ 10 ∷ 11 ∷ 12 ∷ 13 ∷ 14 ∷ 15 ∷ 16 ∷ []

abbrev pub headers : Headers
headers = some (b'k' ∷ [])

abbrev pub clock : Clock
clock = record { clock_override = some 150; system = 0 }

abbrev packet_key : Bytes
packet_key = be_bytes 32 5

abbrev envelope_key : Bytes
envelope_key = derive_envelope_key toy (toy.x25519_dh (3 ∷ []) (4 ∷ [])) device student exam

abbrev pub envelope : KeyEnvelope
envelope = record {
  version = 1;
  device_id = device;
  student_uuid = student;
  exam_id = exam;
  sender_public_key = 3 ∷ [];
  encrypted_ephemeral_key =
      (envelope_key ++ ((6 ∷ []) ++ build_canonical_aad toy device student exam)) ++ packet_key;
  nonce = 6 ∷ [];
}

abbrev pub encrypted : EncryptedPacket
encrypted = record {
  tenant_id = [];
  student_uuid = student;
  exam_id = exam;
  ciphertext = packet_key ++ student;
  nonce = [];
  packet_hash = toy.sha3 (packet_key ++ student);
}

abbrev pub token : ReleaseToken
token = Release.new toy (b'c' ∷ []) exam device 100 200 nonce (2 ∷ [])

abbrev pub start : AppState
start = State.new toy config device_key device_x25519_key none none

pub start_empty : start.cache ≡ []
unfolding State.new
start_empty = refl

abbrev pub fetched : AppState
fetched = (handle_fetch toy headers student (FetchReply.found encrypted envelope) start).1

abbrev pub opened_state : AppState
opened_state = (handle_release toy clock headers student (ok token) fetched).1

pub token_nonce : NonceOf (ok token)
unfolding Release.new Release.sign
token_nonce = (refl, refl)

abbrev pub steps : Steps toy one_exam start opened_state
steps =
    Steps.next (Step.fetch headers student (FetchReply.found encrypted envelope))
      (Steps.next (Step.release clock headers student (ok token) token_nonce) Steps.done)

-- The entry after the release.
abbrev entry : CachedExamData
entry = record {
  encrypted_packet = encrypted;
  key_envelope = envelope;
  release_token = some token;
  variant_seed = none;
}

released_state : opened_state ≡ record start {
  cache = (student, entry) ∷ [];
  consumed_nonces = record { nonces = nonce ∷ []; file = some (hex_digits nonce ++ (10 ∷ [])) };
}
unfolding handle_fetch handle_release fetch_data verified_token check_api_key lookup insert beq
    Release.new Release.verify Release.sign Release.payload_bytes Signing.sign Signing.verify
    Signing.verifying_key_from_bytes current_timestamp_secs be_bytes State.new Nonces.new
    Nonces.insert load_nonces hex_digits
released_state = refl

sealed :
    seal_key_to_device toy packet_key
      (toy.x25519_public (4 ∷ []))
      device
      student
      exam
      (3 ∷ [])
      (6 ∷ [])
    ≡ ok envelope
unfolding seal_key_to_device beq zeros
sealed = refl

key_opened : open_key_envelope toy envelope (4 ∷ []) device student exam ≡ ok packet_key
key_opened =
    seal-open toy packet_key (4 ∷ []) device student exam (3 ∷ []) (6 ∷ []) toy-AesLaw toy-DhLaw
      (length-be_bytes 32 5) sealed

abbrev packet : ExamPacket
packet = record {
  tenant_id = [];
  student_uuid = student;
  exam_id = exam;
  variant_seed = [];
  questions = [];
}

decrypted : decrypt_packet toy one_exam encrypted packet_key ≡ ok packet
unfolding decrypt_packet strip be_bytes beq
decrypted = refl

pub unlocked : is_ok (handle_unlock toy one_exam headers student opened_state).0 ≡ true
unfolding handle_unlock check_api_key lookup beq State.new
unlocked = rw released_state (rw key_opened (rw decrypted refl))

unlocked_by_token :
    (e : CachedExamData) × (t : ReleaseToken) × (lookup student opened_state.cache ≡ some e)
    × (e.release_token ≡ some t)
    × TokenGood toy opened_state.config opened_state.consumed_nonces.nonces t
unlocked_by_token =
    reachable-unlock toy one_exam start opened_state headers student start_empty steps unlocked

released_once : is_ok (handle_release toy clock headers student (ok token) fetched).0 ≡ true
unfolding handle_fetch handle_release fetch_data verified_token check_api_key lookup insert beq
    Release.new Release.verify Release.sign Release.payload_bytes Signing.sign Signing.verify
    Signing.verifying_key_from_bytes current_timestamp_secs be_bytes State.new Nonces.new
    Nonces.insert load_nonces hex_digits
released_once = refl

-- The daemon crashes after the release, and the exam is fetched again.
abbrev refetched : AppState
refetched =
    (handle_fetch toy headers student (FetchReply.found encrypted envelope)
      (restart toy opened_state)).1

fresh_start : start.consumed_nonces ≡ Nonces.new toy none
unfolding State.new
fresh_start = refl

release-once_example :
    is_ok (handle_release toy clock headers student (ok token) refetched).0 ≡ false
release-once_example =
    release-once toy one_exam toy-HexLaw start fetched refetched clock clock headers headers student
      student token fresh_start
      (Life.ran (Step.fetch headers student (FetchReply.found encrypted envelope)) Life.over)
      token_nonce released_once
      (Life.crashed
        (Life.ran (Step.fetch headers student (FetchReply.found encrypted envelope)) Life.over))

release-drop-restart_example :
    is_ok
      (handle_release toy clock headers student
        (ok token)
        (handle_fetch toy headers student
          (FetchReply.found encrypted envelope)
          (restart toy (State.drop opened_state))).1).0
    ≡ true
release-drop-restart_example =
    release-drop-restart toy clock headers student token fetched encrypted envelope released_once

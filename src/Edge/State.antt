-- ===== src/Edge/State.antt =====
-- oetp-edge/src/state.rs: what the daemon's handlers share. The client for HTTP has no state here.
use oetp.Prelude.{Option, [], Bytes, Map}
use oetp.Crates.{Crates}
use oetp.Device.{DeviceKeyPair, DeviceX25519Key}
use oetp.Envelope.{KeyEnvelope}
use oetp.Packet.{EncryptedPacket}
use oetp.Release.{ReleaseToken}
use oetp.Edge.Config.{EdgeConfig}
use oetp.Edge.Queue.{File, queue_key}
use oetp.Edge.Nonces
use oetp.Edge.Nonces.{PersistentNonceSet}

pub record CachedExamData : Type 0 where
  pub encrypted_packet : EncryptedPacket
  pub key_envelope : KeyEnvelope
  pub release_token : Option ReleaseToken
  pub variant_seed : Option Bytes

-- `OfflineQueue`: its file, and the key that it is encrypted under.
pub record OfflineQueue : Type 0 where
  pub file : File
  pub key : Bytes

pub record AppState : Type 0 where
  pub config : EdgeConfig
  pub device_key : DeviceKeyPair
  pub device_x25519_key : DeviceX25519Key
  pub cache : Map CachedExamData
  pub queue : OfflineQueue
  pub consumed_nonces : PersistentNonceSet

module _ (c : Crates) where
  -- `AppState::new`, over the files of the queue and of the nonces as the process finds them.
  unfoldable pub new : EdgeConfig → DeviceKeyPair → DeviceX25519Key → File → File → AppState
  unfolding queue_key Nonces.new
  new config device_key device_x25519_key queue_file nonce_file = record {
    config = config;
    device_key = device_key;
    device_x25519_key = device_x25519_key;
    cache = [];
    queue = record { file = queue_file; key = queue_key c device_key.private_key };
    consumed_nonces = Nonces.new c nonce_file;
  }

  -- The next process with the same configuration and keys, over the files that this one leaves.
  abbrev pub restart : AppState → AppState
  restart s = new s.config s.device_key s.device_x25519_key s.queue.file s.consumed_nonces.file

-- `Drop`, when nobody holds a lock. A process that is killed does not run it.
unfoldable pub drop : AppState → AppState
unfolding Nonces.clear
drop s = record s { cache = []; consumed_nonces = Nonces.clear s.consumed_nonces }

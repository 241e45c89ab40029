-- ===== src/Ledger/Requests.antt =====
-- oetp-ledger/src/api.rs: the ledger's state, the requests and replies, and the checks that its handlers
-- share. A reply that holds one value is that value.
use oetp.Prelude.{ℕ, String, Bool, Option, List, [], ◌∷◌, ◌++◌, ltb, Bytes, utf8, Map}
use oetp.Result.{◌>>◌, reject}
use oetp.Crates.{Crates}
use oetp.Clock.{Clock, current_timestamp_secs}
use oetp.Validation.{validate_identifier}
use oetp.Packet.{EncryptedPacket}
use oetp.Envelope.{KeyEnvelope}
use oetp.Platform.{AnchorType, Anchor}
use oetp.Api.{ApiResult, forbidden, checked}

pub record AppState (S : Type 0) : Type 0 where
  pub store : S
  pub signing_key : Bytes
  pub packets : Map (EncryptedPacket × KeyEnvelope)
  pub anchors : List Anchor
  pub receipt_index : Map ℕ
  pub api_key : Bytes
  pub exam_window_start : ℕ
  pub exam_window_end : ℕ

pub record CommitRequest : Type 0 where
  pub tenant_id : Bytes
  pub exam_id : Bytes
  pub packet_hashes : List Bytes

pub record CommitResponse : Type 0 where
  pub merkle_root : Bytes
  pub anchor : Anchor

pub record IngestRequest : Type 0 where
  pub tenant_id : Bytes
  pub exam_id : Bytes
  pub student_uuid : Bytes
  pub packet_hash : Bytes
  pub answers_hash : Bytes
  pub merkle_leaf : Bytes
  pub timestamp : ℕ
  pub signature : Bytes
  pub receipt_id : Bytes

pub record IngestResponse : Type 0 where
  pub leaf_index : ℕ
  pub status : String

pub record KeyCommitRequest : Type 0 where
  pub tenant_id : Bytes
  pub exam_id : Bytes
  pub answer_key_hash : Bytes

pub record FetchPacketRequest : Type 0 where
  pub tenant_id : Bytes
  pub exam_id : Bytes
  pub student_uuid : Bytes

pub record LoadPacketsRequest : Type 0 where
  pub key : Bytes
  pub encrypted_packet : EncryptedPacket
  pub key_envelope : KeyEnvelope

pub record AnchorsRequest : Type 0 where
  pub tenant_id : Bytes
  pub exam_id : Bytes

pub record ProofRequest : Type 0 where
  pub tenant_id : Bytes
  pub exam_id : Bytes
  pub receipt_id : Bytes

pub record ProofResponse : Type 0 where
  pub merkle_leaf : Option Bytes
  pub leaf_index : Option ℕ
  pub total_leaves : ℕ
  pub siblings : List Bytes
  pub root : Option Bytes

pub record VerifyRequest : Type 0 where
  pub tenant_id : Bytes
  pub exam_id : Bytes
  pub student_uuid : Bytes
  pub packet_hash : Bytes
  pub answers_hash : Bytes
  pub timestamp : ℕ
  pub merkle_leaf : Bytes
  pub edge_signature : Bytes
  pub edge_public_key : Bytes

pub record VerifyResponse : Type 0 where
  pub valid : Bool
  pub reason : String
  pub leaf_index : Option ℕ
  pub total_leaves : ℕ
  pub anchored_root : Option Bytes

module _ {S : Type 0} where
  abbrev pub within_window : Clock → AppState S → ApiResult (Unit {0})
  within_window clock s =
      reject (ltb (current_timestamp_secs clock) s.exam_window_start)
        (forbidden "exam has not started yet")
      >> reject (ltb s.exam_window_end (current_timestamp_secs clock))
          (forbidden "exam window has ended")

module _ (c : Crates) where
  abbrev pub valid_space : Bytes → Bytes → ApiResult (Unit {0})
  valid_space tenant_id exam_id =
      checked (validate_identifier c "tenant_id" tenant_id)
      >> checked (validate_identifier c "exam_id" exam_id)

  -- The anchor that a handler records; nothing is sent to a chain.
  unfoldable pub local_anchor : Clock → AnchorType → Bytes → Anchor
  local_anchor clock anchor_type root = record {
    chain_id = utf8 "polygon";
    tx_hash = utf8 "0x" ++ c.hex_encode root;
    anchored_root = root;
    anchor_type = anchor_type;
    timestamp = current_timestamp_secs clock;
    signature = [];
  }

  abbrev pub packet_map_key : FetchPacketRequest → Bytes
  packet_map_key req =
      req.tenant_id ++ (b':' ∷ (req.exam_id ++ (b':' ∷ c.uuid_to_string req.student_uuid)))

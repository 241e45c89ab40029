-- ===== src/Ledger/Load.antt =====
-- The command `Load` of oetp-ledger/src/main.rs: the files of a directory, as the requests that are sent
-- to `/v1/ledger/load`. The entries are given in the order in which the directory lists them, and
-- `Uuid::parse_str` is a parameter; what the service answers is only logged.
pub mod Loaded
mod Tests
use oetp.Prelude.{
  ◌+◌, ◌-◌, ◌/◌, ◌%◌, Bool, true, false, not, ◌&&◌, Option, none, some, List, [], ◌∷◌, ◌++◌, ◌==◌,
  if◌then◌else◌, all, Bytes, utf8, beq,
}
use oetp.Result.{Fallible, ok, err, panic, unfinished, reject, ◌>>=◌, ◌>>◌, ok_or}
use oetp.Crates.{Crates, Codec}
use oetp.Packet.{EncryptedPacket}
use oetp.Envelope.{KeyEnvelope}
use oetp.Ledger.Config.{LedgerConfig}
use oetp.Ledger.Requests.{LoadPacketsRequest}

-- `str::strip_prefix`; a text starts with what can be stripped.
unfoldable pub strip_prefix : Bytes → Bytes → Option Bytes
strip_prefix [] x = some x
strip_prefix (p ∷ pat) [] = none
strip_prefix (p ∷ pat) (b ∷ x) = let rest = strip_prefix pat x in if p == b then rest else none

-- `str::strip_suffix`
unfoldable pub strip_suffix : Bytes → Bytes → Option Bytes
strip_suffix pat [] = if beq [] pat then some [] else none
strip_suffix pat (b ∷ x) =
    let rest = strip_suffix pat x in
    if beq (b ∷ x) pat then some [] else elim rest [ none ↦ none | some front ↦ some (b ∷ front) ]

abbrev pub is_some : Option Bytes → Bool
is_some none = false
is_some (some x) = true

-- A request is sent, and an entry that has none passed over.
abbrev pub send_if_ok :
    Fallible (Unit {0}) LoadPacketsRequest → List LoadPacketsRequest → List LoadPacketsRequest
send_if_ok (ok req) rest = req ∷ rest
send_if_ok (err _) rest = rest
send_if_ok panic rest = rest
send_if_ok unfinished rest = rest

module _ (c : Crates) (encrypted : Codec EncryptedPacket) (envelope : Codec KeyEnvelope)
    (parse_str : Bytes → Option Bytes) (cfg : LedgerConfig)
    (read_to_string : Bytes → Option Bytes) where
  -- One entry of the directory, by its name. `err tt` is `continue`.
  unfoldable pub load_request : Bytes → Fallible (Unit {0}) LoadPacketsRequest
  unfolding strip_prefix strip_suffix
  load_request fname = do
    reject
        (not (
          is_some (strip_prefix (utf8 "packet_") fname)
          && is_some (strip_suffix (utf8 ".enc") fname)))
        tt
    stripped ← ok_or (strip_prefix (utf8 "packet_") fname) tt
    uuid_str ← ok_or (strip_suffix (utf8 ".enc") stripped) tt
    student_uuid ← ok_or (parse_str uuid_str) tt
    packet_json ← ok_or (read_to_string fname) tt
    encrypted_packet ← ok_or (encrypted.deserialize packet_json) tt
    envelope_json ← ok_or (read_to_string (utf8 "envelope_" ++ (uuid_str ++ utf8 ".enc"))) tt
    key_envelope ← ok_or (envelope.deserialize envelope_json) tt
    ok (record {
      key = cfg.tenant_id ++ (b':' ∷ (cfg.exam_id ++ (b':' ∷ c.uuid_to_string student_uuid)));
      encrypted_packet = encrypted_packet;
      key_envelope = key_envelope;
    })

  -- The loop over the entries; one whose name is not there, or is not text, is passed over.
  unfoldable pub load_requests : List (Option Bytes) → List LoadPacketsRequest
  load_requests [] = []
  load_requests (none ∷ entries) = load_requests entries
  load_requests (some fname ∷ entries) = send_if_ok (load_request fname) (load_requests entries)

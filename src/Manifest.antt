-- ===== src/Manifest.antt =====
-- oetp-core/src/manifest.rs: the generator's signed list of students, packets and devices.
pub mod Signed
mod Tests
use oetp.Prelude.{
  not, Option, none, some, List, [], ◌∷◌, ◌++◌, map, if◌then◌else◌, is_empty, Bytes, beq,
}
use oetp.Result.{invalid_input, signature_verification, Result, ok, ◌>>=◌, ◌>>◌, reject, ok_or}
use oetp.Crates.{Crates}
use oetp.Merkle
use oetp.Signing

pub record ManifestEntry : Type 0 where
  pub student_uuid : Bytes
  pub packet_hash : Bytes
  pub variant_seed : Bytes
  pub device_id : Bytes

pub record Manifest : Type 0 where
  pub tenant_id : Bytes
  pub exam_id : Bytes
  pub entries : List ManifestEntry
  pub merkle_root : Bytes
  pub signature : Bytes

-- `entries.iter().map(|e| e.packet_hash)`
abbrev pub packet_hashes : List ManifestEntry → List Bytes
packet_hashes = map (λ e. e.packet_hash)

module _ (c : Crates) where
  open c use {uuid_to_bytes_le, ed_signature_from_slice}

  unfoldable pub entries_bytes : List ManifestEntry → Bytes
  entries_bytes [] = []
  entries_bytes (e ∷ rest) =
      uuid_to_bytes_le e.student_uuid
      ++ (e.packet_hash ++ (e.variant_seed ++ (e.device_id ++ entries_bytes rest)))

  unfoldable pub payload_bytes : Manifest → Bytes
  unfolding entries_bytes
  payload_bytes m = m.tenant_id ++ (m.exam_id ++ (m.merkle_root ++ entries_bytes m.entries))

  unfoldable pub sign : Bytes → Manifest → Manifest
  unfolding Signing.sign
  sign signing_key m = record m { signature = Signing.sign c signing_key (payload_bytes m) }

  unfoldable pub new : Bytes → Bytes → List ManifestEntry → Bytes → Result Manifest
  unfolding sign
  new tenant_id exam_id entries signing_key = do
    reject (is_empty entries) (invalid_input "manifest must have at least one entry")
    tree ← Merkle.new c (packet_hashes entries)
    ok (
        sign signing_key (record {
          tenant_id = tenant_id;
          exam_id = exam_id;
          entries = entries;
          merkle_root = tree.root;
          signature = [];
        }))

  unfoldable pub verify : Manifest → Bytes → Result (Unit {0})
  unfolding Signing.verify
  verify m verifying_key = do
    reject (is_empty m.entries) (invalid_input "manifest has no entries")
    tree ← Merkle.new c (packet_hashes m.entries)
    reject (not (beq tree.root m.merkle_root)) (invalid_input "merkle root mismatch")
    sig ← ok_or (ed_signature_from_slice m.signature) signature_verification
    Signing.verify c verifying_key (payload_bytes m) sig

-- `entries.iter().find(...)`: the first entry of the student.
unfoldable pub find_entry : List ManifestEntry → Bytes → Option ManifestEntry
find_entry [] student_uuid = none
find_entry (e ∷ rest) student_uuid =
    let later = find_entry rest student_uuid in
    if beq e.student_uuid student_uuid then some e else later

unfoldable pub get_entry : Manifest → Bytes → Option ManifestEntry
unfolding find_entry
get_entry m student_uuid = find_entry m.entries student_uuid

-- ===== src/Manifest/Tests.antt =====
-- The theorem on manifests at a concrete manifest.
use oetp.Prelude.{ℕ, ◌≡◌, List, [], ◌∷◌, arith}
use oetp.Result.{ok}
use oetp.Crates.Toy.{toy, toy-SignLaw}
use oetp.Merkle.Shape.{shape, value}
use oetp.Manifest.{Manifest, ManifestEntry, packet_hashes, new, verify}
use oetp.Manifest.Signed.{new-verify}

abbrev entry : ℕ → ManifestEntry
entry n = record {
  student_uuid = n ∷ [];
  packet_hash = n ∷ 1 ∷ [];
  variant_seed = n ∷ 2 ∷ [];
  device_id = b'd' ∷ [];
}

abbrev entries : List ManifestEntry
entries = entry 1 ∷ entry 2 ∷ entry 3 ∷ []

three_entries :
    (m : Manifest) × (new toy (b't' ∷ []) (b'e' ∷ []) entries (9 ∷ []) ≡ ok m)
    × (m.entries ≡ entries)
    × (m.merkle_root ≡ value toy (shape 20 (packet_hashes entries)))
    × (verify toy m (toy.ed_public (9 ∷ [])) ≡ ok tt)
three_entries =
    new-verify toy (b't' ∷ []) (b'e' ∷ []) entries (9 ∷ []) toy-SignLaw (omega arith) (omega arith)

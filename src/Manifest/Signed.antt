-- ===== src/Manifest/Signed.antt =====
-- Making a manifest and then checking it (oetp-core/src/manifest.rs).
use oetp.Prelude.{refl, beq_refl, arith, false, length-map, ◌≤◌, ◌≡◌, List, length, Bytes}
use oetp.Result.{ok}
use oetp.Crates.{Crates, SignLaw}
use oetp.Merkle.{max_leaves}
use oetp.Merkle.Shape.{shape, value}
use oetp.Merkle.Build.{new_ok}
use mathlib.Core.List.{[]}
use oetp.Manifest.{
  sign, ◌∷◌, is_empty, Manifest, ManifestEntry, packet_hashes, payload_bytes, new, verify,
}

module _ (c : Crates) where
  -- The manifest that `new` returns.
  unfoldable made : Bytes → Bytes → List ManifestEntry → Bytes → Manifest
  made tenant_id exam_id entries signing_key = sign c signing_key (record {
    tenant_id = tenant_id;
    exam_id = exam_id;
    entries = entries;
    merkle_root = value c (shape 20 (packet_hashes entries));
    signature = [];
  })

  not_empty : (entries : List ManifestEntry) → 1 ≤ length entries → is_empty entries ≡ false
  not_empty [] h = absurd (omega arith)
  not_empty (e ∷ r) h = refl

  -- With 1 to 2^20 entries `new` returns a manifest that holds them, whose root is that of RFC 6962's
  -- recursion over the packet hashes and which verifies under the signer's public key.
  pub new-verify :
      (tenant_id exam_id : Bytes) (entries : List ManifestEntry) (signing_key : Bytes)
      → SignLaw c
      → 1 ≤ length entries
      → length entries ≤ max_leaves
      → (m : Manifest) × (new c tenant_id exam_id entries signing_key ≡ ok m)
        × (m.entries ≡ entries)
        × (m.merkle_root ≡ value c (shape 20 (packet_hashes entries)))
        × (verify c m (c.ed_public signing_key) ≡ ok tt)
  unfolding new verify made payload_bytes sign
  new-verify tenant_id exam_id entries signing_key law h k =
      let n = length-map (λ (e : ManifestEntry). e.packet_hash) entries in
      let tree = new_ok c (packet_hashes entries) (omega arith) (omega arith) in
      let some_entry = not_empty entries h in
      (
        made tenant_id exam_id entries signing_key,
        rw some_entry (rw tree refl),
        refl,
        refl,
        rw some_entry (rw tree (rw beq_refl (rw law.parse_sign (rw law.verify_sign refl)))),
      )

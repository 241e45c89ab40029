-- ===== src/Ledger/Checked.antt =====
-- `handle_verify` (oetp-ledger/src/api.rs): which submissions it finds valid.
mod Tests
use oetp.Prelude.{
  refl, ◌==◌, beq_refl, none, beq_iff, get_elem?-some-lt, ◌≢◌, length, get_elem?_lt, false, ℕ, zero,
  suc, ◌+◌, ◌≤◌, ◌<◌, ◌≡◌, inl, inr, true, Option, some, arith, Bool-cases, Option-cases, get_elem?,
  Bytes, beq, beq_sound,
}
use oetp.Result.{ok}
use oetp.Crates.{Crates}
use oetp.Hashing.{compute_submission_leaf}
use oetp.Platform.{Store, StoreLaw}
use oetp.Signing
use oetp.Merkle.{MerkleTree, max_leaves}
use oetp.Merkle.Inclusion.{prove_total}
use oetp.Validation.{validate_identifier}
use oetp.Ledger.MerkleWorker.{collect-log}
use oetp.Ledger.Queries.{tree_of, anchored_root_of}
use oetp.Ledger.Requests.{AppState, VerifyRequest, VerifyResponse}
use oetp.Ledger.Queries.{find_leaf, refuted, verify_in_store, handle_verify}

not_here : (l leaf : Bytes) → beq l leaf ≡ false → l ≢ leaf
not_here l leaf other p = ground (arith, beq_iff l leaf)

module _ {S : Type 0} (st : Store S) (law : StoreLaw st) where
  find_leaf_sound :
      (rounds i : ℕ) (s : S) (t e leaf : Bytes) {j : ℕ}
      → find_leaf st rounds i s t e leaf ≡ ok (some j)
      → get_elem? (law.log s t e) j ≡ some leaf
  unfolding find_leaf
  find_leaf_sound zero i s t e leaf h = cc
  find_leaf_sound (suc rounds) i s t e leaf {j} h =
      let here = law.get_lem s t e i in
      elim (Option-cases (get_elem? (law.log s t e) i)) [
        | inl absent ↦ find_leaf_sound rounds (i + 1) s t e leaf (ground (arith, here))
        | inr (l, present) ↦ elim (Bool-cases (beq l leaf)) [
          | inl same ↦ ground (arith, here, beq_sound l leaf same)
          | inr other ↦ find_leaf_sound rounds (i + 1) s t e leaf (ground (arith, here))
        ]
      ]

  -- A search that starts at or before the leaf's index and reaches it finds a leaf.
  find_leaf-finds :
      (rounds i j : ℕ) (s : S) (t e leaf : Bytes)
      → i ≤ j
      → j < rounds + i
      → get_elem? (law.log s t e) j ≡ some leaf
      → (k : ℕ) × (find_leaf st rounds i s t e leaf ≡ ok (some k))
  unfolding find_leaf
  find_leaf-finds zero i j s t e leaf a b h = absurd (omega arith)
  find_leaf-finds (suc rounds) i j s t e leaf a b h =
      let here = law.get_lem s t e i in
      let (l, present) =
        get_elem?_lt (law.log s t e) i (omega (arith, get_elem?-some-lt (law.log s t e) j h)) in
      elim (Bool-cases (beq l leaf)) [
        | inl same ↦ (i, ground (arith, here))
        | inr other ↦
            let apart : i ≢ j = λ p. not_here l leaf other (cc (p, present, h)) in
            let (k, found) =
              find_leaf-finds rounds (i + 1) j s t e leaf (omega (arith, apart)) (omega arith) h in
            (k, ground (arith, here, found))
      ]

module _ (c : Crates) where
  refuted-some :
      (req : VerifyRequest) {r : VerifyResponse} → refuted c req ≡ some r → r.valid ≡ false
  unfolding refuted Signing.verify Signing.verifying_key_from_bytes
  refuted-some req h = ground arith

  -- What a submission has that passes the checks made before the store is read.
  pub record Passed (req : VerifyRequest) : Type 0 where
    pub leaf :
        compute_submission_leaf c req.student_uuid req.packet_hash req.answers_hash req.timestamp
          req.tenant_id req.exam_id
        ≡ req.merkle_leaf
    pub key : Bytes
    pub key_parsed : c.ed_key_from_bytes req.edge_public_key ≡ some key
    pub sig : Bytes
    pub sig_parsed : c.ed_signature_from_slice req.edge_signature ≡ some sig
    pub signed : c.ed_verify key req.merkle_leaf sig ≡ true

  refuted-none : (req : VerifyRequest) → refuted c req ≡ none → Passed req
  unfolding refuted Signing.verify Signing.verifying_key_from_bytes
  refuted-none req h = elim (Option-cases (c.ed_key_from_bytes req.edge_public_key)) [
    | inl no_key ↦ absurd (ground arith)
    | inr (key, parsed) ↦ elim (Option-cases (c.ed_signature_from_slice req.edge_signature)) [
      | inl no_sig ↦ absurd (ground arith)
      | inr (sig, read) ↦ record {
        leaf = beq_sound _ _ (ground arith);
        key = key;
        key_parsed = parsed;
        sig = sig;
        sig_parsed = read;
        signed = ground arith;
      }
    ]
  ]

  Passed-refuted : (req : VerifyRequest) → Passed req → refuted c req ≡ none
  unfolding refuted Signing.verify Signing.verifying_key_from_bytes
  Passed-refuted req p =
      ground (arith, p.leaf, p.key_parsed, p.sig_parsed, p.signed, beq_refl req.merkle_leaf)

module _ (c : Crates) {S : Type 0} (st : Store S) (law : StoreLaw st) where
  -- What a submission that is found valid has.
  pub record Checked (req : VerifyRequest) (s : AppState S) (r : VerifyResponse) : Type 0 where
    pub passed : Passed c req
    pub index : ℕ
    pub replied : r.leaf_index ≡ some index
    pub stored : get_elem? (law.log s.store req.tenant_id req.exam_id) index ≡ some req.merkle_leaf

  verify_in_store-found :
      (req : VerifyRequest) (s : S) (r : VerifyResponse) {j : ℕ}
      → r.leaf_index ≡ some j
      → verify_in_store c st req s ≡ ok r
      → get_elem? (law.log s req.tenant_id req.exam_id) j ≡ some req.merkle_leaf
  unfolding verify_in_store
  verify_in_store-found req s r {j} index h =
      find_leaf_sound st law (length (law.log s req.tenant_id req.exam_id)) 0 s req.tenant_id
        req.exam_id req.merkle_leaf (ground (arith, law.count_lem s req.tenant_id req.exam_id))

  -- A submission that `handle_verify` finds valid has the leaf that its data hash to, a signature of
  -- this leaf that verifies under the edge's key, and a place in the namespace's log, which the reply names.
  pub handle_verify-Checked :
      (req : VerifyRequest) (s : AppState S) {r : VerifyResponse}
      → handle_verify c st req s ≡ ok r
      → r.valid ≡ true
      → Checked req s r
  unfolding handle_verify verify_in_store
  handle_verify-Checked req s {r} h v = elim (Option-cases (refuted c req)) [
    | inr (reply, refused) ↦ absurd (ground (arith, refuted-some c req refused))
    | inl passed ↦ elim (Option-cases r.leaf_index) [
      | inl missing ↦ absurd (ground arith)
      | inr (j, found) ↦ record {
        passed = refuted-none c req passed;
        index = j;
        replied = found;
        stored = verify_in_store-found req s.store r found (ground arith);
      }
    ]
  ]

  tree_of-log :
      (s : S) (t e : Bytes)
      → 1 ≤ length (law.log s t e)
      → length (law.log s t e) ≤ max_leaves
      → (tree : MerkleTree) × (tree_of c st (length (law.log s t e)) s t e ≡ ok tree)
  unfolding tree_of
  tree_of-log s t e h k =
      let p = prove_total c (law.log s t e) 0 k h in
      (p.tree, rw (collect-log st law s t e) (rw p.built refl))

  anchored_root_of-ok :
      (latest : Option Bytes) (s : S) (t e : Bytes)
      → 1 ≤ length (law.log s t e)
      → length (law.log s t e) ≤ max_leaves
      → (root : Option Bytes) × (anchored_root_of c st latest s t e ≡ ok root)
  unfolding anchored_root_of
  anchored_root_of-ok (some root) s t e h k = (some root, refl)
  anchored_root_of-ok none s t e h k =
      let (tree, built) = tree_of-log s t e h k in
      let ne : (length (law.log s t e) == 0) ≡ false = ground arith in
      (some tree.root, rw law.count_lem (rw ne (rw built refl)))

  -- A submission with valid names whose leaf, key and signature pass the checks and whose leaf is at
  -- some place of the namespace's log, of at most 2^20 leaves, is found valid, with a place of the leaf.
  pub handle_verify-finds :
      (req : VerifyRequest) (s : AppState S) (j : ℕ) (latest : Option Bytes)
      → validate_identifier c "tenant_id" req.tenant_id ≡ ok tt
      → validate_identifier c "exam_id" req.exam_id ≡ ok tt
      → Passed c req
      → get_elem? (law.log s.store req.tenant_id req.exam_id) j ≡ some req.merkle_leaf
      → length (law.log s.store req.tenant_id req.exam_id) ≤ max_leaves
      → st.latest_root s.store req.tenant_id req.exam_id ≡ ok latest
      → (r : VerifyResponse) × (handle_verify c st req s ≡ ok r) × (r.valid ≡ true)
  unfolding handle_verify verify_in_store
  handle_verify-finds req s j latest tenant exam p stored k root =
      let l = law.log s.store req.tenant_id req.exam_id in
      let lt = get_elem?-some-lt l j stored in
      let (i, found) =
        find_leaf-finds st law (length l) 0 j s.store req.tenant_id req.exam_id req.merkle_leaf
          (omega arith) (omega arith) stored in
      let (anchored, rooted) =
        anchored_root_of-ok latest s.store req.tenant_id req.exam_id (omega arith) k in
      (
        record {
          valid = true;
          reason = "verified";
          leaf_index = some i;
          total_leaves = length l;
          anchored_root = anchored;
        },
        rw tenant (
            rw exam (
              rw (Passed-refuted c req p)
                (rw law.count_lem (rw found (rw root (rw rooted refl)))))),
        refl,
      )

-- ===== src/Ledger/AnchorWorker.antt =====
-- oetp-ledger/src/anchor_worker.rs: the worker that anchors the latest root, and the backend for
-- development. The ticker and the log are left out.
use oetp.Prelude.{
  ◌∙◌, ap, beq_refl, false, arith, refl, ◌≤◌, ◌≡◌, true, Option, none, some, [], ◌++◌, ◌==◌,
  if◌then◌else◌, length, Bytes, utf8, beq,
}
use oetp.Result.{unwrap_or, Result, ok}
use oetp.Crates.{Crates}
use oetp.Merkle.{max_leaves}
use oetp.Merkle.Shape.{shape, value}
use oetp.Platform.{Store, StoreLaw, Anchor, AnchorType, AnchorBackend}
use oetp.Ledger.MerkleWorker.{run_once, build_root-log}

unfoldable pub anchor_pre_exam : Bytes → AnchorBackend → Result Anchor
anchor_pre_exam root backend = backend.anchor_root root AnchorType.pre_exam

unfoldable pub anchor_rolling : Bytes → AnchorBackend → Result Anchor
anchor_rolling root backend = backend.anchor_root root AnchorType.rolling

unfoldable pub anchor_final : Bytes → AnchorBackend → Result Anchor
anchor_final root backend = backend.anchor_root root AnchorType.final

unfoldable pub anchor_answer_key : Bytes → AnchorBackend → Result Anchor
anchor_answer_key hash backend = backend.anchor_root hash AnchorType.answer_key

-- What one round of `run_rolling` sends to the backend: a root, where there are leaves and a latest root.
unfoldable pub rolling_root : {S : Type 0} → Store S → S → Bytes → Bytes → Option Bytes
rolling_root st s tenant_id exam_id =
    if unwrap_or (st.count s tenant_id exam_id) 0 == 0
    then none
    else unwrap_or (st.latest_root s tenant_id exam_id) none

-- One round of `run_rolling`, and the backend's answer if it is asked.
unfoldable pub run_rolling_once :
    {S : Type 0} → Store S → AnchorBackend → S → Bytes → Bytes → Option (Result Anchor)
unfolding rolling_root
run_rolling_once st backend s tenant_id exam_id = elim (rolling_root st s tenant_id exam_id) [
  | none ↦ none
  | some root ↦ some (backend.anchor_root root AnchorType.rolling)
]

-- The anchor of `MockAnchorBackend`.
unfoldable pub mock_anchor : Crates → Bytes → AnchorType → Anchor
mock_anchor c root anchor_type = record {
  chain_id = utf8 "mock";
  tx_hash = utf8 "0x" ++ c.hex_encode root;
  anchored_root = root;
  anchor_type = anchor_type;
  timestamp = 1700000000;
  signature = [];
}

abbrev pub mock_anchor_backend : Crates → AnchorBackend
mock_anchor_backend c = record {
  anchor_root = λ root anchor_type. ok (mock_anchor c root anchor_type);
  verify_anchor = λ a. ok (beq a.chain_id (utf8 "mock"));
}

module _ (c : Crates) {S : Type 0} (st : Store S) (law : StoreLaw st) where
  run_once-count :
      (s : S) (t e : Bytes)
      → 1 ≤ length (law.log s t e)
      → length (law.log s t e) ≤ max_leaves
      → st.count (run_once c st s t e) t e ≡ ok (length (law.log s t e))
  unfolding run_once
  run_once-count s t e h k =
      let (built, _) = build_root-log c st law s t e h k in
      rw (run_once, built)
        (law.count_lem _ t e ∙ ap (λ l. ok (length l)) (law.set_root_log s t e _ t e))

  rolling_root-log :
      (s : S) (t e : Bytes)
      → 1 ≤ length (law.log s t e)
      → length (law.log s t e) ≤ max_leaves
      → rolling_root st (run_once c st s t e) t e ≡ some (value c (shape 20 (law.log s t e)))
  unfolding rolling_root
  rolling_root-log s t e h k =
      let (_, latest) = build_root-log c st law s t e h k in
      let some_leaves : (length (law.log s t e) == 0) ≡ false = ground (arith, h) in
      rw (run_once-count s t e h k) (rw some_leaves (rw latest refl))

  -- After a round of the Merkle worker over a namespace of one leaf or more, and of at most 2^20, a round of
  -- the anchor worker sends the root of the tree over the namespace's log, and the backend for development
  -- returns an anchor of this root, which it verifies.
  pub run_rolling_once-log :
      (s : S) (t e : Bytes)
      → 1 ≤ length (law.log s t e)
      → length (law.log s t e) ≤ max_leaves
      → (a : Anchor) × (run_rolling_once st (mock_anchor_backend c) (run_once c st s t e) t e
          ≡ some (ok a))
        × (a.anchored_root ≡ value c (shape 20 (law.log s t e)))
        × ((mock_anchor_backend c).verify_anchor a ≡ ok true)
  unfolding run_rolling_once rolling_root mock_anchor
  run_rolling_once-log s t e h k = (
    mock_anchor c (value c (shape 20 (law.log s t e))) AnchorType.rolling,
    rw (run_rolling_once, rolling_root-log s t e h k) refl,
    refl,
    ap ok (beq_refl (utf8 "mock")),
  )

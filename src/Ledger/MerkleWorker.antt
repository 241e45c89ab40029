-- ===== src/Ledger/MerkleWorker.antt =====
-- oetp-ledger/src/merkle_worker.rs: the root over the leaves of one namespace.
use oetp.Prelude.{
  refl, false, drop-suc, get_elem?_lt, drop_ge, ◌≤◌, sym, ℕ, zero, suc, ◌+◌, ◌≡◌, ap, Option, none,
  some, List, [], ◌∷◌, arith, ◌==◌, length, drop, Bytes,
}
use oetp.Result.{invalid_input, Result, ok, ◌>>=◌, ◌>>◌, reject}
use oetp.Crates.{Crates}
use oetp.Merkle
use oetp.Merkle.{max_leaves}
use oetp.Merkle.Shape.{shape, value}
use oetp.Merkle.Build.{new_ok}
use oetp.Platform.{Store, StoreLaw}

abbrev push : Option Bytes → List Bytes → List Bytes
push none l = l
push (some leaf) l = leaf ∷ l

module _ {S : Type 0} (st : Store S) where
  -- `for i in 0..count`, with the rounds left and the index: the leaves that `get` finds.
  unfoldable pub collect : ℕ → ℕ → S → Bytes → Bytes → Result (List Bytes)
  collect zero i s t e = ok []
  collect (suc rounds) i s t e =
      let rest = collect rounds (i + 1) s t e in
      st.get s t e i >>= λ leaf. rest >>= λ leaves. ok (push leaf leaves)

module _ (c : Crates) {S : Type 0} (st : Store S) where
  unfoldable pub build_root : S → Bytes → Bytes → Result Bytes
  unfolding collect
  build_root s tenant_id exam_id = do
    count ← st.count s tenant_id exam_id
    reject (count == 0) (invalid_input "no leaves to build tree")
    leaves ← collect st count 0 s tenant_id exam_id
    tree ← Merkle.new c leaves
    ok tree.root

  -- One round of the loop of `run`: a root that is built is stored, an error is logged.
  unfoldable pub run_once : S → Bytes → Bytes → S
  unfolding build_root
  run_once s tenant_id exam_id = elim (build_root s tenant_id exam_id) [
    | ok root ↦ (st.set_root s tenant_id exam_id root).1
    | _ ↦ s
  ]

module _ {S : Type 0} (st : Store S) (law : StoreLaw st) where
  add_one : (i : ℕ) → i + 1 ≡ suc i
  add_one i = omega arith

  collect-drop :
      (rounds i : ℕ) (s : S) (t e : Bytes)
      → rounds + i ≡ length (law.log s t e)
      → collect st rounds i s t e ≡ ok (drop i (law.log s t e))
  unfolding collect
  collect-drop zero i s t e h = ap ok (sym (drop_ge i (law.log s t e) (omega arith)))
  collect-drop (suc rounds) i s t e h =
      let (x, found) = get_elem?_lt (law.log s t e) i (omega arith) in
      let next = collect-drop rounds (i + 1) s t e (omega arith) in
      rw law.get_lem
        (rw found (rw next (rw (add_one i) (ap ok (sym (drop-suc i (law.log s t e) found))))))

  pub collect-log :
      (s : S) (t e : Bytes) → collect st (length (law.log s t e)) 0 s t e ≡ ok (law.log s t e)
  collect-log s t e = collect-drop (length (law.log s t e)) 0 s t e (omega arith)

module _ (c : Crates) {S : Type 0} (st : Store S) (law : StoreLaw st) where
  build_root-ok :
      (s : S) (t e : Bytes)
      → 1 ≤ length (law.log s t e)
      → length (law.log s t e) ≤ max_leaves
      → build_root c st s t e ≡ ok (value c (shape 20 (law.log s t e)))
  unfolding build_root
  build_root-ok s t e h k =
      let ne : (length (law.log s t e) == 0) ≡ false = ground arith in
      rw law.count_lem (rw ne (rw (collect-log st law s t e) (rw (new_ok c _ h k) refl)))

  -- Where the namespace holds at least one leaf and at most 2^20, the worker's root is that of the
  -- tree over the namespace's log, and a round of the worker leaves that root as the latest.
  pub build_root-log :
      (s : S) (t e : Bytes)
      → 1 ≤ length (law.log s t e)
      → length (law.log s t e) ≤ max_leaves
      → (build_root c st s t e ≡ ok (value c (shape 20 (law.log s t e))))
        × (st.latest_root (run_once c st s t e) t e
            ≡ ok (some (value c (shape 20 (law.log s t e)))))
  unfolding run_once
  build_root-log s t e h k =
      let built = build_root-ok s t e h k in
      (built, rw (run_once, built) (law.latest_set_root s t e _))

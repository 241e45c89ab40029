-- ===== src/Ledger/Tests.antt =====
-- The theorems on the stores and the Merkle worker at concrete stores.
use oetp.Prelude.{true, refl, ◌∙◌, sym, beq, arith, lookup, ◌≡◌, some, List, [], ◌∷◌, length, Bytes}
use oetp.Result.{ok-injective, ok}
use oetp.Crates.Toy.{toy}
use oetp.Merkle.Shape.{shape, value}
use oetp.Ledger.MemStore
use oetp.Ledger.MemStore.{MemStore, mem_store, mem_store-StoreLaw}
use oetp.Ledger.SqliteStore.{SqliteStore}
use oetp.Platform.{Anchor}
use oetp.Ledger.AnchorWorker.{mock_anchor_backend, run_rolling_once, run_rolling_once-log}
use oetp.Ledger.MerkleWorker.{build_root, run_once, build_root-log}

abbrev three_leaves : MemStore
three_leaves = record {
  leaves = (b't' ∷ b':' ∷ b'e' ∷ [], (1 ∷ []) ∷ (2 ∷ []) ∷ (3 ∷ []) ∷ []) ∷ [];
  roots = [];
}

abbrev log : List Bytes
log = mem_store-StoreLaw.log three_leaves (b't' ∷ []) (b'e' ∷ [])

log_length : length log ≡ 3
unfolding MemStore.count MemStore.ns lookup beq
log_length =
    ok-injective (sym (mem_store-StoreLaw.count_lem three_leaves (b't' ∷ []) (b'e' ∷ [])) ∙ refl)

root_run :
    (build_root toy mem_store three_leaves (b't' ∷ []) (b'e' ∷ []) ≡ ok (value toy (shape 20 log)))
    × (mem_store.latest_root
          (run_once toy mem_store three_leaves (b't' ∷ []) (b'e' ∷ []))
          (b't' ∷ [])
          (b'e' ∷ [])
        ≡ ok (some (value toy (shape 20 log))))
root_run =
    build_root-log toy mem_store mem_store-StoreLaw three_leaves (b't' ∷ []) (b'e' ∷ [])
      (omega (arith, log_length)) (omega (arith, log_length))

run_rolling_once-log_example :
    (a : Anchor) × (run_rolling_once mem_store
        (mock_anchor_backend toy)
        (run_once toy mem_store three_leaves (b't' ∷ []) (b'e' ∷ []))
        (b't' ∷ [])
        (b'e' ∷ [])
      ≡ some (ok a))
    × (a.anchored_root ≡ value toy (shape 20 log))
    × ((mock_anchor_backend toy).verify_anchor a ≡ ok true)
run_rolling_once-log_example =
    run_rolling_once-log toy mem_store mem_store-StoreLaw three_leaves (b't' ∷ []) (b'e' ∷ [])
      (omega (arith, log_length)) (omega (arith, log_length))

abbrev one_other : SqliteStore
one_other = record {
  leaves = record { tenant_id = b'u' ∷ []; exam_id = b'e' ∷ []; leaf = 1 ∷ [] } ∷ [];
  roots = [];
}

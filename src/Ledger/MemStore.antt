-- ===== src/Ledger/MemStore.antt =====
-- oetp-ledger/src/storage.rs: the store in memory.
use oetp.Prelude.{
  ◌∙◌, ℕ, ◌≡◌, refl, true, Option, none, some, List, [], ◌∷◌, ◌++◌, arith, length, get_elem?, Bytes,
  beq_refl, beq_iff, Map, lookup, insert, lookup-insert,
}
use oetp.Result.{Result, ok}
use oetp.Platform.{IndexLaw, Store, StoreLaw, no_colon, SameSpace}

pub record MemStore : Type 0 where
  pub leaves : Map (List Bytes)
  pub roots : Map Bytes

abbrev pub new : MemStore
new = record { leaves = []; roots = [] }

unfoldable pub ns : Bytes → Bytes → Bytes
ns tenant_id exam_id = tenant_id ++ (b':' ∷ exam_id)

-- `entry(ns).or_default()`
abbrev or_default : Option (List Bytes) → List Bytes
or_default none = []
or_default (some l) = l

unfoldable pub append : MemStore → Bytes → Bytes → Bytes → Result ℕ × MemStore
append s tenant_id exam_id leaf =
    let space = ns tenant_id exam_id in
    let entries = or_default (lookup space s.leaves) in
    (ok (length entries), record s { leaves = insert space (entries ++ (leaf ∷ [])) s.leaves })

unfoldable pub get : MemStore → Bytes → Bytes → ℕ → Result (Option Bytes)
get s tenant_id exam_id index = elim (lookup (ns tenant_id exam_id) s.leaves) [
  | none ↦ ok none
  | some entries ↦ ok (get_elem? entries index)
]

unfoldable pub count : MemStore → Bytes → Bytes → Result ℕ
count s tenant_id exam_id = elim (lookup (ns tenant_id exam_id) s.leaves) [
  | none ↦ ok 0
  | some entries ↦ ok (length entries)
]

unfoldable pub latest_root : MemStore → Bytes → Bytes → Result (Option Bytes)
latest_root s tenant_id exam_id = ok (lookup (ns tenant_id exam_id) s.roots)

unfoldable pub set_root : MemStore → Bytes → Bytes → Bytes → Result (Unit {0}) × MemStore
set_root s tenant_id exam_id root =
    (ok tt, record s { roots = insert (ns tenant_id exam_id) root s.roots })

abbrev pub mem_store : Store MemStore
mem_store = record {
  append = append;
  get = get;
  count = count;
  latest_root = latest_root;
  set_root = set_root;
}

-- Two namespaces whose tenants have no colon have one key only if they are the same.
pub ns-injective :
    (t t' e e' : Bytes)
    → no_colon t ≡ true
    → no_colon t' ≡ true
    → ns t e ≡ ns t' e'
    → SameSpace t e t' e'
unfolding ns
ns-injective [] [] e e' h k same = (refl, cc)
ns-injective [] (b ∷ t') e e' h k same = absurd (ground arith)
ns-injective (a ∷ t) [] e e' h k same = absurd (ground arith)
ns-injective (a ∷ t) (b ∷ t') e e' h k same =
    let (p, q) = ns-injective t t' e e' (ground arith) (ground arith) (cc) in (cc, q)

log : MemStore → Bytes → Bytes → List Bytes
log s t e = or_default (lookup (ns t e) s.leaves)

-- The store in memory is a log for each namespace: `count`, `get` and `append` read and extend the
-- namespace's log, `append` leaves every other namespace's log alone where tenants have no colon, and
-- `set_root` changes no log and is what `latest_root` then returns.
pub mem_store-StoreLaw : StoreLaw mem_store
unfolding append get count latest_root set_root log
mem_store-StoreLaw = record {
  log = log;
  count_lem = λ s t e. ground arith;
  get_lem = λ s t e i. ground arith;
  append_log = λ s t e leaf. rw lookup-insert (rw beq_refl refl);
  append_other = λ s t e leaf t' e' h k other. rw lookup-insert (
      ground (
        arith,
        beq_iff (ns t e) (ns t' e'),
        λ (p : ns t e ≡ ns t' e'). other (ns-injective t t' e e' h k p),
      ));
  set_root_log = λ s t e root t' e'. refl;
  latest_set_root = λ s t e root. rw lookup-insert (rw beq_refl refl);
}

-- `append` returns the place of the leaf in its namespace.
pub append-count : (s : MemStore) (t e leaf : Bytes) → (append s t e leaf).0 ≡ count s t e
unfolding append count
append-count s t e leaf = ground arith

-- So the store in memory also keeps the promise on the index.
pub mem_store-IndexLaw : IndexLaw mem_store mem_store-StoreLaw
mem_store-IndexLaw = record {
  append_index = λ s t e leaf. append-count s t e leaf ∙ mem_store-StoreLaw.count_lem s t e;
}

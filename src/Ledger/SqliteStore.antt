-- ===== src/Ledger/SqliteStore.antt =====
-- oetp-ledger/src/sqlite_store.rs: the store in SQLite. A table is the list of its rows in the order
-- of `id`; a statement has its SQL meaning on them, and the engine reports no error. No row is ever
-- deleted, so AUTOINCREMENT gives a new row the id `number of rows + 1`.
use oetp.Prelude.{
  get_elem?_ge, append-nil, length-append, beq_iff, ℕ, suc, ◌+◌, ◌-◌, ◌≤◌, max, ◌≡◌, refl, ap, ◌&&◌,
  Option, none, some, List, [], ◌∷◌, ◌++◌, arith, if◌then◌else◌, length, get_elem?, Bytes, beq,
  beq_refl,
}
use oetp.Result.{Result, ok}
use oetp.Platform.{Store, StoreLaw, SameSpace}

pub record LeafRow : Type 0 where
  pub tenant_id : Bytes
  pub exam_id : Bytes
  pub leaf : Bytes

pub record RootRow : Type 0 where
  pub tenant_id : Bytes
  pub exam_id : Bytes
  pub root : Bytes
  pub seq : ℕ

pub record SqliteStore : Type 0 where
  pub leaves : List LeafRow
  pub roots : List RootRow

abbrev pub new : SqliteStore
new = record { leaves = []; roots = [] }

-- `SELECT leaf FROM leaves WHERE tenant_id = ?1 AND exam_id = ?2 ORDER BY id`
unfoldable pub select_leaves : List LeafRow → Bytes → Bytes → List Bytes
select_leaves [] t e = []
select_leaves (r ∷ rows) t e =
    let rest = select_leaves rows t e in
    if beq r.tenant_id t && beq r.exam_id e then r.leaf ∷ rest else rest

-- `INSERT INTO leaves`, and `last_insert_rowid() as u64 - 1`
unfoldable pub append : SqliteStore → Bytes → Bytes → Bytes → Result ℕ × SqliteStore
append s tenant_id exam_id leaf =
    let rows =
      s.leaves ++ (record { tenant_id = tenant_id; exam_id = exam_id; leaf = leaf } ∷ []) in
    let id = length rows in (ok (id - 1), record s { leaves = rows })

-- `LIMIT 1 OFFSET ?3`
unfoldable pub get : SqliteStore → Bytes → Bytes → ℕ → Result (Option Bytes)
get s tenant_id exam_id index = ok (get_elem? (select_leaves s.leaves tenant_id exam_id) index)

unfoldable pub count : SqliteStore → Bytes → Bytes → Result ℕ
count s tenant_id exam_id = ok (length (select_leaves s.leaves tenant_id exam_id))

-- `SELECT root ... ORDER BY id DESC LIMIT 1`: the last row of the namespace.
unfoldable pub last_root : List RootRow → Bytes → Bytes → Option Bytes → Option Bytes
last_root [] t e found = found
last_root (r ∷ rows) t e found =
    last_root rows t e (if beq r.tenant_id t && beq r.exam_id e then some r.root else found)

unfoldable pub latest_root : SqliteStore → Bytes → Bytes → Result (Option Bytes)
unfolding last_root
latest_root s tenant_id exam_id = ok (last_root s.roots tenant_id exam_id none)

-- `SELECT COALESCE(MAX(seq), 0) ...`
unfoldable pub max_seq : List RootRow → Bytes → Bytes → ℕ
max_seq [] t e = 0
max_seq (r ∷ rows) t e =
    let rest = max_seq rows t e in
    if beq r.tenant_id t && beq r.exam_id e then max r.seq rest else rest

unfoldable pub set_root : SqliteStore → Bytes → Bytes → Bytes → Result (Unit {0}) × SqliteStore
unfolding max_seq
set_root s tenant_id exam_id root =
    let seq = max_seq s.roots tenant_id exam_id + 1 in
    (
      ok tt,
      record s {
        roots =
            s.roots
            ++ (record { tenant_id = tenant_id; exam_id = exam_id; root = root; seq = seq } ∷ []);
      },
    )

abbrev pub sqlite_store : Store SqliteStore
sqlite_store = record {
  append = append;
  get = get;
  count = count;
  latest_root = latest_root;
  set_root = set_root;
}

select_leaves-append :
    (rows : List LeafRow) (r : LeafRow) (t e : Bytes)
    → select_leaves (rows ++ (r ∷ [])) t e
      ≡ select_leaves rows t e ++ (if beq r.tenant_id t && beq r.exam_id e then r.leaf ∷ [] else [])
unfolding select_leaves
select_leaves-append [] r t e = ground arith
select_leaves-append (x ∷ rows) r t e = ground (arith, select_leaves-append rows r t e)

last_root-append :
    (rows : List RootRow) (r : RootRow) (t e : Bytes) (found : Option Bytes)
    → last_root (rows ++ (r ∷ [])) t e found
      ≡ (if beq r.tenant_id t && beq r.exam_id e then some r.root else last_root rows t e found)
unfolding last_root
last_root-append [] r t e found = ground arith
last_root-append (x ∷ rows) r t e found = last_root-append rows r t e _

select_leaves-other :
    (l : List Bytes) (t t' e e' leaf : Bytes)
    → ¬ (SameSpace t e t' e')
    → l ++ (if beq t t' && beq e e' then leaf ∷ [] else []) ≡ l
select_leaves-other l t t' e e' leaf other =
    ground
      (arith, beq_iff t t', beq_iff e e', append-nil l, λ (p : t ≡ t') (q : e ≡ e'). other (p, q))

-- The store in SQLite is a log for each namespace: `count`, `get` and `append` read and extend the
-- namespace's log, `append` leaves every other namespace's log alone where tenants have no colon, and
-- `set_root` changes no log and is what `latest_root` then returns.
pub sqlite_store-StoreLaw : StoreLaw sqlite_store
unfolding append get count latest_root set_root
sqlite_store-StoreLaw = record {
  log = λ s t e. select_leaves s.leaves t e;
  count_lem = λ s t e. refl;
  get_lem = λ s t e i. refl;
  append_log = λ s t e leaf. rw select_leaves-append (simp beq_refl);
  append_other = λ s t e leaf t' e' _ _ other.
      rw select_leaves-append
        (select_leaves-other (select_leaves s.leaves t' e') t t' e e' leaf other);
  set_root_log = λ s t e root t' e'. refl;
  latest_set_root = λ s t e root. rw last_root-append (simp beq_refl);
}

-- The rows of other namespaces.
unfoldable pub others : List LeafRow → Bytes → Bytes → ℕ
others [] t e = 0
others (r ∷ rows) t e =
    let rest = others rows t e in if beq r.tenant_id t && beq r.exam_id e then rest else suc rest

length-select_leaves :
    (rows : List LeafRow) (t e : Bytes)
    → length (select_leaves rows t e) + others rows t e ≡ length rows
unfolding select_leaves others
length-select_leaves [] t e = omega arith
length-select_leaves (r ∷ rows) t e = ground (arith, length-select_leaves rows t e)

-- The index that `append` returns is the leaf's place in its namespace plus the number of leaves of
-- other namespaces; where there is one of those, `get` finds nothing at that index.
pub append_index :
    (s : SqliteStore) (t e leaf : Bytes)
    → ((append s t e leaf).0 ≡ ok (length (select_leaves s.leaves t e) + others s.leaves t e))
      × (1 ≤ others s.leaves t e
          → get
              (append s t e leaf).1
              t
              e
              (length (select_leaves s.leaves t e) + others s.leaves t e)
            ≡ ok none)
unfolding append get
append_index s t e leaf =
    let n = length-select_leaves s.leaves t e in
    (
      ap ok (omega (arith, n, length-append s.leaves (_ ∷ []))),
      λ h. ap ok (
          get_elem?_ge (select_leaves (append s t e leaf).1.leaves t e)
            (length (select_leaves s.leaves t e) + others s.leaves t e)
            (rw select_leaves-append (rw length-append (simp beq_refl (omega arith))))),
    )

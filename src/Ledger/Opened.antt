-- ===== src/Ledger/Opened.antt =====
-- The store that `Serve` opens (oetp-ledger/src/main.rs), behind `dyn Store`, and the state over it.
use oetp.Prelude.{
  ℕ, ◌≡◌, true, some, not, Option, List, [], ◌∷◌, ◌++◌, length, get_elem?, if◌then◌else◌, is_empty,
  Bytes,
}
use oetp.Result.{ok_or, ◌>>=◌, Fallible, Result, ok, map_err}
use oetp.Crates.{Crates}
use oetp.Env.{Env}
use oetp.Platform.{Store, StoreLaw, no_colon, SameSpace}
use oetp.Ledger.MemStore.{MemStore, mem_store, mem_store-StoreLaw}
use oetp.Ledger.MemStore
use oetp.Ledger.SqliteStore.{SqliteStore, sqlite_store, sqlite_store-StoreLaw}
use oetp.Ledger.Requests.{AppState}
use oetp.Ledger.Config.{from_env, serve}

-- `Arc<dyn Store>`
pub data OpenStore : Type 0 where
  memory : MemStore → OpenStore
  sqlite : SqliteStore → OpenStore

abbrev in_memory : {A : Type 0} → A × MemStore → A × OpenStore
in_memory (a, s) = (a, memory s)

abbrev in_sqlite : {A : Type 0} → A × SqliteStore → A × OpenStore
in_sqlite (a, s) = (a, sqlite s)

-- The calls of the trait's methods, by the store that is behind it.
unfoldable pub append : OpenStore → Bytes → Bytes → Bytes → Result ℕ × OpenStore
append (memory s) t e leaf = in_memory (mem_store.append s t e leaf)
append (sqlite s) t e leaf = in_sqlite (sqlite_store.append s t e leaf)

unfoldable pub get : OpenStore → Bytes → Bytes → ℕ → Result (Option Bytes)
get (memory s) = mem_store.get s
get (sqlite s) = sqlite_store.get s

unfoldable pub count : OpenStore → Bytes → Bytes → Result ℕ
count (memory s) = mem_store.count s
count (sqlite s) = sqlite_store.count s

unfoldable pub latest_root : OpenStore → Bytes → Bytes → Result (Option Bytes)
latest_root (memory s) = mem_store.latest_root s
latest_root (sqlite s) = sqlite_store.latest_root s

unfoldable pub set_root : OpenStore → Bytes → Bytes → Bytes → Result (Unit {0}) × OpenStore
set_root (memory s) t e root = in_memory (mem_store.set_root s t e root)
set_root (sqlite s) t e root = in_sqlite (sqlite_store.set_root s t e root)

abbrev pub dyn_store : Store OpenStore
dyn_store = record {
  append = append;
  get = get;
  count = count;
  latest_root = latest_root;
  set_root = set_root;
}

-- SQLite at the path, and a store in memory where the path is empty; `connect` is `SqliteStore::new`, and a
-- failure of it ends the process.
unfoldable pub open_store : (Bytes → Result SqliteStore) → Bytes → Fallible (Unit {0}) OpenStore
open_store connect db_path =
    if not (is_empty db_path)
    then map_err (connect db_path) (λ e. tt) >>= (λ s. ok (sqlite s))
    else ok (memory MemStore.new)

module _ (c : Crates) where
  -- `Serve`, from the environment to the shared state; `err tt` is the exit of the process with code 1.
  unfoldable pub serve_opened :
      Env → (Bytes → Result SqliteStore) → Fallible (Unit {0}) (AppState OpenStore)
  unfolding serve open_store
  serve_opened env connect = do
    cfg ← map_err (from_env c env) (λ e. tt)
    _ ← ok_or (c.hex_decode 32 (c.trim cfg.signing_key_hex)) tt
    store ← open_store connect cfg.db_path
    serve c env store

-- The log behind the store, whichever it is.
abbrev log_of : OpenStore → Bytes → Bytes → List Bytes
log_of (memory s) = mem_store-StoreLaw.log s
log_of (sqlite s) = sqlite_store-StoreLaw.log s

-- What holds of either store holds of the one that is behind the trait.
either_store :
    (P : OpenStore → Type 0)
    → ((m : MemStore) → P (memory m))
    → ((q : SqliteStore) → P (sqlite q))
    → (s : OpenStore) → P s
either_store P m q (memory s) = m s
either_store P m q (sqlite s) = q s

-- The store that `Serve` opens, the one in memory or the one in SQLite behind the trait, implements a log
-- per namespace: `count`, `get` and `append` read and extend the namespace's log, `append` leaves every
-- other namespace's log alone where tenants have no colon, and `set_root` changes no log and is what
-- `latest_root` then returns.
pub dyn_store-StoreLaw : StoreLaw dyn_store
unfolding append get count latest_root set_root
dyn_store-StoreLaw = record {
  log = log_of;
  count_lem =
      either_store (λ s. (t e : Bytes) → count s t e ≡ ok (length (log_of s t e)))
        mem_store-StoreLaw.count_lem sqlite_store-StoreLaw.count_lem;
  get_lem =
      either_store (λ s. (t e : Bytes) (i : ℕ) → get s t e i ≡ ok (get_elem? (log_of s t e) i))
        mem_store-StoreLaw.get_lem sqlite_store-StoreLaw.get_lem;
  append_log =
      either_store
        (λ s. (t e leaf : Bytes) → log_of (append s t e leaf).1 t e ≡ log_of s t e ++ (leaf ∷ []))
        mem_store-StoreLaw.append_log sqlite_store-StoreLaw.append_log;
  append_other =
      either_store
        (λ s.
          (t e leaf t' e' : Bytes)
          → no_colon t ≡ true
          → no_colon t' ≡ true
          → ¬ (SameSpace t e t' e')
          → log_of (append s t e leaf).1 t' e' ≡ log_of s t' e')
        mem_store-StoreLaw.append_other sqlite_store-StoreLaw.append_other;
  set_root_log =
      either_store
        (λ s. (t e root t' e' : Bytes) → log_of (set_root s t e root).1 t' e' ≡ log_of s t' e')
        mem_store-StoreLaw.set_root_log sqlite_store-StoreLaw.set_root_log;
  latest_set_root =
      either_store
        (λ s. (t e root : Bytes) → latest_root (set_root s t e root).1 t e ≡ ok (some root))
        mem_store-StoreLaw.latest_set_root sqlite_store-StoreLaw.latest_set_root;
}

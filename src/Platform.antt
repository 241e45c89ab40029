-- ===== src/Platform.antt =====
-- oetp-core/src/platform.rs: anchors, and the interfaces of the ledger's store, of the backend
-- for anchors, and of the guard of the process.
use oetp.Prelude.{
  ℕ, ◌≡◌, Bool, true, not, Option, some, List, [], ◌∷◌, ◌++◌, ◌==◌, length, get_elem?, all, Bytes,
}
use oetp.Result.{Result, ok}

pub data AnchorType : Type 0 where
  pre_exam rolling final answer_key : AnchorType

pub record Anchor : Type 0 where
  pub chain_id : Bytes
  pub tx_hash : Bytes
  pub anchored_root : Bytes
  pub anchor_type : AnchorType
  pub timestamp : ℕ
  pub signature : Bytes

-- `trait Store`, with the store's state passed and returned.
pub record Store (S : Type 0) : Type 0 where
  pub append : S → Bytes → Bytes → Bytes → Result ℕ × S
  pub get : S → Bytes → Bytes → ℕ → Result (Option Bytes)
  pub count : S → Bytes → Bytes → Result ℕ
  pub latest_root : S → Bytes → Bytes → Result (Option Bytes)
  pub set_root : S → Bytes → Bytes → Bytes → Result (Unit {0}) × S

-- `trait AnchorBackend`
pub record AnchorBackend : Type 0 where
  pub anchor_root : Bytes → AnchorType → Result Anchor
  pub verify_anchor : Anchor → Result Bool

-- `trait ProcessGuard`
pub record ProcessGuard : Type 0 where
  pub disable_core_dumps : Result (Unit {0})
  pub restrict_ptrace : Result (Unit {0})

-- No colon: what `validate_identifier` lets through.
abbrev pub no_colon : Bytes → Bool
no_colon = all (λ b. not (b == b':'))

-- A namespace: a tenant and an exam.
abbrev pub SameSpace : Bytes → Bytes → Bytes → Bytes → Type 0
SameSpace t e t' e' = (t ≡ t') × (e ≡ e')

-- What a store promises: for each namespace a log of leaves, which only `append` makes longer, and a
-- latest root.
pub record StoreLaw {S : Type 0} (st : Store S) : Type 0 where
  pub log : S → Bytes → Bytes → List Bytes
  pub count_lem : (s : S) (t e : Bytes) → st.count s t e ≡ ok (length (log s t e))
  pub get_lem : (s : S) (t e : Bytes) (i : ℕ) → st.get s t e i ≡ ok (get_elem? (log s t e) i)
  pub append_log :
      (s : S) (t e leaf : Bytes) → log (st.append s t e leaf).1 t e ≡ log s t e ++ (leaf ∷ [])
  pub append_other :
      (s : S) (t e leaf t' e' : Bytes)
      → no_colon t ≡ true
      → no_colon t' ≡ true
      → ¬ (SameSpace t e t' e')
      → log (st.append s t e leaf).1 t' e' ≡ log s t' e'
  pub set_root_log :
      (s : S) (t e root t' e' : Bytes) → log (st.set_root s t e root).1 t' e' ≡ log s t' e'
  pub latest_set_root :
      (s : S) (t e root : Bytes) → st.latest_root (st.set_root s t e root).1 t e ≡ ok (some root)

-- `append` returns the place of the leaf in its namespace's log.
pub record IndexLaw {S : Type 0} (st : Store S) (law : StoreLaw st) : Type 0 where
  pub append_index :
      (s : S) (t e leaf : Bytes) → (st.append s t e leaf).0 ≡ ok (length (law.log s t e))

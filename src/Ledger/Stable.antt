-- ===== src/Ledger/Stable.antt =====
-- The steps of the ledger (oetp-ledger/src/api.rs, merkle_worker.rs) and the receipts that are listed.
use oetp.Prelude.{
  ℕ, zero, suc, ◌≡◌, refl, ◌≢◌, inl, inr, true, false, ◌&&◌, some, List, [], ◌∷◌, ◌++◌, arith,
  Bool-cases, get_elem?, all, Bytes, beq, beq_iff, lookup-insert,
}
use oetp.Result.{ok-cases, Result, err, panic, unfinished, ok}
use oetp.Crates.{Crates, PatternLaw, is_id_byte}
use oetp.Clock.{Clock}
use oetp.Validation.{validate_identifier}
use oetp.Validation.Accepted.{validate_identifier_iff}
use oetp.Platform.{Store, StoreLaw, no_colon}
use oetp.Api.{Headers}
use oetp.Ledger.Requests.{
  AppState, IngestRequest, CommitRequest, KeyCommitRequest, LoadPacketsRequest,
}
use oetp.Ledger.Api.{handle_ingest, handle_commit, handle_key_commit, handle_load_packets}
use oetp.Ledger.MerkleWorker.{run_once, build_root}
use oetp.Ledger.Served.{Indexed}
use oetp.Merkle
use oetp.Merkle.{MerkleTree}

pub id_byte-no_colon : (v : Bytes) → all is_id_byte v ≡ true → no_colon v ≡ true
id_byte-no_colon [] h = refl
id_byte-no_colon (b ∷ v) h = ground (arith, id_byte-no_colon v)

pub get_elem?-append_left {ℓ} :
    {A : Type ℓ} (xs ys : List A) (i : ℕ) {a : A}
    → get_elem? xs i ≡ some a
    → get_elem? (xs ++ ys) i ≡ some a
get_elem?-append_left [] ys i h = cc
get_elem?-append_left (x ∷ xs) ys zero h = h
get_elem?-append_left (x ∷ xs) ys (suc i) h = get_elem?-append_left xs ys i h

abbrev pub root_or : Result MerkleTree → Bytes
root_or (ok tree) = tree.root
root_or _ = []

module _ (c : Crates) {S : Type 0} (st : Store S) where
  -- What the ledger does besides ingesting a submission under the receipt `id` again: a request to one
  -- of the handlers that change its state, with any outcome, or a round of a Merkle worker.
  pub data Step (id : Bytes) : AppState S → AppState S → Type 0 where
    commit :
        {s : AppState S} (clock : Clock) (headers : Headers) (req : CommitRequest)
        → Step id s (handle_commit c st clock headers req s).1
    key_commit :
        {s : AppState S} (clock : Clock) (headers : Headers) (req : KeyCommitRequest)
        → Step id s (handle_key_commit c st clock headers req s).1
    ingest :
        {s : AppState S} (clock : Clock) (headers : Headers) (req : IngestRequest)
        → req.receipt_id ≢ id
        → Step id s (handle_ingest c st clock headers req s).1
    load :
        {s : AppState S} (headers : Headers) (req : LoadPacketsRequest)
        → Step id s (handle_load_packets headers req s).1
    worker :
        {s : AppState S} (t' e' : Bytes)
        → Step id s (record s { store = run_once c st s.store t' e' })

  pub data Steps (id : Bytes) : AppState S → AppState S → Type 0 where
    done : {s : AppState S} → Steps id s s
    next : {s u w : AppState S} → Step id s u → Steps id u w → Steps id s w

module _ (c : Crates) (pattern : PatternLaw c) {S : Type 0} (st : Store S) (law : StoreLaw st)
    (t e : Bytes) (colon_free : no_colon t ≡ true) where
  -- The leaf at an index of the namespace stays there when a leaf is appended anywhere.
  pub append-stored :
      (s : S) (t' e' leaf : Bytes) (i : ℕ) {x : Bytes}
      → validate_identifier c "tenant_id" t' ≡ ok tt
      → get_elem? (law.log s t e) i ≡ some x
      → get_elem? (law.log (st.append s t' e' leaf).1 t e) i ≡ some x
  append-stored s t' e' leaf i v h =
      let (_, _, ids) = (validate_identifier_iff c "tenant_id" t' pattern).0 v in
      elim (Bool-cases (beq t' t && beq e' e)) [
        | inl same ↦
            let p : t' ≡ t = ground (arith, beq_iff t' t) in
            let q : e' ≡ e = ground (arith, beq_iff e' e) in
            rw (p, q) (rw law.append_log (get_elem?-append_left (law.log s t e) _ i h))
        | inr other ↦
            let differ : ¬ ((t' ≡ t) × (e' ≡ e)) =
              λ both. ground (arith, beq_iff t' t, beq_iff e' e, both.0, both.1) in
            rw (law.append_other s t' e' leaf t e (id_byte-no_colon t' ids) colon_free differ) h
      ]

  set_root_if-log :
      (s : S) (t' e' : Bytes) (built : Result Bytes)
      → law.log (elim built [ ok root ↦ (st.set_root s t' e' root).1 | _ ↦ s ]) t e ≡ law.log s t e
  set_root_if-log s t' e' (ok root) = law.set_root_log s t' e' root t e
  set_root_if-log s t' e' (err _) = refl
  set_root_if-log s t' e' panic = refl
  set_root_if-log s t' e' unfinished = refl

  module _ (s : AppState S) (id : Bytes) (i : ℕ) (x : Bytes)
      (h : Indexed c st law s t e id i x) where
    commit-Indexed :
        (clock : Clock) (headers : Headers) (req : CommitRequest)
        → Indexed c st law (handle_commit c st clock headers req s).1 t e id i x
    unfolding handle_commit
    commit-Indexed clock headers req =
        let leaf = root_or (Merkle.new c req.packet_hashes) in
        let kept = λ (v : validate_identifier c "tenant_id" req.tenant_id ≡ ok tt).
          append-stored s.store req.tenant_id req.exam_id leaf i v h.stored in
        record { listed = ground (arith, h.listed); stored = ground (arith, h.stored, kept) }

    key_commit-Indexed :
        (clock : Clock) (headers : Headers) (req : KeyCommitRequest)
        → Indexed c st law (handle_key_commit c st clock headers req s).1 t e id i x
    unfolding handle_key_commit
    key_commit-Indexed clock headers req =
        let kept = λ (v : validate_identifier c "tenant_id" req.tenant_id ≡ ok tt).
          append-stored s.store req.tenant_id req.exam_id req.answer_key_hash i v h.stored in
        record { listed = ground (arith, h.listed); stored = ground (arith, h.stored, kept) }

    ingest_other-Indexed :
        (clock : Clock) (headers : Headers) (req : IngestRequest)
        → req.receipt_id ≢ id
        → Indexed c st law (handle_ingest c st clock headers req s).1 t e id i x
    unfolding handle_ingest
    ingest_other-Indexed clock headers req other =
        let kept = λ (v : validate_identifier c "tenant_id" req.tenant_id ≡ ok tt).
          append-stored s.store req.tenant_id req.exam_id req.merkle_leaf i v h.stored in
        let apart : beq req.receipt_id id ≡ false = ground (arith, beq_iff req.receipt_id id) in
        let named = λ (j : ℕ). lookup-insert req.receipt_id id j s.receipt_index in
        elim (ok-cases (st.append s.store req.tenant_id req.exam_id req.merkle_leaf).0) [
          | inl (j, got) ↦ record {
            listed = ground (arith, h.listed, got, apart, named j);
            stored = ground (arith, h.stored, kept);
          }
          | inr bad ↦ record {
            listed = ground (arith, h.listed, bad);
            stored = ground (arith, h.stored, kept);
          }
        ]

    load-Indexed :
        (headers : Headers) (req : LoadPacketsRequest)
        → Indexed c st law (handle_load_packets headers req s).1 t e id i x
    unfolding handle_load_packets
    load-Indexed headers req = record {
      listed = ground (arith, h.listed);
      stored = ground (arith, h.stored);
    }

    worker-Indexed :
        (t' e' : Bytes)
        → Indexed c st law (record s { store = run_once c st s.store t' e' }) t e id i x
    unfolding run_once
    worker-Indexed t' e' = record {
      listed = h.listed;
      stored = rw (set_root_if-log s.store t' e' (build_root c st s.store t' e')) h.stored;
    }

  Step-Indexed :
      (id : Bytes) (i : ℕ) (x : Bytes) {s u : AppState S}
      → Step c st id s u
      → Indexed c st law s t e id i x
      → Indexed c st law u t e id i x
  Step-Indexed id i x {s} (commit clock headers req) h = commit-Indexed s id i x h clock headers req
  Step-Indexed id i x {s} (key_commit clock headers req) h =
      key_commit-Indexed s id i x h clock headers req
  Step-Indexed id i x {s} (ingest clock headers req other) h =
      ingest_other-Indexed s id i x h clock headers req other
  Step-Indexed id i x {s} (load headers req) h = load-Indexed s id i x h headers req
  Step-Indexed id i x {s} (worker t' e') h = worker-Indexed s id i x h t' e'

  -- Whatever the ledger does but an ingest under the same receipt, the receipt stays listed at its leaf.
  pub Steps-Indexed :
      (id : Bytes) (i : ℕ) (x : Bytes) {s u : AppState S}
      → Steps c st id s u
      → Indexed c st law s t e id i x
      → Indexed c st law u t e id i x
  Steps-Indexed id i x done h = h
  Steps-Indexed id i x (next a rest) h = Steps-Indexed id i x rest (Step-Indexed id i x a h)

-- ===== src/Ledger/Interleaved/Whole.antt =====
-- Handlers and workers that run without interruption are among the interleavings (oetp-ledger/src/api.rs,
-- merkle_worker.rs).
use oetp.Prelude.{
  ◌≡◌, refl, ◌≢◌, inl, inr, Bool, true, false, ◌&&◌, [], ◌∷◌, ◌++◌, arith, if◌then◌else◌,
  Bool-cases, Bytes, insert,
}
use oetp.Result.{is_ok, unwrap_or, Result, ok, err, panic, unfinished}
use oetp.Crates.{Crates}
use oetp.Clock.{Clock}
use oetp.Validation.{validate_identifier}
use oetp.Platform.{Store, AnchorType}
use oetp.Api.{Headers, check_api_key}
use oetp.Merkle
use oetp.Ledger.Requests.{
  IngestRequest, KeyCommitRequest, LoadPacketsRequest, AppState, CommitRequest, valid_space,
  local_anchor, within_window,
}
use oetp.Ledger.Api.{handle_load_packets, handle_ingest, handle_key_commit, handle_commit}
use oetp.Ledger.MerkleWorker.{run_once, build_root}
use oetp.Ledger.Stable.{Step, Steps, root_or}
use oetp.Ledger.Interleaved.{Act, Acts}

module _ (c : Crates) {S : Type 0} (st : Store S) (id : Bytes) where
  Acts-append : {s u w : AppState S} → Acts c st id s u → Acts c st id u w → Acts c st id s w
  Acts-append Acts.done r = r
  Acts-append (Acts.next a rest) r = Acts.next a (Acts-append rest r)

  only : {s u : AppState S} → Act c st id s u → Acts c st id s u
  only a = Acts.next a Acts.done

  -- A leaf that is appended under a tenant's name that was checked, then one more action if the store
  -- succeeded; or nothing.
  appended-Acts :
      (s u half : AppState S) (started stored : Bool) (t' e' leaf : Bytes)
      → (started ≡ true → validate_identifier c "tenant_id" t' ≡ ok tt)
      → half ≡ record s { store = (st.append s.store t' e' leaf).1 }
      → Act c st id half u
      → Acts c st id s (if started then (if stored then u else half) else s)
  appended-Acts s u half true true t' e' leaf v e a =
      Acts.next (Act.append t' e' leaf (v refl)) (rw (← e) (only a))
  appended-Acts s u half true false t' e' leaf v e a = rw e (only (Act.append t' e' leaf (v refl)))
  appended-Acts s u half false stored t' e' leaf v e a = Acts.done

  abbrev after_append : AppState S → Bytes → Bytes → Bytes → AppState S
  after_append s t' e' leaf = record s { store = (st.append s.store t' e' leaf).1 }

  abbrev stored : AppState S → Bytes → Bytes → Bytes → Bool
  stored s t' e' leaf = is_ok (st.append s.store t' e' leaf).0

  commit-after :
      (clock : Clock) (headers : Headers) (req : CommitRequest) (s : AppState S)
      → (handle_commit c st clock headers req s).1 ≡ (
          let leaf = root_or (Merkle.new c req.packet_hashes) in
          let half = after_append s req.tenant_id req.exam_id leaf in
          if is_ok (check_api_key s.api_key headers)
            && is_ok (valid_space c req.tenant_id req.exam_id)
            && is_ok (Merkle.new c req.packet_hashes)
          then (if stored s req.tenant_id req.exam_id leaf
              then record half {
                anchors = half.anchors ++ (local_anchor c clock AnchorType.pre_exam leaf ∷ []);
              }
              else half)
          else s)
  unfolding handle_commit
  commit-after clock headers req s = ground arith

  commit-Acts :
      (clock : Clock) (headers : Headers) (req : CommitRequest) (s : AppState S)
      → Acts c st id s (handle_commit c st clock headers req s).1
  commit-Acts clock headers req s =
      let leaf = root_or (Merkle.new c req.packet_hashes) in
      let half = after_append s req.tenant_id req.exam_id leaf in
      rw (commit-after clock headers req s) (
        appended-Acts s _ half _ _ req.tenant_id req.exam_id leaf (λ h. ground (arith, h)) refl
          (Act.push_anchor (local_anchor c clock AnchorType.pre_exam leaf)))

  key_commit-after :
      (clock : Clock) (headers : Headers) (req : KeyCommitRequest) (s : AppState S)
      → (handle_key_commit c st clock headers req s).1 ≡ (
          let leaf = req.answer_key_hash in
          let half = after_append s req.tenant_id req.exam_id leaf in
          if is_ok (check_api_key s.api_key headers)
            && is_ok (valid_space c req.tenant_id req.exam_id)
          then (if stored s req.tenant_id req.exam_id leaf
              then record half {
                anchors = half.anchors ++ (local_anchor c clock AnchorType.answer_key leaf ∷ []);
              }
              else half)
          else s)
  unfolding handle_key_commit
  key_commit-after clock headers req s = ground arith

  key_commit-Acts :
      (clock : Clock) (headers : Headers) (req : KeyCommitRequest) (s : AppState S)
      → Acts c st id s (handle_key_commit c st clock headers req s).1
  key_commit-Acts clock headers req s =
      let leaf = req.answer_key_hash in
      let half = after_append s req.tenant_id req.exam_id leaf in
      rw (key_commit-after clock headers req s) (
        appended-Acts s _ half _ _ req.tenant_id req.exam_id leaf (λ h. ground (arith, h)) refl
          (Act.push_anchor (local_anchor c clock AnchorType.answer_key leaf)))

  ingest-after :
      (clock : Clock) (headers : Headers) (req : IngestRequest) (s : AppState S)
      → (handle_ingest c st clock headers req s).1 ≡ (
          let leaf = req.merkle_leaf in
          let half = after_append s req.tenant_id req.exam_id leaf in
          if is_ok (check_api_key s.api_key headers)
            && is_ok (valid_space c req.tenant_id req.exam_id)
            && is_ok (validate_identifier c "receipt_id" req.receipt_id)
            && is_ok (within_window clock s)
          then (if stored s req.tenant_id req.exam_id leaf
              then record half {
                receipt_index =
                    insert req.receipt_id
                      (unwrap_or (st.append s.store req.tenant_id req.exam_id leaf).0 0)
                      half.receipt_index;
              }
              else half)
          else s)
  unfolding handle_ingest
  ingest-after clock headers req s = ground arith

  ingest-Acts :
      (clock : Clock) (headers : Headers) (req : IngestRequest) (s : AppState S)
      → req.receipt_id ≢ id
      → Acts c st id s (handle_ingest c st clock headers req s).1
  ingest-Acts clock headers req s other =
      let leaf = req.merkle_leaf in
      let half = after_append s req.tenant_id req.exam_id leaf in
      rw (ingest-after clock headers req s) (
        appended-Acts s _ half _ _ req.tenant_id req.exam_id leaf (λ h. ground (arith, h)) refl
          (Act.list req.receipt_id
            (unwrap_or (st.append s.store req.tenant_id req.exam_id leaf).0 0) other))

  worker-Acts :
      (s : AppState S) (t' e' : Bytes) (built : Result Bytes)
      → Acts c st id s (record s {
        store = elim built [ ok root ↦ (st.set_root s.store t' e' root).1 | _ ↦ s.store ];
      })
  worker-Acts s t' e' (ok root) = only (Act.set_root t' e' root)
  worker-Acts s t' e' (err _) = Acts.done
  worker-Acts s t' e' panic = Acts.done
  worker-Acts s t' e' unfinished = Acts.done

  load-after :
      (headers : Headers) (req : LoadPacketsRequest) (s : AppState S)
      → (handle_load_packets headers req s).1 ≡ (
          if is_ok (check_api_key s.api_key headers)
          then record s {
            packets = insert req.key (req.encrypted_packet, req.key_envelope) s.packets;
          }
          else s)
  unfolding handle_load_packets
  load-after headers req s = ground arith

  load-Acts :
      (headers : Headers) (req : LoadPacketsRequest) (s : AppState S)
      → Acts c st id s (handle_load_packets headers req s).1
  load-Acts headers req s =
      rw (load-after headers req s) (elim (Bool-cases (is_ok (check_api_key s.api_key headers))) [
        | inl known ↦ rw known (only (Act.load req.key (req.encrypted_packet, req.key_envelope)))
        | inr unknown ↦ rw unknown Acts.done
      ])

  -- What one handler or one round of a worker does in one step is done by actions too.
  Step-Acts : {s u : AppState S} → Step c st id s u → Acts c st id s u
  unfolding run_once
  Step-Acts {s} (Step.commit clock headers req) = commit-Acts clock headers req s
  Step-Acts {s} (Step.key_commit clock headers req) = key_commit-Acts clock headers req s
  Step-Acts {s} (Step.ingest clock headers req other) = ingest-Acts clock headers req s other
  Step-Acts {s} (Step.load headers req) = load-Acts headers req s
  Step-Acts {s} (Step.worker t' e') = worker-Acts s t' e' (build_root c st s.store t' e')

  -- Every run of the ledger in which no handler and no round of a worker is interrupted is a run of
  -- actions.
  pub Steps-Acts : {s u : AppState S} → Steps c st id s u → Acts c st id s u
  Steps-Acts Steps.done = Acts.done
  Steps-Acts (Steps.next a rest) = Acts-append (Step-Acts a) (Steps-Acts rest)

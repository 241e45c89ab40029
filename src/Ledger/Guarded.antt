-- ===== src/Ledger/Guarded.antt =====
-- The API key, the exam window, and the loaded packets (oetp-ledger/src/api.rs).
use oetp.Prelude.{arith, ◌<◌, ◌≡◌, refl, ◌⊎◌, inl, inr, le-cases, beq_refl, lookup-insert}
use oetp.Result.{ok, err}
use oetp.Crates.{Crates}
use oetp.Clock.{Clock, current_timestamp_secs}
use oetp.Validation.{validate_identifier}
use oetp.Platform.{Store}
use oetp.Api.{Headers, check_api_key, unauthorized, forbidden}
use oetp.Ledger.Requests.{
  AppState, IngestRequest, CommitRequest, KeyCommitRequest, LoadPacketsRequest, FetchPacketRequest,
  packet_map_key,
}
use oetp.Ledger.Api.{
  handle_ingest, handle_commit, handle_key_commit, handle_load_packets, handle_fetch_packet,
}

module _ (c : Crates) {S : Type 0} (st : Store S) where
  -- A request whose API key is not the ledger's is refused with 401 by each of the five handlers that
  -- ask for it, and the state stays as it is.
  pub handlers-unauthorized :
      (clock : Clock) (headers : Headers) (s : AppState S) (commit : CommitRequest)
      (ingest : IngestRequest) (key : KeyCommitRequest) (fetch : FetchPacketRequest)
      (load : LoadPacketsRequest)
      → check_api_key s.api_key headers ≡ err unauthorized
      → (handle_commit c st clock headers commit s ≡ (err unauthorized, s))
        × (handle_ingest c st clock headers ingest s ≡ (err unauthorized, s))
        × (handle_key_commit c st clock headers key s ≡ (err unauthorized, s))
        × (handle_fetch_packet c st headers fetch s ≡ (err unauthorized, s))
        × (handle_load_packets headers load s ≡ (err unauthorized, s))
  unfolding handle_commit handle_ingest handle_key_commit handle_fetch_packet handle_load_packets
  handlers-unauthorized clock headers s commit ingest key fetch load h =
      (rw h refl, rw h refl, rw h refl, rw h refl, rw h refl)

  -- With the ledger's API key and three valid names, an ingest before the exam's window or after it is
  -- refused with 403 and its message, and the state stays as it is.
  pub ingest-window :
      (clock : Clock) (headers : Headers) (req : IngestRequest) (s : AppState S)
      → check_api_key s.api_key headers ≡ ok tt
      → validate_identifier c "tenant_id" req.tenant_id ≡ ok tt
      → validate_identifier c "exam_id" req.exam_id ≡ ok tt
      → validate_identifier c "receipt_id" req.receipt_id ≡ ok tt
      → (current_timestamp_secs clock < s.exam_window_start)
        ⊎ (s.exam_window_end < current_timestamp_secs clock)
      → (handle_ingest c st clock headers req s ≡ (err (forbidden "exam has not started yet"), s))
        ⊎ (handle_ingest c st clock headers req s ≡ (err (forbidden "exam window has ended"), s))
  unfolding handle_ingest
  ingest-window clock headers req s key tenant exam receipt outside =
      rw (key, tenant, exam, receipt)
        (elim (le-cases s.exam_window_start (current_timestamp_secs clock)) [
          | inl begun ↦ inr (ground arith)
          | inr early ↦ inl (ground arith)
        ])

  -- A packet that is loaded under the key `tenant:exam:student` is the one that is fetched for this
  -- tenant, exam and student, with valid names and the ledger's API key.
  pub load-fetch :
      (headers : Headers) (load : LoadPacketsRequest) (fetch : FetchPacketRequest) (s : AppState S)
      → check_api_key s.api_key headers ≡ ok tt
      → validate_identifier c "tenant_id" fetch.tenant_id ≡ ok tt
      → validate_identifier c "exam_id" fetch.exam_id ≡ ok tt
      → load.key ≡ packet_map_key c fetch
      → (handle_fetch_packet c st headers fetch (handle_load_packets headers load s).1).0
        ≡ ok (load.encrypted_packet, load.key_envelope)
  unfolding handle_fetch_packet handle_load_packets
  load-fetch headers load fetch s key tenant exam same =
      rw key (rw key (rw tenant (rw exam (rw lookup-insert (rw same (rw beq_refl refl))))))

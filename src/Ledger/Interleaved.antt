-- ===== src/Ledger/Interleaved.antt =====
-- oetp-ledger/src/api.rs and merkle_worker.rs with the tasks interleaved: what a handler or a worker does
-- to the shared state between two of its awaits is one action. An ingest appends its leaf, and lists its
-- receipt after the store has answered.
pub mod Listed
pub mod Whole
mod Tests
use oetp.Prelude.{
  ℕ, ◌+◌, ◌-◌, ◌/◌, ◌%◌, ◌≡◌, ap, ◌≢◌, not, List, [], ◌∷◌, ◌++◌, arith, any, Bytes, insert,
}
use oetp.Result.{ok, err, panic, unfinished}
use oetp.Crates.{Crates}
use oetp.Clock.{Clock}
use oetp.Validation.{validate_identifier}
use oetp.Packet.{EncryptedPacket}
use oetp.Envelope.{KeyEnvelope}
use oetp.Platform.{Store, Anchor}
use oetp.Api.{ApiResult, Headers, checked, check_api_key}
use oetp.Handler.{Handler, ◌>>=◌, ◌>>◌, lift, reads, modify}
use oetp.Ledger.Requests.{AppState, IngestRequest, IngestResponse, within_window, valid_space}
use oetp.Ledger.Api.{authorized, append_leaf, handle_ingest}

module _ (c : Crates) {S : Type 0} (st : Store S) where
  -- `handle_ingest` up to the answer of the store, with the leaf's index.
  unfoldable pub ingest_begin : Clock → Headers → IngestRequest → Handler (AppState S) ℕ
  ingest_begin clock headers req = do
    authorized headers
    lift (valid_space c req.tenant_id req.exam_id)
    lift (checked (validate_identifier c "receipt_id" req.receipt_id))
    reads (within_window clock)
    append_leaf c st req.tenant_id req.exam_id req.merkle_leaf

module _ {S : Type 0} where
  -- The rest of `handle_ingest`.
  unfoldable pub ingest_finish : IngestRequest → ℕ → Handler (AppState S) IngestResponse
  ingest_finish req leaf_index = do
    modify (λ s. record s { receipt_index = insert req.receipt_id leaf_index s.receipt_index })
    lift (ok (record { leaf_index = leaf_index; status = "ingested" }))

module _ (c : Crates) {S : Type 0} (st : Store S) where
  -- With nothing in between the two parts are the handler.
  pub handle_ingest-parts :
      (clock : Clock) (headers : Headers) (req : IngestRequest) (s : AppState S)
      → handle_ingest c st clock headers req s
        ≡ (ingest_begin c st clock headers req >>= ingest_finish req) s
  unfolding handle_ingest ingest_begin ingest_finish
  handle_ingest-parts clock headers req s = ground arith

  -- An action on the shared state, of any task but one that lists the receipt `id`: a leaf is appended
  -- under a tenant whose name was checked, an anchor is pushed, another receipt is listed, a packet is
  -- loaded, or a root that a worker built, at whatever time, is stored.
  pub data Act (id : Bytes) : AppState S → AppState S → Type 0 where
    append :
        {s : AppState S} (t' e' leaf : Bytes)
        → validate_identifier c "tenant_id" t' ≡ ok tt
        → Act id s (record s { store = (st.append s.store t' e' leaf).1 })
    push_anchor :
        {s : AppState S} (a : Anchor) → Act id s (record s { anchors = s.anchors ++ (a ∷ []) })
    list :
        {s : AppState S} (other : Bytes) (i : ℕ)
        → other ≢ id
        → Act id s (record s { receipt_index = insert other i s.receipt_index })
    load :
        {s : AppState S} (key : Bytes) (packet : EncryptedPacket × KeyEnvelope)
        → Act id s (record s { packets = insert key packet s.packets })
    set_root :
        {s : AppState S} (t' e' root : Bytes)
        → Act id s (record s { store = (st.set_root s.store t' e' root).1 })

  pub data Acts (id : Bytes) : AppState S → AppState S → Type 0 where
    done : {s : AppState S} → Acts id s s
    next : {s u w : AppState S} → Act id s u → Acts id u w → Acts id s w

-- ===== src/Ledger/Api.antt =====
-- oetp-ledger/src/api.rs: the handlers that change the ledger's state, and the two that only look a
-- value up. Each is a function of the clock, the headers, the request and the state. Logging is left out.
use oetp.Prelude.{ℕ, String, List, [], ◌∷◌, ◌++◌, Bytes, lookup, insert}
use oetp.Result.{ok, ok_or}
use oetp.Crates.{Crates}
use oetp.Clock.{Clock}
use oetp.Validation.{validate_identifier}
use oetp.Merkle
use oetp.Packet.{EncryptedPacket}
use oetp.Envelope.{KeyEnvelope}
use oetp.Platform.{AnchorType, Anchor, Store}
use oetp.Api.{
  ApiResult, SystemClockResponse, system_set_clock, not_found, internal, checked, Headers,
  check_api_key,
}
use oetp.Handler.{Handler, ◌>>=◌, ◌>>◌, lift, reads, modify}
use oetp.Ledger.Requests.{
  AppState, CommitRequest, CommitResponse, IngestRequest, IngestResponse, KeyCommitRequest,
  FetchPacketRequest, LoadPacketsRequest, AnchorsRequest, within_window, valid_space, local_anchor,
  packet_map_key,
}

module _ {S : Type 0} where
  -- The header's key against the state's.
  abbrev pub authorized : Headers → Handler (AppState S) (Unit {0})
  authorized headers = reads (λ s. check_api_key s.api_key headers)

module _ (c : Crates) {S : Type 0} (st : Store S) where
  -- `state.store.append(...).await.map_err(...)?`
  abbrev pub append_leaf : Bytes → Bytes → Bytes → Handler (AppState S) ℕ
  append_leaf tenant_id exam_id leaf s =
      let (reply, store) = st.append s.store tenant_id exam_id leaf in
      (internal reply, record s { store = store })

  abbrev pub push_anchor : Anchor → Handler (AppState S) (Unit {0})
  push_anchor a = modify (λ s. record s { anchors = s.anchors ++ (a ∷ []) })

  unfoldable pub handle_commit :
      Clock → Headers → CommitRequest → Handler (AppState S) CommitResponse
  unfolding local_anchor
  handle_commit clock headers req = do
    authorized headers
    lift (valid_space c req.tenant_id req.exam_id)
    tree ← lift (checked (Merkle.new c req.packet_hashes))
    let a = local_anchor c clock AnchorType.pre_exam tree.root
    _ ← append_leaf req.tenant_id req.exam_id tree.root
    push_anchor a
    lift (ok (record { merkle_root = tree.root; anchor = a }))

  unfoldable pub handle_ingest :
      Clock → Headers → IngestRequest → Handler (AppState S) IngestResponse
  handle_ingest clock headers req = do
    authorized headers
    lift (valid_space c req.tenant_id req.exam_id)
    lift (checked (validate_identifier c "receipt_id" req.receipt_id))
    reads (within_window clock)
    leaf_index ← append_leaf req.tenant_id req.exam_id req.merkle_leaf
    modify (λ s. record s { receipt_index = insert req.receipt_id leaf_index s.receipt_index })
    lift (ok (record { leaf_index = leaf_index; status = "ingested" }))

  unfoldable pub handle_key_commit :
      Clock → Headers → KeyCommitRequest → Handler (AppState S) Anchor
  unfolding local_anchor
  handle_key_commit clock headers req = do
    authorized headers
    lift (valid_space c req.tenant_id req.exam_id)
    let a = local_anchor c clock AnchorType.answer_key req.answer_key_hash
    _ ← append_leaf req.tenant_id req.exam_id req.answer_key_hash
    push_anchor a
    lift (ok a)

  unfoldable pub handle_fetch_packet :
      Headers → FetchPacketRequest → Handler (AppState S) (EncryptedPacket × KeyEnvelope)
  handle_fetch_packet headers req = do
    authorized headers
    lift (valid_space c req.tenant_id req.exam_id)
    reads (λ s. ok_or (lookup (packet_map_key c req) s.packets) (not_found "packet not found"))

  -- Every anchor, whatever the request names.
  unfoldable pub handle_anchors : AnchorsRequest → Handler (AppState S) (List Anchor)
  handle_anchors req = do lift (valid_space c req.tenant_id req.exam_id); reads (λ s. ok s.anchors)

module _ {S : Type 0} where
  unfoldable pub handle_load_packets : Headers → LoadPacketsRequest → Handler (AppState S) String
  handle_load_packets headers req = do
    authorized headers
    modify (λ s. record s {
      packets = insert req.key (req.encrypted_packet, req.key_envelope) s.packets;
    })
    lift (ok "loaded")

  unfoldable pub handle_system_set_clock :
      AppState S → Clock → Headers → ℕ → ApiResult SystemClockResponse × Clock
  unfolding system_set_clock
  handle_system_set_clock state clock headers timestamp =
      system_set_clock state.api_key clock headers timestamp

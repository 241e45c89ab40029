-- ===== src/Ledger/Load/Tests.antt =====
-- A packet that is generated for a student, loaded into a ledger and fetched from it.
use oetp.Prelude.{◌≡◌, refl, some, [], ◌∷◌}
use oetp.Result.{ok}
use oetp.Crates.Toy.{toy}
use oetp.QuestionBank.Tests.{tenths, first_ones, bank}
use oetp.Validation.{validate_identifier}
use oetp.Ledger.MemStore
use oetp.Ledger.MemStore.{mem_store}
use oetp.Ledger.Config.{LedgerConfig, build_app_state}
use oetp.Ledger.Requests.{LoadPacketsRequest}
use oetp.Ledger.Api.{handle_load_packets, handle_fetch_packet}
use oetp.Ledger.Generator.Toy.{
  packet_codec, packet_codec-CodecLaw, envelope_codec, envelope_codec-CodecLaw,
}
use oetp.Ledger.Generator.Tests.{
  formats, cfg, ratio, drawn, generated, nothing, g, ok-unwrap_or, succeeded,
}
use oetp.Ledger.Load.Loaded.{load_files, generate_student-load-fetch}

abbrev ledger : LedgerConfig
ledger = record {
  listen_addr = [];
  db_path = [];
  tenant_id = b't' ∷ [];
  exam_id = b'e' ∷ [];
  signing_key_hex = [];
  anchor_rpc_url = [];
  api_key = b'k' ∷ [];
}

tenant_ok : validate_identifier toy "tenant_id" (b't' ∷ []) ≡ ok tt
unfolding validate_identifier
tenant_ok = refl

exam_ok : validate_identifier toy "exam_id" (b'e' ∷ []) ≡ ok tt
unfolding validate_identifier
exam_ok = refl

generate_student-load-fetch_example :
    (load : LoadPacketsRequest) × (load_files toy packet_codec envelope_codec
        (λ x. some x)
        ledger
        g.files
      ≡ load ∷ [])
    × ((handle_fetch_packet toy mem_store
          (some (b'k' ∷ []))
          (record { tenant_id = b't' ∷ []; exam_id = b'e' ∷ []; student_uuid = 1 ∷ [] })
          (handle_load_packets
            (some (b'k' ∷ []))
            load
            (build_app_state MemStore.new [] (b'k' ∷ []) 0 9)).1).0
        ≡ ok (g.encrypted, g.envelope))
unfolding build_app_state
generate_student-load-fetch_example =
    generate_student-load-fetch toy formats tenths first_ones (λ seed. 0) cfg bank ratio (9 ∷ [])
      drawn (1 ∷ []) (b'd' ∷ []) packet_codec-CodecLaw envelope_codec-CodecLaw (λ x. some x) refl
      (ok-unwrap_or generated nothing succeeded) ledger mem_store
      (build_app_state MemStore.new [] (b'k' ∷ []) 0 9) refl refl refl tenant_ok exam_ok

-- ===== src/Ledger/Checked/Tests.antt =====
-- A verification that succeeds, of a submission in the log.
use oetp.Prelude.{
  ℕ, String, ◌≡◌, refl, sym, ◌∙◌, true, ◌&&◌, none, some, [], ◌∷◌, arith, leb, length, get_elem?,
  beq, beq_refl, lookup,
}
use oetp.Result.{ok-injective, ok}
use oetp.Crates.Toy.{toy}
use oetp.Clock.{Clock}
use oetp.Validation.{validate_identifier}
use oetp.Ledger.MemStore
use oetp.Ledger.MemStore.{MemStore, mem_store, mem_store-StoreLaw}
use oetp.Ledger.Requests.{AppState, VerifyRequest, VerifyResponse}
use oetp.Ledger.Queries.{handle_verify}
use oetp.Ledger.Checked.{Passed, Checked, handle_verify-Checked, handle_verify-finds}
use oetp.Ledger.HandlerTests.{t, e, leaf, state}

valid_name :
    (name : String) (b : ℕ)
    → leb b'a' b && leb b b'z' ≡ true
    → validate_identifier toy name (b ∷ []) ≡ ok tt
unfolding validate_identifier
valid_name name b h = ground arith

abbrev late : Clock
late = record { clock_override = some 11; system = 0 }

abbrev verify_request : VerifyRequest
verify_request = record {
  tenant_id = t;
  exam_id = e;
  student_uuid = 1 ∷ [];
  packet_hash = 2 ∷ [];
  answers_hash = 3 ∷ [];
  timestamp = 4;
  merkle_leaf = leaf;
  edge_signature = 7 ∷ 6 ∷ leaf;
  edge_public_key = 6 ∷ [];
}

abbrev checked_state : AppState MemStore
checked_state = state (leaf ∷ [])

log_has : get_elem? (mem_store-StoreLaw.log checked_state.store t e) 0 ≡ some leaf
unfolding MemStore.get MemStore.ns lookup beq
log_has = ok-injective (sym (mem_store-StoreLaw.get_lem checked_state.store t e 0) ∙ refl)

log_size : length (mem_store-StoreLaw.log checked_state.store t e) ≡ 1
unfolding MemStore.count MemStore.ns lookup beq
log_size = ok-injective (sym (mem_store-StoreLaw.count_lem checked_state.store t e) ∙ refl)

request_Passed : Passed toy verify_request
request_Passed = record {
  leaf = refl;
  key = 6 ∷ [];
  key_parsed = refl;
  sig = 7 ∷ 6 ∷ leaf;
  sig_parsed = refl;
  signed = beq_refl (7 ∷ 6 ∷ leaf);
}

no_root : MemStore.latest_root checked_state.store t e ≡ ok none
unfolding MemStore.latest_root lookup
no_root = refl

handle_verify-finds_example :
    (r : VerifyResponse) × (handle_verify toy mem_store verify_request checked_state ≡ ok r)
    × (r.valid ≡ true)
handle_verify-finds_example =
    handle_verify-finds toy mem_store mem_store-StoreLaw verify_request checked_state 0 none
      (valid_name "tenant_id" b't' refl) (valid_name "exam_id" b'e' refl) request_Passed log_has
      (omega (arith, log_size)) no_root

-- The reply of that run.
abbrev found :
    (r : VerifyResponse) × (handle_verify toy mem_store verify_request checked_state ≡ ok r)
    × (r.valid ≡ true)
found =
    handle_verify-finds toy mem_store mem_store-StoreLaw verify_request checked_state 0 none
      (valid_name "tenant_id" b't' refl) (valid_name "exam_id" b'e' refl) request_Passed log_has
      (omega (arith, log_size)) no_root

handle_verify-Checked_example :
    Checked toy mem_store mem_store-StoreLaw verify_request checked_state found.0
handle_verify-Checked_example =
    handle_verify-Checked toy mem_store mem_store-StoreLaw verify_request checked_state found.1
      found.2

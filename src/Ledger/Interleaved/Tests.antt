-- ===== src/Ledger/Interleaved/Tests.antt =====
-- An ingest with other tasks in between, over the store in memory.
use oetp.Prelude.{◌≡◌, refl, sym, ◌∙◌, [], ◌∷◌, arith, length, beq, lookup, insert}
use oetp.Result.{ok, ok-injective}
use oetp.Crates.Toy.{toy, toy-PatternLaw}
use oetp.Clock.{current_timestamp_secs}
use oetp.Validation.{validate_identifier}
use oetp.Api.{check_api_key}
use oetp.Ledger.MemStore
use oetp.Ledger.MemStore.{MemStore, mem_store, mem_store-StoreLaw}
use oetp.Ledger.Requests.{AppState}
use oetp.Ledger.Served.{Served}
use oetp.Ledger.Interleaved.{Act, Acts, ingest_begin, ingest_finish}
use oetp.Ledger.Interleaved.Listed.{proof_of, begin-finish-proof}
use oetp.Ledger.HandlerTests.{
  t, e, clock, headers, leaf, state, ingest_request, three_HasSiblings, seven_length,
}

abbrev start : AppState MemStore
start = state ((7 ∷ []) ∷ [])

abbrev begun : AppState MemStore
begun = (ingest_begin toy mem_store clock headers ingest_request start).1

accepted : (ingest_begin toy mem_store clock headers ingest_request start).0 ≡ ok 1
unfolding ingest_begin check_api_key validate_identifier current_timestamp_secs MemStore.append
    MemStore.ns lookup beq
accepted = refl

-- Another leaf comes in between, and a root is stored at the end.
abbrev between : AppState MemStore
between = record begun { store = (mem_store.append begun.store t e (8 ∷ [])).1 }

abbrev listed : AppState MemStore
listed = (ingest_finish ingest_request 1 between).1

abbrev last : AppState MemStore
last = record listed { store = (mem_store.set_root listed.store t e (6 ∷ [])).1 }

tenant_ok : validate_identifier toy "tenant_id" t ≡ ok tt
unfolding validate_identifier
tenant_ok = refl

last_length : length (mem_store-StoreLaw.log last.store t e) ≡ 3
unfolding ingest_begin ingest_finish check_api_key validate_identifier current_timestamp_secs
    MemStore.append MemStore.ns MemStore.count MemStore.set_root lookup insert beq
last_length = ok-injective (sym (mem_store-StoreLaw.count_lem last.store t e) ∙ refl)

begin-finish-proof_example :
    Served toy mem_store mem_store-StoreLaw
      (proof_of toy toy-PatternLaw mem_store mem_store-StoreLaw clock headers ingest_request start
        accepted)
      last
      1
      leaf
begin-finish-proof_example =
    begin-finish-proof toy toy-PatternLaw mem_store mem_store-StoreLaw clock headers ingest_request
      start accepted between last (sym seven_length)
      (Acts.next (Act.append t e (8 ∷ []) tenant_ok) Acts.done)
      (Acts.next (Act.set_root t e (6 ∷ [])) Acts.done) (omega (arith, last_length))
      (rw last_length three_HasSiblings)

-- ===== src/Ledger/Collided/Tests.antt =====
-- Two submissions of two tenants under one receipt id, at concrete requests.
use oetp.Prelude.{
  zero, suc, ◌≡◌, refl, sym, ◌∙◌, some, [], ◌∷◌, ◌++◌, arith, get_elem?, beq, two_pow_suc,
  two_pow_pos, lookup, insert,
}
use oetp.Result.{ok-injective, ok}
use oetp.Crates.Toy.{toy, toy-PatternLaw}
use oetp.Clock.{current_timestamp_secs}
use oetp.Validation.{validate_identifier}
use oetp.Merkle.{sibling_index}
use oetp.Merkle.Inclusion.{HasSiblings}
use oetp.Api.{check_api_key}
use oetp.Ledger.MemStore
use oetp.Ledger.MemStore.{MemStore, mem_store, mem_store-StoreLaw}
use oetp.Ledger.Requests.{IngestRequest, IngestResponse}
use oetp.Ledger.Api.{handle_ingest}
use oetp.Ledger.Served.{Served}
use oetp.Ledger.Stable.{get_elem?-append_left}
use oetp.Ledger.Collided.{proof_of_first, ingest-ingest-proof}
use oetp.Ledger.HandlerTests.{
  seven_length, t, e, clock, headers, leaf, state, ingest_request, ingested, accepted,
}

abbrev other_request : IngestRequest
other_request = record ingest_request { tenant_id = b'u' ∷ [] }

abbrev other_response : IngestResponse
other_response = record { leaf_index = 0; status = "ingested" }

other_accepted :
    (handle_ingest toy mem_store clock headers other_request ingested).0 ≡ ok other_response
unfolding handle_ingest check_api_key validate_identifier current_timestamp_secs MemStore.append
    MemStore.ns lookup insert beq
other_accepted = refl

seven_there :
    get_elem? (mem_store-StoreLaw.log (state ((7 ∷ []) ∷ [])).store t e ++ (leaf ∷ [])) 0
    ≡ some (7 ∷ [])
unfolding MemStore.ns MemStore.get lookup beq
seven_there =
    get_elem?-append_left (mem_store-StoreLaw.log (state ((7 ∷ []) ∷ [])).store t e) (leaf ∷ []) 0
      (ok-injective (sym (mem_store-StoreLaw.get_lem (state ((7 ∷ []) ∷ [])).store t e 0) ∙ refl))

two_HasSiblings : HasSiblings 2 0
unfolding sibling_index
two_HasSiblings zero h = omega arith
two_HasSiblings (suc k) h = absurd (omega (arith, two_pow_suc k, two_pow_pos k))

ingest-ingest-proof_example :
    Served toy mem_store mem_store-StoreLaw
      (proof_of_first toy toy-PatternLaw mem_store mem_store-StoreLaw clock clock headers headers
        ingest_request other_request
        (state ((7 ∷ []) ∷ []))
        accepted
        other_accepted)
      (handle_ingest toy mem_store clock headers other_request ingested).1
      0
      (7 ∷ [])
ingest-ingest-proof_example =
    ingest-ingest-proof toy toy-PatternLaw mem_store mem_store-StoreLaw clock clock headers headers
      ingest_request other_request (state ((7 ∷ []) ∷ [])) accepted other_accepted refl
      (λ same. ground (arith, same.0)) seven_there (omega (arith, seven_length))
      (rw seven_length two_HasSiblings)

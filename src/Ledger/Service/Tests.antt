-- ===== src/Ledger/Service/Tests.antt =====
-- A request to the ledger that has no API key.
use oetp.Prelude.{◌≡◌, refl, true, none, some, [], ◌∷◌, utf8, beq}
use oetp.Result.{err}
use oetp.Crates.Toy.{toy}
use oetp.Api.{check_api_key, unauthorized}
use oetp.Http.{Method, HttpRequest}
use oetp.Http.Toy.{toy_router}
use oetp.Ledger.MemStore.{MemStore, mem_store}
use oetp.Ledger.HandlerTests.{state, ingest_request}
use oetp.Ledger.Service.{Bodies, World, serve}
use oetp.Ledger.Service.Guarded.{shows_public, serve-keyless}

abbrev bodies : Bodies
bodies = record {
  commit_request = λ b. none;
  ingest_request = λ b. some ingest_request;
  proof_request = λ b. none;
  key_request = λ b. none;
  fetch_request = λ b. none;
  verify_request = λ b. none;
  anchors_request = λ b. none;
  load_request_of = λ b. none;
  timestamp = λ b. none;
}

abbrev world : World MemStore
world = record { state = state ((7 ∷ []) ∷ []); clock_override = some 5 }

abbrev keyless : HttpRequest
keyless = record {
  method = Method.post;
  path = utf8 "/v1/ledger/ingest";
  headers = none;
  body = [];
}

refused : check_api_key world.state.api_key none ≡ err unauthorized
unfolding check_api_key beq
refused = refl

serve-keyless_example :
    ((serve toy mem_store bodies toy_router 0 keyless world).1 ≡ world)
    × (shows_public (serve toy mem_store bodies toy_router 0 keyless world).0 ≡ true)
serve-keyless_example = serve-keyless toy mem_store bodies toy_router 0 keyless world refused

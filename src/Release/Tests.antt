-- ===== src/Release/Tests.antt =====
-- The theorems on release tokens at concrete tokens.
use oetp.Prelude.{◌≡◌, refl, ◌↔◌, [], ◌∷◌, ◌++◌, arith, Bytes, beq_refl}
use oetp.Result.{ok}
use oetp.Crates.Toy.{toy}
use oetp.Release.{ReleaseToken, payload_bytes, verify}
use oetp.Release.Window.{IsAccepted, verify_iff, verify-moved_names}

abbrev key : Bytes
key = 1 ∷ 2 ∷ []

abbrev unsigned : Bytes → Bytes → ReleaseToken
unsigned center exam = record {
  center_id = center;
  exam_id = exam;
  device_id = 9 ∷ [];
  window_start = 100;
  window_end = 400;
  nonce = 5 ∷ [];
  signature = [];
}

abbrev token : ReleaseToken
token = record (unsigned (1 ∷ []) (2 ∷ 3 ∷ [])) {
  signature = 7 ∷ (key ++ payload_bytes (unsigned (1 ∷ []) (2 ∷ 3 ∷ [])));
}

-- One byte of the exam's name is now the centre's.
abbrev moved : ReleaseToken
moved = record token { center_id = 1 ∷ 2 ∷ []; exam_id = 3 ∷ [] }

token-IsAccepted : IsAccepted toy token key 250
unfolding payload_bytes
token-IsAccepted = record {
  center = omega arith;
  exam = omega arith;
  device = omega arith;
  ordered = omega arith;
  short = omega arith;
  begun = omega arith;
  not_over = omega arith;
  sig = token.signature;
  parsed = refl;
  signed = beq_refl token.signature;
}

verify_iff_example : (verify toy token key 250 ≡ ok tt) ↔ IsAccepted toy token key 250
verify_iff_example = verify_iff toy token key 250

verify-moved_names_example :
    (verify toy moved key 250 ≡ verify toy token key 250)
    × ((verify toy moved key 250 ≡ ok tt) ↔ IsAccepted toy token key 250)
verify-moved_names_example =
    verify-moved_names toy token moved key 250 refl (omega arith) (omega arith) (omega arith)
      (omega arith) (omega arith) (omega arith) refl refl refl refl

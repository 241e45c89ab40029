-- ===== src/Validation/Tests.antt =====
-- Runs of the validation rules, and their theorems at concrete inputs.
use oetp.Prelude.{◌≡◌, refl, [], ◌∷◌, Bytes}
use oetp.Result.{invalid_input, err}
use oetp.Crates.Toy.{toy}
use oetp.Validation.{validate_identifier}

abbrev name_1 : Bytes
name_1 = 97 ∷ 45 ∷ 49 ∷ []

colon_refused :
    validate_identifier toy "exam_id" (b':' ∷ [])
    ≡ err (invalid_input "exam_id contains invalid characters (allowed: A-Z a-z 0-9 _ -)")
unfolding validate_identifier
colon_refused = refl

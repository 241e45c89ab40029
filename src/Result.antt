-- ===== src/Result.antt =====
-- oetp-core/src/error.rs: the errors shared by every part, and `Result`.
-- A message is the text that the source writes; a message that a library produces is a parameter.
use Prim.Native.String.{◌++◌ as ◌<>◌}
use oetp.Prelude.{String, ◌≡◌, refl, ◌⊎◌, inl, inr, ◌≢◌, Bool, true, false, Option, none, some}

pub data Error : Type 0 where
  crypto invalid_input storage : String → Error
  signature_verification : Error
  tenant_not_found exam_not_found : String → Error
  packet_decryption : Error
  release_token_invalid memory serialization anchor offline_queue io : String → Error

-- `to_string`, as `thiserror` derives it from the `#[error]` attributes.
unfoldable pub to_string : Error → String
to_string (crypto m) = ◌<>◌ "cryptographic operation failed: " m
to_string (invalid_input m) = ◌<>◌ "invalid input: " m
to_string (storage m) = ◌<>◌ "storage error: " m
to_string signature_verification = "signature verification failed"
to_string (tenant_not_found m) = ◌<>◌ "tenant not found: " m
to_string (exam_not_found m) = ◌<>◌ "exam not found: " m
to_string packet_decryption = "packet decryption failed"
to_string (release_token_invalid m) = ◌<>◌ "release token invalid: " m
to_string (memory m) = ◌<>◌ "memory operation failed: " m
to_string (serialization m) = ◌<>◌ "serialization error: " m
to_string (anchor m) = ◌<>◌ "anchor error: " m
to_string (offline_queue m) = ◌<>◌ "offline queue error: " m
to_string (io m) = ◌<>◌ "io error: " m

-- Rust's `Result<A, E>`, with `panic` for a Rust panic and `unfinished` for a loop of the model that
-- ran out of fuel.
pub data Fallible (E A : Type 0) : Type 0 where
  ok : A → Fallible E A
  err : E → Fallible E A
  panic : Fallible E A
  unfinished : Fallible E A

-- `oetp_core::error::Result`
abbrev pub Result : Type 0 → Type 0
Result A = Fallible Error A

module _ {E A B : Type 0} where
  infixl 5 ◌>>=◌
  abbrev pub ◌>>=◌ : Fallible E A → (A → Fallible E B) → Fallible E B
  ok a >>= f = f a
  err e >>= f = err e
  panic >>= f = panic
  unfinished >>= f = unfinished

module _ {E B : Type 0} where
  infixl 5 ◌>>◌
  abbrev pub ◌>>◌ : Fallible E (Unit {0}) → Fallible E B → Fallible E B
  m >> k = m >>= λ _. k

module _ {E : Type 0} where
  -- `if bad { return Err(e); }`
  abbrev pub reject : Bool → E → Fallible E (Unit {0})
  reject true e = err e
  reject false e = ok tt

module _ {E A : Type 0} where
  -- `ok_or(e)?`, and `map_err(|_| e)?` on a call that returns a value or fails
  abbrev pub ok_or : Option A → E → Fallible E A
  ok_or none e = err e
  ok_or (some a) e = ok a

  -- A value where Rust would panic for want of one.
  abbrev pub expect : Option A → Fallible E A
  expect none = panic
  expect (some a) = ok a

  -- `unwrap_or`, `unwrap_or_default`
  abbrev pub unwrap_or : Fallible E A → A → A
  unwrap_or (ok a) d = a
  unwrap_or _ d = d

  pub err-ne-ok : {e : E} {a : A} → err e ≢ ok a
  err-ne-ok h = cc

  pub ok-injective : {a b : A} → ◌≡◌ {A = Fallible E A} (ok a) (ok b) → a ≡ b
  ok-injective h = cc

module _ {E F A : Type 0} where
  -- `map_err(f)`
  abbrev pub map_err : Fallible E A → (E → F) → Fallible F A
  map_err (ok a) f = ok a
  map_err (err e) f = err (f e)
  map_err panic f = panic
  map_err unfinished f = unfinished

abbrev pub is_ok : {E A : Type 0} → Fallible E A → Bool
is_ok (ok a) = true
is_ok _ = false

pub ok-cases : {E A : Type 0} (m : Fallible E A) → ((a : A) × (m ≡ ok a)) ⊎ (is_ok m ≡ false)
ok-cases (ok a) = inl (a, refl)
ok-cases (err e) = inr refl
ok-cases panic = inr refl
ok-cases unfinished = inr refl

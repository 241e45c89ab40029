-- ===== src/Handler.antt =====
-- A handler that changes the service's state: from a state to a reply and the state after it. An
-- early return keeps what was changed before it.
use oetp.Result.{ok, err, panic, unfinished}
use oetp.Api.{ApiResult}

abbrev pub Handler : Type 0 → Type 0 → Type 0
Handler X A = X → ApiResult A × X

module _ {X A B : Type 0} where
  abbrev pub continue : ApiResult A × X → (A → Handler X B) → ApiResult B × X
  continue (ok a, s) k = k a s
  continue (err e, s) k = (err e, s)
  continue (panic, s) k = (panic, s)
  continue (unfinished, s) k = (unfinished, s)

  infixl 5 ◌>>=◌
  abbrev pub ◌>>=◌ : Handler X A → (A → Handler X B) → Handler X B
  m >>= k = λ s. continue (m s) k

module _ {X B : Type 0} where
  infixl 5 ◌>>◌
  abbrev pub ◌>>◌ : Handler X (Unit {0}) → Handler X B → Handler X B
  m >> k = m >>= λ _. k

module _ {X A : Type 0} where
  -- A step that reads and writes nothing.
  abbrev pub lift : ApiResult A → Handler X A
  lift r = λ s. (r, s)

  -- A step that reads the state.
  abbrev pub reads : (X → ApiResult A) → Handler X A
  reads f = λ s. (f s, s)

module _ {X : Type 0} where
  abbrev pub modify : (X → X) → Handler X (Unit {0})
  modify f = λ s. (ok tt, f s)

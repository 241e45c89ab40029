-- ===== src/Edge/Nonces.antt =====
-- oetp-edge/src/state.rs: the set of consumed nonces, and its file, one line of hex for each nonce. A
-- file is its bytes, `none` where there is none; reading and writing it does not fail.
pub mod Persisted
use oetp.Prelude.{
  refl, ◌≡◌, true, false, ◌+◌, ◌-◌, ◌/◌, ◌%◌, ap, Bool, not, Option, none, some, List, [], ◌∷◌,
  ◌++◌, map, ◌==◌, if◌then◌else◌, any, is_empty, Bytes, utf8, beq,
}
use oetp.Crates.{Crates}
use oetp.Edge.Config.{is_utf8}
use oetp.Edge.Queue.{File}

pub record PersistentNonceSet : Type 0 where
  pub nonces : List Bytes
  pub file : File

-- `HashSet::contains` and `HashSet::insert`
abbrev pub contains : Bytes → List Bytes → Bool
contains nonce = any (λ n. beq n nonce)

abbrev pub add : Bytes → List Bytes → List Bytes
add nonce nonces = if contains nonce nonces then nonces else nonce ∷ nonces

abbrev pub text : File → Bytes
text none = []
text (some x) = x

-- A line without the carriage return at its end.
unfoldable pub without_cr : Bytes → Bytes
without_cr [] = []
without_cr (b ∷ []) = if b == 13 then [] else b ∷ []
without_cr (b ∷ d ∷ x) = b ∷ without_cr (d ∷ x)

-- `str::lines`, with what was read of the line: a line ends with a newline, after a carriage return or
-- not, and the last may end with the text.
unfoldable pub lines : Bytes → Bytes → List Bytes
lines line [] = if is_empty line then [] else line ∷ []
lines line (b ∷ x) =
    let ended = lines [] x in
    let longer = lines (line ++ (b ∷ [])) x in if b == 10 then without_cr line ∷ ended else longer

module _ (c : Crates) where
  abbrev pub parse_line : Bytes → Option Bytes
  parse_line l = if is_empty (c.trim l) then none else c.hex_decode 16 (c.trim l)

  -- `filter_map` and `collect`, over the lines.
  unfoldable pub collect : List Bytes → List Bytes → List Bytes
  collect nonces [] = nonces
  collect nonces (l ∷ ls) = elim (parse_line l) [
    | none ↦ collect nonces ls
    | some nonce ↦ collect (add nonce nonces) ls
  ]

  unfoldable pub load_nonces : File → List Bytes
  unfolding is_utf8 lines collect
  load_nonces none = []
  load_nonces (some x) = if is_utf8 x then collect [] (lines [] x) else []

  unfoldable pub new : File → PersistentNonceSet
  unfolding load_nonces
  new file = record { nonces = load_nonces file; file = file }

  -- `append_nonce_blocking`
  abbrev pub append_nonce : File → Bytes → File
  append_nonce file nonce = some (text file ++ (c.hex_encode nonce ++ (10 ∷ [])))

  unfoldable pub insert : Bytes → PersistentNonceSet → PersistentNonceSet
  insert nonce s =
      if contains nonce s.nonces
      then s
      else record { nonces = nonce ∷ s.nonces; file = append_nonce s.file nonce }

  -- A nonce that is not there is added.
  pub insert-nonces :
      (nonce : Bytes) (s : PersistentNonceSet)
      → contains nonce s.nonces ≡ false
      → (insert nonce s).nonces ≡ nonce ∷ s.nonces
  unfolding insert
  insert-nonces nonce s fresh = rw fresh refl

unfoldable pub clear : PersistentNonceSet → PersistentNonceSet
clear s = record { nonces = []; file = some [] }

-- ===== src/Edge/Nonces/Persisted.antt =====
-- The file of the consumed nonces against the set (oetp-edge/src/state.rs).
use oetp.Prelude.{
  none, some, beq_refl, ◌∙◌, Bool-cases, zero, suc, inr, inl, Option-cases, length, ℕ, ◌≡◌, refl,
  ap, Bool, true, false, [], ◌∷◌, ◌++◌, arith, ◌==◌, if◌then◌else◌, all, is_empty, append-nil,
  Bytes,
}
use oetp.Crates.{Crates, HexLaw, is_byte, is_hex_byte}
use oetp.Edge.Config.{next_byte, first_byte, is_utf8, utf8_from}
use oetp.Edge.Queue.{File}
use oetp.Edge.Nonces
use oetp.Edge.Nonces.{
  some, List, PersistentNonceSet, contains, add, text, without_cr, lines, parse_line, collect,
  load_nonces, append_nonce, clear,
}

-- A nonce: 16 bytes.
abbrev pub IsNonce : Bytes → Type 0
IsNonce nonce = (length nonce ≡ 16) × (all is_byte nonce ≡ true)

-- What was read of the line is empty at the end of the text.
abbrev pub ended : Bytes → Bytes → Bool
ended line [] = is_empty line
ended line (b ∷ x) =
    let fresh = ended [] x in
    let longer = ended (line ++ (b ∷ [])) x in if b == 10 then fresh else longer

lines_append :
    (line x y : Bytes) → ended line x ≡ true → lines line (x ++ y) ≡ lines line x ++ lines [] y
unfolding lines
lines_append [] [] y h = refl
lines_append (l ∷ line) [] y h = absurd (ground arith)
lines_append line (b ∷ x) y h =
    ground (arith, lines_append [] x y, lines_append (line ++ (b ∷ [])) x y)

ended_append :
    (line x y : Bytes) → ended line x ≡ true → ended [] y ≡ true → ended line (x ++ y) ≡ true
ended_append [] [] y h k = k
ended_append (l ∷ line) [] y h k = absurd (ground arith)
ended_append line (b ∷ x) y h k =
    ground (arith, ended_append [] x y, ended_append (line ++ (b ∷ [])) x y)

without_cr_hex : (x : Bytes) → all is_hex_byte x ≡ true → without_cr x ≡ x
unfolding without_cr
without_cr_hex [] h = refl
without_cr_hex (b ∷ []) h = ground arith
without_cr_hex (b ∷ d ∷ x) h = ap (λ r. b ∷ r) (without_cr_hex (d ∷ x) (ground arith))

append_snoc : (line x : Bytes) (b : ℕ) → (line ++ (b ∷ [])) ++ x ≡ line ++ (b ∷ x)
append_snoc [] x b = refl
append_snoc (l ∷ line) x b = ap (λ r. l ∷ r) (append_snoc line x b)

lines_hex :
    (line x : Bytes)
    → all is_hex_byte x ≡ true
    → lines line (x ++ (10 ∷ [])) ≡ without_cr (line ++ x) ∷ []
unfolding lines
lines_hex line [] h = rw (append-nil line) refl
lines_hex line (b ∷ x) h =
    let other : (b == 10) ≡ false = ground arith in
    rw other (rw (lines_hex (line ++ (b ∷ [])) x (ground arith)) (rw (append_snoc line x b) refl))

ended_hex : (line x : Bytes) → all is_hex_byte x ≡ true → ended line (x ++ (10 ∷ [])) ≡ true
ended_hex line [] h = refl
ended_hex line (b ∷ x) h =
    let other : (b == 10) ≡ false = ground arith in
    rw other (ended_hex (line ++ (b ∷ [])) x (ground arith))

utf8_from_zero : (low high : ℕ) (y : Bytes) → utf8_from (0, low, high) y ≡ utf8_from (0, 0, 0) y
unfolding utf8_from
utf8_from_zero low high [] = refl
utf8_from_zero low high (b ∷ y) = refl

utf8_from_append :
    (e : ℕ × ℕ × ℕ) (x y : Bytes)
    → utf8_from e x ≡ true
    → utf8_from (0, 0, 0) y ≡ true
    → utf8_from e (x ++ y) ≡ true
unfolding utf8_from
utf8_from_append (zero, low, high) [] y h k = rw utf8_from_zero k
utf8_from_append (suc n, low, high) [] y h k = absurd (ground arith)
utf8_from_append e (b ∷ x) y h k = elim (Option-cases (next_byte e b)) [
  | inl bad ↦ absurd (ground (arith, bad))
  | inr (e', good) ↦ rw (utf8_from, good) (utf8_from_append e' x y (rw (utf8_from, good) at h) k)
]

utf8_from_hex : (x : Bytes) → all is_hex_byte x ≡ true → utf8_from (0, 0, 0) (x ++ (10 ∷ [])) ≡ true
unfolding utf8_from
utf8_from_hex [] h = refl
utf8_from_hex (b ∷ x) h =
    let one : first_byte b ≡ some (0, 0, 0) = ground arith in
    rw (utf8_from, one) (utf8_from_hex x (ground arith))

module _ (c : Crates) where
  collect_append :
      (nonces : List Bytes) (xs ys : List Bytes)
      → collect c nonces (xs ++ ys) ≡ collect c (collect c nonces xs) ys
  unfolding collect
  collect_append nonces [] ys = refl
  collect_append nonces (l ∷ xs) ys = elim (Option-cases (parse_line c l)) [
    | inl bad ↦ rw (collect, bad) (collect_append nonces xs ys)
    | inr (nonce, good) ↦ rw (collect, good) (collect_append (add nonce nonces) xs ys)
  ]

  -- The file is text of whole lines, and from it the set would be read again.
  pub record IsPersisted (s : PersistentNonceSet) : Type 0 where
    pub utf8 : utf8_from (0, 0, 0) (text s.file) ≡ true
    pub whole : ended [] (text s.file) ≡ true
    pub same : collect c [] (lines [] (text s.file)) ≡ s.nonces

  module _ (hex : HexLaw c) (nonce : Bytes) (n : IsNonce nonce) where
    parse_line-hex_encode : parse_line c (c.hex_encode nonce) ≡ some nonce
    parse_line-hex_encode =
        let trimmed = hex.trim_digits (c.hex_encode nonce) (hex.encode_digits nonce n.1) in
        let size = hex.length-hex_encode nonce in
        let any_there : is_empty (c.hex_encode nonce) ≡ false = ground (arith, n.0) in
        rw trimmed (rw any_there (rw (← n.0) (hex.decode_encode nonce n.1)))

    collect-append_nonce :
        (s : PersistentNonceSet)
        → IsPersisted s
        → collect c [] (lines [] (text (append_nonce c s.file nonce))) ≡ add nonce s.nonces
    unfolding collect
    collect-append_nonce s p =
        let digits = hex.encode_digits nonce n.1 in
        rw (lines_append [] (text s.file) _ p.whole) (
          rw (lines_hex [] (c.hex_encode nonce) digits) (
            rw (without_cr_hex (c.hex_encode nonce) digits) (
              rw (collect_append [] (lines [] (text s.file)) (c.hex_encode nonce ∷ []))
                (rw p.same (rw (collect, parse_line-hex_encode) refl)))))

    insert-fresh :
        (s : PersistentNonceSet)
        → contains nonce s.nonces ≡ false
        → Nonces.insert c nonce s
          ≡ record { nonces = nonce ∷ s.nonces; file = append_nonce c s.file nonce }
    unfolding Nonces.insert
    insert-fresh s fresh = rw fresh refl

    insert-old :
        (s : PersistentNonceSet) → contains nonce s.nonces ≡ true → Nonces.insert c nonce s ≡ s
    unfolding Nonces.insert
    insert-old s old = rw old refl

    appended :
        (s : PersistentNonceSet)
        → IsPersisted s
        → contains nonce s.nonces ≡ false
        → IsPersisted (record { nonces = nonce ∷ s.nonces; file = append_nonce c s.file nonce })
    appended s p fresh =
        let digits = hex.encode_digits nonce n.1 in
        let more : add nonce s.nonces ≡ nonce ∷ s.nonces = rw fresh refl in
        record {
          utf8 =
              utf8_from_append (0, 0, 0) (text s.file) _ p.utf8
                (utf8_from_hex (c.hex_encode nonce) digits);
          whole =
              ended_append [] (text s.file) _ p.whole (ended_hex [] (c.hex_encode nonce) digits);
          same = collect-append_nonce s p ∙ more;
        }

    -- The nonce is in the set after it is inserted, and the file gives the set back as before.
    pub insert-IsPersisted :
        (s : PersistentNonceSet)
        → IsPersisted s
        → IsPersisted (Nonces.insert c nonce s)
          × (contains nonce (Nonces.insert c nonce s).nonces ≡ true)
    insert-IsPersisted s p = elim (Bool-cases (contains nonce s.nonces)) [
      | inl there ↦ rw (insert-old s there) (p, there)
      | inr fresh ↦ rw (insert-fresh s fresh) (appended s p fresh, rw (beq_refl nonce) refl)
    ]

  -- What `new` reads from the file is the set.
  pub load_nonces-IsPersisted :
      (s : PersistentNonceSet) → IsPersisted s → load_nonces c s.file ≡ s.nonces
  unfolding load_nonces is_utf8 collect lines
  load_nonces-IsPersisted s p = go s.file s.nonces p.utf8 p.same
    where
      go :
          (file : File) (nonces : List Bytes)
          → utf8_from (0, 0, 0) (text file) ≡ true
          → collect c [] (lines [] (text file)) ≡ nonces
          → load_nonces c file ≡ nonces
      go none nonces u same = same
      go (some x) nonces u same = rw u same

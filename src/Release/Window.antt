-- ===== src/Release/Window.antt =====
-- Which release tokens `verify` accepts (oetp-core/src/release.rs).
use mathlib.Core.List.{append_assoc}
use oetp.Prelude.{
  refl, be_bytes, ◌++◌, ℕ, ◌+◌, ◌≤◌, ◌<◌, ◌≡◌, ◌↔◌, ◌⊎◌, inl, inr, true, none, some, arith,
  Option-cases, length, Bytes,
}
use oetp.Result.{ok}
use oetp.Crates.{Crates}
use oetp.Release.{ReleaseToken, payload_bytes, verify}

module _ (c : Crates) where
  -- What an accepted token has.
  pub record IsAccepted (t : ReleaseToken) (key : Bytes) (now : ℕ) : Type 0 where
    pub center : 1 ≤ length t.center_id
    pub exam : 1 ≤ length t.exam_id
    pub device : 1 ≤ length t.device_id
    pub ordered : t.window_start < t.window_end
    pub short : t.window_end ≤ t.window_start + 300
    pub begun : t.window_start ≤ now
    pub not_over : now ≤ t.window_end
    pub sig : Bytes
    pub parsed : c.ed_signature_from_slice t.signature ≡ some sig
    pub signed : c.ed_verify key (payload_bytes t) sig ≡ true

  verify-IsAccepted :
      (t : ReleaseToken) (key : Bytes) (now : ℕ)
      → (c.ed_signature_from_slice t.signature ≡ none)
        ⊎ ((sig : Bytes) × (c.ed_signature_from_slice t.signature ≡ some sig))
      → verify c t key now ≡ ok tt
      → IsAccepted t key now
  unfolding verify
  verify-IsAccepted t key now (inl e) h = absurd (ground arith)
  verify-IsAccepted t key now (inr (sig, e)) h = record {
    center = ground arith;
    exam = ground arith;
    device = ground arith;
    ordered = ground arith;
    short = ground arith;
    begun = ground arith;
    not_over = ground arith;
    sig = sig;
    parsed = e;
    signed = ground arith;
  }

  IsAccepted-verify :
      (t : ReleaseToken) (key : Bytes) (now : ℕ) → IsAccepted t key now → verify c t key now ≡ ok tt
  unfolding verify
  IsAccepted-verify t key now a = ground (arith, a.parsed, a.signed)

  -- A token is accepted exactly if its three names are not empty, its window is in order and at most
  -- 300 seconds long, the time is in the window, and its signature is one of the key over its payload.
  pub verify_iff :
      (t : ReleaseToken) (key : Bytes) (now : ℕ)
      → (verify c t key now ≡ ok tt) ↔ IsAccepted t key now
  unfolding verify
  verify_iff t key now = (
    verify-IsAccepted t key now (Option-cases (c.ed_signature_from_slice t.signature)),
    IsAccepted-verify t key now,
  )

  -- The names stand in the payload with nothing between them.
  abbrev pub names : ReleaseToken → Bytes
  names t = t.center_id ++ (t.exam_id ++ t.device_id)

  payload_bytes-names :
      (t : ReleaseToken)
      → payload_bytes t
        ≡ names t ++ (be_bytes 8 t.window_start ++ (be_bytes 8 t.window_end ++ t.nonce))
  unfolding payload_bytes
  payload_bytes-names t = simp append_assoc

  moved-payload_bytes :
      (t u : ReleaseToken)
      → names t ≡ names u
      → u.window_start ≡ t.window_start
      → u.window_end ≡ t.window_end
      → u.nonce ≡ t.nonce
      → payload_bytes u ≡ payload_bytes t
  moved-payload_bytes t u same ws we nn =
      rw (payload_bytes-names, ws, we, nn, ← same, ← payload_bytes-names t) refl

  moved-verify :
      (t u : ReleaseToken) (key : Bytes) (now : ℕ)
      → names t ≡ names u
      → 1 ≤ length t.center_id
      → 1 ≤ length t.exam_id
      → 1 ≤ length t.device_id
      → 1 ≤ length u.center_id
      → 1 ≤ length u.exam_id
      → 1 ≤ length u.device_id
      → u.window_start ≡ t.window_start
      → u.window_end ≡ t.window_end
      → u.nonce ≡ t.nonce
      → u.signature ≡ t.signature
      → verify c u key now ≡ verify c t key now
  unfolding verify
  moved-verify t u key now same tc te td uc ue ud ws we nn si =
      let payload = moved-payload_bytes t u same ws we nn in ground arith

  -- Two tokens with the same window, nonce and signature, whose three names, none of them empty, make
  -- one text when they are joined, get the same answer of `verify` under every key at every time, an
  -- acceptance or an error, and the second is accepted exactly if the first meets every condition of an
  -- accepted token (its window, the time, and a signature over its own payload).
  pub verify-moved_names :
      (t u : ReleaseToken) (key : Bytes) (now : ℕ)
      → names t ≡ names u
      → 1 ≤ length t.center_id
      → 1 ≤ length t.exam_id
      → 1 ≤ length t.device_id
      → 1 ≤ length u.center_id
      → 1 ≤ length u.exam_id
      → 1 ≤ length u.device_id
      → u.window_start ≡ t.window_start
      → u.window_end ≡ t.window_end
      → u.nonce ≡ t.nonce
      → u.signature ≡ t.signature
      → (verify c u key now ≡ verify c t key now)
        × ((verify c u key now ≡ ok tt) ↔ IsAccepted t key now)
  verify-moved_names t u key now same tc te td uc ue ud ws we nn si =
      let alike = moved-verify t u key now same tc te td uc ue ud ws we nn si in
      (alike, rw alike (verify_iff t key now))

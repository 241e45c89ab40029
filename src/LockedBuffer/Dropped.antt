-- ===== src/LockedBuffer/Dropped.antt =====
-- The life of a locked buffer (oetp-core/src/zeroize.rs), from `new` over writes to its drop.
use oetp.Prelude.{
  ap, ℕ, zero, suc, ◌≤◌, String, ◌≡◌, refl, inl, inr, Bool, not, Option, some, List, [], ◌∷◌, arith,
  ◌==◌, if◌then◌else◌, Bool-cases, length, Bytes,
}
use oetp.Result.{ok-injective, Result, ok, ◌>>=◌, reject, ok_or}
use oetp.Device.{zeros}
use oetp.Env.Read.{first_step}
use oetp.LockedBuffer.{LockedBuffer, new, write, drop_buffer, did_lock, fits_layout}

-- Any number of writes.
unfoldable pub write_all : List Bytes → LockedBuffer → Result LockedBuffer
write_all [] b = ok b
write_all (content ∷ rest) b = write content b >>= λ b'. write_all rest b'

write_all-len :
    (contents : List Bytes) (b : LockedBuffer) {after : LockedBuffer}
    → length b.bytes ≡ b.len
    → write_all contents b ≡ ok after
    → (after.ptr ≡ b.ptr)
      × (after.len ≡ b.len)
      × (after.locked ≡ b.locked)
      × (length after.bytes ≡ b.len)
unfolding write_all write
write_all-len [] b size h = rw (← ok-injective h) (refl, refl, refl, size)
write_all-len (content ∷ rest) b size h = elim (Bool-cases (length content == b.len)) [
  | inr wrong ↦ absurd (ground (arith, wrong, h))
  | inl right ↦
      write_all-len rest (record b { bytes = content }) (ground (arith, right)) (rw right at h)
]

length-zeros : (n : ℕ) → length (zeros n) ≡ n
unfolding zeros
length-zeros zero = refl
length-zeros (suc n) = omega (arith, length-zeros n)

-- A buffer that was made has one byte or more, and whatever was written to it, its drop leaves nothing but
-- zeros, as many as it had bytes, and unlocks its pages exactly if they were locked, at their address and
-- length.
pub drop_buffer-new :
    (len : ℕ) (layout_error : String) (allocated : Option ℕ) (try_lock : Result Bool)
    (contents : List Bytes) {b after : LockedBuffer}
    → new len layout_error allocated try_lock ≡ ok b
    → write_all contents b ≡ ok after
    → (1 ≤ len)
      × (allocated ≡ some b.ptr)
      × (drop_buffer after ≡ record {
        memory_left = zeros len;
        unlocks = if did_lock try_lock then (b.ptr, len) ∷ [] else [];
      })
unfolding new drop_buffer
drop_buffer-new len layout_error allocated try_lock contents {b} {after} h w =
    let (_, some_bytes, h₁) = first_step (reject (len == 0) _) h in
    let (_, _, h₂) = first_step (reject (not (fits_layout len)) _) h₁ in
    let (ptr, found, h₃) = first_step (ok_or allocated _) h₂ in
    let made = ok-injective h₃ in
    let size : length b.bytes ≡ b.len = rw (← made) (length-zeros len) in
    let (at, long, kept, held) = write_all-len contents b size w in
    let whole : b.len ≡ len = rw (← made) refl in
    let locked : b.locked ≡ did_lock try_lock = rw (← made) refl in
    (
      ground (arith, some_bytes),
      ground (arith, found, ap (λ (x : LockedBuffer). x.ptr) made),
      rw held (rw at (rw long (rw kept (rw locked (rw whole refl))))),
    )

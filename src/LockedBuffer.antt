-- ===== src/LockedBuffer.antt =====
-- oetp-core/src/zeroize.rs: a buffer whose pages are locked while it lives and whose bytes are wiped when
-- it is dropped. What the allocator and the locker answer is given; the calls of the locker are the result.
pub mod Dropped
mod Tests
use oetp.Prelude.{
  ℕ, zero, suc, ◌+◌, ◌-◌, ◌/◌, ◌%◌, ◌^◌, ◌<◌, String, Bool, false, not, Option, List, [], ◌∷◌, ◌++◌,
  leb, ◌==◌, if◌then◌else◌, length, drop, all, Bytes,
}
use oetp.Result.{invalid_input, memory, io, Result, ok, err, panic, ◌>>=◌, ◌>>◌, reject, ok_or}
use Prim.Native.String.{◌++◌ as ◌<>◌}
use oetp.Device.{zeros}

pub record LockedBuffer : Type 0 where
  pub ptr : ℕ
  pub len : ℕ
  pub locked : Bool
  -- the bytes from `ptr` on
  pub bytes : Bytes

-- `Layout::from_size_align(len, 4096)` succeeds: rounded up, the size is at most `isize::MAX`.
abbrev pub fits_layout : ℕ → Bool
fits_layout len = leb len (2 ^ 63 - 4096)

-- Whether the locker's `try_lock` locked the pages. An error is logged only.
abbrev pub did_lock : Result Bool → Bool
did_lock (ok b) = b
did_lock _ = false

-- `alloc_zeroed` gives an address, or fails.
unfoldable pub new : ℕ → String → Option ℕ → Result Bool → Result LockedBuffer
new len layout_error allocated try_lock = do
  reject (len == 0) (invalid_input "buffer length must be non-zero")
  reject (not (fits_layout len)) (memory (◌<>◌ "layout error: " layout_error))
  ptr ← ok_or allocated (memory "allocation failed")
  ok (record { ptr = ptr; len = len; locked = did_lock try_lock; bytes = zeros len })

-- `as_mut_slice().copy_from_slice(data)`, which panics unless the lengths are the same.
unfoldable pub write : Bytes → LockedBuffer → Result LockedBuffer
write content b = if length content == b.len then ok (record b { bytes = content }) else panic

-- What a drop leaves: the bytes as they go back to the allocator, and the calls of `unlock`.
pub record Freed : Type 0 where
  pub memory_left : Bytes
  pub unlocks : List (ℕ × ℕ)

unfoldable pub drop_buffer : LockedBuffer → Freed
drop_buffer b = record {
  memory_left = zeros (length b.bytes);
  unlocks = if b.locked then (b.ptr, b.len) ∷ [] else [];
}

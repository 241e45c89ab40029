-- ===== src/LockedBuffer/Tests.antt =====
-- A buffer of two bytes that is locked, written once and dropped.
use oetp.Prelude.{ℕ, ◌≤◌, ◌≡◌, refl, true, Option, some, [], ◌∷◌, if◌then◌else◌}
use oetp.Result.{ok}
use oetp.Device.{zeros}
use oetp.LockedBuffer.{LockedBuffer, new, write, drop_buffer, did_lock}
use oetp.LockedBuffer.Dropped.{write_all, drop_buffer-new}

abbrev fresh : LockedBuffer
fresh = record { ptr = 4096; len = 2; locked = true; bytes = zeros 2 }

abbrev written : LockedBuffer
written = record { ptr = 4096; len = 2; locked = true; bytes = 7 ∷ 8 ∷ [] }

made : new 2 "" (some 4096) (ok true) ≡ ok fresh
unfolding new
made = refl

wrote : write_all ((7 ∷ 8 ∷ []) ∷ []) fresh ≡ ok written
unfolding write_all write
wrote = refl

drop_buffer-new_example :
    (1 ≤ 2)
    × (◌≡◌ {A = Option ℕ} (some 4096) (some fresh.ptr))
    × (drop_buffer written ≡ record {
      memory_left = zeros 2;
      unlocks = if did_lock (ok true) then (fresh.ptr, 2) ∷ [] else [];
    })
drop_buffer-new_example = drop_buffer-new 2 "" (some 4096) (ok true) ((7 ∷ 8 ∷ []) ∷ []) made wrote

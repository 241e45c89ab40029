-- ===== src/Edge/Kernel.antt =====
-- oetp-edge/src/platform_impl.rs: the calls of the kernel. What the kernel returns for a call is a
-- parameter, and `errno` after a call that failed.
use oetp.Prelude.{ℕ, Bool, true, false, not, ◌==◌, if◌then◌else◌}
use oetp.Result.{Result, memory, ok, err, reject, ◌>>◌}
use oetp.Platform.{ProcessGuard}

pub data KernelCall : Type 0 where
  -- `prctl` with the option PR_SET_DUMPABLE or PR_SET_PTRACER, and its argument
  set_dumpable set_ptracer : ℕ → KernelCall
  -- `mlock` and `munlock` of an address and a length
  mlock munlock : ℕ → ℕ → KernelCall

-- The value returned, where only zero is success, and whether `errno` is ENOMEM.
pub record Kernel : Type 0 where
  pub returned : KernelCall → ℕ
  pub no_memory : Bool

module _ (kernel : Kernel) where
  unfoldable pub disable_core_dumps : Result (Unit {0})
  disable_core_dumps = do
    reject (not (kernel.returned (set_dumpable 0) == 0)) (memory "prctl PR_SET_DUMPABLE failed")
    ok tt

  unfoldable pub restrict_ptrace : Result (Unit {0})
  restrict_ptrace = do
    reject (not (kernel.returned (set_ptracer 0) == 0)) (memory "prctl PR_SET_PTRACER failed")
    ok tt

  unfoldable pub linux_process_guard : ProcessGuard
  unfolding disable_core_dumps restrict_ptrace
  linux_process_guard = record {
    disable_core_dumps = disable_core_dumps;
    restrict_ptrace = restrict_ptrace;
  }

  -- `LinuxMemoryLocker::try_lock`: pages that may not be locked are no error, a lack of memory is.
  unfoldable pub try_lock : ℕ → ℕ → Result Bool
  try_lock ptr len =
      if kernel.returned (mlock ptr len) == 0
      then ok true
      else if kernel.no_memory
      then err (memory "mlock failed: ENOMEM")
      else ok false

  -- `LinuxMemoryLocker::unlock`, with the call that it makes: what `munlock` returns is ignored.
  unfoldable pub unlock : ℕ → ℕ → Result (Unit {0}) × KernelCall
  unlock ptr len = (ok tt, munlock ptr len)

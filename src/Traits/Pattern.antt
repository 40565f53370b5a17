-- ===== src/Traits/Pattern.antt =====
-- plugin/DSProductTraitsHandler.cpp: the bootloader pattern.
pub mod Retries
pub mod Keeps
use entservices_devicesettin.Prelude.{ℕ, zero, suc, Bool, true, false, if◌then◌else◌}
use entservices_devicesettin.Device.{
  Device, M, pure, ask, tell, skip, ◌>>=◌, ◌>>◌, BlPattern, set_bootloader_pattern,
  start_pattern_retry,
}
use entservices_devicesettin.Traits.{UxController}

abbrev pub pattern_retries : ℕ
pattern_retries = 12

module _ (dev : Device) where
  -- SetBootloaderPattern. `true`: the call succeeded, or the product has no silent reboot.
  unfoldable pub set_pattern : BlPattern → UxController → M Bool
  set_pattern pattern ux =
      if ux.enable_silent_reboot_support
      then ask (λ log. dev.bootloader_pattern_set log pattern) (set_bootloader_pattern pattern)
      else pure true

  -- SetBootloaderPatternInternal: a retry that is under way is called off first.
  unfoldable pub set_pattern_internal : BlPattern → UxController → M (Bool × UxController)
  set_pattern_internal pattern ux = do
    ret ← set_pattern pattern (record ux { invalidate_async_bootloader_pattern = true })
    pure (ret, record ux { invalidate_async_bootloader_pattern = true })

  -- SetBootloaderPatternAsync, from `remaining` tries on. `invalidated n` is what the thread reads of the
  -- flag when n tries remain: other threads set it while this one sleeps.
  unfoldable pub set_pattern_async : ℕ → (ℕ → Bool) → BlPattern → UxController → M (Unit {0})
  set_pattern_async zero invalidated pattern ux = skip
  set_pattern_async (suc n) invalidated pattern ux =
      let rest = set_pattern_async n invalidated pattern ux in
      if invalidated (suc n)
      then skip
      else (do ret ← set_pattern pattern ux; if ret then skip else rest)

  retry_unless : Bool → BlPattern → UxController → M (Bool × UxController)
  retry_unless true pattern ux = pure (true, ux)
  retry_unless false pattern ux = do
    tell (start_pattern_retry pattern)
    pure (false, record ux { invalidate_async_bootloader_pattern = false })

  -- SetBootloaderPatternFaultTolerant: a failed call is tried again on a thread of its own.
  unfoldable pub set_pattern_fault_tolerant : BlPattern → UxController → M (Bool × UxController)
  unfolding retry_unless
  set_pattern_fault_tolerant pattern ux = do
    ret ← set_pattern pattern ux
    retry_unless ret pattern ux

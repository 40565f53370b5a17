-- ===== src/Traits/Pattern/Keeps.antt =====
-- What setting the bootloader pattern keeps.
use entservices_devicesettin.Prelude.{◌≡◌, refl, sym, ◌∙◌, Bool, true, false}
use entservices_devicesettin.Device.{Device, Calls, BlPattern}
use entservices_devicesettin.Device.Log.{Any}
use entservices_devicesettin.Device.Returns.{
  Yields, Yields-bind, Yields-if, Yields-pure, Yields-ask, Yields-tell,
}
use entservices_devicesettin.Traits.{UxController}
use entservices_devicesettin.Traits.Kept.{Kept, Kept-refl, Admits}
use entservices_devicesettin.Traits.Pattern.{
  set_pattern, set_pattern_internal, retry_unless, set_pattern_fault_tolerant,
}

module _ (dev : Device) (I : Calls → Type 0) (silent : Bool) (a : Admits I silent) where
  -- A product without the silent reboot is answered with success.
  set_pattern_keeps :
      (pattern : BlPattern) (ux : UxController)
      → ux.enable_silent_reboot_support ≡ silent
      → Yields I I (λ ret. ret ≡ false → silent ≡ true) (set_pattern dev pattern ux)
  unfolding set_pattern
  set_pattern_keeps pattern ux e =
      Yields-if ux.enable_silent_reboot_support
        (λ h. Yields-ask _ _ (λ log i. (λ _. sym e ∙ h, a.set_pattern (sym e ∙ h) pattern log i)))
        (λ _. Yields-pure _ (λ h. absurd (cc)))

  pub set_pattern_internal_keeps :
      (pattern : BlPattern) (ux : UxController)
      → ux.enable_silent_reboot_support ≡ silent
      → Yields I I (λ r. Kept ux r.1) (set_pattern_internal dev pattern ux)
  unfolding set_pattern_internal
  set_pattern_internal_keeps pattern ux e =
      Yields-bind
        (set_pattern_keeps pattern (record ux { invalidate_async_bootloader_pattern = true }) e)
        (λ ret _. Yields-pure _ (record { profile = refl; silent = refl; decided = λ h. h }))

  pub set_pattern_fault_tolerant_keeps :
      (pattern : BlPattern) (ux : UxController)
      → ux.enable_silent_reboot_support ≡ silent
      → Yields I I (λ r. Kept ux r.1) (set_pattern_fault_tolerant dev pattern ux)
  unfolding set_pattern_fault_tolerant retry_unless
  set_pattern_fault_tolerant_keeps pattern ux e =
      Yields-bind (set_pattern_keeps pattern ux e) (λ ret h. by_reply ret h)
    where
      by_reply :
          (ret : Bool)
          → (ret ≡ false → silent ≡ true)
          → Yields I I (λ r. Kept ux r.1) (retry_unless dev ret pattern ux)
      by_reply true h = Yields-pure _ (Kept-refl ux)
      by_reply false h =
          Yields-bind {Q = Any} (Yields-tell _ tt (a.retry_pattern (h refl) pattern))
            (λ _ _. Yields-pure _ (record { profile = refl; silent = refl; decided = λ h. h }))

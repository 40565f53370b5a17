-- ===== src/Traits/Reboot/Keeps.antt =====
-- What the checks of the reboot reason keep.
use entservices_devicesettin.Prelude.{ℕ, ◌≡◌, subst, sym, Bool, true, false, ltb}
use entservices_devicesettin.Device.{Device, Calls, pure}
use entservices_devicesettin.Device.Log.{Any}
use entservices_devicesettin.Device.Returns.{
  Yields, Yields-bind, Yields-if, Yields-pure, Yields-tell, Yields-mono,
}
use entservices_devicesettin.Power.{PowerState, is_on, power_on, power_standby, PortNames}
use entservices_devicesettin.Traits.{
  Profile, stb, tv, stb_eu, tv_eu, UxController, Product, sync_display_ports_with_power_state,
}
use entservices_devicesettin.Traits.Kept.{Kept, Kept-refl, Admits}
use entservices_devicesettin.Traits.Reboot.{
  RebootType, hard, soft, unavailable, unless_decided, display_after,
  sync_display_ports_with_reboot_reason, check_by, schedule_reboot_reason_check, get_reboot_type,
  tv_display_by, tv_display_restored, reboot_reason_retries,
}
use entservices_devicesettin.Traits.Reboot.Late.{sync_display_ports_keeps}

module _ (dev : Device) (names : PortNames) (I : Calls → Type 0) (silent : Bool)
    (a : Admits I silent) where
  abbrev Keeps : Product → Product → Type 0
  Keeps product q = Kept product.ux q.ux

  same-Kept : (ux ux' : UxController) → ux' ≡ ux → Kept ux ux'
  same-Kept ux ux' e = subst (Kept ux) (sym e) (Kept-refl ux)

  pub display_keeps :
      (in_eas : Bool) (power_state : PowerState) (product : Product)
      → Yields I I
          (λ q. Kept product.ux q.ux)
          (sync_display_ports_with_power_state dev names in_eas power_state product)
  display_keeps in_eas power_state product =
      Yields-mono
        (sync_display_ports_keeps dev names I in_eas power_state product
          (a.ports (is_on power_state)))
        (λ q e. same-Kept product.ux q.ux e)

  sync_reboot_reason_keeps :
      (in_eas : Bool) (reboot_type : RebootType) (product : Product)
      → Yields I I
          (λ q. Kept product.ux q.ux)
          (sync_display_ports_with_reboot_reason dev names in_eas reboot_type product)
  unfolding sync_display_ports_with_reboot_reason unless_decided
  sync_reboot_reason_keeps in_eas reboot_type product = by_profile product.ux.profile
    where
      by_flag :
          (flag : Bool)
          → Yields I I
              (λ q. Kept product.ux q.ux)
              (unless_decided dev names in_eas flag reboot_type product)
      by_flag true = Yields-pure _ (Kept-refl product.ux)
      by_flag false = display_keeps in_eas (display_after dev names reboot_type) product

      by_profile :
          (profile : Profile)
          → Yields I I
              (λ q. Kept product.ux q.ux)
              (elim profile [
                | tv ↦
                    unless_decided dev names in_eas product.ux.first_power_transition_complete
                      reboot_type product
                | _ ↦ pure product
              ])
      by_profile stb = Yields-pure _ (Kept-refl product.ux)
      by_profile stb_eu = Yields-pure _ (Kept-refl product.ux)
      by_profile tv_eu = Yields-pure _ (Kept-refl product.ux)
      by_profile tv = by_flag product.ux.first_power_transition_complete

  pub schedule_keeps :
      (in_eas : Bool) (n : ℕ) (product : Product)
      → Yields I I
          (λ r. Kept product.ux r.1.ux)
          (schedule_reboot_reason_check dev names in_eas n product)
  unfolding schedule_reboot_reason_check check_by
  schedule_keeps in_eas n product = record {
    at = λ log i. (by_type (get_reboot_type dev names log)).at log i;
  }
    where
      by_type :
          (reboot_type : RebootType)
          → Yields I I
              (λ r. Kept product.ux r.1.ux)
              (check_by dev names in_eas n reboot_type product)
      by_type hard =
          Yields-bind (sync_reboot_reason_keeps in_eas hard product) (λ _ k. Yields-pure _ k)
      by_type soft =
          Yields-bind (sync_reboot_reason_keeps in_eas soft product) (λ _ k. Yields-pure _ k)
      by_type unavailable =
          Yields-if (ltb n reboot_reason_retries)
            (λ h.
              Yields-bind {Q = Any} (Yields-tell _ tt a.check)
                (λ _ _. Yields-pure _ (Kept-refl product.ux)))
            (λ _. Yields-pure _ (Kept-refl product.ux))

  pub tv_display_restored_keeps :
      (in_eas : Bool) (product : Product)
      → Yields I I (λ q. Kept product.ux q.ux) (tv_display_restored dev names in_eas product)
  unfolding tv_display_restored tv_display_by
  tv_display_restored_keeps in_eas product = record {
    at = λ log i.
        (Yields-if (dev.force_display_flag log) (λ _. display_keeps in_eas power_on product)
            (λ _. by_type (get_reboot_type dev names log))).at
          log i;
  }
    where
      by_type :
          (reboot_type : RebootType)
          → Yields I I
              (λ q. Kept product.ux q.ux)
              (tv_display_by dev names in_eas reboot_type product)
      by_type hard = display_keeps in_eas power_standby product
      by_type soft = display_keeps in_eas power_on product
      by_type unavailable = Yields-bind (schedule_keeps in_eas 0 product) (λ r k. Yields-pure _ k)

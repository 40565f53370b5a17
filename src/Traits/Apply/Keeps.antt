-- ===== src/Traits/Apply/Keeps.antt =====
-- What the operations that the profiles override keep.
use entservices_devicesettin.Prelude.{◌≡◌, refl, sym, subst, ◌∙◌, Bool, true, if◌then◌else◌}
use entservices_devicesettin.Device.{
  Device, Calls, M, pure, BlPattern, pattern_normal, pattern_silent, pattern_silent_led_on,
}
use entservices_devicesettin.Device.Log.{Any}
use entservices_devicesettin.Device.Returns.{
  Yields, Yields-bind, Yields-if, Yields-pure, Yields-ask, Yields-mono,
}
use entservices_devicesettin.Power.{PowerState, is_on, PortNames}
use entservices_devicesettin.Traits.{
  Profile, stb, tv, stb_eu, tv_eu, UxController, Product, led_state,
  sync_power_led_with_power_state,
}
use entservices_devicesettin.Traits.Kept.{Kept, Kept-refl, Kept-trans, Admits}
use entservices_devicesettin.Traits.Pattern.Keeps.{
  set_pattern_internal_keeps, set_pattern_fault_tolerant_keeps,
}
use entservices_devicesettin.Traits.Reboot.Keeps.{display_keeps, tv_display_restored_keeps}
use entservices_devicesettin.Traits.Apply.{
  pattern_of_change, pattern_of_target, is_restored, sync_display, internal, fault_tolerant,
  display_and_led, display_and_pattern, note_transition, change_by, maintenance_by, led_in_bootup,
  tv_display, post_reboot_by, apply_power_state_change_config, apply_pre_maintenance_reboot_config,
  apply_post_reboot_config,
}

module _ (dev : Device) (names : PortNames) (led_sync_in_bootup : Bool) (in_eas : Bool)
    (I : Calls → Type 0) (silent : Bool) (a : Admits I silent) where
  -- The product has the support for the silent reboot that is meant.
  abbrev Fits : Product → Type 0
  Fits product = product.ux.enable_silent_reboot_support ≡ silent

  abbrev Ends : UxController → Bool × Product → Type 0
  Ends ux r = Kept ux r.1.ux

  led_keeps :
      (power_state : PowerState) (ux : UxController)
      → Yields I I Any (sync_power_led_with_power_state dev names power_state ux)
  unfolding sync_power_led_with_power_state
  led_keeps power_state ux =
      Yields-if ux.device_settings
        (λ _.
          Yields-bind {Q = Any}
            (Yields-ask _ _ (λ log i. (tt, a.led (led_state ux power_state) log i)))
            (λ _ _. Yields-pure _ tt))
        (λ _. Yields-pure _ tt)

  internal_keeps :
      (pattern : BlPattern) (product : Product)
      → Fits product
      → Yields I I (Ends product.ux) (internal dev names led_sync_in_bootup in_eas pattern product)
  unfolding internal
  internal_keeps pattern product f =
      Yields-bind (set_pattern_internal_keeps dev I silent a pattern product.ux f)
        (λ r k. Yields-pure _ k)

  fault_tolerant_keeps :
      (pattern : BlPattern) (product : Product)
      → Fits product
      → Yields I I
          (Ends product.ux)
          (fault_tolerant dev names led_sync_in_bootup in_eas pattern product)
  unfolding fault_tolerant
  fault_tolerant_keeps pattern product f =
      Yields-bind (set_pattern_fault_tolerant_keeps dev I silent a pattern product.ux f)
        (λ r k. Yields-pure _ k)

  -- A display change and then the pattern.
  then_pattern :
      (ux : UxController) (q : Product) {m : Product → M (Bool × Product)}
      → ux.enable_silent_reboot_support ≡ silent
      → Kept ux q.ux
      → ((q : Product) → Fits q → Yields I I (Ends q.ux) (m q))
      → Yields I I (Ends ux) (m q)
  then_pattern ux q f k y = Yields-mono (y q (k.silent ∙ f)) (λ r k'. Kept-trans k k')

  sync_display_keeps :
      (power_state : PowerState) (product : Product)
      → Yields I I
          (λ q. Kept product.ux q.ux)
          (sync_display dev names led_sync_in_bootup in_eas power_state product)
  unfolding sync_display
  sync_display_keeps power_state product =
      display_keeps dev names I silent a in_eas power_state product

  display_and_led_keeps :
      (new_state : PowerState) (product : Product)
      → Yields I I
          (Ends product.ux)
          (display_and_led dev names led_sync_in_bootup in_eas new_state product)
  unfolding display_and_led
  display_and_led_keeps new_state product =
      Yields-bind (sync_display_keeps new_state product)
        (λ q k. Yields-bind {Q = Any} (led_keeps new_state q.ux) (λ _ _. Yields-pure _ k))

  display_and_pattern_keeps :
      (new_state : PowerState) (product : Product)
      → Fits product
      → Yields I I
          (Ends product.ux)
          (display_and_pattern dev names led_sync_in_bootup in_eas new_state product)
  unfolding display_and_pattern
  display_and_pattern_keeps new_state product f =
      Yields-bind (sync_display_keeps new_state product)
        (λ q k. then_pattern product.ux q f k (internal_keeps (pattern_of_change new_state)))

  noted-Kept :
      (product : Product)
      → Kept product.ux (note_transition dev names led_sync_in_bootup in_eas product).ux
  noted-Kept product = record { profile = refl; silent = refl; decided = λ _. refl }

  pub change_keeps :
      (new_state prev_state : PowerState) (product : Product)
      → product.ux.enable_silent_reboot_support ≡ silent
      → Yields I I
          (λ r. Kept product.ux r.1.ux)
          (apply_power_state_change_config dev names led_sync_in_bootup in_eas new_state prev_state
            product)
  unfolding apply_power_state_change_config change_by
  change_keeps new_state prev_state product f = by_profile product.ux.profile
    where
      by_profile :
          (profile : Profile)
          → Yields I I
              (Ends product.ux)
              (change_by dev names led_sync_in_bootup in_eas profile new_state product)
      by_profile stb = display_and_led_keeps new_state product
      by_profile stb_eu = display_and_led_keeps new_state product
      by_profile tv_eu = display_and_pattern_keeps new_state product f
      by_profile tv =
          Yields-mono
            (display_and_pattern_keeps new_state
              (note_transition dev names led_sync_in_bootup in_eas product) f)
            (λ r k. Kept-trans (noted-Kept product) k)

  abbrev Decided : Bool × Product → Type 0
  Decided r = r.1.ux.first_power_transition_complete ≡ true

  -- The change is the TV's first transition at the latest.
  pub change_decides :
      (new_state prev_state : PowerState) (product : Product)
      → product.ux.enable_silent_reboot_support ≡ silent
      → product.ux.profile ≡ tv
      → Yields I I
          (λ r. r.1.ux.first_power_transition_complete ≡ true)
          (apply_power_state_change_config dev names led_sync_in_bootup in_eas new_state prev_state
            product)
  unfolding apply_power_state_change_config change_by
  change_decides new_state prev_state product f t =
      subst
        (λ profile.
          Yields I I Decided
            (change_by dev names led_sync_in_bootup in_eas profile new_state product))
        (sym t)
        (Yields-mono
          (display_and_pattern_keeps new_state
            (note_transition dev names led_sync_in_bootup in_eas product) f)
          (λ r k. k.decided refl))

  pub maintenance_keeps :
      (current_state : PowerState) (product : Product)
      → product.ux.enable_silent_reboot_support ≡ silent
      → Yields I I
          (λ r. Kept product.ux r.1.ux)
          (apply_pre_maintenance_reboot_config dev names led_sync_in_bootup in_eas current_state
            product)
  unfolding apply_pre_maintenance_reboot_config maintenance_by
  maintenance_keeps current_state product f = by_profile product.ux.profile
    where
      unless_on :
          (pattern : BlPattern)
          → Yields I I (Ends product.ux) (
              if is_on current_state
              then pure (true, product)
              else internal dev names led_sync_in_bootup in_eas pattern product)
      unless_on pattern =
          Yields-if (is_on current_state) (λ _. Yields-pure _ (Kept-refl product.ux))
            (λ _. internal_keeps pattern product f)

      by_profile :
          (profile : Profile)
          → Yields I I
              (Ends product.ux)
              (maintenance_by dev names led_sync_in_bootup in_eas profile current_state product)
      by_profile stb = Yields-pure _ (Kept-refl product.ux)
      by_profile tv = unless_on pattern_silent_led_on
      by_profile stb_eu = unless_on pattern_silent
      by_profile tv_eu = unless_on pattern_silent

  led_in_bootup_keeps :
      (power_state : PowerState) (product : Product)
      → Yields I I Any (led_in_bootup dev names led_sync_in_bootup in_eas power_state product)
  unfolding led_in_bootup
  led_in_bootup_keeps power_state product =
      Yields-if led_sync_in_bootup (λ _. led_keeps power_state product.ux) (λ _. Yields-pure _ tt)

  tv_display_keeps :
      (target last_known : PowerState) (product : Product)
      → Yields I I
          (λ q. Kept product.ux q.ux)
          (tv_display dev names led_sync_in_bootup in_eas target last_known product)
  unfolding tv_display
  tv_display_keeps target last_known product =
      Yields-if (is_restored target last_known)
        (λ _. tv_display_restored_keeps dev names I silent a in_eas product)
        (λ _. sync_display_keeps target product)

  pub post_reboot_keeps :
      (target last_known : PowerState) (product : Product)
      → product.ux.enable_silent_reboot_support ≡ silent
      → Yields I I
          (λ r. Kept product.ux r.1.ux)
          (apply_post_reboot_config dev names led_sync_in_bootup in_eas target last_known product)
  unfolding apply_post_reboot_config post_reboot_by
  post_reboot_keeps target last_known product f = by_profile product.ux.profile
    where
      by_profile :
          (profile : Profile)
          → Yields I I
              (Ends product.ux)
              (post_reboot_by dev names led_sync_in_bootup in_eas profile target last_known product)
      by_profile stb =
          Yields-bind {Q = Any} (led_keeps target product.ux)
            (λ _ _. Yields-bind (sync_display_keeps target product) (λ q k. Yields-pure _ k))
      by_profile stb_eu = Yields-bind {Q = Any} (led_in_bootup_keeps _ product) (λ _ _.
          Yields-bind (sync_display_keeps _ product)
            (λ q k. then_pattern product.ux q f k (fault_tolerant_keeps pattern_normal)))
      by_profile tv_eu =
          Yields-bind (sync_display_keeps _ product)
            (λ q k. then_pattern product.ux q f k (fault_tolerant_keeps (pattern_of_target target)))
      by_profile tv = Yields-bind {Q = Any} (led_in_bootup_keeps target product) (λ _ _.
          Yields-bind (tv_display_keeps target last_known product) (λ q k.
            then_pattern product.ux q f k (fault_tolerant_keeps (pattern_of_target target))))

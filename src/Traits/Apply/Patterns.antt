-- ===== src/Traits/Apply/Patterns.antt =====
-- The bootloader's pattern after a power state change of a TV.
use entservices_devicesettin.Prelude.{
  ◌≡◌, refl, subst, ◌∙◌, Bool, true, Option, none, some, [], ◌∷◌,
}
use entservices_devicesettin.Device.{
  Device, Calls, BlPattern, set_bootloader_pattern, pattern_normal, pattern_silent_led_on,
}
use entservices_devicesettin.Device.Log.{Any}
use entservices_devicesettin.Device.Returns.{
  Yields, Yields-bind, Yields-if, Yields-pure, Yields-ask,
}
use entservices_devicesettin.Power.{
  PowerState, power_on, power_unknown, power_off, power_standby, power_light_sleep,
  power_deep_sleep, PortNames,
}
use entservices_devicesettin.Traits.{
  Profile, stb, tv, stb_eu, tv_eu, UxController, Product, device_type_of, device_type_tv,
}
use entservices_devicesettin.Traits.Pattern.{set_pattern, set_pattern_internal}
use entservices_devicesettin.Traits.Reboot.Keeps.{display_keeps}
use entservices_devicesettin.Traits.Apply.{
  pattern_of_change, sync_display, internal, display_and_pattern, note_transition, change_by,
  apply_power_state_change_config,
}

-- The pattern that was asked for last.
abbrev pub last_pattern : Calls → Option BlPattern
last_pattern [] = none
last_pattern (set_bootloader_pattern pattern ∷ log) = some pattern
last_pattern (_ ∷ log) = last_pattern log

abbrev Last : BlPattern → Calls → Type 0
Last pattern log = last_pattern log ≡ some pattern

-- What the product asks of the bootloader in each power state.
abbrev pub pattern_in : PowerState → BlPattern
pattern_in power_on = pattern_normal
pattern_in power_unknown = pattern_silent_led_on
pattern_in power_off = pattern_silent_led_on
pattern_in power_standby = pattern_silent_led_on
pattern_in power_light_sleep = pattern_silent_led_on
pattern_in power_deep_sleep = pattern_silent_led_on

pattern_of_change_lem : (state : PowerState) → pattern_of_change state ≡ pattern_in state
pattern_of_change_lem power_on = refl
pattern_of_change_lem power_unknown = refl
pattern_of_change_lem power_off = refl
pattern_of_change_lem power_standby = refl
pattern_of_change_lem power_light_sleep = refl
pattern_of_change_lem power_deep_sleep = refl

module _ (dev : Device) (names : PortNames) (led_sync_in_bootup : Bool) (in_eas : Bool) where
  abbrev CalledOff : Bool × Product → Type 0
  CalledOff r = r.1.ux.invalidate_async_bootloader_pattern ≡ true

  set_pattern_lasts :
      (pattern : BlPattern) (ux : UxController)
      → ux.enable_silent_reboot_support ≡ true
      → Yields Any (Last pattern) Any (set_pattern dev pattern ux)
  unfolding set_pattern
  set_pattern_lasts pattern ux e =
      Yields-if ux.enable_silent_reboot_support (λ _. Yields-ask _ _ (λ log _. (tt, refl)))
        (λ h. absurd (cc))

  internal_lasts :
      (pattern : BlPattern) (product : Product)
      → product.ux.enable_silent_reboot_support ≡ true
      → Yields Any
          (Last pattern)
          CalledOff
          (internal dev names led_sync_in_bootup in_eas pattern product)
  unfolding internal set_pattern_internal
  internal_lasts pattern product e =
      Yields-bind {Q = λ (r : Bool × UxController). r.1.invalidate_async_bootloader_pattern ≡ true}
        (Yields-bind
          (set_pattern_lasts pattern
            (record product.ux { invalidate_async_bootloader_pattern = true }) e)
          (λ _ _. Yields-pure _ refl))
        (λ r k. Yields-pure _ k)

  display_and_pattern_lasts :
      (new_state : PowerState) (product : Product)
      → product.ux.enable_silent_reboot_support ≡ true
      → Yields Any
          (Last (pattern_in new_state))
          CalledOff
          (display_and_pattern dev names led_sync_in_bootup in_eas new_state product)
  unfolding display_and_pattern sync_display
  display_and_pattern_lasts new_state product e =
      Yields-bind
        (display_keeps dev names Any true
          (record {
            ports = λ _ _ _ _ _. tt;
            led = λ _ _ _. tt;
            check = λ _ _. tt;
            set_pattern = λ _ _ _ _. tt;
            retry_pattern = λ _ _ _ _. tt;
          })
          in_eas new_state product)
        (λ q k.
          subst
            (λ pattern.
              Yields Any (Last pattern) CalledOff
                (internal dev names led_sync_in_bootup in_eas (pattern_of_change new_state) q))
            (pattern_of_change_lem new_state)
            (internal_lasts (pattern_of_change new_state) q (k.silent ∙ e)))

  -- After a power state change of a TV product, European or not, with the silent reboot, the pattern that
  -- the bootloader was asked for last is the normal one if the new state is ON and the silent one with the
  -- LED on if not, and a retry of an older pattern that is still under way is called off.
  pub apply_power_state_change_config-last_pattern :
      (new_state prev_state : PowerState) (product : Product)
      → device_type_of product.ux.profile ≡ device_type_tv
      → product.ux.enable_silent_reboot_support ≡ true
      → Yields Any
          (λ log. last_pattern log ≡ some (pattern_in new_state))
          (λ r. r.1.ux.invalidate_async_bootloader_pattern ≡ true)
          (apply_power_state_change_config dev names led_sync_in_bootup in_eas new_state prev_state
            product)
  unfolding apply_power_state_change_config change_by
  apply_power_state_change_config-last_pattern new_state prev_state product t e =
      by_profile product.ux.profile t
    where
      by_profile :
          (profile : Profile)
          → device_type_of profile ≡ device_type_tv
          → Yields Any
              (Last (pattern_in new_state))
              CalledOff
              (change_by dev names led_sync_in_bootup in_eas profile new_state product)
      by_profile stb t = absurd (cc)
      by_profile stb_eu t = absurd (cc)
      by_profile tv t =
          display_and_pattern_lasts new_state
            (note_transition dev names led_sync_in_bootup in_eas product) e
      by_profile tv_eu t = display_and_pattern_lasts new_state product e

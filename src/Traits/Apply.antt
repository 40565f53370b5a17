-- ===== src/Traits/Apply.antt =====
-- plugin/DSProductTraitsHandler.cpp: the five operations that each profile overrides.
pub mod Keeps
pub mod Patterns
use entservices_devicesettin.Prelude.{ℕ, Bool, true, false, ◌&&◌, if◌then◌else◌}
use entservices_devicesettin.Device.{
  Device, M, pure, skip, ◌>>=◌, ◌>>◌, BlPattern, pattern_normal, pattern_silent,
  pattern_silent_led_on,
}
use entservices_devicesettin.Power.{
  PowerState, is_on, power_on, power_standby, power_light_sleep, power_deep_sleep, PortNames,
}
use entservices_devicesettin.Traits.{
  Profile, stb, tv, stb_eu, tv_eu, UxController, Product, sync_power_led_with_power_state,
  sync_display_ports_with_power_state,
}
use entservices_devicesettin.Traits.Pattern.{set_pattern_internal, set_pattern_fault_tolerant}
use entservices_devicesettin.Traits.Reboot.{is_standby, tv_display_restored}

abbrev pub pattern_of_change : PowerState → BlPattern
pattern_of_change power_state = if is_on power_state then pattern_normal else pattern_silent_led_on

-- The pattern of the TV profiles after a reboot.
abbrev pub pattern_of_target : PowerState → BlPattern
pattern_of_target power_standby = pattern_silent_led_on
pattern_of_target power_light_sleep = pattern_silent_led_on
pattern_of_target power_deep_sleep = pattern_silent_led_on
pattern_of_target _ = pattern_normal

-- The state before the reboot was ON, and the target is STANDBY.
abbrev pub is_restored : PowerState → PowerState → Bool
is_restored target last_known = is_on last_known && is_standby target

module _ (dev : Device) (names : PortNames) (led_sync_in_bootup : Bool) (in_eas : Bool) where
  sync_display : PowerState → Product → M Product
  sync_display power_state product =
      sync_display_ports_with_power_state dev names in_eas power_state product

  internal : BlPattern → Product → M (Bool × Product)
  internal pattern product = do
    r ← set_pattern_internal dev pattern product.ux
    pure (r.0, record product { ux = r.1 })

  fault_tolerant : BlPattern → Product → M (Bool × Product)
  fault_tolerant pattern product = do
    r ← set_pattern_fault_tolerant dev pattern product.ux
    pure (r.0, record product { ux = r.1 })

  display_and_led : PowerState → Product → M (Bool × Product)
  unfolding sync_display
  display_and_led new_state product = do
    changed ← sync_display new_state product
    sync_power_led_with_power_state dev names new_state changed.ux
    pure (true, changed)

  display_and_pattern : PowerState → Product → M (Bool × Product)
  unfolding sync_display internal
  display_and_pattern new_state product = do
    changed ← sync_display new_state product
    internal (pattern_of_change new_state) changed

  abbrev note_transition : Product → Product
  note_transition product = record product {
    ux = record product.ux { first_power_transition_complete = true };
  }

  change_by : Profile → PowerState → Product → M (Bool × Product)
  unfolding display_and_led display_and_pattern
  change_by stb new_state product = display_and_led new_state product
  change_by stb_eu new_state product = display_and_led new_state product
  change_by tv_eu new_state product = display_and_pattern new_state product
  change_by tv new_state product = display_and_pattern new_state (note_transition product)

  -- No profile reads the previous state.
  unfoldable pub apply_power_state_change_config :
      PowerState → PowerState → Product → M (Bool × Product)
  unfolding change_by
  apply_power_state_change_config new_state prev_state product =
      change_by product.ux.profile new_state product

  -- ApplyPreRebootConfig
  unfoldable pub apply_pre_reboot_config : PowerState → Product → M (Bool × Product)
  apply_pre_reboot_config current_state product = pure (true, product)

  maintenance_by : Profile → PowerState → Product → M (Bool × Product)
  unfolding internal
  maintenance_by stb current_state product = pure (true, product)
  maintenance_by tv current_state product =
      if is_on current_state then pure (true, product) else internal pattern_silent_led_on product
  maintenance_by stb_eu current_state product =
      if is_on current_state then pure (true, product) else internal pattern_silent product
  maintenance_by tv_eu current_state product =
      if is_on current_state then pure (true, product) else internal pattern_silent product

  unfoldable pub apply_pre_maintenance_reboot_config : PowerState → Product → M (Bool × Product)
  unfolding maintenance_by
  apply_pre_maintenance_reboot_config current_state product =
      maintenance_by product.ux.profile current_state product

  led_in_bootup : PowerState → Product → M (Unit {0})
  led_in_bootup power_state product =
      if led_sync_in_bootup
      then sync_power_led_with_power_state dev names power_state product.ux
      else skip

  -- The state that the European profiles show.
  abbrev shown_state : PowerState → PowerState → PowerState
  shown_state target last_known = if is_restored target last_known then power_on else target

  tv_display : PowerState → PowerState → Product → M Product
  unfolding sync_display
  tv_display target last_known product =
      if is_restored target last_known
      then tv_display_restored dev names in_eas product
      else sync_display target product

  post_reboot_by : Profile → PowerState → PowerState → Product → M (Bool × Product)
  unfolding sync_display fault_tolerant led_in_bootup tv_display
  post_reboot_by stb target last_known product = do
    sync_power_led_with_power_state dev names target product.ux
    changed ← sync_display target product
    pure (true, changed)
  post_reboot_by stb_eu target last_known product = do
    led_in_bootup (shown_state target last_known) product
    changed ← sync_display (shown_state target last_known) product
    fault_tolerant pattern_normal changed
  post_reboot_by tv_eu target last_known product = do
    changed ← sync_display (shown_state target last_known) product
    fault_tolerant (pattern_of_target target) changed
  post_reboot_by tv target last_known product = do
    led_in_bootup target product
    changed ← tv_display target last_known product
    fault_tolerant (pattern_of_target target) changed

  unfoldable pub apply_post_reboot_config : PowerState → PowerState → Product → M (Bool × Product)
  unfolding post_reboot_by
  apply_post_reboot_config target last_known product =
      post_reboot_by product.ux.profile target last_known product

  -- GetPreferredPostRebootPowerState
  unfoldable pub preferred_post_reboot_power_state : Product → PowerState → PowerState
  preferred_post_reboot_power_state product prev_state = elim (product.ux.profile) [
    | stb ↦ prev_state
    | _ ↦ power_standby
  ]

-- ===== src/Traits/Runs.antt =====
-- plugin/DSProductTraitsHandler.cpp: sequences of the operations that the power listener and the
-- reboot-reason thread call.
pub mod Transitions
use entservices_devicesettin.Prelude.{ℕ, Bool, false, List, [], ◌∷◌}
use entservices_devicesettin.Device.{Device, M, pure, ◌>>=◌}
use entservices_devicesettin.Power.{PowerState, PortNames}
use entservices_devicesettin.Traits.{Product}
use entservices_devicesettin.Traits.Reboot.{schedule_reboot_reason_check}
use entservices_devicesettin.Traits.Apply.{
  apply_power_state_change_config, apply_pre_reboot_config, apply_pre_maintenance_reboot_config,
  apply_post_reboot_config,
}

-- The Boolean is the EAS mode at the time.
pub data Operation : Type 0 where
  power_state_change : Bool → PowerState → PowerState → Operation
  pre_reboot : PowerState → Operation
  pre_maintenance_reboot : PowerState → Operation
  post_reboot : Bool → PowerState → PowerState → Operation
  reboot_reason_check : Bool → ℕ → Operation

module _ (dev : Device) (names : PortNames) (led_sync_in_bootup : Bool) where
  unfoldable pub run_operation : Operation → Product → M Product
  run_operation (power_state_change in_eas new_state prev_state) product = do
    r ←
        apply_power_state_change_config dev names led_sync_in_bootup in_eas new_state prev_state
          product
    pure r.1
  run_operation (pre_reboot state) product = do
    r ← apply_pre_reboot_config dev names led_sync_in_bootup false state product
    pure r.1
  run_operation (pre_maintenance_reboot state) product = do
    r ← apply_pre_maintenance_reboot_config dev names led_sync_in_bootup false state product
    pure r.1
  run_operation (post_reboot in_eas target last_known) product = do
    r ← apply_post_reboot_config dev names led_sync_in_bootup in_eas target last_known product
    pure r.1
  run_operation (reboot_reason_check in_eas retry_count) product = do
    r ← schedule_reboot_reason_check dev names in_eas retry_count product
    pure r.1

  unfoldable pub run_operations : List Operation → Product → M Product
  unfolding run_operation
  run_operations [] product = pure product
  run_operations (op ∷ ops) product = do
    changed ← run_operation op product
    run_operations ops changed

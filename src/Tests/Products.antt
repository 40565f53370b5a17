-- ===== src/Tests/Products.antt =====
-- The product's controller on concrete inputs.
use entservices_devicesettin.Prelude.{
  ◌≡◌, refl, Bool, true, false, none, some, [], ◌∷◌, codes, arith,
}
use entservices_devicesettin.Device.{pure, pattern_normal, pattern_silent_led_on}
use entservices_devicesettin.Device.Log.{Any}
use entservices_devicesettin.Device.Returns.{Returns, Yields, Yields-pure}
use entservices_devicesettin.Power.{power_on, power_standby, PortNames}
use entservices_devicesettin.Traits.{Product, Profile, stb, tv, construct}
use entservices_devicesettin.Traits.Pattern.{pattern_retries, set_pattern_async}
use entservices_devicesettin.Traits.Pattern.Retries.{Tried, set_pattern_async-Tried}
use entservices_devicesettin.Traits.Reboot.{
  RebootType, sync_display_ports_with_reboot_reason, reboot_reason_checks,
}
use entservices_devicesettin.Traits.Reboot.Late.{reboot_reason_checks_end}
use entservices_devicesettin.Traits.Apply.{apply_power_state_change_config}
use entservices_devicesettin.Traits.Apply.Patterns.{
  last_pattern, apply_power_state_change_config-last_pattern,
}
use entservices_devicesettin.Traits.Runs.{
  run_operations, power_state_change, pre_maintenance_reboot,
}
use entservices_devicesettin.Traits.Runs.Transitions.{
  NoPattern, run_operations_stb, run_operations_tv_decided,
}
use entservices_devicesettin.Tests.Samples.{sample_device}

abbrev sample_names : PortNames
sample_names = record { video = λ type index. codes "HDMI0"; audio = λ type index. codes "SPDIF0" }

abbrev product_of_profile : Profile → Product
product_of_profile profile = record { ux = construct profile true; listener = none }

abbrev tv_product : Product
tv_product = product_of_profile tv

abbrev stb_product : Product
stb_product = product_of_profile stb

set_pattern_async-Tried_example :
    Returns
      (λ _ log'. Tried sample_device (λ n. false) pattern_normal 12 [] log')
      (set_pattern_async sample_device pattern_retries (λ n. false) pattern_normal tv_product.ux [])
set_pattern_async-Tried_example =
    set_pattern_async-Tried sample_device (λ n. false) pattern_normal tv_product.ux refl 12 []

reboot_reason_checks_end_example :
    Yields {A = Bool × Product} Any Any
      (λ r. r.0 ≡ true)
      (reboot_reason_checks sample_device sample_names 61 false (λ q. pure q) 0 tv_product)
reboot_reason_checks_end_example =
    reboot_reason_checks_end sample_device sample_names 61 false (λ q. pure q) 0 tv_product
      (λ q. Yields-pure q tt) (omega arith) (omega arith)

run_operations_stb_example :
    Yields NoPattern NoPattern
      (λ (q : Product). q.ux.profile ≡ stb)
      (run_operations sample_device sample_names false
        (power_state_change false power_standby power_on
          ∷ pre_maintenance_reboot power_standby
          ∷ [])
        stb_product)
run_operations_stb_example =
    run_operations_stb sample_device sample_names false
      (power_state_change false power_standby power_on ∷ pre_maintenance_reboot power_standby ∷ [])
      stb_product true refl

run_operations_tv_decided_example :
    Yields Any Any
      (λ (q : Product).
        (in_eas : Bool) (reboot_type : RebootType)
        → sync_display_ports_with_reboot_reason sample_device sample_names in_eas reboot_type q
          ≡ pure q)
      (run_operations sample_device sample_names false
        (power_state_change false power_on power_standby ∷ pre_maintenance_reboot power_on ∷ [])
        tv_product)
run_operations_tv_decided_example =
    run_operations_tv_decided sample_device sample_names false false power_on power_standby
      (pre_maintenance_reboot power_on ∷ []) tv_product refl

apply_power_state_change_config-last_pattern_example :
    Yields Any
      (λ log. last_pattern log ≡ some pattern_silent_led_on)
      (λ (r : Bool × Product). r.1.ux.invalidate_async_bootloader_pattern ≡ true)
      (apply_power_state_change_config sample_device sample_names false false power_standby power_on
        tv_product)
apply_power_state_change_config-last_pattern_example =
    apply_power_state_change_config-last_pattern sample_device sample_names false false
      power_standby power_on tv_product refl refl

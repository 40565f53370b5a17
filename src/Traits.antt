-- ===== src/Traits.antt =====
-- plugin/DSProductTraitsHandler.cpp and .h: the controller of the product's user experience. The four
-- profiles are its subclasses. The mutex is held within one operation at most, so it is left out.
pub mod Pattern
pub mod Reboot
pub mod Apply
pub mod Runs
pub mod Kept
use entservices_devicesettin.Prelude.{
  ℕ, zero, suc, Bool, true, false, Option, none, some, if◌then◌else◌,
}
use entservices_devicesettin.Device.{
  Device, M, pure, ask, skip, ◌>>=◌, ◌>>◌, FpdState, fpd_on, fpd_off, set_fpd_state,
}
use entservices_devicesettin.Power.{PowerState, is_on, PortNames, Listener}
use entservices_devicesettin.Power.Ports.{set_av_ports_power_state}

-- The subclasses: UXControllerStb, UXControllerTv, UXControllerStbEu and UXControllerTvEu.
pub data Profile : Type 0 where
  stb tv stb_eu tv_eu : Profile

pub data DeviceType : Type 0 where
  device_type_stb device_type_tv : DeviceType

pub data PowerMode : Type 0 where
  power_mode_on power_mode_light_sleep power_mode_last_known power_mode_unspecified : PowerMode

-- `device_settings`: the pointer is not null.
pub record UxController : Type 0 where
  pub profile : Profile
  pub device_type : DeviceType
  pub invalidate_async_bootloader_pattern : Bool
  pub first_power_transition_complete : Bool
  pub device_settings : Bool
  pub enable_multi_colour_led_support : Bool
  pub led_enabled_in_standby : Bool
  pub led_color_in_standby : ℕ
  pub led_enabled_in_on_state : Bool
  pub led_color_in_on_state : ℕ
  pub prefered_power_mode_on_reboot : PowerMode
  pub enable_silent_reboot_support : Bool

-- The controller, and the power listener if there is one.
pub record Product : Type 0 where
  pub ux : UxController
  pub listener : Option Listener

abbrev pub device_type_of : Profile → DeviceType
device_type_of stb = device_type_stb
device_type_of stb_eu = device_type_stb
device_type_of tv = device_type_tv
device_type_of tv_eu = device_type_tv

abbrev is_stb : DeviceType → Bool
is_stb device_type_stb = true
is_stb device_type_tv = false

-- The constructor of the base class with InitializeSafeDefaults; `present`: DeviceSettingsImp::instance()
-- is not null.
abbrev pub safe_defaults : Profile → DeviceType → Bool → UxController
safe_defaults profile device_type present = record {
  profile = profile;
  device_type = device_type;
  invalidate_async_bootloader_pattern = false;
  first_power_transition_complete = false;
  device_settings = present;
  enable_multi_colour_led_support = false;
  led_enabled_in_standby = if is_stb device_type then false else true;
  led_color_in_standby = 0;
  led_enabled_in_on_state = if is_stb device_type then true else false;
  led_color_in_on_state = 0;
  prefered_power_mode_on_reboot = power_mode_last_known;
  enable_silent_reboot_support = true;
}

-- The constructors of the subclasses.
abbrev pub construct : Profile → Bool → UxController
construct stb present = record (safe_defaults stb device_type_stb present) {
  prefered_power_mode_on_reboot = power_mode_last_known;
  enable_silent_reboot_support = false;
}
construct tv present = record (safe_defaults tv device_type_tv present) {
  prefered_power_mode_on_reboot = power_mode_light_sleep;
}
construct stb_eu present = record (safe_defaults stb_eu device_type_stb present) {
  prefered_power_mode_on_reboot = power_mode_light_sleep;
}
construct tv_eu present = record (safe_defaults tv_eu device_type_tv present) {
  prefered_power_mode_on_reboot = power_mode_light_sleep;
}

-- The profile ids DEFAULT_STB_PROFILE to DEFAULT_TV_PROFILE_EUROPE count from 0; another id is refused.
unfoldable pub initialize : ℕ → Bool → Option UxController
initialize zero present = some (construct stb present)
initialize (suc zero) present = some (construct tv present)
initialize (suc (suc zero)) present = some (construct stb_eu present)
initialize (suc (suc (suc zero))) present = some (construct tv_eu present)
initialize (suc (suc (suc (suc profile_id)))) present = none

unfoldable pub led_state : UxController → PowerState → FpdState
led_state ux power_state =
    if (if is_on power_state then ux.led_enabled_in_on_state else ux.led_enabled_in_standby)
    then fpd_on
    else fpd_off

module _ (dev : Device) (names : PortNames) where
  unfoldable pub sync_power_led_with_power_state : PowerState → UxController → M (Unit {0})
  unfolding led_state
  sync_power_led_with_power_state power_state ux =
      if ux.device_settings
      then (do
        result ←
            ask (λ log. dev.fpd_state_set log (led_state ux power_state))
              (set_fpd_state (led_state ux power_state))
        skip)
      else skip

  -- `in_eas`: the EAS mode of the DSController.
  unfoldable pub sync_display_ports_with_power_state : Bool → PowerState → Product → M Product
  sync_display_ports_with_power_state in_eas power_state product = elim (product.listener) [
    | none ↦ pure product
    | some listener ↦ do
      changed ← set_av_ports_power_state dev names in_eas power_state listener
      pure (record product { listener = some changed })
  ]

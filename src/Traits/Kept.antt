-- ===== src/Traits/Kept.antt =====
-- What every operation of the product's controller leaves as it is, and which calls it makes.
use entservices_devicesettin.Prelude.{◌≡◌, refl, ◌∙◌, Bool, true}
use entservices_devicesettin.Device.{
  Call, Calls, BlPattern, FpdState, set_bootloader_pattern, start_pattern_retry,
  start_reboot_reason_check, set_fpd_state,
}
use entservices_devicesettin.Device.Log.{Stable}
use entservices_devicesettin.Power.Ports.Switching.{IsPortCall}
use entservices_devicesettin.Traits.{UxController}

-- The profile and the support for the silent reboot stay, and a transition made once stays made.
pub record Kept (ux ux' : UxController) : Type 0 where
  pub profile : ux'.profile ≡ ux.profile
  pub silent : ux'.enable_silent_reboot_support ≡ ux.enable_silent_reboot_support
  pub decided :
      ux.first_power_transition_complete ≡ true → ux'.first_power_transition_complete ≡ true

pub Kept-refl : (ux : UxController) → Kept ux ux
Kept-refl ux = record { profile = refl; silent = refl; decided = λ h. h }

pub Kept-trans : {a b c : UxController} → Kept a b → Kept b c → Kept a c
Kept-trans h k = record {
  profile = k.profile ∙ h.profile;
  silent = k.silent ∙ h.silent;
  decided = λ d. k.decided (h.decided d);
}

-- The statement on logs stands every call of the operations; those on the bootloader pattern are made by
-- products with the silent reboot only.
pub record Admits (I : Calls → Type 0) (silent : Bool) : Type 0 where
  pub ports : (b : Bool) (call : Call) → IsPortCall b call → Stable I call
  pub led : (state : FpdState) → Stable I (set_fpd_state state)
  pub check : Stable I start_reboot_reason_check
  pub set_pattern :
      silent ≡ true → (pattern : BlPattern) → Stable I (set_bootloader_pattern pattern)
  pub retry_pattern : silent ≡ true → (pattern : BlPattern) → Stable I (start_pattern_retry pattern)

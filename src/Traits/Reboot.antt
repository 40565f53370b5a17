-- ===== src/Traits/Reboot.antt =====
-- plugin/DSProductTraitsHandler.cpp: the reason of the last reboot, and the display after a reboot.
pub mod Late
pub mod Keeps
use entservices_devicesettin.Prelude.{
  ℕ, zero, suc, Bool, true, false, Option, none, some, List, [], ◌∷◌, Bytes, codes, strstr, ◌||◌,
  ltb, if◌then◌else◌,
}
use entservices_devicesettin.Device.{
  Device, Calls, M, pure, tell, ◌>>=◌, ◌>>◌, start_reboot_reason_check,
}
use entservices_devicesettin.Power.{PowerState, is_on, power_on, power_standby, PortNames, Listener}
use entservices_devicesettin.Traits.{
  Profile, stb, tv, stb_eu, tv_eu, UxController, Product, sync_display_ports_with_power_state,
}

pub data RebootType : Type 0 where
  hard soft unavailable : RebootType

abbrev pub is_standby : PowerState → Bool
is_standby power_standby = true
is_standby _ = false

abbrev hard_reboot_match : Bytes
hard_reboot_match = codes "\"reason\":\"POWER_ON_RESET\""

abbrev pub any_hard_line : List Bytes → Bool
any_hard_line [] = false
any_hard_line (line ∷ lines) = strstr line hard_reboot_match || any_hard_line lines

-- `none`: the file does not open.
unfoldable pub read_reboot_info : Option (List Bytes) → RebootType
read_reboot_info none = soft
read_reboot_info (some lines) = if any_hard_line lines then hard else soft

abbrev pub reboot_reason_retries : ℕ
reboot_reason_retries = 60

module _ (dev : Device) (names : PortNames) where
  unfoldable pub get_reboot_type : Calls → RebootType
  unfolding read_reboot_info
  get_reboot_type log =
      if dev.reboot_info_updated log
      then read_reboot_info (dev.reboot_info_lines log)
      else unavailable

  abbrev pub display_after : RebootType → PowerState
  display_after hard = power_standby
  display_after _ = power_on

  unless_decided : Bool → Bool → RebootType → Product → M Product
  unless_decided in_eas true reboot_type product = pure product
  unless_decided in_eas false reboot_type product =
      sync_display_ports_with_power_state dev names in_eas (display_after reboot_type) product

  -- Only UXControllerTv overrides the empty method.
  unfoldable pub sync_display_ports_with_reboot_reason : Bool → RebootType → Product → M Product
  unfolding unless_decided
  sync_display_ports_with_reboot_reason in_eas reboot_type product = elim (product.ux.profile) [
    | tv ↦ unless_decided in_eas product.ux.first_power_transition_complete reboot_type product
    | _ ↦ pure product
  ]

  -- ScheduleRebootReasonCheck. The result says with which count a new thread checks again, 2 seconds later.
  check_by : Bool → ℕ → RebootType → Product → M (Option ℕ × Product)
  check_by in_eas retry_count unavailable product =
      if ltb retry_count reboot_reason_retries
      then (do tell start_reboot_reason_check; pure (some (suc retry_count), product))
      else pure (none, product)
  check_by in_eas retry_count reboot_type product = do
    changed ← sync_display_ports_with_reboot_reason in_eas reboot_type product
    pure (none, changed)

  unfoldable pub schedule_reboot_reason_check : Bool → ℕ → Product → M (Option ℕ × Product)
  unfolding check_by
  schedule_reboot_reason_check in_eas retry_count product log =
      check_by in_eas retry_count (get_reboot_type log) product log

  -- The checks on the threads that follow one another; `between` is what the other threads do while one
  -- sleeps. `false`: the fuel ran out.
  unfoldable pub reboot_reason_checks :
      ℕ → Bool → (Product → M Product) → ℕ → Product → M (Bool × Product)
  reboot_reason_checks zero in_eas between retry_count product = pure (false, product)
  reboot_reason_checks (suc fuel) in_eas between retry_count product = do
    r ← schedule_reboot_reason_check in_eas retry_count product
    elim (r.0) [
      | none ↦ pure (true, r.1)
      | some next ↦ do slept ← between r.1; reboot_reason_checks fuel in_eas between next slept
    ]

  -- UXControllerTv's display after a reboot that asks for standby where the state before was ON.
  unfoldable pub tv_display_by : Bool → RebootType → Product → M Product
  tv_display_by in_eas hard product =
      sync_display_ports_with_power_state dev names in_eas power_standby product
  tv_display_by in_eas soft product =
      sync_display_ports_with_power_state dev names in_eas power_on product
  tv_display_by in_eas unavailable product = do
    r ← schedule_reboot_reason_check in_eas 0 product
    pure r.1

  unfoldable pub tv_display_restored : Bool → Product → M Product
  unfolding tv_display_by
  tv_display_restored in_eas product log =
      (if dev.force_display_flag log
          then sync_display_ports_with_power_state dev names in_eas power_on product
          else tv_display_by in_eas (get_reboot_type log) product)
        log

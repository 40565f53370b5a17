-- ===== src/Power/Handlers.antt =====
-- plugin/DSPwrEventListener.cpp: what the power listener does with a power event, after it connects, and
-- for the five IARM calls. The IARM calls are not registered at this commit; their bodies are compiled.
pub mod Standby
use entservices_devicesettin.Prelude.{
  ℕ, zero, suc, ◌-◌, Bool, true, false, not, ◌&&◌, Option, none, some, List, [], ◌∷◌, Bytes, take,
  str_eq, ◌==◌, if◌then◌else◌,
}
use entservices_devicesettin.Device.{Device, M, pure, skip, ◌>>=◌, ◌>>◌, error_none}
use entservices_devicesettin.Power.{
  PowerState, is_on, is_off, power_unknown, power_off, power_on, power_standby, power_light_sleep,
  power_deep_sleep, VideoPortEntry, PortNames, Listener, is_device_settings_ready,
}
use entservices_devicesettin.Power.Standby.{get_video_port_standby_setting, store_standby_setting}
use entservices_devicesettin.Power.Ports.{
  configure_video_port, set_av_ports_power_state, set_led_status,
}
use entservices_devicesettin.Traits.{UxController, Product}
use entservices_devicesettin.Traits.Apply.{
  apply_power_state_change_config, apply_pre_reboot_config, apply_pre_maintenance_reboot_config,
  apply_post_reboot_config,
}

-- The listener with the global `ux` and the member _curState.
pub record Handler : Type 0 where
  pub ux : Option UxController
  pub listener : Listener
  pub cur_state : PowerState

-- PwrMgrToPowerControllerPowerState
unfoldable pub power_state_of : ℕ → PowerState
power_state_of zero = power_off
power_state_of (suc zero) = power_standby
power_state_of (suc (suc zero)) = power_on
power_state_of (suc (suc (suc zero))) = power_light_sleep
power_state_of (suc (suc (suc (suc zero)))) = power_deep_sleep
power_state_of (suc (suc (suc (suc (suc n))))) = power_unknown

abbrev pub is_unknown : PowerState → Bool
is_unknown power_unknown = true
is_unknown _ = false

-- The first entry of the name.
unfoldable pub resolve_entry : List VideoPortEntry → Bytes → Option VideoPortEntry
resolve_entry [] name = none
resolve_entry (e ∷ es) name = if str_eq e.name name then some e else resolve_entry es name

-- The product that the controller acts on, and the handler after it has acted.
abbrev product_of : Handler → UxController → Product
product_of h ux = record { ux = ux; listener = some h.listener }

abbrev listener_or : Listener → Option Listener → Listener
listener_or p none = p
listener_or p (some q) = q

abbrev after_product : Handler → Product → Handler
after_product h product = record h {
  ux = some product.ux;
  listener = listener_or h.listener product.listener;
}

-- `tv`: the profile is TV; `led_sync_in_bootup`: ENABLE_LED_SYNC_IN_BOOTUP is defined; `in_eas`: the
-- DSController's EAS mode.
module _ (dev : Device) (names : PortNames) (led_sync_in_bootup tv in_eas : Bool) where
  -- Without a controller the LED and the ports are set here.
  set_without_ux : PowerState → Handler → M Handler
  set_without_ux power_state h = do
    led ←
        (if led_sync_in_bootup
          then set_led_status dev names tv power_state h.listener
          else pure (true, h.listener))
    ports ← set_av_ports_power_state dev names in_eas power_state led.1
    pure (record h { listener = ports })

  handle_by : Option UxController → PowerState → PowerState → Handler → M Handler
  unfolding set_without_ux
  handle_by none current_state new_state h = set_without_ux new_state h
  handle_by (some ux) current_state new_state h = do
    r ←
        apply_power_state_change_config dev names led_sync_in_bootup in_eas new_state current_state
          (product_of h ux)
    pure (after_product h r.1)

  unfoldable pub handle_pwr_event_data : PowerState → PowerState → Handler → M Handler
  unfolding handle_by
  handle_pwr_event_data current_state new_state h = handle_by h.ux current_state new_state h

  abbrev or_standby : Option PowerState → PowerState
  or_standby none = power_standby
  or_standby (some state) = state

  init_by : Option UxController → PowerState → Handler → M Handler
  unfolding set_without_ux
  init_by none before h = set_without_ux h.cur_state h
  init_by (some ux) before h = do
    r ←
        apply_post_reboot_config dev names led_sync_in_bootup in_eas h.cur_state before
          (product_of h ux)
    pure (after_product h r.1)

  -- PwrControllerFetchNinitStateValues: `before`, the answer to GetPowerStateBeforeReboot, if any.
  unfoldable pub fetch_and_init_state_values : Option PowerState → Handler → M Handler
  unfolding init_by
  fetch_and_init_state_values before h = init_by h.ux (or_standby before) h

  -- The state is one of the standby states, or UNKNOWN.
  abbrev pub is_neither_on_nor_off : PowerState → Bool
  is_neither_on_nor_off power_state = not (is_on power_state) && not (is_off power_state)

  configure_resolved : Option VideoPortEntry → Bool → Listener → M (Bool × Listener)
  configure_resolved none enable p = pure (false, p)
  configure_resolved (some e) enable p = do
    r ← configure_video_port dev names e enable p
    pure (r.0 == error_none, r.1)

  resolve_if_ready : Bytes → Bool → Bool × Listener → M (Bool × Listener)
  unfolding configure_resolved
  resolve_if_ready port enable (false, p) = pure (false, p)
  resolve_if_ready port enable (true, p) =
      configure_resolved (resolve_entry p.video_port_entries port) enable p

  -- The part of SetStandbyVideoState that applies the setting; `false` stands for the result -1.
  apply_immediately : Bytes → Bool → Listener → M (Bool × Listener)
  unfolding resolve_if_ready
  apply_immediately port enable p = do
    ready ← is_device_settings_ready dev names p
    resolve_if_ready port enable ready

  abbrev with_setting : Bytes → ℕ → Listener → Listener
  with_setting port is_enabled p = record p {
    standby_video_port_setting =
        store_standby_setting p.standby_video_port_setting port (not (is_enabled == 0));
  }

  -- What is stored is `is_enabled ≠ 0`, what is applied is `is_enabled = 1`.
  unfoldable pub set_standby_video_state : Bytes → ℕ → Handler → M (Bool × Handler)
  unfolding apply_immediately
  set_standby_video_state port is_enabled h =
      if is_neither_on_nor_off h.cur_state
      then (do
        r ← apply_immediately port (is_enabled == 1) (with_setting port is_enabled h.listener)
        pure (r.0, record h { listener = r.1 }))
      else pure (true, record h { listener = with_setting port is_enabled h.listener })

  unfoldable pub get_standby_video_state : Bytes → Handler → Bool
  get_standby_video_state port h =
      get_video_port_standby_setting h.listener.standby_video_port_setting port

  -- SetAvPortState; an unknown number changes nothing.
  unfoldable pub set_av_port_state : ℕ → Handler → M Handler
  set_av_port_state state h = if is_unknown (power_state_of state) then pure h else (do
    p ← set_av_ports_power_state dev names in_eas (power_state_of state) h.listener
    pure (record h { listener = p }))

  unfoldable pub set_led_state : ℕ → Handler → M Handler
  set_led_state state h = if is_unknown (power_state_of state) then pure h else (do
    r ← set_led_status dev names tv (power_state_of state) h.listener
    pure (record h { listener = r.1 }))

  reboot_with : Bool → PowerState → Product → M (Bool × Product)
  reboot_with true power_state product =
      apply_pre_maintenance_reboot_config dev names led_sync_in_bootup in_eas power_state product
  reboot_with false power_state product =
      apply_pre_reboot_config dev names led_sync_in_bootup in_eas power_state product

  reboot_by : Option UxController → Bool → PowerState → Handler → M Handler
  unfolding reboot_with
  reboot_by none maintenance power_state h = pure h
  reboot_by (some ux) maintenance power_state h = if is_unknown power_state then pure h else (do
    r ← reboot_with maintenance power_state (product_of h ux)
    pure (after_product h r.1))

  -- SetRebootConfig; `size` is the size of the buffer of the reason, `maintenance_reason` the text of
  -- PWRMGR_REBOOT_REASON_MAINTENANCE.
  unfoldable pub set_reboot_config : ℕ → Bytes → Bytes → ℕ → Handler → M Handler
  unfolding reboot_by
  set_reboot_config size maintenance_reason reason state h =
      reboot_by h.ux (str_eq maintenance_reason (take (size - 1) reason)) (power_state_of state) h

-- ===== src/Controller.antt =====
-- plugin/DSController.cpp: the controller's state and the handlers of its events. The handlers run
-- calls of the DeviceSettings implementation, of glib and of IARM (Device.antt).
pub mod Video
pub mod Audio
pub mod Events
use entservices_devicesettin.Prelude.{
  ℕ, Bool, true, false, Option, none, some, List, Bytes, ◌==◌, if◌then◌else◌,
}
use entservices_devicesettin.Device.{
  Device, Reply, M, pure, ask, ◌>>=◌, VideoPortType, hdmi, component, bb, error_none,
  get_video_port, is_video_port_display_connected,
}

-- `_displayEventStatus`; `event_max` stands for dsDISPLAY_EVENT_MAX, no event.
pub data DisplayEvent : Type 0 where
  connected disconnected event_max : DisplayEvent

-- `other_sys_mode` is any mode but NORMAL and EAS.
pub data SysMode : Type 0 where
  normal eas : SysMode
  other_sys_mode : ℕ → SysMode

-- `device_settings`: the pointer `_deviceSettings` is not null. `hotplug_event_src` is 0 where no
-- timer is pending.
pub record Controller : Type 0 where
  pub device_settings : Bool
  pub is_eu_platform : Bool
  pub fall_back_resolution_list : List Bytes
  pub tune_ready : Bool
  pub hotplug_event_src : ℕ
  pub hdcp_authenticated : Bool
  pub ignore_edid : Bool
  pub bootup_flag_enabled : Bool
  pub display_event_status : DisplayEvent
  pub thread_exit_flag : Bool
  pub eas_mode : SysMode

-- The output parameter of a call that succeeded, and otherwise the default that the callers set.
abbrev pub value_or : {A : Type 0} → A → Reply A → A
value_or default r = if r.result == error_none then r.value else default

module _ (dev : Device) (c : Controller) where
  -- 0 is no handle.
  unfoldable pub get_video_port_handle : VideoPortType → M ℕ
  get_video_port_handle port =
      if c.device_settings
      then (do
        r ← ask (λ log. dev.video_port log port 0) (get_video_port port 0)
        pure (value_or 0 r))
      else pure 0

  display_is_connected : ℕ → M Bool
  display_is_connected handle = if handle == 0 then pure false else do
    r ← ask (λ log. dev.display_connected log handle) (is_video_port_display_connected handle)
    pure (value_or false r)

  unfoldable pub is_hdmi_connected : M Bool
  unfolding display_is_connected
  is_hdmi_connected =
      if c.device_settings
      then (do handle ← get_video_port_handle hdmi; display_is_connected handle)
      else pure false

  is_some_handle : ℕ → Bool
  is_some_handle handle = if handle == 0 then false else true

  composite_port_present : M Bool
  unfolding is_some_handle
  composite_port_present = do handle ← get_video_port_handle bb; pure (is_some_handle handle)

  unfoldable pub is_component_port_present : M Bool
  unfolding composite_port_present
  is_component_port_present = do
    handle ← get_video_port_handle component
    if handle == 0 then composite_port_present else pure true

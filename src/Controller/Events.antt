-- ===== src/Controller/Events.antt =====
-- plugin/DSController.cpp: the handlers of IARM events, display notifications and timers.
pub mod Hdcp
pub mod Ignored
pub mod Thread
use entservices_devicesettin.Prelude.{ℕ, Bool, true, false, not, ◌||◌, ◌==◌, if◌then◌else◌}
use entservices_devicesettin.Device.{
  Device, M, pure, tell, skip, ◌>>=◌, ◌>>◌, bgcolor_none, bgcolor_blue, remove_source,
  schedule_edid_dump, broadcast_hdcp_state,
}
use entservices_devicesettin.Controller.{
  Controller, DisplayEvent, connected, disconnected, event_max, SysMode, normal, eas,
  other_sys_mode,
}
use entservices_devicesettin.Controller.Video.{apply_video_port_resolution, apply_background_color}
use entservices_devicesettin.Controller.Audio.{set_audio_mode, set_eas_audio_mode}

-- `other_status` is any status but the two that are handled.
pub data HdcpStatus : Type 0 where
  authenticated authentication_failure other_status : HdcpStatus

-- g_source_remove, if a timer is pending.
unfoldable pub clear_hotplug_source : Controller → M Controller
clear_hotplug_source c =
    if c.hotplug_event_src == 0
    then pure c
    else do tell (remove_source c.hotplug_event_src); pure (record c { hotplug_event_src = 0 })

-- What the handler writes under the mutex; the resolution thread is signalled.
unfoldable pub note_display_event : Bool → Controller → Controller
note_display_event plugged c = record c {
  display_event_status = if plugged then connected else disconnected;
}

-- The check of the TuneReady state at the end of `Start`.
unfoldable pub start_tune_ready : Bool → Controller → Controller
start_tune_ready false c = c
start_tune_ready true c = record c { tune_ready = true; display_event_status = connected }

module _ (dev : Device) where
  pub hdcp_passed_resolution : Controller → M Controller
  hdcp_passed_resolution c =
      if not c.ignore_edid || c.bootup_flag_enabled
      then (do apply_video_port_resolution dev c; pure (record c { bootup_flag_enabled = false }))
      else pure c

  pub hdcp_failed_resolution : Controller → M (Unit {0})
  hdcp_failed_resolution c = if not c.ignore_edid then apply_video_port_resolution dev c else skip

  -- The rest of the handler, after the hot-plug source is cleared.
  unfoldable pub hdcp_passed : Controller → M Controller
  unfolding hdcp_passed_resolution
  hdcp_passed c = do
    apply_background_color dev c bgcolor_none
    c1 ← hdcp_passed_resolution c
    tell schedule_edid_dump
    tell (broadcast_hdcp_state 1)
    pure c1

  unfoldable pub handle_hdcp_status : HdcpStatus → Controller → M Controller
  unfolding hdcp_failed_resolution
  handle_hdcp_status authenticated c = do
    c1 ← clear_hotplug_source (record c { hdcp_authenticated = true })
    hdcp_passed c1
  handle_hdcp_status authentication_failure c = do
    apply_background_color dev c bgcolor_blue
    let c1 = record c { hdcp_authenticated = false }
    hdcp_failed_resolution c1
    tell schedule_edid_dump
    tell (broadcast_hdcp_state 0)
    pure c1
  handle_hdcp_status other_status c = do tell (broadcast_hdcp_state 1); pure c

  unfoldable pub on_display_hdmi_hot_plug : Bool → Controller → M Controller
  unfolding note_display_event
  on_display_hdmi_hot_plug plugged c = do
    apply_background_color dev c bgcolor_none
    pure (note_display_event plugged c)

  -- `EventHandler` on SYSSTATE_TUNEREADY; the resolution thread is signalled.
  unfoldable pub on_tune_ready : Controller → M Controller
  on_tune_ready c =
      if c.tune_ready
      then pure c
      else do let c1 = record c { tune_ready = true }; set_audio_mode dev c1; pure c1

  unfoldable pub sys_mode_changes : SysMode → SysMode → Controller → M Controller
  sys_mode_changes eas normal c = do
    let c1 = record c { eas_mode = normal }
    set_audio_mode dev c1
    pure c1
  sys_mode_changes normal eas c = do
    let c1 = record c { eas_mode = eas }
    set_eas_audio_mode dev c1
    pure c1
  sys_mode_changes _ _ c = pure c

  -- The argument is `newMode`.
  unfoldable pub sys_mode_change : SysMode → Controller → M Controller
  unfolding sys_mode_changes
  sys_mode_change new_mode c = sys_mode_changes c.eas_mode new_mode c

  -- The timer that the resolution thread starts on a disconnection.
  unfoldable pub set_resolution_handler : Controller → M Controller
  set_resolution_handler c = do
    apply_video_port_resolution dev c
    pure (record c { hotplug_event_src = 0 })

-- ===== src/Controller/Video.antt =====
-- plugin/DSController.cpp: `SetVideoPortResolution`, `SetResolution` and `SetBackgroundColor`.
-- The waits (`usleep`, the DDC line loop of _INIT_RESN_SETTINGS) change no state and are left out.
pub mod Footprint
pub mod Sets
use entservices_devicesettin.Prelude.{
  ℕ, Bool, true, false, not, ◌||◌, Option, none, some, List, [], ◌∷◌, Bytes, ◌==◌, if◌then◌else◌,
}
use entservices_devicesettin.Device.{
  Device, Reply, M, pure, abort, ask, tell, skip, ◌>>=◌, ◌>>◌, VideoPortType, hdmi, component, bb,
  rf, port_type, error_none, VideoPortResolution, DisplayEdid, BackgroundColor,
  get_video_port_resolution, set_video_port_resolution, get_display, get_display_edid,
  set_background_color,
}
use entservices_devicesettin.Resolution.Select.{
  Choice, fault, invalid, valid, insert_names, choose_resolution,
}
use entservices_devicesettin.Controller.{Controller, get_video_port_handle, is_hdmi_connected}

-- The names that the EDID's iterator yields.
unfoldable pub listed_names : Option (List Bytes) → List Bytes
listed_names none = []
listed_names (some names) = insert_names names

module _ (dev : Device) (c : Controller) where
  open c use {device_settings, is_eu_platform, fall_back_resolution_list}

  -- The end of `SetResolution`, where a valid resolution was found.
  set_chosen : ℕ → VideoPortResolution → M (Unit {0})
  set_chosen handle res =
      if device_settings then tell (set_video_port_resolution handle res) else skip

  set_choice : ℕ → VideoPortResolution → Choice → M (Unit {0})
  unfolding set_chosen
  set_choice handle res fault = abort
  set_choice handle res invalid = skip
  set_choice handle res (valid n) = set_chosen handle (record res { name = n })

  -- The sink has sent an EDID: nothing is set while it lists no resolution, or is a DVI sink.
  set_by_edid : ℕ → VideoPortResolution → DisplayEdid → M (Unit {0})
  unfolding set_choice
  set_by_edid handle res edid =
      if edid.num_of_supported_resolution == 0 || not edid.hdmi_device_type
      then skip
      else set_choice handle res (
          choose_resolution is_eu_platform fall_back_resolution_list (listed_names edid.names)
            res.name)

  -- A call that fails leaves `isValidResolution` false.
  edid_arrives : ℕ → VideoPortResolution → Reply DisplayEdid → M (Unit {0})
  unfolding set_by_edid
  edid_arrives handle res r =
      if r.result == error_none then set_by_edid handle res r.value else skip

  display_arrives : ℕ → VideoPortResolution → Reply ℕ → M (Unit {0})
  unfolding edid_arrives
  display_arrives handle res r = if not (r.result == error_none) || r.value == 0 then skip else do
    e ← ask (λ log. dev.display_edid log r.value) (get_display_edid r.value)
    edid_arrives handle res e

  set_hdmi_resolution : ℕ → VideoPortResolution → M (Unit {0})
  unfolding display_arrives
  set_hdmi_resolution handle res =
      if device_settings
      then (do
        r ← ask (λ log. dev.display log hdmi 0) (get_display hdmi 0)
        display_arrives handle res r)
      else skip

  set_on_port : VideoPortType → ℕ → VideoPortResolution → M (Unit {0})
  unfolding set_hdmi_resolution set_chosen
  set_on_port hdmi handle res = set_hdmi_resolution handle res
  set_on_port component handle res = set_chosen handle res
  set_on_port bb handle res = set_chosen handle res
  set_on_port rf handle res = set_chosen handle res
  set_on_port (port_type t) handle res = skip

  persisted_arrives : ℕ → VideoPortType → Reply VideoPortResolution → M (Unit {0})
  unfolding set_on_port
  persisted_arrives handle port r =
      if r.result == error_none then set_on_port port handle r.value else skip

  -- Without DeviceSettings the resolution keeps its initial value, and nothing is set.
  set_with_handle : ℕ → VideoPortType → M (Unit {0})
  unfolding persisted_arrives
  set_with_handle handle port =
      if device_settings
      then (do
        r ← ask (λ log. dev.video_port_resolution log handle) (get_video_port_resolution handle)
        persisted_arrives handle port r)
      else set_on_port port handle (record { name = []; members = 0 })

  unfoldable pub set_resolution : ℕ → VideoPortType → M (Unit {0})
  unfolding set_with_handle
  set_resolution handle port = if handle == 0 then skip else set_with_handle handle port

  -- The ports to fall back on while no HDMI sink is connected: the first that has a handle.
  set_first_of : List VideoPortType → M (Unit {0})
  set_first_of [] = skip
  set_first_of (port ∷ rest) = do
    handle ← get_video_port_handle dev c port
    let others = set_first_of rest
    if handle == 0 then others else set_resolution handle port

  abbrev analog_ports : List VideoPortType
  analog_ports = component ∷ bb ∷ rf ∷ []

  set_connected : ℕ → Bool → M (Unit {0})
  unfolding set_first_of
  set_connected handle true = set_resolution handle hdmi
  set_connected handle false = set_first_of analog_ports

  set_with_hdmi : ℕ → M (Unit {0})
  unfolding set_connected
  set_with_hdmi handle =
      if handle == 0
      then skip
      else do connected ← is_hdmi_connected dev c; set_connected handle connected

  unfoldable pub apply_video_port_resolution : M (Unit {0})
  unfolding set_with_hdmi
  apply_video_port_resolution = do handle ← get_video_port_handle dev c hdmi; set_with_hdmi handle

  color_port : BackgroundColor → ℕ → M (Unit {0})
  color_port color handle =
      if handle == 0
      then skip
      else if device_settings
      then tell (set_background_color handle color)
      else skip

  unfoldable pub apply_background_color : BackgroundColor → M (Unit {0})
  unfolding color_port
  apply_background_color color = do
    handle ← get_video_port_handle dev c hdmi
    color_port color handle

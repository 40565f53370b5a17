-- ===== src/VideoPort/Init.antt =====
-- plugin/hal/dVideoPortImpl.h: InitialiseHAL, DeInitialiseHAL and ApplyPreferredColorDepthAfterHdmiReset.
use entservices_devicesettin.Prelude.{ℕ, Bool, true, false, List, ◌==◌, if◌then◌else◌}
use entservices_devicesettin.HdmiStatus.{
  connected, disconnected, hotplug, unauthenticated, hdcp_status, version_1x, hdcp_version,
  sync_hdmi_status,
}
use entservices_devicesettin.VideoPort.{Constants, Hal, VideoPort, InterfacePort}
use entservices_devicesettin.VideoPort.Cache.{get_persistence_value}
use entservices_devicesettin.VideoPort.Depth.{apply_preferred_depth}
use entservices_devicesettin.VideoPort.Hdcp.{default_port_handle}

module _ (k : Constants) {W : Type 0} (hal : Hal W) (configs : List (InterfacePort × ℕ)) where
  -- ApplyPreferredColorDepthAfterHdmiReset, for a handle or, if it is 0, the default port's.
  unfoldable pub reconcile_depth : ℕ → W → W
  unfolding apply_preferred_depth
  reconcile_depth handle w =
      let found : ℕ × W = default_port_handle hal configs w in
      if handle == 0
      then apply_preferred_depth k hal found.0 found.1
      else apply_preferred_depth k hal handle w

  -- The status file and the persisted values once the HAL has started.
  unfoldable pub load : VideoPort W → VideoPort W
  unfolding get_persistence_value reconcile_depth
  load p =
      let port : ℕ × W = default_port_handle hal configs p.world in
      let reply : (ℕ × Bool) × W = hal.display_connected port.0 port.1 in
      let q = get_persistence_value k hal (record p {
        status_file = sync_hdmi_status (hotplug (if reply.0.1 then connected else disconnected)) (
            sync_hdmi_status (hdcp_version version_1x)
              (sync_hdmi_status (hdcp_status unauthenticated) p.status_file));
        world = reply.1;
      }) in
      record q { is_plat_initialized = true; world = reconcile_depth 0 q.world }

  -- InitialiseHAL
  unfoldable pub initialise_hal : VideoPort W → VideoPort W
  unfolding load
  initialise_hal p =
      let reply : ℕ × W = hal.port_init p.world in
      let q : VideoPort W = record p { world = reply.1 } in
      if p.is_plat_initialized then p else if reply.0 == 0 then load q else q

  -- DeInitialiseHAL
  unfoldable pub de_initialise_hal : VideoPort W → VideoPort W
  de_initialise_hal p =
      if p.is_plat_initialized
      then record p { is_plat_initialized = false; world = hal.port_term p.world }
      else p

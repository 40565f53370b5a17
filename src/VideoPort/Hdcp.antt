-- ===== src/VideoPort/Hdcp.antt =====
-- plugin/hal/dVideoPortImpl.h: the HDCP status that the HAL reports, cached, written to the status file and passed
-- on to the component. The interface has the six statuses with a name.
pub mod Reported
use entservices_devicesettin.Prelude.{
  ℕ, Bool, true, false, not, Option, none, some, List, [], ◌∷◌, ◌==◌, if◌then◌else◌,
}
use entservices_devicesettin.Device.{error_none}
use entservices_devicesettin.HdmiStatus.{
  HdcpStatus, unpowered, unauthenticated, authenticated, authentication_failure, in_progress,
  port_disabled, other_status, HdcpVersion, version_1x, hdcp_status, hdcp_version, sync_hdmi_status,
}
use entservices_devicesettin.VideoPort.{PortType, hdmi, internal, Hal, VideoPort, InterfacePort}
use entservices_devicesettin.VideoPort.Conversions.{convert_video_port_type}

-- convertHdcpStatus
unfoldable pub convert_hdcp_status : HdcpStatus → HdcpStatus
convert_hdcp_status unpowered = unpowered
convert_hdcp_status unauthenticated = unauthenticated
convert_hdcp_status authenticated = authenticated
convert_hdcp_status authentication_failure = authentication_failure
convert_hdcp_status in_progress = in_progress
convert_hdcp_status port_disabled = port_disabled
convert_hdcp_status (other_status n) = unpowered

-- The switch in VideoPortHDCPStatusCallback.
unfoldable pub reported_status : HdcpStatus → HdcpStatus
reported_status unpowered = unpowered
reported_status unauthenticated = unauthenticated
reported_status authenticated = authenticated
reported_status authentication_failure = authentication_failure
reported_status in_progress = in_progress
reported_status port_disabled = port_disabled
reported_status (other_status n) = unauthenticated

abbrev is_authenticated : HdcpStatus → Bool
is_authenticated authenticated = true
is_authenticated unpowered = false
is_authenticated unauthenticated = false
is_authenticated authentication_failure = false
is_authenticated in_progress = false
is_authenticated port_disabled = false
is_authenticated (other_status n) = false

abbrev is_default_type : PortType → Bool
is_default_type hdmi = true
is_default_type internal = true
is_default_type t = false

module _ {W : Type 0} (hal : Hal W) (configs : List (InterfacePort × ℕ)) where
  -- The loop of dsGetDefaultPortHandle over the configured ports: the handle of the first that is an HDMI or an
  -- internal one, or 0 where the HAL refuses it. Without such a port it is what the last call left.
  unfoldable pub first_default : List (InterfacePort × ℕ) → ℕ → W → ℕ × W
  unfolding convert_video_port_type
  first_default [] handle w = (handle, w)
  first_default (c ∷ cs) handle w =
      let reply : (ℕ × ℕ) × W = hal.video_port (convert_video_port_type c.0) c.1 w in
      let rest = first_default cs reply.0.1 reply.1 in
      if is_default_type (convert_video_port_type c.0)
      then (if reply.0.0 == 0 then reply.0.1 else 0, reply.1)
      else rest

  -- dsGetDefaultPortHandle
  unfoldable pub default_port_handle : W → ℕ × W
  unfolding first_default
  default_port_handle = first_default configs 0

  -- The protocol of an authenticated connection; 1.x where the HAL does not say.
  unfoldable pub ask_protocol : Option (ℕ → W → (ℕ × HdcpVersion) × W) → W → HdcpVersion × W
  unfolding default_port_handle
  ask_protocol none w = (version_1x, w)
  ask_protocol (some f) w =
      let port : ℕ × W = default_port_handle w in
      let reply : (ℕ × HdcpVersion) × W = f port.0 port.1 in
      (if reply.0.0 == 0 then reply.0.1 else version_1x, reply.1)

  abbrev tell_status : Option (HdcpStatus → W → W) → HdcpStatus → W → W
  tell_status none status w = w
  tell_status (some f) status w = f status w

  -- VideoPortHDCPStatusCallback
  unfoldable pub hdcp_status_callback : HdcpStatus → VideoPort W → VideoPort W
  unfolding ask_protocol reported_status sync_hdmi_status
  hdcp_status_callback status p =
      let asked : HdcpVersion × W = ask_protocol hal.current_protocol p.world in
      let protocol : HdcpVersion × W =
        if is_authenticated status then asked else (version_1x, p.world) in
      record p {
        cached_hdcp = status;
        status_file =
            sync_hdmi_status (hdcp_version protocol.0)
              (sync_hdmi_status (hdcp_status status) p.status_file);
        world = tell_status hal.hdcp_changed (reported_status status) protocol.1;
      }

  -- GetVideoPortHDCPStatus: every handle is answered with the status that was cached last.
  unfoldable pub get_hdcp_status : ℕ → VideoPort W → (ℕ × HdcpStatus) × VideoPort W
  unfolding convert_hdcp_status
  get_hdcp_status handle p = ((error_none, convert_hdcp_status p.cached_hdcp), p)

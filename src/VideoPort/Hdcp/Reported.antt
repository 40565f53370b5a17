-- ===== src/VideoPort/Hdcp/Reported.antt =====
-- What is known of the HDCP status after the HAL has reported one.
use entservices_devicesettin.Prelude.{ℕ, ◌≡◌, refl, ap, ◌∙◌, some, List, codes, if◌then◌else◌}
use entservices_devicesettin.Device.{error_none}
use entservices_devicesettin.HdmiStatus.{
  HdcpStatus, unpowered, unauthenticated, authenticated, authentication_failure, in_progress,
  port_disabled, other_status, version_1x, hdcp_status, hdcp_version, hotplug, other_event, key_of,
  hdcp_status_name, value_name, sync_hdmi_status,
}
use entservices_devicesettin.HdmiStatus.Lines.{value_at, value_at-sync, value_at-sync_other}
use entservices_devicesettin.VideoPort.{Hal, VideoPort, InterfacePort}
use entservices_devicesettin.VideoPort.Hdcp.{
  convert_hdcp_status, reported_status, is_authenticated, ask_protocol, hdcp_status_callback,
  get_hdcp_status,
}

-- The statuses that the source names.
abbrev pub IsNamed : HdcpStatus → Type 0
IsNamed (other_status n) = ⊥
IsNamed unpowered = Unit
IsNamed unauthenticated = Unit
IsNamed authenticated = Unit
IsNamed authentication_failure = Unit
IsNamed in_progress = Unit
IsNamed port_disabled = Unit

named_same :
    (status : HdcpStatus)
    → IsNamed status
    → (convert_hdcp_status status ≡ status) × (reported_status status ≡ status)
unfolding convert_hdcp_status reported_status
named_same unpowered n = (refl, refl)
named_same unauthenticated n = (refl, refl)
named_same authenticated n = (refl, refl)
named_same authentication_failure n = (refl, refl)
named_same in_progress n = (refl, refl)
named_same port_disabled n = (refl, refl)
named_same (other_status n) m = absurd m

module _ {W : Type 0} (hal : Hal W) (configs : List (InterfacePort × ℕ)) where
  -- A status with a name that the HAL reports is what every client reads next, for whatever handle; the status
  -- file has its name, and what the file says of the hot plug stays.
  pub hdcp_status_callback-get :
      (status : HdcpStatus) (handle : ℕ) (p : VideoPort W)
      → IsNamed status
      → ((get_hdcp_status hal configs handle (hdcp_status_callback hal configs status p)).0
          ≡ (error_none, status))
        × ((value_at (codes "hdcp_status=") (hdcp_status_callback hal configs status p).status_file
              ≡ some (hdcp_status_name status))
            × (value_at (codes "hotplug=") (hdcp_status_callback hal configs status p).status_file
                ≡ value_at (codes "hotplug=") p.status_file))
  unfolding get_hdcp_status hdcp_status_callback key_of value_name
  hdcp_status_callback-get status handle p n =
      let asked = ask_protocol hal configs hal.current_protocol p.world in
      let version = (if is_authenticated status then asked else (version_1x, p.world)).0 in
      let middle = sync_hdmi_status (hdcp_status status) p.status_file in
      (
        ap (λ s. (error_none, s)) (named_same status n).0,
        (
          value_at-sync_other (hdcp_version version) (hdcp_status status) middle tt
              ∙ value_at-sync (hdcp_status status) p.status_file,
          value_at-sync_other (hdcp_version version) (hotplug (other_event 0)) middle tt
              ∙ value_at-sync_other (hdcp_status status) (hotplug (other_event 0)) p.status_file tt,
        ),
      )

  -- A status without a name is unpowered for the clients that read it, and unauthenticated for those that are
  -- notified of it.
  pub hdcp_status_callback_other :
      (n handle : ℕ) (p : VideoPort W)
      → ((get_hdcp_status hal configs handle
            (hdcp_status_callback hal configs (other_status n) p)).0
          ≡ (error_none, unpowered))
        × (reported_status (other_status n) ≡ unauthenticated)
  unfolding get_hdcp_status hdcp_status_callback reported_status convert_hdcp_status
  hdcp_status_callback_other n handle p = (refl, refl)

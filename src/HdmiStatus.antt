-- ===== src/HdmiStatus.antt =====
-- plugin/DeviceSettingsHdmiStatus.cpp: the file with the status of the HDMI connection, as its lines. The file is
-- taken to be writable; one that cannot be read counts as empty, as it does in the source.
pub mod Lines
use entservices_devicesettin.Prelude.{
  ℕ, Bool, List, [], ◌∷◌, ◌++◌, Bytes, codes, has_prefix, if◌then◌else◌,
}

-- The enumerators of the HAL that the tables name, and any other value.
pub data DisplayEvent : Type 0 where
  connected disconnected : DisplayEvent
  other_event : ℕ → DisplayEvent

pub data HdcpStatus : Type 0 where
  unpowered unauthenticated authenticated authentication_failure in_progress : HdcpStatus
  port_disabled : HdcpStatus
  other_status : ℕ → HdcpStatus

pub data HdcpVersion : Type 0 where
  version_1x version_2x : HdcpVersion
  other_version : ℕ → HdcpVersion

unfoldable pub hdmi_connection_name : DisplayEvent → Bytes
hdmi_connection_name connected = codes "CONNECTED"
hdmi_connection_name disconnected = codes "DISCONNECTED"
hdmi_connection_name (other_event n) = []

unfoldable pub hdcp_status_name : HdcpStatus → Bytes
hdcp_status_name unpowered = codes "UNPOWERED"
hdcp_status_name unauthenticated = codes "UNAUTHENTICATED"
hdcp_status_name authenticated = codes "AUTHENTICATED"
hdcp_status_name authentication_failure = codes "AUTHENTICATIONFAILURE"
hdcp_status_name in_progress = codes "INPROGRESS"
hdcp_status_name port_disabled = codes "PORTDISABLED"
hdcp_status_name (other_status n) = []

unfoldable pub hdcp_version_name : HdcpVersion → Bytes
hdcp_version_name version_1x = codes "VERSION_1X"
hdcp_version_name version_2x = codes "VERSION_2X"
hdcp_version_name (other_version n) = []

-- A key with its value; the source passes a number whose meaning the key gives.
pub data Entry : Type 0 where
  hotplug : DisplayEvent → Entry
  hdcp_status : HdcpStatus → Entry
  hdcp_version : HdcpVersion → Entry

unfoldable pub key_of : Entry → Bytes
key_of (hotplug event) = codes "hotplug"
key_of (hdcp_status status) = codes "hdcp_status"
key_of (hdcp_version version) = codes "hdcp_version"

unfoldable pub value_name : Entry → Bytes
unfolding hdmi_connection_name hdcp_status_name hdcp_version_name
value_name (hotplug event) = hdmi_connection_name event
value_name (hdcp_status status) = hdcp_status_name status
value_name (hdcp_version version) = hdcp_version_name version

-- The lines that are kept: line.find(key + "=") == 0 is not.
unfoldable pub other_lines : Bytes → List Bytes → List Bytes
other_lines tag [] = []
other_lines tag (line ∷ lines) =
    if has_prefix tag line then other_lines tag lines else line ∷ other_lines tag lines

unfoldable pub write_line : Bytes → Bytes → List Bytes → List Bytes
unfolding other_lines
write_line key value lines =
    other_lines (key ++ codes "=") lines ++ (((key ++ codes "=") ++ value) ∷ [])

-- _dsSyncHdmiStatus
unfoldable pub sync_hdmi_status : Entry → List Bytes → List Bytes
unfolding key_of value_name write_line
sync_hdmi_status e lines = write_line (key_of e) (value_name e) lines

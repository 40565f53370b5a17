-- ===== src/VideoPort.antt =====
-- plugin/hal/dVideoPortImpl.h: the state of the video ports' platform layer, and what it uses of the HAL, of
-- the host's persistence and of the callbacks that the component above it installs.
pub mod Conversions
pub mod Cache
pub mod Depth
pub mod Operations
pub mod Hdcp
pub mod Init
pub mod Force
use entservices_devicesettin.HdmiStatus.{HdcpStatus, unauthenticated, HdcpVersion}
use entservices_devicesettin.Prelude.{
  ℕ, ◌+◌, ◌-◌, ◌%◌, Bool, false, Option, List, Bytes, codes, ltb, if◌then◌else◌,
}

-- dsVideoPortType_t
pub data PortType : Type 0 where
  hdmi internal component bb rf svideo firewire dvi : PortType

-- VideoPortType of the interface; `other_port` are those that the source does not name, such as the one of the
-- number of dsVIDEOPORT_TYPE_BB.
pub data InterfacePort : Type 0 where
  if_hdmi if_component if_svideo if_1394 if_dvi if_internal : InterfacePort
  other_port : ℕ → InterfacePort

-- dsVideoResolution_t; `pixels_max` is dsVIDEO_PIXELRES_MAX.
pub data DsPixels : Type 0 where
  ds_720x480 ds_720x576 ds_1280x720 ds_1366x768 ds_1920x1080 ds_3840x2160 ds_4096x2160 : DsPixels
  pixels_max : DsPixels

-- VideoResolution of the interface; `other_pixels` are those that the source does not name.
pub data Pixels : Type 0 where
  px_720x480 px_720x576 px_1280x720 px_1920x1080 px_3840x2160 : Pixels
  other_pixels : ℕ → Pixels

-- dsVideoPortResolution_t; the aspect ratio, the stereoscopic mode and the frame rate are numbers.
pub record DsResolution : Type 0 where
  pub ds_name : Bytes
  pub ds_pixels : DsPixels
  pub ds_aspect : ℕ
  pub ds_stereo : ℕ
  pub ds_rate : ℕ
  pub ds_interlaced : Bool

-- VideoPortResolution of the interface.
pub record Resolution : Type 0 where
  pub name : Bytes
  pub pixels : Pixels
  pub aspect : ℕ
  pub stereo : ℕ
  pub rate : ℕ
  pub interlaced : Bool

-- The constants of the HAL's and the interface's headers: sizes, the numbers of enumerators, and the order of
-- the pixel resolutions. `only_composite`, `is_tv`: HAS_ONLY_COMPOSITE and the profile.
pub record Constants : Type 0 where
  pub name_size : ℕ
  pub ds_rate_max : ℕ
  pub rate_max : ℕ
  pub rate_unknown : ℕ
  pub rate_24 : ℕ
  pub rate_25 : ℕ
  pub rate_30 : ℕ
  pub rate_50 : ℕ
  pub rate_60 : ℕ
  pub aspect_4x3 : ℕ
  pub aspect_16x9 : ℕ
  pub stereo_2d : ℕ
  pub ds_number : DsPixels → ℕ
  pub ds_of_number : ℕ → DsPixels
  pub number : Pixels → ℕ
  pub only_composite : Bool
  pub is_tv : Bool
  pub depth_unknown : ℕ
  pub depth_8bit : ℕ
  pub depth_10bit : ℕ
  pub depth_12bit : ℕ
  pub depth_auto : ℕ

-- Handles. The HAL's are intptr_t, the interface's int32_t; both are kept as the bit pattern. The cast to
-- int32_t keeps the low half, and a comparison of the two extends the sign.
abbrev pub word32 : ℕ
word32 = 4294967296

abbrev pub as_int32 : ℕ → ℕ
as_int32 handle = handle % word32

abbrev pub as_intptr : ℕ → ℕ
as_intptr handle =
    if ltb handle 2147483648 then handle else handle + (18446744073709551616 - word32)

-- The HAL, the persistence and the callbacks over the state W that they share. A first number is a dsError_t,
-- 0 for dsERR_NONE, and a second one what the call leaves in the output variable. `none` in a symbol's place:
-- the library has no such symbol. `property` answers the given default where there is none, and throws where it
-- is `none`; `persist_property` throws at `false`.
-- `hdcp_changed` is the callback for the HDCP status.
pub record Hal (W : Type 0) : Type 0 where
  pub port_init : W → ℕ × W
  pub port_term : W → W
  pub video_port : PortType → ℕ → W → (ℕ × ℕ) × W
  pub display_connected : ℕ → W → (ℕ × Bool) × W
  pub resolution : ℕ → W → (ℕ × DsResolution) × W
  pub set_resolution : ℕ → DsResolution → W → ℕ × W
  pub force_disable_4k : ℕ → W → (ℕ × Bool) × W
  pub set_force_disable_4k : ℕ → Bool → W → ℕ × W
  pub ignore_edid : Option (ℕ → W → (ℕ × Bool) × W)
  pub current_depth : Option (ℕ → W → (ℕ × ℕ) × W)
  pub depth_capabilities : Option (ℕ → W → (ℕ × ℕ) × W)
  pub set_depth : Option (ℕ → ℕ → W → ℕ × W)
  pub property : Bytes → Bytes → W → Option Bytes
  pub persist_property : Bytes → Bytes → W → Bool × W
  pub pre_change : Option (ℕ → ℕ → W → W)
  pub post_change : Option (ℕ → ℕ → W → W)
  pub current_protocol : Option (ℕ → W → (ℕ × HdcpVersion) × W)
  pub hdcp_changed : Option (HdcpStatus → W → W)

-- The static variables, the lines of the HDMI status file, and the world. The flag is
-- videoPort_isPlatInitialized.
pub record VideoPort (W : Type 0) : Type 0 where
  pub is_plat_initialized : Bool
  pub hdmi_resolution : Bytes
  pub comp_resolution : Bytes
  pub bb_resolution : Bytes
  pub rf_resolution : Bytes
  pub cached_hdcp : HdcpStatus
  pub status_file : List Bytes
  pub world : W

abbrev pub key_hdmi : Bytes
key_hdmi = codes "HDMI0.resolution"

abbrev pub key_baseband : Bytes
key_baseband = codes "Baseband0.resolution"

abbrev pub key_component : Bytes
key_component = codes "COMPONENT0.resolution"

abbrev pub key_rf : Bytes
key_rf = codes "RF0.resolution"

abbrev pub key_force_4k : Bytes
key_force_4k = codes "VideoDevice.force4KDisabled"

abbrev pub key_depth : Bytes
key_depth = codes "HDMI0.colorDepth"

-- The values with which the static variables start, over a status file and a world.
abbrev pub static_values : {W : Type 0} → List Bytes → W → VideoPort W
static_values lines world = record {
  is_plat_initialized = false;
  hdmi_resolution = codes "1080p";
  comp_resolution = codes "1080p";
  bb_resolution = codes "1080p";
  rf_resolution = codes "1080p";
  cached_hdcp = unauthenticated;
  status_file = lines;
  world = world;
}

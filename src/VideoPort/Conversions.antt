-- ===== src/VideoPort/Conversions.antt =====
-- plugin/hal/dVideoPortImpl.h: the conversions between the HAL's and the interface's resolutions and port
-- types, and buildResolutionFromName.
pub mod RoundTrip
use entservices_devicesettin.Prelude.{
  ℕ, ◌-◌, Bool, true, false, ◌&&◌, Bytes, [], ◌∷◌, codes, strstr, take, ltb, if◌then◌else◌,
}
use entservices_devicesettin.VideoPort.{
  InterfacePort, if_hdmi, if_component, if_svideo, if_1394, if_dvi, if_internal, other_port,
  PortType, hdmi, internal, component, svideo, firewire, dvi, DsPixels, ds_720x480, ds_720x576,
  ds_1280x720, ds_1366x768, ds_1920x1080, ds_3840x2160, ds_4096x2160, pixels_max, Pixels,
  px_720x480, px_720x576, px_1280x720, px_1920x1080, px_3840x2160, other_pixels, DsResolution,
  Resolution, Constants,
}

unfoldable pub convert_video_port_type : InterfacePort → PortType
convert_video_port_type if_hdmi = hdmi
convert_video_port_type if_component = component
convert_video_port_type if_svideo = svideo
convert_video_port_type if_1394 = firewire
convert_video_port_type if_dvi = dvi
convert_video_port_type if_internal = internal
convert_video_port_type (other_port n) = hdmi

-- The name for a resolution whose name the HAL left empty.
unfoldable pub derived_name : DsPixels → Bool → Bytes
derived_name ds_720x480 interlaced = if interlaced then codes "480i" else codes "480p"
derived_name ds_720x576 interlaced = if interlaced then codes "576i50" else codes "576p50"
derived_name ds_1280x720 interlaced = codes "720p"
derived_name ds_1366x768 interlaced = codes "768p60"
derived_name ds_1920x1080 interlaced = if interlaced then codes "1080i" else codes "1080p"
derived_name ds_3840x2160 interlaced = codes "2160p60"
derived_name ds_4096x2160 interlaced = codes "4096x2160"
derived_name pixels_max interlaced = codes "1080p"

unfoldable pub to_pixels : DsPixels → Pixels
to_pixels ds_720x480 = px_720x480
to_pixels ds_720x576 = px_720x576
to_pixels ds_1280x720 = px_1280x720
to_pixels ds_1366x768 = px_1920x1080
to_pixels ds_1920x1080 = px_1920x1080
to_pixels ds_3840x2160 = px_3840x2160
to_pixels ds_4096x2160 = px_1920x1080
to_pixels pixels_max = px_1920x1080

unfoldable pub to_ds_pixels : Pixels → DsPixels
to_ds_pixels px_720x480 = ds_720x480
to_ds_pixels px_720x576 = ds_720x576
to_ds_pixels px_1280x720 = ds_1280x720
to_ds_pixels px_1920x1080 = ds_1920x1080
to_ds_pixels px_3840x2160 = ds_3840x2160
to_ds_pixels (other_pixels n) = ds_1920x1080

name_or_derived : Bytes → Bytes → Bytes
name_or_derived [] derived = derived
name_or_derived (c ∷ name) derived = c ∷ name

-- The width and the height that VideoPortPreResolutionChange and VideoPortPostResolutionChange report.
unfoldable pub size_of : DsPixels → ℕ × ℕ
size_of ds_720x480 = (720, 480)
size_of ds_720x576 = (720, 576)
size_of ds_1280x720 = (1280, 720)
size_of ds_1366x768 = (1366, 768)
size_of ds_1920x1080 = (1920, 1080)
size_of ds_3840x2160 = (3840, 2160)
size_of ds_4096x2160 = (4096, 2160)
size_of pixels_max = (1280, 720)

-- s.find(p) != std::string::npos
abbrev pub mentions : Bytes → Bytes → Bool
mentions s p = strstr s p

module _ (k : Constants) where
  -- convertVideoPortResolution, from the HAL to the interface.
  unfoldable pub from_hal : DsResolution → Resolution
  unfolding name_or_derived
  from_hal r = record {
    name = name_or_derived r.ds_name (derived_name r.ds_pixels r.ds_interlaced);
    pixels = to_pixels r.ds_pixels;
    aspect = r.ds_aspect;
    stereo = r.ds_stereo;
    rate =
        if ltb r.ds_rate k.ds_rate_max && ltb r.ds_rate k.rate_max
        then r.ds_rate
        else k.rate_unknown;
    interlaced = r.ds_interlaced;
  }

  -- convertVideoPortResolution, from the interface to the HAL: strncpy cuts the name.
  unfoldable pub to_hal : Resolution → DsResolution
  to_hal r = record {
    ds_name = take (k.name_size - 1) r.name;
    ds_pixels = to_ds_pixels r.pixels;
    ds_aspect = r.aspect;
    ds_stereo = r.stereo;
    ds_rate = r.rate;
    ds_interlaced = r.interlaced;
  }

  -- The frame rate that a name of 2160 or 1080 lines mentions.
  unfoldable pub mentioned_rate : Bytes → ℕ
  mentioned_rate name =
      if mentions name (codes "24")
      then k.rate_24
      else if mentions name (codes "25")
      then k.rate_25
      else if mentions name (codes "30")
      then k.rate_30
      else if mentions name (codes "50")
      then k.rate_50
      else k.rate_60

  abbrev built : Bytes → Pixels → ℕ → ℕ → Bool → Resolution
  built name pixels aspect rate interlaced = record {
    name = name;
    pixels = pixels;
    aspect = aspect;
    stereo = k.stereo_2d;
    rate = rate;
    interlaced = interlaced;
  }

  unfoldable pub build_resolution_from_name : Bytes → Resolution
  build_resolution_from_name name =
      if mentions name (codes "2160")
      then built name px_3840x2160 k.aspect_16x9 (mentioned_rate name) false
      else if mentions name (codes "1080i")
      then built name px_1920x1080 k.aspect_16x9 k.rate_60 true
      else if mentions name (codes "1080")
      then built name px_1920x1080 k.aspect_16x9 (mentioned_rate name) false
      else if mentions name (codes "720")
      then built name px_1280x720 k.aspect_16x9
          (if mentions name (codes "50") then k.rate_50 else k.rate_60) false
      else if mentions name (codes "576i")
      then built name px_720x576 k.aspect_4x3 k.rate_50 true
      else if mentions name (codes "576")
      then built name px_720x576 k.aspect_4x3 k.rate_50 false
      else if mentions name (codes "480i")
      then built name px_720x480 k.aspect_4x3 k.rate_60 true
      else if mentions name (codes "480")
      then built name px_720x480 k.aspect_4x3 k.rate_60 false
      else built name px_1920x1080 k.aspect_16x9 k.rate_60 false

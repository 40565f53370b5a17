-- ===== src/Tests/Video.antt =====
-- The video ports on a HAL that keeps the properties in a list and shows what it was asked to show.
use entservices_devicesettin.Prelude.{
  ℕ, ◌≡◌, ◌≢◌, refl, sym, ap, Bool, true, false, none, some, List, [], ◌∷◌, Bytes, codes,
  has_prefix, strstr, str_eq, str_eq_self, str_eq_iff, if◌then◌else◌, if_true, if_false, Bool-cases,
  inl, inr, arith, ◌==◌,
}
use entservices_devicesettin.Device.{error_none}
use entservices_devicesettin.HdmiStatus.{
  version_2x, connected, hotplug, in_progress, hdcp_status, sync_hdmi_status, hdcp_status_name,
  value_name,
}
use entservices_devicesettin.HdmiStatus.Lines.{
  value_at, lines_of, tag_of, sync_hdmi_status-value_at,
}
use entservices_devicesettin.VideoPort.{
  PortType, hdmi, component, DsPixels, ds_720x480, ds_720x576, ds_1280x720, ds_1366x768,
  ds_1920x1080, ds_3840x2160, ds_4096x2160, pixels_max, Pixels, px_720x480, px_720x576, px_1280x720,
  px_1920x1080, px_3840x2160, other_pixels, DsResolution, Resolution, Constants, Hal, VideoPort,
  if_hdmi, static_values,
}
use entservices_devicesettin.VideoPort.Conversions.{
  to_hal, to_ds_pixels, build_resolution_from_name,
}
use entservices_devicesettin.VideoPort.Cache.{
  cached_resolution, persist_for, pixels_by_name, is_hd_compatible, get_persistence_value,
}
use entservices_devicesettin.VideoPort.Cache.Compatible.{AreCompatible, persist_for-AreCompatible}
use entservices_devicesettin.VideoPort.Cache.Ports.{IsSteady, Fits}
use entservices_devicesettin.VideoPort.Depth.{set_preferred_depth, get_preferred_depth}
use entservices_devicesettin.VideoPort.Depth.Negotiated.{set_preferred_depth-get}
use entservices_devicesettin.VideoPort.Hdcp.{hdcp_status_callback, get_hdcp_status}
use entservices_devicesettin.VideoPort.Hdcp.Reported.{hdcp_status_callback-get}
use entservices_devicesettin.VideoPort.Operations.{
  set_video_port_resolution, get_video_port_resolution,
}
use entservices_devicesettin.VideoPort.Operations.Readback.{set_video_port_resolution-get}
use entservices_devicesettin.VideoPort.Operations.Restart.{
  Persists, set_video_port_resolution-restarted,
}
use entservices_devicesettin.VideoPort.Operations.Failure.{
  OnlyWorld, set_video_port_resolution-failed,
}

-- The properties, and the resolution that is shown.
abbrev pub World : Type 0
World = List (Bytes × Bytes) × DsResolution

abbrev pub lookup : Bytes → Bytes → List (Bytes × Bytes) → Bytes
lookup key default [] = default
lookup key default (e ∷ es) = if str_eq e.0 key then e.1 else lookup key default es

abbrev pub Ports : Type 0
Ports = PortType → ℕ × ℕ

abbrev pub ports_at : ℕ → ℕ → Ports
ports_at h c hdmi = (0, h)
ports_at h c component = (0, c)
ports_at h c t = (1, 0)

abbrev pub sample_hal : Bool → Ports → Hal World
sample_hal plugged ports = record {
  port_init = λ w. (0, w);
  port_term = λ w. w;
  video_port = λ t index w. (ports t, w);
  display_connected = λ handle w. ((0, plugged), w);
  resolution = λ handle w. ((0, w.1), w);
  set_resolution = λ handle r w. (0, (w.0, r));
  force_disable_4k = λ handle w. ((1, false), w);
  set_force_disable_4k = λ handle flag w. (0, w);
  ignore_edid = none;
  current_depth = some (λ handle w. ((0, 1), w));
  depth_capabilities = some (λ handle w. ((0, 3), w));
  set_depth = some (λ handle depth w. (0, w));
  property = λ key default w. some (lookup key default w.0);
  persist_property = λ key value w. (true, ((key, value) ∷ w.0, w.1));
  pre_change = none;
  post_change = none;
  current_protocol = some (λ handle w. ((0, version_2x), w));
  hdcp_changed = none;
}

abbrev sample_number : DsPixels → ℕ
sample_number ds_720x480 = 0
sample_number ds_720x576 = 1
sample_number ds_1280x720 = 2
sample_number ds_1366x768 = 3
sample_number ds_1920x1080 = 4
sample_number ds_3840x2160 = 5
sample_number ds_4096x2160 = 6
sample_number pixels_max = 7

abbrev sample_of : ℕ → DsPixels
sample_of n =
    if n == 0
    then ds_720x480
    else if n == 1
    then ds_720x576
    else if n == 2
    then ds_1280x720
    else if n == 4
    then ds_1920x1080
    else if n == 5
    then ds_3840x2160
    else pixels_max

abbrev sample_pixels : Pixels → ℕ
sample_pixels px_720x480 = 0
sample_pixels px_720x576 = 1
sample_pixels px_1280x720 = 2
sample_pixels px_1920x1080 = 4
sample_pixels px_3840x2160 = 5
sample_pixels (other_pixels n) = 7

abbrev pub sample_constants : Constants
sample_constants = record {
  name_size = 32;
  ds_rate_max = 17;
  rate_max = 15;
  rate_unknown = 0;
  rate_24 = 1;
  rate_25 = 2;
  rate_30 = 3;
  rate_50 = 5;
  rate_60 = 4;
  aspect_4x3 = 0;
  aspect_16x9 = 1;
  stereo_2d = 1;
  ds_number = sample_number;
  ds_of_number = sample_of;
  number = sample_pixels;
  only_composite = false;
  is_tv = false;
  depth_unknown = 0;
  depth_8bit = 1;
  depth_10bit = 2;
  depth_12bit = 4;
  depth_auto = 8;
}

abbrev ds_1080p : DsResolution
ds_1080p = record {
  ds_name = codes "1080p";
  ds_pixels = ds_1920x1080;
  ds_aspect = 1;
  ds_stereo = 1;
  ds_rate = 4;
  ds_interlaced = false;
}

abbrev sample_lines : List Bytes
sample_lines = codes "hdcp_status=INPROGRESS" ∷ codes "hotplug=DISCONNECTED" ∷ []

abbrev listed : Bytes → Pixels → Resolution
listed name pixels = record {
  name = name;
  pixels = pixels;
  aspect = 1;
  stereo = 1;
  rate = 4;
  interlaced = false;
}

abbrev sample_table : List Resolution
sample_table =
    listed (codes "480p") px_720x480
    ∷ listed (codes "576p") px_720x576
    ∷ listed (codes "720p") px_1280x720
    ∷ listed (codes "1080p") px_1920x1080
    ∷ []

abbrev pub near : Ports
near = ports_at 4096 8192

abbrev pub sample_world : World
sample_world = ([], ds_1080p)

abbrev pub sample_ports : VideoPort World
sample_ports = static_values [] sample_world

abbrev request : Resolution
request = listed (codes "720p") px_1280x720

near_steady : IsSteady (sample_hal true near) near
near_steady t w = refl

near_fits : Fits (sample_hal true near) near near_steady component
near_fits = record { fits = refl; distinct = λ h. absurd (omega (arith, h)) }

pub sample-Persists : (plugged : Bool) (ports : Ports) → Persists (sample_hal plugged ports)
sample-Persists plugged ports = record {
  persists = λ key value w. refl;
  get_same = λ key value default w. ap some (if_true _ _ _ (str_eq_self key));
  get_other = λ key other value default w n. ap some (if_false _ _ _ (not_equal other key n));
}
  where
    not_equal : (other key : Bytes) → key ≢ other → str_eq other key ≡ false
    not_equal other key n = elim (Bool-cases (str_eq other key)) [
      | inl e ↦ absurd (n (sym ((str_eq_iff other key).0 e)))
      | inr e ↦ e
    ]

persist_for-AreCompatible_example : AreCompatible sample_constants sample_table (
    persist_for sample_constants
      (sample_hal true near)
      sample_table
      hdmi
      (to_hal sample_constants (listed (codes "480p") px_720x480))
      true
      sample_ports)
unfolding is_hd_compatible pixels_by_name str_eq to_hal to_ds_pixels
persist_for-AreCompatible_example =
    persist_for-AreCompatible sample_constants (sample_hal true near) sample_table
      (record { hd_720 = refl; hd_768 = refl; hd_1080 = refl; hd_2160 = refl; hd_4096 = refl })
      (record { at_480 = refl; at_576 = refl; at_720 = refl; at_1080 = refl }) hdmi
      (to_hal sample_constants (listed (codes "480p") px_720x480)) true sample_ports (inl refl) refl
      (λ h. cc) (λ key value w. refl)

request_named : (to_hal sample_constants request).ds_name ≢ []
unfolding to_hal
request_named h = cc

set_video_port_resolution-get_example :
    (get_video_port_resolution sample_constants
      (sample_hal true near)
      sample_table
      8192
      request
      (set_video_port_resolution sample_constants
        (sample_hal true near)
        sample_table
        8192
        request
        true
        true
        sample_ports).1).0
    ≡ (error_none, build_resolution_from_name sample_constants (codes "720p"))
unfolding set_video_port_resolution str_eq strstr has_prefix to_hal
set_video_port_resolution-get_example =
    set_video_port_resolution-get sample_constants (sample_hal true near) sample_table near
      near_steady 8192 component request request true true sample_ports tt (omega arith) near_fits
      request_named refl refl

set_video_port_resolution-restarted_example :
    cached_resolution sample_constants component (
      get_persistence_value sample_constants (sample_hal true near) (
        static_values []
          (set_video_port_resolution sample_constants
            (sample_hal true near)
            sample_table
            8192
            request
            true
            true
            sample_ports).1.world))
    ≡ codes "720p"
unfolding set_video_port_resolution str_eq strstr has_prefix to_hal
set_video_port_resolution-restarted_example =
    set_video_port_resolution-restarted sample_constants (sample_hal true near) sample_table
      (sample-Persists true near) near near_steady 8192 component request true sample_ports []
      (set_video_port_resolution sample_constants (sample_hal true near) sample_table 8192 request
        true true sample_ports).1.world
      tt (omega arith) near_fits request_named refl refl
      (record { same = λ key default. refl; reads = λ key default. (lookup key default _, refl) })

set_video_port_resolution-failed_example :
    OnlyWorld sample_ports
      (set_video_port_resolution sample_constants
        (sample_hal false near)
        sample_table
        8192
        request
        true
        true
        sample_ports).1
unfolding set_video_port_resolution
set_video_port_resolution-failed_example =
    set_video_port_resolution-failed sample_constants (sample_hal false near) sample_table 8192 true
      true sample_ports request refl

set_preferred_depth-get_example :
    (get_preferred_depth sample_constants
      (sample_hal true near)
      1
      0
      true
      (set_preferred_depth sample_constants (sample_hal true near) 4096 4 true sample_ports).1).0
    ≡ (error_none, 4)
unfolding set_preferred_depth
set_preferred_depth-get_example =
    set_preferred_depth-get sample_constants (sample_hal true near) 4096 1 4 0 sample_ports
      (sample-Persists true near).get_same (omega arith) refl

hdcp_status_callback-get_example :
    ((get_hdcp_status (sample_hal true near) ((if_hdmi, 0) ∷ []) 7 (
        hdcp_status_callback (sample_hal true near) ((if_hdmi, 0) ∷ []) in_progress sample_ports)).0
      ≡ (error_none, in_progress))
    × ((value_at
            (codes "hdcp_status=")
            (hdcp_status_callback
              (sample_hal true near)
              ((if_hdmi, 0) ∷ [])
              in_progress
              sample_ports).status_file
          ≡ some (hdcp_status_name in_progress))
        × (value_at
              (codes "hotplug=")
              (hdcp_status_callback
                (sample_hal true near)
                ((if_hdmi, 0) ∷ [])
                in_progress
                sample_ports).status_file
            ≡ value_at (codes "hotplug=") []))
hdcp_status_callback-get_example =
    hdcp_status_callback-get (sample_hal true near) ((if_hdmi, 0) ∷ []) in_progress 7 sample_ports
      tt

sync_hdmi_status-value_at_example :
    (lines_of (tag_of (hotplug connected)) (sync_hdmi_status (hotplug connected) sample_lines) ≡ 1)
    × ((value_at (tag_of (hotplug connected)) (sync_hdmi_status (hotplug connected) sample_lines)
          ≡ some (value_name (hotplug connected)))
        × (value_at
              (tag_of (hdcp_status in_progress))
              (sync_hdmi_status (hotplug connected) sample_lines)
            ≡ value_at (tag_of (hdcp_status in_progress)) sample_lines))
sync_hdmi_status-value_at_example =
    sync_hdmi_status-value_at (hotplug connected) (hdcp_status in_progress) sample_lines tt

-- ===== src/Tests/Samples.antt =====
-- A device with an HDMI sink, and a controller that has just started.
use entservices_devicesettin.Prelude.{ℕ, true, false, none, some, [], ◌∷◌, codes}
use entservices_devicesettin.Device.{
  Device, VideoPortType, hdmi, component, spdif, passthrough, error_none,
}
use entservices_devicesettin.Controller.{Controller, event_max, normal}
use entservices_devicesettin.Controller.Events.Thread.{Phase, hdcp_idle, System}

abbrev pub port_handle : VideoPortType → ℕ
port_handle hdmi = 1
port_handle component = 2
port_handle _ = 0

-- An HDMI sink that lists 720p; every audio port reports passthrough.
abbrev pub sample_device : Device
sample_device = record {
  video_port = λ log port index. record { result = error_none; value = port_handle port };
  display_connected = λ log handle. record { result = error_none; value = true };
  video_port_resolution = λ log handle. record {
    result = error_none;
    value = record { name = codes "1080p60"; members = 0 };
  };
  video_port_enabled = λ log handle enable. error_none;
  display = λ log port index. record { result = error_none; value = 7 };
  display_edid = λ log display. record {
    result = error_none;
    value = record {
      num_of_supported_resolution = 1;
      hdmi_device_type = true;
      names = some (codes "720p" ∷ []);
    };
  };
  audio_port = λ log port index. record { result = error_none; value = 4 };
  stereo_mode = λ log handle. record { result = error_none; value = passthrough };
  stereo_auto = λ log handle. record { result = error_none; value = 0 };
  audio_port_enabled = λ log handle. record { result = error_none; value = true };
  audio_port_switched = λ log handle enable. error_none;
  fpd_state_set = λ log state. error_none;
  timeout_source = λ log. 9;
  instance_present = λ log. true;
  device_setting_configs = λ log. record {
    result = error_none;
    value = record { video_ports = (hdmi, 0) ∷ []; audio_ports = (spdif, 0) ∷ [] };
  };
  bootloader_pattern_set = λ log pattern. true;
  force_display_flag = λ log. false;
  reboot_info_updated = λ log. false;
  reboot_info_lines = λ log. none;
}

abbrev pub sample_controller : Controller
sample_controller = record {
  device_settings = true;
  is_eu_platform = false;
  fall_back_resolution_list = codes "1080p" ∷ codes "720p" ∷ [];
  tune_ready = false;
  hotplug_event_src = 0;
  hdcp_authenticated = false;
  ignore_edid = false;
  bootup_flag_enabled = true;
  display_event_status = event_max;
  thread_exit_flag = false;
  eas_mode = normal;
}

abbrev pub sample_system : Phase → System
sample_system phase = record {
  controller = sample_controller;
  phase = phase;
  hdcp = hdcp_idle;
  firing = false;
  log = [];
}

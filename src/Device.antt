-- ===== src/Device.antt =====
-- What DSController, DSPwrEventListener and UXController use of the DeviceSettings implementation, of
-- glib and of the IARM bus: the calls they make, the log of the calls made so far (newest first), and
-- the replies. A reply may depend on every call before it, so the lower layers keep any state they
-- like, and the same question asked twice may have two answers.
pub mod Log
pub mod Returns
use entservices_devicesettin.Prelude.{
  ℕ, ◌≡◌, Bool, true, false, Option, none, some, List, [], ◌∷◌, Bytes, ◌==◌,
}

-- `port_type` and `audio_type` are the types that only the configuration tables name.
pub data VideoPortType : Type 0 where
  hdmi component bb rf : VideoPortType
  port_type : ℕ → VideoPortType

pub data AudioPortType : Type 0 where
  spdif hdmi_audio speaker : AudioPortType
  audio_type : ℕ → AudioPortType

pub data StereoMode : Type 0 where
  stereo surround passthrough : StereoMode
  other_mode : ℕ → StereoMode

pub data BackgroundColor : Type 0 where
  bgcolor_none bgcolor_blue : BackgroundColor

pub data FpdState : Type 0 where
  fpd_on fpd_off : FpdState

-- The name, and a stand-in for the other members, which the modelled code passes on.
pub record VideoPortResolution : Type 0 where
  pub name : Bytes
  pub members : ℕ

-- `names` is the list of names that the EDID's iterator yields; `none`: there is no iterator.
pub record DisplayEdid : Type 0 where
  pub num_of_supported_resolution : ℕ
  pub hdmi_device_type : Bool
  pub names : Option (List Bytes)

-- A result code and the output parameter.
pub record Reply {ℓ} (A : Type ℓ) : Type ℓ where
  pub result : ℕ
  pub value : A

abbrev pub error_none : ℕ
error_none = 0

abbrev pub error_general : ℕ
error_general = 1

-- mfrBlPattern_t, as far as the sources use it.
pub data BlPattern : Type 0 where
  pattern_normal pattern_silent pattern_silent_led_on : BlPattern

-- The part of DeviceSettingConfigs that the power listener reads: the type and index of each port.
pub record PortConfigs : Type 0 where
  pub video_ports : List (VideoPortType × ℕ)
  pub audio_ports : List (AudioPortType × ℕ)

-- `source_fired` is no call of the code: glib runs a timer's handler and drops the timer. The two
-- `start_` entries stand for detached threads.
pub data Call : Type 0 where
  get_video_port : VideoPortType → ℕ → Call
  is_video_port_display_connected : ℕ → Call
  get_video_port_resolution : ℕ → Call
  set_video_port_resolution : ℕ → VideoPortResolution → Call
  enable_video_port : ℕ → Bool → Call
  get_display : VideoPortType → ℕ → Call
  get_display_edid : ℕ → Call
  set_background_color : ℕ → BackgroundColor → Call
  get_audio_port : AudioPortType → ℕ → Call
  get_stereo_mode : ℕ → Call
  get_stereo_auto : ℕ → Call
  set_stereo_mode : ℕ → StereoMode → Call
  is_audio_port_enabled : ℕ → Call
  enable_audio_port : ℕ → Bool → Call
  set_fpd_state : FpdState → Call
  remove_source : ℕ → Call
  add_set_resolution_timeout : Call
  schedule_edid_dump : Call
  broadcast_hdcp_state : ℕ → Call
  get_device_setting_configs : Call
  force_eas_stereo : Call
  set_bootloader_pattern : BlPattern → Call
  start_pattern_retry : BlPattern → Call
  start_reboot_reason_check : Call
  source_fired : ℕ → Call

abbrev pub Calls : Type 0
Calls = List Call

-- The replies to the calls that have one which the code reads. `instance_present` says whether
-- DeviceSettingsImp::instance() is not null; the last three are what the file system holds.
pub record Device : Type 0 where
  pub video_port : Calls → VideoPortType → ℕ → Reply ℕ
  pub display_connected : Calls → ℕ → Reply Bool
  pub video_port_resolution : Calls → ℕ → Reply VideoPortResolution
  pub video_port_enabled : Calls → ℕ → Bool → ℕ
  pub display : Calls → VideoPortType → ℕ → Reply ℕ
  pub display_edid : Calls → ℕ → Reply DisplayEdid
  pub audio_port : Calls → AudioPortType → ℕ → Reply ℕ
  pub stereo_mode : Calls → ℕ → Reply StereoMode
  pub stereo_auto : Calls → ℕ → Reply ℕ
  pub audio_port_enabled : Calls → ℕ → Reply Bool
  pub audio_port_switched : Calls → ℕ → Bool → ℕ
  pub fpd_state_set : Calls → FpdState → ℕ
  pub timeout_source : Calls → ℕ
  pub instance_present : Calls → Bool
  pub device_setting_configs : Calls → Reply PortConfigs
  pub bootloader_pattern_set : Calls → BlPattern → Bool
  pub force_display_flag : Calls → Bool
  pub reboot_info_updated : Calls → Bool
  pub reboot_info_lines : Calls → Option (List Bytes)

-- Code that makes calls. `none` is an abort of the process.
abbrev pub M : Type 0 → Type 0
M A = Calls → Option (A × Calls)

unfoldable pub pure : {A : Type 0} → A → M A
pure a log = some (a, log)

unfoldable pub abort : {A : Type 0} → M A
abort log = none

infixl 5 ◌>>=◌ ◌>>◌
unfoldable pub ◌>>=◌ : {A B : Type 0} → M A → (A → M B) → M B
◌>>=◌ m f log = elim (m log) [ none ↦ none | some (a, log') ↦ f a log' ]

abbrev pub ◌>>◌ : {A B : Type 0} → M A → M B → M B
m >> k = m >>= λ _. k

-- A call whose reply is read, and one whose reply is not.
unfoldable pub ask : {A : Type 0} → (Calls → A) → Call → M A
ask reply call log = some (reply log, call ∷ log)

unfoldable pub tell : Call → M (Unit {0})
tell call log = some (tt, call ∷ log)

abbrev pub skip : M (Unit {0})
skip = pure tt

-- ===== src/Audio.antt =====
-- plugin/hal/dAudioImpl.h: the state of the audio ports' platform layer, what it uses of the HAL, of the host's
-- persistence and of the callbacks above it, and the type of a port. Built with DS_AUDIO_SETTINGS_PERSISTENCE, as
-- plugin/CMakeLists.txt builds it. A level, a float of the source that is not negative, is counted in
-- hundredths.
pub mod Volume
pub mod Ducking
pub mod Mute
pub mod Stereo
pub mod Saver
use entservices_devicesettin.Prelude.{
  ℕ, Bool, true, false, ◌&&◌, Option, none, some, List, [], ◌∷◌, ◌++◌, Bytes, codes, ◌==◌,
  if◌then◌else◌,
}
use entservices_devicesettin.VideoPort.{as_intptr}

-- The types of dsAudioPortType_t for which getAudioPortType looks.
pub data AudioPort : Type 0 where
  hdmi spdif speaker hdmi_arc headphone : AudioPort

-- The interface's AudioStereoMode
pub data StereoMode : Type 0 where
  unknown mono stereo surround passthrough dd ddplus : StereoMode

-- dsAudioStereoMode_t
pub data DsStereoMode : Type 0 where
  ds_unknown ds_mono ds_stereo ds_surround ds_passthru ds_dd ds_ddplus : DsStereoMode

-- The HAL, the persistence and the callbacks over the state W that they share. A first number is a dsError_t,
-- 0 for dsERR_NONE, and a second value what the call leaves in the output variable. `none` in a symbol's
-- place: the library has no such symbol. A property that is not there is `none`; `persist_property` throws at
-- `false`. The calls take the handle of the interface, which they extend.
pub record AudioHal (W : Type 0) : Type 0 where
  pub audio_port : AudioPort → W → (ℕ × ℕ) × W
  pub set_level : Option (ℕ → ℕ → W → ℕ × W)
  pub level : ℕ → W → (ℕ × ℕ) × W
  pub level_symbol : Bool
  pub set_mute : ℕ → Bool → W → ℕ × W
  pub is_mute : Option (ℕ → W → (ℕ × Bool) × W)
  pub port_enabled : ℕ → W → (ℕ × Bool) × W
  pub stereo_mode : ℕ → W → (ℕ × DsStereoMode) × W
  pub set_stereo_mode : ℕ → DsStereoMode → W → ℕ × W
  pub set_stereo_auto : Option (ℕ → ℕ → W → ℕ × W)
  pub property : Bytes → W → Option Bytes
  pub default_property : Bytes → W → Option Bytes
  pub persist_property : Bytes → Bytes → W → Bool × W
  pub notify_level : ℕ → W → W
  pub notify_mode : AudioPort → StereoMode → W → W

-- The levels that the persistence thread is to save, and its two flags.
pub record Levels : Type 0 where
  pub spdif_level : ℕ
  pub hdmi_level : ℕ
  pub speaker_level : ℕ
  pub headphone_level : ℕ
  pub is_alive : Bool
  pub is_pending : Bool

-- The members and the static variables, and the world.
pub record Audio (W : Type 0) : Type 0 where
  pub is_initialized : Bool
  pub is_ducking : Bool
  pub ducking_level : ℕ
  pub is_muted : Bool
  pub last_level : ℕ
  pub levels : Levels
  pub hdmi_auto : Bool
  pub spdif_auto : Bool
  pub arc_auto : Bool
  pub speaker_auto : Bool
  pub hdmi_mode : DsStereoMode
  pub spdif_mode : DsStereoMode
  pub arc_mode : DsStereoMode
  pub speaker_mode : DsStereoMode
  pub world : W

module _ {W : Type 0} (hal : AudioHal W) where
  -- The loop of getAudioPortType.
  unfoldable pub find_audio_port : List AudioPort → ℕ → W → Option AudioPort × W
  find_audio_port [] handle w = (none, w)
  find_audio_port (t ∷ ts) handle w =
      let reply : (ℕ × ℕ) × W = hal.audio_port t w in
      let rest = find_audio_port ts handle reply.1 in
      if reply.0.0 == 0 && as_intptr handle == reply.0.1 then (some t, reply.1) else rest

  -- getAudioPortType; `none` is dsAUDIOPORT_TYPE_MAX.
  unfoldable pub get_audio_port_type : ℕ → W → Option AudioPort × W
  unfolding find_audio_port
  get_audio_port_type = find_audio_port (hdmi ∷ spdif ∷ speaker ∷ hdmi_arc ∷ headphone ∷ [])

-- The names of the ports in the keys of the persistence.
abbrev pub port_name : AudioPort → Bytes
port_name hdmi = codes "HDMI0"
port_name spdif = codes "SPDIF0"
port_name speaker = codes "SPEAKER0"
port_name hdmi_arc = codes "HDMI_ARC0"
port_name headphone = codes "HEADPHONE0"

abbrev pub is_speaker : Option AudioPort → Bool
is_speaker (some speaker) = true
is_speaker (some hdmi) = false
is_speaker (some spdif) = false
is_speaker (some hdmi_arc) = false
is_speaker (some headphone) = false
is_speaker none = false

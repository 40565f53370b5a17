-- ===== src/Audio/Stereo.antt =====
-- plugin/hal/dAudioImpl.h: the stereo mode of a port and its auto mode. Each operation returns its result, its
-- output parameter if it has one, and the new state; a telemetry event has no effect here.
pub mod Readback
pub mod Auto
use mathlib.Core.Option
use entservices_devicesettin.Prelude.{
  ℕ, Bool, true, false, not, ◌&&◌, ◌||◌, Option, none, some, Bytes, codes, str_eq, ◌++◌, ◌==◌,
  if◌then◌else◌,
}
use entservices_devicesettin.Device.{error_none, error_general}
use entservices_devicesettin.Audio.{
  AudioPort, hdmi, spdif, speaker, hdmi_arc, headphone, StereoMode, unknown, mono, stereo, surround,
  passthrough, dd, ddplus, DsStereoMode, ds_unknown, ds_mono, ds_stereo, ds_surround, ds_passthru,
  ds_dd, ds_ddplus, AudioHal, Audio, get_audio_port_type, is_speaker,
}

abbrev pub error_bad_request : ℕ
error_bad_request = 30

-- convertToDS of a mode
unfoldable pub mode_to_ds : StereoMode → DsStereoMode
mode_to_ds unknown = ds_unknown
mode_to_ds mono = ds_mono
mode_to_ds stereo = ds_stereo
mode_to_ds surround = ds_surround
mode_to_ds passthrough = ds_passthru
mode_to_ds dd = ds_dd
mode_to_ds ddplus = ds_ddplus

-- convertFromDS of a mode
unfoldable pub mode_from_ds : DsStereoMode → StereoMode
mode_from_ds ds_unknown = unknown
mode_from_ds ds_mono = mono
mode_from_ds ds_stereo = stereo
mode_from_ds ds_surround = surround
mode_from_ds ds_passthru = passthrough
mode_from_ds ds_dd = dd
mode_from_ds ds_ddplus = ddplus

-- The key of the mode of a port; `none`: the port's mode is not persisted.
unfoldable pub mode_key : Option AudioPort → Option Bytes
mode_key (some hdmi) = some (codes "HDMI0.AudioMode")
mode_key (some spdif) = some (codes "SPDIF0.AudioMode")
mode_key (some hdmi_arc) = some (codes "HDMI_ARC0.AudioMode")
mode_key (some speaker) = some (codes "SPEAKER0.AudioMode")
mode_key (some headphone) = none
mode_key none = none

unfoldable pub auto_key : Option AudioPort → Option Bytes
auto_key (some hdmi) = some (codes "HDMI0.AudioMode.AUTO")
auto_key (some spdif) = some (codes "SPDIF0.AudioMode.AUTO")
auto_key (some hdmi_arc) = some (codes "HDMI_ARC0.AudioMode.AUTO")
auto_key (some speaker) = some (codes "SPEAKER0.AudioMode.AUTO")
auto_key (some headphone) = none
auto_key none = none

-- The string that SetStereoMode persists for a mode.
unfoldable pub mode_string : StereoMode → Bytes
mode_string stereo = codes "STEREO"
mode_string surround = codes "SURROUND"
mode_string passthrough = codes "PASSTHRU"
mode_string dd = codes "DOLBYDIGITAL"
mode_string ddplus = codes "DOLBYDIGITALPLUS"
mode_string unknown = codes "STEREO"
mode_string mono = codes "STEREO"

-- The mode that a persisted string stands for.
unfoldable pub mode_of_string : Bytes → DsStereoMode
mode_of_string value =
    if str_eq value (codes "SURROUND")
    then ds_surround
    else if str_eq value (codes "PASSTHRU")
    then ds_passthru
    else if str_eq value (codes "DOLBYDIGITAL")
    then ds_dd
    else if str_eq value (codes "DOLBYDIGITALPLUS")
    then ds_ddplus
    else ds_stereo

-- The port that the clients are told of.
unfoldable pub notified_port : AudioPort → AudioPort
notified_port hdmi = hdmi
notified_port spdif = spdif
notified_port speaker = speaker
notified_port hdmi_arc = hdmi_arc
notified_port headphone = speaker

module _ {W : Type 0} where
  -- getConfiguredStereoMode
  unfoldable pub configured_mode : Option AudioPort → Audio W → DsStereoMode
  configured_mode (some hdmi) a = a.hdmi_mode
  configured_mode (some spdif) a = a.spdif_mode
  configured_mode (some hdmi_arc) a = a.arc_mode
  configured_mode (some speaker) a = a.speaker_mode
  configured_mode (some headphone) a = ds_stereo
  configured_mode none a = ds_stereo

  -- setConfiguredStereoMode
  unfoldable pub set_configured_mode : AudioPort → DsStereoMode → Audio W → Audio W
  set_configured_mode hdmi mode a = record a { hdmi_mode = mode }
  set_configured_mode spdif mode a = record a { spdif_mode = mode }
  set_configured_mode hdmi_arc mode a = record a { arc_mode = mode }
  set_configured_mode speaker mode a = record a { speaker_mode = mode }
  set_configured_mode headphone mode a = a

  -- isStereoAutoEnabled
  unfoldable pub is_stereo_auto : Option AudioPort → Audio W → Bool
  is_stereo_auto (some hdmi) a = a.hdmi_auto
  is_stereo_auto (some spdif) a = a.spdif_auto
  is_stereo_auto (some hdmi_arc) a = a.arc_auto
  is_stereo_auto (some speaker) a = a.speaker_auto
  is_stereo_auto (some headphone) a = false
  is_stereo_auto none a = false

  -- setStereoAutoState
  unfoldable pub set_auto_state : Option AudioPort → Bool → Audio W → Audio W
  set_auto_state (some hdmi) enabled a = record a { hdmi_auto = enabled }
  set_auto_state (some spdif) enabled a = record a { spdif_auto = enabled }
  set_auto_state (some hdmi_arc) enabled a = record a { arc_auto = enabled }
  set_auto_state (some speaker) enabled a = record a { speaker_auto = enabled }
  set_auto_state (some headphone) enabled a = a
  set_auto_state none enabled a = a

module _ {W : Type 0} (hal : AudioHal W) where
  -- What is persisted under a key, or its default.
  unfoldable pub read_key : Option Bytes → W → Option Bytes
  read_key none w = none
  read_key (some key) w = elim (hal.property key w) [
    | some value ↦ some value
    | none ↦ hal.default_property key w
  ]

  -- getPersistedStereoMode; `none` for false.
  unfoldable pub persisted_mode : Option AudioPort → W → Option DsStereoMode
  unfolding read_key mode_of_string
  persisted_mode t w = Option.map mode_of_string (read_key (mode_key t) w)

  -- getPersistedStereoAuto; `none` for false.
  unfoldable pub persisted_auto : Option AudioPort → W → Option ℕ
  unfolding read_key
  persisted_auto t w =
      Option.map (λ value. if str_eq value (codes "TRUE") then 1 else 0) (read_key (auto_key t) w)

  abbrev reply_of : StereoMode → Option DsStereoMode → Audio W → (ℕ × StereoMode) × Audio W
  reply_of before (some mode) a = ((error_none, mode_from_ds mode), a)
  reply_of before none a = ((error_general, before), a)

  -- GetStereoMode
  unfoldable pub get_stereo_mode : ℕ → StereoMode → Bool → Audio W → (ℕ × StereoMode) × Audio W
  unfolding mode_from_ds persisted_mode is_stereo_auto configured_mode
  get_stereo_mode handle before persist a =
      let found : Option AudioPort × W = get_audio_port_type hal handle a.world in
      let b : Audio W = record a { world = found.1 } in
      let reply : (ℕ × DsStereoMode) × W = hal.stereo_mode handle found.1 in
      if not a.is_initialized
      then ((error_general, before), a)
      else if persist
      then reply_of before (persisted_mode found.0 found.1) b
      else if is_stereo_auto found.0 a || is_speaker found.0
      then reply_of before (if reply.0.0 == 0 then some reply.0.1 else none)
          (record a { world = reply.1 })
      else reply_of before (some (configured_mode found.0 a)) b

  -- An exception is caught where the mode is persisted.
  abbrev persist_mode : Option Bytes → StereoMode → W → W
  persist_mode none mode w = w
  persist_mode (some key) mode w = (hal.persist_property key (mode_string mode) w).1

  -- SetStereoMode once the type of the port is known.
  unfoldable pub set_mode_of : Option AudioPort → ℕ → StereoMode → Bool → Audio W → ℕ × Audio W
  unfolding mode_to_ds mode_string notified_port set_configured_mode
  set_mode_of none handle mode persist a = (error_bad_request, a)
  set_mode_of (some t) handle mode persist a =
      let reply : ℕ × W = hal.set_stereo_mode handle (mode_to_ds mode) a.world in
      let w = if persist then persist_mode (mode_key (some t)) mode reply.1 else reply.1 in
      if reply.0 == 0
      then (
        error_none,
        set_configured_mode t (mode_to_ds mode)
            (record a { world = hal.notify_mode (notified_port t) mode w }),
      )
      else (error_general, record a { world = reply.1 })

  -- SetStereoMode
  unfoldable pub set_stereo_mode : ℕ → StereoMode → Bool → Audio W → ℕ × Audio W
  unfolding set_mode_of
  set_stereo_mode handle mode persist a =
      let found : Option AudioPort × W = get_audio_port_type hal handle a.world in
      if a.is_initialized
      then set_mode_of found.0 handle mode persist (record a { world = found.1 })
      else (error_general, a)

  -- GetStereoAuto
  unfoldable pub get_stereo_auto : ℕ → ℕ → Audio W → (ℕ × ℕ) × Audio W
  unfolding is_stereo_auto
  get_stereo_auto handle before a =
      let found : Option AudioPort × W = get_audio_port_type hal handle a.world in
      if a.is_initialized
      then ((error_none, if is_stereo_auto found.0 a then 1 else 0), record a { world = found.1 })
      else ((error_general, before), a)

  -- The HAL has the auto mode of the ports HDMI_ARC and SPDIF only.
  unfoldable pub auto_by_hal : Option (ℕ → ℕ → W → ℕ × W) → Bool → ℕ → ℕ → W → Bool × W
  auto_by_hal set false handle auto w = (true, w)
  auto_by_hal none true handle auto w = (false, w)
  auto_by_hal (some set) true handle auto w =
      let reply : ℕ × W = set handle auto w in (reply.0 == 0, reply.1)

  abbrev pub has_hal_auto : Option AudioPort → Bool
  has_hal_auto (some hdmi_arc) = true
  has_hal_auto (some spdif) = true
  has_hal_auto (some hdmi) = false
  has_hal_auto (some speaker) = false
  has_hal_auto (some headphone) = false
  has_hal_auto none = false

  -- SetStereoAuto after the persistence.
  unfoldable pub apply_auto : ℕ → ℕ → Audio W → ℕ × Audio W
  unfolding auto_by_hal set_auto_state
  apply_auto handle auto a =
      let found : Option AudioPort × W = get_audio_port_type hal handle a.world in
      let reply = auto_by_hal hal.set_stereo_auto (has_hal_auto found.0) handle auto found.1 in
      let b : Audio W = record a { world = reply.1 } in
      if reply.0
      then (error_none, set_auto_state found.0 (not (auto == 0)) b)
      else (error_general, b)

  -- The auto mode is persisted; `false` for an exception.
  unfoldable pub persist_auto : Option Bytes → ℕ → W → Bool × W
  persist_auto none auto w = (true, w)
  persist_auto (some key) auto w =
      hal.persist_property key (if auto == 0 then codes "FALSE" else codes "TRUE") w

  -- SetStereoAuto
  unfoldable pub set_stereo_auto : ℕ → ℕ → Bool → Audio W → ℕ × Audio W
  unfolding apply_auto persist_auto
  set_stereo_auto handle auto persist a =
      let found : Option AudioPort × W = get_audio_port_type hal handle a.world in
      let kept = persist_auto (auto_key found.0) auto found.1 in
      let b : Audio W = record a { world = kept.1 } in
      if not a.is_initialized
      then (error_general, a)
      else if persist
      then (if kept.0 then apply_auto handle auto b else (error_general, b))
      else apply_auto handle auto a

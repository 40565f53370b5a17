-- ===== src/Controller/Audio.antt =====
-- plugin/DSController.cpp: `SetAudioMode` and `SetEASAudioMode`.
pub mod Footprint
use entservices_devicesettin.Prelude.{
  ℕ, Bool, true, false, not, ◌&&◌, ◌||◌, List, [], ◌∷◌, ◌==◌, if◌then◌else◌,
}
use entservices_devicesettin.Device.{
  Device, Reply, M, pure, ask, tell, skip, ◌>>=◌, ◌>>◌, hdmi, AudioPortType, spdif, hdmi_audio,
  speaker, audio_type, StereoMode, stereo, surround, passthrough, error_none, get_audio_port,
  get_stereo_mode, get_stereo_auto, set_stereo_mode, is_video_port_display_connected,
}
use entservices_devicesettin.Controller.{
  Controller, SysMode, normal, eas, other_sys_mode, value_or, get_video_port_handle,
}

-- `supportedPortTypes` of both functions.
abbrev pub audio_ports : List AudioPortType
audio_ports = spdif ∷ hdmi_audio ∷ speaker ∷ []

abbrev pub is_eas : SysMode → Bool
is_eas eas = true
is_eas _ = false

-- The reply is an error, or the null handle.
abbrev no_handle : Reply ℕ → Bool
no_handle r = not (r.result == error_none) || r.value == 0

-- AUDIO_STEREO_PASSTHROUGH gives way to stereo during an alert.
unfoldable pub eas_stereo_mode : StereoMode → StereoMode
eas_stereo_mode passthrough = stereo
eas_stereo_mode mode = mode

-- The answer of GetStereoAuto where it is not zero.
abbrev auto_on : Reply ℕ → Bool
auto_on r = r.result == error_none && not (r.value == 0)

module _ (dev : Device) (c : Controller) where
  -- HDMI only: IsVideoPortDisplayConnected, whose result code is not read.
  hdmi_audio_connected : ℕ → M Bool
  hdmi_audio_connected v_handle = if v_handle == 0 || not c.device_settings then pure false else do
    r ← ask (λ log. dev.display_connected log v_handle) (is_video_port_display_connected v_handle)
    pure r.value

  -- Surround is taken to be supported, as the source does.
  set_hdmi_mode : ℕ → StereoMode → Bool → M (Unit {0})
  set_hdmi_mode handle mode false = skip
  set_hdmi_mode handle mode true = do
    auto ← ask (λ log. dev.stereo_auto log handle) (get_stereo_auto handle)
    tell (set_stereo_mode handle (if auto_on auto then surround else mode))

  set_port_mode : AudioPortType → ℕ → StereoMode → M (Unit {0})
  unfolding set_hdmi_mode hdmi_audio_connected
  set_port_mode hdmi_audio handle mode = do
    v_handle ← get_video_port_handle dev c hdmi
    connected ← hdmi_audio_connected v_handle
    set_hdmi_mode handle mode connected
  set_port_mode _ handle mode = tell (set_stereo_mode handle mode)

  mode_arrives : AudioPortType → ℕ → Reply StereoMode → M (Unit {0})
  unfolding set_port_mode
  mode_arrives port handle m =
      if m.result == error_none then set_port_mode port handle m.value else skip

  port_arrives : AudioPortType → Reply ℕ → M (Unit {0})
  unfolding mode_arrives
  port_arrives port r = if no_handle r then skip else do
    m ← ask (λ log. dev.stereo_mode log r.value) (get_stereo_mode r.value)
    mode_arrives port r.value m

  -- The body of the loop of `SetAudioMode`.
  set_port_audio : AudioPortType → M (Unit {0})
  unfolding port_arrives
  set_port_audio port = do
    r ← ask (λ log. dev.audio_port log port 0) (get_audio_port port 0)
    port_arrives port r

  eas_mode_arrives : ℕ → Reply StereoMode → M (Unit {0})
  eas_mode_arrives handle m =
      if m.result == error_none
      then tell (set_stereo_mode handle (eas_stereo_mode m.value))
      else skip

  eas_port_arrives : Reply ℕ → M (Unit {0})
  unfolding eas_mode_arrives
  eas_port_arrives r = if no_handle r then skip else do
    m ← ask (λ log. dev.stereo_mode log r.value) (get_stereo_mode r.value)
    eas_mode_arrives r.value m

  -- The body of the loop of `SetEASAudioMode`.
  set_eas_port_audio : AudioPortType → M (Unit {0})
  unfolding eas_port_arrives
  set_eas_port_audio port = do
    r ← ask (λ log. dev.audio_port log port 0) (get_audio_port port 0)
    eas_port_arrives r

  for_ports : (AudioPortType → M (Unit {0})) → List AudioPortType → M (Unit {0})
  for_ports body [] = skip
  for_ports body (port ∷ rest) = body port >> for_ports body rest

  unfoldable pub set_audio_mode : M (Unit {0})
  unfolding for_ports set_port_audio
  set_audio_mode =
      if is_eas c.eas_mode || not c.device_settings
      then skip
      else for_ports set_port_audio audio_ports

  unfoldable pub set_eas_audio_mode : M (Unit {0})
  unfolding for_ports set_eas_port_audio
  set_eas_audio_mode =
      if not (is_eas c.eas_mode) || not c.device_settings
      then skip
      else for_ports set_eas_port_audio audio_ports

-- ===== src/Power/Ports.antt =====
-- plugin/DSPwrEventListener.cpp: `SetAVPortsPowerState`, `ConfigureVideoPort`, `ConfigureAudioPort`
-- and `SetLEDStatus`. The result of an operation is the listener's new state.
pub mod Switching
pub mod Requests
pub mod Tables
use entservices_devicesettin.Prelude.{
  ℕ, Bool, true, false, not, ◌&&◌, ◌||◌, List, [], ◌∷◌, ◌==◌, if◌then◌else◌,
}
use entservices_devicesettin.Device.{
  Device, Reply, M, pure, ask, tell, skip, ◌>>=◌, ◌>>◌, FpdState, fpd_on, fpd_off, error_none,
  error_general, get_video_port, enable_video_port, get_audio_port, enable_audio_port,
  is_audio_port_enabled, set_fpd_state, force_eas_stereo,
}
use entservices_devicesettin.Power.{
  PowerState, is_on, is_off, VideoPortEntry, AudioPortEntry, PortNames, Listener,
  is_device_settings_ready,
}
use entservices_devicesettin.Power.Standby.{get_video_port_standby_setting}

abbrev is_skipped : Reply Bool → Bool
is_skipped r = r.result == error_none && not r.value

-- Whether the port is disabled on the way to a state other than ON.
abbrev goes_down : PowerState → Listener → VideoPortEntry → Bool
goes_down power_state p e =
    not (get_video_port_standby_setting p.standby_video_port_setting e.name) || is_off power_state

-- The state of the power LED: `tv` is the profile TV.
unfoldable pub led_state : Bool → PowerState → FpdState
led_state tv power_state = if is_on power_state || tv then fpd_on else fpd_off

module _ (dev : Device) (names : PortNames) where
  -- The reply to GetVideoPort; success with the null handle is returned as success.
  enable_by_handle : Bool → Reply ℕ → M ℕ
  enable_by_handle request_enable r =
      if r.result == error_none && not (r.value == 0)
      then ask (λ log. dev.video_port_enabled log r.value request_enable)
          (enable_video_port r.value request_enable)
      else pure r.result

  video_ready : VideoPortEntry → Bool → Bool × Listener → M (ℕ × Listener)
  unfolding enable_by_handle
  video_ready e request_enable (false, p) = pure (error_general, p)
  video_ready e request_enable (true, p) = do
    r ← ask (λ log. dev.video_port log e.type e.index) (get_video_port e.type e.index)
    result ← enable_by_handle request_enable r
    pure (result, p)

  unfoldable pub configure_video_port : VideoPortEntry → Bool → Listener → M (ℕ × Listener)
  unfolding video_ready
  configure_video_port e request_enable p = do
    ready ← is_device_settings_ready dev names p
    video_ready e request_enable ready

  switch_audio : ℕ → Bool → M ℕ
  switch_audio handle enable =
      ask (λ log. dev.audio_port_switched log handle enable) (enable_audio_port handle enable)

  -- Before it is enabled the port is asked for its persisted state; a failure counts as enabled.
  enable_unless_persisted_off : ℕ → M ℕ
  unfolding switch_audio
  enable_unless_persisted_off handle = do
    r ← ask (λ log. dev.audio_port_enabled log handle) (is_audio_port_enabled handle)
    if is_skipped r then pure error_none else switch_audio handle true

  enable_audio_by_handle : Bool → Reply ℕ → M ℕ
  unfolding enable_unless_persisted_off
  enable_audio_by_handle request_enable r =
      if r.result == error_none && not (r.value == 0)
      then (if request_enable
          then enable_unless_persisted_off r.value
          else switch_audio r.value false)
      else pure r.result

  audio_ready : AudioPortEntry → Bool → Bool × Listener → M (ℕ × Listener)
  unfolding enable_audio_by_handle
  audio_ready e request_enable (false, p) = pure (error_general, p)
  audio_ready e request_enable (true, p) = do
    r ← ask (λ log. dev.audio_port log e.type e.index) (get_audio_port e.type e.index)
    result ← enable_audio_by_handle request_enable r
    pure (result, p)

  unfoldable pub configure_audio_port : AudioPortEntry → Bool → Listener → M (ℕ × Listener)
  unfolding audio_ready
  configure_audio_port e request_enable p = do
    ready ← is_device_settings_ready dev names p
    audio_ready e request_enable ready

  disable_videos : PowerState → List VideoPortEntry → Listener → M Listener
  disable_videos power_state [] p = pure p
  disable_videos power_state (e ∷ rest) p =
      if goes_down power_state p e
      then (do r ← configure_video_port e false p; disable_videos power_state rest r.1)
      else disable_videos power_state rest p

  enable_videos : List VideoPortEntry → Listener → M Listener
  enable_videos [] p = pure p
  enable_videos (e ∷ rest) p = do r ← configure_video_port e true p; enable_videos rest r.1

  switch_audios : Bool → List AudioPortEntry → Listener → M Listener
  switch_audios enable [] p = pure p
  switch_audios enable (e ∷ rest) p = do
    r ← configure_audio_port e enable p
    switch_audios enable rest r.1

  -- BuildVideoPortEntries and BuildAudioPortEntries: the copies are empty where the implementation is
  -- not there.
  unfoldable pub build_video_port_entries : Listener → M (List VideoPortEntry × Listener)
  build_video_port_entries p = do
    r ← is_device_settings_ready dev names p
    pure (if r.0 then r.1.video_port_entries else [], r.1)

  unfoldable pub build_audio_port_entries : Listener → M (List AudioPortEntry × Listener)
  build_audio_port_entries p = do
    r ← is_device_settings_ready dev names p
    pure (if r.0 then r.1.audio_port_entries else [], r.1)

  -- Any state but ON.
  power_down : PowerState → Listener → M Listener
  unfolding disable_videos switch_audios
  power_down power_state p = do
    videos ← build_video_port_entries p
    p1 ← disable_videos power_state videos.0 videos.1
    audios ← build_audio_port_entries p1
    switch_audios false audios.0 audios.1

  force_stereo_in_eas : Bool → M (Unit {0})
  force_stereo_in_eas in_eas = if in_eas then tell force_eas_stereo else skip

  power_up : Bool → Listener → M Listener
  unfolding enable_videos switch_audios force_stereo_in_eas
  power_up in_eas p = do
    videos ← build_video_port_entries p
    p1 ← enable_videos videos.0 videos.1
    audios ← build_audio_port_entries p1
    p2 ← switch_audios true audios.0 audios.1
    force_stereo_in_eas in_eas
    pure p2

  -- `in_eas`: the controller's EAS mode, read at the end of a change to ON.
  unfoldable pub set_av_ports_power_state : Bool → PowerState → Listener → M Listener
  unfolding power_down power_up
  set_av_ports_power_state in_eas power_state p =
      if is_on power_state then power_up in_eas p else power_down power_state p

  led_ready : Bool → PowerState → Bool × Listener → M (Bool × Listener)
  unfolding led_state
  led_ready tv power_state (false, p) = pure (false, p)
  led_ready tv power_state (true, p) = do
    result ←
        ask (λ log. dev.fpd_state_set log (led_state tv power_state))
          (set_fpd_state (led_state tv power_state))
    pure (result == error_none, p)

  -- `false` stands for the result -1.
  unfoldable pub set_led_status : Bool → PowerState → Listener → M (Bool × Listener)
  unfolding led_ready
  set_led_status tv power_state p = do
    ready ← is_device_settings_ready dev names p
    led_ready tv power_state ready

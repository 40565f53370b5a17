-- ===== src/Controller/Audio/Footprint.antt =====
-- Which calls `SetAudioMode` and `SetEASAudioMode` make, and the modes that they set.
use entservices_devicesettin.Prelude.{
  ℕ, ◌≡◌, ◌≢◌, Bool, true, false, not, ◌||◌, List, [], ◌∷◌, ◌==◌, arith,
}
use entservices_devicesettin.Device.{
  Device, Reply, M, Call, Calls, hdmi, AudioPortType, hdmi_audio, StereoMode, stereo, surround,
  passthrough, other_mode, error_none, get_video_port, get_audio_port, get_stereo_mode,
  get_stereo_auto, set_stereo_mode, is_video_port_display_connected,
}
use entservices_devicesettin.Device.Log.{
  Ensures, Any, Stable, Ensures-bind, Ensures-if, Ensures-pure, Ensures-ask, Ensures-tell,
}
use entservices_devicesettin.Controller.{Controller, get_video_port_handle}
use entservices_devicesettin.Controller.Audio.{
  audio_ports, is_eas, no_handle, eas_stereo_mode, hdmi_audio_connected, set_hdmi_mode,
  set_port_mode, set_port_audio, set_eas_port_audio, for_ports, set_audio_mode, set_eas_audio_mode,
}

-- The calls of the two functions, with W for the modes that may be set.
abbrev pub IsAudioCall : (StereoMode → Type 0) → Call → Type 0
IsAudioCall W (get_video_port port index) = Unit
IsAudioCall W (is_video_port_display_connected handle) = Unit
IsAudioCall W (get_audio_port port index) = Unit
IsAudioCall W (get_stereo_mode handle) = Unit
IsAudioCall W (get_stereo_auto handle) = Unit
IsAudioCall W (set_stereo_mode handle mode) = (handle ≢ 0) × W mode
IsAudioCall W _ = ⊥

no_handle-ne : (r : Reply ℕ) → no_handle r ≡ false → r.value ≢ 0
no_handle-ne r h z = ground arith

eas_stereo_mode-ne : (mode : StereoMode) → eas_stereo_mode mode ≢ passthrough
unfolding eas_stereo_mode
eas_stereo_mode-ne stereo h = cc
eas_stereo_mode-ne surround h = cc
eas_stereo_mode-ne passthrough h = cc
eas_stereo_mode-ne (other_mode n) h = cc

module _ (I : Calls → Type 0) where
  for_ports-Ensures :
      (dev : Device) (c : Controller) (body : AudioPortType → M (Unit {0}))
      → ((port : AudioPortType) → Ensures I Any (body port))
      → (ports : List AudioPortType) → Ensures I Any (for_ports dev c body ports)
  unfolding for_ports
  for_ports-Ensures dev c body h [] = Ensures-pure _ tt
  for_ports-Ensures dev c body h (port ∷ rest) =
      let others = for_ports-Ensures dev c body h rest in Ensures-bind Any (h port) (λ _ _. others)

-- For every statement I about logs that these calls keep.
module _ (dev : Device) (c : Controller) (I : Calls → Type 0)
    (keep : (call : Call) → IsAudioCall Any call → Stable I call) where
  hdmi_audio_connected-Ensures :
      (v_handle : ℕ) → Ensures I Any (hdmi_audio_connected dev c v_handle)
  unfolding hdmi_audio_connected
  hdmi_audio_connected-Ensures v_handle =
      Ensures-if (v_handle == 0 || not c.device_settings) (λ _. Ensures-pure _ tt)
        (λ _. Ensures-bind Any (Ensures-ask _ _ (keep _ tt) (λ log. tt)) (λ r _. Ensures-pure _ tt))

  video_handle-Ensures : Ensures I Any (get_video_port_handle dev c hdmi)
  unfolding get_video_port_handle
  video_handle-Ensures =
      Ensures-if c.device_settings
        (λ _. Ensures-bind Any (Ensures-ask _ _ (keep _ tt) (λ log. tt)) (λ r _. Ensures-pure _ tt))
        (λ _. Ensures-pure _ tt)

  set_hdmi_mode-Ensures :
      (handle : ℕ) (mode : StereoMode) (connected : Bool)
      → handle ≢ 0
      → Ensures I Any (set_hdmi_mode dev c handle mode connected)
  unfolding set_hdmi_mode
  set_hdmi_mode-Ensures handle mode false h = Ensures-pure _ tt
  set_hdmi_mode-Ensures handle mode true h =
      Ensures-bind Any (Ensures-ask _ _ (keep _ tt) (λ log. tt))
        (λ r _. Ensures-tell _ (keep _ (h, tt)))

  set_port_mode-Ensures :
      (port : AudioPortType) (handle : ℕ) (mode : StereoMode)
      → handle ≢ 0
      → Ensures I Any (set_port_mode dev c port handle mode)
  unfolding set_port_mode
  set_port_mode-Ensures hdmi_audio handle mode h = Ensures-bind Any video_handle-Ensures (λ v _.
      Ensures-bind Any (hdmi_audio_connected-Ensures v)
        (λ connected _. set_hdmi_mode-Ensures handle mode connected h))
  set_port_mode-Ensures _ handle mode h = Ensures-tell _ (keep _ (h, tt))

  set_port_audio-Ensures : (port : AudioPortType) → Ensures I Any (set_port_audio dev c port)
  unfolding set_port_audio
  set_port_audio-Ensures port = Ensures-bind Any (Ensures-ask _ _ (keep _ tt) (λ log. tt)) (λ r _.
      Ensures-if (no_handle r) (λ _. Ensures-pure _ tt)
        (λ e. Ensures-bind Any (Ensures-ask _ _ (keep _ tt) (λ log. tt)) (λ m _.
          Ensures-if (m.result == error_none)
            (λ _. set_port_mode-Ensures port r.value m.value (no_handle-ne r e))
            (λ _. Ensures-pure _ tt))))

  -- `SetAudioMode` makes the calls of IsAudioCall and no others.
  pub set_audio_mode-Ensures : Ensures I Any (set_audio_mode dev c)
  unfolding set_audio_mode
  set_audio_mode-Ensures =
      Ensures-if (is_eas c.eas_mode || not c.device_settings) (λ _. Ensures-pure _ tt)
        (λ _. for_ports-Ensures I dev c _ set_port_audio-Ensures audio_ports)

-- The same, for statements that setting any mode but passthrough keeps.
module _ (dev : Device) (c : Controller) (I : Calls → Type 0)
    (keep : (call : Call) → IsAudioCall (λ m. m ≢ passthrough) call → Stable I call) where
  set_eas_port_audio-Ensures :
      (port : AudioPortType) → Ensures I Any (set_eas_port_audio dev c port)
  unfolding set_eas_port_audio
  set_eas_port_audio-Ensures port =
      Ensures-bind Any (Ensures-ask _ _ (keep _ tt) (λ log. tt)) (λ r _.
        Ensures-if (no_handle r) (λ _. Ensures-pure _ tt)
          (λ e. Ensures-bind Any (Ensures-ask _ _ (keep _ tt) (λ log. tt)) (λ m _.
            Ensures-if (m.result == error_none)
              (λ _. Ensures-tell _ (keep _ (no_handle-ne r e, eas_stereo_mode-ne m.value)))
              (λ _. Ensures-pure _ tt))))

  -- `SetEASAudioMode` makes the calls of IsAudioCall, and never sets passthrough.
  pub set_eas_audio_mode-Ensures : Ensures I Any (set_eas_audio_mode dev c)
  unfolding set_eas_audio_mode
  set_eas_audio_mode-Ensures =
      Ensures-if (not (is_eas c.eas_mode) || not c.device_settings) (λ _. Ensures-pure _ tt)
        (λ _. for_ports-Ensures I dev c _ set_eas_port_audio-Ensures audio_ports)

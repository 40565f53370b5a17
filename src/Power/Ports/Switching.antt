-- ===== src/Power/Ports/Switching.antt =====
-- Which ports `SetAVPortsPowerState` switches, and which way.
use entservices_devicesettin.Prelude.{
  ℕ, ◌≡◌, refl, sym, Bool, true, false, not, ◌&&◌, List, [], ◌∷◌, ◌==◌, if◌then◌else◌,
}
use entservices_devicesettin.Device.{
  Device, Call, Calls, error_none, get_video_port, enable_video_port, get_audio_port,
  enable_audio_port, is_audio_port_enabled, force_eas_stereo, get_device_setting_configs,
}
use entservices_devicesettin.Device.Log.{Any, Stable}
use entservices_devicesettin.Device.Returns.{
  Yields, Yields-bind, Yields-if, Yields-pure, Yields-ask, Yields-tell,
}
use entservices_devicesettin.Power.{
  PowerState, is_on, VideoPortEntry, AudioPortEntry, PortNames, Listener, is_nil,
  is_device_settings_ready, find_instance, refresh_if_empty, refresh_port_configuration_cache,
}
use entservices_devicesettin.Power.Ports.{
  enable_by_handle, video_ready, configure_video_port, is_skipped, switch_audio,
  enable_unless_persisted_off, enable_audio_by_handle, audio_ready, configure_audio_port, goes_down,
  disable_videos, enable_videos, switch_audios, build_video_port_entries, build_audio_port_entries,
  power_down, force_stereo_in_eas, power_up, set_av_ports_power_state,
}

-- Every port that was switched was switched to `b`.
abbrev pub Switched : Bool → Calls → Type 0
Switched b [] = Unit
Switched b (enable_video_port handle enable ∷ log) = (enable ≡ b) × Switched b log
Switched b (enable_audio_port handle enable ∷ log) = (enable ≡ b) × Switched b log
Switched b (_ ∷ log) = Switched b log

-- What a power state change calls, where it switches ports to `b`.
abbrev pub IsPortCall : Bool → Call → Type 0
IsPortCall b (get_video_port t i) = Unit
IsPortCall b (get_audio_port t i) = Unit
IsPortCall b (is_audio_port_enabled handle) = Unit
IsPortCall b get_device_setting_configs = Unit
IsPortCall b force_eas_stereo = Unit
IsPortCall b (enable_video_port handle enable) = enable ≡ b
IsPortCall b (enable_audio_port handle enable) = enable ≡ b
IsPortCall b _ = ⊥

module _ (dev : Device) (names : PortNames) (I : Calls → Type 0) (b : Bool)
    (s : (call : Call) → IsPortCall b call → Stable I call) where
  refresh_keeps : (p : Listener) → Yields I I Any (refresh_port_configuration_cache dev names p)
  unfolding refresh_port_configuration_cache
  refresh_keeps p =
      Yields-bind {Q = Any} (Yields-ask _ _ (λ log h. (tt, s _ tt log h))) (λ r _. Yields-pure _ tt)

  find_instance_keeps :
      (p : Listener) (present : Bool) → Yields I I Any (find_instance dev names p present)
  unfolding find_instance
  find_instance_keeps p false = Yields-pure _ tt
  find_instance_keeps p true = Yields-bind {Q = Any} (refresh_keeps _) (λ q _. Yields-pure _ tt)

  refresh_if_empty_keeps : (p : Listener) → Yields I I Any (refresh_if_empty dev names p)
  unfolding refresh_if_empty
  refresh_if_empty_keeps p =
      Yields-if (is_nil p.video_port_entries && is_nil p.audio_port_entries)
        (λ _. Yields-bind {Q = Any} (refresh_keeps p) (λ q _. Yields-pure _ tt))
        (λ _. Yields-pure _ tt)

  ready_keeps : (p : Listener) → Yields I I Any (is_device_settings_ready dev names p)
  unfolding is_device_settings_ready
  ready_keeps p =
      Yields-if p.device_settings (λ _. refresh_if_empty_keeps p)
        (λ _. record { at = λ log h. (find_instance_keeps p (dev.instance_present log)).at log h })

  configure_video_keeps :
      (e : VideoPortEntry) (p : Listener) → Yields I I Any (configure_video_port dev names e b p)
  unfolding configure_video_port video_ready enable_by_handle
  configure_video_keeps e p = Yields-bind {Q = Any} (ready_keeps p) (λ ready _. go ready)
    where
      go : (ready : Bool × Listener) → Yields I I Any (video_ready dev names e b ready)
      go (false, q) = Yields-pure _ tt
      go (true, q) = Yields-bind {Q = Any} (Yields-ask _ _ (λ log h. (tt, s _ tt log h))) (λ r _.
          Yields-bind {Q = Any}
            (Yields-if (r.result == error_none && not (r.value == 0))
              (λ _. Yields-ask _ _ (λ log h. (tt, s _ refl log h))) (λ _. Yields-pure _ tt))
            (λ n _. Yields-pure _ tt))

  switch_audio_keeps : (handle : ℕ) → Yields I I Any (switch_audio dev names handle b)
  unfolding switch_audio
  switch_audio_keeps handle = Yields-ask _ _ (λ log h. (tt, s _ refl log h))

  configure_audio_keeps :
      (e : AudioPortEntry) (p : Listener) → Yields I I Any (configure_audio_port dev names e b p)
  unfolding configure_audio_port audio_ready enable_audio_by_handle enable_unless_persisted_off
      switch_audio
  configure_audio_keeps e p = Yields-bind {Q = Any} (ready_keeps p) (λ ready _. go ready)
    where
      when_on :
          (handle : ℕ) → b ≡ true → Yields I I Any (enable_unless_persisted_off dev names handle)
      when_on handle e =
          Yields-bind {Q = Any} (Yields-ask _ _ (λ log h. (tt, s _ tt log h))) (λ r _.
            Yields-if (is_skipped r) (λ _. Yields-pure _ tt)
              (λ _. Yields-ask _ _ (λ log h. (tt, s _ (sym e) log h))))

      when_off : (handle : ℕ) → b ≡ false → Yields I I Any (switch_audio dev names handle false)
      when_off handle e = Yields-ask _ _ (λ log h. (tt, s _ (sym e) log h))

      go : (ready : Bool × Listener) → Yields I I Any (audio_ready dev names e b ready)
      go (false, q) = Yields-pure _ tt
      go (true, q) = Yields-bind {Q = Any} (Yields-ask _ _ (λ log h. (tt, s _ tt log h))) (λ r _.
          Yields-bind {Q = Any}
            (Yields-if (r.result == error_none && not (r.value == 0))
              (λ _. Yields-if b (when_on r.value) (when_off r.value)) (λ _. Yields-pure _ tt))
            (λ n _. Yields-pure _ tt))

  switch_audios_keeps :
      (es : List AudioPortEntry) (p : Listener) → Yields I I Any (switch_audios dev names b es p)
  unfolding switch_audios
  switch_audios_keeps [] p = Yields-pure _ tt
  switch_audios_keeps (e ∷ es) p =
      Yields-bind {Q = Any} (configure_audio_keeps e p) (λ r _. switch_audios_keeps es r.1)

  build_videos_keeps : (p : Listener) → Yields I I Any (build_video_port_entries dev names p)
  unfolding build_video_port_entries
  build_videos_keeps p = Yields-bind {Q = Any} (ready_keeps p) (λ r _. Yields-pure _ tt)

  build_audios_keeps : (p : Listener) → Yields I I Any (build_audio_port_entries dev names p)
  unfolding build_audio_port_entries
  build_audios_keeps p = Yields-bind {Q = Any} (ready_keeps p) (λ r _. Yields-pure _ tt)

module _ (dev : Device) (names : PortNames) (I : Calls → Type 0)
    (s : (call : Call) → IsPortCall false call → Stable I call) where
  disable_videos_keeps :
      (power_state : PowerState) (es : List VideoPortEntry) (p : Listener)
      → Yields I I Any (disable_videos dev names power_state es p)
  unfolding disable_videos
  disable_videos_keeps power_state [] p = Yields-pure _ tt
  disable_videos_keeps power_state (e ∷ es) p =
      Yields-if (goes_down power_state p e)
        (λ _.
          Yields-bind {Q = Any} (configure_video_keeps dev names I false s e p)
            (λ r _. disable_videos_keeps power_state es r.1))
        (λ _. disable_videos_keeps power_state es p)

  power_down_keeps :
      (power_state : PowerState) (p : Listener)
      → Yields I I Any (power_down dev names power_state p)
  unfolding power_down
  power_down_keeps power_state p =
      Yields-bind {Q = Any} (build_videos_keeps dev names I false s p) (λ v _.
        Yields-bind {Q = Any} (disable_videos_keeps power_state v.0 v.1) (λ p1 _.
          Yields-bind {Q = Any} (build_audios_keeps dev names I false s p1)
            (λ a _. switch_audios_keeps dev names I false s a.0 a.1)))

module _ (dev : Device) (names : PortNames) (I : Calls → Type 0)
    (s : (call : Call) → IsPortCall true call → Stable I call) where
  enable_videos_keeps :
      (es : List VideoPortEntry) (p : Listener) → Yields I I Any (enable_videos dev names es p)
  unfolding enable_videos
  enable_videos_keeps [] p = Yields-pure _ tt
  enable_videos_keeps (e ∷ es) p =
      Yields-bind {Q = Any} (configure_video_keeps dev names I true s e p)
        (λ r _. enable_videos_keeps es r.1)

  power_up_keeps : (in_eas : Bool) (p : Listener) → Yields I I Any (power_up dev names in_eas p)
  unfolding power_up force_stereo_in_eas
  power_up_keeps in_eas p = Yields-bind {Q = Any} (build_videos_keeps dev names I true s p) (λ v _.
      Yields-bind {Q = Any} (enable_videos_keeps v.0 v.1) (λ p1 _.
        Yields-bind {Q = Any} (build_audios_keeps dev names I true s p1) (λ a _.
          Yields-bind {Q = Any} (switch_audios_keeps dev names I true s a.0 a.1) (λ p2 _.
            Yields-bind {Q = Any}
              (Yields-if in_eas (λ _. Yields-tell _ tt (s _ tt)) (λ _. Yields-pure _ tt))
              (λ _ _. Yields-pure _ tt)))))

module _ (dev : Device) (names : PortNames) where
  -- A power state change returns, and keeps what its calls keep.
  pub set_av_ports_power_state_keeps :
      (I : Calls → Type 0) (in_eas : Bool) (power_state : PowerState) (p : Listener)
      → ((call : Call) → IsPortCall (is_on power_state) call → Stable I call)
      → Yields I I Any (set_av_ports_power_state dev names in_eas power_state p)
  unfolding set_av_ports_power_state
  set_av_ports_power_state_keeps I in_eas power_state p s = by_state (is_on power_state) s
    where
      by_state :
          (on : Bool)
          → ((call : Call) → IsPortCall on call → Stable I call)
          → Yields I I Any
              (if on then power_up dev names in_eas p else power_down dev names power_state p)
      by_state true s = power_up_keeps dev names I s in_eas p
      by_state false s = power_down_keeps dev names I s power_state p

  Switched-IsPortCall : (b : Bool) (call : Call) → IsPortCall b call → Stable (Switched b) call
  Switched-IsPortCall b (get_video_port t i) c log h = h
  Switched-IsPortCall b (get_audio_port t i) c log h = h
  Switched-IsPortCall b (is_audio_port_enabled handle) c log h = h
  Switched-IsPortCall b get_device_setting_configs c log h = h
  Switched-IsPortCall b force_eas_stereo c log h = h
  Switched-IsPortCall b (enable_video_port handle enable) c log h = (c, h)
  Switched-IsPortCall b (enable_audio_port handle enable) c log h = (c, h)
  Switched-IsPortCall b _ c log h = absurd c

  -- A power state change always returns. A change to ON never disables a port, and a change to any other
  -- state never enables one: every port that the code switches, on whatever replies, it switches on
  -- exactly when the new state is ON.
  pub set_av_ports_power_state-Switched :
      (in_eas : Bool) (power_state : PowerState) (p : Listener)
      → Yields
          (Switched (is_on power_state))
          (Switched (is_on power_state))
          Any
          (set_av_ports_power_state dev names in_eas power_state p)
  set_av_ports_power_state-Switched in_eas power_state p =
      set_av_ports_power_state_keeps (Switched (is_on power_state)) in_eas power_state p
        (Switched-IsPortCall (is_on power_state))

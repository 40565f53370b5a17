-- ===== src/Power/Ports/Requests.antt =====
-- Which ports `SetAVPortsPowerState` asks for, in what order, once the port tables are there.
use entservices_devicesettin.Prelude.{
  ℕ, ◌≡◌, refl, subst, ◌||◌, sym, ◌∙◌, ap, Bool, true, false, not, ◌&&◌, List, [], ◌∷◌, ◌==◌,
  if◌then◌else◌, if_true, if_false,
}
use entservices_devicesettin.Device.{
  Device, Reply, M, Calls, pure, ◌>>=◌, ◌>>◌, VideoPortType, AudioPortType, error_none,
  get_video_port, get_audio_port,
}
use entservices_devicesettin.Device.Returns.{
  Yields, Yields-bind, Yields-if, Yields-pure, Yields-ask, Yields-tell,
}
use entservices_devicesettin.Power.{
  PowerState, is_on, is_off, VideoPortEntry, AudioPortEntry, PortNames, Listener, is_nil,
  is_device_settings_ready, refresh_if_empty,
}
use entservices_devicesettin.Power.Standby.{get_video_port_standby_setting}
use entservices_devicesettin.Power.Ports.{
  enable_by_handle, video_ready, configure_video_port, is_skipped, switch_audio,
  enable_unless_persisted_off, enable_audio_by_handle, audio_ready, configure_audio_port, goes_down,
  disable_videos, enable_videos, switch_audios, build_video_port_entries, build_audio_port_entries,
  power_down, force_stereo_in_eas, power_up, set_av_ports_power_state,
}

-- The video ports, and the audio ports, that were asked for, the last first.
abbrev pub video_requests : Calls → List (VideoPortType × ℕ)
video_requests [] = []
video_requests (get_video_port t i ∷ log) = (t, i) ∷ video_requests log
video_requests (_ ∷ log) = video_requests log

abbrev pub audio_requests : Calls → List (AudioPortType × ℕ)
audio_requests [] = []
audio_requests (get_audio_port t i ∷ log) = (t, i) ∷ audio_requests log
audio_requests (_ ∷ log) = audio_requests log

abbrev video_key : VideoPortEntry → VideoPortType × ℕ
video_key e = (e.type, e.index)

abbrev audio_key : AudioPortEntry → AudioPortType × ℕ
audio_key e = (e.type, e.index)

-- The ports on top of those asked for before, the last first.
abbrev pub after_videos : List VideoPortEntry → List (VideoPortType × ℕ) → List (VideoPortType × ℕ)
after_videos [] asked = asked
after_videos (e ∷ es) asked = after_videos es (video_key e ∷ asked)

abbrev pub after_audios : List AudioPortEntry → List (AudioPortType × ℕ) → List (AudioPortType × ℕ)
after_audios [] asked = asked
after_audios (e ∷ es) asked = after_audios es (audio_key e ∷ asked)

-- A change to OFF keeps no port enabled; a standby state keeps the ports that the table says.
abbrev stays_enabled : PowerState → Listener → VideoPortEntry → Bool
stays_enabled power_state p e =
    not (is_off power_state) && get_video_port_standby_setting p.standby_video_port_setting e.name

abbrev without_enabled : PowerState → Listener → List VideoPortEntry → List VideoPortEntry
without_enabled power_state p [] = []
without_enabled power_state p (e ∷ es) =
    if stays_enabled power_state p e
    then without_enabled power_state p es
    else e ∷ without_enabled power_state p es

-- The video ports that a change to the state concerns.
abbrev pub concerned_videos : PowerState → Listener → List VideoPortEntry
concerned_videos power_state p =
    if is_on power_state
    then p.video_port_entries
    else without_enabled power_state p p.video_port_entries

-- The implementation is known, and at least one port table has been read.
abbrev pub IsSettled : Listener → Type 0
IsSettled p =
    (p.device_settings ≡ true)
    × (is_nil p.video_port_entries && is_nil p.audio_port_entries ≡ false)

-- What has been asked for so far.
abbrev pub Asked : List (VideoPortType × ℕ) → List (AudioPortType × ℕ) → Calls → Type 0
Asked videos audios log = (video_requests log ≡ videos) × (audio_requests log ≡ audios)

abbrev Any : {A : Type 0} → A → Type 0
Any a = Unit {0}

goes_down-stays_enabled :
    (power_state : PowerState) (p : Listener) (e : VideoPortEntry)
    → goes_down power_state p e ≡ not (stays_enabled power_state p e)
goes_down-stays_enabled power_state p e =
    by_bits (get_video_port_standby_setting p.standby_video_port_setting e.name)
      (is_off power_state)
  where
    by_bits : (a b : Bool) → not a || b ≡ not (not b && a)
    by_bits true true = refl
    by_bits true false = refl
    by_bits false true = refl
    by_bits false false = refl

module _ (dev : Device) (names : PortNames) where
  -- A settled listener is ready without a call.
  is_device_settings_ready_settled :
      (p : Listener) → IsSettled p → is_device_settings_ready dev names p ≡ pure (true, p)
  unfolding is_device_settings_ready refresh_if_empty
  is_device_settings_ready_settled p h = if_true _ _ _ h.0 ∙ if_false _ _ _ h.1

  module _ (p : Listener) (s : IsSettled p) where
    abbrev Unchanged : Listener → Type 0
    Unchanged q = q ≡ p

    abbrev Keeps : {A : Type 0} → A × Listener → Type 0
    Keeps r = r.1 ≡ p

    enable_by_handle-Yields :
        (b : Bool) (r : Reply ℕ) (vs : List (VideoPortType × ℕ)) (us : List (AudioPortType × ℕ))
        → Yields (Asked vs us) (Asked vs us) Any (enable_by_handle dev names b r)
    unfolding enable_by_handle
    enable_by_handle-Yields b r vs us =
        Yields-if (r.result == error_none && not (r.value == 0))
          (λ _. Yields-ask _ _ (λ log h. (tt, h))) (λ _. Yields-pure _ tt)

    video_ready-Yields :
        (e : VideoPortEntry) (b : Bool) (vs : List (VideoPortType × ℕ))
        (us : List (AudioPortType × ℕ))
        → Yields
            (Asked vs us)
            (Asked (video_key e ∷ vs) us)
            Keeps
            (video_ready dev names e b (true, p))
    unfolding video_ready
    video_ready-Yields e b vs us =
        Yields-bind (Yields-ask {Q = Any} _ _ (λ log h. (tt, (ap (λ l. video_key e ∷ l) h.0, h.1))))
          (λ r _. Yields-bind (enable_by_handle-Yields b r _ _) (λ n _. Yields-pure _ refl))

    configure_video-Yields :
        (e : VideoPortEntry) (b : Bool) (vs : List (VideoPortType × ℕ))
        (us : List (AudioPortType × ℕ))
        → Yields
            (Asked vs us)
            (Asked (video_key e ∷ vs) us)
            Keeps
            (configure_video_port dev names e b p)
    unfolding configure_video_port pure ◌>>=◌
    configure_video-Yields e b vs us =
        rw (is_device_settings_ready_settled p s) (video_ready-Yields e b vs us)

    switch_audio-Yields :
        (handle : ℕ) (b : Bool) (vs : List (VideoPortType × ℕ)) (us : List (AudioPortType × ℕ))
        → Yields (Asked vs us) (Asked vs us) Any (switch_audio dev names handle b)
    unfolding switch_audio
    switch_audio-Yields handle b vs us = Yields-ask _ _ (λ log h. (tt, h))

    enable_unless-Yields :
        (handle : ℕ) (vs : List (VideoPortType × ℕ)) (us : List (AudioPortType × ℕ))
        → Yields (Asked vs us) (Asked vs us) Any (enable_unless_persisted_off dev names handle)
    unfolding enable_unless_persisted_off
    enable_unless-Yields handle vs us =
        Yields-bind (Yields-ask {Q = Any} _ _ (λ log h. (tt, h))) (λ r _.
          Yields-if (is_skipped r) (λ _. Yields-pure _ tt)
            (λ _. switch_audio-Yields handle true vs us))

    audio_ready-Yields :
        (e : AudioPortEntry) (b : Bool) (vs : List (VideoPortType × ℕ))
        (us : List (AudioPortType × ℕ))
        → Yields
            (Asked vs us)
            (Asked vs (audio_key e ∷ us))
            Keeps
            (audio_ready dev names e b (true, p))
    unfolding audio_ready enable_audio_by_handle
    audio_ready-Yields e b vs us =
        Yields-bind (Yields-ask {Q = Any} _ _ (λ log h. (tt, (h.0, ap (λ l. audio_key e ∷ l) h.1))))
          (λ r _.
            Yields-bind
              (Yields-if (r.result == error_none && not (r.value == 0))
                (λ _.
                  Yields-if b (λ _. enable_unless-Yields r.value _ _)
                    (λ _. switch_audio-Yields r.value false _ _))
                (λ _. Yields-pure _ tt))
              (λ n _. Yields-pure _ refl))

    configure_audio-Yields :
        (e : AudioPortEntry) (b : Bool) (vs : List (VideoPortType × ℕ))
        (us : List (AudioPortType × ℕ))
        → Yields
            (Asked vs us)
            (Asked vs (audio_key e ∷ us))
            Keeps
            (configure_audio_port dev names e b p)
    unfolding configure_audio_port pure ◌>>=◌
    configure_audio-Yields e b vs us =
        rw (is_device_settings_ready_settled p s) (audio_ready-Yields e b vs us)

    -- The operation on the next state, which is the same.
    at_same :
        {I J : Calls → Type 0} (f : Listener → M Listener) (q : Listener)
        → q ≡ p
        → Yields I J Unchanged (f p)
        → Yields I J Unchanged (f q)
    at_same {I} {J} f q e h = subst (λ q. Yields I J Unchanged (f q)) (sym e) h

    enable_videos-Yields :
        (es : List VideoPortEntry) (vs : List (VideoPortType × ℕ)) (us : List (AudioPortType × ℕ))
        → Yields
            (Asked vs us)
            (Asked (after_videos es vs) us)
            Unchanged
            (enable_videos dev names es p)
    unfolding enable_videos
    enable_videos-Yields [] vs us = Yields-pure _ refl
    enable_videos-Yields (e ∷ es) vs us =
        Yields-bind (configure_video-Yields e true vs us)
          (λ r k. at_same (enable_videos dev names es) r.1 k (enable_videos-Yields es _ us))

    switch_audios-Yields :
        (b : Bool) (es : List AudioPortEntry) (vs : List (VideoPortType × ℕ))
        (us : List (AudioPortType × ℕ))
        → Yields
            (Asked vs us)
            (Asked vs (after_audios es us))
            Unchanged
            (switch_audios dev names b es p)
    unfolding switch_audios
    switch_audios-Yields b [] vs us = Yields-pure _ refl
    switch_audios-Yields b (e ∷ es) vs us =
        Yields-bind (configure_audio-Yields e b vs us)
          (λ r k. at_same (switch_audios dev names b es) r.1 k (switch_audios-Yields b es vs _))

    disable_videos-Yields :
        (power_state : PowerState) (es : List VideoPortEntry) (vs : List (VideoPortType × ℕ))
        (us : List (AudioPortType × ℕ))
        → Yields
            (Asked vs us)
            (Asked (after_videos (without_enabled power_state p es) vs) us)
            Unchanged
            (disable_videos dev names power_state es p)
    unfolding disable_videos
    disable_videos-Yields power_state [] vs us = Yields-pure _ refl
    disable_videos-Yields power_state (e ∷ es) vs us =
        by_choice (goes_down power_state p e) (stays_enabled power_state p e)
          (goes_down-stays_enabled power_state p e)
          (λ vs. disable_videos-Yields power_state es vs us)
      where
        by_choice :
            (down stays : Bool)
            → down ≡ not stays
            → ((vs : List (VideoPortType × ℕ))
                → Yields
                    (Asked vs us)
                    (Asked (after_videos (without_enabled power_state p es) vs) us)
                    Unchanged
                    (disable_videos dev names power_state es p))
            → Yields
                (Asked vs us)
                (Asked
                  (after_videos
                    (if stays
                      then without_enabled power_state p es
                      else e ∷ without_enabled power_state p es)
                    vs)
                  us)
                Unchanged
                (if down
                  then (do
                    r ← configure_video_port dev names e false p
                    disable_videos dev names power_state es r.1)
                  else disable_videos dev names power_state es p)
        by_choice true true h rest = absurd (cc)
        by_choice false false h rest = absurd (cc)
        by_choice false true h rest = rest vs
        by_choice true false h rest =
            Yields-bind (configure_video-Yields e false vs us)
              (λ r k. at_same (disable_videos dev names power_state es) r.1 k (rest _))

    build_videos_settled : build_video_port_entries dev names p ≡ pure (p.video_port_entries, p)
    unfolding build_video_port_entries pure ◌>>=◌
    build_videos_settled = rw (is_device_settings_ready_settled p s) refl

    build_audios_settled : build_audio_port_entries dev names p ≡ pure (p.audio_port_entries, p)
    unfolding build_audio_port_entries pure ◌>>=◌
    build_audios_settled = rw (is_device_settings_ready_settled p s) refl

    -- Both kinds of change end with the audio ports.
    audios-Yields :
        (b : Bool) (q : Listener) (vs : List (VideoPortType × ℕ)) (us : List (AudioPortType × ℕ))
        → q ≡ p
        → Yields (Asked vs us) (Asked vs (after_audios p.audio_port_entries us)) Unchanged (
            build_audio_port_entries dev names q >>= λ audios.
            switch_audios dev names b audios.0 audios.1)
    unfolding pure ◌>>=◌
    audios-Yields b q vs us e =
        at_same
          (λ q. build_audio_port_entries dev names q >>= λ audios.
            switch_audios dev names b audios.0 audios.1)
          q e (rw build_audios_settled (switch_audios-Yields b p.audio_port_entries vs us))

    power_down-Yields :
        (power_state : PowerState) (vs : List (VideoPortType × ℕ)) (us : List (AudioPortType × ℕ))
        → Yields
            (Asked vs us)
            (Asked
              (after_videos (without_enabled power_state p p.video_port_entries) vs)
              (after_audios p.audio_port_entries us))
            Unchanged
            (power_down dev names power_state p)
    unfolding power_down pure ◌>>=◌
    power_down-Yields power_state vs us = rw build_videos_settled (
        Yields-bind (disable_videos-Yields power_state p.video_port_entries vs us)
          (λ q k. audios-Yields false q _ us k))

    power_up-Yields :
        (in_eas : Bool) (vs : List (VideoPortType × ℕ)) (us : List (AudioPortType × ℕ))
        → Yields
            (Asked vs us)
            (Asked (after_videos p.video_port_entries vs) (after_audios p.audio_port_entries us))
            Unchanged
            (power_up dev names in_eas p)
    unfolding power_up force_stereo_in_eas pure ◌>>=◌
    power_up-Yields in_eas vs us = rw build_videos_settled (
        Yields-bind (enable_videos-Yields p.video_port_entries vs us) (λ q k.
          at_same
            (λ q. (do
              audios ← build_audio_port_entries dev names q
              p2 ← switch_audios dev names true audios.0 audios.1
              force_stereo_in_eas dev names in_eas
              pure p2))
            q k
            (rw build_audios_settled (
              Yields-bind (switch_audios-Yields true p.audio_port_entries _ us) (λ p2 k2.
                Yields-bind {Q = Any}
                  (Yields-if in_eas (λ _. Yields-tell _ tt (λ log h. h)) (λ _. Yields-pure tt tt))
                  (λ _ _. Yields-pure p2 k2))))))

    by_state-Yields :
        (in_eas : Bool) (power_state : PowerState) (on : Bool) (vs : List (VideoPortType × ℕ))
        (us : List (AudioPortType × ℕ))
        → Yields
            (Asked vs us)
            (Asked
              (after_videos
                (if on
                  then p.video_port_entries
                  else without_enabled power_state p p.video_port_entries)
                vs)
              (after_audios p.audio_port_entries us))
            Unchanged
            (if on then power_up dev names in_eas p else power_down dev names power_state p)
    by_state-Yields in_eas power_state true vs us = power_up-Yields in_eas vs us
    by_state-Yields in_eas power_state false vs us = power_down-Yields power_state vs us

  -- With the implementation known and a port table read, a power state change always returns, leaves the
  -- listener as it is, and asks for exactly these ports in the tables' order, whatever the replies: every
  -- audio port, and every video port but, in a standby state, those whose standby setting keeps them on.
  pub set_av_ports_power_state-Yields :
      (p : Listener) (in_eas : Bool) (power_state : PowerState) (vs : List (VideoPortType × ℕ))
      (us : List (AudioPortType × ℕ))
      → IsSettled p
      → Yields
          (Asked vs us)
          (Asked
            (after_videos (concerned_videos power_state p) vs)
            (after_audios p.audio_port_entries us))
          (λ q. q ≡ p)
          (set_av_ports_power_state dev names in_eas power_state p)
  unfolding set_av_ports_power_state
  set_av_ports_power_state-Yields p in_eas power_state vs us s =
      by_state-Yields p s in_eas power_state (is_on power_state) vs us

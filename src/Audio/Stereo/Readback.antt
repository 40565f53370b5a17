-- ===== src/Audio/Stereo/Readback.antt =====
-- A stereo mode that is set and read back.
use mathlib.Core.Option
use entservices_devicesettin.Prelude.{
  ℕ, ◌≡◌, refl, ap, ◌∙◌, true, false, some, Bytes, arith, str_eq,
}
use entservices_devicesettin.Device.{error_none}
use entservices_devicesettin.Audio.{
  AudioPort, hdmi, spdif, speaker, hdmi_arc, headphone, StereoMode, unknown, mono, stereo, surround,
  passthrough, dd, ddplus, DsStereoMode, AudioHal, Audio, get_audio_port_type, is_speaker,
}
use entservices_devicesettin.Audio.Stereo.{
  mode_to_ds, mode_from_ds, mode_key, mode_string, mode_of_string, notified_port, configured_mode,
  set_configured_mode, is_stereo_auto, read_key, persisted_mode, get_stereo_mode, set_mode_of,
  set_stereo_mode,
}

-- What a mode is read back as from the persistence.
abbrev pub kept_as : StereoMode → StereoMode
kept_as unknown = stereo
kept_as mono = stereo
kept_as stereo = stereo
kept_as surround = surround
kept_as passthrough = passthrough
kept_as dd = dd
kept_as ddplus = ddplus

mode_of_string-mode_string :
    (mode : StereoMode) → mode_from_ds (mode_of_string (mode_string mode)) ≡ kept_as mode
unfolding mode_of_string mode_string mode_from_ds str_eq
mode_of_string-mode_string unknown = refl
mode_of_string-mode_string mono = refl
mode_of_string-mode_string stereo = refl
mode_of_string-mode_string surround = refl
mode_of_string-mode_string passthrough = refl
mode_of_string-mode_string dd = refl
mode_of_string-mode_string ddplus = refl

mode_from_ds-mode_to_ds : (mode : StereoMode) → mode_from_ds (mode_to_ds mode) ≡ mode
unfolding mode_from_ds mode_to_ds
mode_from_ds-mode_to_ds unknown = refl
mode_from_ds-mode_to_ds mono = refl
mode_from_ds-mode_to_ds stereo = refl
mode_from_ds-mode_to_ds surround = refl
mode_from_ds-mode_to_ds passthrough = refl
mode_from_ds-mode_to_ds dd = refl
mode_from_ds-mode_to_ds ddplus = refl

-- A port of type t, whose HAL takes a mode, and a persistence that holds what it is given; the other calls leave
-- it alone.
pub record KeepsMode {W : Type 0} (hal : AudioHal W) (handle : ℕ) (t : AudioPort) : Type 0 where
  pub is_port : (w : W) → (get_audio_port_type hal handle w).0 ≡ some t
  pub sets : (mode : DsStereoMode) (w : W) → (hal.set_stereo_mode handle mode w).0 ≡ 0
  pub property_after :
      (key value : Bytes) (w : W)
      → hal.property key (hal.persist_property key value w).1 ≡ some value
  pub kept_by_notify :
      (key : Bytes) (p : AudioPort) (mode : StereoMode) (w : W)
      → hal.property key (hal.notify_mode p mode w) ≡ hal.property key w
  pub kept_by_type :
      (key : Bytes) (w : W)
      → hal.property key (get_audio_port_type hal handle w).1 ≡ hal.property key w

module _ {W : Type 0} where
  set_configured_mode-is_initialized :
      (t : AudioPort) (mode : DsStereoMode) (a : Audio W)
      → (set_configured_mode t mode a).is_initialized ≡ a.is_initialized
  unfolding set_configured_mode
  set_configured_mode-is_initialized hdmi mode a = refl
  set_configured_mode-is_initialized spdif mode a = refl
  set_configured_mode-is_initialized speaker mode a = refl
  set_configured_mode-is_initialized hdmi_arc mode a = refl
  set_configured_mode-is_initialized headphone mode a = refl

  set_configured_mode-world :
      (t : AudioPort) (mode : DsStereoMode) (a : Audio W)
      → (set_configured_mode t mode a).world ≡ a.world
  unfolding set_configured_mode
  set_configured_mode-world hdmi mode a = refl
  set_configured_mode-world spdif mode a = refl
  set_configured_mode-world speaker mode a = refl
  set_configured_mode-world hdmi_arc mode a = refl
  set_configured_mode-world headphone mode a = refl

  set_configured_mode-is_stereo_auto :
      (t : AudioPort) (mode : DsStereoMode) (a : Audio W)
      → is_stereo_auto (some t) (set_configured_mode t mode a) ≡ is_stereo_auto (some t) a
  unfolding set_configured_mode is_stereo_auto
  set_configured_mode-is_stereo_auto hdmi mode a = refl
  set_configured_mode-is_stereo_auto spdif mode a = refl
  set_configured_mode-is_stereo_auto speaker mode a = refl
  set_configured_mode-is_stereo_auto hdmi_arc mode a = refl
  set_configured_mode-is_stereo_auto headphone mode a = refl

  auto_off :
      (t : AudioPort) (a : Audio W) (w : W)
      → is_stereo_auto (some t) a ≡ false
      → is_stereo_auto (some t) (record a { world = w }) ≡ false
  unfolding is_stereo_auto
  auto_off hdmi a w u = u
  auto_off spdif a w u = u
  auto_off speaker a w u = u
  auto_off hdmi_arc a w u = u
  auto_off headphone a w u = u

  configured_mode-set :
      (t : AudioPort) (mode : DsStereoMode) (a : Audio W) (key : Bytes)
      → mode_key (some t) ≡ some key
      → configured_mode (some t) (set_configured_mode t mode a) ≡ mode
  unfolding set_configured_mode configured_mode mode_key
  configured_mode-set hdmi mode a key k = refl
  configured_mode-set spdif mode a key k = refl
  configured_mode-set speaker mode a key k = refl
  configured_mode-set hdmi_arc mode a key k = refl
  configured_mode-set headphone mode a key k = ground (arith, k)

module _ {W : Type 0} (hal : AudioHal W) (handle : ℕ) (t : AudioPort)
    (laws : KeepsMode hal handle t) where
  read_key-property :
      (key value : Bytes) (w : W)
      → hal.property key w ≡ some value
      → read_key hal (some key) w ≡ some value
  unfolding read_key
  read_key-property key value w p = rw (p, read_key) refl

  persisted_mode-property :
      (key value : Bytes) (w : W)
      → mode_key (some t) ≡ some key
      → hal.property key w ≡ some value
      → persisted_mode hal (some t) w ≡ some (mode_of_string value)
  unfolding persisted_mode
  persisted_mode-property key value w k p =
      ap (Option.map mode_of_string)
        (ap (λ o. read_key hal o w) k ∙ read_key-property key value w p)

  -- What is left of a mode that is set and persisted.
  set_persisted :
      (mode : StereoMode) (a : Audio W) (key : Bytes)
      → a.is_initialized ≡ true
      → mode_key (some t) ≡ some key
      → (w : W) × (set_stereo_mode hal handle mode true a
          ≡ (error_none, set_configured_mode t (mode_to_ds mode) (record a { world = w })))
        × (hal.property key w ≡ some (mode_string mode))
  unfolding set_stereo_mode set_mode_of
  set_persisted mode a key i k =
      let w =
        (hal.set_stereo_mode handle (mode_to_ds mode)
          (get_audio_port_type hal handle a.world).1).1 in
      let kept = (hal.persist_property key (mode_string mode) w).1 in
      (
        hal.notify_mode (notified_port t) mode kept,
        rw
            (
              i,
              laws.is_port a.world,
              k,
              laws.sets (mode_to_ds mode) (get_audio_port_type hal handle a.world).1,
            )
            refl,
        laws.kept_by_notify key (notified_port t) mode kept
            ∙ laws.property_after key (mode_string mode) w,
      )

  -- What is left of a mode that is set and not persisted.
  set_configured :
      (mode : StereoMode) (a : Audio W)
      → a.is_initialized ≡ true
      → (w : W) × (set_stereo_mode hal handle mode false a
          ≡ (error_none, set_configured_mode t (mode_to_ds mode) (record a { world = w })))
  unfolding set_stereo_mode set_mode_of
  set_configured mode a i =
      let w =
        (hal.set_stereo_mode handle (mode_to_ds mode)
          (get_audio_port_type hal handle a.world).1).1 in
      (
        hal.notify_mode (notified_port t) mode w,
        rw
            (
              i,
              laws.is_port a.world,
              laws.sets (mode_to_ds mode) (get_audio_port_type hal handle a.world).1,
            )
            refl,
      )

  read_persisted :
      (mode before : StereoMode) (a : Audio W) (key : Bytes)
      → a.is_initialized ≡ true
      → mode_key (some t) ≡ some key
      → hal.property key a.world ≡ some (mode_string mode)
      → (get_stereo_mode hal handle before true a).0 ≡ (error_none, kept_as mode)
  unfolding get_stereo_mode
  read_persisted mode before a key i k p =
      rw
        (
          i,
          laws.is_port a.world,
          persisted_mode-property key (mode_string mode) (get_audio_port_type hal handle a.world).1
              k (laws.kept_by_type key a.world ∙ p),
          mode_of_string-mode_string mode,
        )
        refl

  read_configured :
      (before : StereoMode) (a : Audio W)
      → a.is_initialized ≡ true
      → is_stereo_auto (some t) a ≡ false
      → is_speaker (some t) ≡ false
      → (get_stereo_mode hal handle before false a).0
        ≡ (error_none, mode_from_ds (configured_mode (some t) a))
  unfolding get_stereo_mode
  read_configured before a i u s = simp (i, laws.is_port a.world, u, s)

  -- Once initialized, and where the HAL takes the modes and the persistence holds what it is given, a
  -- mode that is set and persisted on the port HDMI, SPDIF, HDMI_ARC or SPEAKER succeeds and is what a
  -- read of the persisted mode gives, but MONO and UNKNOWN are read as STEREO.
  pub set_stereo_mode-get :
      (mode before : StereoMode) (a : Audio W) (key : Bytes)
      → a.is_initialized ≡ true
      → mode_key (some t) ≡ some key
      → ((set_stereo_mode hal handle mode true a).0 ≡ error_none)
        × ((get_stereo_mode hal handle before true (set_stereo_mode hal handle mode true a).1).0
            ≡ (error_none, kept_as mode))
  set_stereo_mode-get mode before a key i k =
      let s = set_persisted mode a key i k in
      let b : Audio W = record a { world = s.0 } in
      let c = set_configured_mode t (mode_to_ds mode) b in
      (
        ap (λ (r : ℕ × Audio W). r.0) s.1,
        ap (λ (r : ℕ × Audio W). (get_stereo_mode hal handle before true r.1).0) s.1
            ∙ read_persisted mode before c key
                (set_configured_mode-is_initialized t (mode_to_ds mode) b ∙ i) k
                (ap (hal.property key) (set_configured_mode-world t (mode_to_ds mode) b) ∙ s.2),
      )

  -- A mode that is set on the port HDMI, SPDIF or HDMI_ARC while its auto mode is off is the mode that is read,
  -- every mode as itself.
  pub set_stereo_mode-get_configured :
      (mode before : StereoMode) (a : Audio W) (key : Bytes)
      → a.is_initialized ≡ true
      → mode_key (some t) ≡ some key
      → is_speaker (some t) ≡ false
      → is_stereo_auto (some t) a ≡ false
      → ((set_stereo_mode hal handle mode false a).0 ≡ error_none)
        × ((get_stereo_mode hal handle before false (set_stereo_mode hal handle mode false a).1).0
            ≡ (error_none, mode))
  set_stereo_mode-get_configured mode before a key i k s u =
      let r = set_configured mode a i in
      let b : Audio W = record a { world = r.0 } in
      let c = set_configured_mode t (mode_to_ds mode) b in
      (
        ap (λ (x : ℕ × Audio W). x.0) r.1,
        ap (λ (x : ℕ × Audio W). (get_stereo_mode hal handle before false x.1).0) r.1
            ∙ read_configured before c
                (set_configured_mode-is_initialized t (mode_to_ds mode) b ∙ i)
                (set_configured_mode-is_stereo_auto t (mode_to_ds mode) b ∙ auto_off t a r.0 u) s
            ∙ ap (λ m. (error_none, m))
                (ap mode_from_ds (configured_mode-set t (mode_to_ds mode) b key k)
                  ∙ mode_from_ds-mode_to_ds mode),
      )

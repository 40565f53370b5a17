-- ===== src/Audio/Stereo/Auto.antt =====
-- An auto mode that is set and read back.
use entservices_devicesettin.Prelude.{
  ℕ, ◌≡◌, ◌≢◌, refl, sym, ap, subst, by_branch, ◌∙◌, Bool, true, not, some, Bytes, ◌==◌,
  if◌then◌else◌, arith, if_true, if_false, Bool-cases, inl, inr,
}
use entservices_devicesettin.Device.{error_none, error_general}
use entservices_devicesettin.Audio.{
  AudioPort, hdmi, spdif, speaker, hdmi_arc, headphone, AudioHal, Audio, get_audio_port_type,
}
use entservices_devicesettin.Audio.Stereo.{
  mode_key, auto_key, is_stereo_auto, set_auto_state, get_stereo_auto, set_stereo_auto, auto_by_hal,
  has_hal_auto, apply_auto, persist_auto,
}

module _ {W : Type 0} where
  is_stereo_auto-set :
      (t : AudioPort) (enabled : Bool) (a : Audio W) (key : Bytes)
      → mode_key (some t) ≡ some key
      → is_stereo_auto (some t) (set_auto_state (some t) enabled a) ≡ enabled
  unfolding set_auto_state is_stereo_auto mode_key
  is_stereo_auto-set hdmi enabled a key k = refl
  is_stereo_auto-set spdif enabled a key k = refl
  is_stereo_auto-set speaker enabled a key k = refl
  is_stereo_auto-set hdmi_arc enabled a key k = refl
  is_stereo_auto-set headphone enabled a key k = ground (arith, k)

  set_auto_state-is_initialized :
      (t : AudioPort) (enabled : Bool) (a : Audio W)
      → (set_auto_state (some t) enabled a).is_initialized ≡ a.is_initialized
  unfolding set_auto_state
  set_auto_state-is_initialized hdmi enabled a = refl
  set_auto_state-is_initialized spdif enabled a = refl
  set_auto_state-is_initialized speaker enabled a = refl
  set_auto_state-is_initialized hdmi_arc enabled a = refl
  set_auto_state-is_initialized headphone enabled a = refl

not_none : error_general ≢ error_none
not_none e = omega (arith, e)

module _ {W : Type 0} (hal : AudioHal W) (handle : ℕ) (t : AudioPort)
    (is_port : (w : W) → (get_audio_port_type hal handle w).0 ≡ some t) where
  -- What the HAL says of an auto mode.
  abbrev by_hal : ℕ → W → Bool × W
  by_hal auto w = auto_by_hal hal hal.set_stereo_auto (has_hal_auto hal (some t)) handle auto w

  apply_auto_is :
      (auto : ℕ) (a : Audio W)
      → apply_auto hal handle auto a ≡ (
          let reply = by_hal auto (get_audio_port_type hal handle a.world).1 in
          if reply.0
          then (
            error_none,
            set_auto_state (some t) (not (auto == 0)) (record a { world = reply.1 }),
          )
          else (error_general, record a { world = reply.1 }))
  unfolding apply_auto
  apply_auto_is auto a = rw (is_port a.world) refl

  read_auto :
      (before : ℕ) (enabled : Bool) (a : Audio W)
      → a.is_initialized ≡ true
      → is_stereo_auto (some t) a ≡ enabled
      → (get_stereo_auto hal handle before a).0 ≡ (error_none, if enabled then 1 else 0)
  unfolding get_stereo_auto
  read_auto before enabled a i e = simp (i, is_port a.world, e)

  abbrev IsReadAs : ℕ → ℕ → ℕ × Audio W → Type 0
  IsReadAs auto before r =
      (get_stereo_auto hal handle before r.1).0 ≡ (error_none, if not (auto == 0) then 1 else 0)

  apply_auto-get :
      (auto before : ℕ) (a : Audio W) (key : Bytes)
      → mode_key (some t) ≡ some key
      → a.is_initialized ≡ true
      → (apply_auto hal handle auto a).0 ≡ error_none
      → IsReadAs auto before (apply_auto hal handle auto a)
  apply_auto-get auto before a key k i ok =
      let reply = by_hal auto (get_audio_port_type hal handle a.world).1 in
      let b : Audio W = record a { world = reply.1 } in
      let taken = set_auto_state (some t) (not (auto == 0)) b in
      elim (Bool-cases reply.0) [
        | inl e ↦
            subst (IsReadAs auto before)
              (sym
                (apply_auto_is auto a ∙ if_true reply.0 (error_none, taken) (error_general, b) e))
              (read_auto before (not (auto == 0)) taken
                (set_auto_state-is_initialized t (not (auto == 0)) b ∙ i)
                (is_stereo_auto-set t (not (auto == 0)) b key k))
        | inr e ↦ absurd (
            not_none (
              sym (
                ap (λ (r : ℕ × Audio W). r.0)
                  (apply_auto_is auto a
                    ∙ if_false reply.0 (error_none, taken) (error_general, b) e))
              ∙ ok))
      ]

  auto_cases :
      (auto before : ℕ) (persist : Bool) (a : Audio W) (key : Bytes)
      → mode_key (some t) ≡ some key
      → (set_stereo_auto hal handle auto persist a).0 ≡ error_none
      → IsReadAs auto before (set_stereo_auto hal handle auto persist a)
  unfolding set_stereo_auto
  auto_cases auto before persist a key k =
      let found = get_audio_port_type hal handle a.world in
      let kept = persist_auto hal (auto_key found.0) auto found.1 in
      let b : Audio W = record a { world = kept.1 } in
      let P : ℕ × Audio W → Type 0 = λ r. r.0 ≡ error_none → IsReadAs auto before r in
      by_branch P (not a.is_initialized) _ _ (λ e ok. absurd (not_none ok))
        (λ i.
          by_branch P persist _ _
            (λ e.
              by_branch P kept.0 _ _ (λ e1. apply_auto-get auto before b key k (ground (arith, i)))
                (λ e1 ok. absurd (not_none ok)))
            (λ e. apply_auto-get auto before a key k (ground (arith, i))))

  -- An auto mode that is set without an error is the one that is read back on the port HDMI, SPDIF, HDMI_ARC or
  -- SPEAKER, the HAL having taken it where it has such a mode.
  pub set_stereo_auto-get :
      (auto before : ℕ) (persist : Bool) (a : Audio W) (key : Bytes)
      → mode_key (some t) ≡ some key
      → (set_stereo_auto hal handle auto persist a).0 ≡ error_none
      → (get_stereo_auto hal handle before (set_stereo_auto hal handle auto persist a).1).0
        ≡ (error_none, if not (auto == 0) then 1 else 0)
  set_stereo_auto-get auto before persist a key k ok = auto_cases auto before persist a key k ok

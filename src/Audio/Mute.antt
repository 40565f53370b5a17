-- ===== src/Audio/Mute.antt =====
-- A port that is muted or to be heard again, and what is reported of it.
use entservices_devicesettin.Prelude.{
  ℕ, ◌≡◌, refl, sym, ap, subst, ◌∙◌, Bool, true, false, not, ◌&&◌, ◌||◌, some, Bytes, str_eq, ◌==◌,
  by_branch, if_true, if◌then◌else◌,
}
use entservices_devicesettin.Device.{error_none, error_general}
use entservices_devicesettin.Audio.{AudioPort, AudioHal, Audio, get_audio_port_type, is_speaker}
use entservices_devicesettin.Audio.Volume.{
  as_float, mute_key, restore_level, true_or_false, persist_mute, mute_by_hal, set_audio_mute,
  persisted_mute, is_muted_by, is_audio_muted,
}

-- A port on a HAL whose calls succeed, which keeps the mute that it is given, and a persistence that keeps what it
-- is given.
pub record HoldsMute {W : Type 0} (hal : AudioHal W) (set : ℕ → ℕ → W → ℕ × W)
    (is_mute : ℕ → W → (ℕ × Bool) × W) (handle : ℕ) (t : AudioPort) (mute_of : W → Bool)
    (level_of : W → ℕ) : Type 0 where
  pub set_symbol : hal.set_level ≡ some set
  pub mute_symbol : hal.is_mute ≡ some is_mute
  pub is_port : (w : W) → (get_audio_port_type hal handle w).0 ≡ some t
  pub sets : (level : ℕ) (w : W) → (set handle level w).0 ≡ 0
  pub mutes : (mute : Bool) (w : W) → (hal.set_mute handle mute w).0 ≡ 0
  pub mute_after : (mute : Bool) (w : W) → mute_of (hal.set_mute handle mute w).1 ≡ mute
  pub mute_read : (w : W) → (is_mute handle w).0 ≡ (0, mute_of w)
  pub mute_kept_by_type : (w : W) → mute_of (get_audio_port_type hal handle w).1 ≡ mute_of w
  pub mute_kept_by_persist :
      (key value : Bytes) (w : W) → mute_of (hal.persist_property key value w).1 ≡ mute_of w
  pub persists : (key value : Bytes) (w : W) → (hal.persist_property key value w).0 ≡ true
  pub property_after :
      (key value : Bytes) (w : W)
      → hal.property key (hal.persist_property key value w).1 ≡ some value
  pub level_after : (level : ℕ) (w : W) → level_of (set handle level w).1 ≡ level
  pub level_kept_by_mute :
      (mute : Bool) (w : W) → level_of (hal.set_mute handle mute w).1 ≡ level_of w
  pub level_kept_by_type : (w : W) → level_of (get_audio_port_type hal handle w).1 ≡ level_of w
  pub level_kept_by_persist :
      (key value : Bytes) (w : W) → level_of (hal.persist_property key value w).1 ≡ level_of w
  pub property_kept_by_type :
      (key : Bytes) (w : W)
      → hal.property key (get_audio_port_type hal handle w).1 ≡ hal.property key w
  pub property_kept_by_read :
      (key : Bytes) (w : W) → hal.property key (is_mute handle w).1 ≡ hal.property key w

module _ {W : Type 0} (hal : AudioHal W) (set : ℕ → ℕ → W → ℕ × W)
    (is_mute : ℕ → W → (ℕ × Bool) × W) (handle : ℕ) (t : AudioPort) (mute_of : W → Bool)
    (level_of : W → ℕ) (laws : HoldsMute hal set is_mute handle t mute_of level_of) where
  persisted_mute-property :
      (mute : Bool) (w : W)
      → hal.property (mute_key t) w ≡ some (true_or_false hal mute)
      → persisted_mute hal (some t) w ≡ mute
  unfolding persisted_mute str_eq
  persisted_mute-property true w p = rw (p, persisted_mute) refl
  persisted_mute-property false w p = rw (p, persisted_mute) refl

  same_or : (b : Bool) → (b || b) ≡ b
  same_or true = refl
  same_or false = refl

  read_mute :
      (mute before : Bool) (a : Audio W)
      → a.is_initialized ≡ true
      → hal.property (mute_key t) a.world ≡ some (true_or_false hal mute)
      → mute_of a.world ≡ mute
      → (is_audio_muted hal handle before a).0 ≡ (error_none, mute)
  unfolding is_audio_muted is_muted_by
  read_mute mute before a i p m =
      let kept =
        laws.property_kept_by_type (mute_key t) (is_mute handle a.world).1
        ∙ laws.property_kept_by_read (mute_key t) a.world
        ∙ p in
      simp (
        i,
        laws.mute_symbol,
        laws.mute_read a.world,
        laws.is_port (is_mute handle a.world).1,
        persisted_mute-property mute (get_audio_port_type hal handle (is_mute handle a.world).1).1
            kept,
        m,
        same_or mute,
      )

  -- The mute that the HAL takes is the one that is reported.
  abbrev Reports : Bool → Bool → ℕ × Audio W → Type 0
  Reports mute before r =
      (r.0 ≡ error_none) × ((is_audio_muted hal handle before r.1).0 ≡ (error_none, mute))

  mute_by_hal_is :
      (mute : Bool) (a : Audio W)
      → mute_by_hal hal handle mute a ≡ (
        error_none,
        record a {
          is_muted = mute;
          world =
              (hal.persist_property
                (mute_key t)
                (true_or_false hal mute)
                (get_audio_port_type hal handle (hal.set_mute handle mute a.world).1).1).1;
        },
      )
  unfolding mute_by_hal persist_mute
  mute_by_hal_is mute a =
      let muted = (hal.set_mute handle mute a.world).1 in
      simp (
        laws.mutes mute a.world,
        laws.is_port muted,
        laws.persists (mute_key t) (true_or_false hal mute)
            (get_audio_port_type hal handle muted).1,
      )

  mute_by_hal-get :
      (mute before : Bool) (a : Audio W)
      → a.is_initialized ≡ true
      → Reports mute before (mute_by_hal hal handle mute a)
  mute_by_hal-get mute before a i =
      let muted = (hal.set_mute handle mute a.world).1 in
      let w = (get_audio_port_type hal handle muted).1 in
      let kept = (hal.persist_property (mute_key t) (true_or_false hal mute) w).1 in
      subst (Reports mute before) (sym (mute_by_hal_is mute a)) (
        refl,
        read_mute mute before (record a { is_muted = mute; world = kept }) i
            (laws.property_after (mute_key t) (true_or_false hal mute) w)
            (laws.mute_kept_by_persist (mute_key t) (true_or_false hal mute) w
              ∙ laws.mute_kept_by_type muted
              ∙ laws.mute_after mute a.world),
      )

  restore_level-none : (a : Audio W) → (restore_level hal hal.set_level handle a).0 ≡ 0
  unfolding restore_level
  restore_level-none a = rw laws.set_symbol (laws.sets _ a.world)

  mute_by_hal-level :
      (mute : Bool) (a : Audio W)
      → level_of (mute_by_hal hal handle mute a).1.world ≡ level_of a.world
  mute_by_hal-level mute a =
      let muted = (hal.set_mute handle mute a.world).1 in
      ap (λ (r : ℕ × Audio W). level_of r.1.world) (mute_by_hal_is mute a)
      ∙ laws.level_kept_by_persist (mute_key t) (true_or_false hal mute)
          (get_audio_port_type hal handle muted).1
      ∙ laws.level_kept_by_type muted
      ∙ laws.level_kept_by_mute mute a.world

  -- The level of a speaker that is to be heard again.
  abbrev restored_level : Audio W → ℕ
  restored_level a = if a.is_ducking then as_float a.ducking_level else a.levels.speaker_level

  restore_level-level :
      (a : Audio W) → level_of (restore_level hal hal.set_level handle a).1 ≡ restored_level a
  unfolding restore_level
  restore_level-level a = rw laws.set_symbol (laws.level_after (restored_level a) a.world)

  -- Once initialized, where the calls of the HAL and of the persistence succeed and keep what they are given, a
  -- request to mute a port or to hear it again succeeds and is what is reported. A speaker that is to be heard
  -- again is left at the ducking level while ducking, and else at the level that is to be saved for it; in all other
  -- cases the level stays as it is.
  pub set_audio_mute-get :
      (mute before : Bool) (a : Audio W)
      → a.is_initialized ≡ true
      → ((set_audio_mute hal handle mute a).0 ≡ error_none)
        × ((is_audio_muted hal handle before (set_audio_mute hal handle mute a).1).0
            ≡ (error_none, mute))
        × (level_of (set_audio_mute hal handle mute a).1.world ≡ (
            if not mute && is_speaker (some t)
            then (if a.is_ducking then as_float a.ducking_level else a.levels.speaker_level)
            else level_of a.world))
  unfolding set_audio_mute
  set_audio_mute-get mute before a i =
      let found = get_audio_port_type hal handle a.world in
      let b : Audio W = record a { world = found.1 } in
      let restored = restore_level hal hal.set_level handle b in
      let c : Audio W = record a { world = restored.1 } in
      let target : Bool → ℕ = λ test. if test then restored_level a else level_of a.world in
      let P : ℕ × Audio W → Type 0 = λ r.
        (r.0 ≡ error_none)
        × ((is_audio_muted hal handle before r.1).0 ≡ (error_none, mute))
        × (level_of r.1.world ≡ target (not mute && is_speaker (some t))) in
      let same : target (not mute && is_speaker found.0)
          ≡ target (not mute && is_speaker (some t)) =
        ap (λ o. target (not mute && is_speaker o)) (laws.is_port a.world) in
      subst P (sym (if_true a.is_initialized _ (error_general, a) i)) (
        by_branch P (not mute && is_speaker found.0) _ _
          (λ e.
            let k = mute_by_hal-get mute before c i in
            subst P
              (sym (
                if_true (restored.0 == 0) _ (error_general, c)
                  (ap (λ n. n == 0) (restore_level-none b))))
              (
                k.0,
                k.1,
                mute_by_hal-level mute c ∙ restore_level-level b ∙ sym (ap target e) ∙ same,
              ))
          (λ e.
            let k = mute_by_hal-get mute before b i in
            (
              k.0,
              k.1,
              mute_by_hal-level mute b ∙ laws.level_kept_by_type a.world ∙ sym (ap target e) ∙ same,
            )))

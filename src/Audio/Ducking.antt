-- ===== src/Audio/Ducking.antt =====
-- What ducking does to the level of the speaker.
use entservices_devicesettin.Prelude.{
  ℕ, ◌≤◌, ◌≡◌, refl, sym, ap, ◌∙◌, true, false, some, arith, ◌==◌, if◌then◌else◌, if_true,
  Bool-cases, by_branch, ==_iff, inl, inr,
}
use entservices_devicesettin.Device.{error_none, error_general}
use entservices_devicesettin.Audio.{speaker, AudioHal, Levels, Audio, get_audio_port_type}
use entservices_devicesettin.Audio.Volume.{
  level_set, apply_level, set_level_by, set_audio_level, get_audio_level, DuckingAction, start,
  stop, as_float, as_int, DuckingType, absolute, relative, ducking_volume, duck_to,
  set_audio_ducking, cache_level,
}

-- A speaker on a HAL whose calls succeed and which holds its level: a level that is set is the level, and no
-- other call of the code changes it.
pub record HoldsLevel {W : Type 0} (hal : AudioHal W) (set : ℕ → ℕ → W → ℕ × W) (handle : ℕ)
    (level_of : W → ℕ) : Type 0 where
  pub symbol : hal.set_level ≡ some set
  pub sets : (level : ℕ) (w : W) → (set handle level w).0 ≡ 0
  pub level_after : (level : ℕ) (w : W) → level_of (set handle level w).1 ≡ level
  pub level_read : (w : W) → (hal.level handle w).0 ≡ (0, level_of w)
  pub kept_by_read : (w : W) → level_of (hal.level handle w).1 ≡ level_of w
  pub kept_by_type : (w : W) → level_of (get_audio_port_type hal handle w).1 ≡ level_of w
  pub kept_by_enabled : (w : W) → level_of (hal.port_enabled handle w).1 ≡ level_of w
  pub kept_by_notify : (level : ℕ) (w : W) → level_of (hal.notify_level level w) ≡ level_of w
  pub is_enabled : (w : W) → (hal.port_enabled handle w).0.1 ≡ true
  pub is_the_speaker : (w : W) → (get_audio_port_type hal handle w).0 ≡ some speaker

same : (a b : ℕ) → a == b ≡ true → a ≡ b
same a b e = (==_iff a b).0 e

ducking_volume-le :
    (type : DuckingType) (level last : ℕ)
    → level ≤ 100
    → as_float (ducking_volume start type level last) ≤ last
unfolding ducking_volume
ducking_volume-le absolute level last l = ground (arith, l)
ducking_volume-le relative level last l = grind (arith, l)

module _ {W : Type 0} (hal : AudioHal W) (set : ℕ → ℕ → W → ℕ × W) (handle : ℕ) (level_of : W → ℕ)
    (laws : HoldsLevel hal set handle level_of) where
  -- The level of the speaker while it is ducked, after a request for another level.
  apply_ducked :
      (level : ℕ) (a : Audio W)
      → a.is_ducking ≡ true
      → ((apply_level hal set (some speaker) handle level a).0 ≡ 0)
        × (level_of (apply_level hal set (some speaker) handle level a).1
            ≡ as_float a.ducking_level)
  unfolding apply_level
  apply_ducked level a d =
      let current = hal.level handle a.world in
      rw d (
        by_branch (λ (r : ℕ × W). (r.0 ≡ 0) × (level_of r.1 ≡ as_float a.ducking_level))
          (current.0.1 == as_float a.ducking_level) (0, current.1)
          (set handle (as_float a.ducking_level) current.1)
          (λ e. (
            refl,
            laws.kept_by_read a.world
                ∙ sym (ap (λ (p : ℕ × ℕ). p.1) (laws.level_read a.world))
                ∙ same current.0.1 (as_float a.ducking_level) e,
          ))
          (λ e. (
            laws.sets (as_float a.ducking_level) current.1,
            laws.level_after (as_float a.ducking_level) current.1,
          )))

  -- What a level that is accepted leaves, where the persistence thread runs.
  level_set_is :
      (level : ℕ) (a : Audio W)
      → a.levels.is_alive ≡ true
      → level_set hal handle level a ≡ (
        error_none,
        record a {
          last_level = level;
          levels = cache_level (get_audio_port_type hal handle a.world).0 level a.levels;
          world =
              hal.notify_level (as_float (as_int level)) (get_audio_port_type hal handle a.world).1;
        },
      )
  unfolding level_set
  level_set_is level a l = rw l refl

  -- The new volume reaches the speaker, or is there already.
  duck_level :
      (action : DuckingAction) (type : DuckingType) (level : ℕ) (a : Audio W)
      → a.is_initialized ≡ true
      → a.is_muted ≡ false
      → let r = set_audio_ducking hal handle type action level a in
        let volume = ducking_volume action type level a.last_level in
        (r.0 ≡ error_none)
        × (level_of r.1.world
            ≡ (if volume == a.ducking_level then level_of a.world else as_float volume))
  unfolding set_audio_ducking duck_to
  duck_level action type level a i m =
      let enabled = hal.port_enabled handle a.world in
      let volume = ducking_volume action type level a.last_level in
      rw (i, m, laws.is_enabled a.world, laws.symbol)
        (elim (Bool-cases (volume == a.ducking_level)) [
          | inl e ↦ rw e (refl, laws.kept_by_enabled a.world)
          | inr e ↦
              rw (e, laws.sets (as_float volume) enabled.1)
                (
                  refl,
                  laws.kept_by_notify (as_float volume) (set handle (as_float volume) enabled.1).1
                      ∙ laws.level_after (as_float volume) enabled.1,
                )
        ])

  set_ducked :
      (level : ℕ) (a : Audio W)
      → a.is_initialized ≡ true
      → a.is_ducking ≡ true
      → a.levels.is_alive ≡ true
      → (w : W) × (l : Levels) × (set_audio_level hal handle level a
          ≡ (error_none, record a { last_level = level; levels = l; world = w }))
        × (level_of w ≡ as_float a.ducking_level)
  unfolding set_audio_level set_level_by
  set_ducked level a i d l =
      let found = get_audio_port_type hal handle a.world in
      let b : Audio W = record a { world = found.1 } in
      let reply = apply_level hal set (some speaker) handle level b in
      let c : Audio W = record a { world = reply.1 } in
      let q = get_audio_port_type hal handle reply.1 in
      (
        hal.notify_level (as_float (as_int level)) q.1,
        cache_level q.0 level a.levels,
        if_true _ _ _ i
            ∙ ap (λ s. set_level_by hal s handle level a) laws.symbol
            ∙ ap
                (λ t.
                  if (apply_level hal set t handle level b).0 == 0
                  then level_set hal handle level
                      (record a { world = (apply_level hal set t handle level b).1 })
                  else (
                    error_general,
                    record a { world = (apply_level hal set t handle level b).1 },
                  ))
                (laws.is_the_speaker a.world)
            ∙ if_true ((apply_level hal set (some speaker) handle level b).0 == 0)
                (level_set hal handle level c) (error_general, c)
                (ground (arith, (apply_ducked level b d).0))
            ∙ level_set_is level c l,
        laws.kept_by_notify (as_float (as_int level)) q.1
            ∙ laws.kept_by_type reply.1
            ∙ (apply_ducked level b d).1,
      )

  -- Once initialized, on a HAL that holds the level of the speaker and whose calls succeed, for an enabled speaker,
  -- while ducking and unmuted, with the persistence thread running: a request for a level succeeds and leaves the
  -- speaker at the ducking level; when ducking stops next, the speaker gets the whole part of that level.
  pub set_audio_level_while_ducking :
      (level other : ℕ) (type : DuckingType) (a : Audio W)
      → a.is_initialized ≡ true
      → a.is_ducking ≡ true
      → a.is_muted ≡ false
      → a.levels.is_alive ≡ true
      → ((set_audio_level hal handle level a).0 ≡ error_none)
        × ((level_of (set_audio_level hal handle level a).1.world ≡ as_float a.ducking_level)
            × (level_of
                  (set_audio_ducking hal handle type stop other
                    (set_audio_level hal handle level a).1).1.world
                ≡ as_float (as_int level)))
  unfolding ducking_volume
  set_audio_level_while_ducking level other type a i d m l =
      let s = set_ducked level a i d l in
      let b : Audio W = record a { last_level = level; levels = s.1; world = s.0 } in
      let k = duck_level stop type other b i m in
      (
        ap (λ (r : ℕ × Audio W). r.0) s.2,
        (
          ap (λ (r : ℕ × Audio W). level_of r.1.world) s.2 ∙ s.3,
          ap
                (λ (r : ℕ × Audio W).
                  level_of (set_audio_ducking hal handle type stop other r.1).1.world)
                s.2
              ∙ k.1
              ∙ ground (arith, s.3),
        ),
      )

  -- What a read of the level leaves.
  get_read :
      (before : ℕ) (a : Audio W)
      → a.is_initialized ≡ true
      → hal.level_symbol ≡ true
      → (hal.level handle a.world).0.0 ≡ 0
      → (hal.level handle a.world).0.1 ≡ as_float a.ducking_level
      → get_audio_level hal handle before a ≡ (
        (error_none, as_float a.ducking_level),
        record a { last_level = as_float a.ducking_level; world = (hal.level handle a.world).1 },
      )
  unfolding get_audio_level
  get_read before a i s ok e = rw (i, s, ok, e) refl

  -- Once initialized, on a HAL that holds the level of an enabled speaker and whose calls succeed, where the level
  -- is read while the speaker, unmuted, is at the ducking level, this level is the reply, and the level to which the
  -- speaker should return is lost: when ducking stops, the speaker stays at the ducking level.
  pub get_audio_level_while_ducking :
      (other before : ℕ) (type : DuckingType) (a : Audio W)
      → a.is_initialized ≡ true
      → hal.level_symbol ≡ true
      → a.is_muted ≡ false
      → level_of a.world ≡ as_float a.ducking_level
      → ((get_audio_level hal handle before a).0 ≡ (error_none, as_float a.ducking_level))
        × (level_of
              (set_audio_ducking hal handle type stop other
                (get_audio_level hal handle before a).1).1.world
            ≡ as_float a.ducking_level)
  unfolding ducking_volume
  get_audio_level_while_ducking other before type a i s m e =
      let read = hal.level handle a.world in
      let b : Audio W = record a { last_level = as_float a.ducking_level; world = read.1 } in
      let k = duck_level stop type other b i m in
      let replied = laws.level_read a.world ∙ ap (λ n. (0, n)) e in
      let got =
        get_read before a i s (ap (λ (p : ℕ × ℕ). p.0) replied) (ap (λ (p : ℕ × ℕ). p.1) replied) in
      (
        ap (λ (r : (ℕ × ℕ) × Audio W). r.0) got,
        ap
              (λ (r : (ℕ × ℕ) × Audio W).
                level_of (set_audio_ducking hal handle type stop other r.1).1.world)
              got
            ∙ k.1
            ∙ if_true (as_int (as_float a.ducking_level) == a.ducking_level) (level_of read.1)
                (as_float (as_int (as_float a.ducking_level))) (ground arith)
            ∙ laws.kept_by_read a.world
            ∙ e,
      )

  -- A start of ducking succeeds, and leaves the speaker at the smaller of the ducking level and its own, or of the
  -- part of its own that is asked for; but where this level is the one that was computed last, the HAL is not asked
  -- and the speaker keeps its level.
  pub set_audio_ducking-level :
      (type : DuckingType) (level : ℕ) (a : Audio W)
      → a.is_initialized ≡ true
      → a.is_muted ≡ false
      → level ≤ 100
      → ((set_audio_ducking hal handle type start level a).0 ≡ error_none)
        × ((level_of (set_audio_ducking hal handle type start level a).1.world ≡ (
              if ducking_volume start type level a.last_level == a.ducking_level
              then level_of a.world
              else as_float (ducking_volume start type level a.last_level)))
            × (as_float (ducking_volume start type level a.last_level) ≤ a.last_level))
  set_audio_ducking-level type level a i m l =
      let k = duck_level start type level a i m in
      (k.0, (k.1, ducking_volume-le type level a.last_level l))

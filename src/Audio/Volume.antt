-- ===== src/Audio/Volume.antt =====
-- plugin/hal/dAudioImpl.h: the level and the mute of a port, and ducking. Each operation returns its result, 0
-- for ERROR_NONE and 1 for ERROR_GENERAL, its output parameter if it has one, and the new state.
use entservices_devicesettin.Prelude.{
  ℕ, ◌*◌, ◌/◌, ◌%◌, Bool, true, false, not, ◌&&◌, ◌||◌, Option, none, some, ◌++◌, Bytes, codes,
  str_eq, ltb, ◌==◌, if◌then◌else◌,
}
use entservices_devicesettin.Device.{error_none, error_general}
use entservices_devicesettin.Fpd.Numbers.{to_string}
use entservices_devicesettin.Audio.{
  AudioPort, hdmi, spdif, speaker, hdmi_arc, headphone, AudioHal, Levels, Audio,
  get_audio_port_type, port_name, is_speaker,
}

-- cacheAudioLevelForPersist
unfoldable pub cache_level : Option AudioPort → ℕ → Levels → Levels
cache_level (some spdif) level l = record l { spdif_level = level; is_pending = true }
cache_level (some hdmi) level l = record l { hdmi_level = level; is_pending = true }
cache_level (some speaker) level l = record l { speaker_level = level; is_pending = true }
cache_level (some headphone) level l = record l { headphone_level = level; is_pending = true }
cache_level (some hdmi_arc) level l = l
cache_level none level l = l

-- The casts of a whole number to a level, and of a level to a whole number, which cuts the fraction.
abbrev pub as_float : ℕ → ℕ
as_float n = n * 100

abbrev pub as_int : ℕ → ℕ
as_int level = level / 100

-- std::to_string of a level.
abbrev pub level_text : ℕ → Bytes
level_text level =
    to_string (as_int level)
    ++ codes "."
    ++ to_string (level % 100 / 10)
    ++ to_string (level % 10)
    ++ codes "0000"

abbrev pub level_key : AudioPort → Bytes
level_key t = port_name t ++ codes ".audio.Level"

abbrev pub mute_key : AudioPort → Bytes
mute_key t = port_name t ++ codes ".audio.mute"

-- The start or the end of ducking, and how its level is meant.
pub data DuckingAction : Type 0 where
  start stop : DuckingAction

pub data DuckingType : Type 0 where
  absolute relative : DuckingType

abbrev is_start : DuckingAction → Bool
is_start start = true
is_start stop = false

-- The volume that SetAudioDucking computes, a whole number; the level that is asked for is one too.
unfoldable pub ducking_volume : DuckingAction → DuckingType → ℕ → ℕ → ℕ
ducking_volume stop type level last = as_int last
ducking_volume start relative level last = as_int (last * level / 100)
ducking_volume start absolute level last = if ltb last (as_float level) then as_int last else level

module _ {W : Type 0} (hal : AudioHal W) where
  -- A property is persisted, or the exception ends the operation with an error.
  abbrev persisting : Bytes → Bytes → Audio W → ℕ × Audio W
  persisting key value a =
      let reply : Bool × W = hal.persist_property key value a.world in
      (if reply.0 then error_none else error_general, record a { world = reply.1 })

  -- The level is persisted at once where the thread does not run.
  unfoldable pub persist_level : Option AudioPort → ℕ → Audio W → ℕ × Audio W
  persist_level none level a = (error_none, a)
  persist_level (some hdmi_arc) level a = (error_none, a)
  persist_level (some hdmi) level a = persisting (level_key hdmi) (level_text level) a
  persist_level (some spdif) level a = persisting (level_key spdif) (level_text level) a
  persist_level (some speaker) level a = persisting (level_key speaker) (level_text level) a
  persist_level (some headphone) level a = persisting (level_key headphone) (level_text level) a

  abbrev announced : ℕ → ℕ × Audio W → ℕ × Audio W
  announced level r =
      if r.0 == 0
      then (error_none, record r.1 { world = hal.notify_level (as_float (as_int level)) r.1.world })
      else (error_general, r.1)

  -- What SetAudioLevel does after the HAL has taken the level.
  unfoldable pub level_set : ℕ → ℕ → Audio W → ℕ × Audio W
  unfolding persist_level cache_level
  level_set handle level a =
      let found : Option AudioPort × W = get_audio_port_type hal handle a.world in
      let b : Audio W = record a { last_level = level; world = found.1 } in
      announced level (
        if a.levels.is_alive
        then (error_none, record b { levels = cache_level found.0 level b.levels })
        else persist_level found.0 level b)

  -- The level that the HAL is given: while ducking, the speaker stays at the ducking level.
  unfoldable pub apply_level : (ℕ → ℕ → W → ℕ × W) → Option AudioPort → ℕ → ℕ → Audio W → ℕ × W
  apply_level set t handle level a =
      let current : (ℕ × ℕ) × W = hal.level handle a.world in
      if is_speaker t
      then (if a.is_ducking
          then (if current.0.1 == as_float a.ducking_level
              then (0, current.1)
              else set handle (as_float a.ducking_level) current.1)
          else set handle level current.1)
      else set handle level a.world

  unfoldable pub set_level_by : Option (ℕ → ℕ → W → ℕ × W) → ℕ → ℕ → Audio W → ℕ × Audio W
  unfolding apply_level level_set
  set_level_by none handle level a = (error_general, a)
  set_level_by (some set) handle level a =
      let found : Option AudioPort × W = get_audio_port_type hal handle a.world in
      let reply = apply_level set found.0 handle level (record a { world = found.1 }) in
      let b : Audio W = record a { world = reply.1 } in
      if reply.0 == 0 then level_set handle level b else (error_general, b)

  -- SetAudioLevel
  unfoldable pub set_audio_level : ℕ → ℕ → Audio W → ℕ × Audio W
  unfolding set_level_by
  set_audio_level handle level a =
      if a.is_initialized then set_level_by hal.set_level handle level a else (error_general, a)

  -- GetAudioLevel: the level that was read counts as the last one.
  unfoldable pub get_audio_level : ℕ → ℕ → Audio W → (ℕ × ℕ) × Audio W
  get_audio_level handle before a =
      let reply : (ℕ × ℕ) × W = hal.level handle a.world in
      let b : Audio W = record a { world = reply.1 } in
      if a.is_initialized && hal.level_symbol
      then (if reply.0.0 == 0
          then ((error_none, reply.0.1), record b { last_level = reply.0.1 })
          else ((error_general, before), b))
      else ((error_general, before), a)

  -- setAudioDuckingAudioLevel
  unfoldable pub restore_level : Option (ℕ → ℕ → W → ℕ × W) → ℕ → Audio W → ℕ × W
  restore_level none handle a = (1, a.world)
  restore_level (some set) handle a =
      set handle (if a.is_ducking then as_float a.ducking_level else a.levels.speaker_level) a.world

  abbrev pub true_or_false : Bool → Bytes
  true_or_false flag = if flag then codes "TRUE" else codes "FALSE"

  unfoldable pub persist_mute : Option AudioPort → Bool → Audio W → ℕ × Audio W
  persist_mute none mute a = (error_none, a)
  persist_mute (some t) mute a = persisting (mute_key t) (true_or_false mute) a

  unfoldable pub mute_by_hal : ℕ → Bool → Audio W → ℕ × Audio W
  unfolding persist_mute
  mute_by_hal handle mute a =
      let reply : ℕ × W = hal.set_mute handle mute a.world in
      let found : Option AudioPort × W = get_audio_port_type hal handle reply.1 in
      if reply.0 == 0
      then persist_mute found.0 mute (record a { is_muted = mute; world = found.1 })
      else (error_general, record a { world = reply.1 })

  -- SetAudioMute: a speaker that is to be heard again first gets its level back.
  unfoldable pub set_audio_mute : ℕ → Bool → Audio W → ℕ × Audio W
  unfolding mute_by_hal restore_level
  set_audio_mute handle mute a =
      let found : Option AudioPort × W = get_audio_port_type hal handle a.world in
      let b : Audio W = record a { world = found.1 } in
      let restored : ℕ × W = restore_level hal.set_level handle b in
      if a.is_initialized
      then (if not mute && is_speaker found.0
          then (if restored.0 == 0
              then mute_by_hal handle mute (record a { world = restored.1 })
              else (error_general, record a { world = restored.1 }))
          else mute_by_hal handle mute b)
      else (error_general, a)

  unfoldable pub persisted_mute : Option AudioPort → W → Bool
  persisted_mute none w = false
  persisted_mute (some t) w = elim (hal.property (mute_key t) w) [
    | none ↦ false
    | some value ↦ str_eq value (codes "TRUE")
  ]

  unfoldable pub is_muted_by :
      Option (ℕ → W → (ℕ × Bool) × W) → ℕ → Bool → Audio W → (ℕ × Bool) × Audio W
  unfolding persisted_mute
  is_muted_by none handle before a = ((error_general, before), a)
  is_muted_by (some f) handle before a =
      let reply : (ℕ × Bool) × W = f handle a.world in
      let found : Option AudioPort × W = get_audio_port_type hal handle reply.1 in
      if reply.0.0 == 0
      then ((error_none, persisted_mute found.0 found.1 || reply.0.1), record a { world = found.1 })
      else ((error_general, before), record a { world = reply.1 })

  -- IsAudioMuted: muted by the HAL, or by what was persisted.
  unfoldable pub is_audio_muted : ℕ → Bool → Audio W → (ℕ × Bool) × Audio W
  unfolding is_muted_by
  is_audio_muted handle before a =
      if a.is_initialized
      then is_muted_by hal.is_mute handle before a
      else ((error_general, before), a)

  -- The volume is new: the HAL gets it.
  unfoldable pub duck_to : Option (ℕ → ℕ → W → ℕ × W) → ℕ → ℕ → Audio W → ℕ × Audio W
  duck_to none handle volume a = (error_general, a)
  duck_to (some set) handle volume a =
      let reply : ℕ × W = set handle (as_float volume) a.world in
      if reply.0 == 0
      then (
        error_none,
        record a { ducking_level = volume; world = hal.notify_level (as_float volume) reply.1 },
      )
      else (error_general, record a { world = reply.1 })

  -- SetAudioDucking
  unfoldable pub set_audio_ducking : ℕ → DuckingType → DuckingAction → ℕ → Audio W → ℕ × Audio W
  unfolding ducking_volume duck_to
  set_audio_ducking handle type action level a =
      let enabled : (ℕ × Bool) × W = hal.port_enabled handle a.world in
      let volume = ducking_volume action type level a.last_level in
      let b : Audio W = record a { is_ducking = is_start action; world = enabled.1 } in
      if a.is_initialized
      then (if a.is_muted || not enabled.0.1
          then (error_none, record b { ducking_level = volume })
          else if volume == a.ducking_level
          then (error_none, b)
          else duck_to hal.set_level handle volume b)
      else (error_general, a)

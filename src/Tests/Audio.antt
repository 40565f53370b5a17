-- ===== src/Tests/Audio.antt =====
-- The audio ports on a HAL that holds a level and a mute and whose properties are kept in a list.
use entservices_devicesettin.Prelude.{
  ℕ, ◌≡◌, refl, Bool, true, false, Option, none, some, List, [], ◌∷◌, Bytes, codes, str_eq,
  str_eq_self, if◌then◌else◌, if_true,
}
use entservices_devicesettin.Device.{error_none}
use entservices_devicesettin.Audio.{
  AudioPort, hdmi, spdif, speaker, hdmi_arc, headphone, dd, mono, ds_stereo, ds_surround, AudioHal,
  Audio, get_audio_port_type,
}
use entservices_devicesettin.Audio.Volume.{
  level_set, set_audio_level, get_audio_level, set_audio_ducking, stop, absolute, set_audio_mute,
  is_audio_muted,
}
use entservices_devicesettin.Audio.Ducking.{
  HoldsLevel, set_audio_level_while_ducking, get_audio_level_while_ducking,
}
use entservices_devicesettin.Audio.Saver.{SavedPort, Saver, asleep}
use entservices_devicesettin.Audio.Saver.Handover.{IsHandedOver, Mirrors, level_of, level_set-Steps}
use entservices_devicesettin.Audio.Mute.{HoldsMute, set_audio_mute-get}
use entservices_devicesettin.Audio.Stereo.{set_stereo_mode, get_stereo_mode, mode_key}
use entservices_devicesettin.Audio.Stereo.Readback.{KeepsMode, set_stereo_mode-get}

record World : Type 0 where
  level : ℕ
  is_muted : Bool
  properties : List (Bytes × Bytes)

abbrev lookup : Bytes → List (Bytes × Bytes) → Option Bytes
lookup key [] = none
lookup key (e ∷ es) = if str_eq e.0 key then some e.1 else lookup key es

abbrev number : AudioPort → ℕ
number hdmi = 1
number spdif = 2
number speaker = 3
number hdmi_arc = 4
number headphone = 5

abbrev set_level : ℕ → ℕ → World → ℕ × World
set_level handle level w = (0, record w { level = level })

abbrev is_mute : ℕ → World → (ℕ × Bool) × World
is_mute handle w = ((0, w.is_muted), w)

abbrev sample_hal : AudioHal World
sample_hal = record {
  audio_port = λ t w. ((0, number t), w);
  set_level = some set_level;
  level = λ handle w. ((0, w.level), w);
  level_symbol = true;
  set_mute = λ handle mute w. (0, record w { is_muted = mute });
  is_mute = some is_mute;
  port_enabled = λ handle w. ((0, true), w);
  stereo_mode = λ handle w. ((0, ds_stereo), w);
  set_stereo_mode = λ handle mode w. (0, w);
  set_stereo_auto = some (λ handle auto w. (0, w));
  property = λ key w. lookup key w.properties;
  default_property = λ key w. none;
  persist_property = λ key value w. (true, record w { properties = (key, value) ∷ w.properties });
  notify_level = λ level w. w;
  notify_mode = λ t mode w. w;
}

abbrev sample_world : World
sample_world = record { level = 4000; is_muted = false; properties = [] }

-- A speaker that is ducked from 90 to 40, or not.
abbrev sample : Bool → Audio World
sample ducking = record {
  is_initialized = true;
  is_ducking = ducking;
  ducking_level = 40;
  is_muted = false;
  last_level = 9000;
  levels = record {
    spdif_level = 4000;
    hdmi_level = 4000;
    speaker_level = 9000;
    headphone_level = 4000;
    is_alive = true;
    is_pending = false;
  };
  hdmi_auto = true;
  spdif_auto = false;
  arc_auto = true;
  speaker_auto = true;
  hdmi_mode = ds_surround;
  spdif_mode = ds_surround;
  arc_mode = ds_surround;
  speaker_mode = ds_surround;
  world = sample_world;
}

holds_level : HoldsLevel sample_hal set_level 3 (λ w. w.level)
unfolding get_audio_port_type
holds_level = record {
  symbol = refl;
  sets = λ level w. refl;
  level_after = λ level w. refl;
  level_read = λ w. refl;
  kept_by_read = λ w. refl;
  kept_by_type = λ w. refl;
  kept_by_enabled = λ w. refl;
  kept_by_notify = λ level w. refl;
  is_enabled = λ w. refl;
  is_the_speaker = λ w. refl;
}

kept : (key value : Bytes) (es : List (Bytes × Bytes)) → lookup key ((key, value) ∷ es) ≡ some value
kept key value es = if_true (str_eq key key) (some value) (lookup key es) (str_eq_self key)

holds_mute : HoldsMute sample_hal set_level is_mute 3 speaker (λ w. w.is_muted) (λ w. w.level)
unfolding get_audio_port_type
holds_mute = record {
  set_symbol = refl;
  mute_symbol = refl;
  is_port = λ w. refl;
  sets = λ level w. refl;
  mutes = λ mute w. refl;
  mute_after = λ mute w. refl;
  mute_read = λ w. refl;
  mute_kept_by_type = λ w. refl;
  mute_kept_by_persist = λ key value w. refl;
  persists = λ key value w. refl;
  level_after = λ level w. refl;
  level_kept_by_mute = λ mute w. refl;
  level_kept_by_type = λ w. refl;
  level_kept_by_persist = λ key value w. refl;
  property_after = λ key value w. kept key value w.properties;
  property_kept_by_type = λ key w. refl;
  property_kept_by_read = λ key w. refl;
}

keeps_mode : KeepsMode sample_hal 2 spdif
unfolding get_audio_port_type
keeps_mode = record {
  is_port = λ w. refl;
  sets = λ mode w. refl;
  property_after = λ key value w. kept key value w.properties;
  kept_by_notify = λ key p mode w. refl;
  kept_by_type = λ key w. refl;
}

has_key : mode_key (some spdif) ≡ some (codes "SPDIF0.AudioMode")
unfolding mode_key
has_key = refl

set_audio_level_while_ducking_example :
    ((set_audio_level sample_hal 3 7050 (sample true)).0 ≡ error_none)
    × (((set_audio_level sample_hal 3 7050 (sample true)).1.world.level ≡ 4000)
        × ((set_audio_ducking sample_hal 3 absolute stop 0
              (set_audio_level sample_hal 3 7050 (sample true)).1).1.world.level
            ≡ 7000))
set_audio_level_while_ducking_example =
    set_audio_level_while_ducking sample_hal set_level 3 (λ w. w.level) holds_level 7050 0 absolute
      (sample true) refl refl refl refl

get_audio_level_while_ducking_example :
    ((get_audio_level sample_hal 3 0 (sample true)).0 ≡ (error_none, 4000))
    × ((set_audio_ducking sample_hal 3 absolute stop 0
          (get_audio_level sample_hal 3 0 (sample true)).1).1.world.level
        ≡ 4000)
get_audio_level_while_ducking_example =
    get_audio_level_while_ducking sample_hal set_level 3 (λ w. w.level) holds_level 0 0 absolute
      (sample true) refl refl refl refl

set_audio_mute-get_example :
    ((set_audio_mute sample_hal 3 false (sample true)).0 ≡ error_none)
    × ((is_audio_muted sample_hal 3 true (set_audio_mute sample_hal 3 false (sample true)).1).0
        ≡ (error_none, false))
    × ((set_audio_mute sample_hal 3 false (sample true)).1.world.level ≡ 4000)
set_audio_mute-get_example =
    set_audio_mute-get sample_hal set_level is_mute 3 speaker (λ w. w.is_muted) (λ w. w.level)
      holds_mute false true (sample true) refl

set_stereo_mode-get_example :
    ((set_stereo_mode sample_hal 2 dd true (sample false)).0 ≡ error_none)
    × ((get_stereo_mode sample_hal 2 mono true
          (set_stereo_mode sample_hal 2 dd true (sample false)).1).0
        ≡ (error_none, dd))
set_stereo_mode-get_example =
    set_stereo_mode-get sample_hal 2 spdif keeps_mode dd mono (sample false)
      (codes "SPDIF0.AudioMode") refl has_key

speaker_is_port : (get_audio_port_type sample_hal 3 sample_world).0 ≡ some speaker
unfolding get_audio_port_type
speaker_is_port = refl

abbrev sleeper : Saver
sleeper = record {
  phase = asleep;
  storing = 0;
  stopping = 0;
  notifying = 0;
  is_alive = true;
  is_pending = false;
  cache = level_of (sample false).levels;
  previous = level_of (sample false).levels;
  saved = level_of (sample false).levels;
}

level_set-Steps_example :
    ((level_set sample_hal 3 70 (sample false)).0 ≡ error_none)
    × ((u : Saver) × IsHandedOver true SavedPort.speaker 70 sleeper u
        × Mirrors (level_set sample_hal 3 70 (sample false)).1.levels u)
level_set-Steps_example =
    level_set-Steps sample_hal true 3 70 SavedPort.speaker (sample false) sleeper speaker_is_port
      refl (record { levels = λ q. refl; alive = refl; pending = refl })

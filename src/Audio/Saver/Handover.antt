-- ===== src/Audio/Saver/Handover.antt =====
-- SetAudioLevel hands a level over to the thread that saves it.
use entservices_devicesettin.Prelude.{
  ℕ, ◌≡◌, refl, sym, ap, subst, ◌∙◌, Bool, true, some, if◌then◌else◌, suc, [], ◌∷◌,
}
use entservices_devicesettin.Device.{error_none}
use entservices_devicesettin.Audio.{AudioPort, AudioHal, Levels, Audio, get_audio_port_type}
use entservices_devicesettin.Audio.Volume.{cache_level, level_set}
use entservices_devicesettin.Audio.Saver.{
  SavedPort, spdif, hdmi, speaker, headphone, same_port, put, Saver, changed, woken, Step, store,
  flag, notify,
}
use entservices_devicesettin.Audio.Saver.Asleep.{put_same}

abbrev pub port_of : SavedPort → AudioPort
port_of spdif = AudioPort.spdif
port_of hdmi = AudioPort.hdmi
port_of speaker = AudioPort.speaker
port_of headphone = AudioPort.headphone

-- The level of a port among the levels to save.
abbrev pub level_of : Levels → SavedPort → ℕ
level_of l spdif = l.spdif_level
level_of l hdmi = l.hdmi_level
level_of l speaker = l.speaker_level
level_of l headphone = l.headphone_level

level_of-cache_level :
    (p q : SavedPort) (level : ℕ) (l : Levels)
    → level_of (cache_level (some (port_of p)) level l) q ≡ put p level (level_of l) q
unfolding cache_level put same_port
level_of-cache_level spdif spdif level l = refl
level_of-cache_level spdif hdmi level l = refl
level_of-cache_level spdif speaker level l = refl
level_of-cache_level spdif headphone level l = refl
level_of-cache_level hdmi spdif level l = refl
level_of-cache_level hdmi hdmi level l = refl
level_of-cache_level hdmi speaker level l = refl
level_of-cache_level hdmi headphone level l = refl
level_of-cache_level speaker spdif level l = refl
level_of-cache_level speaker hdmi level l = refl
level_of-cache_level speaker speaker level l = refl
level_of-cache_level speaker headphone level l = refl
level_of-cache_level headphone spdif level l = refl
level_of-cache_level headphone hdmi level l = refl
level_of-cache_level headphone speaker level l = refl
level_of-cache_level headphone headphone level l = refl

cache_level-is_pending :
    (p : SavedPort) (level : ℕ) (l : Levels)
    → (cache_level (some (port_of p)) level l).is_pending ≡ true
unfolding cache_level
cache_level-is_pending spdif level l = refl
cache_level-is_pending hdmi level l = refl
cache_level-is_pending speaker level l = refl
cache_level-is_pending headphone level l = refl

put_of :
    (p q : SavedPort) (level : ℕ) (f g : SavedPort → ℕ)
    → f q ≡ g q
    → put p level f q ≡ put p level g q
unfolding put
put_of p q level f g e = ap (λ r. if same_port p q then level else r) e

-- The state of the thread has the levels and the flag of a state of the audio ports.
pub record Mirrors (l : Levels) (s : Saver) : Type 0 where
  pub levels : (q : SavedPort) → s.cache q ≡ level_of l q
  pub alive : s.is_alive ≡ l.is_alive
  pub pending : s.is_pending ≡ l.is_pending

cache_level-is_alive :
    (p : SavedPort) (level : ℕ) (l : Levels)
    → (cache_level (some (port_of p)) level l).is_alive ≡ l.is_alive
unfolding cache_level
cache_level-is_alive spdif level l = refl
cache_level-is_alive hdmi level l = refl
cache_level-is_alive speaker level l = refl
cache_level-is_alive headphone level l = refl

-- The states that the three steps of the call lead to.
abbrev noted : SavedPort → ℕ → Saver → Saver
noted p level s = record s { cache = put p level s.cache; storing = suc s.storing }

abbrev raised : SavedPort → ℕ → Saver → Saver
raised p level s = record s {
  cache = put p level s.cache;
  is_pending = true;
  storing = s.storing;
  notifying = suc s.notifying;
}

abbrev handed : SavedPort → ℕ → Saver → Saver
handed p level s = record s {
  phase = woken s.phase;
  storing = s.storing;
  notifying = s.notifying;
  is_pending = true;
  cache = put p level s.cache;
}

handed-Mirrors :
    (p : SavedPort) (level : ℕ) (l : Levels) (s : Saver)
    → Mirrors l s
    → Mirrors (cache_level (some (port_of p)) level l) (handed p level s)
handed-Mirrors p level l s m = record {
  levels = λ q.
      put_of p q level s.cache (level_of l) (m.levels q) ∙ sym (level_of-cache_level p q level l);
  alive = m.alive ∙ sym (cache_level-is_alive p level l);
  pending = sym (cache_level-is_pending p level l);
}

-- Three steps of a caller, the first of which is seen as the change of the port's level: the first stores the level,
-- the second sets the flag, and the third wakes the thread if it is asleep. Nothing else changes.
pub record IsHandedOver (works : Bool) (p : SavedPort) (level : ℕ) (s u : Saver) : Type 0 where
  pub first : Saver
  pub second : Saver
  pub stores : Step works s (changed p level ∷ []) first
  pub raises : Step works first [] second
  pub notifies : Step works second [] u
  pub has_level : u.cache p ≡ level
  pub has_others : (q : SavedPort) → u.cache q ≡ put p level s.cache q
  pub is_raised : u.is_pending ≡ true
  pub is_woken : u.phase ≡ woken s.phase
  pub keeps_saved : u.saved ≡ s.saved
  pub ends : (u.storing ≡ s.storing) × (u.notifying ≡ s.notifying)

handed-IsHandedOver :
    (works : Bool) (p : SavedPort) (level : ℕ) (s : Saver)
    → IsHandedOver works p level s (handed p level s)
handed-IsHandedOver works p level s = record {
  first = noted p level s;
  second = raised p level s;
  stores = store s p level;
  raises = flag (noted p level s) s.storing refl;
  notifies = notify (raised p level s) s.notifying refl;
  has_level = put_same p level s.cache;
  has_others = λ q. refl;
  is_raised = refl;
  is_woken = refl;
  keeps_saved = refl;
  ends = (refl, refl);
}

module _ {W : Type 0} (hal : AudioHal W) where
  level_set_levels :
      (handle level : ℕ) (p : SavedPort) (a : Audio W)
      → (get_audio_port_type hal handle a.world).0 ≡ some (port_of p)
      → a.levels.is_alive ≡ true
      → ((level_set hal handle level a).0 ≡ error_none)
        × ((level_set hal handle level a).1.levels ≡ cache_level (some (port_of p)) level a.levels)
  unfolding level_set
  level_set_levels handle level p a t l = rw (l, t) (refl, refl)

  -- A level that the HAL has taken for a port whose level is saved, while the thread runs, is handed over to it: the
  -- call succeeds, and the levels to save and the flag change as the state of the thread does in three steps of a
  -- caller, which store this level for the port and no other, set the flag, and wake the thread if it is asleep.
  pub level_set-Steps :
      (works : Bool) (handle level : ℕ) (p : SavedPort) (a : Audio W) (s : Saver)
      → (get_audio_port_type hal handle a.world).0 ≡ some (port_of p)
      → a.levels.is_alive ≡ true
      → Mirrors a.levels s
      → ((level_set hal handle level a).0 ≡ error_none)
        × ((u : Saver) × IsHandedOver works p level s u
            × Mirrors (level_set hal handle level a).1.levels u)
  level_set-Steps works handle level p a s t l m =
      let e = level_set_levels handle level p a t l in
      (
        e.0,
        (
          handed p level s,
          handed-IsHandedOver works p level s,
          subst (λ levels. Mirrors levels (handed p level s)) (sym e.1)
              (handed-Mirrors p level a.levels s m),
        ),
      )

-- ===== src/Audio/Saver.antt =====
-- plugin/hal/dAudioImpl.h: the thread that saves the levels of the audio ports, and the calls that hand it a level,
-- start it and stop it, as steps that interleave. Any number of callers run at once. A caller stores a level, sets
-- the flag and notifies in three steps, without the mutex; that it has found the thread alive before may no longer
-- be so. The thread looks at the flag and goes to sleep in two steps, under the mutex, which no caller takes; it may
-- wake without a notification. It loads a level and persists it in two steps. The start of the thread is one step,
-- and so are its loads before the loop; it is started once. The four levels are functions of the port, and a saved
-- level is the one that the next start of the service reads.
pub mod Abstract
pub mod Waiting
pub mod Asleep
pub mod Handover
use entservices_devicesettin.Prelude.{
  ℕ, ◌≡◌, Bool, true, false, ◌&&◌, ◌||◌, not, ◌==◌, if◌then◌else◌, suc, List, [], ◌∷◌, ◌++◌,
}

pub data SavedPort : Type 0 where
  spdif hdmi speaker headphone : SavedPort

unfoldable pub same_port : SavedPort → SavedPort → Bool
same_port spdif spdif = true
same_port hdmi hdmi = true
same_port speaker speaker = true
same_port headphone headphone = true
same_port spdif hdmi = false
same_port spdif speaker = false
same_port spdif headphone = false
same_port hdmi spdif = false
same_port hdmi speaker = false
same_port hdmi headphone = false
same_port speaker spdif = false
same_port speaker hdmi = false
same_port speaker headphone = false
same_port headphone spdif = false
same_port headphone hdmi = false
same_port headphone speaker = false

unfoldable pub put : SavedPort → ℕ → (SavedPort → ℕ) → SavedPort → ℕ
put p level levels q = if same_port p q then level else levels q

-- Where the thread is: not started, before the loads, at the head of the loop, at the test of the flag, between
-- this test and the sleep, asleep, in the delay, at its end, before the load of a port's level, and with the level
-- that it has loaded.
pub data Phase : Type 0 where
  none_yet starting at_head at_test to_sleep asleep delaying ended : Phase
  saving : SavedPort → Phase
  holding : SavedPort → ℕ → Phase

-- `storing` callers have stored a level and not yet set the flag, `stopping` ones have cleared the flag that keeps
-- the thread alive and not yet set the other, and `notifying` ones are before the notification.
pub record Saver : Type 0 where
  pub phase : Phase
  pub storing : ℕ
  pub stopping : ℕ
  pub notifying : ℕ
  pub is_alive : Bool
  pub is_pending : Bool
  pub cache : SavedPort → ℕ
  pub previous : SavedPort → ℕ
  pub saved : SavedPort → ℕ

-- What is seen from outside: a level of a port changes, or is written to the persistence.
pub data Event : Type 0 where
  changed kept : SavedPort → ℕ → Event

-- The thread saves the ports in this order.
unfoldable pub after_save : SavedPort → Phase
after_save spdif = saving hdmi
after_save hdmi = saving speaker
after_save speaker = saving headphone
after_save headphone = at_head

-- persistAudioLevelIfChanged, and the `catch` of the loop: at an exception the other ports wait for the next turn.
unfoldable pub persist_if_changed : Bool → SavedPort → ℕ → Saver → List Event × Saver
unfolding after_save put
persist_if_changed persists p level s =
    if level == s.previous p
    then ([], record s { phase = after_save p })
    else if persists
    then (
      kept p level ∷ [],
      record s {
        phase = after_save p;
        saved = put p level s.saved;
        previous = put p level s.previous;
      },
    )
    else ([], record s { phase = at_head })

-- What the thread does after the test of the flag.
unfoldable pub test_flag : Saver → Saver
test_flag s =
    if not s.is_alive
    then record s { phase = ended }
    else if s.is_pending
    then record s { phase = delaying; is_pending = false }
    else record s { phase = to_sleep }

unfoldable pub head_of_loop : Saver → Saver
head_of_loop s = record s { phase = if s.is_alive then at_test else ended }

-- The notification wakes the thread only where it is asleep.
unfoldable pub woken : Phase → Phase
woken asleep = at_test
woken none_yet = none_yet
woken starting = starting
woken at_head = at_head
woken at_test = at_test
woken to_sleep = to_sleep
woken delaying = delaying
woken ended = ended
woken (saving p) = saving p
woken (holding p level) = holding p level

-- A step of the thread or of a caller, with what is seen of it; `works` says that the persistence throws nothing.
pub data Step (works : Bool) : Saver → List Event → Saver → Type 0 where
  begin :
      (s : Saver)
      → s.phase ≡ none_yet
      → s.is_alive ≡ false
      → Step works s [] (record s { phase = starting; is_alive = true; is_pending = false })
  load :
      (s : Saver)
      → s.phase ≡ starting
      → Step works s [] (record s { phase = at_head; previous = s.cache })
  loop : (s : Saver) → s.phase ≡ at_head → Step works s [] (head_of_loop s)
  test : (s : Saver) → s.phase ≡ at_test → Step works s [] (test_flag s)
  sleep : (s : Saver) → s.phase ≡ to_sleep → Step works s [] (record s { phase = asleep })
  spurious : (s : Saver) → s.phase ≡ asleep → Step works s [] (record s { phase = at_test })
  delay : (s : Saver) → s.phase ≡ delaying → Step works s [] (record s { phase = saving spdif })
  look :
      (s : Saver) (p : SavedPort)
      → s.phase ≡ saving p
      → Step works s [] (record s { phase = holding p (s.cache p) })
  save :
      (s : Saver) (p : SavedPort) (level : ℕ)
      → s.phase ≡ holding p level
      → Step works s (persist_if_changed true p level s).0 (persist_if_changed true p level s).1
  throw :
      (s : Saver) (p : SavedPort) (level : ℕ)
      → works ≡ false
      → s.phase ≡ holding p level
      → Step works s (persist_if_changed false p level s).0 (persist_if_changed false p level s).1
  store :
      (s : Saver) (p : SavedPort) (level : ℕ)
      → Step works s
          (changed p level ∷ [])
          (record s { cache = put p level s.cache; storing = suc s.storing })
  flag :
      (s : Saver) (n : ℕ)
      → s.storing ≡ suc n
      → Step works s [] (record s { is_pending = true; storing = n; notifying = suc s.notifying })
  notify :
      (s : Saver) (n : ℕ)
      → s.notifying ≡ suc n
      → Step works s [] (record s { phase = woken s.phase; notifying = n })
  stop :
      (s : Saver)
      → s.is_alive ≡ true
      → Step works s [] (record s { is_alive = false; stopping = suc s.stopping })
  stop_flag :
      (s : Saver) (n : ℕ)
      → s.stopping ≡ suc n
      → Step works s [] (record s { is_pending = true; stopping = n; notifying = suc s.notifying })

pub data Steps (works : Bool) (s : Saver) : List Event → Saver → Type 0 where
  here : Steps works s [] s
  next :
      {es fs : List Event} {t u : Saver}
      → Steps works s es t
      → Step works t fs u
      → Steps works s (es ++ fs) u

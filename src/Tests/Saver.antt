-- ===== src/Tests/Saver.antt =====
-- The thread that saves the levels in runs of a few steps.
use entservices_devicesettin.Prelude.{◌≡◌, refl, true, false, List, [], ◌∷◌}
use entservices_devicesettin.Audio.Saver.{
  speaker, put, Saver, Phase, at_head, at_test, asleep, Step, Steps, Event, changed, kept, loop,
  test, sleep, here, next, head_of_loop, test_flag, store, flag, notify, woken, delay, saving,
  holding, look, spdif, hdmi, headphone, save, persist_if_changed, after_save, same_port,
}
use entservices_devicesettin.Audio.Saver.Abstract.{shelf_of, Moves, Steps-Moves}
use entservices_devicesettin.Audio.Saver.Asleep.{
  Steps-saved, notification_lost, IsQuiet, IsCallOrSpurious,
}

abbrev at_phase : Phase → Saver
at_phase ph = record {
  phase = ph;
  storing = 0;
  stopping = 0;
  notifying = 0;
  is_alive = true;
  is_pending = false;
  cache = λ p. 40;
  previous = λ p. 40;
  saved = λ p. 40;
}

-- A level is handed over while the thread is asleep, and saved.
abbrev s0 : Saver
s0 = at_phase at_head

abbrev s1 : Saver
s1 = head_of_loop s0

abbrev s2 : Saver
s2 = test_flag s1

abbrev s3 : Saver
s3 = record s2 { phase = asleep }

abbrev s4 : Saver
s4 = record s3 { cache = put speaker 70 s3.cache; storing = 1 }

abbrev s5 : Saver
s5 = record s4 { is_pending = true; storing = 0; notifying = 1 }

abbrev s6 : Saver
s6 = record s5 { phase = woken s5.phase; notifying = 0 }

abbrev s7 : Saver
s7 = test_flag s6

abbrev s8 : Saver
s8 = record s7 { phase = saving spdif }

abbrev s9 : Saver
s9 = record s8 { phase = holding spdif 40 }

abbrev s10 : Saver
s10 = (persist_if_changed true spdif 40 s9).1

abbrev s11 : Saver
s11 = record s10 { phase = holding hdmi 40 }

abbrev s12 : Saver
s12 = (persist_if_changed true hdmi 40 s11).1

abbrev s13 : Saver
s13 = record s12 { phase = holding speaker 70 }

abbrev s14 : Saver
s14 = (persist_if_changed true speaker 70 s13).1

abbrev s15 : Saver
s15 = record s14 { phase = holding headphone 40 }

abbrev s16 : Saver
s16 = (persist_if_changed true headphone 40 s15).1

abbrev s17 : Saver
s17 = head_of_loop s16

abbrev s18 : Saver
s18 = test_flag s17

abbrev s19 : Saver
s19 = record s18 { phase = asleep }

abbrev seen : List Event
seen = changed speaker 70 ∷ kept speaker 70 ∷ []

turn : Steps true s0 seen s19
unfolding head_of_loop test_flag woken persist_if_changed after_save put same_port
turn =
    let k1 : Steps true s0 [] s1 = next here (loop s0 refl) in
    let k2 : Steps true s0 [] s2 = next k1 (test s1 refl) in
    let k3 : Steps true s0 [] s3 = next k2 (sleep s2 refl) in
    let k4 : Steps true s0 (changed speaker 70 ∷ []) s4 = next k3 (store s3 speaker 70) in
    let k5 : Steps true s0 (changed speaker 70 ∷ []) s5 = next k4 (flag s4 0 refl) in
    let k6 : Steps true s0 (changed speaker 70 ∷ []) s6 = next k5 (notify s5 0 refl) in
    let k7 : Steps true s0 (changed speaker 70 ∷ []) s7 = next k6 (test s6 refl) in
    let k8 : Steps true s0 (changed speaker 70 ∷ []) s8 = next k7 (delay s7 refl) in
    let k9 : Steps true s0 (changed speaker 70 ∷ []) s9 = next k8 (look s8 spdif refl) in
    let k10 : Steps true s0 (changed speaker 70 ∷ []) s10 = next k9 (save s9 spdif 40 refl) in
    let k11 : Steps true s0 (changed speaker 70 ∷ []) s11 = next k10 (look s10 hdmi refl) in
    let k12 : Steps true s0 (changed speaker 70 ∷ []) s12 = next k11 (save s11 hdmi 40 refl) in
    let k13 : Steps true s0 (changed speaker 70 ∷ []) s13 = next k12 (look s12 speaker refl) in
    let k14 : Steps true s0 seen s14 = next k13 (save s13 speaker 70 refl) in
    let k15 : Steps true s0 seen s15 = next k14 (look s14 headphone refl) in
    let k16 : Steps true s0 seen s16 = next k15 (save s15 headphone 40 refl) in
    let k17 : Steps true s0 seen s17 = next k16 (loop s16 refl) in
    let k18 : Steps true s0 seen s18 = next k17 (test s17 refl) in next k18 (sleep s18 refl)

Steps-Moves_example : Moves (shelf_of s0) seen (shelf_of s19)
Steps-Moves_example = Steps-Moves true turn

Steps-saved_example : s19.saved speaker ≡ s19.cache speaker
unfolding head_of_loop test_flag woken persist_if_changed after_save put same_port
Steps-saved_example =
    Steps-saved {s = s0} {t = s19} refl (λ p. refl) (λ p. refl) turn refl refl refl speaker

notification_lost_example :
    (t : Saver) × Steps true (at_phase at_test) (changed speaker 70 ∷ []) t
    × (t.phase ≡ asleep)
    × (t.is_pending ≡ true)
    × IsQuiet t
    × (t.cache speaker ≡ 70)
    × (t.saved ≡ (at_phase at_test).saved)
    × ((es : List Event) (u : Saver) → Step true t es u → IsCallOrSpurious t u)
notification_lost_example =
    notification_lost true speaker 70 (at_phase at_test) refl
      (record { none_storing = refl; none_stopping = refl; none_notifying = refl }) refl refl

-- ===== src/Audio/Saver/Abstract.antt =====
-- What the thread that saves the levels promises: a level that is written was the port's present level at a moment
-- after the last write.
use entservices_devicesettin.Prelude.{
  ℕ, ◌≡◌, refl, sym, ap, subst, Bool, true, false, ◌==◌, by_branch, not, Option, none, some, List,
  [], ◌∷◌, ◌++◌,
}
use entservices_devicesettin.Audio.Saver.{
  SavedPort, spdif, hdmi, speaker, headphone, put, Saver, Phase, none_yet, starting, at_head,
  at_test, to_sleep, asleep, delaying, ended, saving, holding, Event, changed, kept, after_save,
  persist_if_changed, test_flag, head_of_loop, woken, Step, Steps, begin, load, loop, test, sleep,
  spurious, delay, look, save, throw, store, flag, notify, stop, stop_flag, here, next,
}

-- The abstract machine: the present levels, what is stored of them, and the level that was looked at.
pub record Shelf : Type 0 where
  pub present : SavedPort → ℕ
  pub stored : SavedPort → ℕ
  pub seen : Option (SavedPort × ℕ)

-- A level changes, which is seen from outside; the present level of a port is looked at; a level that was looked at
-- is written, once, which is seen from outside; it is forgotten; nothing happens.
pub data Move : Shelf → List Event → Shelf → Type 0 where
  change :
      (s : Shelf) (p : SavedPort) (level : ℕ)
      → Move s (changed p level ∷ []) (record s { present = put p level s.present })
  sample : (s : Shelf) (p : SavedPort) → Move s [] (record s { seen = some (p, s.present p) })
  write :
      (s : Shelf) (p : SavedPort) (level : ℕ)
      → s.seen ≡ some (p, level)
      → Move s (kept p level ∷ []) (record s { stored = put p level s.stored; seen = none })
  forget : (s : Shelf) → Move s [] (record s { seen = none })
  wait : (s : Shelf) → Move s [] s

pub data Moves (s : Shelf) : List Event → Shelf → Type 0 where
  stay : Moves s [] s
  more : {es fs : List Event} {t u : Shelf} → Moves s es t → Move t fs u → Moves s (es ++ fs) u

abbrev pub seen_of : Phase → Option (SavedPort × ℕ)
seen_of (holding p level) = some (p, level)
seen_of none_yet = none
seen_of starting = none
seen_of at_head = none
seen_of at_test = none
seen_of to_sleep = none
seen_of asleep = none
seen_of delaying = none
seen_of ended = none
seen_of (saving p) = none

-- What a state of the thread and its callers looks like from outside.
unfoldable pub shelf_of : Saver → Shelf
shelf_of s = record { present = s.cache; stored = s.saved; seen = seen_of s.phase }

seen_of-after_save : (p : SavedPort) → seen_of (after_save p) ≡ none
unfolding after_save
seen_of-after_save spdif = refl
seen_of-after_save hdmi = refl
seen_of-after_save speaker = refl
seen_of-after_save headphone = refl

seen_of-woken : (ph : Phase) → seen_of (woken ph) ≡ seen_of ph
unfolding woken
seen_of-woken none_yet = refl
seen_of-woken starting = refl
seen_of-woken at_head = refl
seen_of-woken at_test = refl
seen_of-woken to_sleep = refl
seen_of-woken asleep = refl
seen_of-woken delaying = refl
seen_of-woken ended = refl
seen_of-woken (saving p) = refl
seen_of-woken (holding p level) = refl

-- The thread goes on to a place where it holds no level.
forgets :
    (s : Saver) (ph : Phase)
    → seen_of ph ≡ none
    → Move (shelf_of s) [] (shelf_of (record s { phase = ph }))
unfolding shelf_of
forgets s ph e =
    subst (λ o. Move (shelf_of s) [] (record (shelf_of s) { seen = o })) (sym e)
      (forget (shelf_of s))

test_flag-Move : (s : Saver) → Move (shelf_of s) [] (shelf_of (test_flag s))
unfolding test_flag shelf_of
test_flag-Move s =
    let P : Saver → Type 0 = λ t. Move (shelf_of s) [] (shelf_of t) in
    by_branch P (not s.is_alive) (record s { phase = ended }) _ (λ e. forget (shelf_of s))
      (λ e.
        by_branch P s.is_pending (record s { phase = delaying; is_pending = false })
          (record s { phase = to_sleep }) (λ f. forget (shelf_of s)) (λ f. forget (shelf_of s)))

-- The save of a port writes the level that the thread holds, or forgets it.
persist_if_changed-Move :
    (persists : Bool) (p : SavedPort) (level : ℕ) (s : Saver)
    → s.phase ≡ holding p level
    → Move
        (shelf_of s)
        (persist_if_changed persists p level s).0
        (shelf_of (persist_if_changed persists p level s).1)
unfolding persist_if_changed shelf_of
persist_if_changed-Move persists p level s h =
    let P : List Event × Saver → Type 0 = λ r. Move (shelf_of s) r.0 (shelf_of r.1) in
    by_branch P (level == s.previous p) ([], record s { phase = after_save p }) _
      (λ e. forgets s (after_save p) (seen_of-after_save p))
      (λ e.
        by_branch P persists
          (
            kept p level ∷ [],
            record s {
              phase = after_save p;
              saved = put p level s.saved;
              previous = put p level s.previous;
            },
          )
          ([], record s { phase = at_head })
          (λ f.
            subst
              (λ o.
                Move (shelf_of s) (kept p level ∷ [])
                  (record { present = s.cache; stored = put p level s.saved; seen = o }))
              (sym (seen_of-after_save p)) (write (shelf_of s) p level (ap seen_of h)))
          (λ f. forget (shelf_of s)))

Step-Move :
    {works : Bool} {s t : Saver} {es : List Event}
    → Step works s es t
    → Move (shelf_of s) es (shelf_of t)
unfolding shelf_of head_of_loop
Step-Move (begin s h l) = forget (shelf_of s)
Step-Move (load s h) = forget (shelf_of s)
Step-Move (loop s h) =
    by_branch (λ ph. Move (shelf_of s) [] (shelf_of (record s { phase = ph }))) s.is_alive at_test
      ended (λ e. forget (shelf_of s)) (λ e. forget (shelf_of s))
Step-Move (test s h) = test_flag-Move s
Step-Move (sleep s h) = forget (shelf_of s)
Step-Move (spurious s h) = forget (shelf_of s)
Step-Move (delay s h) = forget (shelf_of s)
Step-Move (look s p h) = sample (shelf_of s) p
Step-Move (save s p level h) = persist_if_changed-Move true p level s h
Step-Move (throw s p level w h) = persist_if_changed-Move false p level s h
Step-Move (store s p level) = change (shelf_of s) p level
Step-Move (flag s n h) = wait (shelf_of s)
Step-Move (notify s n h) =
    subst (λ o. Move (shelf_of s) [] (record (shelf_of s) { seen = o }))
      (sym (seen_of-woken s.phase)) (wait (shelf_of s))
Step-Move (stop s a) = wait (shelf_of s)
Step-Move (stop_flag s n h) = wait (shelf_of s)

-- Whatever the persistence does, every run of the thread and its callers, in every interleaving of their steps, is a
-- run of the abstract machine with the same sequence of visible events: each level that is written to the
-- persistence for a port was the port's level at a moment after the write before.
pub Steps-Moves :
    (works : Bool) {s t : Saver} {es : List Event}
    → Steps works s es t
    → Moves (shelf_of s) es (shelf_of t)
Steps-Moves works here = stay
Steps-Moves works (next r k) = more (Steps-Moves works r) (Step-Move k)

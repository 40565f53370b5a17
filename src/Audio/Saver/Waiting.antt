-- ===== src/Audio/Saver/Waiting.antt =====
-- The thread that saves the levels: the invariant of its turns.
use entservices_devicesettin.Prelude.{
  ℕ, [], List, ◌≡◌, ◌⊎◌, refl, ap, subst, ◌∙◌, Bool, true, false, not, ◌||◌, ◌==◌, if◌then◌else◌,
  inl, inr, ==_iff, by_branch, arith,
}
use entservices_devicesettin.Audio.Saver.{
  SavedPort, spdif, hdmi, speaker, headphone, same_port, put, Saver, Phase, none_yet, starting,
  at_head, at_test, to_sleep, asleep, delaying, ended, saving, holding, Event, after_save,
  persist_if_changed, test_flag, woken,
}

-- The second port is saved with the first, or after it.
unfoldable pub ahead_of : SavedPort → SavedPort → Bool
ahead_of spdif q = true
ahead_of hdmi q = not (same_port q spdif)
ahead_of speaker q = same_port q speaker || same_port q headphone
ahead_of headphone q = same_port q headphone

-- The port is yet to be saved in the turn that the thread is in.
unfoldable pub is_ahead : Phase → SavedPort → Bool
is_ahead delaying q = true
is_ahead none_yet q = false
is_ahead starting q = false
is_ahead at_head q = false
is_ahead at_test q = false
is_ahead to_sleep q = false
is_ahead asleep q = false
is_ahead ended q = false
is_ahead (saving p) q = ahead_of p q
is_ahead (holding p level) q = ahead_of p q

-- A level that the thread holds is the present one.
abbrev pub IsHeld : Phase → (SavedPort → ℕ) → Type 0
IsHeld (holding p level) cache = cache p ≡ level
IsHeld none_yet cache = Unit
IsHeld starting cache = Unit
IsHeld at_head cache = Unit
IsHeld at_test cache = Unit
IsHeld to_sleep cache = Unit
IsHeld asleep cache = Unit
IsHeld delaying cache = Unit
IsHeld ended cache = Unit
IsHeld (saving p) cache = Unit

abbrev pub is_starting : Phase → Bool
is_starting starting = true
is_starting none_yet = true
is_starting at_head = false
is_starting at_test = false
is_starting to_sleep = false
is_starting asleep = false
is_starting delaying = false
is_starting ended = false
is_starting (saving p) = false
is_starting (holding p level) = false

-- The thread has loaded the levels, and a level that is not saved yet will be: the flag is set, a caller is about
-- to set it, or the port's turn is to come.
pub record IsFollowed (s : Saver) : Type 0 where
  pub loaded : is_starting s.phase ≡ false
  pub follows : (p : SavedPort) → s.previous p ≡ s.saved p
  pub held : s.is_pending ≡ false → s.storing ≡ 0 → IsHeld s.phase s.cache
  pub due :
      (p : SavedPort)
      → s.is_pending ≡ false
      → s.storing ≡ 0
      → is_ahead s.phase p ≡ false
      → s.cache p ≡ s.saved p

eq_of_same : (p q : SavedPort) → same_port p q ≡ true → p ≡ q
unfolding same_port
eq_of_same spdif spdif e = refl
eq_of_same spdif hdmi e = ground (arith, e)
eq_of_same spdif speaker e = ground (arith, e)
eq_of_same spdif headphone e = ground (arith, e)
eq_of_same hdmi spdif e = ground (arith, e)
eq_of_same hdmi hdmi e = refl
eq_of_same hdmi speaker e = ground (arith, e)
eq_of_same hdmi headphone e = ground (arith, e)
eq_of_same speaker spdif e = ground (arith, e)
eq_of_same speaker hdmi e = ground (arith, e)
eq_of_same speaker speaker e = refl
eq_of_same speaker headphone e = ground (arith, e)
eq_of_same headphone spdif e = ground (arith, e)
eq_of_same headphone hdmi e = ground (arith, e)
eq_of_same headphone speaker e = ground (arith, e)
eq_of_same headphone headphone e = refl

ahead_cases :
    (p q : SavedPort)
    → is_ahead (after_save p) q ≡ false
    → (same_port p q ≡ true) ⊎ (ahead_of p q ≡ false)
unfolding is_ahead ahead_of after_save same_port
ahead_cases spdif spdif h = inl refl
ahead_cases spdif hdmi h = inr h
ahead_cases spdif speaker h = inr h
ahead_cases spdif headphone h = inr h
ahead_cases hdmi spdif h = inr refl
ahead_cases hdmi hdmi h = inl refl
ahead_cases hdmi speaker h = inr h
ahead_cases hdmi headphone h = inr h
ahead_cases speaker spdif h = inr refl
ahead_cases speaker hdmi h = inr refl
ahead_cases speaker speaker h = inl refl
ahead_cases speaker headphone h = inr h
ahead_cases headphone spdif h = inr refl
ahead_cases headphone hdmi h = inr refl
ahead_cases headphone speaker h = inr refl
ahead_cases headphone headphone h = inl refl

pub is_ahead-woken : (ph : Phase) (p : SavedPort) → is_ahead (woken ph) p ≡ is_ahead ph p
unfolding is_ahead woken
is_ahead-woken none_yet p = refl
is_ahead-woken starting p = refl
is_ahead-woken at_head p = refl
is_ahead-woken at_test p = refl
is_ahead-woken to_sleep p = refl
is_ahead-woken asleep p = refl
is_ahead-woken delaying p = refl
is_ahead-woken ended p = refl
is_ahead-woken (saving q) p = refl
is_ahead-woken (holding q level) p = refl

pub is_starting-woken : (ph : Phase) → is_starting (woken ph) ≡ is_starting ph
unfolding woken
is_starting-woken none_yet = refl
is_starting-woken starting = refl
is_starting-woken at_head = refl
is_starting-woken at_test = refl
is_starting-woken to_sleep = refl
is_starting-woken asleep = refl
is_starting-woken delaying = refl
is_starting-woken ended = refl
is_starting-woken (saving q) = refl
is_starting-woken (holding q level) = refl

is_starting-after_save : (p : SavedPort) → is_starting (after_save p) ≡ false
unfolding after_save
is_starting-after_save spdif = refl
is_starting-after_save hdmi = refl
is_starting-after_save speaker = refl
is_starting-after_save headphone = refl

pub IsHeld-woken : (ph : Phase) (cache : SavedPort → ℕ) → IsHeld ph cache → IsHeld (woken ph) cache
unfolding woken
IsHeld-woken none_yet cache h = tt
IsHeld-woken starting cache h = tt
IsHeld-woken at_head cache h = tt
IsHeld-woken at_test cache h = tt
IsHeld-woken to_sleep cache h = tt
IsHeld-woken asleep cache h = tt
IsHeld-woken delaying cache h = tt
IsHeld-woken ended cache h = tt
IsHeld-woken (saving q) cache h = tt
IsHeld-woken (holding q level) cache h = h

IsHeld-after_save : (p : SavedPort) (cache : SavedPort → ℕ) → IsHeld (after_save p) cache
unfolding after_save
IsHeld-after_save spdif cache = tt
IsHeld-after_save hdmi cache = tt
IsHeld-after_save speaker cache = tt
IsHeld-after_save headphone cache = tt

-- The thread goes on to another place where no port is to be saved.
pub moved-IsFollowed :
    (s : Saver) (ph : Phase)
    → IsFollowed s
    → ((p : SavedPort) → is_ahead s.phase p ≡ false)
    → is_starting ph ≡ false
    → IsHeld ph s.cache
    → IsFollowed (record s { phase = ph })
moved-IsFollowed s ph f a l d = record {
  loaded = l;
  follows = f.follows;
  held = λ n c. d;
  due = λ p n c h. f.due p n c (a p);
}

pub test_flag-IsFollowed : (s : Saver) → s.phase ≡ at_test → IsFollowed s → IsFollowed (test_flag s)
unfolding test_flag is_ahead
test_flag-IsFollowed s h f =
    let calm : (p : SavedPort) → is_ahead s.phase p ≡ false = λ p. ap (λ ph. is_ahead ph p) h in
    by_branch IsFollowed (not s.is_alive) (record s { phase = ended }) _
      (λ e. moved-IsFollowed s ended f calm refl tt)
      (λ e.
        by_branch IsFollowed s.is_pending (record s { phase = delaying; is_pending = false })
          (record s { phase = to_sleep })
          (λ g. record {
            loaded = refl;
            follows = f.follows;
            held = λ n c. tt;
            due = λ p n c a. ground (arith, a);
          })
          (λ g. moved-IsFollowed s to_sleep f calm refl tt))

-- The turn of a port whose level is saved already.
skipped-IsFollowed :
    (s : Saver) (p : SavedPort) (level : ℕ)
    → s.phase ≡ holding p level
    → IsFollowed s
    → level ≡ s.previous p
    → IsFollowed (record s { phase = after_save p })
unfolding is_ahead
skipped-IsFollowed s p level h f e = record {
  loaded = is_starting-after_save p;
  follows = f.follows;
  held = λ n c. IsHeld-after_save p s.cache;
  due = λ q n c a. elim (ahead_cases p q a) [
    | inl same ↦
        subst (λ r. s.cache r ≡ s.saved r) (eq_of_same p q same)
          (subst (λ ph. IsHeld ph s.cache) h (f.held n c) ∙ e ∙ f.follows p)
    | inr behind ↦ f.due q n c (ap (λ ph. is_ahead ph q) h ∙ behind)
  ];
}

-- The turn of a port whose level is new.
saved-IsFollowed :
    (s : Saver) (p : SavedPort) (level : ℕ)
    → s.phase ≡ holding p level
    → IsFollowed s
    → IsFollowed (record s {
      phase = after_save p;
      saved = put p level s.saved;
      previous = put p level s.previous;
    })
unfolding put is_ahead
saved-IsFollowed s p level h f = record {
  loaded = is_starting-after_save p;
  follows = λ q. ap (λ r. if same_port p q then level else r) (f.follows q);
  held = λ n c. IsHeld-after_save p s.cache;
  due = λ q n c a.
      by_branch (λ r. s.cache q ≡ r) (same_port p q) level (s.saved q)
        (λ same.
          subst (λ r. s.cache r ≡ level) (eq_of_same p q same)
            (subst (λ ph. IsHeld ph s.cache) h (f.held n c)))
        (λ other. elim (ahead_cases p q a) [
          | inl same ↦ ground (arith, same, other)
          | inr behind ↦ f.due q n c (ap (λ ph. is_ahead ph q) h ∙ behind)
        ]);
}

pub persist_if_changed-IsFollowed :
    (s : Saver) (p : SavedPort) (level : ℕ)
    → s.phase ≡ holding p level
    → IsFollowed s
    → IsFollowed (persist_if_changed true p level s).1
unfolding persist_if_changed
persist_if_changed-IsFollowed s p level h f =
    by_branch (λ (r : List Event × Saver). IsFollowed r.1) (level == s.previous p)
      ([], record s { phase = after_save p }) _
      (λ e. skipped-IsFollowed s p level h f ((==_iff level (s.previous p)).0 e))
      (λ e. saved-IsFollowed s p level h f)

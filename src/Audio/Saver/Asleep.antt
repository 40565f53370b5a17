-- ===== src/Audio/Saver/Asleep.antt =====
-- What is saved when the thread is asleep, and what is not.
use entservices_devicesettin.Prelude.{
  ℕ, ◌+◌, ◌≡◌, ◌⊎◌, inl, inr, refl, sym, ap, subst, ◌∙◌, Bool, true, false, not, arith, by_branch,
  if_false, suc, List, [], ◌∷◌,
}
use entservices_devicesettin.Audio.Saver.{
  SavedPort, spdif, hdmi, speaker, headphone, same_port, put, Saver, at_head, at_test, to_sleep,
  asleep, ended, Event, changed, test_flag, head_of_loop, woken, Step, Steps, begin, load, loop,
  test, sleep, spurious, delay, look, save, throw, store, flag, notify, stop, stop_flag, here, next,
}
use entservices_devicesettin.Audio.Saver.Waiting.{
  ahead_of, is_ahead, is_starting, IsHeld, IsFollowed, moved-IsFollowed, is_ahead-woken,
  is_starting-woken, IsHeld-woken, test_flag-IsFollowed, persist_if_changed-IsFollowed,
}

Step-IsFollowed : {s t : Saver} {es : List Event} → Step true s es t → IsFollowed s → IsFollowed t
unfolding head_of_loop is_ahead ahead_of
Step-IsFollowed (begin s h l) f = ground (arith, sym (ap is_starting h) ∙ f.loaded)
Step-IsFollowed (load s h) f = ground (arith, sym (ap is_starting h) ∙ f.loaded)
Step-IsFollowed (loop s h) f =
    let calm : (p : SavedPort) → is_ahead s.phase p ≡ false = λ p. ap (λ ph. is_ahead ph p) h in
    by_branch (λ ph. IsFollowed (record s { phase = ph })) s.is_alive at_test ended
      (λ e. moved-IsFollowed s at_test f calm refl tt)
      (λ e. moved-IsFollowed s ended f calm refl tt)
Step-IsFollowed (test s h) f = test_flag-IsFollowed s h f
Step-IsFollowed (sleep s h) f =
    moved-IsFollowed s asleep f (λ p. ap (λ ph. is_ahead ph p) h) refl tt
Step-IsFollowed (spurious s h) f =
    moved-IsFollowed s at_test f (λ p. ap (λ ph. is_ahead ph p) h) refl tt
Step-IsFollowed (delay s h) f = record {
  loaded = refl;
  follows = f.follows;
  held = λ n c. tt;
  due = λ p n c a. ground (arith, a);
}
Step-IsFollowed (look s p h) f = record {
  loaded = refl;
  follows = f.follows;
  held = λ n c. refl;
  due = λ q n c a. f.due q n c (ap (λ ph. is_ahead ph q) h ∙ a);
}
Step-IsFollowed (save s p level h) f = persist_if_changed-IsFollowed s p level h f
Step-IsFollowed (throw s p level w h) f = ground (arith, w)
Step-IsFollowed (store s p level) f = record {
  loaded = f.loaded;
  follows = f.follows;
  held = λ n c. absurd (omega (arith, c));
  due = λ q n c a. absurd (omega (arith, c));
}
Step-IsFollowed (flag s m h) f = record {
  loaded = f.loaded;
  follows = f.follows;
  held = λ n c. ground (arith, n);
  due = λ q n c a. ground (arith, n);
}
Step-IsFollowed (notify s m h) f = record {
  loaded = is_starting-woken s.phase ∙ f.loaded;
  follows = f.follows;
  held = λ n c. IsHeld-woken s.phase s.cache (f.held n c);
  due = λ q n c a. f.due q n c (sym (is_ahead-woken s.phase q) ∙ a);
}
Step-IsFollowed (stop s l) f = record {
  loaded = f.loaded;
  follows = f.follows;
  held = f.held;
  due = f.due;
}
Step-IsFollowed (stop_flag s m h) f = record {
  loaded = f.loaded;
  follows = f.follows;
  held = λ n c. ground (arith, n);
  due = λ q n c a. ground (arith, n);
}

Steps-IsFollowed : {s t : Saver} {es : List Event} → Steps true s es t → IsFollowed s → IsFollowed t
Steps-IsFollowed here f = f
Steps-IsFollowed (next r k) f = Step-IsFollowed k (Steps-IsFollowed r f)

start-IsHeld : (s : Saver) → s.phase ≡ at_head → IsHeld s.phase s.cache
start-IsHeld s h = subst (λ ph. IsHeld ph s.cache) (sym h) tt

-- Where the persistence throws nothing and the thread has loaded the levels that are saved, then after any
-- interleaving of its steps with those of any number of callers: if it is asleep, the flag is not set and no caller
-- is about to set it, the levels are saved.
pub Steps-saved :
    {s t : Saver} {es : List Event}
    → s.phase ≡ at_head
    → ((p : SavedPort) → s.previous p ≡ s.saved p)
    → ((p : SavedPort) → s.cache p ≡ s.saved p)
    → Steps true s es t
    → t.phase ≡ asleep
    → t.is_pending ≡ false
    → t.storing ≡ 0
    → (p : SavedPort) → t.saved p ≡ t.cache p
unfolding is_ahead
Steps-saved {s} h follows saved steps a n c p =
    let f = Steps-IsFollowed steps (record {
      loaded = ap is_starting h;
      follows = follows;
      held = λ b d. start-IsHeld s h;
      due = λ q b d e. saved q;
    }) in
    sym (f.due p n c (ap (λ ph. is_ahead ph p) a))

-- No caller is in a call.
pub record IsQuiet (s : Saver) : Type 0 where
  pub none_storing : s.storing ≡ 0
  pub none_stopping : s.stopping ≡ 0
  pub none_notifying : s.notifying ≡ 0

-- The state in which a notification was lost.
abbrev pub missed : SavedPort → ℕ → Saver → Saver
missed p level s = record s {
  phase = asleep;
  storing = s.storing;
  notifying = s.notifying;
  is_pending = true;
  cache = put p level s.cache;
}

missed-Steps :
    (works : Bool) (p : SavedPort) (level : ℕ) (s : Saver)
    → s.phase ≡ at_test
    → s.is_alive ≡ true
    → s.is_pending ≡ false
    → Steps works s (changed p level ∷ []) (missed p level s)
unfolding test_flag woken
missed-Steps works p level s h l n =
    let s1 : Saver = record s { phase = to_sleep } in
    let s2 : Saver = record s1 { cache = put p level s.cache; storing = suc s.storing } in
    let s3 : Saver = record s2 {
      is_pending = true;
      storing = s.storing;
      notifying = suc s.notifying;
    } in
    let s4 : Saver = record s3 { notifying = s.notifying } in
    let tested : Step works s [] s1 =
      subst (Step works s [])
        (if_false (not s.is_alive) (record s { phase = ended }) _ (ap not l)
          ∙ if_false s.is_pending _ s1 n)
        (test s h) in
    let k1 : Steps works s [] s1 = next here tested in
    let k2 : Steps works s (changed p level ∷ []) s2 = next k1 (store s1 p level) in
    let k3 : Steps works s (changed p level ∷ []) s3 = next k2 (flag s2 s.storing refl) in
    let k4 : Steps works s (changed p level ∷ []) s4 = next k3 (notify s3 s.notifying refl) in
    next k4 (sleep s4 refl)

pub put_same : (p : SavedPort) (level : ℕ) (levels : SavedPort → ℕ) → put p level levels p ≡ level
unfolding put same_port
put_same spdif level levels = refl
put_same hdmi level levels = refl
put_same speaker level levels = refl
put_same headphone level levels = refl

-- The thread stays asleep while a call begins, or it wakes without a notification.
abbrev pub IsCallOrSpurious : Saver → Saver → Type 0
IsCallOrSpurious s t =
    ((t.phase ≡ asleep) × (t.storing + t.stopping ≡ 1)) ⊎ (t ≡ record s { phase = at_test })

only_calls :
    {works : Bool} {s t : Saver} {es : List Event}
    → Step works s es t
    → s.phase ≡ asleep
    → IsQuiet s
    → IsCallOrSpurious s t
only_calls (begin s h l) a c = ground (arith, sym h ∙ a)
only_calls (load s h) a c = ground (arith, sym h ∙ a)
only_calls (loop s h) a c = ground (arith, sym h ∙ a)
only_calls (test s h) a c = ground (arith, sym h ∙ a)
only_calls (sleep s h) a c = ground (arith, sym h ∙ a)
only_calls (spurious s h) a c = inr refl
only_calls (delay s h) a c = ground (arith, sym h ∙ a)
only_calls (look s p h) a c = ground (arith, sym h ∙ a)
only_calls (save s p level h) a c = ground (arith, sym h ∙ a)
only_calls (throw s p level w h) a c = ground (arith, sym h ∙ a)
only_calls (store s p level) a c = inl (a, omega (arith, c.none_storing, c.none_stopping))
only_calls (flag s n h) a c = absurd (omega (arith, h, c.none_storing))
only_calls (notify s n h) a c = absurd (omega (arith, h, c.none_notifying))
only_calls (stop s l) a c = inl (a, omega (arith, c.none_storing, c.none_stopping))
only_calls (stop_flag s n h) a c = absurd (omega (arith, h, c.none_stopping))

-- A notification can be lost: from every state in which the thread, which is alive, is at the test of the flag,
-- nothing is pending and no caller is in a call, a call that hands over the level of a port leads in some
-- interleaving to a state in which the call is over, the flag is set and the thread is asleep, with what is saved as
-- it was; every step from there is the beginning of another call, at which the thread stays asleep, or a wakeup
-- without a notification.
pub notification_lost :
    (works : Bool) (p : SavedPort) (level : ℕ) (s : Saver)
    → s.phase ≡ at_test
    → IsQuiet s
    → s.is_alive ≡ true
    → s.is_pending ≡ false
    → (t : Saver) × Steps works s (changed p level ∷ []) t
      × (t.phase ≡ asleep)
      × (t.is_pending ≡ true)
      × IsQuiet t
      × (t.cache p ≡ level)
      × (t.saved ≡ s.saved)
      × ((es : List Event) (u : Saver) → Step works t es u → IsCallOrSpurious t u)
notification_lost works p level s h c l n =
    let q : IsQuiet (missed p level s) = record {
      none_storing = c.none_storing;
      none_stopping = c.none_stopping;
      none_notifying = c.none_notifying;
    } in
    (
      missed p level s,
      missed-Steps works p level s h l n,
      refl,
      refl,
      q,
      put_same p level s.cache,
      refl,
      λ es u k. only_calls k refl q,
    )

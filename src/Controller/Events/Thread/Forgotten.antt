-- ===== src/Controller/Events/Thread/Forgotten.antt =====
-- The store of `SetResolutionHandler` against the one of the resolution thread.
use entservices_devicesettin.Prelude.{
  ℕ, ◌≡◌, refl, ◌∙◌, Bool, true, false, Option, none, some, arith,
}
use entservices_devicesettin.Device.{Device, Calls, ask, pure, ◌>>=◌}
use entservices_devicesettin.Device.Log.{Ends, Ends-any, Ends-bind, Ends-if, Ends-pure, Ends-some}
use entservices_devicesettin.Controller.{
  Controller, connected, disconnected, is_component_port_present,
}
use entservices_devicesettin.Controller.Events.{note_display_event}
use entservices_devicesettin.Controller.Events.Thread.{
  schedule_if_present, handle_display_event, contains, pending, reset_event, store, waiting, awake,
  before, after, System, wake, clear, pass, work, store_added, reset, timer_end, Reach, here, next,
}

-- The thread is back in its wait and no handler of a timer runs; the source is 0, but glib holds timer n. The
-- clearing that comes first in the round of a connection that is noted then leaves all timers.
pub record IsForgotten (dev : Device) (n : ℕ) (t : System) : Type 0 where
  pub waits : t.phase ≡ waiting
  pub quiet : t.firing ≡ false
  pub source : t.controller.hotplug_event_src ≡ 0
  pub is_pending : contains n (pending dev t.log) ≡ true
  pub cleared : System
  pub round : Reach dev (record t { controller = note_display_event true t.controller }) cleared
  pub phase : cleared.phase ≡ awake connected after
  pub log : cleared.log ≡ t.log

module _ (dev : Device) where
  abbrev Scheduled : Option ℕ → Calls → Type 0
  Scheduled none log = Unit
  Scheduled (some n) log = contains n (pending dev log) ≡ true

  schedule-Scheduled :
      (present : Bool) (log : Calls) → Ends Scheduled (schedule_if_present dev present log)
  unfolding schedule_if_present ask pure ◌>>=◌ contains
  schedule-Scheduled true log = ground arith
  schedule-Scheduled false log = tt

  abbrev Disconnected : Controller → Controller × Option ℕ → Calls → Type 0
  Disconnected c r log = (r.0.thread_exit_flag ≡ c.thread_exit_flag) × Scheduled r.1 log

  disconnected_lem :
      (c : Controller) (log : Calls)
      → Ends (Disconnected c) (handle_display_event dev disconnected c log)
  unfolding handle_display_event
  disconnected_lem c log =
      Ends-if R c.tune_ready _ _ log
        (λ _.
          Ends-bind (λ _ _. Unit {0}) R (is_component_port_present dev c1) _ log (Ends-any _)
            (λ present l _.
              Ends-bind Scheduled R (schedule_if_present dev present) _ l
                (schedule-Scheduled present l) (λ o l2 h. Ends-pure R (c1, o) l2 (refl, h))))
        (λ _. Ends-pure R (c, none) log (refl, tt))
    where
      R : Controller × Option ℕ → Calls → Type 0
      R = Disconnected c

      c1 : Controller
      c1 = record c { hdcp_authenticated = false }

  -- If the resolution thread, not asked to end, in its round for a disconnection and past its clearing,
  -- schedules a timer while SetResolutionHandler runs for an older one and has not yet stored 0, then a run
  -- leads to where the new timer is forgotten: the thread waits, the source is 0 and the timer is pending; and
  -- a run from there, with a connection noted, takes the thread past its clearing with the timer still pending.
  pub timer-IsForgotten :
      (s : System) (n : ℕ) (c : Controller) (log : Calls)
      → s.phase ≡ awake disconnected after
      → s.firing ≡ true
      → s.controller.thread_exit_flag ≡ false
      → handle_display_event dev disconnected s.controller s.log ≡ some ((c, some n), log)
      → (t : System) × Reach dev s t × IsForgotten dev n t
  unfolding reset_event store note_display_event
  timer-IsForgotten s n c log p f x e =
      let k =
        Ends-some (Disconnected s.controller) _ (c, some n) log
          (disconnected_lem s.controller s.log) e in
      let t : System = record s {
        controller = reset_event (store 0 (store n c));
        phase = waiting;
        firing = false;
        log = log;
      } in
      let stored = next (next here (work disconnected c (some n) log p e)) (store_added n refl) in
      (
        t,
        next (next stored (timer_end f)) (reset refl),
        record {
          waits = refl;
          quiet = refl;
          source = refl;
          is_pending = k.1;
          cleared = record t {
            controller = note_display_event true t.controller;
            phase = awake connected after;
          };
          round = next (next here (wake refl (λ h. cc (h)) (k.0 ∙ x))) (
              clear connected before after (note_display_event true t.controller) log refl
                (pass refl));
          phase = refl;
          log = refl;
        },
      )

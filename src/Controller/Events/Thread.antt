-- ===== src/Controller/Events/Thread.antt =====
-- plugin/DSController.cpp: the loop of `ResolutionThreadFunc`, and how the handlers of other threads and
-- of glib's main loop interleave with it. `_hotplugEventSrc` is read and written without a lock: each of its
-- accesses is a step of its own, the test, the removal, the store of 0 and the store of a new id. What runs
-- between two of them, or before or after them, is one step. Of the HDCP notifications one runs at a
-- time.
pub mod Held
pub mod Forgotten
pub mod Missed
use entservices_devicesettin.Prelude.{
  ℕ, ◌≡◌, ◌≢◌, Bool, true, false, ◌||◌, Option, none, some, List, [], ◌∷◌, ◌==◌, if◌then◌else◌,
}
use entservices_devicesettin.Device.{
  Device, M, Calls, pure, ask, tell, skip, ◌>>=◌, ◌>>◌, add_set_resolution_timeout, remove_source,
  source_fired,
}
use entservices_devicesettin.Controller.{
  Controller, DisplayEvent, connected, disconnected, event_max, SysMode, is_component_port_present,
}
use entservices_devicesettin.Controller.Video.{apply_video_port_resolution}
use entservices_devicesettin.Controller.Audio.{set_audio_mode}
use entservices_devicesettin.Controller.Events.{
  HdcpStatus, authenticated, hdcp_passed, handle_hdcp_status, on_display_hdmi_hot_plug,
  on_tune_ready, sys_mode_change,
}

module _ (dev : Device) where
  pub resolution_if_authenticated : Controller → M (Unit {0})
  resolution_if_authenticated c =
      if c.hdcp_authenticated then apply_video_port_resolution dev c else skip

  on_connected : Controller → M Controller
  unfolding resolution_if_authenticated
  on_connected c = do resolution_if_authenticated c; set_audio_mode dev c; pure c

  -- The timer that is added; the store of its id is a step of its own.
  pub schedule_if_present : Bool → M (Option ℕ)
  schedule_if_present present =
      if present
      then (do src ← ask dev.timeout_source add_set_resolution_timeout; pure (some src))
      else pure none

  pub on_disconnected : Controller → M (Controller × Option ℕ)
  unfolding schedule_if_present
  on_disconnected c = do
    let c1 = record c { hdcp_authenticated = false }
    present ← is_component_port_present dev c1
    scheduled ← schedule_if_present present
    pure (c1, scheduled)

  -- What a round does between the clearing of `_hotplugEventSrc` and the store of a new id.
  unfoldable pub handle_display_event : DisplayEvent → Controller → M (Controller × Option ℕ)
  unfolding on_connected on_disconnected
  handle_display_event connected c =
      if c.tune_ready then (do c1 ← on_connected c; pure (c1, none)) else pure (c, none)
  handle_display_event disconnected c = if c.tune_ready then on_disconnected c else pure (c, none)
  handle_display_event event_max c = pure (c, none)

-- Where a thread is in the code `if (_hotplugEventSrc) { g_source_remove(_hotplugEventSrc);
-- _hotplugEventSrc = 0; }`: before it, behind the test that found an id, behind the removal, after it.
pub data Clearing : Type 0 where
  before found removed after : Clearing

-- Where the resolution thread is: in the wait; behind it with its copy of the event, in the code above;
-- before the store of the id of a new timer; before the second critical section.
pub data Phase : Type 0 where
  waiting : Phase
  awake : DisplayEvent → Clearing → Phase
  added : ℕ → Phase
  worked : Phase

-- Where the handler of a passed authentication is, if it runs.
pub data HdcpPhase : Type 0 where
  hdcp_idle : HdcpPhase
  hdcp_clearing : Clearing → HdcpPhase

pub record System : Type 0 where
  pub controller : Controller
  pub phase : Phase
  pub hdcp : HdcpPhase
  -- SetResolutionHandler runs, and has not yet stored 0.
  pub firing : Bool
  pub log : Calls

-- `_displayEventStatus = dsDISPLAY_EVENT_MAX`.
unfoldable pub reset_event : Controller → Controller
reset_event c = record c { display_event_status = event_max }

pub erase : ℕ → List ℕ → List ℕ
erase n [] = []
erase n (m ∷ ms) = if m == n then ms else m ∷ erase n ms

unfoldable pub contains : ℕ → List ℕ → Bool
contains n [] = false
contains n (m ∷ ms) = m == n || contains n ms

-- The timers that glib holds: added, and neither removed nor fired.
abbrev pub pending : Device → Calls → List ℕ
pending dev [] = []
pending dev (add_set_resolution_timeout ∷ log) = dev.timeout_source log ∷ pending dev log
pending dev (remove_source n ∷ log) = erase n (pending dev log)
pending dev (source_fired n ∷ log) = erase n (pending dev log)
pending dev (_ ∷ log) = pending dev log

unfoldable pub store : ℕ → Controller → Controller
store n c = record c { hotplug_event_src = n }

abbrev pub after_work : Option ℕ → Phase
after_work none = worked
after_work (some n) = added n

-- `SetResolutionHandler` up to its store: glib drops the timer, as the handler returns FALSE.
unfoldable pub fire : Device → ℕ → Controller → M (Unit {0})
fire dev id c = do tell (source_fired id); apply_video_port_resolution dev c

-- A thread that clears `_hotplugEventSrc`: the phase before and after, and the change of the system.
pub data Clears (s : System) : Clearing → Clearing → Controller → Calls → Type 0 where
  find : s.controller.hotplug_event_src ≢ 0 → Clears s before found s.controller s.log
  pass : s.controller.hotplug_event_src ≡ 0 → Clears s before after s.controller s.log
  drop : Clears s found removed s.controller (remove_source s.controller.hotplug_event_src ∷ s.log)
  zero_source : Clears s removed after (store 0 s.controller) s.log

-- One step of the resolution thread, of a notification's thread, or of glib's main loop.
pub data Step (dev : Device) (s : System) : System → Type 0 where
  wake :
      s.phase ≡ waiting
      → s.controller.display_event_status ≢ event_max
      → s.controller.thread_exit_flag ≡ false
      → Step dev s (record s { phase = awake s.controller.display_event_status before })
  clear :
      (event : DisplayEvent) (here_at next_at : Clearing) (c : Controller) (log : Calls)
      → s.phase ≡ awake event here_at
      → Clears s here_at next_at c log
      → Step dev s (record s { controller = c; phase = awake event next_at; log = log })
  work :
      (event : DisplayEvent) (c : Controller) (scheduled : Option ℕ) (log : Calls)
      → s.phase ≡ awake event after
      → handle_display_event dev event s.controller s.log ≡ some ((c, scheduled), log)
      → Step dev s (record s { controller = c; phase = after_work scheduled; log = log })
  store_added :
      (n : ℕ)
      → s.phase ≡ added n
      → Step dev s (record s { controller = store n s.controller; phase = worked })
  reset :
      s.phase ≡ worked
      → Step dev s (record s { controller = reset_event s.controller; phase = waiting })
  hot_plug :
      (plugged : Bool) (c : Controller) (log : Calls)
      → on_display_hdmi_hot_plug dev plugged s.controller s.log ≡ some (c, log)
      → Step dev s (record s { controller = c; log = log })
  hdcp_begin :
      s.hdcp ≡ hdcp_idle
      → Step dev s (record s {
        controller = record s.controller { hdcp_authenticated = true };
        hdcp = hdcp_clearing before;
      })
  hdcp_clear :
      (here_at next_at : Clearing) (c : Controller) (log : Calls)
      → s.hdcp ≡ hdcp_clearing here_at
      → Clears s here_at next_at c log
      → Step dev s (record s { controller = c; hdcp = hdcp_clearing next_at; log = log })
  hdcp_end :
      (c : Controller) (log : Calls)
      → s.hdcp ≡ hdcp_clearing after
      → hdcp_passed dev s.controller s.log ≡ some (c, log)
      → Step dev s (record s { controller = c; hdcp = hdcp_idle; log = log })
  hdcp_other :
      (status : HdcpStatus) (c : Controller) (log : Calls)
      → s.hdcp ≡ hdcp_idle
      → status ≢ authenticated
      → handle_hdcp_status dev status s.controller s.log ≡ some (c, log)
      → Step dev s (record s { controller = c; log = log })
  tune :
      (c : Controller) (log : Calls)
      → on_tune_ready dev s.controller s.log ≡ some (c, log)
      → Step dev s (record s { controller = c; log = log })
  mode :
      (new_mode : SysMode) (c : Controller) (log : Calls)
      → sys_mode_change dev new_mode s.controller s.log ≡ some (c, log)
      → Step dev s (record s { controller = c; log = log })
  timer :
      (id : ℕ) (log : Calls)
      → s.firing ≡ false
      → contains id (pending dev s.log) ≡ true
      → fire dev id s.controller s.log ≡ some (tt, log)
      → Step dev s (record s { firing = true; log = log })
  timer_end :
      s.firing ≡ true → Step dev s (record s { controller = store 0 s.controller; firing = false })

pub data Reach (dev : Device) (s : System) : System → Type 0 where
  here : Reach dev s s
  next : {t u : System} → Reach dev s t → Step dev t u → Reach dev s u

-- The guard of the inner loop: `pthread_cond_wait` is called again.
abbrev pub IsBlocked : System → Type 0
IsBlocked s =
    (s.phase ≡ waiting)
    × (s.controller.display_event_status ≡ event_max)
    × (s.controller.thread_exit_flag ≡ false)

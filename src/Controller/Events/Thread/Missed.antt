-- ===== src/Controller/Events/Thread/Missed.antt =====
-- Events that do not reach the resolution thread.
use entservices_devicesettin.Prelude.{◌≡◌, refl, Bool, true, false, some, ap, ◌∙◌}
use entservices_devicesettin.Device.{Device, Calls, bgcolor_none}
use entservices_devicesettin.Device.Log.{Ends, Ends-any, Ends-bind, Ends-if, Ends-pure, Ends-some}
use entservices_devicesettin.Controller.{Controller}
use entservices_devicesettin.Controller.Video.{apply_background_color}
use entservices_devicesettin.Controller.Audio.{set_audio_mode}
use entservices_devicesettin.Controller.Events.{
  note_display_event, on_display_hdmi_hot_plug, on_tune_ready, start_tune_ready,
}
use entservices_devicesettin.Controller.Events.Thread.{
  reset_event, waiting, worked, System, Step, reset, IsBlocked,
}

hot_plug_notes :
    (dev : Device) (plugged : Bool) (c : Controller) (log : Calls)
    → Ends (λ c' _. c' ≡ note_display_event plugged c) (on_display_hdmi_hot_plug dev plugged c log)
unfolding on_display_hdmi_hot_plug
hot_plug_notes dev plugged c log =
    let R = λ (c' : Controller) (l : Calls). c' ≡ note_display_event plugged c in
    Ends-bind (λ _ _. Unit {0}) R (apply_background_color dev c bgcolor_none) _ log (Ends-any _)
      (λ _ l _. Ends-pure R _ l refl)

-- A hot-plug notification that comes when the thread, not asked to end, has done the work of its round,
-- before the second critical section, is lost: the reset takes the thread back into the wait, in the state
-- that it would have without the notification.
pub hot_plug_in_round_lost :
    (dev : Device) (s : System) (plugged : Bool) (c : Controller) (log : Calls)
    → s.phase ≡ worked
    → s.controller.thread_exit_flag ≡ false
    → on_display_hdmi_hot_plug dev plugged s.controller s.log ≡ some (c, log)
    → (u : System) × Step dev (record s { controller = c; log = log }) u
      × IsBlocked u
      × (u.controller ≡ reset_event s.controller)
unfolding reset_event note_display_event
hot_plug_in_round_lost dev s plugged c log p x e =
    let noted : c ≡ note_display_event plugged s.controller =
      Ends-some (λ c' _. c' ≡ note_display_event plugged s.controller) _ c log
        (hot_plug_notes dev plugged s.controller s.log) e in
    (
      record s { controller = reset_event c; phase = waiting; log = log },
      reset p,
      (refl, refl, ap (λ (k : Controller). k.thread_exit_flag) noted ∙ x),
      ap reset_event noted,
    )

tune_keeps :
    (dev : Device) (c : Controller) (log : Calls)
    → Ends
        (λ c' _.
          (c'.display_event_status ≡ c.display_event_status)
          × (c'.thread_exit_flag ≡ c.thread_exit_flag)
          × (c'.tune_ready ≡ true))
        (on_tune_ready dev c log)
unfolding on_tune_ready
tune_keeps dev c log =
    Ends-if R c.tune_ready _ _ log (λ e. Ends-pure R c log (refl, refl, e))
      (λ _.
        Ends-bind (λ _ _. Unit {0}) R (set_audio_mode dev c1) _ log (Ends-any _)
          (λ _ l _. Ends-pure R c1 l (refl, refl, refl)))
  where
    R : Controller → Calls → Type 0
    R c' _ =
        (c'.display_event_status ≡ c.display_event_status)
        × (c'.thread_exit_flag ≡ c.thread_exit_flag)
        × (c'.tune_ready ≡ true)

    c1 : Controller
    c1 = record c { tune_ready = true }

-- The TuneReady event of the system manager signals the resolution thread but leaves it blocked: the
-- loop goes back into the wait, as no display event is noted. `Start` notes one and unblocks it.
pub on_tune_ready-IsBlocked :
    (dev : Device) (s : System) (c : Controller) (log : Calls)
    → IsBlocked s
    → on_tune_ready dev s.controller s.log ≡ some (c, log)
    → (c.tune_ready ≡ true)
      × IsBlocked (record s { controller = c; log = log })
      × ¬ IsBlocked (record s { controller = start_tune_ready true s.controller })
unfolding start_tune_ready
on_tune_ready-IsBlocked dev s c log b e =
    let k = Ends-some _ _ c log (tune_keeps dev s.controller s.log) e in
    (k.2, (b.0, k.0 ∙ b.1, k.1 ∙ b.2), λ n. cc (n.1))

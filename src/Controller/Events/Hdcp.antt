-- ===== src/Controller/Events/Hdcp.antt =====
-- What the HDCP, tune-ready and system-mode handlers leave behind, on every branch.
use entservices_devicesettin.Controller.Events.Thread.{pending, erase}
use entservices_devicesettin.Controller.Events.Thread.Held.{Held, video-Held, color-Held}
use entservices_devicesettin.Prelude.{
  ℕ, List, if◌then◌else◌, ap, ◌≡◌, refl, ◌∙◌, sym, subst, ◌≢◌, true, false, not, ◌||◌, some, [],
  ◌∷◌, ◌==◌, arith, Bool-cases, inl, inr,
}
use entservices_devicesettin.Device.{
  Device, Call, Calls, pure, tell, ◌>>=◌, ◌>>◌, passthrough, bgcolor_none, bgcolor_blue,
  schedule_edid_dump, broadcast_hdcp_state, set_stereo_mode,
}
use entservices_devicesettin.Device.Log.{Ends-if, Ends-pure, Ends, Ends-bind, Stable}
use entservices_devicesettin.Controller.{Controller, normal, eas}
use entservices_devicesettin.Controller.Video.{apply_video_port_resolution, apply_background_color}
use entservices_devicesettin.Controller.Audio.{set_audio_mode, set_eas_audio_mode}
use entservices_devicesettin.Controller.Audio.Footprint.{IsAudioCall, set_eas_audio_mode-Ensures}
use entservices_devicesettin.Controller.Events.{
  hdcp_passed, HdcpStatus, authenticated, authentication_failure, other_status,
  clear_hotplug_source, hdcp_passed_resolution, hdcp_failed_resolution, handle_hdcp_status,
  sys_mode_change, sys_mode_changes,
}

abbrev unless_zero : ℕ → List ℕ → List ℕ
unless_zero n timers = if n == 0 then timers else erase n timers

module _ (dev : Device) where
  -- The controller, the timers that glib holds, and the last two calls.
  abbrev pub HdcpOutcome : HdcpStatus → Controller → Calls → Controller → Calls → Type 0
  HdcpOutcome authenticated c log c' log' =
      (c' ≡ record c {
        hdcp_authenticated = true;
        hotplug_event_src = 0;
        bootup_flag_enabled = false;
      })
      × (pending dev log' ≡ (
          if c.hotplug_event_src == 0
          then pending dev log
          else erase c.hotplug_event_src (pending dev log)))
      × ((rest : Calls) × (log' ≡ broadcast_hdcp_state 1 ∷ schedule_edid_dump ∷ rest))
  HdcpOutcome authentication_failure c log c' log' =
      (c' ≡ record c { hdcp_authenticated = false })
      × (pending dev log' ≡ pending dev log)
      × ((rest : Calls) × (log' ≡ broadcast_hdcp_state 0 ∷ schedule_edid_dump ∷ rest))
  HdcpOutcome other_status c log c' log' = (c' ≡ c) × (log' ≡ broadcast_hdcp_state 1 ∷ log)

  cleared :
      (c : Controller) (log : Calls)
      → Ends
          (λ c' l.
            (c' ≡ record c { hotplug_event_src = 0 })
            × (pending dev l ≡ unless_zero c.hotplug_event_src (pending dev log)))
          (clear_hotplug_source c log)
  unfolding clear_hotplug_source pure ◌>>=◌ tell
  cleared c log = elim (Bool-cases (c.hotplug_event_src == 0)) [
    | inl e ↦ rw e (ground arith, refl)
    | inr e ↦ rw e (refl, refl)
  ]

  -- The resolution step of a passed authentication ends the boot-up and moves no timer.
  passed :
      (c : Controller) (log : Calls)
      → Ends
          (λ c' l.
            (c' ≡ record c { bootup_flag_enabled = false }) × (pending dev l ≡ pending dev log))
          (hdcp_passed_resolution dev c log)
  unfolding hdcp_passed_resolution
  passed c log =
      Ends-if R (not c.ignore_edid || c.bootup_flag_enabled) _ _ log
        (λ _.
          Ends-bind (λ _. Held dev c (pending dev log)) R (apply_video_port_resolution dev c) _ log
            (video-Held dev c (pending dev log) log refl) (λ _ l k. Ends-pure R _ l (refl, k)))
        (λ e. Ends-pure R c log (ground arith, refl))
    where
      R : Controller → Calls → Type 0
      R c' l = (c' ≡ record c { bootup_flag_enabled = false }) × (pending dev l ≡ pending dev log)

  failed :
      (c : Controller) (log : Calls)
      → Ends (λ _ l. pending dev l ≡ pending dev log) (hdcp_failed_resolution dev c log)
  unfolding hdcp_failed_resolution
  failed c log =
      Ends-if (λ _ l. pending dev l ≡ pending dev log) (not c.ignore_edid) _ _ log
        (λ _. video-Held dev c (pending dev log) log refl) (λ _. Ends-pure _ tt log refl)

  -- Authentication sets the HDCP flag, zeroes the hot-plug source, takes the boot-up flag down and removes
  -- the timer that the source named, if it was not zero, and no other; failure clears the HDCP flag and moves
  -- no timer. Both leave the rest of the controller as it was, and end by scheduling the EDID dump and one
  -- broadcast, of 1 and of 0. Any other status changes nothing and makes one call, the broadcast of 1.
  pub handle_hdcp_status-HdcpOutcome :
      (status : HdcpStatus) (c : Controller) (log : Calls)
      → Ends (HdcpOutcome status c log) (handle_hdcp_status dev status c log)
  unfolding handle_hdcp_status hdcp_passed
  handle_hdcp_status-HdcpOutcome authenticated c log =
      let c0 = record c { hdcp_authenticated = true } in
      let xs = unless_zero c.hotplug_event_src (pending dev log) in
      let R = HdcpOutcome authenticated c log in
      Ends-bind (λ c' l. (c' ≡ record c0 { hotplug_event_src = 0 }) × (pending dev l ≡ xs)) R
        (clear_hotplug_source c0) _ log (cleared c0 log)
        (λ c1 log1 k.
          Ends-bind (λ _ l. Unit {0} × Held dev c1 xs l) R
            (apply_background_color dev c1 bgcolor_none) _ log1
            ((color-Held dev c1 xs bgcolor_none).at log1 k.1)
            (λ _ log2 k2.
              Ends-bind
                (λ c' l.
                  (c' ≡ record c1 { bootup_flag_enabled = false })
                  × (pending dev l ≡ pending dev log2))
                R (hdcp_passed_resolution dev c1)
                (λ c2. tell schedule_edid_dump >> (tell (broadcast_hdcp_state 1) >> pure c2)) log2
                (passed c1 log2)
                (λ c2 log3 p.
                  unfold ◌>>=◌ tell pure in
                  (
                    p.0 ∙ ap (λ (x : Controller). record x { bootup_flag_enabled = false }) k.0,
                    p.1 ∙ k2.1,
                    (log3, refl),
                  ))))
  handle_hdcp_status-HdcpOutcome authentication_failure c log =
      let c1 = record c { hdcp_authenticated = false } in
      let R = HdcpOutcome authentication_failure c log in
      Ends-bind (λ _ l. Unit {0} × Held dev c (pending dev log) l) R
        (apply_background_color dev c bgcolor_blue) _ log
        ((color-Held dev c (pending dev log) bgcolor_blue).at log refl)
        (λ _ log1 k.
          Ends-bind (λ _ l. pending dev l ≡ pending dev log1) R (hdcp_failed_resolution dev c1)
            (λ _. tell schedule_edid_dump >> (tell (broadcast_hdcp_state 0) >> pure c1)) log1
            (failed c1 log1) (λ _ log2 p. unfold ◌>>=◌ tell pure in (refl, p ∙ k.1, (log2, refl))))
  handle_hdcp_status-HdcpOutcome other_status c log = unfold ◌>>=◌ tell pure in (refl, refl)

-- While an alert is on, `SetAudioMode` makes no call at all.
pub set_audio_mode_in_eas :
    (dev : Device) (c : Controller) (log : Calls)
    → c.eas_mode ≡ eas
    → set_audio_mode dev c log ≡ some (tt, log)
unfolding set_audio_mode pure
set_audio_mode_in_eas dev c log e = ground arith

-- Passthrough is never set on a log where it was not set before.
abbrev pub NoPassthrough : Calls → Type 0
NoPassthrough [] = Unit
NoPassthrough (set_stereo_mode handle mode ∷ log) = (mode ≢ passthrough) × NoPassthrough log
NoPassthrough (_ ∷ log) = NoPassthrough log

eas_call-NoPassthrough :
    (call : Call) → IsAudioCall (λ m. m ≢ passthrough) call → Stable NoPassthrough call
eas_call-NoPassthrough (set_stereo_mode handle mode) q log h = (q.1, h)
eas_call-NoPassthrough _ q log h = h

-- The change from normal operation to an alert sets no port to passthrough, where none was set to it before,
-- whatever modes the ports report; it leaves the controller in alert mode and else as it was.
pub sys_mode_change_to_eas :
    (dev : Device) (c : Controller) (log : Calls)
    → c.eas_mode ≡ normal
    → NoPassthrough log
    → Ends
        (λ c' log'. (c' ≡ record c { eas_mode = eas }) × NoPassthrough log')
        (sys_mode_change dev eas c log)
unfolding sys_mode_change
sys_mode_change_to_eas dev c log e h =
    let c1 = record c { eas_mode = eas } in
    subst (λ m. Ends (λ c' log'. (c' ≡ c1) × NoPassthrough log') (sys_mode_changes dev m eas c log))
      (sym e)
      (Ends-bind (λ _ l. Unit {0} × NoPassthrough l) (λ c' l. (c' ≡ c1) × NoPassthrough l)
        (set_eas_audio_mode dev c1) (λ _. pure c1) log
        ((set_eas_audio_mode-Ensures dev c1 NoPassthrough eas_call-NoPassthrough).at log h)
        (λ _ l k. unfold pure in (refl, k.1)))

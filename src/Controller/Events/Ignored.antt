-- ===== src/Controller/Events/Ignored.antt =====
-- HDCP notifications while the EDID is ignored.
use entservices_devicesettin.Prelude.{
  ℕ, suc, ◌+◌, ◌≤◌, ◌≡◌, refl, true, false, not, ◌||◌, List, [], ◌∷◌, ◌==◌, if◌then◌else◌, arith,
}
use entservices_devicesettin.Device.{
  Device, M, Call, Calls, pure, tell, ◌>>=◌, ◌>>◌, bgcolor_none, bgcolor_blue, BackgroundColor,
  hdmi, schedule_edid_dump, broadcast_hdcp_state, set_video_port_resolution,
}
use entservices_devicesettin.Device.Log.{
  Ends, Ends-bind, Ends-if, Ends-mono, Ends-pure, Ensures, Any, Stable, Ensures-bind, Ensures-if,
  Ensures-pure, Ensures-tell,
}
use entservices_devicesettin.Controller.{Controller}
use entservices_devicesettin.Controller.Video.{apply_video_port_resolution, apply_background_color}
use entservices_devicesettin.Controller.Video.Footprint.{
  IsVideoQuery, get_video_port_handle-Ensures, apply_video_port_resolution-Leads,
}
use entservices_devicesettin.Controller.Video.Sets.{resolution_sets}
use entservices_devicesettin.Controller.Events.{
  hdcp_passed, HdcpStatus, authenticated, authentication_failure, other_status,
  clear_hotplug_source, hdcp_passed_resolution, hdcp_failed_resolution, handle_hdcp_status,
}

-- The resolutions that may still be set.
abbrev allowance : Controller → ℕ
allowance c = if c.bootup_flag_enabled then 1 else 0

-- The EDID is ignored, and what was set and may still be set is at most n.
abbrev Within : ℕ → Controller → Calls → Type 0
Within n c log = (c.ignore_edid ≡ true) × (resolution_sets log + allowance c ≤ n)

module _ (dev : Device) (k : ℕ) where
  abbrev Sets : Calls → Type 0
  Sets log = resolution_sets log ≡ k

  query-Sets : (call : Call) → IsVideoQuery call → Stable Sets call
  query-Sets (set_video_port_resolution handle res) q log h = absurd q
  query-Sets _ q log h = h

  color-Sets :
      (c : Controller) (color : BackgroundColor)
      → Ensures Sets Any (apply_background_color dev c color)
  unfolding apply_background_color
  color-Sets c color =
      Ensures-bind Any (get_video_port_handle-Ensures dev c Sets query-Sets hdmi) (λ handle _.
        Ensures-if (handle == 0) (λ _. Ensures-pure _ tt)
          (λ _.
            Ensures-if c.device_settings (λ _. Ensures-tell _ (λ log h. h))
              (λ _. Ensures-pure _ tt)))

module _ (dev : Device) (n : ℕ) where
  color-Within :
      {A : Type 0} (c : Controller) (color : BackgroundColor) (R : A → Calls → Type 0)
      (f : Unit {0} → M A) (log : Calls)
      → Within n c log
      → ((l : Calls) → Within n c l → Ends R (f tt l))
      → Ends R ((apply_background_color dev c color >>= f) log)
  color-Within c color R f log h next =
      Ends-bind (λ _ l. Unit {0} × Sets dev (resolution_sets log) l) R
        (apply_background_color dev c color) f log
        ((color-Sets dev (resolution_sets log) c color).at log refl)
        (λ _ l k. next l (h.0, omega (arith, k.1)))

  clear-Within :
      (c : Controller) (log : Calls) → Within n c log → Ends (Within n) (clear_hotplug_source c log)
  unfolding clear_hotplug_source pure tell ◌>>=◌
  clear-Within c log h = ground arith

  passed-Within :
      (c : Controller) (log : Calls)
      → Within n c log
      → Ends (Within n) (hdcp_passed_resolution dev c log)
  unfolding hdcp_passed_resolution
  passed-Within c log h =
      Ends-if (Within n) (not c.ignore_edid || c.bootup_flag_enabled) _ _ log
        (λ e.
          Ends-bind (λ _ l. resolution_sets l ≤ suc (resolution_sets log)) (Within n)
            (apply_video_port_resolution dev c) _ log
            ((apply_video_port_resolution-Leads dev c (Sets dev (resolution_sets log))
                (λ l. resolution_sets l ≤ suc (resolution_sets log))
                (query-Sets dev (resolution_sets log)) (λ _ _ _ l s. omega arith)
                (λ l s. omega arith)).at
              log refl)
            (λ _ l k. Ends-pure (Within n) _ l (h.0, ground arith)))
        (λ _. Ends-pure (Within n) c log h)

  failed-Within :
      (c : Controller) (log : Calls)
      → Within n c log
      → Ends (λ _ l. Within n c l) (hdcp_failed_resolution dev c log)
  unfolding hdcp_failed_resolution
  failed-Within c log h =
      Ends-if (λ _ l. Within n c l) (not c.ignore_edid) _ _ log (λ e. absurd (ground arith))
        (λ _. Ends-pure (λ _ l. Within n c l) tt log h)

  hdcp-Within :
      (status : HdcpStatus) (c : Controller) (log : Calls)
      → Within n c log
      → Ends (Within n) (handle_hdcp_status dev status c log)
  unfolding handle_hdcp_status hdcp_passed
  hdcp-Within authenticated c log h =
      let c0 = record c { hdcp_authenticated = true } in
      Ends-bind (Within n) (Within n) (clear_hotplug_source c0) _ log (clear-Within c0 log h)
        (λ c1 l1 h1. color-Within c1 bgcolor_none (Within n) _ l1 h1 (λ l2 h2.
          Ends-bind (Within n) (Within n) (hdcp_passed_resolution dev c1)
            (λ c2. tell schedule_edid_dump >> (tell (broadcast_hdcp_state 1) >> pure c2)) l2
            (passed-Within c1 l2 h2) (λ c2 l3 h3. unfold ◌>>=◌ tell pure in h3)))
  hdcp-Within authentication_failure c log h =
      let c1 = record c { hdcp_authenticated = false } in
      color-Within c bgcolor_blue (Within n) _ log h (λ l2 h2.
        Ends-bind (λ _ l. Within n c1 l) (Within n) (hdcp_failed_resolution dev c1)
          (λ _. tell schedule_edid_dump >> (tell (broadcast_hdcp_state 0) >> pure c1)) l2
          (failed-Within c1 l2 h2) (λ _ l3 h3. unfold ◌>>=◌ tell pure in h3))
  hdcp-Within other_status c log h = unfold ◌>>=◌ tell pure in h

-- A run of HDCP notifications.
pub handle_statuses : Device → List HdcpStatus → Controller → M Controller
handle_statuses dev [] c = pure c
handle_statuses dev (status ∷ rest) c = handle_hdcp_status dev status c >>= handle_statuses dev rest

statuses-Within :
    (dev : Device) (n : ℕ) (statuses : List HdcpStatus) (c : Controller) (log : Calls)
    → Within n c log
    → Ends (Within n) (handle_statuses dev statuses c log)
unfolding handle_statuses
statuses-Within dev n [] c log h = Ends-pure (Within n) c log h
statuses-Within dev n (status ∷ rest) c log h =
    Ends-bind (Within n) (Within n) (handle_hdcp_status dev status c) _ log
      (hdcp-Within dev n status c log h) (λ c' l h'. statuses-Within dev n rest c' l h')

-- While the EDID is ignored, a run of HDCP notifications of any length sets a resolution at most once,
-- and not at all when the boot-up flag is already down.
pub handle_statuses_ignored :
    (dev : Device) (statuses : List HdcpStatus) (c : Controller) (log : Calls)
    → c.ignore_edid ≡ true
    → Ends
        (λ _ log'.
          resolution_sets log' ≤ resolution_sets log + (if c.bootup_flag_enabled then 1 else 0))
        (handle_statuses dev statuses c log)
handle_statuses_ignored dev statuses c log e =
    let n = resolution_sets log + allowance c in
    Ends-mono {P = Within n} (handle_statuses dev statuses c log)
      (statuses-Within dev n statuses c log (e, omega arith)) (λ c' l h. omega (arith, h.1))

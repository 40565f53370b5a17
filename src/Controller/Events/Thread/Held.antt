-- ===== src/Controller/Events/Thread/Held.antt =====
-- The calls that leave every timer where it is.
use entservices_devicesettin.Prelude.{ℕ, ◌≡◌, List, ◌==◌}
use entservices_devicesettin.Device.{
  Device, Call, Calls, add_set_resolution_timeout, remove_source, source_fired, StereoMode,
  BackgroundColor, hdmi, component, bb,
}
use entservices_devicesettin.Device.Log.{
  Ends, Ensures, Any, Stable, Ensures-bind, Ensures-if, Ensures-pure, Ensures-tell,
}
use entservices_devicesettin.Controller.{Controller, is_component_port_present}
use entservices_devicesettin.Controller.Video.{apply_video_port_resolution, apply_background_color}
use entservices_devicesettin.Controller.Video.Footprint.{
  IsVideoQuery, get_video_port_handle-Ensures, apply_video_port_resolution-Leads,
}
use entservices_devicesettin.Controller.Audio.Footprint.{IsAudioCall}
use entservices_devicesettin.Controller.Events.Thread.{pending}

-- No other call moves a timer.
module _ (dev : Device) (c : Controller) (xs : List ℕ) where
  abbrev pub Held : Calls → Type 0
  Held log = pending dev log ≡ xs

  pub query-Held : (call : Call) → IsVideoQuery call → Stable Held call
  query-Held add_set_resolution_timeout q log h = absurd q
  query-Held (remove_source n) q log h = absurd q
  query-Held (source_fired n) q log h = absurd q
  query-Held _ q log h = h

  pub audio-Held : (W : StereoMode → Type 0) (call : Call) → IsAudioCall W call → Stable Held call
  audio-Held W add_set_resolution_timeout q log h = absurd q
  audio-Held W (remove_source n) q log h = absurd q
  audio-Held W (source_fired n) q log h = absurd q
  audio-Held W _ q log h = h

  pub video-Held :
      (log : Calls) → Held log → Ends (λ _. Held) (apply_video_port_resolution dev c log)
  video-Held =
      (apply_video_port_resolution-Leads dev c Held Held query-Held (λ _ _ _ log h. h)
        (λ log h. h)).at

  pub color-Held : (color : BackgroundColor) → Ensures Held Any (apply_background_color dev c color)
  unfolding apply_background_color
  color-Held color =
      Ensures-bind Any (get_video_port_handle-Ensures dev c Held query-Held hdmi) (λ handle _.
        Ensures-if (handle == 0) (λ _. Ensures-pure _ tt)
          (λ _.
            Ensures-if c.device_settings (λ _. Ensures-tell _ (λ log h. h))
              (λ _. Ensures-pure _ tt)))

  pub component-Held : Ensures Held Any (is_component_port_present dev c)
  unfolding is_component_port_present
  component-Held =
      Ensures-bind Any (get_video_port_handle-Ensures dev c Held query-Held component) (λ handle _.
        Ensures-if (handle == 0)
          (λ _.
            Ensures-bind Any (get_video_port_handle-Ensures dev c Held query-Held bb)
              (λ h _. Ensures-pure _ tt))
          (λ _. Ensures-pure _ tt))

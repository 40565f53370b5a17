-- ===== src/Controller/Video/Footprint.antt =====
-- Which calls `SetVideoPortResolution` makes, and what it sets.
use entservices_devicesettin.Prelude.{
  ℕ, ◌≡◌, ◌≢◌, Bool, true, false, not, ◌||◌, List, [], ◌∷◌, ◌==◌, arith,
}
use entservices_devicesettin.Device.{
  Device, Reply, Call, Calls, VideoPortType, hdmi, component, bb, rf, port_type, error_none,
  VideoPortResolution, DisplayEdid, get_video_port, is_video_port_display_connected,
  get_video_port_resolution, set_video_port_resolution, get_display, get_display_edid,
}
use entservices_devicesettin.Device.Log.{
  Ensures, Any, Stable, Ensures-bind, Ensures-if, Ensures-pure, Ensures-ask, Leads, Leads-bind,
  Leads-if, Leads-pure, Leads-abort, Leads-tell,
}
use entservices_devicesettin.Resolution.Select.{Choice, fault, invalid, valid}
use entservices_devicesettin.Controller.{Controller, get_video_port_handle, is_hdmi_connected}
use entservices_devicesettin.Controller.Video.{
  set_chosen, set_choice, edid_arrives, set_on_port, set_resolution, set_first_of, set_connected,
  apply_video_port_resolution,
}

-- The calls by which `SetVideoPortResolution` asks.
abbrev pub IsVideoQuery : Call → Type 0
IsVideoQuery (get_video_port port index) = Unit
IsVideoQuery (is_video_port_display_connected handle) = Unit
IsVideoQuery (get_video_port_resolution handle) = Unit
IsVideoQuery (get_display port index) = Unit
IsVideoQuery (get_display_edid handle) = Unit
IsVideoQuery _ = ⊥

-- For every statement I about logs that the queries keep.
module _ (dev : Device) (c : Controller) (I : Calls → Type 0)
    (keep : (call : Call) → IsVideoQuery call → Stable I call) where
  pub get_video_port_handle-Ensures :
      (port : VideoPortType) → Ensures I Any (get_video_port_handle dev c port)
  unfolding get_video_port_handle
  get_video_port_handle-Ensures port =
      Ensures-if c.device_settings
        (λ _. Ensures-bind Any (Ensures-ask _ _ (keep _ tt) (λ log. tt)) (λ r _. Ensures-pure _ tt))
        (λ _. Ensures-pure _ tt)

  is_hdmi_connected-Ensures : Ensures I Any (is_hdmi_connected dev c)
  unfolding is_hdmi_connected
  is_hdmi_connected-Ensures =
      Ensures-if c.device_settings
        (λ _. Ensures-bind Any (get_video_port_handle-Ensures hdmi) (λ handle _.
          Ensures-if (handle == 0) (λ _. Ensures-pure _ tt)
            (λ _.
              Ensures-bind Any (Ensures-ask _ _ (keep _ tt) (λ log. tt))
                (λ r _. Ensures-pure _ tt))))
        (λ _. Ensures-pure _ tt)

-- For statements I and J such that the queries keep I, and one resolution set leads from I to J.
module _ (dev : Device) (c : Controller) (I J : Calls → Type 0)
    (keep : (call : Call) → IsVideoQuery call → Stable I call)
    (write : (handle : ℕ) (res : VideoPortResolution)
      → handle ≢ 0
      → (log : Calls) → I log
      → J (set_video_port_resolution handle res ∷ log))
    (still : (log : Calls) → I log → J log) where
  set_chosen-Leads :
      (handle : ℕ) (res : VideoPortResolution)
      → handle ≢ 0
      → Leads I J (set_chosen dev c handle res)
  unfolding set_chosen
  set_chosen-Leads handle res h =
      Leads-if c.device_settings (λ _. Leads-tell _ (write handle res h)) (λ _. Leads-pure _ still)

  set_choice-Leads :
      (handle : ℕ) (res : VideoPortResolution) (choice : Choice)
      → handle ≢ 0
      → Leads I J (set_choice dev c handle res choice)
  unfolding set_choice
  set_choice-Leads handle res fault h = Leads-abort
  set_choice-Leads handle res invalid h = Leads-pure _ still
  set_choice-Leads handle res (valid n) h = set_chosen-Leads handle (record res { name = n }) h

  edid_arrives-Leads :
      (handle : ℕ) (res : VideoPortResolution) (r : Reply DisplayEdid)
      → handle ≢ 0
      → Leads I J (edid_arrives dev c handle res r)
  unfolding edid_arrives
  edid_arrives-Leads handle res r h =
      Leads-if (r.result == error_none)
        (λ _.
          Leads-if (r.value.num_of_supported_resolution == 0 || not r.value.hdmi_device_type)
            (λ _. Leads-pure _ still) (λ _. set_choice-Leads handle res _ h))
        (λ _. Leads-pure _ still)

  set_on_port-Leads :
      (port : VideoPortType) (handle : ℕ) (res : VideoPortResolution)
      → handle ≢ 0
      → Leads I J (set_on_port dev c port handle res)
  unfolding set_on_port
  set_on_port-Leads hdmi handle res h =
      Leads-if c.device_settings
        (λ _. Leads-bind (Ensures-ask _ _ (keep _ tt) (λ log. tt)) (λ r.
          Leads-if (not (r.result == error_none) || r.value == 0) (λ _. Leads-pure _ still)
            (λ _.
              Leads-bind (Ensures-ask _ _ (keep _ tt) (λ log. tt))
                (λ e. edid_arrives-Leads handle res e h))))
        (λ _. Leads-pure _ still)
  set_on_port-Leads component handle res h = set_chosen-Leads handle res h
  set_on_port-Leads bb handle res h = set_chosen-Leads handle res h
  set_on_port-Leads rf handle res h = set_chosen-Leads handle res h
  set_on_port-Leads (port_type t) handle res h = Leads-pure _ still

  set_resolution-Leads :
      (handle : ℕ) (port : VideoPortType) → Leads I J (set_resolution dev c handle port)
  unfolding set_resolution
  set_resolution-Leads handle port =
      Leads-if (handle == 0) (λ _. Leads-pure _ still)
        (λ e.
          Leads-if c.device_settings
            (λ _. Leads-bind (Ensures-ask _ _ (keep _ tt) (λ log. tt)) (λ r.
              Leads-if (r.result == error_none)
                (λ _. set_on_port-Leads port handle r.value (some_handle e))
                (λ _. Leads-pure _ still)))
            (λ _. set_on_port-Leads port handle _ (some_handle e)))
    where
      some_handle : handle == 0 ≡ false → handle ≢ 0
      some_handle e z = ground arith

  set_first_of-Leads : (ports : List VideoPortType) → Leads I J (set_first_of dev c ports)
  unfolding set_first_of
  set_first_of-Leads [] = Leads-pure _ still
  set_first_of-Leads (port ∷ rest) =
      let others = set_first_of-Leads rest in
      Leads-bind (get_video_port_handle-Ensures dev c I keep port)
        (λ handle. Leads-if (handle == 0) (λ _. others) (λ _. set_resolution-Leads handle port))

  set_connected-Leads :
      (handle : ℕ) (connected : Bool) → Leads I J (set_connected dev c handle connected)
  unfolding set_connected
  set_connected-Leads handle true = set_resolution-Leads handle hdmi
  set_connected-Leads handle false = set_first_of-Leads (component ∷ bb ∷ rf ∷ [])

  -- `SetVideoPortResolution` makes queries, then sets at most one resolution, on a port with a handle.
  pub apply_video_port_resolution-Leads : Leads I J (apply_video_port_resolution dev c)
  unfolding apply_video_port_resolution
  apply_video_port_resolution-Leads =
      Leads-bind (get_video_port_handle-Ensures dev c I keep hdmi) (λ handle.
        Leads-if (handle == 0) (λ _. Leads-pure _ still)
          (λ _.
            Leads-bind (is_hdmi_connected-Ensures dev c I keep)
              (λ connected. set_connected-Leads handle connected)))

-- ===== src/Power/Handlers/Standby.antt =====
-- SetStandbyVideoState, read back.
use entservices_devicesettin.Prelude.{
  ℕ, ◌≤◌, ◌≡◌, refl, ap, ◌∙◌, ◌⊎◌, Bool, true, false, not, Option, none, some, Bytes, length, ◌==◌,
}
use entservices_devicesettin.Device.{Device}
use entservices_devicesettin.Device.Log.{Any}
use entservices_devicesettin.Device.Returns.{
  Yields, Yields-bind, Yields-if, Yields-pure, Yields-mono,
}
use entservices_devicesettin.Power.{VideoPortEntry, PortNames, Listener}
use entservices_devicesettin.Power.Standby.{has_setting, get_video_port_standby_setting}
use entservices_devicesettin.Power.Standby.Laws.{has_room, get-store_standby_setting}
use entservices_devicesettin.Power.Ports.Tables.{
  is_device_settings_ready_same, configure_video_port_same,
}
use entservices_devicesettin.Power.Handlers.{
  Handler, is_neither_on_nor_off, configure_resolved, resolve_if_ready, apply_immediately,
  with_setting, resolve_entry, set_standby_video_state, get_standby_video_state,
}

module _ (dev : Device) (names : PortNames) (led_sync_in_bootup tv in_eas : Bool) where
  abbrev Unchanged : Listener → Bool × Listener → Type 0
  Unchanged p r = r.1.standby_video_port_setting ≡ p.standby_video_port_setting

  configure_resolved_same :
      (e : Option VideoPortEntry) (enable : Bool) (p : Listener)
      → Yields Any Any
          (Unchanged p)
          (configure_resolved dev names led_sync_in_bootup tv in_eas e enable p)
  unfolding configure_resolved
  configure_resolved_same none enable p = Yields-pure _ refl
  configure_resolved_same (some e) enable p =
      Yields-bind (configure_video_port_same dev names e enable p) (λ r k. Yields-pure _ k)

  apply_immediately_same :
      (port : Bytes) (enable : Bool) (p : Listener)
      → Yields Any Any
          (Unchanged p)
          (apply_immediately dev names led_sync_in_bootup tv in_eas port enable p)
  unfolding apply_immediately resolve_if_ready
  apply_immediately_same port enable p =
      Yields-bind (is_device_settings_ready_same dev names p) (λ r k. go r k)
    where
      go :
          (r : Bool × Listener)
          → Unchanged p r
          → Yields Any Any
              (Unchanged p)
              (resolve_if_ready dev names led_sync_in_bootup tv in_eas port enable r)
      go (false, q) k = Yields-pure _ k
      go (true, q) k =
          Yields-mono (configure_resolved_same (resolve_entry q.video_port_entries port) enable q)
            (λ r e. e ∙ k)

  -- SetStandbyVideoState always returns, and GetStandbyVideoState for the same port then answers what was
  -- set, in every power state and on whatever replies: the port's name fits a slot, and the table has a
  -- slot for it.
  pub set_standby_video_state-get :
      (port : Bytes) (is_enabled : ℕ) (h : Handler)
      → length port ≤ 15
      → (has_setting h.listener.standby_video_port_setting port ≡ true)
        ⊎ (has_room h.listener.standby_video_port_setting ≡ true)
      → Yields Any Any
          (λ r.
            get_standby_video_state dev names led_sync_in_bootup tv in_eas port r.1
            ≡ not (is_enabled == 0))
          (set_standby_video_state dev names led_sync_in_bootup tv in_eas port is_enabled h)
  unfolding set_standby_video_state get_standby_video_state
  set_standby_video_state-get port is_enabled h fits room =
      Yields-if (is_neither_on_nor_off dev names led_sync_in_bootup tv in_eas h.cur_state)
        (λ _.
          Yields-bind (apply_immediately_same port (is_enabled == 1) with)
            (λ r e. Yields-pure _ (ap (λ t. get_video_port_standby_setting t port) e ∙ stored)))
        (λ _. Yields-pure _ stored)
    where
      with : Listener
      with = with_setting dev names led_sync_in_bootup tv in_eas port is_enabled h.listener

      stored :
          get_video_port_standby_setting with.standby_video_port_setting port
          ≡ not (is_enabled == 0)
      stored =
          get-store_standby_setting h.listener.standby_video_port_setting port
            (not (is_enabled == 0)) fits room

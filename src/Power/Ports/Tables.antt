-- ===== src/Power/Ports/Tables.antt =====
-- The standby table under the operations on single ports.
use entservices_devicesettin.Prelude.{
  ◌≡◌, refl, Bool, true, false, not, ◌&&◌, ◌==◌, Bool-cases, inl, inr,
}
use entservices_devicesettin.Device.{Device, Reply, PortConfigs, error_none}
use entservices_devicesettin.Device.Log.{Any}
use entservices_devicesettin.Device.Returns.{
  Yields, Yields-bind, Yields-if, Yields-pure, Yields-ask,
}
use entservices_devicesettin.Power.{
  VideoPortEntry, PortNames, Listener, is_nil, cache_configs, refresh_port_configuration_cache,
  find_instance, refresh_if_empty, is_device_settings_ready,
}
use entservices_devicesettin.Power.Standby.{Table}
use entservices_devicesettin.Power.Ports.{enable_by_handle, video_ready, configure_video_port}

module _ (dev : Device) (names : PortNames) where
  abbrev table : Listener → Table
  table p = p.standby_video_port_setting

  abbrev Unchanged : {A : Type 0} → Listener → A × Listener → Type 0
  Unchanged p r = table r.1 ≡ table p

  cache_same :
      (p : Listener) (r : Reply PortConfigs) → table (cache_configs dev names p r) ≡ table p
  unfolding cache_configs
  cache_same p r = elim (Bool-cases (r.result == error_none)) [
    | inl e ↦ rw e refl
    | inr e ↦ rw e refl
  ]

  refresh_same :
      (p : Listener)
      → Yields Any Any (λ q. table q ≡ table p) (refresh_port_configuration_cache dev names p)
  unfolding refresh_port_configuration_cache
  refresh_same p =
      Yields-bind {Q = Any} (Yields-ask _ _ (λ _ _. (tt, tt)))
        (λ r _. Yields-pure _ (cache_same p r))

  find_instance_same :
      (p : Listener) (present : Bool)
      → Yields Any Any (Unchanged p) (find_instance dev names p present)
  unfolding find_instance
  find_instance_same p false = Yields-pure _ refl
  find_instance_same p true =
      Yields-bind (refresh_same (record p { device_settings = true })) (λ q e. Yields-pure _ e)

  -- Finding out whether the implementation is there keeps the standby table.
  pub is_device_settings_ready_same :
      (p : Listener)
      → Yields Any Any
          (λ r. r.1.standby_video_port_setting ≡ p.standby_video_port_setting)
          (is_device_settings_ready dev names p)
  unfolding is_device_settings_ready refresh_if_empty
  is_device_settings_ready_same p =
      Yields-if p.device_settings
        (λ _.
          Yields-if (is_nil p.video_port_entries && is_nil p.audio_port_entries)
            (λ _. Yields-bind (refresh_same p) (λ q e. Yields-pure _ e)) (λ _. Yields-pure _ refl))
        (λ _. record { at = λ log i. (find_instance_same p (dev.instance_present log)).at log i })

  pub configure_video_port_same :
      (e : VideoPortEntry) (enable : Bool) (p : Listener)
      → Yields Any Any
          (λ r. r.1.standby_video_port_setting ≡ p.standby_video_port_setting)
          (configure_video_port dev names e enable p)
  unfolding configure_video_port video_ready enable_by_handle
  configure_video_port_same e enable p =
      Yields-bind (is_device_settings_ready_same p) (λ r k. go r k)
    where
      go :
          (r : Bool × Listener)
          → Unchanged p r
          → Yields Any Any (Unchanged p) (video_ready dev names e enable r)
      go (false, q) k = Yields-pure _ k
      go (true, q) k = Yields-bind {Q = Any} (Yields-ask _ _ (λ _ _. (tt, tt))) (λ r _.
          Yields-bind {Q = Any}
            (Yields-if (r.result == error_none && not (r.value == 0))
              (λ _. Yields-ask _ _ (λ _ _. (tt, tt))) (λ _. Yields-pure _ tt))
            (λ _ _. Yields-pure _ k))

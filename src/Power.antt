-- ===== src/Power.antt =====
-- plugin/DSPwrEventListener.cpp: the listener's state, and its access to the DeviceSettings
-- implementation.
pub mod Standby
pub mod Ports
pub mod Handlers
pub mod Connection
pub mod Events
use entservices_devicesettin.Prelude.{
  ℕ, Bool, true, false, ◌&&◌, List, [], ◌∷◌, map, Bytes, ◌==◌, if◌then◌else◌,
}
use entservices_devicesettin.Device.{
  Device, Reply, PortConfigs, M, pure, ask, ◌>>=◌, VideoPortType, AudioPortType, error_none,
  get_device_setting_configs,
}
use Standby.{Table}

-- Exchange::IPowerManager::PowerState.
pub data PowerState : Type 0 where
  power_unknown power_off power_standby power_on power_light_sleep power_deep_sleep : PowerState

abbrev pub is_on : PowerState → Bool
is_on power_on = true
is_on _ = false

abbrev pub is_off : PowerState → Bool
is_off power_off = true
is_off _ = false

-- The member `typeName`, which nothing reads, is left out.
pub record VideoPortEntry : Type 0 where
  pub type : VideoPortType
  pub index : ℕ
  pub name : Bytes

pub record AudioPortEntry : Type 0 where
  pub type : AudioPortType
  pub index : ℕ
  pub name : Bytes

-- getVideoPortName and getAudioPortName, which the interface helpers define.
pub record PortNames : Type 0 where
  pub video : VideoPortType → ℕ → Bytes
  pub audio : AudioPortType → ℕ → Bytes

-- `device_settings`: the pointer `_deviceSettings` is not null.
pub record Listener : Type 0 where
  pub device_settings : Bool
  pub video_port_entries : List VideoPortEntry
  pub audio_port_entries : List AudioPortEntry
  pub standby_video_port_setting : Table

abbrev is_nil {ℓ} : {A : Type ℓ} → List A → Bool
is_nil [] = true
is_nil (x ∷ xs) = false

module _ (dev : Device) (names : PortNames) where
  abbrev video_entry : VideoPortType × ℕ → VideoPortEntry
  video_entry (t, i) = record { type = t; index = i; name = names.video t i }

  abbrev audio_entry : AudioPortType × ℕ → AudioPortEntry
  audio_entry (t, i) = record { type = t; index = i; name = names.audio t i }

  -- Both vectors are replaced, unless the call fails.
  cache_configs : Listener → Reply PortConfigs → Listener
  cache_configs p r =
      if r.result == error_none
      then record p {
        video_port_entries = map video_entry r.value.video_ports;
        audio_port_entries = map audio_entry r.value.audio_ports;
      }
      else p

  unfoldable pub refresh_port_configuration_cache : Listener → M Listener
  unfolding cache_configs
  refresh_port_configuration_cache p = do
    r ← ask dev.device_setting_configs get_device_setting_configs
    pure (cache_configs p r)

  -- The instance is looked up while the pointer is null.
  find_instance : Listener → Bool → M (Bool × Listener)
  find_instance p false = pure (false, p)
  find_instance p true = do
    q ← refresh_port_configuration_cache (record p { device_settings = true })
    pure (true, q)

  refresh_if_empty : Listener → M (Bool × Listener)
  refresh_if_empty p =
      if is_nil p.video_port_entries && is_nil p.audio_port_entries
      then (do q ← refresh_port_configuration_cache p; pure (true, q))
      else pure (true, p)

  -- IsDeviceSettingsReady(true): every caller passes true.
  unfoldable pub is_device_settings_ready : Listener → M (Bool × Listener)
  unfolding find_instance refresh_if_empty
  is_device_settings_ready p =
      if p.device_settings
      then refresh_if_empty p
      else (λ log. find_instance p (dev.instance_present log) log)

-- ===== src/Tests/Standby.antt =====
-- The power listener on concrete inputs.
use entservices_devicesettin.Prelude.{
  ◌≡◌, refl, inl, Bool, true, false, none, some, [], ◌∷◌, ◌++◌, Bytes, codes, arith,
}
use entservices_devicesettin.Device.{hdmi, component, spdif, error_none}
use entservices_devicesettin.Device.Log.{Any}
use entservices_devicesettin.Device.Returns.{Yields}
use entservices_devicesettin.Power.{power_off, power_standby, power_on, PortNames, Listener}
use entservices_devicesettin.Power.Standby.{
  Table, to_lower, strncase_eq, has_setting, get_video_port_standby_setting,
}
use entservices_devicesettin.Power.Ports.{set_av_ports_power_state}
use entservices_devicesettin.Power.Ports.Switching.{Switched, set_av_ports_power_state-Switched}
use entservices_devicesettin.Power.Ports.Requests.{Asked, set_av_ports_power_state-Yields}
use entservices_devicesettin.Power.Handlers.{
  Handler, set_standby_video_state, get_standby_video_state,
}
use entservices_devicesettin.Power.Handlers.Standby.{set_standby_video_state-get}
use entservices_devicesettin.Power.Connection.{
  interface_with, establish_connection, failures, unconnected, establish_connection_first,
}
use entservices_devicesettin.Power.Events.{
  PowerEvent, Queue, initial, put, push, Reach, start, step,
}
use entservices_devicesettin.Power.Events.Fifo.{InOrder, Reach-InOrder}
use entservices_devicesettin.Power.Events.Wakeup.{IsAwake, Reach-IsAwake}
use entservices_devicesettin.Tests.Samples.{sample_device}

abbrev hdmi0 : Bytes
hdmi0 = codes "HDMI0"

abbrev component0 : Bytes
component0 = codes "COMPONENT0"

abbrev sample_names : PortNames
sample_names = record { video = λ type index. hdmi0; audio = λ type index. codes "SPDIF0" }

abbrev hdmi_table : Table
hdmi_table = record { port = codes "hdmi0"; is_enabled = true } ∷ []

abbrev sample_listener : Listener
sample_listener = record {
  device_settings = true;
  video_port_entries =
      record { type = hdmi; index = 0; name = hdmi0 }
      ∷ record { type = component; index = 0; name = component0 }
      ∷ [];
  audio_port_entries = record { type = spdif; index = 0; name = codes "SPDIF0" } ∷ [];
  standby_video_port_setting = hdmi_table;
}

set_av_ports_power_state-Switched_example :
    Yields
      (Switched false)
      (Switched false)
      Any
      (set_av_ports_power_state sample_device sample_names false power_standby sample_listener)
set_av_ports_power_state-Switched_example =
    set_av_ports_power_state-Switched sample_device sample_names false power_standby sample_listener

set_av_ports_power_state-Yields_example :
    Yields
      (Asked [] [])
      (Asked ((component, 0) ∷ []) ((spdif, 0) ∷ []))
      (λ q. q ≡ sample_listener)
      (set_av_ports_power_state sample_device sample_names false power_standby sample_listener)
unfolding get_video_port_standby_setting strncase_eq to_lower
set_av_ports_power_state-Yields_example =
    set_av_ports_power_state-Yields sample_device sample_names sample_listener false power_standby
      [] [] (refl, refl)

abbrev sample_handler : Handler
sample_handler = record { ux = none; listener = sample_listener; cur_state = power_standby }

set_standby_video_state-get_example :
    Yields Any Any
      (λ (r : Bool × Handler).
        get_standby_video_state sample_device sample_names false false false hdmi0 r.1 ≡ false)
      (set_standby_video_state sample_device sample_names false false false hdmi0 0 sample_handler)
unfolding has_setting strncase_eq to_lower
set_standby_video_state-get_example =
    set_standby_video_state-get sample_device sample_names false false false hdmi0 0 sample_handler
      (omega arith) (inl refl)

establish_connection_first_example :
    establish_connection
      (failures 2 ++ (interface_with (record { result = error_none; value = power_on }) ∷ []))
      (unconnected power_off 0)
    ≡ some (record { plugin = true; registered = true; cur_state = power_on; registrations = 1 }, 3)
establish_connection_first_example =
    establish_connection_first 2 (record { result = error_none; value = power_on }) [] power_off 0

abbrev to_standby : PowerEvent
to_standby = record { current_state = power_on; new_state = power_standby }

abbrev one_event : Queue
one_event = push to_standby initial

one_event_reached : Reach one_event
one_event_reached = step initial one_event start (put to_standby initial)

Reach-InOrder_example : InOrder one_event
Reach-InOrder_example = Reach-InOrder one_event one_event_reached

Reach-IsAwake_example : IsAwake one_event
Reach-IsAwake_example = Reach-IsAwake one_event one_event_reached

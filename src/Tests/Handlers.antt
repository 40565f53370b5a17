-- ===== src/Tests/Handlers.antt =====
-- The controller's handlers on a device with an HDMI sink.
use entservices_devicesettin.Prelude.{
  if◌then◌else◌, ◌+◌, codes, arith, ◌≡◌, ◌≤◌, refl, ◌⊎◌, true, false, [], ◌∷◌,
}
use entservices_devicesettin.Device.{
  tell, pure, ask, ◌>>=◌, set_background_color, get_video_port, bgcolor_none, hdmi, component,
  Calls, add_set_resolution_timeout, source_fired, remove_source, set_video_port_resolution,
  get_display_edid, get_display, get_video_port_resolution, is_video_port_display_connected,
}
use entservices_devicesettin.Device.Log.{Ends}
use entservices_devicesettin.Tests.Samples.{sample_device, sample_controller, sample_system}
use entservices_devicesettin.Resolution.{
  parse_resolution, strtok_scan, append_scan, get_fallback_resolution,
}
use entservices_devicesettin.Resolution.Select.{
  choose_resolution, is_res_in_edid, insert_names, try_fallbacks, base_index,
}
use entservices_devicesettin.Controller.{
  eas, is_hdmi_connected, Controller, get_video_port_handle, is_component_port_present, connected,
  disconnected,
}
use entservices_devicesettin.Controller.Video.{
  listed_names, set_resolution, apply_video_port_resolution, apply_background_color,
}
use entservices_devicesettin.Controller.Video.Sets.{
  resolution_sets, HandlesSet, SetListed, apply_video_port_resolution_once,
  set_resolution_hdmi_listed,
}
use entservices_devicesettin.Controller.Audio.{set_audio_mode}
use entservices_devicesettin.Controller.Events.{
  authentication_failure, sys_mode_change, authenticated, handle_hdcp_status,
  on_display_hdmi_hot_plug, on_tune_ready, start_tune_ready,
}
use entservices_devicesettin.Controller.Events.Hdcp.{
  NoPassthrough, sys_mode_change_to_eas, HdcpOutcome, handle_hdcp_status-HdcpOutcome,
}
use entservices_devicesettin.Controller.Events.Ignored.{handle_statuses, handle_statuses_ignored}
use entservices_devicesettin.Controller.Events.Thread.{
  contains, store, fire, before, found, removed, find, drop, zero_source, wake, clear, timer, here,
  next, waiting, awake, after, worked, hdcp_idle, System, Step, Reach, IsBlocked, reset_event,
  handle_display_event,
}
use entservices_devicesettin.Controller.Events.Thread.Forgotten.{IsForgotten, timer-IsForgotten}
use entservices_devicesettin.Controller.Events.Thread.Missed.{
  hot_plug_in_round_lost, on_tune_ready-IsBlocked,
}

apply_video_port_resolution_once_example :
    Ends
      (λ _ log'. (resolution_sets log' ≤ 1) × HandlesSet log')
      (apply_video_port_resolution sample_device sample_controller [])
apply_video_port_resolution_once_example =
    apply_video_port_resolution_once sample_device sample_controller [] tt

set_resolution_hdmi_listed_example :
    Ends
      (λ _ log'. (resolution_sets log' ≡ 0) ⊎ SetListed sample_device 1 log')
      (set_resolution sample_device sample_controller 1 hdmi [])
set_resolution_hdmi_listed_example = set_resolution_hdmi_listed sample_device sample_controller 1 []

abbrev timed_controller : Controller
timed_controller = record sample_controller { hotplug_event_src = 9 }

handle_hdcp_status-HdcpOutcome_example :
    Ends
      (HdcpOutcome sample_device authenticated timed_controller (add_set_resolution_timeout ∷ []))
      (handle_hdcp_status sample_device authenticated timed_controller
        (add_set_resolution_timeout ∷ []))
handle_hdcp_status-HdcpOutcome_example =
    handle_hdcp_status-HdcpOutcome sample_device authenticated timed_controller
      (add_set_resolution_timeout ∷ [])

-- Timer 9 is pending and named, and a disconnection is noted.
abbrev race_controller : Controller
race_controller = record sample_controller {
  tune_ready = true;
  display_event_status = disconnected;
  hotplug_event_src = 9;
}

abbrev before_race : System
before_race = record (sample_system waiting) {
  controller = race_controller;
  log = add_set_resolution_timeout ∷ [];
}

-- What the handler of timer 9 calls before its store.
abbrev fired_log : Calls
fired_log =
    set_video_port_resolution 1 (record { name = codes "720p"; members = 0 })
    ∷ get_display_edid 7
    ∷ get_display hdmi 0
    ∷ get_video_port_resolution 1
    ∷ is_video_port_display_connected 1
    ∷ get_video_port hdmi 0
    ∷ get_video_port hdmi 0
    ∷ source_fired 9
    ∷ add_set_resolution_timeout
    ∷ []

-- The handler of timer 9 has not yet stored 0, and the resolution thread is past its clearing.
abbrev racing_system : System
racing_system = record before_race {
  controller = store 0 race_controller;
  phase = awake disconnected after;
  firing = true;
  log = remove_source 9 ∷ fired_log;
}

race_is_reached : Reach sample_device before_race racing_system
unfolding contains fire ask tell pure ◌>>=◌ apply_video_port_resolution get_video_port_handle
    set_resolution store is_hdmi_connected choose_resolution is_res_in_edid listed_names
    insert_names parse_resolution strtok_scan try_fallbacks base_index append_scan
    get_fallback_resolution
race_is_reached =
    let fired : System = record before_race { firing = true; log = fired_log } in
    let woken : System = record fired { phase = awake disconnected before } in
    let seen : System = record fired { phase = awake disconnected found } in
    let dropped : System = record fired {
      phase = awake disconnected removed;
      log = remove_source 9 ∷ fired_log;
    } in
    let c = race_controller in
    let r1 : Reach sample_device before_race fired = next here (timer 9 fired_log refl refl refl) in
    let r2 : Reach sample_device before_race woken = next r1 (wake refl (λ h. cc (h)) refl) in
    let r3 : Reach sample_device before_race seen =
      next r2 (
        clear disconnected before found c fired_log refl (find (λ h. absurd (omega (arith, h))))) in
    let r4 : Reach sample_device before_race dropped =
      next r3 (clear disconnected found removed c (remove_source 9 ∷ fired_log) refl drop) in
    next r4
      (clear disconnected removed after (store 0 c) (remove_source 9 ∷ fired_log) refl zero_source)

timer-IsForgotten_example :
    (t : System) × Reach sample_device racing_system t × IsForgotten sample_device 9 t
unfolding store handle_display_event is_component_port_present get_video_port_handle ask tell pure
    ◌>>=◌
timer-IsForgotten_example =
    timer-IsForgotten sample_device racing_system 9 (store 0 race_controller)
      (add_set_resolution_timeout ∷ get_video_port component 0 ∷ racing_system.log) refl refl refl
      refl

abbrev plugged_controller : Controller
plugged_controller = record sample_controller { display_event_status = connected }

abbrev plugged_log : Calls
plugged_log = set_background_color 1 bgcolor_none ∷ get_video_port hdmi 0 ∷ []

hot_plug_in_round_lost_example :
    (u : System) × Step sample_device
      (record (sample_system worked) { controller = plugged_controller; log = plugged_log })
      u
    × IsBlocked u
    × (u.controller ≡ reset_event sample_controller)
unfolding on_display_hdmi_hot_plug apply_background_color get_video_port_handle ask tell pure ◌>>=◌
hot_plug_in_round_lost_example =
    hot_plug_in_round_lost sample_device (sample_system worked) true plugged_controller plugged_log
      refl refl refl

abbrev tuned_controller : Controller
tuned_controller = record sample_controller { device_settings = false; tune_ready = true }

abbrev untuned_system : System
untuned_system = record {
  controller = record sample_controller { device_settings = false };
  phase = waiting;
  hdcp = hdcp_idle;
  firing = false;
  log = [];
}

on_tune_ready-IsBlocked_example :
    (true ≡ true)
    × IsBlocked (record untuned_system { controller = tuned_controller })
    × ¬ IsBlocked
        (record untuned_system { controller = start_tune_ready true untuned_system.controller })
unfolding on_tune_ready set_audio_mode pure ◌>>=◌
on_tune_ready-IsBlocked_example =
    on_tune_ready-IsBlocked sample_device untuned_system tuned_controller [] (refl, refl, refl) refl

-- The EDID is ignored, and the boot-up is not over.
abbrev ignoring_controller : Controller
ignoring_controller = record sample_controller { ignore_edid = true }

handle_statuses_ignored_example :
    Ends
      (λ _ log'. resolution_sets log' ≤ 0 + (if true then 1 else 0))
      (handle_statuses sample_device
        (authenticated ∷ authentication_failure ∷ authenticated ∷ [])
        ignoring_controller
        [])
handle_statuses_ignored_example =
    handle_statuses_ignored sample_device
      (authenticated ∷ authentication_failure ∷ authenticated ∷ []) ignoring_controller [] refl

sys_mode_change_to_eas_example :
    Ends
      (λ c' log'. (c' ≡ record sample_controller { eas_mode = eas }) × NoPassthrough log')
      (sys_mode_change sample_device eas sample_controller [])
sys_mode_change_to_eas_example = sys_mode_change_to_eas sample_device sample_controller [] refl tt

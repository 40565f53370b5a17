-- ===== src/Tests/Panel.antt =====
-- The front panel on a host that keeps its properties in a list and whose HAL starts at the second try.
use entservices_devicesettin.Prelude.{
  ℕ, suc, ◌≡◌, refl, true, Option, none, some, List, [], ◌∷◌, Bytes, codes, str_eq, str_eq_self,
  if◌then◌else◌, if_true, arith, ◌==◌,
}
use entservices_devicesettin.Device.{error_none}
use entservices_devicesettin.Fpd.{
  Constants, Host, Panel, static_values, initialise_hal, try_init, de_initialise_hal, after_tries,
  ensure_plat_init,
}
use entservices_devicesettin.Fpd.Platform.{
  with_plat, set_fpd_brightness, brightness_set, note_brightness,
}
use entservices_devicesettin.Fpd.Platform.Persistence.{Persists, restarted}
use entservices_devicesettin.Fpd.Platform.Brightness.{set_fpd_brightness-restarted}
use entservices_devicesettin.Fpd.Service.{
  Registry, is_registered, register, unregister, dispatch_fpd_event,
}
use entservices_devicesettin.Fpd.Service.Clients.{unregister-register, dispatch_fpd_event-once}

-- How often the HAL was started, and the properties.
abbrev World : Type 0
World = ℕ × List (Bytes × Bytes)

abbrev lookup : Bytes → List (Bytes × Bytes) → Option Bytes
lookup key [] = none
lookup key (e ∷ es) = if str_eq e.0 key then some e.1 else lookup key es

abbrev sample_host : Host World
sample_host = record {
  fp_init = λ w. (if w.0 == 0 then 1 else 0, (suc w.0, w.1));
  fp_term = λ w. w;
  set_fp_brightness = λ indicator brightness w. (0, w);
  get_fp_brightness = λ indicator w. (50, w);
  set_fp_color = λ indicator color w. (0, w);
  get_fp_color = λ indicator w. ((0, 255), w);
  set_fpd_mode = λ mode w. (0, w);
  get_property = λ key w. lookup key w.1;
  persist_property = λ key value w. (true, (w.0, (key, value) ∷ w.1));
}

abbrev sample_constants : Constants
sample_constants = record {
  indicator_max = 5;
  indicator_power = 1;
  brightness_max = 100;
  brightness_default = 100;
  green = 65280;
  red = 16711680;
  yellow = 16777184;
  orange = 16747520;
  blue = 255;
  color_is_valid = λ color. true;
}

abbrev fresh : Panel World
fresh = initialise_hal sample_constants sample_host (static_values sample_constants (0, []))

abbrev running : Panel World
running = record fresh { is_plat_initialized = true }

sample_host-Persists : Persists sample_host
unfolding str_eq
sample_host-Persists = record {
  get_same = λ key value w. if_true _ _ _ (str_eq_self key);
  persists = λ key value w. refl;
  get_after_init = λ key w. refl;
  get_after_term = λ key w. refl;
}

-- One client, and nobody else that holds a reference.
abbrev one_client : Registry
one_client = record { clients = (codes "a", 7) ∷ []; references = λ n. if n == 7 then 1 else 0 }

unregister-register_example :
    ((register (codes "b") 8 one_client).0 ≡ error_none)
    × (((unregister 8 (register (codes "b") 8 one_client).1).0 ≡ error_none)
        × ((unregister 8 (register (codes "b") 8 one_client).1).1.clients ≡ one_client.clients))
unfolding is_registered
unregister-register_example = unregister-register (codes "b") 8 one_client refl

dispatch_fpd_event-once_example :
    ((dispatch_fpd_event one_client).0 ≡ 7 ∷ [])
    × (((dispatch_fpd_event one_client).1.clients ≡ one_client.clients)
        × ((n : ℕ) → (dispatch_fpd_event one_client).1.references n ≡ one_client.references n))
dispatch_fpd_event-once_example = dispatch_fpd_event-once one_client

set_fpd_brightness-restarted_example :
    (ensure_plat_init sample_constants sample_host (
      restarted sample_constants sample_host
        (set_fpd_brightness sample_constants sample_host 1 70 true running).1)).1.power_brightness
    ≡ (if 70 == sample_constants.brightness_max then sample_constants.brightness_default else 70)
unfolding initialise_hal ensure_plat_init set_fpd_brightness with_plat brightness_set
    note_brightness try_init after_tries de_initialise_hal
set_fpd_brightness-restarted_example =
    set_fpd_brightness-restarted sample_constants sample_host sample_host-Persists 70 running
      (omega arith) refl refl

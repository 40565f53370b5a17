-- ===== src/Fpd.antt =====
-- plugin/hal/dFPDImpl.h: the state of the front panel's platform layer, what it uses of the HAL and of the
-- host's persistence, and InitialiseHAL, DeInitialiseHAL and EnsurePlatInit.
pub mod Numbers
pub mod Init
pub mod Platform
pub mod Component
pub mod Service
use entservices_devicesettin.Prelude.{
  ℕ, zero, suc, Bool, true, false, not, Option, none, some, List, [], ◌∷◌, Bytes, codes, str_eq,
  replicate, ◌==◌, if◌then◌else◌,
}
use Numbers.{to_string, atoi}

-- The constants of the HAL's headers, and dsFPDColor_isValid.
pub record Constants : Type 0 where
  pub indicator_max : ℕ
  pub indicator_power : ℕ
  pub brightness_max : ℕ
  pub brightness_default : ℕ
  pub green : ℕ
  pub red : ℕ
  pub yellow : ℕ
  pub orange : ℕ
  pub blue : ℕ
  pub color_is_valid : ℕ → Bool

-- The HAL and the host's persistence over the state W that they share. A number is a dsError_t, 0 for
-- dsERR_NONE; `get_property` throws where it is `none`, and `persist_property` where it is `false`.
pub record Host (W : Type 0) : Type 0 where
  pub fp_init : W → ℕ × W
  pub fp_term : W → W
  pub set_fp_brightness : ℕ → ℕ → W → ℕ × W
  pub get_fp_brightness : ℕ → W → ℕ × W
  pub set_fp_color : ℕ → ℕ → W → ℕ × W
  pub get_fp_color : ℕ → W → (ℕ × ℕ) × W
  pub set_fpd_mode : ℕ → W → ℕ × W
  pub get_property : Bytes → W → Option Bytes
  pub persist_property : Bytes → Bytes → W → Bool × W

-- dsFPDState_t
pub data PanelState : Type 0 where
  state_off state_on : PanelState
  other_state : ℕ → PanelState

-- _FPDSettings_t
pub record Settings : Type 0 where
  pub brightness : ℕ
  pub state : PanelState
  pub color : ℕ

-- The static variables, and the world.
pub record Panel (W : Type 0) : Type 0 where
  pub is_initialized : Bool
  pub is_plat_initialized : Bool
  pub settings : List Settings
  pub power_brightness : ℕ
  pub text_brightness : ℕ
  pub power_led_color : ℕ
  pub world : W

abbrev pub key_power : Bytes
key_power = codes "Power.brightness"

abbrev pub key_text : Bytes
key_text = codes "Text.brightness"

abbrev pub key_color : Bytes
key_color = codes "Power.Color"

abbrev pub init_tries : ℕ
init_tries = 20

module _ (k : Constants) where
  abbrev pub default_settings : Settings
  default_settings = record { brightness = k.brightness_max; state = state_off; color = k.blue }

  -- The values with which the static variables start.
  abbrev pub static_values : {W : Type 0} → W → Panel W
  static_values world = record {
    is_initialized = false;
    is_plat_initialized = false;
    settings = [];
    power_brightness = k.brightness_max;
    text_brightness = k.brightness_max;
    power_led_color = k.blue;
    world = world;
  }

  -- The color of a persisted name.
  unfoldable pub color_of_name : Bytes → ℕ
  color_of_name name =
      if str_eq name (codes "GREEN")
      then k.green
      else if str_eq name (codes "RED")
      then k.red
      else if str_eq name (codes "YELLOW")
      then k.yellow
      else if str_eq name (codes "ORANGE")
      then k.orange
      else k.blue

  -- The correction that is compiled where the default is not the maximum.
  abbrev pub corrected : ℕ → ℕ
  corrected brightness =
      if k.brightness_default == k.brightness_max
      then brightness
      else if brightness == k.brightness_max
      then k.brightness_default
      else brightness

  module _ {W : Type 0} (host : Host W) where
    unfoldable pub initialise_hal : Panel W → Panel W
    initialise_hal p = if p.is_initialized then p else record p {
      is_initialized = true;
      settings = replicate k.indicator_max default_settings;
    }

    unfoldable pub de_initialise_hal : Panel W → Panel W
    de_initialise_hal p =
        if p.is_plat_initialized
        then record p {
          is_initialized = false;
          is_plat_initialized = false;
          world = host.fp_term p.world;
        }
        else record p { is_initialized = false }

    -- The loop, with so many tries left.
    unfoldable pub try_init : ℕ → Panel W → Panel W
    try_init zero p = p
    try_init (suc n) p =
        let reply : ℕ × W = host.fp_init p.world in
        let rest = try_init n (record p { world = reply.1 }) in
        if reply.0 == 0 then record p { is_plat_initialized = true; world = reply.1 } else rest

    -- A property, or the default, which is then persisted. `none`: that threw.
    unfoldable pub property_or_default : Option Bytes → Bytes → W → Option Bytes × W
    property_or_default (some value) key w = (some value, w)
    property_or_default none key w =
        let r : Bool × W = host.persist_property key (to_string k.brightness_default) w in
        (if r.0 then some (to_string k.brightness_default) else none, r.1)

    abbrev name_or_blue : Option Bytes → Bytes
    name_or_blue none = codes "BLUE"
    name_or_blue (some name) = name

    unfoldable pub load_color : Panel W → Panel W
    load_color p = record p {
      power_brightness = corrected p.power_brightness;
      text_brightness = corrected p.text_brightness;
      power_led_color = color_of_name (name_or_blue (host.get_property key_color p.world));
    }

    unfoldable pub load_text : Option Bytes × W → Panel W → Panel W
    unfolding load_color
    load_text (none, w) p = record p { world = w }
    load_text (some value, w) p = load_color (record p { text_brightness = atoi value; world = w })

    unfoldable pub load_power : Option Bytes × W → Panel W → Panel W
    unfolding load_text property_or_default
    load_power (none, w) p = record p { world = w }
    load_power (some value, w) p =
        load_text (property_or_default (host.get_property key_text w) key_text w)
          (record p { power_brightness = atoi value; world = w })

    -- What EnsurePlatInit reads of the persistence; an exception leaves the rest as it was.
    unfoldable pub load_persisted : Panel W → Panel W
    unfolding load_power property_or_default
    load_persisted p =
        load_power (property_or_default (host.get_property key_power p.world) key_power p.world) p

    unfoldable pub after_tries : Panel W → Bool × Panel W
    unfolding load_persisted
    after_tries p = if p.is_plat_initialized then (true, load_persisted p) else (false, p)

    unfoldable pub ensure_plat_init : Panel W → Bool × Panel W
    unfolding after_tries try_init
    ensure_plat_init p =
        if p.is_plat_initialized then (true, p) else after_tries (try_init init_tries p)

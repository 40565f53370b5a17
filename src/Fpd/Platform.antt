-- ===== src/Fpd/Platform.antt =====
-- plugin/hal/dFPDImpl.h: the operations of the platform layer. Each returns its result, 0 for ERROR_NONE
-- and 1 for ERROR_GENERAL, its output parameter if it has one, and the new state.
pub mod Readback
pub mod Persistence
pub mod Brightness
use entservices_devicesettin.Prelude.{
  ℕ, zero, suc, Bool, true, false, not, ◌&&◌, Option, none, some, List, [], ◌∷◌, Bytes, codes, ltb,
  leb, get_elem?, set, ◌%◌, ◌==◌, if◌then◌else◌,
}
use entservices_devicesettin.Device.{error_none, error_general}
use entservices_devicesettin.Fpd.{
  Constants, Host, PanelState, state_on, state_off, other_state, Settings, Panel, key_power,
  key_color, ensure_plat_init,
}
use entservices_devicesettin.Fpd.Numbers.{to_string}

-- The name that SetFPDColor persists for a color.
unfoldable pub name_of_color : Constants → ℕ → Bytes
name_of_color k color =
    if color == k.green
    then codes "GREEN"
    else if color == k.red
    then codes "RED"
    else if color == k.yellow
    then codes "YELLOW"
    else if color == k.orange
    then codes "RED"
    else codes "BLUE"

-- color & 0x00FFFFFF
abbrev pub masked : ℕ → ℕ
masked color = color % 16777216

-- The settings of an indicator, and a write to one of its members.
abbrev pub update : List Settings → ℕ → (Settings → Settings) → List Settings
update [] i f = []
update (s ∷ settings) zero f = f s ∷ settings
update (s ∷ settings) (suc i) f = s ∷ update settings i f

module _ (k : Constants) {W : Type 0} (host : Host W) where
  abbrev pub persist : Bytes → Bytes → Panel W → Panel W
  persist key value p = record p { world = (host.persist_property key value p.world).1 }

  -- Every operation but the deprecated ones and SetFPDMode starts with EnsurePlatInit.
  unfoldable pub with_plat :
      {A : Type 0} → A → (Panel W → (ℕ × A) × Panel W) → Bool × Panel W → (ℕ × A) × Panel W
  with_plat a f (false, p) = ((error_general, a), p)
  with_plat a f (true, p) = f p

  unfoldable pub note_brightness : ℕ → ℕ → Bool → Panel W → Panel W
  note_brightness indicator brightness persistent p =
      let q : Panel W = record p {
        settings = update p.settings indicator (λ s. record s { brightness = brightness });
      } in
      if indicator == k.indicator_power && persistent
      then persist key_power (to_string brightness) (record q { power_brightness = brightness })
      else q

  -- SetFPDBrightness once the HAL is initialized.
  unfoldable pub brightness_set : ℕ → ℕ → Bool → Panel W → (ℕ × Unit {0}) × Panel W
  unfolding note_brightness
  brightness_set indicator brightness persistent p =
      let reply : ℕ × W = host.set_fp_brightness indicator brightness p.world in
      let q : Panel W = record p { world = reply.1 } in
      if ltb indicator k.indicator_max && leb brightness k.brightness_max
      then (if reply.0 == 0
          then ((error_none, tt), note_brightness indicator brightness persistent q)
          else ((error_general, tt), q))
      else ((error_general, tt), p)

  unfoldable pub set_fpd_brightness : ℕ → ℕ → Bool → Panel W → (ℕ × Unit {0}) × Panel W
  unfolding with_plat
  set_fpd_brightness indicator brightness persistent p =
      with_plat tt (brightness_set indicator brightness persistent) (ensure_plat_init k host p)

  -- GetFPDBrightness once the HAL is initialized.
  unfoldable pub brightness_got : ℕ → ℕ → Bool → Panel W → (ℕ × ℕ) × Panel W
  brightness_got indicator brightness persistent p =
      let reply : ℕ × W = host.get_fp_brightness indicator p.world in
      if ltb indicator k.indicator_max
      then (
        (error_none, if persistent then p.power_brightness else reply.0),
        record p { world = reply.1 },
      )
      else ((error_general, brightness), p)

  -- `brightness`: what the output parameter holds before.
  unfoldable pub get_fpd_brightness : ℕ → ℕ → Bool → Panel W → (ℕ × ℕ) × Panel W
  unfolding with_plat
  get_fpd_brightness indicator brightness persistent p =
      with_plat brightness (brightness_got indicator brightness persistent)
        (ensure_plat_init k host p)

  -- The brightness that stands for a state; a state of another number calls nothing and succeeds.
  unfoldable pub switch_by : PanelState → ℕ → Panel W → ℕ × W
  switch_by state_on indicator p = host.set_fp_brightness indicator p.power_brightness p.world
  switch_by state_off indicator p = host.set_fp_brightness indicator 0 p.world
  switch_by (other_state n) indicator p = (0, p.world)

  -- SetFPDState once the HAL is initialized.
  unfoldable pub state_set : ℕ → PanelState → Panel W → (ℕ × Unit {0}) × Panel W
  unfolding switch_by
  state_set indicator state p =
      let reply : ℕ × W = switch_by state indicator p in
      let q : Panel W = record p { world = reply.1 } in
      if ltb indicator k.indicator_max
      then (if reply.0 == 0
          then (
            (error_none, tt),
            record q { settings = update q.settings indicator (λ s. record s { state = state }) },
          )
          else ((error_general, tt), q))
      else ((error_general, tt), p)

  unfoldable pub set_fpd_state : ℕ → PanelState → Panel W → (ℕ × Unit {0}) × Panel W
  unfolding with_plat
  set_fpd_state indicator state p =
      with_plat tt (state_set indicator state) (ensure_plat_init k host p)

  abbrev pub state_at : List Settings → ℕ → PanelState → PanelState
  state_at settings i before = elim (get_elem? settings i) [ none ↦ before | some s ↦ s.state ]

  -- GetFPDState once the HAL is initialized.
  unfoldable pub state_got : ℕ → PanelState → Panel W → (ℕ × PanelState) × Panel W
  state_got indicator state p =
      if ltb indicator k.indicator_max
      then ((error_none, state_at p.settings indicator state), p)
      else ((error_general, state), p)

  unfoldable pub get_fpd_state : ℕ → PanelState → Panel W → (ℕ × PanelState) × Panel W
  unfolding with_plat
  get_fpd_state indicator state p =
      with_plat state (state_got indicator state) (ensure_plat_init k host p)

  abbrev color_at : List Settings → ℕ → ℕ → ℕ
  color_at settings i before = elim (get_elem? settings i) [ none ↦ before | some s ↦ s.color ]

  -- GetFPDColor once the HAL is initialized.
  unfoldable pub color_got : ℕ → ℕ → Panel W → (ℕ × ℕ) × Panel W
  color_got indicator color p =
      let reply : (ℕ × ℕ) × W = host.get_fp_color indicator p.world in
      let q : Panel W = record p { world = reply.1 } in
      if ltb indicator k.indicator_max
      then (if reply.0.0 == 0
          then (
            (error_none, reply.0.1),
            record q {
              settings = update q.settings indicator (λ s. record s { color = reply.0.1 });
            },
          )
          else ((error_none, color_at q.settings indicator color), q))
      else ((error_general, color), p)

  -- Where the HAL fails the cached color is returned, with success.
  unfoldable pub get_fpd_color : ℕ → ℕ → Panel W → (ℕ × ℕ) × Panel W
  unfolding with_plat
  get_fpd_color indicator color p =
      with_plat color (color_got indicator color) (ensure_plat_init k host p)

  unfoldable pub note_color : ℕ → ℕ → Panel W → Panel W
  note_color indicator color p =
      let q : Panel W = record p {
        settings = update p.settings indicator (λ s. record s { color = color });
      } in
      if indicator == k.indicator_power
      then persist key_color (name_of_color k color) (record q { power_led_color = color })
      else q

  -- SetFPDColor once the HAL is initialized.
  unfoldable pub color_set : ℕ → ℕ → Panel W → (ℕ × Unit {0}) × Panel W
  unfolding note_color
  color_set indicator color p =
      let reply : ℕ × W = host.set_fp_color indicator color p.world in
      let q : Panel W = record p { world = reply.1 } in
      if ltb indicator k.indicator_max && k.color_is_valid color
      then (if reply.0 == 0
          then ((error_none, tt), note_color indicator (masked color) q)
          else ((error_general, tt), q))
      else ((error_general, tt), p)

  unfoldable pub set_fpd_color : ℕ → ℕ → Panel W → (ℕ × Unit {0}) × Panel W
  unfolding with_plat
  set_fpd_color indicator color p =
      with_plat tt (color_set indicator color) (ensure_plat_init k host p)

  -- SetFPDTime, SetFPDScroll, SetFPDBlink, SetFPDTextBrightness, GetFPDTextBrightness,
  -- EnableFPDClockDisplay, GetFPDTimeFormat and SetFPDTimeFormat, which are deprecated.
  unfoldable pub deprecated : {A : Type 0} → A → Panel W → (ℕ × A) × Panel W
  deprecated a p = ((error_general, a), p)

  -- SetFPDMode does without EnsurePlatInit.
  unfoldable pub set_fpd_mode : ℕ → Panel W → (ℕ × Unit {0}) × Panel W
  set_fpd_mode mode p =
      let reply : ℕ × W = host.set_fpd_mode mode p.world in
      ((if reply.0 == 0 then error_none else error_general, tt), record p { world = reply.1 })

-- ===== src/Fpd/Component.antt =====
-- plugin/fpd.cpp: the component passes each operation on to its platform layer, if it has one.
-- `platform`: the pointer is not null.
use entservices_devicesettin.Prelude.{ℕ, Bool, true, false}
use entservices_devicesettin.Device.{error_general}
use entservices_devicesettin.Fpd.{Constants, Host, PanelState, Panel}
use entservices_devicesettin.Fpd.Platform.{
  deprecated, set_fpd_brightness, get_fpd_brightness, set_fpd_state, get_fpd_state, get_fpd_color,
  set_fpd_color, set_fpd_mode,
}

module _ {W : Type 0} where
  abbrev through :
      {A : Type 0} → Bool → A → (Panel W → (ℕ × A) × Panel W) → Panel W → (ℕ × A) × Panel W
  through false a f p = ((error_general, a), p)
  through true a f p = f p

module _ (k : Constants) {W : Type 0} (host : Host W) (platform : Bool) where
  unfoldable pub passes_deprecated : {A : Type 0} → A → Panel W → (ℕ × A) × Panel W
  passes_deprecated a p = through platform a (deprecated k host a) p

  unfoldable pub passes_set_brightness : ℕ → ℕ → Bool → Panel W → (ℕ × Unit {0}) × Panel W
  passes_set_brightness indicator brightness persist p =
      through platform tt (set_fpd_brightness k host indicator brightness persist) p

  unfoldable pub passes_get_brightness : ℕ → ℕ → Bool → Panel W → (ℕ × ℕ) × Panel W
  passes_get_brightness indicator brightness persist p =
      through platform brightness (get_fpd_brightness k host indicator brightness persist) p

  unfoldable pub passes_set_state : ℕ → PanelState → Panel W → (ℕ × Unit {0}) × Panel W
  passes_set_state indicator state p = through platform tt (set_fpd_state k host indicator state) p

  unfoldable pub passes_get_state : ℕ → PanelState → Panel W → (ℕ × PanelState) × Panel W
  passes_get_state indicator state p =
      through platform state (get_fpd_state k host indicator state) p

  unfoldable pub passes_get_color : ℕ → ℕ → Panel W → (ℕ × ℕ) × Panel W
  passes_get_color indicator color p =
      through platform color (get_fpd_color k host indicator color) p

  unfoldable pub passes_set_color : ℕ → ℕ → Panel W → (ℕ × Unit {0}) × Panel W
  passes_set_color indicator color p = through platform tt (set_fpd_color k host indicator color) p

  unfoldable pub passes_set_mode : ℕ → Panel W → (ℕ × Unit {0}) × Panel W
  passes_set_mode mode p = through platform tt (set_fpd_mode k host mode) p

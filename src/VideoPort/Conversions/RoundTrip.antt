-- ===== src/VideoPort/Conversions/RoundTrip.antt =====
-- What the conversions of a resolution keep.
use entservices_devicesettin.Prelude.{
  ◌+◌, ◌≤◌, ◌<◌, ◌≡◌, ◌≢◌, ◌↔◌, refl, sym, ap, ◌∙◌, Bool, true, false, Bytes, [], ◌∷◌, length,
  take_all, ◌-◌, strstr, has_prefix, arith,
}
use entservices_devicesettin.VideoPort.{
  DsPixels, ds_720x480, ds_720x576, ds_1280x720, ds_1366x768, ds_1920x1080, ds_3840x2160,
  ds_4096x2160, pixels_max, DsResolution, Constants,
}
use entservices_devicesettin.VideoPort.Conversions.{
  to_pixels, to_ds_pixels, name_or_derived, derived_name, from_hal, to_hal, mentioned_rate,
  build_resolution_from_name,
}

-- The pixel resolutions that both sides have.
abbrev pub IsShared : DsPixels → Type 0
IsShared ds_720x480 = Unit
IsShared ds_720x576 = Unit
IsShared ds_1280x720 = Unit
IsShared ds_1366x768 = ⊥
IsShared ds_1920x1080 = Unit
IsShared ds_3840x2160 = Unit
IsShared ds_4096x2160 = ⊥
IsShared pixels_max = ⊥

pixels_back : (px : DsPixels) → (to_ds_pixels (to_pixels px) ≡ px) ↔ IsShared px
unfolding to_pixels to_ds_pixels
pixels_back ds_720x480 = (λ e. tt, λ s. refl)
pixels_back ds_720x576 = (λ e. tt, λ s. refl)
pixels_back ds_1280x720 = (λ e. tt, λ s. refl)
pixels_back ds_1366x768 = (λ e. absurd (cc), λ s. absurd s)
pixels_back ds_1920x1080 = (λ e. tt, λ s. refl)
pixels_back ds_3840x2160 = (λ e. tt, λ s. refl)
pixels_back ds_4096x2160 = (λ e. absurd (cc), λ s. absurd s)
pixels_back pixels_max = (λ e. absurd (cc), λ s. absurd s)

named : (name derived : Bytes) → name ≢ [] → name_or_derived name derived ≡ name
unfolding name_or_derived
named [] derived h = absurd (h refl)
named (c ∷ name) derived h = refl

back_of :
    (k : Constants) (r : DsResolution)
    → r.ds_name ≢ []
    → length r.ds_name + 1 ≤ k.name_size
    → r.ds_rate < k.ds_rate_max
    → r.ds_rate < k.rate_max
    → to_hal k (from_hal k r) ≡ record r { ds_pixels = to_ds_pixels (to_pixels r.ds_pixels) }
unfolding to_hal from_hal
back_of k r n l d w =
    let e : name_or_derived r.ds_name (derived_name r.ds_pixels r.ds_interlaced) ≡ r.ds_name =
      named r.ds_name (derived_name r.ds_pixels r.ds_interlaced) n in
    ground (arith, e, take_all (k.name_size - 1) r.ds_name (omega (arith, l)), d, w)

-- A resolution of the HAL with a name that fits the buffer and a frame rate that the interface has comes
-- through the interface and back unchanged exactly when the interface has its pixels: 1366x768, 4096x2160 and
-- an unknown number of pixels do not come back.
pub to_hal-from_hal :
    (k : Constants) (r : DsResolution)
    → r.ds_name ≢ []
    → length r.ds_name + 1 ≤ k.name_size
    → r.ds_rate < k.ds_rate_max
    → r.ds_rate < k.rate_max
    → (to_hal k (from_hal k r) ≡ r) ↔ IsShared r.ds_pixels
to_hal-from_hal k r n l d w =
    let b = back_of k r n l d w in
    (
      λ e. (pixels_back r.ds_pixels).0 (ap (λ (r : DsResolution). r.ds_pixels) (sym b ∙ e)),
      λ s. b ∙ ap (λ px. record r { ds_pixels = px }) ((pixels_back r.ds_pixels).1 s),
    )

-- The scan that a derived name shows.
abbrev pub shown : DsPixels → Bool → Bool
shown ds_720x480 interlaced = interlaced
shown ds_720x576 interlaced = interlaced
shown ds_1280x720 interlaced = false
shown ds_1366x768 interlaced = false
shown ds_1920x1080 interlaced = interlaced
shown ds_3840x2160 interlaced = false
shown ds_4096x2160 interlaced = false
shown pixels_max interlaced = false

rebuilt :
    (k : Constants) (px : DsPixels) (i : Bool)
    → px ≢ ds_4096x2160
    → ((build_resolution_from_name k (derived_name px i)).pixels ≡ to_pixels px)
      × ((build_resolution_from_name k (derived_name px i)).interlaced ≡ shown px i)
unfolding build_resolution_from_name derived_name to_pixels strstr has_prefix mentioned_rate
rebuilt k ds_720x480 true h = (refl, refl)
rebuilt k ds_720x480 false h = (refl, refl)
rebuilt k ds_720x576 true h = (refl, refl)
rebuilt k ds_720x576 false h = (refl, refl)
rebuilt k ds_1280x720 i h = (refl, refl)
rebuilt k ds_1366x768 i h = (refl, refl)
rebuilt k ds_1920x1080 true h = (refl, refl)
rebuilt k ds_1920x1080 false h = (refl, refl)
rebuilt k ds_3840x2160 i h = (refl, refl)
rebuilt k ds_4096x2160 i h = absurd (h refl)
rebuilt k pixels_max i h = (refl, refl)

-- The resolution that is rebuilt from the name which the code derives where the HAL gives none has the pixels that
-- the conversion gives, but for 4096x2160, and its scan wherever the name shows the scan (480, 576 and 1080
-- lines); elsewhere it is progressive.
pub build_resolution-from_hal :
    (k : Constants) (r : DsResolution)
    → r.ds_name ≡ []
    → r.ds_pixels ≢ ds_4096x2160
    → ((build_resolution_from_name k (from_hal k r).name).pixels ≡ (from_hal k r).pixels)
      × ((build_resolution_from_name k (from_hal k r).name).interlaced
          ≡ shown r.ds_pixels r.ds_interlaced)
unfolding from_hal name_or_derived
build_resolution-from_hal k r e h =
    let n : name_or_derived r.ds_name (derived_name r.ds_pixels r.ds_interlaced)
        ≡ derived_name r.ds_pixels r.ds_interlaced =
      ap (λ n. name_or_derived n (derived_name r.ds_pixels r.ds_interlaced)) e in
    let b = rebuilt k r.ds_pixels r.ds_interlaced h in
    (
      ap (λ n. (build_resolution_from_name k n).pixels) n ∙ b.0,
      ap (λ n. (build_resolution_from_name k n).interlaced) n ∙ b.1,
    )

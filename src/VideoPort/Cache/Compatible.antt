-- ===== src/VideoPort/Cache/Compatible.antt =====
-- The names that are cached for HDMI and for the analog port after a resolution was persisted.
use entservices_devicesettin.Prelude.{
  ◌≡◌, ◌≢◌, refl, sym, ap, subst, ◌∙◌, Bool, true, List, Bytes, codes, arith, if◌then◌else◌,
  if_true, Bool-cases, inl, inr, ap₂, ◌⊎◌,
}
use entservices_devicesettin.VideoPort.{
  PortType, hdmi, internal, component, DsPixels, ds_720x480, ds_720x576, ds_1280x720, ds_1366x768,
  ds_1920x1080, ds_3840x2160, ds_4096x2160, pixels_max, DsResolution, Resolution, Constants, Hal,
  VideoPort, key_hdmi,
}
use entservices_devicesettin.VideoPort.Cache.{
  pixels_by_name, is_hd_compatible, is_compatible, compatible_analog, compatible_hdmi, key_analog,
  persist_then, note_hdmi, note_component, fit_analog, fit_hdmi, persist_for,
}

-- What the headers promise of the order of the pixel resolutions: the HD ones come after the two SD ones.
pub record IsOrdered (k : Constants) : Type 0 where
  pub hd_720 : is_hd_compatible k ds_1280x720 ≡ true
  pub hd_768 : is_hd_compatible k ds_1366x768 ≡ true
  pub hd_1080 : is_hd_compatible k ds_1920x1080 ≡ true
  pub hd_2160 : is_hd_compatible k ds_3840x2160 ≡ true
  pub hd_4096 : is_hd_compatible k ds_4096x2160 ≡ true

-- The platform's table lists the names that the source falls back to, each with its pixels.
pub record HasFallbacks (k : Constants) (table : List Resolution) : Type 0 where
  pub at_480 : pixels_by_name k table (codes "480p") ≡ ds_720x480
  pub at_576 : pixels_by_name k table (codes "576p") ≡ ds_720x576
  pub at_720 : pixels_by_name k table (codes "720p") ≡ ds_1280x720
  pub at_1080 : pixels_by_name k table (codes "1080p") ≡ ds_1920x1080

module _ (k : Constants) (table : List Resolution) where
  -- The two cached names stand for resolutions that the ports can show together.
  abbrev pub AreCompatible : {W : Type 0} → VideoPort W → Type 0
  AreCompatible p =
      is_compatible k (pixels_by_name k table p.hdmi_resolution)
        (pixels_by_name k table p.comp_resolution)
      ≡ true

  is_compatible_self : (px : DsPixels) → is_compatible k px px ≡ true
  unfolding is_compatible
  is_compatible_self px = ground arith

  is_compatible_hd :
      (a b : DsPixels)
      → is_hd_compatible k a ≡ true
      → is_hd_compatible k b ≡ true
      → is_compatible k a b ≡ true
  unfolding is_compatible
  is_compatible_hd a b h l = ground (arith, h, l)

  is_compatible_comm : (a b : DsPixels) → is_compatible k a b ≡ is_compatible k b a
  unfolding is_compatible
  is_compatible_comm a b = ground arith

  module _ (o : IsOrdered k) (f : HasFallbacks k table) where
    fallback_analog :
        (px : DsPixels)
        → px ≢ pixels_max
        → is_compatible k px (pixels_by_name k table (compatible_analog px)) ≡ true
    unfolding compatible_analog
    fallback_analog ds_720x480 n = rw f.at_480 (is_compatible_self ds_720x480)
    fallback_analog ds_720x576 n = rw f.at_576 (is_compatible_self ds_720x576)
    fallback_analog ds_1280x720 n = rw f.at_720 (is_compatible_self ds_1280x720)
    fallback_analog ds_1366x768 n =
        rw f.at_1080 (is_compatible_hd ds_1366x768 ds_1920x1080 o.hd_768 o.hd_1080)
    fallback_analog ds_1920x1080 n = rw f.at_1080 (is_compatible_self ds_1920x1080)
    fallback_analog ds_3840x2160 n =
        rw f.at_1080 (is_compatible_hd ds_3840x2160 ds_1920x1080 o.hd_2160 o.hd_1080)
    fallback_analog ds_4096x2160 n =
        rw f.at_1080 (is_compatible_hd ds_4096x2160 ds_1920x1080 o.hd_4096 o.hd_1080)
    fallback_analog pixels_max n = absurd (n refl)

    fallback_hdmi :
        (px : DsPixels)
        → px ≢ pixels_max
        → is_compatible k px (pixels_by_name k table (compatible_hdmi px)) ≡ true
    unfolding compatible_hdmi
    fallback_hdmi ds_720x480 n = rw f.at_480 (is_compatible_self ds_720x480)
    fallback_hdmi ds_720x576 n = rw f.at_576 (is_compatible_self ds_720x576)
    fallback_hdmi ds_1280x720 n = rw f.at_720 (is_compatible_self ds_1280x720)
    fallback_hdmi ds_1366x768 n =
        rw f.at_1080 (is_compatible_hd ds_1366x768 ds_1920x1080 o.hd_768 o.hd_1080)
    fallback_hdmi ds_1920x1080 n = rw f.at_1080 (is_compatible_self ds_1920x1080)
    fallback_hdmi ds_3840x2160 n =
        rw f.at_1080 (is_compatible_hd ds_3840x2160 ds_1920x1080 o.hd_2160 o.hd_1080)
    fallback_hdmi ds_4096x2160 n =
        rw f.at_1080 (is_compatible_hd ds_4096x2160 ds_1920x1080 o.hd_4096 o.hd_1080)
    fallback_hdmi pixels_max n = absurd (n refl)

module _ (k : Constants) {W : Type 0} (hal : Hal W) (table : List Resolution) where
  persist_then_names :
      (key value : Bytes) (next : VideoPort W → VideoPort W) (p : VideoPort W)
      → (hal.persist_property key value p.world).0 ≡ true
      → persist_then k hal table key value next p
        ≡ next (record p { world = (hal.persist_property key value p.world).1 })
  unfolding persist_then
  persist_then_names key value next p h = if_true _ _ _ h

  -- What the fitting leaves in the two names, whether or not it persists a new one.
  fit_analog_names :
      (px : DsPixels) (force : Bool) (p : VideoPort W)
      → ((fit_analog k hal table px force p).hdmi_resolution ≡ p.hdmi_resolution)
        × ((fit_analog k hal table px force p).comp_resolution ≡ (
            if is_compatible k px (pixels_by_name k table p.comp_resolution)
            then p.comp_resolution
            else compatible_analog px))
  unfolding fit_analog persist_then
  fit_analog_names px force p = ground arith

  fit_hdmi_names :
      (px : DsPixels) (force : Bool) (p : VideoPort W)
      → ((fit_hdmi k hal table px force p).comp_resolution ≡ p.comp_resolution)
        × ((fit_hdmi k hal table px force p).hdmi_resolution ≡ (
            if is_compatible k px (pixels_by_name k table p.hdmi_resolution)
            then p.hdmi_resolution
            else compatible_hdmi px))
  unfolding fit_hdmi persist_then
  fit_hdmi_names px force p = ground arith

  module _ (o : IsOrdered k) (f : HasFallbacks k table) where
    fit_analog_compatible :
        (px : DsPixels) (force : Bool) (p : VideoPort W)
        → px ≢ pixels_max
        → pixels_by_name k table p.hdmi_resolution ≡ px
        → AreCompatible k table (fit_analog k hal table px force p)
    fit_analog_compatible px force p n e =
        let h = fit_analog_names px force p in
        ap₂ (is_compatible k) (ap (pixels_by_name k table) h.0 ∙ e)
          (ap (pixels_by_name k table) h.1)
        ∙ elim (Bool-cases (is_compatible k px (pixels_by_name k table p.comp_resolution))) [
          | inl c ↦ rw c c
          | inr c ↦ rw c (fallback_analog k table o f px n)
        ]

    fit_hdmi_compatible :
        (px : DsPixels) (force : Bool) (p : VideoPort W)
        → px ≢ pixels_max
        → pixels_by_name k table p.comp_resolution ≡ px
        → AreCompatible k table (fit_hdmi k hal table px force p)
    fit_hdmi_compatible px force p n e =
        let h = fit_hdmi_names px force p in
        is_compatible_comm k table _ _
        ∙ ap₂ (is_compatible k) (ap (pixels_by_name k table) h.0 ∙ e)
            (ap (pixels_by_name k table) h.1)
        ∙ elim (Bool-cases (is_compatible k px (pixels_by_name k table p.hdmi_resolution))) [
          | inl c ↦ rw c c
          | inr c ↦ rw c (fallback_hdmi k table o f px n)
        ]

    compatible_then :
        (key value : Bytes) (next : VideoPort W → VideoPort W) (p : VideoPort W)
        → (hal.persist_property key value p.world).0 ≡ true
        → ((w : W) → AreCompatible k table (next (record p { world = w })))
        → AreCompatible k table (persist_then k hal table key value next p)
    compatible_then key value next p h c =
        subst (AreCompatible k table) (sym (persist_then_names key value next p h)) (c _)

    -- After a resolution was persisted for HDMI, the internal or the component port, the names cached for HDMI and
    -- for the analog port are of compatible resolutions, whatever they were before: provided that the table lists
    -- the resolution and the names to which the source falls back, and that the persistence does not throw.
    pub persist_for-AreCompatible :
        (t : PortType) (r : DsResolution) (force : Bool) (p : VideoPort W)
        → (t ≡ hdmi) ⊎ ((t ≡ internal) ⊎ (t ≡ component))
        → pixels_by_name k table r.ds_name ≡ r.ds_pixels
        → r.ds_pixels ≢ pixels_max
        → ((key value : Bytes) (w : W) → (hal.persist_property key value w).0 ≡ true)
        → AreCompatible k table (persist_for k hal table t r force p)
    unfolding persist_for note_hdmi note_component
    persist_for-AreCompatible t r force p (inl e) l n ok = rw e (
        compatible_then key_hdmi r.ds_name (note_hdmi k hal table r force) p (ok _ _ _)
          (λ w. fit_analog_compatible r.ds_pixels force _ n l))
    persist_for-AreCompatible t r force p (inr (inl e)) l n ok = rw e (
        compatible_then key_hdmi r.ds_name (note_hdmi k hal table r force) p (ok _ _ _)
          (λ w. fit_analog_compatible r.ds_pixels force _ n l))
    persist_for-AreCompatible t r force p (inr (inr e)) l n ok = rw e (
        compatible_then (key_analog k) r.ds_name (note_component k hal table r force) p (ok _ _ _)
          (λ w. fit_hdmi_compatible r.ds_pixels force _ n l))

-- ===== src/VideoPort/Cache.antt =====
-- plugin/hal/dVideoPortImpl.h: the cached resolution names, their persistence, and which port a handle is of.
pub mod Compatible
pub mod Ports
use entservices_devicesettin.Prelude.{
  ℕ, Bool, true, false, ◌&&◌, ◌||◌, Option, none, some, List, [], ◌∷◌, Bytes, codes, str_eq, ltb,
  leb, ◌==◌, if◌then◌else◌,
}
use entservices_devicesettin.VideoPort.{
  PortType, hdmi, internal, component, bb, rf, svideo, firewire, dvi, DsPixels, ds_720x480,
  ds_720x576, ds_1280x720, ds_1366x768, ds_1920x1080, ds_3840x2160, ds_4096x2160, pixels_max,
  DsResolution, Resolution, Constants, as_int32, as_intptr, Hal, VideoPort, key_hdmi, key_baseband,
  key_component, key_rf, key_force_4k,
}

module _ {W : Type 0} (hal : Hal W) where
  -- The first of the types whose port 0 has a handle that passes the test.
  unfoldable pub find_port : List PortType → (ℕ → Bool) → W → Option PortType × W
  find_port [] same w = (none, w)
  find_port (t ∷ ts) same w =
      let reply : (ℕ × ℕ) × W = hal.video_port t 0 w in
      let rest = find_port ts same reply.1 in
      if reply.0.0 == 0 && same reply.0.1 then (some t, reply.1) else rest

  -- resolvePortTypeByHandle
  unfoldable pub resolve_port_type : ℕ → W → Option PortType × W
  resolve_port_type handle =
      find_port (hdmi ∷ internal ∷ component ∷ bb ∷ rf ∷ []) (λ h. as_int32 h == handle)

  -- The search at the start of persistVideoPortResolution.
  unfoldable pub persisted_port_type : ℕ → W → Option PortType × W
  persisted_port_type handle =
      find_port (hdmi ∷ component ∷ internal ∷ bb ∷ rf ∷ []) (λ h. h == as_intptr handle)

module _ (k : Constants) where
  abbrev pub key_analog : Bytes
  key_analog = if k.only_composite then key_baseband else key_component

  unfoldable pub default_by_profile : Bytes
  default_by_profile = if k.is_tv then codes "2160p" else codes "1080p"

  abbrev or_default : Bytes → Bytes → Bytes
  or_default [] default = default
  or_default (c ∷ name) default = c ∷ name

  -- getCachedResolutionForPort
  unfoldable pub cached_resolution : {W : Type 0} → PortType → VideoPort W → Bytes
  unfolding default_by_profile
  cached_resolution hdmi p = or_default p.hdmi_resolution default_by_profile
  cached_resolution internal p = or_default p.hdmi_resolution default_by_profile
  cached_resolution component p = or_default p.comp_resolution default_by_profile
  cached_resolution bb p = or_default p.bb_resolution (codes "720p")
  cached_resolution rf p = or_default p.rf_resolution (codes "720p")
  cached_resolution svideo p = default_by_profile
  cached_resolution firewire p = default_by_profile
  cached_resolution dvi p = default_by_profile

  abbrev write_cache : {W : Type 0} → PortType → Bytes → VideoPort W → VideoPort W
  write_cache hdmi name p = record p { hdmi_resolution = name }
  write_cache internal name p = record p { hdmi_resolution = name }
  write_cache component name p = record p { comp_resolution = name }
  write_cache bb name p = record p { bb_resolution = name }
  write_cache rf name p = record p { rf_resolution = name }
  write_cache svideo name p = p
  write_cache firewire name p = p
  write_cache dvi name p = p

  -- updateCachedResolutionForPort
  unfoldable pub update_cached : {W : Type 0} → PortType → Bytes → VideoPort W → VideoPort W
  update_cached t [] p = p
  update_cached t (c ∷ name) p = write_cache t (c ∷ name) p

  -- getPixelResolutionByName, over the platform's table.
  unfoldable pub pixels_by_name : List Resolution → Bytes → DsPixels
  pixels_by_name [] name = pixels_max
  pixels_by_name (r ∷ rs) name =
      if str_eq r.name name then k.ds_of_number (k.number r.pixels) else pixels_by_name rs name

  -- IsHDCompatible and IsCompatibleResolution
  unfoldable pub is_hd_compatible : DsPixels → Bool
  is_hd_compatible px =
      leb (k.ds_number ds_1280x720) (k.ds_number px)
      && ltb (k.ds_number px) (k.ds_number pixels_max)

  unfoldable pub is_compatible : DsPixels → DsPixels → Bool
  unfolding is_hd_compatible
  is_compatible a b = k.ds_number a == k.ds_number b || (is_hd_compatible a && is_hd_compatible b)

-- getCompatibleAnalogResolution
unfoldable pub compatible_analog : DsPixels → Bytes
compatible_analog ds_3840x2160 = codes "1080p"
compatible_analog ds_4096x2160 = codes "1080p"
compatible_analog ds_1920x1080 = codes "1080p"
compatible_analog ds_1280x720 = codes "720p"
compatible_analog ds_720x480 = codes "480p"
compatible_analog ds_720x576 = codes "576p"
compatible_analog ds_1366x768 = codes "1080p"
compatible_analog pixels_max = codes "1080p"

-- getCompatibleHDMIResolution
unfoldable pub compatible_hdmi : DsPixels → Bytes
compatible_hdmi ds_720x480 = codes "480p"
compatible_hdmi ds_720x576 = codes "576p"
compatible_hdmi ds_1280x720 = codes "720p"
compatible_hdmi ds_1920x1080 = codes "1080p"
compatible_hdmi ds_3840x2160 = codes "1080p"
compatible_hdmi ds_4096x2160 = codes "1080p"
compatible_hdmi ds_1366x768 = codes "1080p"
compatible_hdmi pixels_max = codes "1080p"

module _ (k : Constants) {W : Type 0} (hal : Hal W) (table : List Resolution) where
  -- A property is persisted; an exception ends what persistVideoPortResolution does.
  unfoldable pub persist_then :
      Bytes → Bytes → (VideoPort W → VideoPort W) → VideoPort W → VideoPort W
  persist_then key value next p =
      let reply : Bool × W = hal.persist_property key value p.world in
      let q : VideoPort W = record p { world = reply.1 } in if reply.0 then next q else q

  abbrev stop : VideoPort W → VideoPort W
  stop p = p

  -- The name cached for the analog port is made to fit the HDMI resolution.
  unfoldable pub fit_analog : DsPixels → Bool → VideoPort W → VideoPort W
  unfolding persist_then
  fit_analog px force p =
      let name = compatible_analog px in
      let q : VideoPort W = record p { comp_resolution = name } in
      if is_compatible k px (pixels_by_name k table p.comp_resolution)
      then p
      else if force
      then persist_then (key_analog k) name stop q
      else q

  -- The name cached for HDMI is made to fit the analog resolution.
  unfoldable pub fit_hdmi : DsPixels → Bool → VideoPort W → VideoPort W
  unfolding persist_then
  fit_hdmi px force p =
      let name = compatible_hdmi px in
      let q : VideoPort W = record p { hdmi_resolution = name } in
      if is_compatible k px (pixels_by_name k table p.hdmi_resolution)
      then p
      else if force
      then persist_then key_hdmi name stop q
      else q

  unfoldable pub note_hdmi : DsResolution → Bool → VideoPort W → VideoPort W
  unfolding fit_analog
  note_hdmi r force q = fit_analog r.ds_pixels force (record q { hdmi_resolution = r.ds_name })

  unfoldable pub note_component : DsResolution → Bool → VideoPort W → VideoPort W
  unfolding fit_hdmi
  note_component r force q = fit_hdmi r.ds_pixels force (record q { comp_resolution = r.ds_name })

  -- The branches of persistVideoPortResolution; the ports of other types have none.
  unfoldable pub persist_for : PortType → DsResolution → Bool → VideoPort W → VideoPort W
  unfolding persist_then fit_hdmi note_hdmi note_component
  persist_for hdmi r force p = persist_then key_hdmi r.ds_name (note_hdmi r force) p
  persist_for internal r force p = persist_then key_hdmi r.ds_name (note_hdmi r force) p
  persist_for component r force p = persist_then (key_analog k) r.ds_name (note_component r force) p
  persist_for bb r force p =
      persist_then key_baseband r.ds_name
        (λ q. fit_hdmi r.ds_pixels false (record q { bb_resolution = r.ds_name })) p
  persist_for rf r force p =
      persist_then key_rf r.ds_name
        (λ q. fit_hdmi r.ds_pixels false (record q { rf_resolution = r.ds_name })) p
  persist_for svideo r force p = p
  persist_for firewire r force p = p
  persist_for dvi r force p = p

  -- A handle of no port is taken for one of HDMI.
  abbrev or_hdmi : Option PortType → PortType
  or_hdmi none = hdmi
  or_hdmi (some t) = t

  -- persistVideoPortResolution
  unfoldable pub persist_resolution : ℕ → DsResolution → Bool → VideoPort W → VideoPort W
  unfolding persist_for persisted_port_type find_port
  persist_resolution handle r force p =
      let found : Option PortType × W = persisted_port_type hal handle p.world in
      persist_for (or_hdmi found.0) r force (record p { world = found.1 })

module _ (k : Constants) {W : Type 0} (hal : Hal W) where
  -- The end of getPersistenceValue: the HAL is told to refuse 4K.
  unfoldable pub apply_force_4k : Bytes → VideoPort W → VideoPort W
  apply_force_4k value p =
      let port : (ℕ × ℕ) × W = hal.video_port hdmi 0 p.world in
      if str_eq value (codes "true")
      then record p {
        world = if port.0.0 == 0 then (hal.set_force_disable_4k port.0.1 true port.1).1 else port.1;
      }
      else p

  -- A property is read into a variable; an exception ends the reading.
  abbrev pub read_then :
      Bytes → Bytes → (Bytes → VideoPort W → VideoPort W) → VideoPort W → VideoPort W
  read_then key default next p = elim (hal.property key default p.world) [
    | none ↦ p
    | some value ↦ next value p
  ]

  -- The five readings of getPersistenceValue, the last first.
  unfoldable pub with_bb : Bytes → VideoPort W → VideoPort W
  unfolding apply_force_4k
  with_bb name p =
      read_then key_force_4k (codes "false") apply_force_4k (record p { bb_resolution = name })

  unfoldable pub with_rf : Bytes → VideoPort W → VideoPort W
  unfolding with_bb default_by_profile
  with_rf name p =
      read_then key_baseband (default_by_profile k) with_bb (record p { rf_resolution = name })

  unfoldable pub with_comp : Bytes → VideoPort W → VideoPort W
  unfolding with_rf default_by_profile
  with_comp name p =
      read_then key_rf (default_by_profile k) with_rf (record p { comp_resolution = name })

  unfoldable pub with_hdmi : Bytes → VideoPort W → VideoPort W
  unfolding with_comp default_by_profile
  with_hdmi name p =
      read_then (key_analog k) (default_by_profile k) with_comp
        (record p { hdmi_resolution = name })

  -- getPersistenceValue
  unfoldable pub get_persistence_value : VideoPort W → VideoPort W
  unfolding with_hdmi default_by_profile
  get_persistence_value = read_then key_hdmi (default_by_profile k) with_hdmi

-- ===== src/VideoPort/Operations.antt =====
-- plugin/hal/dVideoPortImpl.h: the operations on a port's resolution. Each returns its result, 0 for ERROR_NONE
-- and 1 for ERROR_GENERAL, its output parameter if it has one, and the new state.
mod Success
pub mod Readback
pub mod Restart
pub mod Wide
pub mod Failure
use entservices_devicesettin.Prelude.{
  ℕ, Bool, true, false, not, ◌&&◌, Option, none, some, List, [], ◌∷◌, Bytes, codes, str_eq, ◌==◌,
  if◌then◌else◌,
}
use entservices_devicesettin.Device.{error_none, error_general}
use entservices_devicesettin.VideoPort.{
  InterfacePort, PortType, hdmi, internal, component, bb, rf, svideo, firewire, dvi, DsResolution,
  Resolution, Constants, as_int32, Hal, VideoPort,
}
use entservices_devicesettin.VideoPort.Conversions.{
  convert_video_port_type, mentions, from_hal, to_hal, size_of, build_resolution_from_name,
}
use entservices_devicesettin.VideoPort.Cache.{
  resolve_port_type, find_port, cached_resolution, update_cached, persist_resolution,
  get_persistence_value,
}
use entservices_devicesettin.VideoPort.Depth.{apply_preferred_depth}

module _ (k : Constants) {W : Type 0} (hal : Hal W) (table : List Resolution) where
  -- GetVideoPort
  unfoldable pub get_video_port : InterfacePort → ℕ → ℕ → VideoPort W → (ℕ × ℕ) × VideoPort W
  get_video_port port index before p =
      let reply : (ℕ × ℕ) × W = hal.video_port (convert_video_port_type port) index p.world in
      (
        if reply.0.0 == 0 then (error_none, as_int32 reply.0.1) else (error_general, before),
        record p { world = reply.1 },
      )

  -- VideoPortPreResolutionChange and VideoPortPostResolutionChange
  abbrev announce : Option (ℕ → ℕ → W → W) → DsResolution → W → W
  announce callback r w = elim callback [
    | none ↦ w
    | some f ↦ f (size_of r.ds_pixels).0 (size_of r.ds_pixels).1 w
  ]

  abbrev ask_ignore_edid : ℕ → W → W
  ask_ignore_edid handle w = elim hal.ignore_edid [ none ↦ w | some f ↦ (f handle w).1 ]

  abbrev persist_if : Bool → ℕ → DsResolution → Bool → VideoPort W → VideoPort W
  persist_if persist handle r force p =
      if persist then persist_resolution k hal table handle r force p else p

  -- The resolution is already set: it is noted, and the HAL is not asked to set it.
  unfoldable pub same_resolution :
      PortType → ℕ → DsResolution → Bool → Bool → VideoPort W → ℕ × VideoPort W
  same_resolution t handle platform persist force p =
      (error_none, persist_if persist handle platform force (update_cached k t platform.ds_name p))

  -- The resolution is set, between the two announcements.
  unfoldable pub apply_resolution :
      PortType → ℕ → DsResolution → Bool → Bool → VideoPort W → ℕ × VideoPort W
  apply_resolution t handle r persist force p =
      let reply : ℕ × W = hal.set_resolution handle r (announce hal.pre_change r p.world) in
      let q : VideoPort W = record p { world = announce hal.post_change r reply.1 } in
      if reply.0 == 0
      then (error_none, persist_if persist handle r force (update_cached k t r.ds_name q))
      else (error_general, q)

  unfoldable pub compare_and_apply :
      PortType → ℕ → DsResolution → Bool → Bool → VideoPort W → ℕ × VideoPort W
  unfolding same_resolution apply_resolution
  compare_and_apply t handle r persist force p =
      let platform : (ℕ × DsResolution) × W = hal.resolution handle p.world in
      let q : VideoPort W = record p { world = platform.1 } in
      if platform.0.0 == 0 && str_eq r.ds_name platform.0.1.ds_name
      then same_resolution t handle platform.0.1 persist force q
      else apply_resolution t handle r persist force q

  -- SetVideoPortResolution on a port that is not known to be disconnected.
  unfoldable pub unless_4k_disabled :
      PortType → ℕ → Resolution → Bool → Bool → VideoPort W → ℕ × VideoPort W
  unfolding compare_and_apply
  unless_4k_disabled t handle r persist force p =
      let disabled : (ℕ × Bool) × W = hal.force_disable_4k handle p.world in
      let q : VideoPort W = record p { world = ask_ignore_edid handle disabled.1 } in
      if disabled.0.0 == 0 && disabled.0.1 && mentions r.name (codes "2160")
      then (error_general, record p { world = disabled.1 })
      else compare_and_apply t handle (to_hal k r) persist force q

  unfoldable pub set_on_type :
      Option PortType → ℕ → Resolution → Bool → Bool → VideoPort W → ℕ × VideoPort W
  unfolding unless_4k_disabled
  set_on_type none handle r persist force p = (error_general, p)
  set_on_type (some t) handle r persist force p =
      let connected : (ℕ × Bool) × W = hal.display_connected handle p.world in
      let q : VideoPort W = record p { world = connected.1 } in
      if connected.0.0 == 0 && not connected.0.1
      then (error_general, q)
      else unless_4k_disabled t handle r persist force q

  -- SetVideoPortResolution
  unfoldable pub set_video_port_resolution :
      ℕ → Resolution → Bool → Bool → VideoPort W → ℕ × VideoPort W
  unfolding set_on_type resolve_port_type find_port
  set_video_port_resolution handle r persist force p =
      let found : Option PortType × W = resolve_port_type hal handle p.world in
      set_on_type found.0 handle r persist force (record p { world = found.1 })

  unfoldable pub from_cache : PortType → VideoPort W → Resolution
  from_cache t p = build_resolution_from_name k (cached_resolution k t p)

  -- A current resolution without a name is replaced by the cached one, and any other is cached.
  unfoldable pub note_current :
      PortType → Resolution → Bytes → VideoPort W → Resolution × VideoPort W
  unfolding from_cache
  note_current t r [] p = (from_cache t p, p)
  note_current t r (c ∷ name) p = (r, update_cached k t (c ∷ name) p)

  -- The current resolution of HDMI and of the internal port, or else the cached one.
  unfoldable pub current_resolution : PortType → ℕ → VideoPort W → (ℕ × Resolution) × VideoPort W
  unfolding from_cache note_current
  current_resolution t handle p =
      let connected : (ℕ × Bool) × W = hal.display_connected handle p.world in
      let reply : (ℕ × DsResolution) × W = hal.resolution handle connected.1 in
      let q : VideoPort W = record p { world = reply.1 } in
      let noted = note_current t (from_hal k reply.0.1) (from_hal k reply.0.1).name q in
      if connected.0.0 == 0 && not connected.0.1
      then ((error_none, from_cache t p), record p { world = connected.1 })
      else if reply.0.0 == 0
      then ((error_none, noted.0), noted.1)
      else ((error_none, from_cache t q), q)

  unfoldable pub get_of_type :
      Option PortType → ℕ → Resolution → VideoPort W → (ℕ × Resolution) × VideoPort W
  unfolding current_resolution from_cache
  get_of_type none handle before p = ((error_general, before), p)
  get_of_type (some component) handle before p = ((error_none, from_cache component p), p)
  get_of_type (some bb) handle before p = ((error_none, from_cache bb p), p)
  get_of_type (some rf) handle before p = ((error_none, from_cache rf p), p)
  get_of_type (some hdmi) handle before p = current_resolution hdmi handle p
  get_of_type (some internal) handle before p = current_resolution internal handle p
  get_of_type (some svideo) handle before p = current_resolution svideo handle p
  get_of_type (some firewire) handle before p = current_resolution firewire handle p
  get_of_type (some dvi) handle before p = current_resolution dvi handle p

  -- GetVideoPortResolution; `before` is what the output parameter holds.
  unfoldable pub get_video_port_resolution :
      ℕ → Resolution → VideoPort W → (ℕ × Resolution) × VideoPort W
  unfolding get_of_type resolve_port_type find_port
  get_video_port_resolution handle before p =
      let found : Option PortType × W = resolve_port_type hal handle p.world in
      get_of_type found.0 handle before (record p { world = found.1 })

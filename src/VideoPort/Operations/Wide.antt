-- ===== src/VideoPort/Operations/Wide.antt =====
-- Handles that the interface cuts: the HAL's are pointers, the interface's have 32 bits.
use entservices_devicesettin.Prelude.{
  ℕ, ◌≡◌, ◌≢◌, refl, ◌∙◌, Bool, true, none, some, List, [], ◌∷◌, Bytes, arith, ◌==◌,
}
use entservices_devicesettin.Device.{error_none}
use entservices_devicesettin.VideoPort.{
  PortType, hdmi, internal, component, bb, rf, DsResolution, Resolution, Constants, as_intptr, Hal,
  VideoPort, key_hdmi,
}
use entservices_devicesettin.VideoPort.Conversions.{to_hal}
use entservices_devicesettin.VideoPort.Cache.{
  update_cached, persist_resolution, persisted_port_type, resolve_port_type,
}
use entservices_devicesettin.VideoPort.Cache.Ports.{IsSteady, first_of, persisted_port_type_first}
use entservices_devicesettin.VideoPort.Operations.{set_video_port_resolution}
use entservices_devicesettin.VideoPort.Operations.Restart.{Persists, persist_for_stored}
use entservices_devicesettin.VideoPort.Operations.Success.{set_noted}

first_of-none :
    (ports : PortType → ℕ × ℕ) (ts : List PortType) (n : ℕ)
    → ((t : PortType) → (ports t).1 ≢ n)
    → first_of ports ts (λ h. h == n) ≡ none
unfolding first_of
first_of-none ports [] n d = refl
first_of-none ports (t ∷ ts) n d = ground (arith, d t, first_of-none ports ts n d)

module _ (k : Constants) {W : Type 0} (hal : Hal W) (table : List Resolution) where
  stored_wide :
      (laws : Persists hal) (handle : ℕ) (r : DsResolution) (force : Bool) (p : VideoPort W)
      (default : Bytes)
      → (persisted_port_type hal handle p.world).0 ≡ none
      → hal.property key_hdmi default (persist_resolution k hal table handle r force p).world
        ≡ some r.ds_name
  unfolding persist_resolution
  stored_wide laws handle r force p default e =
      rw e (persist_for_stored k hal table laws hdmi r force _ default tt)

  -- Where the handle that the HAL gave is no longer the port's after the interface has cut it to 32 bits and the
  -- comparison has extended it again, nor any other port's, a resolution that is set with success on the port, to
  -- be persisted, is persisted as the HDMI port's, whatever the port is.
  pub set_video_port_resolution_wide :
      (laws : Persists hal) (ports : PortType → ℕ × ℕ) (steady : IsSteady hal ports) (handle : ℕ)
      (t : PortType) (r : Resolution) (force : Bool) (p : VideoPort W) (default : Bytes)
      → ((u : PortType) → (ports u).1 ≢ as_intptr handle)
      → (to_hal k r).ds_name ≢ []
      → (resolve_port_type hal handle p.world).0 ≡ some t
      → (set_video_port_resolution k hal table handle r true force p).0 ≡ error_none
      → hal.property key_hdmi default
          (set_video_port_resolution k hal table handle r true force p).1.world
        ≡ some (to_hal k r).ds_name
  set_video_port_resolution_wide laws ports steady handle t r force p default d n e =
      set_noted k hal table handle t true force
        (λ name q. hal.property key_hdmi default q.world ≡ some name)
        (λ r q m. stored_wide laws handle r force (update_cached k t r.ds_name q) default (
          persisted_port_type_first hal ports steady handle _
          ∙ first_of-none ports (hdmi ∷ component ∷ internal ∷ bb ∷ rf ∷ []) (as_intptr handle) d))
        r p n e

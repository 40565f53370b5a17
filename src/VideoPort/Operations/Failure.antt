-- ===== src/VideoPort/Operations/Failure.antt =====
-- Where SetVideoPortResolution fails, it leaves the cache and the status file alone.
use entservices_devicesettin.Prelude.{
  ℕ, ◌≡◌, refl, Bool, not, ◌&&◌, Option, none, some, List, codes, str_eq, arith, ◌==◌, by_branch,
}
use entservices_devicesettin.Device.{error_none, error_general}
use entservices_devicesettin.VideoPort.{
  PortType, DsResolution, Resolution, Constants, Hal, VideoPort,
}
use entservices_devicesettin.VideoPort.Conversions.{to_hal, mentions}
use entservices_devicesettin.VideoPort.Cache.{update_cached, resolve_port_type}
use entservices_devicesettin.VideoPort.Operations.{
  announce, ask_ignore_edid, persist_if, same_resolution, apply_resolution, compare_and_apply,
  unless_4k_disabled, set_on_type, set_video_port_resolution,
}

-- But for the world, the state is the one before.
abbrev pub OnlyWorld : {W : Type 0} → VideoPort W → VideoPort W → Type 0
OnlyWorld p q = q ≡ record p { world = q.world }

module _ (k : Constants) {W : Type 0} (hal : Hal W) (table : List Resolution) (handle : ℕ)
    (persist force : Bool) (p : VideoPort W) where
  abbrev Left : ℕ × VideoPort W → Type 0
  Left result = result.0 ≡ error_general → OnlyWorld p result.1

  succeeded : (q : VideoPort W) → Left (error_none, q)
  succeeded q h = absurd (omega (arith, h))

  compare-Left :
      (t : PortType) (r : DsResolution) (w : W)
      → Left (compare_and_apply k hal table t handle r persist force (record p { world = w }))
  unfolding compare_and_apply same_resolution apply_resolution
  compare-Left t r w =
      let platform = hal.resolution handle w in
      let q : VideoPort W = record p { world = platform.1 } in
      let reply = hal.set_resolution handle r (announce k hal table hal.pre_change r platform.1) in
      by_branch Left (platform.0.0 == 0 && str_eq r.ds_name platform.0.1.ds_name)
        (same_resolution k hal table t handle platform.0.1 persist force q)
        (apply_resolution k hal table t handle r persist force q) (λ e. succeeded _)
        (λ e.
          by_branch Left (reply.0 == 0)
            (
              error_none,
              persist_if k hal table persist handle r force (
                  update_cached k t r.ds_name
                    (record q { world = announce k hal table hal.post_change r reply.1 })),
            )
            (error_general, record q { world = announce k hal table hal.post_change r reply.1 })
            (λ d. succeeded _) (λ d h. refl))

  type-Left :
      (o : Option PortType) (r : Resolution) (w : W)
      → Left (set_on_type k hal table o handle r persist force (record p { world = w }))
  unfolding set_on_type unless_4k_disabled
  type-Left none r w = λ h. refl
  type-Left (some t) r w =
      let connected = hal.display_connected handle w in
      let disabled = hal.force_disable_4k handle connected.1 in
      let next = ask_ignore_edid k hal table handle disabled.1 in
      by_branch Left (connected.0.0 == 0 && not connected.0.1)
        (error_general, record p { world = connected.1 })
        (unless_4k_disabled k hal table t handle r persist force (record p { world = connected.1 }))
        (λ e h. refl)
        (λ e.
          by_branch Left (disabled.0.0 == 0 && disabled.0.1 && mentions r.name (codes "2160"))
            (error_general, record p { world = disabled.1 })
            (compare_and_apply k hal table t handle (to_hal k r) persist force
              (record p { world = next }))
            (λ d h. refl) (λ d. compare-Left t (to_hal k r) next))

  -- A resolution request that fails, for whatever reason, leaves every cached name, the HDCP status and the
  -- status file as they were; only the world, which the HAL and the callbacks share, may have changed.
  pub set_video_port_resolution-failed :
      (r : Resolution)
      → (set_video_port_resolution k hal table handle r persist force p).0 ≡ error_general
      → OnlyWorld p (set_video_port_resolution k hal table handle r persist force p).1
  unfolding set_video_port_resolution
  set_video_port_resolution-failed r =
      type-Left (resolve_port_type hal handle p.world).0 r (resolve_port_type hal handle p.world).1

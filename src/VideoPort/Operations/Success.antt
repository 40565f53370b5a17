-- ===== src/VideoPort/Operations/Success.antt =====
-- Where SetVideoPortResolution succeeds, it ends by noting the name that was set.
use entservices_devicesettin.Prelude.{
  ℕ, ◌≡◌, ◌≢◌, sym, subst, ◌∙◌, Bool, true, false, not, ◌&&◌, some, List, [], Bytes, codes, str_eq,
  str_eq_iff, by_branch, arith, ◌==◌,
}
use entservices_devicesettin.Device.{error_none, error_general}
use entservices_devicesettin.VideoPort.{
  PortType, DsResolution, Resolution, Constants, Hal, VideoPort,
}
use entservices_devicesettin.VideoPort.Conversions.{to_hal, mentions}
use entservices_devicesettin.VideoPort.Cache.{update_cached, resolve_port_type}
use entservices_devicesettin.VideoPort.Operations.{
  announce, ask_ignore_edid, persist_if, same_resolution, apply_resolution, compare_and_apply,
  unless_4k_disabled, set_on_type, set_video_port_resolution,
}

both : (a b : Bool) → a && b ≡ true → b ≡ true
both true b h = h
both false b h = absurd (cc)

-- `Good name p`: what holds of the state once a resolution of that name was noted, and persisted if asked.
module _ (k : Constants) {W : Type 0} (hal : Hal W) (table : List Resolution) (handle : ℕ)
    (t : PortType) (persist force : Bool) (Good : Bytes → VideoPort W → Type 0)
    (good : (r : DsResolution) (p : VideoPort W)
      → r.ds_name ≢ []
      → Good r.ds_name
          (persist_if k hal table persist handle r force (update_cached k t r.ds_name p))) where
  abbrev Noted : Bytes → ℕ × VideoPort W → Type 0
  Noted name result = result.0 ≡ error_none → Good name result.1

  failed : (name : Bytes) (q : VideoPort W) → Noted name (error_general, q)
  failed name q h = absurd (omega (arith, h))

  apply-Noted :
      (r : DsResolution) (p : VideoPort W)
      → r.ds_name ≢ []
      → Noted r.ds_name (apply_resolution k hal table t handle r persist force p)
  unfolding apply_resolution
  apply-Noted r p n =
      let reply = hal.set_resolution handle r (announce k hal table hal.pre_change r p.world) in
      let q : VideoPort W = record p { world = announce k hal table hal.post_change r reply.1 } in
      by_branch (Noted r.ds_name) (reply.0 == 0)
        (error_none, persist_if k hal table persist handle r force (update_cached k t r.ds_name q))
        (error_general, q) (λ e h. good r q n) (λ e. failed r.ds_name q)

  same-Noted :
      (r platform : DsResolution) (p : VideoPort W)
      → r.ds_name ≢ []
      → platform.ds_name ≡ r.ds_name
      → Noted r.ds_name (same_resolution k hal table t handle platform persist force p)
  unfolding same_resolution
  same-Noted r platform p n e h =
      subst
        (λ name. Good name (
          persist_if k hal table persist handle platform force
            (update_cached k t platform.ds_name p)))
        e (good platform p (λ z. n (sym e ∙ z)))

  compare-Noted :
      (r : DsResolution) (p : VideoPort W)
      → r.ds_name ≢ []
      → Noted r.ds_name (compare_and_apply k hal table t handle r persist force p)
  unfolding compare_and_apply
  compare-Noted r p n =
      let platform = (hal.resolution handle p.world).0.1 in
      by_branch (Noted r.ds_name)
        ((hal.resolution handle p.world).0.0 == 0 && str_eq r.ds_name platform.ds_name) _ _
        (λ e.
          same-Noted r platform _ n (sym ((str_eq_iff r.ds_name platform.ds_name).0 (both _ _ e))))
        (λ e. apply-Noted r _ n)

  unless-Noted :
      (r : Resolution) (p : VideoPort W)
      → (to_hal k r).ds_name ≢ []
      → Noted (to_hal k r).ds_name (unless_4k_disabled k hal table t handle r persist force p)
  unfolding unless_4k_disabled
  unless-Noted r p n =
      let disabled = hal.force_disable_4k handle p.world in
      let q : VideoPort W = record p { world = ask_ignore_edid k hal table handle disabled.1 } in
      by_branch (Noted (to_hal k r).ds_name)
        (disabled.0.0 == 0 && disabled.0.1 && mentions r.name (codes "2160"))
        (error_general, record p { world = disabled.1 })
        (compare_and_apply k hal table t handle (to_hal k r) persist force q) (λ e. failed _ _)
        (λ e. compare-Noted (to_hal k r) q n)

  type-Noted :
      (r : Resolution) (p : VideoPort W)
      → (to_hal k r).ds_name ≢ []
      → Noted (to_hal k r).ds_name (set_on_type k hal table (some t) handle r persist force p)
  unfolding set_on_type
  type-Noted r p n =
      let connected = hal.display_connected handle p.world in
      let q : VideoPort W = record p { world = connected.1 } in
      by_branch (Noted (to_hal k r).ds_name) (connected.0.0 == 0 && not connected.0.1)
        (error_general, q) (unless_4k_disabled k hal table t handle r persist force q)
        (λ e. failed _ _) (λ e. unless-Noted r q n)

  pub set_noted :
      (r : Resolution) (p : VideoPort W)
      → (to_hal k r).ds_name ≢ []
      → (resolve_port_type hal handle p.world).0 ≡ some t
      → (set_video_port_resolution k hal table handle r persist force p).0 ≡ error_none
      → Good (to_hal k r).ds_name (set_video_port_resolution k hal table handle r persist force p).1
  unfolding set_video_port_resolution
  set_noted r p n e =
      subst
        (λ o. Noted (to_hal k r).ds_name (
          set_on_type k hal table o handle r persist force
            (record p { world = (resolve_port_type hal handle p.world).1 })))
        (sym e) (type-Noted r _ n)

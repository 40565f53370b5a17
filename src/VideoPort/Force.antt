-- ===== src/VideoPort/Force.antt =====
-- plugin/hal/dVideoPortImpl.h: the refusal of resolutions with 2160 lines, which the HAL holds and the persistence
-- keeps.
use entservices_devicesettin.Prelude.{
  ℕ, ◌≡◌, refl, ap, ◌∙◌, str_eq, Bool, true, false, some, List, Bytes, codes, ◌==◌, if◌then◌else◌,
}
use entservices_devicesettin.Device.{error_none, error_general}
use entservices_devicesettin.VideoPort.{
  hdmi, Constants, Hal, VideoPort, key_hdmi, key_baseband, key_rf, key_force_4k, static_values,
}
use entservices_devicesettin.VideoPort.Cache.{
  key_analog, default_by_profile, apply_force_4k, read_then, with_bb, with_rf, with_comp, with_hdmi,
  get_persistence_value,
}
use entservices_devicesettin.VideoPort.Operations.Restart.{Persists, SameProperties}

module _ {W : Type 0} (hal : Hal W) where
  abbrev true_or_false : Bool → Bytes
  true_or_false flag = if flag then codes "true" else codes "false"

  -- SetForceDisable4K: an exception of the persistence is caught.
  unfoldable pub set_force_disable_4k : ℕ → Bool → VideoPort W → ℕ × VideoPort W
  set_force_disable_4k handle disable p =
      let reply : ℕ × W = hal.set_force_disable_4k handle disable p.world in
      if reply.0 == 0
      then (
        error_none,
        record p { world = (hal.persist_property key_force_4k (true_or_false disable) reply.1).1 },
      )
      else (error_general, record p { world = reply.1 })

  -- GetForceDisable4K
  unfoldable pub get_force_disable_4k : ℕ → VideoPort W → (ℕ × Bool) × VideoPort W
  get_force_disable_4k handle p =
      let reply : (ℕ × Bool) × W = hal.force_disable_4k handle p.world in
      (
        if reply.0.0 == 0 then (error_none, reply.0.1) else (error_general, false),
        record p { world = reply.1 },
      )

-- The HAL's port 0 of HDMI has the handle, and takes and holds the refusal.
pub record HoldsForce {W : Type 0} (hal : Hal W) (handle : ℕ) : Type 0 where
  pub is_hdmi : (w : W) → (hal.video_port hdmi 0 w).0 ≡ (0, handle)
  pub sets : (flag : Bool) (w : W) → (hal.set_force_disable_4k handle flag w).0 ≡ 0
  pub force_after :
      (flag : Bool) (w : W)
      → (hal.force_disable_4k handle (hal.set_force_disable_4k handle flag w).1).0 ≡ (0, flag)

module _ (k : Constants) {W : Type 0} (hal : Hal W) where
  read_step :
      (key default value : Bytes) (next : Bytes → VideoPort W → VideoPort W) (p : VideoPort W)
      → hal.property key default p.world ≡ some value
      → read_then k hal key default next p ≡ next value p
  read_step key default value next p e = rw (e, read_then) refl

  -- All readings of getPersistenceValue succeed: what is left is to act on the last one.
  all_read :
      (p : VideoPort W) (value : Bytes)
      → ((key default : Bytes) → (v : Bytes) × (hal.property key default p.world ≡ some v))
      → hal.property key_force_4k (codes "false") p.world ≡ some value
      → (q : VideoPort W) × (q.world ≡ p.world)
        × (get_persistence_value k hal p ≡ apply_force_4k k hal value q)
  unfolding get_persistence_value with_hdmi with_comp with_rf with_bb
  all_read p value reads e =
      let d = default_by_profile k in
      let v1 = reads key_hdmi d in
      let v2 = reads (key_analog k) d in
      let v3 = reads key_rf d in
      let v4 = reads key_baseband d in
      let q1 : VideoPort W = record p { hdmi_resolution = v1.0 } in
      let q2 : VideoPort W = record q1 { comp_resolution = v2.0 } in
      let q3 : VideoPort W = record q2 { rf_resolution = v3.0 } in
      let q4 : VideoPort W = record q3 { bb_resolution = v4.0 } in
      (
        q4,
        refl,
        read_step key_hdmi d v1.0 (with_hdmi k hal) p v1.1
            ∙ read_step (key_analog k) d v2.0 (with_comp k hal) q1 v2.1
            ∙ read_step key_rf d v3.0 (with_rf k hal) q2 v3.1
            ∙ read_step key_baseband d v4.0 (with_bb k hal) q3 v4.1
            ∙ read_step key_force_4k (codes "false") value (apply_force_4k k hal) q4 e,
      )

module _ (k : Constants) {W : Type 0} (hal : Hal W) (handle : ℕ) (laws : HoldsForce hal handle)
    (persists : Persists hal) where
  applied :
      (q : VideoPort W)
      → (get_force_disable_4k hal handle (apply_force_4k k hal (codes "true") q)).0
        ≡ (error_none, true)
  unfolding get_force_disable_4k apply_force_4k str_eq
  applied q =
      rw (laws.is_hdmi q.world, laws.force_after true (hal.video_port hdmi 0 q.world).1) refl

  -- Where the HAL takes and holds the refusal of 4K, and the persistence does as it is documented to do, a refusal
  -- that was set on port 0 of HDMI is in force again in a process that starts on a world with the same properties,
  -- whatever the HAL has kept of it.
  pub set_force_disable_4k-restarted :
      (p : VideoPort W) (lines : List Bytes) (w : W)
      → SameProperties hal (set_force_disable_4k hal handle true p).1.world w
      → ((set_force_disable_4k hal handle true p).0 ≡ error_none)
        × ((get_force_disable_4k hal handle (get_persistence_value k hal (static_values lines w))).0
            ≡ (error_none, true))
  unfolding set_force_disable_4k
  set_force_disable_4k-restarted p lines w s =
      let reply = hal.set_force_disable_4k handle true p.world in
      let stored =
        s.same key_force_4k (codes "false")
        ∙ rw (laws.sets true p.world)
            (persists.get_same key_force_4k (codes "true") (codes "false") reply.1) in
      let r = all_read k hal (static_values lines w) (codes "true") s.reads stored in
      (
        rw (laws.sets true p.world) refl,
        ap (λ q. (get_force_disable_4k hal handle q).0) r.2 ∙ applied r.0,
      )

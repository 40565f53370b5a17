-- ===== src/VideoPort/Operations/Readback.antt =====
-- What GetVideoPortResolution answers after SetVideoPortResolution.
use entservices_devicesettin.Prelude.{
  ℕ, ◌≡◌, ◌≢◌, ◌<◌, refl, ap, ◌∙◌, Bool, true, false, some, List, [], ◌∷◌, Bytes, arith, if_true,
  if_false, Bool-cases, inl, inr,
}
use entservices_devicesettin.Device.{error_none}
use entservices_devicesettin.VideoPort.{
  PortType, hdmi, internal, component, bb, rf, svideo, firewire, dvi, DsResolution, Resolution,
  Constants, word32, Hal, VideoPort, key_hdmi, key_baseband, key_rf,
}
use entservices_devicesettin.VideoPort.Conversions.{to_hal, build_resolution_from_name}
use entservices_devicesettin.VideoPort.Cache.{
  key_analog, cached_resolution, update_cached, persist_then, note_hdmi, note_component, fit_analog,
  fit_hdmi, persist_for, persist_resolution, persisted_port_type, resolve_port_type,
}
use entservices_devicesettin.VideoPort.Cache.Ports.{
  IsSteady, Fits, resolve_port_type_steady, persisted_port_type-resolve,
}
use entservices_devicesettin.VideoPort.Operations.{
  persist_if, set_video_port_resolution, from_cache, get_of_type, get_video_port_resolution,
}
use entservices_devicesettin.VideoPort.Operations.Success.{set_noted}

-- The ports whose resolution has a cache.
abbrev pub IsCached : PortType → Type 0
IsCached svideo = ⊥
IsCached firewire = ⊥
IsCached dvi = ⊥
IsCached t = Unit

module _ (k : Constants) {W : Type 0} where
  cached_update :
      (t : PortType) (name : Bytes) (p : VideoPort W)
      → IsCached t
      → name ≢ []
      → cached_resolution k t (update_cached k t name p) ≡ name
  unfolding cached_resolution update_cached
  cached_update t [] p c n = absurd (n refl)
  cached_update hdmi (c ∷ name) p i n = refl
  cached_update internal (c ∷ name) p i n = refl
  cached_update component (c ∷ name) p i n = refl
  cached_update bb (c ∷ name) p i n = refl
  cached_update rf (c ∷ name) p i n = refl
  cached_update svideo (c ∷ name) p i n = absurd i
  cached_update firewire (c ∷ name) p i n = absurd i
  cached_update dvi (c ∷ name) p i n = absurd i

  pub cached_hdmi :
      (q : VideoPort W) (name : Bytes)
      → name ≢ []
      → q.hdmi_resolution ≡ name
      → cached_resolution k hdmi q ≡ name
  unfolding cached_resolution
  cached_hdmi q [] n e = absurd (n refl)
  cached_hdmi q (c ∷ name) n e =
      ap (λ s. cached_resolution k hdmi (record q { hdmi_resolution = s })) e

  pub cached_internal :
      (q : VideoPort W) (name : Bytes)
      → name ≢ []
      → q.hdmi_resolution ≡ name
      → cached_resolution k internal q ≡ name
  unfolding cached_resolution
  cached_internal q [] n e = absurd (n refl)
  cached_internal q (c ∷ name) n e =
      ap (λ s. cached_resolution k internal (record q { hdmi_resolution = s })) e

  pub cached_component :
      (q : VideoPort W) (name : Bytes)
      → name ≢ []
      → q.comp_resolution ≡ name
      → cached_resolution k component q ≡ name
  unfolding cached_resolution
  cached_component q [] n e = absurd (n refl)
  cached_component q (c ∷ name) n e =
      ap (λ s. cached_resolution k component (record q { comp_resolution = s })) e

  pub cached_bb :
      (q : VideoPort W) (name : Bytes)
      → name ≢ []
      → q.bb_resolution ≡ name
      → cached_resolution k bb q ≡ name
  unfolding cached_resolution
  cached_bb q [] n e = absurd (n refl)
  cached_bb q (c ∷ name) n e = ap (λ s. cached_resolution k bb (record q { bb_resolution = s })) e

  pub cached_rf :
      (q : VideoPort W) (name : Bytes)
      → name ≢ []
      → q.rf_resolution ≡ name
      → cached_resolution k rf q ≡ name
  unfolding cached_resolution
  cached_rf q [] n e = absurd (n refl)
  cached_rf q (c ∷ name) n e = ap (λ s. cached_resolution k rf (record q { rf_resolution = s })) e

  cached_world :
      (t : PortType) (w : W) (p : VideoPort W)
      → cached_resolution k t (record p { world = w }) ≡ cached_resolution k t p
  unfolding cached_resolution
  cached_world hdmi w p = refl
  cached_world internal w p = refl
  cached_world component w p = refl
  cached_world bb w p = refl
  cached_world rf w p = refl
  cached_world svideo w p = refl
  cached_world firewire w p = refl
  cached_world dvi w p = refl

module _ (k : Constants) {W : Type 0} (hal : Hal W) (table : List Resolution) where
  -- Whether or not the persistence throws, the name holds for the port.
  holds_then :
      (t : PortType) (name key value : Bytes) (next : VideoPort W → VideoPort W) (p : VideoPort W)
      → cached_resolution k t p ≡ name
      → ((w : W) → cached_resolution k t (next (record p { world = w })) ≡ name)
      → cached_resolution k t (persist_then k hal table key value next p) ≡ name
  unfolding persist_then
  holds_then t name key value next p h n =
      let w = (hal.persist_property key value p.world).1 in
      elim (Bool-cases (hal.persist_property key value p.world).0) [
        | inl e ↦ ap (cached_resolution k t) (if_true _ _ _ e) ∙ n w
        | inr e ↦ ap (cached_resolution k t) (if_false _ _ _ e) ∙ (cached_world k t w p ∙ h)
      ]

  -- The fitting of one cached name leaves the other.
  fit_keeps :
      (r : DsResolution) (force : Bool) (q : VideoPort W)
      → ((note_hdmi k hal table r force q).hdmi_resolution ≡ r.ds_name)
        × (((note_component k hal table r force q).comp_resolution ≡ r.ds_name)
            × (((fit_hdmi k hal table r.ds_pixels force q).bb_resolution ≡ q.bb_resolution)
                × ((fit_hdmi k hal table r.ds_pixels force q).rf_resolution ≡ q.rf_resolution)))
  unfolding note_hdmi note_component fit_analog fit_hdmi persist_then
  fit_keeps r force q = ground arith

  cached_persist :
      (t : PortType) (r : DsResolution) (force : Bool) (p : VideoPort W)
      → r.ds_name ≢ []
      → cached_resolution k t p ≡ r.ds_name
      → cached_resolution k t (persist_for k hal table t r force p) ≡ r.ds_name
  unfolding persist_for
  cached_persist hdmi r force p n h =
      holds_then hdmi r.ds_name key_hdmi r.ds_name (note_hdmi k hal table r force) p h
        (λ w. cached_hdmi k _ r.ds_name n (fit_keeps r force (record p { world = w })).0)
  cached_persist internal r force p n h =
      holds_then internal r.ds_name key_hdmi r.ds_name (note_hdmi k hal table r force) p h
        (λ w. cached_internal k _ r.ds_name n (fit_keeps r force (record p { world = w })).0)
  cached_persist component r force p n h =
      holds_then component r.ds_name (key_analog k) r.ds_name (note_component k hal table r force) p
        h (λ w. cached_component k _ r.ds_name n (fit_keeps r force (record p { world = w })).1.0)
  cached_persist bb r force p n h =
      holds_then bb r.ds_name key_baseband r.ds_name
        (λ q. fit_hdmi k hal table r.ds_pixels false (record q { bb_resolution = r.ds_name })) p h
        (λ w.
          cached_bb k _ r.ds_name n
            (fit_keeps r false (record p { world = w; bb_resolution = r.ds_name })).1.1.0)
  cached_persist rf r force p n h =
      holds_then rf r.ds_name key_rf r.ds_name
        (λ q. fit_hdmi k hal table r.ds_pixels false (record q { rf_resolution = r.ds_name })) p h
        (λ w.
          cached_rf k _ r.ds_name n
            (fit_keeps r false (record p { world = w; rf_resolution = r.ds_name })).1.1.1)
  cached_persist svideo r force p n h = h
  cached_persist firewire r force p n h = h
  cached_persist dvi r force p n h = h

  module _ (ports : PortType → ℕ × ℕ) (steady : IsSteady hal ports) (handle : ℕ)
      (t : PortType) where
    -- Where the resolution is persisted, the handle is taken for the same port again.
    abbrev TakenFor : Bool → Type 0
    TakenFor persist = persist ≡ true → (w : W) → (persisted_port_type hal handle w).0 ≡ some t

    cached_persist_if :
        (persist force : Bool) (r : DsResolution) (p : VideoPort W)
        → TakenFor persist
        → r.ds_name ≢ []
        → cached_resolution k t p ≡ r.ds_name
        → cached_resolution k t (persist_if k hal table persist handle r force p) ≡ r.ds_name
    unfolding persist_resolution
    cached_persist_if false force r p taken n h = h
    cached_persist_if true force r p taken n h = rw (taken refl p.world) (
        cached_persist t r force (record p { world = (persisted_port_type hal handle p.world).1 }) n
          (cached_world k t _ p ∙ h))

    -- The resolution that was set is cached for the port, under the name that fits the HAL's buffer.
    pub set_video_port_resolution-cached :
        (r : Resolution) (persist force : Bool) (p : VideoPort W)
        → IsCached t
        → handle < word32
        → Fits hal ports steady t
        → (to_hal k r).ds_name ≢ []
        → (resolve_port_type hal handle p.world).0 ≡ some t
        → (set_video_port_resolution k hal table handle r persist force p).0 ≡ error_none
        → cached_resolution k t (set_video_port_resolution k hal table handle r persist force p).1
          ≡ (to_hal k r).ds_name
    set_video_port_resolution-cached r persist force p c l f n e =
        set_noted k hal table handle t persist force (λ name q. cached_resolution k t q ≡ name)
          (λ r q m.
            cached_persist_if persist force r (update_cached k t r.ds_name q)
              (λ h w. persisted_port_type-resolve hal ports steady handle t p.world w l f e) m
              (cached_update k t r.ds_name q c m))
          r p n e

-- The ports that GetVideoPortResolution answers from the cache.
abbrev pub IsAnalog : PortType → Type 0
IsAnalog component = Unit
IsAnalog bb = Unit
IsAnalog rf = Unit
IsAnalog t = ⊥

analog_cached : (t : PortType) → IsAnalog t → IsCached t
analog_cached component a = tt
analog_cached bb a = tt
analog_cached rf a = tt
analog_cached hdmi a = absurd a
analog_cached internal a = absurd a
analog_cached svideo a = absurd a
analog_cached firewire a = absurd a
analog_cached dvi a = absurd a

module _ (k : Constants) {W : Type 0} (hal : Hal W) (table : List Resolution) where
  get_analog :
      (t : PortType) (handle : ℕ) (before : Resolution) (p : VideoPort W)
      → IsAnalog t
      → (get_of_type k hal table (some t) handle before p).0
        ≡ (error_none, build_resolution_from_name k (cached_resolution k t p))
  unfolding get_of_type from_cache
  get_analog component handle before p a = refl
  get_analog bb handle before p a = refl
  get_analog rf handle before p a = refl
  get_analog hdmi handle before p a = absurd a
  get_analog internal handle before p a = absurd a
  get_analog svideo handle before p a = absurd a
  get_analog firewire handle before p a = absurd a
  get_analog dvi handle before p a = absurd a

  -- A resolution whose name is not empty, set with success on a component, composite or RF port, persisted or
  -- not, is what GetVideoPortResolution answers next for the handle, rebuilt from the name as the HAL's buffer
  -- holds it: if the HAL gives each port one handle and the port's fits 32 bits.
  pub set_video_port_resolution-get :
      (ports : PortType → ℕ × ℕ) (steady : IsSteady hal ports) (handle : ℕ) (t : PortType)
      (r before : Resolution) (persist force : Bool) (p : VideoPort W)
      → IsAnalog t
      → handle < word32
      → Fits hal ports steady t
      → (to_hal k r).ds_name ≢ []
      → (resolve_port_type hal handle p.world).0 ≡ some t
      → (set_video_port_resolution k hal table handle r persist force p).0 ≡ error_none
      → (get_video_port_resolution k hal table handle before
          (set_video_port_resolution k hal table handle r persist force p).1).0
        ≡ (error_none, build_resolution_from_name k (to_hal k r).ds_name)
  unfolding get_video_port_resolution
  set_video_port_resolution-get ports steady handle t r before persist force p a l f n e h =
      let q = (set_video_port_resolution k hal table handle r persist force p).1 in
      let found = resolve_port_type_steady hal ports steady handle q.world p.world ∙ e in
      ap
        (λ o.
          (get_of_type k hal table o handle before
            (record q { world = (resolve_port_type hal handle q.world).1 })).0)
        found
      ∙ get_analog t handle before _ a
      ∙ ap (λ name. (error_none, build_resolution_from_name k name))
          (cached_world k t _ q
            ∙ set_video_port_resolution-cached k hal table ports steady handle t r persist force p
                (analog_cached t a) l f n e h)

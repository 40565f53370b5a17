-- ===== src/VideoPort/Operations/Restart.antt =====
-- What the cache holds of a resolution that was persisted, once the process has started again.
use entservices_devicesettin.Prelude.{
  ℕ, ◌≡◌, ◌≢◌, ◌<◌, refl, sym, ap, subst, str_eq, str_eq_iff, ◌∙◌, Bool, true, false, none, some,
  List, [], Bytes, codes, arith, if_true, if_false, Bool-cases, inl, inr,
}
use entservices_devicesettin.Device.{error_none}
use entservices_devicesettin.VideoPort.{
  PortType, hdmi, internal, component, bb, rf, svideo, firewire, dvi, DsPixels, DsResolution,
  Resolution, Constants, word32, Hal, VideoPort, key_hdmi, key_baseband, key_component, key_rf,
  key_force_4k, static_values,
}
use entservices_devicesettin.VideoPort.Conversions.{to_hal}
use entservices_devicesettin.VideoPort.Cache.{
  key_analog, default_by_profile, cached_resolution, update_cached, persist_then, note_hdmi,
  note_component, fit_analog, fit_hdmi, persist_for, persist_resolution, persisted_port_type,
  resolve_port_type, compatible_analog, compatible_hdmi, get_persistence_value, apply_force_4k,
  read_then, with_hdmi, with_comp, with_rf, with_bb,
}
use entservices_devicesettin.VideoPort.Cache.Ports.{IsSteady, Fits, persisted_port_type-resolve}
use entservices_devicesettin.VideoPort.Operations.{set_video_port_resolution}
use entservices_devicesettin.VideoPort.Operations.Readback.{
  IsCached, cached_hdmi, cached_internal, cached_component, cached_bb, cached_rf,
}
use entservices_devicesettin.VideoPort.Operations.Success.{set_noted}

-- The documented behavior of the persistence: it does not throw, it reads back what was persisted, and keeps
-- the other properties.
pub record Persists {W : Type 0} (hal : Hal W) : Type 0 where
  pub persists : (key value : Bytes) (w : W) → (hal.persist_property key value w).0 ≡ true
  pub get_same :
      (key value default : Bytes) (w : W)
      → hal.property key default (hal.persist_property key value w).1 ≡ some value
  pub get_other :
      (key other value default : Bytes) (w : W)
      → key ≢ other
      → hal.property key default (hal.persist_property other value w).1 ≡ hal.property key default w

-- A later state of the world with the same properties, none of which throws.
pub record SameProperties {W : Type 0} (hal : Hal W) (w w' : W) : Type 0 where
  pub same : (key default : Bytes) → hal.property key default w' ≡ hal.property key default w
  pub reads : (key default : Bytes) → (v : Bytes) × (hal.property key default w' ≡ some v)

-- The key under which the resolution of a port is persisted.
abbrev pub key_for : Constants → PortType → Bytes
key_for k component = key_analog k
key_for k bb = key_baseband
key_for k rf = key_rf
key_for k t = key_hdmi

some_injective : {a b : Bytes} → some a ≡ some b → a ≡ b
some_injective e = cc

false-ne-true : false ≢ true
false-ne-true h = cc

ne_of_str_eq : (s t : Bytes) → str_eq s t ≡ false → s ≢ t
ne_of_str_eq s t h e = false-ne-true (sym h ∙ (str_eq_iff s t).1 e)

baseband-ne-hdmi : key_baseband ≢ key_hdmi
unfolding str_eq
baseband-ne-hdmi = ne_of_str_eq key_baseband key_hdmi refl

rf-ne-hdmi : key_rf ≢ key_hdmi
unfolding str_eq
rf-ne-hdmi = ne_of_str_eq key_rf key_hdmi refl

component-ne-hdmi : key_component ≢ key_hdmi
unfolding str_eq
component-ne-hdmi = ne_of_str_eq key_component key_hdmi refl

analog-ne-hdmi : (k : Constants) → key_analog k ≢ key_hdmi
analog-ne-hdmi k = elim (Bool-cases k.only_composite) [
  | inl e ↦ subst (λ key. key ≢ key_hdmi) (sym (if_true _ _ _ e)) baseband-ne-hdmi
  | inr e ↦ subst (λ key. key ≢ key_hdmi) (sym (if_false _ _ _ e)) component-ne-hdmi
]

module _ (k : Constants) {W : Type 0} (hal : Hal W) (table : List Resolution)
    (laws : Persists hal) where
  fit_analog_keeps :
      (px : DsPixels) (force : Bool) (p : VideoPort W) (default : Bytes)
      → hal.property key_hdmi default (fit_analog k hal table px force p).world
        ≡ hal.property key_hdmi default p.world
  unfolding fit_analog persist_then
  fit_analog_keeps px force p default = ground (
    arith,
    laws.get_other key_hdmi (key_analog k) (compatible_analog px) default p.world
        (λ h. analog-ne-hdmi k (sym h)),
  )

  fit_hdmi_keeps :
      (key : Bytes) (px : DsPixels) (force : Bool) (p : VideoPort W) (default : Bytes)
      → key ≢ key_hdmi
      → hal.property key default (fit_hdmi k hal table px force p).world
        ≡ hal.property key default p.world
  unfolding fit_hdmi persist_then
  fit_hdmi_keeps key px force p default n =
      ground (arith, laws.get_other key key_hdmi (compatible_hdmi px) default p.world n)

  stored_then :
      (key name default : Bytes) (next : VideoPort W → VideoPort W) (p : VideoPort W)
      → ((w : W)
          → hal.property key default (next (record p { world = w })).world
            ≡ hal.property key default w)
      → hal.property key default (persist_then k hal table key name next p).world ≡ some name
  unfolding persist_then
  stored_then key name default next p keeps =
      ap (λ (q : VideoPort W). hal.property key default q.world)
        (if_true _ _ _ (laws.persists key name p.world))
      ∙ keeps _
      ∙ laws.get_same key name default p.world

  -- The name that was persisted for a port is the property under the port's key.
  pub persist_for_stored :
      (t : PortType) (r : DsResolution) (force : Bool) (p : VideoPort W) (default : Bytes)
      → IsCached t
      → hal.property (key_for k t) default (persist_for k hal table t r force p).world
        ≡ some r.ds_name
  unfolding persist_for note_hdmi note_component
  persist_for_stored hdmi r force p default c =
      stored_then key_hdmi r.ds_name default (note_hdmi k hal table r force) p
        (λ w. fit_analog_keeps r.ds_pixels force _ default)
  persist_for_stored internal r force p default c =
      stored_then key_hdmi r.ds_name default (note_hdmi k hal table r force) p
        (λ w. fit_analog_keeps r.ds_pixels force _ default)
  persist_for_stored component r force p default c =
      stored_then (key_analog k) r.ds_name default (note_component k hal table r force) p
        (λ w. fit_hdmi_keeps (key_analog k) r.ds_pixels force _ default (analog-ne-hdmi k))
  persist_for_stored bb r force p default c =
      stored_then key_baseband r.ds_name default
        (λ q. fit_hdmi k hal table r.ds_pixels false (record q { bb_resolution = r.ds_name })) p
        (λ w. fit_hdmi_keeps key_baseband r.ds_pixels false _ default baseband-ne-hdmi)
  persist_for_stored rf r force p default c =
      stored_then key_rf r.ds_name default
        (λ q. fit_hdmi k hal table r.ds_pixels false (record q { rf_resolution = r.ds_name })) p
        (λ w. fit_hdmi_keeps key_rf r.ds_pixels false _ default rf-ne-hdmi)
  persist_for_stored svideo r force p default c = absurd c
  persist_for_stored firewire r force p default c = absurd c
  persist_for_stored dvi r force p default c = absurd c

module _ (k : Constants) {W : Type 0} (hal : Hal W) where
  apply_force_names :
      (value : Bytes) (p : VideoPort W)
      → ((apply_force_4k k hal value p).hdmi_resolution ≡ p.hdmi_resolution)
        × (((apply_force_4k k hal value p).comp_resolution ≡ p.comp_resolution)
            × (((apply_force_4k k hal value p).bb_resolution ≡ p.bb_resolution)
                × ((apply_force_4k k hal value p).rf_resolution ≡ p.rf_resolution)))
  unfolding apply_force_4k
  apply_force_names value p = ground arith

  read_some :
      (key default v : Bytes) (next : Bytes → VideoPort W → VideoPort W) (p : VideoPort W)
      → hal.property key default p.world ≡ some v
      → read_then k hal key default next p ≡ next v p
  read_some key default v next p e =
      ap (λ o. elim o as (λ _. VideoPort W) [ none ↦ p | some value ↦ next value p ]) e

  -- What is read from the persistence where nothing throws.
  persistence_names :
      (p : VideoPort W) (h c r b f : Bytes)
      → hal.property key_hdmi (default_by_profile k) p.world ≡ some h
      → hal.property (key_analog k) (default_by_profile k) p.world ≡ some c
      → hal.property key_rf (default_by_profile k) p.world ≡ some r
      → hal.property key_baseband (default_by_profile k) p.world ≡ some b
      → hal.property key_force_4k (codes "false") p.world ≡ some f
      → get_persistence_value k hal p
        ≡ apply_force_4k k hal f (record p {
          hdmi_resolution = h;
          comp_resolution = c;
          rf_resolution = r;
          bb_resolution = b;
        })
  unfolding get_persistence_value with_hdmi with_comp with_rf with_bb
  persistence_names p h c r b f eh ec er eb ef =
      let d = default_by_profile k in
      read_some key_hdmi d h (with_hdmi k hal) p eh
      ∙ read_some (key_analog k) d c (with_comp k hal) (record p { hdmi_resolution = h }) ec
      ∙ read_some key_rf d r (with_rf k hal) (record p { hdmi_resolution = h; comp_resolution = c })
          er
      ∙ read_some key_baseband d b (with_bb k hal)
          (record p { hdmi_resolution = h; comp_resolution = c; rf_resolution = r }) eb
      ∙ read_some key_force_4k (codes "false") f (apply_force_4k k hal)
          (record p {
            hdmi_resolution = h;
            comp_resolution = c;
            rf_resolution = r;
            bb_resolution = b;
          })
          ef

  abbrev pub Reads : W → Type 0
  Reads w = (key default : Bytes) → (v : Bytes) × (hal.property key default w ≡ some v)

  names_read :
      (p : VideoPort W) (reads : Reads p.world)
      → ((get_persistence_value k hal p).hdmi_resolution
          ≡ (reads key_hdmi (default_by_profile k)).0)
        × (((get_persistence_value k hal p).comp_resolution
              ≡ (reads (key_analog k) (default_by_profile k)).0)
            × (((get_persistence_value k hal p).bb_resolution
                  ≡ (reads key_baseband (default_by_profile k)).0)
                × ((get_persistence_value k hal p).rf_resolution
                    ≡ (reads key_rf (default_by_profile k)).0)))
  names_read p reads =
      let d = default_by_profile k in
      let e =
        persistence_names p (reads key_hdmi d).0 (reads (key_analog k) d).0 (reads key_rf d).0
          (reads key_baseband d).0 (reads key_force_4k (codes "false")).0 (reads key_hdmi d).1
          (reads (key_analog k) d).1 (reads key_rf d).1 (reads key_baseband d).1
          (reads key_force_4k (codes "false")).1 in
      let a = apply_force_names (reads key_force_4k (codes "false")).0 (record p {
        hdmi_resolution = (reads key_hdmi d).0;
        comp_resolution = (reads (key_analog k) d).0;
        rf_resolution = (reads key_rf d).0;
        bb_resolution = (reads key_baseband d).0;
      }) in
      (
        ap (λ (q : VideoPort W). q.hdmi_resolution) e ∙ a.0,
        (
          ap (λ (q : VideoPort W). q.comp_resolution) e ∙ a.1.0,
          (
            ap (λ (q : VideoPort W). q.bb_resolution) e ∙ a.1.1.0,
            ap (λ (q : VideoPort W). q.rf_resolution) e ∙ a.1.1.1,
          ),
        ),
      )

  same_read :
      (key default name : Bytes) (w : W) (reads : Reads w)
      → hal.property key default w ≡ some name
      → (reads key default).0 ≡ name
  same_read key default name w reads e = let v = (reads key default).1 in some_injective (sym v ∙ e)

  -- A name that the persistence holds for a port is cached for it once the process has started.
  loaded :
      (t : PortType) (name : Bytes) (p : VideoPort W)
      → Reads p.world
      → IsCached t
      → name ≢ []
      → hal.property (key_for k t) (default_by_profile k) p.world ≡ some name
      → cached_resolution k t (get_persistence_value k hal p) ≡ name
  loaded hdmi name p reads i n e =
      cached_hdmi k _ name n ((names_read p reads).0 ∙ same_read key_hdmi _ name p.world reads e)
  loaded internal name p reads i n e =
      cached_internal k _ name n
        ((names_read p reads).0 ∙ same_read key_hdmi _ name p.world reads e)
  loaded component name p reads i n e =
      cached_component k _ name n
        ((names_read p reads).1.0 ∙ same_read (key_analog k) _ name p.world reads e)
  loaded bb name p reads i n e =
      cached_bb k _ name n
        ((names_read p reads).1.1.0 ∙ same_read key_baseband _ name p.world reads e)
  loaded rf name p reads i n e =
      cached_rf k _ name n ((names_read p reads).1.1.1 ∙ same_read key_rf _ name p.world reads e)
  loaded svideo name p reads i n e = absurd i
  loaded firewire name p reads i n e = absurd i
  loaded dvi name p reads i n e = absurd i

module _ (k : Constants) {W : Type 0} (hal : Hal W) (table : List Resolution) where
  stored_taken :
      (laws : Persists hal) (t : PortType) (handle : ℕ) (r : DsResolution) (force : Bool)
      (p : VideoPort W) (default : Bytes)
      → IsCached t
      → (persisted_port_type hal handle p.world).0 ≡ some t
      → hal.property (key_for k t) default (persist_resolution k hal table handle r force p).world
        ≡ some r.ds_name
  unfolding persist_resolution
  stored_taken laws t handle r force p default c e =
      rw e (persist_for_stored k hal table laws t r force _ default c)

  -- A resolution whose name is not empty, set with success on a port, to be persisted, is cached for the
  -- port again when a process starts on a world with the same properties: if the HAL gives each port one
  -- handle, the port's fits 32 bits, and the persistence does as it is documented to do.
  pub set_video_port_resolution-restarted :
      (laws : Persists hal) (ports : PortType → ℕ × ℕ) (steady : IsSteady hal ports) (handle : ℕ)
      (t : PortType) (r : Resolution) (force : Bool) (p : VideoPort W) (lines : List Bytes) (w : W)
      → IsCached t
      → handle < word32
      → Fits hal ports steady t
      → (to_hal k r).ds_name ≢ []
      → (resolve_port_type hal handle p.world).0 ≡ some t
      → (set_video_port_resolution k hal table handle r true force p).0 ≡ error_none
      → SameProperties hal (set_video_port_resolution k hal table handle r true force p).1.world w
      → cached_resolution k t (get_persistence_value k hal (static_values lines w))
        ≡ (to_hal k r).ds_name
  set_video_port_resolution-restarted laws ports steady handle t r force p lines w c l f n e h s =
      let key = key_for k t in
      let d = default_by_profile k in
      loaded k hal t (to_hal k r).ds_name (static_values lines w) s.reads c n (
        s.same key d
        ∙ set_noted k hal table handle t true force
            (λ name q. hal.property key d q.world ≡ some name)
            (λ r q m.
              let q' = update_cached k t r.ds_name q in
              stored_taken laws t handle r force q' d c
                (persisted_port_type-resolve hal ports steady handle t p.world q'.world l f e))
            r p n e h)

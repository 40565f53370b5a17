-- ===== src/VideoPort/Cache/Ports.antt =====
-- Which port a handle is of, in the two searches of the source.
use entservices_devicesettin.Prelude.{
  ℕ, ◌≡◌, ◌≢◌, ◌<◌, refl, sym, ◌∙◌, Bool, true, false, ◌&&◌, Option, none, some, List, [], ◌∷◌,
  arith, ◌==◌, if◌then◌else◌,
}
use entservices_devicesettin.VideoPort.{
  PortType, hdmi, internal, component, bb, rf, as_int32, as_intptr, word32, Hal,
}
use entservices_devicesettin.VideoPort.Cache.{find_port, resolve_port_type, persisted_port_type}

-- The documented behavior of dsGetVideoPort: a port answers the same error and handle whenever it is asked.
abbrev pub IsSteady : {W : Type 0} → Hal W → (PortType → ℕ × ℕ) → Type 0
IsSteady {W} hal ports = (t : PortType) (w : W) → (hal.video_port t 0 w).0 ≡ ports t

unfoldable pub first_of : (PortType → ℕ × ℕ) → List PortType → (ℕ → Bool) → Option PortType
first_of ports [] same = none
first_of ports (t ∷ ts) same =
    if (ports t).0 == 0 && same (ports t).1 then some t else first_of ports ts same

abbrev choose : Bool → Bool → Bool → Bool → Bool → PortType → PortType → Option PortType
choose a b c d e u v =
    if a
    then some hdmi
    else if b
    then some u
    else if c
    then some v
    else if d
    then some bb
    else if e
    then some rf
    else none

same_choice :
    (n w : PortType → Bool) (t : PortType)
    → ((u : PortType) → n u ≡ false → w u ≡ false)
    → (n t ≡ true → w t ≡ true)
    → (w internal ≡ true → w component ≡ false)
    → choose (n hdmi) (n internal) (n component) (n bb) (n rf) internal component ≡ some t
    → choose (w hdmi) (w component) (w internal) (w bb) (w rf) component internal ≡ some t
same_choice n w t off on apart e =
    ground (arith, off hdmi, off internal, off component, off bb, off rf, on, apart, e)

module _ {W : Type 0} (hal : Hal W) (ports : PortType → ℕ × ℕ) (steady : IsSteady hal ports) where
  find_port_steady :
      (ts : List PortType) (same : ℕ → Bool) (w : W)
      → (find_port hal ts same w).0 ≡ first_of ports ts same
  unfolding find_port first_of
  find_port_steady [] same w = refl
  find_port_steady (t ∷ ts) same w =
      ground (arith, steady t w, find_port_steady ts same (hal.video_port t 0 w).1)

  narrow : ℕ → PortType → Bool
  narrow handle t = (ports t).0 == 0 && as_int32 (ports t).1 == handle

  wide : ℕ → PortType → Bool
  wide handle t = (ports t).0 == 0 && (ports t).1 == as_intptr handle

  -- A handle that compares equal to the extended one has its low half.
  wide-narrow :
      (handle : ℕ) (t : PortType)
      → handle < word32
      → narrow handle t ≡ false
      → wide handle t ≡ false
  unfolding narrow wide
  wide-narrow handle t l h = ground (arith, l, h)

  narrow-wide :
      (handle : ℕ) (t : PortType)
      → as_intptr (as_int32 (ports t).1) ≡ (ports t).1
      → narrow handle t ≡ true
      → wide handle t ≡ true
  unfolding narrow wide
  narrow-wide handle t f h = ground (arith, f, h)

  wide_once :
      (handle : ℕ) (t u : PortType)
      → (ports u).1 ≢ (ports t).1
      → wide handle t ≡ true
      → wide handle u ≡ false
  unfolding wide
  wide_once handle t u d h = ground (arith, d, h)

  -- With steady ports the answer of resolvePortTypeByHandle does not depend on the moment.
  pub resolve_port_type_steady :
      (handle : ℕ) (w w' : W)
      → (resolve_port_type hal handle w).0 ≡ (resolve_port_type hal handle w').0
  unfolding resolve_port_type
  resolve_port_type_steady handle w w' =
      let ts = hdmi ∷ internal ∷ component ∷ bb ∷ rf ∷ [] in
      find_port_steady ts (λ h. as_int32 h == handle) w
      ∙ sym (find_port_steady ts (λ h. as_int32 h == handle) w')

  resolved :
      (handle : ℕ) (w : W)
      → (resolve_port_type hal handle w).0
        ≡ choose
            (narrow handle hdmi)
            (narrow handle internal)
            (narrow handle component)
            (narrow handle bb)
            (narrow handle rf)
            internal
            component
  unfolding resolve_port_type narrow first_of
  resolved handle w =
      find_port_steady (hdmi ∷ internal ∷ component ∷ bb ∷ rf ∷ []) (λ h. as_int32 h == handle) w

  pub persisted_port_type_first :
      (handle : ℕ) (w : W)
      → (persisted_port_type hal handle w).0
        ≡ first_of ports (hdmi ∷ component ∷ internal ∷ bb ∷ rf ∷ []) (λ h. h == as_intptr handle)
  unfolding persisted_port_type
  persisted_port_type_first handle w =
      find_port_steady (hdmi ∷ component ∷ internal ∷ bb ∷ rf ∷ []) (λ h. h == as_intptr handle) w

  persisted :
      (handle : ℕ) (w : W)
      → (persisted_port_type hal handle w).0
        ≡ choose
            (wide handle hdmi)
            (wide handle component)
            (wide handle internal)
            (wide handle bb)
            (wide handle rf)
            component
            internal
  unfolding persisted_port_type wide first_of
  persisted handle w =
      find_port_steady (hdmi ∷ component ∷ internal ∷ bb ∷ rf ∷ []) (λ h. h == as_intptr handle) w

  -- Over the ports that the searches look at: the handle of the one that is found fits 32 bits, and the
  -- component and the internal port have different handles.
  pub record Fits (t : PortType) : Type 0 where
    pub fits : as_intptr (as_int32 (ports t).1) ≡ (ports t).1
    pub distinct : (ports component).1 ≢ (ports internal).1

  -- Where a port's handle fits 32 bits, persistVideoPortResolution takes the interface's handle for the port for
  -- which SetVideoPortResolution took it, although the two compare it differently and ask the ports in another
  -- order.
  pub persisted_port_type-resolve :
      (handle : ℕ) (t : PortType) (w w' : W)
      → handle < word32
      → Fits t
      → (resolve_port_type hal handle w).0 ≡ some t
      → (persisted_port_type hal handle w').0 ≡ some t
  persisted_port_type-resolve handle t w w' l f e =
      persisted handle w'
      ∙ same_choice (narrow handle) (wide handle) t (λ u. wide-narrow handle u l)
          (narrow-wide handle t f.fits) (wide_once handle internal component f.distinct)
          (sym (resolved handle w) ∙ e)

-- ===== src/Fpd/Platform/Readback.antt =====
-- What the front panel answers after it was set.
use entservices_devicesettin.Prelude.{
  ℕ, zero, suc, ◌<◌, ◌≤◌, ◌≡◌, refl, sym, ap, ◌∙◌, Bool, true, false, ◌&&◌, List, [], ◌∷◌, arith,
  ◌==◌, ltb, leb, length, if◌then◌else◌, if_true, ltb→lt,
}
use entservices_devicesettin.Device.{error_none, error_general}
use entservices_devicesettin.Fpd.{Constants, Host, PanelState, Settings, Panel, ensure_plat_init}
use entservices_devicesettin.Fpd.Init.{
  ensure_plat_init_plat, ensure_plat_init_done, ensure_plat_init_settings,
}
use entservices_devicesettin.Fpd.Platform.{
  update, with_plat, note_brightness, switch_by, state_at, set_fpd_brightness, get_fpd_brightness,
  state_set, state_got, brightness_set, brightness_got, set_fpd_state, get_fpd_state,
}

state_at-update :
    {W : Type 0} (k : Constants) (host : Host W) (settings : List Settings) (i : ℕ)
    (state before : PanelState)
    → i < length settings
    → state_at k host (update settings i (λ s. record s { state = state })) i before ≡ state
state_at-update k host [] i state before l = absurd (omega (arith, l))
state_at-update k host (s ∷ settings) zero state before l = refl
state_at-update k host (s ∷ settings) (suc i) state before l =
    state_at-update k host settings i state before (omega (arith, l))

-- The shape of the operations that call the HAL: they succeed only past both tests.
pub gate :
    {A W : Type 0} (b c : Bool) (x : (ℕ × A) × Panel W) (y z : Panel W) (a : A)
    → (if b then (if c then x else ((error_general, a), y)) else ((error_general, a), z)).0.0
      ≡ error_none
    → (b ≡ true)
      × ((c ≡ true)
          × ((if b then (if c then x else ((error_general, a), y)) else ((error_general, a), z))
              ≡ x))
gate true true x y z a h = (refl, (refl, refl))
gate true false x y z a h = absurd (cc)
gate false c x y z a h = absurd (cc)

module _ (k : Constants) {W : Type 0} (host : Host W) where
  -- An operation succeeds only on a HAL that is initialized.
  pub with_plat_success :
      {A : Type 0} (a : A) (f : Panel W → (ℕ × A) × Panel W) (r : Bool × Panel W)
      → (with_plat k host a f r).0.0 ≡ error_none
      → (r.0 ≡ true) × (with_plat k host a f r ≡ f r.1)
  unfolding with_plat
  with_plat_success a f (false, p) h = absurd (cc)
  with_plat_success a f (true, p) h = (refl, refl)

  -- A success of SetFPDState on an initialized HAL leaves the state in the cache.
  state_set_success :
      (indicator : ℕ) (state : PanelState) (p : Panel W)
      → (state_set k host indicator state p).0.0 ≡ error_none
      → (indicator < k.indicator_max)
        × (((state_set k host indicator state p).1.is_plat_initialized ≡ p.is_plat_initialized)
            × ((state_set k host indicator state p).1.settings
                ≡ update p.settings indicator (λ s. record s { state = state })))
  unfolding state_set
  state_set_success indicator state p h =
      let g =
        gate (ltb indicator k.indicator_max) ((switch_by k host state indicator p).0 == 0) _ _ _ tt
          h in
      (
        ltb→lt indicator k.indicator_max g.0,
        (ap (λ r. r.1.is_plat_initialized) g.1.1, ap (λ r. r.1.settings) g.1.1),
      )

  -- What EnsurePlatInit left before an operation that succeeded.
  start_of_success :
      {A : Type 0} (a : A) (f : Panel W → (ℕ × A) × Panel W) (p : Panel W)
      → (with_plat k host a f (ensure_plat_init k host p)).0.0 ≡ error_none
      → (q : Panel W) × ((q.is_plat_initialized ≡ true)
          × ((q.settings ≡ p.settings) × (with_plat k host a f (ensure_plat_init k host p) ≡ f q)))
  start_of_success a f p h =
      let s = with_plat_success a f (ensure_plat_init k host p) h in
      (
        (ensure_plat_init k host p).1,
        (ensure_plat_init_plat k host p s.0, (ensure_plat_init_settings k host p, s.1)),
      )

  get_state_of :
      (indicator : ℕ) (state before : PanelState) (q : Panel W)
      → q.is_plat_initialized ≡ true
      → indicator < k.indicator_max
      → state_at k host q.settings indicator before ≡ state
      → (get_fpd_state k host indicator before q).0 ≡ (error_none, state)
  unfolding get_fpd_state with_plat state_got
  get_state_of indicator state before q e l s =
      ap (λ r. (with_plat k host before (state_got k host indicator before) r).0)
        (ensure_plat_init_done k host q e)
      ∙ ap (λ (r : (ℕ × PanelState) × Panel W). r.0)
          (if_true (ltb indicator k.indicator_max) _ _ (ground (arith, l)))
      ∙ ap (λ t. (error_none, t)) s

  -- A state that SetFPDState has set is what GetFPDState answers for the indicator: the cache has an entry
  -- for each indicator.
  pub set_fpd_state-get :
      (indicator : ℕ) (state before : PanelState) (p : Panel W)
      → length p.settings ≡ k.indicator_max
      → (set_fpd_state k host indicator state p).0.0 ≡ error_none
      → (get_fpd_state k host indicator before (set_fpd_state k host indicator state p).1).0
        ≡ (error_none, state)
  unfolding set_fpd_state
  set_fpd_state-get indicator state before p l h =
      let o = start_of_success tt (state_set k host indicator state) p h in
      let e : set_fpd_state k host indicator state p ≡ state_set k host indicator state o.0 =
        o.1.1.1 in
      let s = state_set_success indicator state o.0 (sym (ap (λ r. r.0.0) e) ∙ h) in
      ap (λ r. (get_fpd_state k host indicator before r.1).0) e
      ∙ get_state_of indicator state before (state_set k host indicator state o.0).1 (s.1.0 ∙ o.1.0)
          s.0
          (ap (λ t. state_at k host t indicator before)
              (s.1.1 ∙ ap (λ t. update t indicator (λ s. record s { state = state })) o.1.1.0)
            ∙ state_at-update k host p.settings indicator state before (omega (arith, s.0, l)))

  note_brightness_persistent :
      (brightness : ℕ) (p : Panel W)
      → ((note_brightness k host k.indicator_power brightness true p).is_plat_initialized
          ≡ p.is_plat_initialized)
        × ((note_brightness k host k.indicator_power brightness true p).power_brightness
            ≡ brightness)
  unfolding note_brightness
  note_brightness_persistent brightness p =
      let e : k.indicator_power == k.indicator_power && true ≡ true = ground arith in
      (
        ap (λ (q : Panel W). q.is_plat_initialized) (if_true _ _ _ e),
        ap (λ (q : Panel W). q.power_brightness) (if_true _ _ _ e),
      )

  -- A success of SetFPDBrightness on an initialized HAL.
  brightness_set_success :
      (brightness : ℕ) (p : Panel W)
      → (brightness_set k host k.indicator_power brightness true p).0.0 ≡ error_none
      → (brightness ≤ k.brightness_max)
        × (((brightness_set k host k.indicator_power brightness true p).1.is_plat_initialized
              ≡ p.is_plat_initialized)
            × ((brightness_set k host k.indicator_power brightness true p).1.power_brightness
                ≡ brightness))
  unfolding brightness_set
  brightness_set_success brightness p h =
      let g =
        gate (ltb k.indicator_power k.indicator_max && leb brightness k.brightness_max)
          ((host.set_fp_brightness k.indicator_power brightness p.world).0 == 0) _ _ _ tt h in
      let n =
        note_brightness_persistent brightness
          (record p { world = (host.set_fp_brightness k.indicator_power brightness p.world).1 }) in
      (
        ground (arith, g.0),
        (ap (λ r. r.1.is_plat_initialized) g.1.1 ∙ n.0, ap (λ r. r.1.power_brightness) g.1.1 ∙ n.1),
      )

  get_brightness_of :
      (indicator before : ℕ) (q : Panel W)
      → q.is_plat_initialized ≡ true
      → indicator < k.indicator_max
      → (get_fpd_brightness k host indicator before true q).0 ≡ (error_none, q.power_brightness)
  unfolding get_fpd_brightness with_plat brightness_got
  get_brightness_of indicator before q e l =
      ap (λ r. (with_plat k host before (brightness_got k host indicator before true) r).0)
        (ensure_plat_init_done k host q e)
      ∙ ap (λ (r : (ℕ × ℕ) × Panel W). r.0)
          (if_true (ltb indicator k.indicator_max) _ _ (ground (arith, l)))

  -- A brightness that was set for the power indicator to be persisted is within the limit, and it is the
  -- persisted brightness that GetFPDBrightness answers then, for every indicator.
  pub set_fpd_brightness-get :
      (brightness indicator before : ℕ) (p : Panel W)
      → (set_fpd_brightness k host k.indicator_power brightness true p).0.0 ≡ error_none
      → indicator < k.indicator_max
      → (brightness ≤ k.brightness_max)
        × ((get_fpd_brightness k host indicator before true
              (set_fpd_brightness k host k.indicator_power brightness true p).1).0
            ≡ (error_none, brightness))
  unfolding set_fpd_brightness
  set_fpd_brightness-get brightness indicator before p h l =
      let o = start_of_success tt (brightness_set k host k.indicator_power brightness true) p h in
      let e : set_fpd_brightness k host k.indicator_power brightness true p
          ≡ brightness_set k host k.indicator_power brightness true o.0 =
        o.1.1.1 in
      let s = brightness_set_success brightness o.0 (sym (ap (λ r. r.0.0) e) ∙ h) in
      (
        s.0,
        ap (λ r. (get_fpd_brightness k host indicator before true r.1).0) e
            ∙ get_brightness_of indicator before
                (brightness_set k host k.indicator_power brightness true o.0).1 (s.1.0 ∙ o.1.0) l
            ∙ ap (λ b. (error_none, b)) s.1.1,
      )

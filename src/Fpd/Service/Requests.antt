-- ===== src/Fpd/Service/Requests.antt =====
-- The requests that clients make of the front panel, from the interface down to the HAL.
use entservices_devicesettin.Prelude.{
  ℕ, ◌<◌, ◌≤◌, ◌≡◌, refl, ap, ◌∙◌, Bool, true, false, length, arith,
}
use entservices_devicesettin.Device.{error_none}
use entservices_devicesettin.Fpd.{Constants, Host, PanelState, Panel}
use entservices_devicesettin.Fpd.Platform.{
  set_fpd_state, get_fpd_state, set_fpd_brightness, get_fpd_brightness,
}
use entservices_devicesettin.Fpd.Platform.Readback.{set_fpd_state-get, set_fpd_brightness-get}
use entservices_devicesettin.Fpd.Component.{
  passes_set_state, passes_get_state, passes_set_brightness, passes_get_brightness,
}
use entservices_devicesettin.Fpd.Service.{
  answer, service_set_state, service_get_state, service_set_brightness, service_get_brightness,
}

-- The interface reports a success exactly where the component did.
answer_success :
    {A W : Type 0} (r : (ℕ × A) × Panel W) → (answer r).0.0 ≡ error_none → r.0.0 ≡ error_none
answer_success ((result, a), p) h = ground (arith, h)

answer_state : {A W : Type 0} (r : (ℕ × A) × Panel W) → (answer r).1 ≡ r.1
answer_state ((result, a), p) = refl

answer_of :
    {A W : Type 0} (r : (ℕ × A) × Panel W) (a : A)
    → r.0 ≡ (error_none, a)
    → (answer r).0 ≡ (error_none, a)
answer_of ((result, b), p) a e = ap (λ (r : ℕ × _). (answer (r, p)).0) e

module _ (k : Constants) {W : Type 0} (host : Host W) where
  -- A state that a client has set with success is what the next client is told, with success, for that
  -- indicator; the cache has an entry for each indicator. It succeeds only where there is a platform layer.
  pub service_set_state-get :
      (platform : Bool) (indicator : ℕ) (state before : PanelState) (p : Panel W)
      → length p.settings ≡ k.indicator_max
      → (service_set_state k host platform indicator state p).0.0 ≡ error_none
      → (platform ≡ true)
        × ((service_get_state k host platform indicator before
              (service_set_state k host platform indicator state p).1).0
            ≡ (error_none, state))
  unfolding service_set_state service_get_state passes_set_state passes_get_state
  service_set_state-get false indicator state before p l h = absurd (cc)
  service_set_state-get true indicator state before p l h = (
    refl,
    ap (λ q. (answer (get_fpd_state k host indicator before q)).0)
          (answer_state (set_fpd_state k host indicator state p))
        ∙ answer_of
            (get_fpd_state k host indicator before (set_fpd_state k host indicator state p).1) state
            (set_fpd_state-get k host indicator state before p l
              (answer_success (set_fpd_state k host indicator state p) h)),
  )

  -- A brightness that a client has set with success for the power indicator, to be persisted, is within
  -- the limit, and it is what every client is told then as the persisted brightness of any indicator.
  pub service_set_brightness-get :
      (platform : Bool) (brightness indicator before : ℕ) (p : Panel W)
      → (service_set_brightness k host platform k.indicator_power brightness true p).0.0
        ≡ error_none
      → indicator < k.indicator_max
      → (brightness ≤ k.brightness_max)
        × ((service_get_brightness k host platform indicator before true
              (service_set_brightness k host platform k.indicator_power brightness true p).1).0
            ≡ (error_none, brightness))
  unfolding service_set_brightness service_get_brightness passes_set_brightness
      passes_get_brightness
  service_set_brightness-get false brightness indicator before p h l = absurd (cc)
  service_set_brightness-get true brightness indicator before p h l =
      let r =
        set_fpd_brightness-get k host brightness indicator before p
          (answer_success (set_fpd_brightness k host k.indicator_power brightness true p) h) l in
      (
        r.0,
        ap (λ q. (answer (get_fpd_brightness k host indicator before true q)).0)
              (answer_state (set_fpd_brightness k host k.indicator_power brightness true p))
            ∙ answer_of
                (get_fpd_brightness k host indicator before true
                  (set_fpd_brightness k host k.indicator_power brightness true p).1)
                brightness r.1,
      )

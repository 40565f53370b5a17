-- ===== src/Fpd/Platform/Brightness.antt =====
-- The brightness after the process has been started again.
use entservices_devicesettin.Prelude.{
  ℕ, ◌<◌, ◌≡◌, refl, sym, ap, ◌∙◌, Bool, true, false, ◌&&◌, Option, none, some, arith, ◌==◌,
  if◌then◌else◌, ltb, leb, Bytes, Bool-cases, inl, inr, if_true, if_false,
}
use entservices_devicesettin.Device.{error_none}
use entservices_devicesettin.Fpd.{
  Constants, Host, Panel, key_power, key_text, corrected, initialise_hal, try_init, init_tries,
  property_or_default, load_color, load_text, load_power, load_persisted, after_tries,
  ensure_plat_init,
}
use entservices_devicesettin.Fpd.Numbers.{to_string, atoi, atoi-to_string}
use entservices_devicesettin.Fpd.Platform.{note_brightness, brightness_set, set_fpd_brightness}
use entservices_devicesettin.Fpd.Platform.Persistence.{
  Persists, restarted, Holds, de_initialise_hal-Holds, try_init-Holds,
}
use entservices_devicesettin.Fpd.Platform.Readback.{gate, with_plat_success}

module _ (k : Constants) {W : Type 0} (host : Host W) (laws : Persists host) where
  brightness_set-Holds :
      (brightness : ℕ) (p : Panel W)
      → (brightness_set k host k.indicator_power brightness true p).0.0 ≡ error_none
      → Holds host key_power
          (some (to_string brightness))
          (brightness_set k host k.indicator_power brightness true p).1
  unfolding brightness_set note_brightness
  brightness_set-Holds brightness p h =
      let g =
        gate (ltb k.indicator_power k.indicator_max && leb brightness k.brightness_max)
          ((host.set_fp_brightness k.indicator_power brightness p.world).0 == 0) _ _ _ tt h in
      ap (λ r. host.get_property key_power r.1.world) g.1.1
      ∙ ap (λ (q : Panel W). host.get_property key_power q.world)
          (if_true (k.indicator_power == k.indicator_power && true) _ _ (ground arith))
      ∙ laws.get_same key_power _ _

  set_fpd_brightness-Holds :
      (brightness : ℕ) (p : Panel W)
      → (set_fpd_brightness k host k.indicator_power brightness true p).0.0 ≡ error_none
      → Holds host key_power
          (some (to_string brightness))
          (set_fpd_brightness k host k.indicator_power brightness true p).1
  unfolding set_fpd_brightness
  set_fpd_brightness-Holds brightness p h =
      let s =
        with_plat_success k host tt (brightness_set k host k.indicator_power brightness true)
          (ensure_plat_init k host p) h in
      let e : set_fpd_brightness k host k.indicator_power brightness true p
          ≡ brightness_set k host k.indicator_power brightness true (ensure_plat_init k host p).1 =
        s.1 in
      ap (λ r. host.get_property key_power r.1.world) e
      ∙ brightness_set-Holds brightness (ensure_plat_init k host p).1 (sym (ap (λ r. r.0.0) e) ∙ h)

  -- Reading the text brightness does not fail, and the power brightness is corrected after it.
  load_text_power :
      (o : Option Bytes) (w : W) (q : Panel W)
      → (load_text k host (property_or_default k host o key_text w) q).power_brightness
        ≡ corrected k q.power_brightness
  unfolding load_text load_color property_or_default
  load_text_power (some v) w q = refl
  load_text_power none w q =
      ap
        (λ o.
          (load_text k host
            (o, (host.persist_property key_text (to_string k.brightness_default) w).1)
            q).power_brightness)
        (if_true _ _ _ (laws.persists _ _ w))

  load_persisted_power :
      (value : Bytes) (q : Panel W)
      → Holds host key_power (some value) q
      → (load_persisted k host q).power_brightness ≡ corrected k (atoi value)
  unfolding load_persisted load_power property_or_default
  load_persisted_power value q h =
      ap
        (λ o.
          (load_power k host (property_or_default k host o key_power q.world) q).power_brightness)
        h
      ∙ load_text_power (host.get_property key_text q.world) q.world _

  after_tries_power :
      (value : Bytes) (q : Panel W)
      → Holds host key_power (some value) q
      → (after_tries k host q).0 ≡ true
      → (after_tries k host q).1.power_brightness ≡ corrected k (atoi value)
  unfolding after_tries
  after_tries_power value q h t = elim (Bool-cases q.is_plat_initialized) [
    | inl e ↦
        ap (λ (r : Bool × Panel W). r.1.power_brightness) (if_true _ _ _ e)
        ∙ load_persisted_power value q h
    | inr e ↦ absurd (false_true (sym (ap (λ (r : Bool × Panel W). r.0) (if_false _ _ _ e)) ∙ t))
  ]
    where
      false_true : false ≡ true → ⊥
      false_true h = cc

  -- A maximum that was persisted is read as the default.
  corrected_lem :
      (brightness : ℕ)
      → corrected k brightness
        ≡ (if brightness == k.brightness_max then k.brightness_default else brightness)
  corrected_lem brightness = ground arith

  -- On a host whose persistence throws nothing and reads back what was persisted: a brightness of
  -- 32 bits that was set for the power indicator with success, to be persisted, is there again after a restart in
  -- which the HAL gets initialized; only the maximum comes back as the default brightness, whatever that is.
  pub set_fpd_brightness-restarted :
      (brightness : ℕ) (p : Panel W)
      → brightness < 4294967296
      → (set_fpd_brightness k host k.indicator_power brightness true p).0.0 ≡ error_none
      → (ensure_plat_init k host
          (restarted k host (set_fpd_brightness k host k.indicator_power brightness true p).1)).0
        ≡ true
      → (ensure_plat_init k host (
          restarted k host
            (set_fpd_brightness k host k.indicator_power brightness true p).1)).1.power_brightness
        ≡ (if brightness == k.brightness_max then k.brightness_default else brightness)
  unfolding ensure_plat_init initialise_hal
  set_fpd_brightness-restarted brightness p l h t =
      after_tries_power (to_string brightness)
        (try_init k host init_tries
          (restarted k host (set_fpd_brightness k host k.indicator_power brightness true p).1))
        (try_init-Holds k host laws key_power init_tries _
          (restarted k host (set_fpd_brightness k host k.indicator_power brightness true p).1)
          (de_initialise_hal-Holds k host laws key_power _
            (set_fpd_brightness k host k.indicator_power brightness true p).1
            (set_fpd_brightness-Holds brightness p h)))
        t
      ∙ ap (corrected k) (atoi-to_string brightness l)
      ∙ corrected_lem brightness
